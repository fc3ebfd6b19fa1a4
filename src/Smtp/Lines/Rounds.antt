-- ===== src/Smtp/Lines/Rounds.antt =====
-- The rounds of smtp_tx_dataline() (usr.sbin/smtpd/smtp_session.c), by their rank.
use open_smtpd.Base.{
  ℕ, zero, suc, ◌<◌, ◌≡◌, refl, ap, inl, inr, Bool, true, false, Option, none, some, [], ◌∷◌, ◌++◌,
  arith, Bool-cases,
}
use open_smtpd.Smtp.Text.{Text, codes, strcasecmp}
use open_smtpd.Smtp.Parser.{
  Part, part_none, header_start, header_cont, header_end, end_of_headers, body_start, body,
  end_of_message, Parser, Result, Next, failed, found, header_cont_of, fold_line, header_end_of,
  in_header, store_header, header_of, between_headers, after_headers, in_body, next_part,
  rfc5322_next,
}
use open_smtpd.Smtp.Types.{Content}
use open_smtpd.Smtp.Content.{
  Writer, is_ok, smtp_message_printf, Round, again, ended, is_one_of, rewritten, value_of,
  dataline_received, dataline_header, dataline_cont, dataline_end, add_headers, dataline_part,
  dataline_round, after_round, dataline_loop,
}
use open_smtpd.Smtp.Lines.Kept.{
  printf-parser, SameTurn, KeepsTurn, keeps_eq, add_headers-parser, header-KeepsTurn, cont-parser,
  end-parser,
}

-- How many rounds are to come: none when the parser wants a line.
unfoldable pub rank_of : Bool → Option Part → ℕ
rank_of true part = 0
rank_of false (some header_start) = 4
rank_of false (some header_cont) = 4
rank_of false (some part_none) = 3
rank_of false (some header_end) = 3
rank_of false (some end_of_headers) = 2
rank_of false (some body_start) = 1
rank_of false (some body) = 1
rank_of false (some end_of_message) = 0
rank_of false none = 0

unfoldable pub rank : Parser → ℕ
unfolding rank_of
rank p = rank_of p.next p.state

-- Between two lines: no header is complete, and the message is not at its end.
abbrev pub at_rest : Option Part → Bool
at_rest (some part_none) = true
at_rest (some header_start) = true
at_rest (some header_cont) = true
at_rest (some body_start) = true
at_rest (some body) = true
at_rest _ = false

abbrev pub Rests : Parser → Type 0
Rests p = (p.line ≡ none) × (at_rest p.state ≡ true)

-- After a part that asks for another round the rank is lower; the parser is at rest if it wants a line.
abbrev Goes : ℕ → Next → Type 0
Goes n (p, none) = Unit
Goes n (p, some (part_none, res)) = ⊥
Goes n (p, some (end_of_message, res)) = Unit
Goes n (p, some (part, res)) = (rank p < n) × (p.next ≡ true → Rests p)

module _ (p : Parser) (wants : p.next ≡ false) where
  in_header-Goes : (line : Option Text) → Goes 4 (in_header p line)
  unfolding in_header header_cont_of header_end_of fold_line rank found failed
  in_header-Goes none = ground arith
  in_header-Goes (some []) = ground arith
  in_header-Goes (some (c ∷ line)) = ground arith

  between-Goes : (line : Option Text) → Goes 3 (between_headers p line)
  unfolding between_headers header_of store_header rank found failed
  between-Goes none = ground arith
  between-Goes (some []) = ground arith
  between-Goes (some (c ∷ line)) = ground arith

  after-Goes : (line : Option Text) → Goes 2 (after_headers p line)
  unfolding after_headers rank found failed
  after-Goes none = tt
  after-Goes (some []) = ground arith
  after-Goes (some (c ∷ line)) = tt

  in_body-Goes : (line : Option Text) → Goes 1 (in_body p line)
  unfolding in_body rank found
  in_body-Goes none = tt
  in_body-Goes (some line) = ground arith

  next_part-Goes : (state : Option Part) → Goes (rank_of false state) (next_part state p)
  unfolding next_part rank_of failed
  next_part-Goes (some header_start) = in_header-Goes p.line
  next_part-Goes (some header_cont) = in_header-Goes p.line
  next_part-Goes (some part_none) = between-Goes p.line
  next_part-Goes (some header_end) = between-Goes p.line
  next_part-Goes (some end_of_headers) = after-Goes p.line
  next_part-Goes (some body_start) = in_body-Goes p.line
  next_part-Goes (some body) = in_body-Goes p.line
  next_part-Goes (some end_of_message) = tt
  next_part-Goes none = tt

-- What a round comes to: another round of lower rank; or the end, at rest unless there is an error.
abbrev Ends : ℕ → Round → Type 0
Ends n (again c) = (rank c.parser < n) × (c.parser.next ≡ true → Rests c.parser)
Ends n (ended c true) = Unit
Ends n (ended c false) = is_ok c.error ≡ true → Rests c.parser

Ends-of-again :
    (p q : Parser) (n : ℕ)
    → SameTurn p q
    → (rank p < n) × (p.next ≡ true → Rests p)
    → (rank q < n) × (q.next ≡ true → Rests q)
unfolding rank
Ends-of-again p q n same h = ground arith

abbrev pub NoEnd : Round → Type 0
NoEnd (again c) = Unit
NoEnd (ended c true) = ⊥
NoEnd (ended c false) = is_ok c.error ≡ false

Ends-of-NoEnd :
    (p : Parser) (n : ℕ) (r : Round)
    → KeepsTurn p r
    → NoEnd r
    → (rank p < n) × (p.next ≡ true → Rests p)
    → Ends n r
Ends-of-NoEnd p n (again c) k h g = Ends-of-again p c.parser n k.turn g
Ends-of-NoEnd p n (ended c true) k h g = absurd h
Ends-of-NoEnd p n (ended c false) k h g = λ ok. cc

received-NoEnd : (w : Writer) (c : Content) (res : Result) → NoEnd (dataline_received w c res)
unfolding dataline_received
received-NoEnd w c res = ground arith

pub header-NoEnd : (w : Writer) (c : Content) (res : Result) → NoEnd (dataline_header w c res)
unfolding dataline_header
header-NoEnd w c res = elim (Bool-cases (strcasecmp (codes "Bcc") res.hdr)) [
  | inl b ↦ rw b tt
  | inr b ↦ rw b (elim (Bool-cases (is_one_of rewritten res.hdr)) [
    | inl t ↦ rw t tt
    | inr t ↦ rw t (elim (Bool-cases (strcasecmp (codes "Received") res.hdr)) [
      | inl r ↦ rw r (received-NoEnd w c res)
      | inr r ↦ rw r tt
    ])
  ])
]

pub cont-NoEnd : (w : Writer) (c : Content) (res : Result) → NoEnd (dataline_cont w c res)
unfolding dataline_cont
cont-NoEnd w c res = ground arith

part-Ends :
    (w : Writer) (c : Content) (found : Option (Part × Result)) (n : ℕ)
    → Goes n (c.parser, found)
    → Ends n (dataline_part w c found)
unfolding dataline_part dataline_end
part-Ends w c none n g = λ ok. cc
part-Ends w c (some (part_none, res)) n g = absurd g
part-Ends w c (some (header_start, res)) n g =
    Ends-of-NoEnd c.parser n _ (header-KeepsTurn w c res) (header-NoEnd w c res) g
part-Ends w c (some (header_cont, res)) n g =
    Ends-of-NoEnd c.parser n _ (keeps_eq (cont-parser w c res)) (cont-NoEnd w c res) g
part-Ends w c (some (header_end, res)) n g =
    Ends-of-NoEnd c.parser n (dataline_end w c res) (keeps_eq (end-parser w c res)) tt g
part-Ends w c (some (end_of_headers, res)) n g =
    Ends-of-NoEnd c.parser n (again (add_headers w c)) (keeps_eq (add_headers-parser w c)) tt g
part-Ends w c (some (body_start, res)) n g =
    Ends-of-NoEnd c.parser n (again (smtp_message_printf w c (value_of res ++ 10 ∷ [])))
      (keeps_eq (printf-parser w c _)) tt g
part-Ends w c (some (body, res)) n g =
    Ends-of-NoEnd c.parser n (again (smtp_message_printf w c (value_of res ++ 10 ∷ [])))
      (keeps_eq (printf-parser w c _)) tt g
part-Ends w c (some (end_of_message, res)) n g = tt

-- The parser wants no line before the first call, or it is at rest.
abbrev pub Settled : Parser → Type 0
Settled p = p.next ≡ true → Rests p

rank-full : (p : Parser) → p.next ≡ false → rank p ≡ rank_of false p.state
unfolding rank
rank-full p h = ap (λ (b : Bool). rank_of b p.state) h

pub round-wants :
    (w : Writer) (c : Content) → c.parser.next ≡ true → dataline_round w c ≡ ended c false
unfolding dataline_round rfc5322_next dataline_part
round-wants w c h = simp h

pub round-full :
    (w : Writer) (c : Content)
    → c.parser.next ≡ false
    → let r = next_part c.parser.state c.parser in
      dataline_round w c ≡ dataline_part w (record c { parser = r.0 }) (r.1)
unfolding dataline_round rfc5322_next
round-full w c h = simp h

round-Ends :
    (w : Writer) (c : Content) → Settled c.parser → Ends (rank c.parser) (dataline_round w c)
round-Ends w c h = elim (Bool-cases (c.parser.next)) [
  | inl wants ↦ rw (round-wants w c wants) (λ ok. h wants)
  | inr full ↦ rw (round-full w c full) (
      rw (rank-full c.parser full)
        (part-Ends w _ _ _ (next_part-Goes c.parser full c.parser.state)))
]

-- How a line ends: the message with it, or at rest unless there is an error.
abbrev pub LineEnds : Content × Bool → Type 0
LineEnds (c, true) = Unit
LineEnds (c, false) = is_ok c.error ≡ true → Rests c.parser

abbrev LoopEnds : ℕ → Writer → Content → Type 0
LoopEnds n w c = (r : Content × Bool) × (dataline_loop n w c ≡ some r) × LineEnds r

round_case-LineEnds :
    (n m : ℕ) (w : Writer) (r : Round)
    → ((c : Content) → Settled c.parser → rank c.parser < n → LoopEnds n w c)
    → m < suc n
    → Ends m r
    → (x : Content × Bool) × (after_round (dataline_loop n w) r ≡ some x) × LineEnds x
unfolding after_round
round_case-LineEnds n m w (ended c true) rec lt e = ((c, true), refl, tt)
round_case-LineEnds n m w (ended c false) rec lt e = ((c, false), refl, e)
round_case-LineEnds n m w (again c) rec lt e = rec c (e.1) (omega arith)

pub loop-LineEnds :
    (n : ℕ) (w : Writer) (c : Content) → Settled c.parser → rank c.parser < n → LoopEnds n w c
unfolding dataline_loop
loop-LineEnds zero w c h lt = elim lt [ ]
loop-LineEnds (suc n) w c h lt =
    round_case-LineEnds n (rank c.parser) w (dataline_round w c)
      (λ c' h' lt'. loop-LineEnds n w c' h' lt') lt (round-Ends w c h)
