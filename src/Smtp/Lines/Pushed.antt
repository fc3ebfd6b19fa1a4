-- ===== src/Smtp/Lines/Pushed.antt =====
-- What is pushed into the parser of a message: its end, and a line (usr.sbin/smtpd/rfc5322.c).
use open_smtpd.Base.{
  ℕ, zero, suc, ◌<◌, ◌≡◌, refl, sym, ap, subst, ◌∙◌, inl, inr, Bool, true, false, Option, none,
  some, [], ◌∷◌, ◌++◌, arith, Bool-cases,
}
use open_smtpd.Smtp.Text.{Text}
use open_smtpd.Smtp.Parser.{
  Part, part_none, header_start, header_cont, header_end, end_of_headers, body_start, body,
  end_of_message, Parser, Result, Next, failed, found, header_cont_of, fold_line, header_end_of,
  in_header, store_header, header_of, between_headers, after_headers, in_body, next_part,
}
use open_smtpd.Smtp.Types.{Content}
use open_smtpd.Smtp.Content.{
  Writer, smtp_message_printf, Round, again, ended, value_of, dataline_end, add_headers,
  dataline_part, dataline_round, after_round, dataline_loop,
}
use open_smtpd.Smtp.Lines.Kept.{
  printf-parser, KeepsTurn, keeps_eq, add_headers-parser, header-KeepsTurn, cont-parser, end-parser,
}
use open_smtpd.Smtp.Lines.Rounds.{
  rank_of, rank, NoEnd, header-NoEnd, cont-NoEnd, Settled, round-wants, round-full,
}

-- While the end of the message is pushed: no line, and a state that goes on.
abbrev pub is_live : Option Part → Bool
is_live none = false
is_live (some end_of_message) = false
is_live (some part) = true

abbrev Dotted : Parser → Type 0
Dotted p = (p.next ≡ false) × (p.line ≡ none) × (is_live p.state ≡ true)

abbrev DotGoes : Next → Type 0
DotGoes (p, some (header_end, res)) = Dotted p
DotGoes (p, some (end_of_headers, res)) = Dotted p
DotGoes (p, some (end_of_message, res)) = Unit
DotGoes _ = ⊥

dot_state-DotGoes :
    (p : Parser) (state : Option Part)
    → p.next ≡ false
    → p.line ≡ none
    → is_live state ≡ true
    → DotGoes (next_part state p)
unfolding next_part in_header header_end_of between_headers after_headers in_body found
dot_state-DotGoes p (some header_start) n l h = rw l (ground arith)
dot_state-DotGoes p (some header_cont) n l h = rw l (ground arith)
dot_state-DotGoes p (some part_none) n l h = rw l (ground arith)
dot_state-DotGoes p (some header_end) n l h = rw l (ground arith)
dot_state-DotGoes p (some end_of_headers) n l h = rw l tt
dot_state-DotGoes p (some body_start) n l h = rw l tt
dot_state-DotGoes p (some body) n l h = rw l tt
dot_state-DotGoes p (some end_of_message) n l h = cc
dot_state-DotGoes p none n l h = cc

abbrev DotEnds : Round → Type 0
DotEnds (again c) = Dotted c.parser
DotEnds (ended c b) = b ≡ true

dot_part-DotEnds :
    (w : Writer) (c : Content) (found : Option (Part × Result))
    → DotGoes (c.parser, found)
    → DotEnds (dataline_part w c found)
unfolding dataline_part dataline_end
dot_part-DotEnds w c (some (header_end, res)) d = ground (arith, end-parser w c res)
dot_part-DotEnds w c (some (end_of_headers, res)) d = ground (arith, add_headers-parser w c)
dot_part-DotEnds w c (some (end_of_message, res)) d = refl
dot_part-DotEnds w c none d = absurd d
dot_part-DotEnds w c (some (part_none, res)) d = absurd d
dot_part-DotEnds w c (some (header_start, res)) d = absurd d
dot_part-DotEnds w c (some (header_cont, res)) d = absurd d
dot_part-DotEnds w c (some (body_start, res)) d = absurd d
dot_part-DotEnds w c (some (body, res)) d = absurd d

dot_round-DotEnds : (w : Writer) (c : Content) → Dotted c.parser → DotEnds (dataline_round w c)
dot_round-DotEnds w c d =
    rw (round-full w c d.0)
      (dot_part-DotEnds w _ _ (dot_state-DotGoes c.parser c.parser.state d.0 d.1 d.2))

Dotted-Settled : (p : Parser) → Dotted p → Settled p
Dotted-Settled p d = λ h. cc (d.0, h)

rank_of_bound : (b : Bool) (part : Option Part) → rank_of b part < 6
unfolding rank_of
rank_of_bound b part = ground arith

pub rank_bound : (p : Parser) → rank p < 6
unfolding rank
rank_bound p = rank_of_bound p.next p.state

pub dot_loop-eom :
    (n : ℕ) (w : Writer) (c : Content) {r : Content × Bool}
    → Dotted c.parser
    → dataline_loop n w c ≡ some r
    → r.1 ≡ true
unfolding dataline_loop after_round
dot_loop-eom zero w c d h = cc
dot_loop-eom (suc n) w c d h =
    dot_case (dataline_round w c) (λ c' d' h'. dot_loop-eom n w c' d' h') (dot_round-DotEnds w c d)
      h
  where
    dot_case :
        {r : Content × Bool} (x : Round)
        → ((c' : Content) → Dotted c'.parser → dataline_loop n w c' ≡ some r → r.1 ≡ true)
        → DotEnds x
        → after_round (dataline_loop n w) x ≡ some r
        → r.1 ≡ true
    dot_case (again c') rec e h = rec c' e h
    dot_case (ended c' b) rec e h = ground arith

-- While a line is pushed: it is there until the parser has taken it.
abbrev pub is_line : Option Text → Bool
is_line none = false
is_line (some line) = true

abbrev Lined : Parser → Type 0
Lined p = p.next ≡ false → is_line p.line ≡ true

abbrev LineGoes : Next → Type 0
LineGoes (p, some (end_of_message, res)) = ⊥
LineGoes (p, none) = Unit
LineGoes (p, some (part, res)) = Lined p

header_line-LineGoes :
    (p : Parser) (line : Text) → is_line p.line ≡ true → LineGoes (in_header p (some line))
unfolding in_header header_cont_of header_end_of fold_line found failed
header_line-LineGoes p [] h = ground arith
header_line-LineGoes p (c ∷ line) h = ground arith

between_line-LineGoes :
    (p : Parser) (line : Text) → is_line p.line ≡ true → LineGoes (between_headers p (some line))
unfolding between_headers header_of store_header found failed
between_line-LineGoes p [] h = λ n. h
between_line-LineGoes p (c ∷ line) h = ground arith

after_line-LineGoes : (p : Parser) (line : Text) → LineGoes (after_headers p (some line))
unfolding after_headers found failed
after_line-LineGoes p [] = λ n. cc
after_line-LineGoes p (c ∷ line) = tt

line_state-LineGoes :
    (p : Parser) (state : Option Part) (line : Option Text)
    → is_line line ≡ true
    → p.line ≡ line
    → LineGoes (next_part state p)
unfolding next_part in_body found failed
line_state-LineGoes p state none h e = cc
line_state-LineGoes p (some header_start) (some l) h e =
    subst (λ x. LineGoes (in_header p x)) (sym e) (header_line-LineGoes p l (ap is_line e))
line_state-LineGoes p (some header_cont) (some l) h e =
    subst (λ x. LineGoes (in_header p x)) (sym e) (header_line-LineGoes p l (ap is_line e))
line_state-LineGoes p (some part_none) (some l) h e =
    subst (λ x. LineGoes (between_headers p x)) (sym e) (between_line-LineGoes p l (ap is_line e))
line_state-LineGoes p (some header_end) (some l) h e =
    subst (λ x. LineGoes (between_headers p x)) (sym e) (between_line-LineGoes p l (ap is_line e))
line_state-LineGoes p (some end_of_headers) (some l) h e =
    subst (λ x. LineGoes (after_headers p x)) (sym e) (after_line-LineGoes p l)
line_state-LineGoes p (some body_start) (some l) h e =
    subst (λ x. LineGoes (in_body p x)) (sym e) (λ n. cc)
line_state-LineGoes p (some body) (some l) h e =
    subst (λ x. LineGoes (in_body p x)) (sym e) (λ n. cc)
line_state-LineGoes p (some end_of_message) (some l) h e = tt
line_state-LineGoes p none (some l) h e = tt

abbrev LineStays : Round → Type 0
LineStays (again c) = Lined c.parser
LineStays (ended c b) = b ≡ false

LineStays-of-NoEnd : (p : Parser) (r : Round) → KeepsTurn p r → NoEnd r → Lined p → LineStays r
LineStays-of-NoEnd p (again c) k h l = λ n. ap is_line (k.turn.1) ∙ l (sym (k.turn.0) ∙ n)
LineStays-of-NoEnd p (ended c true) k h l = absurd h
LineStays-of-NoEnd p (ended c false) k h l = refl

line_part-LineStays :
    (w : Writer) (c : Content) (found : Option (Part × Result))
    → LineGoes (c.parser, found)
    → LineStays (dataline_part w c found)
unfolding dataline_part
line_part-LineStays w c none l = refl
line_part-LineStays w c (some (part_none, res)) l = refl
line_part-LineStays w c (some (header_start, res)) l =
    LineStays-of-NoEnd c.parser _ (header-KeepsTurn w c res) (header-NoEnd w c res) l
line_part-LineStays w c (some (header_cont, res)) l =
    LineStays-of-NoEnd c.parser _ (keeps_eq (cont-parser w c res)) (cont-NoEnd w c res) l
line_part-LineStays w c (some (header_end, res)) l =
    LineStays-of-NoEnd c.parser (dataline_end w c res) (keeps_eq (end-parser w c res))
      (unfold dataline_end in tt) l
line_part-LineStays w c (some (end_of_headers, res)) l =
    LineStays-of-NoEnd c.parser (again (add_headers w c)) (keeps_eq (add_headers-parser w c)) tt l
line_part-LineStays w c (some (body_start, res)) l =
    LineStays-of-NoEnd c.parser (again (smtp_message_printf w c (value_of res ++ 10 ∷ [])))
      (keeps_eq (printf-parser w c _)) tt l
line_part-LineStays w c (some (body, res)) l =
    LineStays-of-NoEnd c.parser (again (smtp_message_printf w c (value_of res ++ 10 ∷ [])))
      (keeps_eq (printf-parser w c _)) tt l
line_part-LineStays w c (some (end_of_message, res)) l = absurd l

line_round-LineStays : (w : Writer) (c : Content) → Lined c.parser → LineStays (dataline_round w c)
line_round-LineStays w c l = elim (Bool-cases (c.parser.next)) [
  | inl wants ↦ rw (round-wants w c wants)
  | inr full ↦ rw (round-full w c full) (
      line_part-LineStays w _ _
        (line_state-LineGoes c.parser c.parser.state c.parser.line (l full) refl))
]

line_case-stays :
    (n : ℕ) (w : Writer) {r : Content × Bool} (x : Round)
    → ((c' : Content) → Lined c'.parser → dataline_loop n w c' ≡ some r → r.1 ≡ false)
    → LineStays x
    → after_round (dataline_loop n w) x ≡ some r
    → r.1 ≡ false
unfolding after_round
line_case-stays n w (again c') rec e h = rec c' e h
line_case-stays n w (ended c' b) rec e h = ground arith

pub line_loop-stays :
    (n : ℕ) (w : Writer) (c : Content) {r : Content × Bool}
    → Lined c.parser
    → dataline_loop n w c ≡ some r
    → r.1 ≡ false
unfolding dataline_loop
line_loop-stays zero w c l h = cc
line_loop-stays (suc n) w c l h =
    line_case-stays n w (dataline_round w c) (λ c' l' h'. line_loop-stays n w c' l' h')
      (line_round-LineStays w c l) h
