-- ===== src/Smtp/Lines/Kept.antt =====
-- What a round of smtp_tx_dataline() leaves of the parser (usr.sbin/smtpd/smtp_session.c).
use open_smtpd.Base.{
  ℕ, ◌+◌, ◌≡◌, refl, ap, ◌∙◌, inl, inr, Option, none, some, [], ◌∷◌, ◌++◌, arith, Bool-cases,
}
use open_smtpd.Smtp.Text.{Text, codes, strcasecmp}
use open_smtpd.Smtp.Parser.{
  Part, part_none, header_start, header_cont, header_end, end_of_headers, body_start, body,
  end_of_message, Parser, Result, rfc5322_unfold_header,
}
use open_smtpd.Smtp.Types.{Content}
use open_smtpd.Smtp.Content.{
  Writer, smtp_message_printf, Split, reverse_onto, split_char, split_comma, split_step, split_text,
  write_rest, split_last, header_domain_append_callback, Round, again, ended, is_one_of, rewritten,
  value_of, note_header, write_header, dataline_received, dataline_header, dataline_cont,
  dataline_end, add_headers, dataline_part,
}

pub printf-parser :
    (w : Writer) (c : Content) (t : Text) → (smtp_message_printf w c t).parser ≡ c.parser
unfolding smtp_message_printf
printf-parser w c t = ground arith

split_char-parser :
    (w : Writer) (s : Split) (x : ℕ) → (split_char w s x).content.parser ≡ s.content.parser
unfolding split_char
split_char-parser w s x = ground (
  arith,
  printf-parser w s.content (x ∷ []),
  printf-parser w s.content (reverse_onto (x ∷ s.buffer) []),
)

split_step-parser :
    (w : Writer) (hdr : Text) (s : Split) (x : ℕ)
    → (split_step w hdr s x).content.parser ≡ s.content.parser
unfolding split_step split_comma
split_step-parser w hdr s x = grind (arith, printf-parser, split_char-parser)

split_text-parser :
    (w : Writer) (hdr : Text) (s : Split) (a : Text)
    → (split_text w hdr s a).content.parser ≡ s.content.parser
unfolding split_text
split_text-parser w hdr s [] = refl
split_text-parser w hdr s (x ∷ a) =
    split_text-parser w hdr (split_step w hdr s x) a ∙ split_step-parser w hdr s x

write_rest-parser :
    (w : Writer) (hdr : Text) (c : Content) (b : Text) → (write_rest w hdr c b).parser ≡ c.parser
unfolding write_rest
write_rest-parser w hdr c [] = refl
write_rest-parser w hdr c (x ∷ b) = printf-parser w c _

callback-parser :
    (w : Writer) (c : Content) (hdr : Text) (val : Option Text)
    → (header_domain_append_callback w c hdr val).parser ≡ c.parser
unfolding header_domain_append_callback split_last
callback-parser w c hdr none = printf-parser w c _
callback-parser w c hdr (some val) = simp (write_rest-parser, split_text-parser, printf-parser)

-- What rfc5322_next() goes by is not touched between two calls.
abbrev pub SameTurn : Parser → Parser → Type 0
SameTurn p q = (q.next ≡ p.next) × (q.line ≡ p.line) × (q.state ≡ p.state)

SameTurn-of-eq : (p q : Parser) → q ≡ p → SameTurn p q
SameTurn-of-eq p q h =
    (ap (λ (r : Parser). r.next) h, ap (λ (r : Parser). r.line) h, ap (λ (r : Parser). r.state) h)

abbrev content_of : Round → Content
content_of (again c) = c
content_of (ended c b) = c

pub record KeepsTurn (p : Parser) (r : Round) : Type 0 where
  pub turn : SameTurn p (content_of r).parser

keeps : {p : Parser} {r : Round} → SameTurn p (content_of r).parser → KeepsTurn p r
keeps h = record { turn = h }

pub keeps_eq : {p : Parser} {r : Round} → (content_of r).parser ≡ p → KeepsTurn p r
keeps_eq h = keeps (SameTurn-of-eq _ _ h)

unfold-SameTurn : (p : Parser) → SameTurn p (rfc5322_unfold_header p)
unfolding rfc5322_unfold_header
unfold-SameTurn p = ground arith

pub add_headers-parser : (w : Writer) (c : Content) → (add_headers w c).parser ≡ c.parser
unfolding add_headers
add_headers-parser w c = grind (arith, printf-parser)

note_header-parser : (c : Content) (hdr : Text) → (note_header c hdr).parser ≡ c.parser
unfolding note_header
note_header-parser c hdr = ground arith

write_header-parser :
    (w : Writer) (c : Content) (res : Result) → (write_header w c res).parser ≡ c.parser
unfolding write_header
write_header-parser w c res = printf-parser w c _

received-parser :
    (w : Writer) (c : Content) (res : Result)
    → (content_of (dataline_received w c res)).parser ≡ c.parser
unfolding dataline_received
received-parser w c res =
    ground (arith, write_header-parser w (record c { rcvcount = c.rcvcount + 1 }) res)

pub header-KeepsTurn :
    (w : Writer) (c : Content) (res : Result) → KeepsTurn c.parser (dataline_header w c res)
unfolding dataline_header
header-KeepsTurn w c res = elim (Bool-cases (strcasecmp (codes "Bcc") res.hdr)) [
  | inl b ↦ rw b (keeps_eq refl)
  | inr b ↦ rw b (elim (Bool-cases (is_one_of rewritten res.hdr)) [
    | inl t ↦ rw t (keeps (unfold-SameTurn c.parser))
    | inr t ↦ rw t (elim (Bool-cases (strcasecmp (codes "Received") res.hdr)) [
      | inl r ↦ rw r (keeps_eq (received-parser w c res))
      | inr r ↦ rw r (
          keeps_eq
            (write_header-parser w (note_header c res.hdr) res ∙ note_header-parser c res.hdr))
    ])
  ])
]

pub cont-parser :
    (w : Writer) (c : Content) (res : Result)
    → (content_of (dataline_cont w c res)).parser ≡ c.parser
unfolding dataline_cont
cont-parser w c res = ground (arith, printf-parser w c (value_of res ++ 10 ∷ []))

pub end-parser :
    (w : Writer) (c : Content) (res : Result)
    → (content_of (dataline_end w c res)).parser ≡ c.parser
unfolding dataline_end
end-parser w c res = ground (arith, callback-parser w c res.hdr res.value)

-- A round leaves the parser to the next one as rfc5322_next() left it.
part-KeepsTurn :
    (w : Writer) (c : Content) (found : Option (Part × Result))
    → KeepsTurn c.parser (dataline_part w c found)
unfolding dataline_part
part-KeepsTurn w c none = keeps_eq refl
part-KeepsTurn w c (some (part_none, res)) = keeps_eq refl
part-KeepsTurn w c (some (header_start, res)) = header-KeepsTurn w c res
part-KeepsTurn w c (some (header_cont, res)) = keeps_eq (cont-parser w c res)
part-KeepsTurn w c (some (header_end, res)) = keeps_eq (end-parser w c res)
part-KeepsTurn w c (some (end_of_headers, res)) = keeps_eq (add_headers-parser w c)
part-KeepsTurn w c (some (body_start, res)) = keeps_eq (printf-parser w c _)
part-KeepsTurn w c (some (body, res)) = keeps_eq (printf-parser w c _)
part-KeepsTurn w c (some (end_of_message, res)) = keeps_eq refl
