-- ===== src/Smtp/Lines.antt =====
-- The loop of smtp_tx_dataline() (usr.sbin/smtpd/smtp_session.c) on top of rfc5322.c: it ends, and the
-- line "." ends the message.
mod Kept
mod Rounds
mod Pushed
pub mod Total
use open_smtpd.Base.{
  ◌+◌, ◌<◌, ◌≡◌, refl, sym, ap, subst, ◌∙◌, inl, inr, Bool, true, false, not, Option, none, some,
  ◌∷◌, ◌++◌, arith, Bool-cases,
}
use open_smtpd.Smtp.Text.{Text, codes, text_eq}
use open_smtpd.Smtp.Parser.{Part, Parser, push_line, rfc5322_push, found}
use open_smtpd.Smtp.Types.{Content}
use open_smtpd.Smtp.Content.{Writer, is_ok, push_dataline, unescape_dot, smtp_tx_dataline}
use open_smtpd.Smtp.Lines.Rounds.{at_rest, Rests, LineEnds, loop-LineEnds}
use open_smtpd.Smtp.Lines.Pushed.{is_live, rank_bound, dot_loop-eom, is_line, line_loop-stays}

-- The parser is at rest unless there is an error: what holds of a message between two lines.
abbrev pub Ready : Content → Type 0
Ready c = is_ok c.error ≡ true → Rests c.parser

-- The outcome of a line.
abbrev pub Outcome : Bool → Option (Content × Bool) → Type 0
Outcome eom r = (c : Content) × (r ≡ some (c, eom)) × (eom ≡ false → Ready c)

push-rest :
    (p : Parser) (line : Option Text)
    → p.line ≡ none
    → rfc5322_push p line ≡ some (record p { line = line; next = false })
unfolding rfc5322_push push_line
push-rest p line h =
    subst (λ x. push_line x line p ≡ some (record p { line = line; next = false })) (sym h) refl

is_live-of-rest : (state : Option Part) → at_rest state ≡ true → is_live state ≡ true
is_live-of-rest state h = ground arith

outcome :
    (b : Bool) (r : Content × Bool) (x : Option (Content × Bool))
    → x ≡ some r
    → LineEnds r
    → r.1 ≡ b
    → Outcome b x
outcome b (c, true) x e l k = (c, e ∙ ap (λ b'. some (c, b')) k, λ n. cc (k, n))
outcome b (c, false) x e l k = (c, e ∙ ap (λ b'. some (c, b')) k, λ n. l)

push-Outcome :
    (w : Writer) (c : Content) (line : Option Text)
    → Rests c.parser
    → Outcome (not (is_line line)) (push_dataline w c (rfc5322_push c.parser line))
unfolding push_dataline
push-Outcome w c none rest =
    let p : Parser = record (c.parser) { line = none; next = false } in
    let found = loop-LineEnds 6 w (record c { parser = p }) (λ n. cc) (rank_bound p) in
    let eom =
      dot_loop-eom 6 w (record c { parser = p }) (refl, refl, is_live-of-rest c.parser.state rest.1)
        found.1 in
    rw (push-rest c.parser none rest.0) (outcome true found.0 _ found.1 found.2 eom)
push-Outcome w c (some line) rest =
    let p : Parser = record (c.parser) { line = some line; next = false } in
    let found = loop-LineEnds 6 w (record c { parser = p }) (λ n. cc) (rank_bound p) in
    let stays = line_loop-stays 6 w (record c { parser = p }) (λ n. refl) found.1 in
    rw (push-rest c.parser (some line) rest.0) (outcome false found.0 _ found.1 found.2 stays)

-- A line of a message whose parser is at rest, or that has an error, ends the message if it is ".",
-- and otherwise the parser is at rest again, or the message has an error; the loop does end.
pub dataline-Outcome :
    (w : Writer) (c : Content) (line : Text)
    → Ready c
    → Outcome (text_eq line (codes ".")) (smtp_tx_dataline w c line)
unfolding smtp_tx_dataline
dataline-Outcome w c line ready = elim (Bool-cases (text_eq line (codes "."))) [
  | inl dot ↦ rw dot (elim (Bool-cases (is_ok c.error)) [
    | inl fine ↦ rw fine (push-Outcome w c none (ready fine))
    | inr bad ↦ rw bad (c, refl, λ n. cc)
  ])
  | inr other ↦ rw other (elim (Bool-cases (is_ok c.error)) [
    | inl fine ↦ rw fine (push-Outcome w c (some (unescape_dot line)) (ready fine))
    | inr bad ↦ rw bad (c, refl, λ n ok. cc)
  ])
]
