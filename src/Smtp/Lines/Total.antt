-- ===== src/Smtp/Lines/Total.antt =====
-- The loop of smtp_tx_dataline() (usr.sbin/smtpd/smtp_session.c) ends whatever the parser has seen.
use open_smtpd.Base.{◌≡◌, refl, inl, inr, Bool, true, false, Option, none, some, Bool-cases}
use open_smtpd.Smtp.Text.{Text, codes, text_eq}
use open_smtpd.Smtp.Parser.{Parser, push_line, rfc5322_push}
use open_smtpd.Smtp.Types.{error_internal, Content}
use open_smtpd.Smtp.Content.{Writer, is_ok, push_dataline, unescape_dot, smtp_tx_dataline}
use open_smtpd.Smtp.Lines.Rounds.{loop-LineEnds}
use open_smtpd.Smtp.Lines.Pushed.{rank_bound, is_line, line_loop-stays}

-- A result, and the end of the message only at ".".
abbrev pub Total : Text → Option (Content × Bool) → Type 0
Total line x =
    (r : Content × Bool) × (x ≡ some r) × (text_eq line (codes ".") ≡ false → r.1 ≡ false)

push_line-total :
    (w : Writer) (c : Content) (line old : Option Text)
    → (r : Content × Bool) × (push_dataline w c (push_line old line c.parser) ≡ some r)
      × (is_line line ≡ true → r.1 ≡ false)
unfolding push_dataline push_line
push_line-total w c line (some old) =
    ((record c { error = error_internal }, false), refl, λ l. refl)
push_line-total w c line none =
    let p : Parser = record (c.parser) { line = line; next = false } in
    let found = loop-LineEnds 6 w (record c { parser = p }) (λ n. cc) (rank_bound p) in
    (found.0, found.1, λ l. line_loop-stays 6 w (record c { parser = p }) (λ n. l) found.1)

pub dataline-Total :
    (w : Writer) (c : Content) (line : Text) → Total line (smtp_tx_dataline w c line)
unfolding smtp_tx_dataline rfc5322_push
dataline-Total w c line = elim (Bool-cases (text_eq line (codes "."))) [
  | inl dot ↦ rw dot (elim (Bool-cases (is_ok c.error)) [
    | inl fine ↦ rw fine (let (r, e, l) = push_line-total w c none c.parser.line in (r, e, λ n. cc))
    | inr bad ↦ rw bad ((c, true), refl, λ n. cc)
  ])
  | inr other ↦ rw other (elim (Bool-cases (is_ok c.error)) [
    | inl fine ↦ rw fine (
        let (r, e, l) = push_line-total w c (some (unescape_dot line)) c.parser.line in
        (r, e, λ n. l refl))
    | inr bad ↦ rw bad ((c, false), refl, λ n. refl)
  ])
]
