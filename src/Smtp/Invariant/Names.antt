-- ===== src/Smtp/Invariant/Names.antt =====
-- The names of commands and their arguments: smtp_command() of usr.sbin/smtpd/smtp_session.c.
use open_smtpd.Base.{
  ℕ, ◌<◌, ◌≡◌, refl, sym, ap, ◌∙◌, ◌⊎◌, inl, inr, Bool, true, false, ◌||◌, Option, none, some, List,
  [], ◌∷◌, map, arith, ◌==◌, Bool-cases,
}
use open_smtpd.Smtp.Text.{Text, codes, tolower, text_eq, strcasecmp, starts_with, strchr}
use open_smtpd.Smtp.Types.{Command, cmd_mail_from, cmd_rcpt_to}
use open_smtpd.Smtp.Command.{commands, find_command, skip_spaces, split_command}
use open_smtpd.Smtp.Invariant.Lines.{Given}

-- A text has the character.
has : ℕ → Text → Bool
has c [] = false
has c (d ∷ a) = d == c || has c a

-- The space and the colon are no letters.
tolower-eq : (c d : ℕ) → c < 65 → (tolower d == c) ≡ (d == c)
unfolding tolower
tolower-eq c d h = ground arith

strcasecmp-has :
    (c : ℕ) (a b : Text)
    → c < 65
    → text_eq (map tolower a) (map tolower b) ≡ true
    → has c a ≡ has c b
unfolding has text_eq
strcasecmp-has c [] [] lt h = refl
strcasecmp-has c [] (y ∷ b) lt h = cc
strcasecmp-has c (x ∷ a) [] lt h = cc
strcasecmp-has c (x ∷ a) (y ∷ b) lt h =
    ground (arith, tolower-eq c x lt, tolower-eq c y lt, strcasecmp-has c a b lt)

starts_with-has :
    (c : ℕ) (a b : Text) → c < 65 → starts_with a b ≡ true → has c a ≡ true → has c b ≡ true
unfolding has starts_with
starts_with-has c [] b lt h k = cc
starts_with-has c (x ∷ a) [] lt h k = cc
starts_with-has c (x ∷ a) (y ∷ b) lt h k =
    ground (arith, tolower-eq c x lt, tolower-eq c y lt, starts_with-has c a b lt)

-- Where strchr() finds nothing, the character is not there, and the name is the whole line.
strchr-none : (c : ℕ) (a : Text) → (strchr c a).1 ≡ none → (has c a ≡ false) × ((strchr c a).0 ≡ a)
unfolding has strchr
strchr-none c [] h = (refl, refl)
strchr-none c (d ∷ a) h = ground (arith, strchr-none c a)

-- A row whose command is satisfied with the arguments, or whose name has a space.
abbrev Spaced : Option Text → List (Text × Command) → Type 0
Spaced args [] = Unit
Spaced args ((name, command) ∷ rows) =
    (Given (some command) args ⊎ (has b' ' name ≡ true)) × Spaced args rows

find_command-Given :
    (rows : List (Text × Command)) (line : Text) (args : Option Text)
    → has b' ' line ≡ false
    → Spaced args rows
    → Given (find_command rows line) args
unfolding find_command strcasecmp
find_command-Given [] line args h sp = tt
find_command-Given ((name, command) ∷ rows) line args h (here, there) =
    elim (Bool-cases (text_eq (map tolower line) (map tolower name))) [
      | inr e ↦ rw e (find_command-Given rows line args h there)
      | inl e ↦ rw e (elim here [
        | inl g ↦ g
        | inr s ↦ absurd (contradict (strcasecmp-has b' ' line name (omega arith) e) s)
      ])
    ]
  where
    contradict : has b' ' line ≡ has b' ' name → has b' ' name ≡ true → ⊥
    contradict e s = cc

commands-Spaced : Spaced none commands
unfolding has
commands-Spaced = (
  inl tt,
  (
    inl tt,
    (
      inl tt,
      (
        inl tt,
        (
          inr refl,
          (inr refl, (inl tt, (inl tt, (inl tt, (inl tt, (inl tt, (inl tt, (inl tt, tt)))))))),
        ),
      ),
    ),
  ),
)

Given-some : (command : Option Command) (args : Text) → Given command (some args)
Given-some none args = tt
Given-some (some cmd_mail_from) args = refl
Given-some (some cmd_rcpt_to) args = refl
Given-some (some command) args = tt

-- A name without arguments has no space and no colon, or is cut at one.
skip_spaces-Given :
    (c : ℕ) (line : Text)
    → ((strchr c line).1 ≡ none → has b' ' line ≡ false)
    → Given (find_command commands (skip_spaces (strchr c line)).0) (skip_spaces (strchr c line)).1
skip_spaces-Given c line h = by_split (strchr c line) refl
  where
    by_split :
        (r : Text × Option Text)
        → strchr c line ≡ r
        → Given (find_command commands (skip_spaces r).0) (skip_spaces r).1
    by_split (name, some args) e = unfold skip_spaces in Given-some _ _
    by_split (name, none) e =
        let n : (strchr c line).1 ≡ none = ap (λ r. r.1) e in
        let same : name ≡ line = sym (ap (λ r. r.0) e) ∙ (strchr-none c line n).1 in
        unfold skip_spaces in rw same (find_command-Given commands line none (h n) commands-Spaced)

or-true : (a b : Bool) → (a || b) ≡ true → (a ≡ true) ⊎ (b ≡ true)
or-true true b h = inl refl
or-true false b h = inr h

-- MAIL FROM and RCPT TO come with arguments.
pub split_command-Given :
    (line : Text) → Given (find_command commands (split_command line).0) (split_command line).1
unfolding split_command
split_command-Given line =
    elim (Bool-cases
      (starts_with (codes "mail from:") line || starts_with (codes "rcpt to:") line)) [
        | inl e ↦
            rw e (skip_spaces-Given b':' line (λ n. absurd (colon e (strchr-none b':' line n).0)))
        | inr e ↦ rw e (skip_spaces-Given b' ' line (λ n. (strchr-none b' ' line n).0))
      ]
  where
    mail : starts_with (codes "mail from:") line ≡ true → has b':' line ≡ true
    mail h = starts_with-has b':' (codes "mail from:") line (omega arith) h (unfold has in refl)

    rcpt : starts_with (codes "rcpt to:") line ≡ true → has b':' line ≡ true
    rcpt h = starts_with-has b':' (codes "rcpt to:") line (omega arith) h (unfold has in refl)

    colon :
        (starts_with (codes "mail from:") line || starts_with (codes "rcpt to:") line) ≡ true
        → has b':' line ≡ false
        → ⊥
    colon h n =
        elim (or-true (starts_with (codes "mail from:") line) (starts_with (codes "rcpt to:") line)
          h) [ inl m ↦ cc (mail m) | inr r ↦ cc (rcpt r) ]
