-- ===== src/Smtp/Invariant/Auth.antt =====
-- The authentication exchange of usr.sbin/smtpd/smtp_session.c keeps the invariant.
use open_smtpd.Base.{
  ◌-◌, ◌≡◌, refl, sym, ap, subst, inl, inr, true, Option, none, some, [], ◌∷◌, leb, Bool-cases,
  length,
}
use open_smtpd.Smtp.Text.{Text, codes, strcasecmp, strlcpy, c_string, strchr}
use open_smtpd.Smtp.Address.{max_part_size, line_max}
use open_smtpd.Smtp.Types.{
  State, state_helo, state_auth_init, state_auth_username, state_auth_password, wait_parent_auth,
  status, authenticate, Session, Env,
}
use open_smtpd.Smtp.Session.{smtp_enter_state, smtp_reply, send}
use open_smtpd.Smtp.Check.{is_some}
use open_smtpd.Smtp.Auth.{
  auth_abort, ask_password, behind_nul, plain_password, plain_user, plain_decoded, auth_plain_init,
  auth_plain_in, smtp_rfc4954_auth_plain, login_user, login_pass, auth_login_in,
  smtp_rfc4954_auth_login, method_of, auth_method, smtp_proceed_auth,
}
use open_smtpd.Smtp.Invariant.Defs.{
  Closed, Shape, is_auth, Turn, Good, replied-Done, xset-Good, Shape-at,
}

module _ (e : Env) (s : Session) (t : Turn e s) (n : s.tx ≡ none) where
  abort-Good : Good e (some (auth_abort s))
  unfolding auth_abort smtp_enter_state smtp_reply
  abort-Good = replied-Done t.0 t.1 refl (subst Closed (sym n) tt)

  ask_password-Good :
      (user pass : Text) → is_auth s.state ≡ true → Good e (ask_password user pass s)
  unfolding ask_password send
  ask_password-Good user pass a =
      xset-Good e wait_parent_auth (record s { sent = authenticate user pass ∷ s.sent }) t (a, n)

  plain_password-Good :
      (user rest : Text) → is_auth s.state ≡ true → Good e (plain_password user rest s)
  unfolding plain_password
  plain_password-Good user rest a = go (behind_nul rest)
    where
      go :
          (r : Option Text)
          → Good e (elim r [
            | none ↦ some (auth_abort s)
            | some pass ↦ ask_password user (c_string pass) s
          ])
      go none = abort-Good
      go (some pass) = ask_password-Good user (c_string pass) a

plain_user-Good :
    (e : Env) (s : Session) (rest : Text)
    → Turn e s
    → s.tx ≡ none
    → is_auth s.state ≡ true
    → Good e (plain_user rest s)
unfolding plain_user
plain_user-Good e s rest t n a =
    let user = c_string rest in
    let s' : Session = record s { username = strlcpy max_part_size user } in
    elim (Bool-cases (leb max_part_size (length user))) [
      | inl c ↦ rw c (abort-Good e s' t n)
      | inr c ↦ rw c (plain_password-Good e s' t n user rest a)
    ]

plain_decoded-Good :
    (e : Env) (s : Session) (buf : Option Text)
    → Turn e s
    → s.tx ≡ none
    → is_auth s.state ≡ true
    → Good e (plain_decoded buf s)
unfolding plain_decoded
plain_decoded-Good e s none t n a = abort-Good e s t n
plain_decoded-Good e s (some buf) t n a = go (behind_nul buf)
  where
    go :
        (r : Option Text)
        → Good e (elim r [ none ↦ some (auth_abort s) | some rest ↦ plain_user rest s ])
    go none = abort-Good e s t n
    go (some rest) = plain_user-Good e s rest t n a

asks-Good :
    (e : Env) (s : Session) (st : State)
    → Turn e s
    → Shape st (smtp_reply (status 334) (smtp_enter_state st s))
    → Good e (some (smtp_reply (status 334) (smtp_enter_state st s)))
unfolding smtp_reply smtp_enter_state
asks-Good e s st t sh = replied-Done t.0 t.1 refl sh

init-Good :
    (e : Env) (s : Session) (arg : Text)
    → Turn e s
    → s.tx ≡ none
    → is_auth s.state ≡ true
    → Good e (auth_plain_init e (some arg) s)
unfolding auth_plain_init
init-Good e s arg t n a = plain_decoded-Good e s (e.base64_decode arg 1023) t n a

-- AUTH PLAIN from the state of the commands, and with the answer to the server's question.
plain-Good :
    (e : Env) (s : Session) (arg : Option Text)
    → Turn e s
    → s.tx ≡ none
    → s.state ≡ state_helo
    → Good e (smtp_rfc4954_auth_plain e arg s)
unfolding smtp_rfc4954_auth_plain smtp_enter_state smtp_reply
plain-Good e s none t n st =
    subst (λ x. Good e (auth_plain_in x e none s)) (sym st) (asks-Good e s state_auth_init t n)
plain-Good e s (some arg) t n st =
    subst (λ x. Good e (auth_plain_in x e (some arg) s)) (sym st)
      (init-Good e (record s { state = state_auth_init }) arg t n refl)

pub plain_answer-Good :
    (e : Env) (s : Session) (arg : Text)
    → Turn e s
    → s.tx ≡ none
    → s.state ≡ state_auth_init
    → Good e (smtp_rfc4954_auth_plain e (some arg) s)
unfolding smtp_rfc4954_auth_plain
plain_answer-Good e s arg t n st =
    subst (λ x. Good e (auth_plain_in x e (some arg) s)) (sym st)
      (init-Good e s arg t n (ap is_auth st))

login_user-Good :
    (e : Env) (s : Session) (user : Option Text)
    → Turn e s
    → s.tx ≡ none
    → Good e (some (login_user user s))
unfolding login_user smtp_reply smtp_enter_state
login_user-Good e s none t n = abort-Good e (record s { username = [] }) t n
login_user-Good e s (some user) t n =
    asks-Good e (record s { username = c_string user }) state_auth_password t n

login_pass-Good :
    (e : Env) (s : Session) (pass : Option Text)
    → Turn e s
    → s.tx ≡ none
    → is_auth s.state ≡ true
    → Good e (login_pass pass s)
unfolding login_pass
login_pass-Good e s none t n a = abort-Good e s t n
login_pass-Good e s (some pass) t n a = ask_password-Good e s t n s.username (c_string pass) a

login-Good :
    (e : Env) (s : Session) (arg : Option Text)
    → Turn e s
    → s.tx ≡ none
    → s.state ≡ state_helo
    → Good e (smtp_rfc4954_auth_login e arg s)
unfolding smtp_rfc4954_auth_login smtp_enter_state smtp_reply
login-Good e s none t n st =
    subst (λ x. Good e (auth_login_in x e none s)) (sym st) (asks-Good e s state_auth_username t n)
login-Good e s (some []) t n st =
    subst (λ x. Good e (auth_login_in x e (some []) s)) (sym st)
      (asks-Good e s state_auth_username t n)
login-Good e s (some (c ∷ arg)) t n st =
    subst (λ x. Good e (auth_login_in x e (some (c ∷ arg)) s)) (sym st)
      (login_user-Good e (record s { state = state_auth_username })
        (e.base64_decode (c ∷ arg) (max_part_size - 1)) t n)

pub login_user_answer-Good :
    (e : Env) (s : Session) (arg : Text)
    → Turn e s
    → s.tx ≡ none
    → s.state ≡ state_auth_username
    → Good e (smtp_rfc4954_auth_login e (some arg) s)
unfolding smtp_rfc4954_auth_login
login_user_answer-Good e s arg t n st =
    subst (λ x. Good e (auth_login_in x e (some arg) s)) (sym st)
      (login_user-Good e s (e.base64_decode arg (max_part_size - 1)) t n)

pub login_pass_answer-Good :
    (e : Env) (s : Session) (arg : Text)
    → Turn e s
    → s.tx ≡ none
    → s.state ≡ state_auth_password
    → Good e (smtp_rfc4954_auth_login e (some arg) s)
unfolding smtp_rfc4954_auth_login
login_pass_answer-Good e s arg t n st =
    subst (λ x. Good e (auth_login_in x e (some arg) s)) (sym st)
      (login_pass-Good e s (e.base64_decode arg (line_max - 1)) t n (ap is_auth st))

auth_method-Good :
    (e : Env) (s : Session) (method : Text) (arg : Option Text)
    → Turn e s
    → s.tx ≡ none
    → s.state ≡ state_helo
    → Good e (auth_method e method arg s)
unfolding auth_method smtp_reply
auth_method-Good e s method arg t n st = elim (Bool-cases (strcasecmp method (codes "PLAIN"))) [
  | inl c ↦ rw c (plain-Good e s arg t n st)
  | inr c ↦ rw c (elim (Bool-cases (strcasecmp method (codes "LOGIN"))) [
    | inl d ↦ rw d (login-Good e s arg t n st)
    | inr d ↦ rw d (replied-Done t.0 t.1 refl (Shape-at state_helo _ st (subst Closed (sym n) tt)))
  ])
]

pub proceed_auth-Good :
    (e : Env) (s : Session) (param : Option Text)
    → Turn e s
    → is_some param ≡ true
    → s.state ≡ state_helo
    → s.tx ≡ none
    → Good e (smtp_proceed_auth e s param)
unfolding smtp_proceed_auth
proceed_auth-Good e s none t ok st n = cc
proceed_auth-Good e s (some args) t ok st n =
    let r = method_of args (strchr b' ' args) in auth_method-Good e s (r.0) (r.1) t n st
