-- ===== src/Smtp/Auth.antt =====
-- usr.sbin/smtpd/smtp_session.c: AUTH PLAIN and AUTH LOGIN.
use open_smtpd.Base.{◌-◌, true, false, Option, none, some, [], ◌∷◌, leb, length, if◌then◌else◌}
use open_smtpd.Smtp.Text.{Text, codes, strcasecmp, strlcpy, c_string, strchr}
use open_smtpd.Smtp.Address.{max_part_size, line_max}
use open_smtpd.Smtp.Types.{
  State, state_helo, state_auth_init, state_auth_username, state_auth_password, wait_parent_auth,
  status, authenticate, Session, Env,
}
use open_smtpd.Smtp.Session.{smtp_enter_state, smtp_reply, send, tree_xset}

-- The abort label.
unfoldable pub auth_abort : Session → Session
unfolding smtp_reply smtp_enter_state
auth_abort s = smtp_enter_state state_helo (smtp_reply (status 501) s)

unfoldable pub ask_password : Text → Text → Session → Option Session
unfolding send tree_xset
ask_password user pass s = tree_xset wait_parent_auth (send (authenticate user pass) s)

-- A decoded byte string is cut at its NULs: where the first stands, if it does not stand among the last
-- two bytes; the rest behind it.
unfoldable pub behind_nul : Text → Option Text
unfolding strchr
behind_nul buf = elim ((strchr 0 buf).1) [
  | none ↦ none
  | some rest ↦ if leb (length rest) 1 then none else some rest
]

unfoldable pub plain_password : Text → Text → Session → Option Session
unfolding ask_password auth_abort behind_nul c_string
plain_password user rest s = elim (behind_nul rest) [
  | none ↦ some (auth_abort s)
  | some pass ↦ ask_password user (c_string pass) s
]

-- strlcpy() into `username` comes before the password is looked for.
unfoldable pub plain_user : Text → Session → Option Session
unfolding plain_password auth_abort c_string strlcpy
plain_user rest s =
    let user = c_string rest in
    let s' = record s { username = strlcpy max_part_size user } in
    if leb max_part_size (length user) then some (auth_abort s') else plain_password user rest s'

unfoldable pub plain_decoded : Option Text → Session → Option Session
unfolding auth_abort plain_user behind_nul
plain_decoded none s = some (auth_abort s)
plain_decoded (some buf) s = elim (behind_nul buf) [
  | none ↦ some (auth_abort s)
  | some rest ↦ plain_user rest s
]

-- smtp_rfc4954_auth_plain() in STATE_AUTH_INIT; a NULL argument is read.
unfoldable pub auth_plain_init : Env → Option Text → Session → Option Session
unfolding plain_decoded
auth_plain_init e none s = none
auth_plain_init e (some arg) s = plain_decoded (e.base64_decode arg 1023) s

unfoldable pub auth_plain_helo : Env → Option Text → Session → Option Session
unfolding smtp_enter_state smtp_reply auth_plain_init
auth_plain_helo e none s = some (smtp_reply (status 334) (smtp_enter_state state_auth_init s))
auth_plain_helo e (some arg) s = auth_plain_init e (some arg) (smtp_enter_state state_auth_init s)

unfoldable pub auth_plain_in : State → Env → Option Text → Session → Option Session
unfolding auth_plain_helo auth_plain_init
auth_plain_in state_helo e arg s = auth_plain_helo e arg s
auth_plain_in state_auth_init e arg s = auth_plain_init e arg s
auth_plain_in _ e arg s = none

unfoldable pub smtp_rfc4954_auth_plain : Env → Option Text → Session → Option Session
unfolding auth_plain_in
smtp_rfc4954_auth_plain e arg s = auth_plain_in s.state e arg s

-- smtp_rfc4954_auth_login() in STATE_AUTH_USERNAME. Where base64_decode() fails it is taken to write
-- nothing.
unfoldable pub login_user : Option Text → Session → Session
unfolding auth_abort smtp_enter_state smtp_reply c_string
login_user none s = auth_abort (record s { username = [] })
login_user (some user) s =
    smtp_reply (status 334)
      (smtp_enter_state state_auth_password (record s { username = c_string user }))

unfoldable pub auth_login_username : Env → Option Text → Session → Option Session
unfolding login_user
auth_login_username e none s = none
auth_login_username e (some arg) s = some (login_user (e.base64_decode arg (max_part_size - 1)) s)

unfoldable pub login_pass : Option Text → Session → Option Session
unfolding auth_abort ask_password c_string
login_pass none s = some (auth_abort s)
login_pass (some pass) s = ask_password s.username (c_string pass) s

unfoldable pub auth_login_password : Env → Option Text → Session → Option Session
unfolding login_pass
auth_login_password e none s = none
auth_login_password e (some arg) s = login_pass (e.base64_decode arg (line_max - 1)) s

-- The call of the function by itself: the argument is the user name then.
unfoldable pub auth_login_helo : Env → Option Text → Session → Option Session
unfolding smtp_enter_state smtp_reply auth_login_username
auth_login_helo e none s = some (smtp_reply (status 334) (smtp_enter_state state_auth_username s))
auth_login_helo e (some []) s =
    some (smtp_reply (status 334) (smtp_enter_state state_auth_username s))
auth_login_helo e (some (c ∷ arg)) s =
    auth_login_username e (some (c ∷ arg)) (smtp_enter_state state_auth_username s)

unfoldable pub auth_login_in : State → Env → Option Text → Session → Option Session
unfolding auth_login_helo auth_login_username auth_login_password
auth_login_in state_helo e arg s = auth_login_helo e arg s
auth_login_in state_auth_username e arg s = auth_login_username e arg s
auth_login_in state_auth_password e arg s = auth_login_password e arg s
auth_login_in _ e arg s = none

unfoldable pub smtp_rfc4954_auth_login : Env → Option Text → Session → Option Session
unfolding auth_login_in
smtp_rfc4954_auth_login e arg s = auth_login_in s.state e arg s

-- smtp_proceed_auth(): the method, cut at the first space or else the first tab.
unfoldable pub method_of : Text → Text × Option Text → Text × Option Text
unfolding strchr
method_of args (method, some arg) = (method, some arg)
method_of args (method, none) = strchr 9 args

unfoldable pub auth_method : Env → Text → Option Text → Session → Option Session
unfolding strcasecmp smtp_rfc4954_auth_plain smtp_rfc4954_auth_login smtp_reply
auth_method e method arg s =
    if strcasecmp method (codes "PLAIN")
    then smtp_rfc4954_auth_plain e arg s
    else if strcasecmp method (codes "LOGIN")
    then smtp_rfc4954_auth_login e arg s
    else some (smtp_reply (status 504) s)

unfoldable pub smtp_proceed_auth : Env → Session → Option Text → Option Session
unfolding method_of auth_method strchr
smtp_proceed_auth e s none = none
smtp_proceed_auth e s (some args) =
    let (method, arg) = method_of args (strchr b' ' args) in auth_method e method arg s

-- smtp_auth_failure_pause() and smtp_auth_failure_resume(): the timer.
unfoldable pub smtp_auth_failure_pause : Session → Session
smtp_auth_failure_pause s = record s { paused = true }

unfoldable pub smtp_auth_failure_resume : Session → Session
unfolding smtp_reply smtp_enter_state
smtp_auth_failure_resume s =
    smtp_enter_state state_helo (smtp_reply (status 535) (record s { paused = false }))
