-- ===== src/Smtp/Command.antt =====
-- usr.sbin/smtpd/smtp_session.c: smtp_command(), a line that the client has sent.
use open_smtpd.Base.{true, false, ◌||◌, Option, none, some, List, [], ◌∷◌, ◌>>=◌, if◌then◌else◌}
use open_smtpd.Smtp.Text.{Text, codes, isspace, strcasecmp, starts_with, strchr, skip_while}
use open_smtpd.Smtp.Types.{
  State, state_auth_init, state_auth_username, state_auth_password, Command, cmd_helo, cmd_ehlo,
  cmd_starttls, cmd_auth, cmd_mail_from, cmd_rcpt_to, cmd_data, cmd_rset, cmd_quit, cmd_help,
  cmd_wiz, cmd_noop, cmd_commit, FilterPhase, filter_helo, filter_ehlo, filter_starttls,
  filter_auth, filter_mail_from, filter_rcpt_to, filter_data, filter_rset, filter_quit, filter_noop,
  status, Session, Env,
}
use open_smtpd.Smtp.Session.{smtp_reply}
use open_smtpd.Smtp.Check.{
  Checked, smtp_check_noparam, smtp_check_rset, smtp_check_helo, smtp_check_ehlo, smtp_check_auth,
  smtp_check_starttls, smtp_check_mail_from, smtp_check_rcpt_to, smtp_check_data, smtp_check_noop,
}
use open_smtpd.Smtp.Auth.{smtp_rfc4954_auth_plain, smtp_rfc4954_auth_login}
use open_smtpd.Smtp.Proceed.{smtp_proceed_help, smtp_proceed_wiz, smtp_filter_phase}

-- The column `cmd` of `commands`, with the codes.
abbrev pub commands : List (Text × Command)
commands =
    (codes "HELO", cmd_helo)
    ∷ (codes "EHLO", cmd_ehlo)
    ∷ (codes "STARTTLS", cmd_starttls)
    ∷ (codes "AUTH", cmd_auth)
    ∷ (codes "MAIL FROM", cmd_mail_from)
    ∷ (codes "RCPT TO", cmd_rcpt_to)
    ∷ (codes "DATA", cmd_data)
    ∷ (codes "RSET", cmd_rset)
    ∷ (codes "QUIT", cmd_quit)
    ∷ (codes "NOOP", cmd_noop)
    ∷ (codes "HELP", cmd_help)
    ∷ (codes "WIZ", cmd_wiz)
    ∷ (codes ".", cmd_commit)
    ∷ []

unfoldable pub find_command : List (Text × Command) → Text → Option Command
unfolding strcasecmp
find_command [] line = none
find_command ((name, command) ∷ rows) line =
    if strcasecmp line name then some command else find_command rows line

-- The name of the command, and the arguments behind the character that ends it.
unfoldable pub skip_spaces : Text × Option Text → Text × Option Text
unfolding skip_while isspace
skip_spaces (name, none) = (name, none)
skip_spaces (name, some args) = (name, some (skip_while isspace args))

unfoldable pub split_command : Text → Text × Option Text
unfolding skip_spaces strchr starts_with
split_command line =
    if starts_with (codes "mail from:") line || starts_with (codes "rcpt to:") line
    then skip_spaces (strchr b':' line)
    else skip_spaces (strchr b' ' line)

-- A refusal ends the command; otherwise the filters are asked, or the command is carried out.
unfoldable pub if_allowed : Checked → FilterPhase → Env → Option Text → Option Session
unfolding smtp_filter_phase
if_allowed (s, true) phase e param = smtp_filter_phase phase e s param
if_allowed (s, false) phase e param = some s

-- HELP and WIZ do without the filters.
unfoldable pub if_allowed_do : Checked → (Session → Session) → Option Session
if_allowed_do (s, true) f = some (f s)
if_allowed_do (s, false) f = some s

-- The switch on the command.
unfoldable pub dispatch : Option Command → Env → Session → Option Text → Option Session
unfolding if_allowed if_allowed_do smtp_check_helo smtp_check_ehlo smtp_check_starttls
    smtp_check_auth smtp_check_mail_from smtp_check_rcpt_to smtp_check_data smtp_check_rset
    smtp_check_noparam smtp_check_noop smtp_proceed_help smtp_proceed_wiz smtp_reply
dispatch (some cmd_helo) e s args = if_allowed (smtp_check_helo e s args) filter_helo e args
dispatch (some cmd_ehlo) e s args = if_allowed (smtp_check_ehlo e s args) filter_ehlo e args
dispatch (some cmd_starttls) e s args =
    if_allowed (smtp_check_starttls e s args) filter_starttls e none
dispatch (some cmd_auth) e s args = if_allowed (smtp_check_auth e s args) filter_auth e args
dispatch (some cmd_mail_from) e s args = do
  r ← smtp_check_mail_from e s args
  if_allowed r filter_mail_from e args
dispatch (some cmd_rcpt_to) e s args = do
  r ← smtp_check_rcpt_to e s args
  if_allowed r filter_rcpt_to e args
dispatch (some cmd_rset) e s args = if_allowed (smtp_check_rset s args) filter_rset e none
dispatch (some cmd_data) e s args = if_allowed (smtp_check_data s args) filter_data e none
dispatch (some cmd_quit) e s args = if_allowed (smtp_check_noparam s args) filter_quit e none
dispatch (some cmd_noop) e s args = if_allowed (smtp_check_noop s args) filter_noop e none
dispatch (some cmd_help) e s args = if_allowed_do (smtp_check_noparam s args) smtp_proceed_help
dispatch (some cmd_wiz) e s args = if_allowed_do (smtp_check_noparam s args) smtp_proceed_wiz
dispatch (some cmd_commit) e s args = some (smtp_reply (status 500) s)
dispatch none e s args = some (smtp_reply (status 500) s)

-- Outside of an authentication exchange.
unfoldable pub plain_command : Env → Session → Text → Option Session
unfolding split_command find_command dispatch
plain_command e s line =
    let (name, args) = split_command line in
    let command = find_command commands name in
    dispatch command e (record s { last_cmd = command }) args

unfoldable pub command_in : State → Env → Session → Text → Option Session
unfolding plain_command smtp_rfc4954_auth_plain smtp_rfc4954_auth_login
command_in state_auth_init e s line = smtp_rfc4954_auth_plain e (some line) s
command_in state_auth_username e s line = smtp_rfc4954_auth_login e (some line) s
command_in state_auth_password e s line = smtp_rfc4954_auth_login e (some line) s
command_in _ e s line = plain_command e s line

unfoldable pub smtp_command : Env → Session → Text → Option Session
unfolding command_in
smtp_command e s line = command_in s.state e s line
