-- ===== src/Smtp/Proceed.antt =====
-- usr.sbin/smtpd/smtp_session.c: smtp_proceed_*(), the commands themselves, the way into a session, and
-- smtp_filter_phase(), which asks the filters first.
use open_smtpd.Base.{Bool, true, false, not, Option, none, some, [], ◌>>=◌, if◌then◌else◌}
use open_smtpd.Smtp.Text.{Text, codes, text_eq, strlcpy}
use open_smtpd.Smtp.Address.{line_max, Mailaddr, smtp_mailaddr}
use open_smtpd.Smtp.Types.{
  state_new, state_connected, state_tls, state_helo, state_quit, cmd_helo, FilterPhase,
  filter_connect, filter_helo, filter_ehlo, filter_starttls, filter_auth, filter_mail_from,
  filter_rcpt_to, filter_data, filter_data_line, filter_rset, filter_quit, filter_noop, filter_help,
  filter_wiz, filter_commit, SmtpTx, wait_lka_helo, wait_filters, hello, eight_bit_mime,
  enhanced_status_codes, size, dsn, starttls, auth_plain_login, Reply, status, more, capability,
  lookup_helo, filter_protocol, Session, Env,
}
use open_smtpd.Smtp.Session.{
  has_text, smtp_enter_state, smtp_reply, send, io_set_read, tree_xset, set_tx, advertise_tls,
  advertise_auth, smtp_filter_begin, abandon, smtp_free,
}
use open_smtpd.Smtp.Check.{
  Checked, smtp_line_max, is_some, smtp_check_noparam, smtp_check_rset, smtp_check_helo,
  smtp_check_ehlo, smtp_check_auth, smtp_check_starttls, smtp_check_mail_from, smtp_check_rcpt_to,
  smtp_check_data, smtp_check_noop,
}
use open_smtpd.Smtp.Transaction.{
  smtp_tx, refuse_tx, smtp_tx_mail_from, smtp_tx_rcpt_to, smtp_tx_open_message, rollback_state,
  smtp_message_end,
}
use open_smtpd.Smtp.Auth.{smtp_proceed_auth}

unfoldable pub smtp_proceed_rset : Env → Session → Option Session
unfolding smtp_reply abandon
smtp_proceed_rset e s = let s' = smtp_reply (status 250) s in abandon e s' s'.tx

-- The flags that HELO and EHLO leave are SF_SECURE, SF_AUTHENTICATED and SF_VERIFIED.
unfoldable pub greeted : Text → Bool → Session → Session
unfolding smtp_enter_state strlcpy
greeted args extended s = smtp_enter_state state_helo (record s {
  helo = strlcpy line_max args;
  bounce = false;
  bad_input = false;
  ehlo = extended;
  eight_bit_mime = extended;
})

unfoldable pub smtp_proceed_helo : Session → Option Text → Option Session
unfolding greeted smtp_reply
smtp_proceed_helo s none = none
smtp_proceed_helo s (some args) = some (smtp_reply (status 250) (greeted args false s))

abbrev pub reply_if : Bool → Reply → Session → Session
reply_if b r s = if b then smtp_reply r s else s

unfoldable pub ehlo_replies : Env → Session → Session
unfolding smtp_reply advertise_tls advertise_auth
ehlo_replies e s =
    let s1 = smtp_reply (capability hello) s in
    let s2 = smtp_reply (capability eight_bit_mime) s1 in
    let s3 = smtp_reply (capability enhanced_status_codes) s2 in
    let s4 = smtp_reply (capability size) s3 in
    let s5 = reply_if e.f_ext_dsn (capability dsn) s4 in
    let s6 = reply_if (advertise_tls e s) (capability starttls) s5 in
    let s7 = reply_if (advertise_auth e s) (capability auth_plain_login) s6 in
    smtp_reply (status 250) s7

unfoldable pub smtp_proceed_ehlo : Env → Session → Option Text → Option Session
unfolding greeted ehlo_replies
smtp_proceed_ehlo e s none = none
smtp_proceed_ehlo e s (some args) = some (ehlo_replies e (greeted args true s))

unfoldable pub smtp_proceed_starttls : Session → Session
unfolding smtp_reply smtp_enter_state
smtp_proceed_starttls s = smtp_enter_state state_tls (smtp_reply (status 220) s)

unfoldable pub tx_sender :
    Env → Session → Text → Option SmtpTx → Option (Mailaddr × Text) → Option Session
unfolding refuse_tx smtp_tx_mail_from set_tx
tx_sender e s args none parsed = none
tx_sender e s args (some tx) none = refuse_tx 553 s
tx_sender e s args (some tx) (some (sender, opts)) =
    let tx' = record tx { evp = record (tx.evp) { sender = sender } } in
    smtp_tx_mail_from e (set_tx tx' s) tx' args

-- smtp_proceed_mail_from() after smtp_tx().
unfoldable pub mail_from_in : Env → Text → Checked → Option Session
unfolding smtp_reply smtp_enter_state tx_sender smtp_mailaddr strlcpy
mail_from_in e args (s, false) = some (smtp_enter_state state_quit (smtp_reply (status 421) s))
mail_from_in e args (s, true) =
    tx_sender e s args s.tx (smtp_mailaddr e.resolver (strlcpy smtp_line_max args) true s.smtpname)

unfoldable pub smtp_proceed_mail_from : Env → Session → Option Text → Option Session
unfolding smtp_tx mail_from_in
smtp_proceed_mail_from e s none = none
smtp_proceed_mail_from e s (some args) = do r ← smtp_tx e s; mail_from_in e args r

unfoldable pub smtp_proceed_rcpt_to : Env → Session → Option SmtpTx → Option Text → Option Session
unfolding smtp_tx_rcpt_to
smtp_proceed_rcpt_to e s (some tx) (some args) = smtp_tx_rcpt_to e s tx args
smtp_proceed_rcpt_to e s _ _ = none

unfoldable pub smtp_proceed_data : Session → Option SmtpTx → Option Session
unfolding smtp_tx_open_message
smtp_proceed_data s none = none
smtp_proceed_data s (some tx) = smtp_tx_open_message s tx

unfoldable pub smtp_proceed_quit : Session → Session
unfolding smtp_reply smtp_enter_state
smtp_proceed_quit s = smtp_enter_state state_quit (smtp_reply (status 221) s)

unfoldable pub smtp_proceed_noop : Session → Session
unfolding smtp_reply
smtp_proceed_noop s = smtp_reply (status 250) s

unfoldable pub smtp_proceed_help : Session → Session
unfolding smtp_reply
smtp_proceed_help s =
    smtp_reply (status 214)
      (smtp_reply (more 214) (smtp_reply (more 214) (smtp_reply (more 214) s)))

unfoldable pub smtp_proceed_wiz : Session → Session
unfolding smtp_reply
smtp_proceed_wiz s = smtp_reply (status 500) s

unfoldable pub smtp_proceed_commit : Env → Session → Option SmtpTx → Option Session
unfolding smtp_message_end
smtp_proceed_commit e s none = none
smtp_proceed_commit e s (some tx) = smtp_message_end e s tx

-- The stream is closed: there must be one.
unfoldable pub smtp_proceed_rollback : Env → Session → Option SmtpTx → Option Session
unfolding set_tx rollback_state
smtp_proceed_rollback e s none = none
smtp_proceed_rollback e s (some tx) =
    if not tx.ofile
    then none
    else (let tx' = record tx { ofile = false } in rollback_state e tx' (set_tx tx' s))

unfoldable pub smtp_send_banner : Session → Session
unfolding smtp_reply
smtp_send_banner s = record (smtp_reply (status 220) s) { banner_sent = true }

unfoldable pub smtp_tls_init : Env → Session → Option Session
unfolding io_set_read smtp_free
smtp_tls_init e s =
    let s' = io_set_read s in
    if e.io_accept_tls s then some (record s' { handshake = true }) else smtp_free e s'

unfoldable pub smtp_proceed_connected : Env → Session → Option Session
unfolding smtp_tls_init smtp_send_banner
smtp_proceed_connected e s = if e.f_smtps then smtp_tls_init e s else some (smtp_send_banner s)

-- The row of `commands` with the phase: what its `proceed` does. Three phases have none: nothing is done.
unfoldable pub proceed_phase : FilterPhase → Env → Session → Option Text → Option Session
unfolding smtp_proceed_helo smtp_proceed_ehlo smtp_proceed_starttls smtp_proceed_auth
    smtp_proceed_mail_from smtp_proceed_rcpt_to smtp_proceed_data smtp_proceed_rset
    smtp_proceed_quit smtp_proceed_noop smtp_proceed_help smtp_proceed_wiz smtp_proceed_commit
proceed_phase filter_helo e s param = smtp_proceed_helo s param
proceed_phase filter_ehlo e s param = smtp_proceed_ehlo e s param
proceed_phase filter_starttls e s param = some (smtp_proceed_starttls s)
proceed_phase filter_auth e s param = smtp_proceed_auth e s param
proceed_phase filter_mail_from e s param = smtp_proceed_mail_from e s param
proceed_phase filter_rcpt_to e s param = smtp_proceed_rcpt_to e s s.tx param
proceed_phase filter_data e s param = smtp_proceed_data s s.tx
proceed_phase filter_rset e s param = smtp_proceed_rset e s
proceed_phase filter_quit e s param = some (smtp_proceed_quit s)
proceed_phase filter_noop e s param = some (smtp_proceed_noop s)
proceed_phase filter_help e s param = some (smtp_proceed_help s)
proceed_phase filter_wiz e s param = some (smtp_proceed_wiz s)
proceed_phase filter_commit e s param = smtp_proceed_commit e s s.tx
proceed_phase filter_connect e s param = some s
proceed_phase filter_data_line e s param = some s

-- FILTER_CONNECT comes first.
unfoldable pub proceed_any : FilterPhase → Env → Session → Option Text → Option Session
unfolding smtp_proceed_connected proceed_phase
proceed_any filter_connect e s param = smtp_proceed_connected e s
proceed_any phase e s param = proceed_phase phase e s param

-- The row's `check`; `none` is a NULL pointer that is read.
unfoldable pub check_phase : FilterPhase → Env → Session → Option Text → Option Checked
unfolding smtp_check_helo smtp_check_ehlo smtp_check_starttls smtp_check_auth smtp_check_mail_from
    smtp_check_rcpt_to smtp_check_data smtp_check_rset smtp_check_noparam smtp_check_noop
check_phase filter_helo e s param = some (smtp_check_helo e s param)
check_phase filter_ehlo e s param = some (smtp_check_ehlo e s param)
check_phase filter_starttls e s param = some (smtp_check_starttls e s param)
check_phase filter_auth e s param = some (smtp_check_auth e s param)
check_phase filter_mail_from e s param = smtp_check_mail_from e s param
check_phase filter_rcpt_to e s param = smtp_check_rcpt_to e s param
check_phase filter_data e s param = some (smtp_check_data s param)
check_phase filter_rset e s param = some (smtp_check_rset s param)
check_phase filter_noop e s param = some (smtp_check_noop s param)
check_phase filter_quit e s param = some (smtp_check_noparam s param)
check_phase filter_help e s param = some (smtp_check_noparam s param)
check_phase filter_wiz e s param = some (smtp_check_noparam s param)
check_phase filter_commit e s param = some (smtp_check_noparam s param)
check_phase filter_connect e s param = some (s, false)
check_phase filter_data_line e s param = some (s, false)

unfoldable pub param_text : Option Text → Text
param_text none = []
param_text (some param) = param

unfoldable pub smtp_query_filters : FilterPhase → Session → Option Text → Option Session
unfolding send tree_xset param_text
smtp_query_filters phase s param =
    tree_xset wait_filters (send (filter_protocol phase (param_text param)) s)

unfoldable pub smtp_filter_phase : FilterPhase → Env → Session → Option Text → Option Session
unfolding smtp_query_filters proceed_any
smtp_filter_phase phase e s param =
    let s' = record s { filter_phase = phase; filter_param = param } in
    if e.f_filtered then smtp_query_filters phase s' param else proceed_any phase e s' param

unfoldable pub smtp_connected : Env → Session → Option Session
unfolding smtp_enter_state smtp_filter_begin smtp_filter_phase
smtp_connected e s =
    smtp_filter_phase filter_connect e (smtp_filter_begin e (smtp_enter_state state_connected s))
      (some e.peer)

unfoldable pub smtp_lookup_servername : Env → Session → Option Session
unfolding send tree_xset smtp_connected
smtp_lookup_servername e s =
    if has_text e.hostnametable
    then tree_xset wait_lka_helo (send lookup_helo s)
    else smtp_connected e s

-- The beginning of smtp_session(): for a local client the name of the host is given.
unfoldable pub smtp_session : Env → Option Text → Session
unfolding text_eq
smtp_session e host = record {
  smtpname = e.hostname;
  ehlo = false;
  eight_bit_mime = false;
  secure = false;
  authenticated = is_some host;
  bounce = elim host [ none ↦ false | some name ↦ text_eq name (codes "localhost") ];
  verified = false;
  bad_input = false;
  state = state_new;
  banner_sent = false;
  helo = [];
  cmd = [];
  username = [];
  mailcount = 0;
  tx = none;
  last_cmd = some cmd_helo;
  filter_phase = filter_connect;
  filter_param = none;
  junk = false;
  waits = [];
  paused = false;
  reading = false;
  queued = false;
  handshake = false;
  freed = false;
  sent = [];
  replies = [];
}
