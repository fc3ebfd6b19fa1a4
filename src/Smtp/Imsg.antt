-- ===== src/Smtp/Imsg.antt =====
-- usr.sbin/smtpd/smtp_session.c: smtp_session_imsg(), the answers of the other processes. Each takes the
-- session out of the tree that it waits in.
use open_smtpd.Base.{
  ℕ, ◌+◌, ◌*◌, ◌^◌, Bool, true, false, ◌&&◌, ◌||◌, Option, none, some, [], ◌∷◌, ◌++◌, ◌==◌, ◌>>=◌,
  if◌then◌else◌,
}
use open_smtpd.Smtp.Text.{Text, codes, starts_with, strlcpy}
use open_smtpd.Smtp.Address.{Mailaddr, valid_smtp_response}
use open_smtpd.Smtp.Content.{is_ok}
use open_smtpd.Smtp.Types.{
  state_helo, state_quit, error_envelope, FilterPhase, filter_connect, filter_commit, FilterStatus,
  proceed, junk, report, rewrite, reject, disconnect, LkaStatus, lka_ok, lka_tempfail, lka_permfail,
  SmtpTx, wait_lka_helo, wait_lka_mail, wait_lka_rcpt, wait_parent_auth, wait_queue_msg,
  wait_queue_fd, wait_queue_commit, wait_filters, wait_filter_fd, status, text, Session, Env,
}
use open_smtpd.Smtp.Session.{
  has_text, smtp_enter_state, smtp_reply, tree_xpop, tree_xget, set_tx, smtp_filter_data_begin,
  smtp_tx_free,
}
use open_smtpd.Smtp.Check.{Checked}
use open_smtpd.Smtp.Transaction.{
  smtp_tx_create_message, smtp_message_fd, smtp_filter_fd, smtp_message_begin,
}
use open_smtpd.Smtp.Auth.{smtp_auth_failure_pause}
use open_smtpd.Smtp.Proceed.{
  smtp_proceed_rollback, smtp_proceed_connected, proceed_phase, proceed_any, check_phase,
  smtp_connected,
}

unfoldable pub fail_session : Session → Session
unfolding smtp_reply smtp_enter_state
fail_session s = smtp_enter_state state_quit (smtp_reply (status 421) s)

-- IMSG_SMTP_CHECK_SENDER: smtp_tx_create_message() reads the transaction.
unfoldable pub sender_checked : LkaStatus → Session → Option SmtpTx → Option Session
unfolding smtp_tx_create_message smtp_reply
sender_checked lka_ok s none = none
sender_checked lka_ok s (some tx) = smtp_tx_create_message s
sender_checked lka_permfail s tx = do s' ← smtp_tx_free s; some (smtp_reply (status 530) s')
sender_checked lka_tempfail s tx = do s' ← smtp_tx_free s; some (smtp_reply (status 421) s')

unfoldable pub imsg_check_sender : LkaStatus → Session → Option Session
unfolding tree_xpop sender_checked
imsg_check_sender result s = do s' ← tree_xpop wait_lka_mail s; sender_checked result s' s'.tx

-- IMSG_SMTP_EXPAND_RCPT comes for a recipient that fails; the reply is the given line with the address.
unfoldable pub rcpt_text : Mailaddr → Text
rcpt_text rcpt =
    if has_text rcpt.user
    then (if has_text rcpt.domain then rcpt.user ++ (b'@' ∷ rcpt.domain) else rcpt.user)
    else []

unfoldable pub rcpt_failed : LkaStatus → Text → Session → Option SmtpTx → Option Session
unfolding smtp_reply rcpt_text
rcpt_failed result line s none = none
rcpt_failed lka_ok line s (some tx) = none
rcpt_failed lka_permfail line s (some tx) =
    some (smtp_reply (text (line ++ (codes ": <" ++ (rcpt_text tx.evp.rcpt ++ codes ">")))) s)
rcpt_failed lka_tempfail line s (some tx) =
    some (smtp_reply (text (line ++ (codes ": <" ++ (rcpt_text tx.evp.rcpt ++ codes ">")))) s)

unfoldable pub imsg_expand_rcpt : LkaStatus → Text → Session → Option Session
unfolding tree_xpop rcpt_failed
imsg_expand_rcpt result line s = do s' ← tree_xpop wait_lka_rcpt s; rcpt_failed result line s' s'.tx

-- IMSG_SMTP_LOOKUP_HELO: the name, if there is one.
unfoldable pub imsg_lookup_helo : Env → Option Text → Session → Option Session
unfolding tree_xpop smtp_connected strlcpy
imsg_lookup_helo e helo s = do
  s' ← tree_xpop wait_lka_helo s
  smtp_connected e (elim helo [
    | none ↦ s'
    | some name ↦ record s' { smtpname = strlcpy (e.host_name_max + 1) name }
  ])

-- IMSG_SMTP_MESSAGE_CREATE, with the id if it succeeds.
unfoldable pub evpid_of : ℕ → ℕ
evpid_of msgid = msgid * 2 ^ 32

unfoldable pub message_created : Option ℕ → Session → Option SmtpTx → Option Session
unfolding set_tx smtp_reply fail_session smtp_tx_free smtp_enter_state evpid_of
message_created (some msgid) s none = none
message_created (some msgid) s (some tx) = some (
    smtp_reply (status 250) (
      set_tx
        (record tx { msgid = msgid; evp = record (tx.evp) { id = evpid_of msgid }; rcptcount = 0 })
        s))
message_created none s tx = do
  s' ← smtp_tx_free (smtp_reply (status 421) s)
  some (smtp_enter_state state_quit s')

unfoldable pub imsg_message_create : Option ℕ → Session → Option Session
unfolding tree_xpop message_created
imsg_message_create msgid s = do s' ← tree_xpop wait_queue_msg s; message_created msgid s' s'.tx

-- IMSG_SMTP_MESSAGE_OPEN: the file of the message.
unfoldable pub begin_data : Env → Checked → Option SmtpTx → Option Session
unfolding smtp_filter_data_begin smtp_message_begin
begin_data e (s, false) tx = some s
begin_data e (s, true) none = none
begin_data e (s, true) (some tx) =
    if e.f_filtered then smtp_filter_data_begin e s else some (smtp_message_begin e s tx)

unfoldable pub message_opened : Env → Bool → Session → Option SmtpTx → Option Session
unfolding smtp_message_fd fail_session begin_data
message_opened e false s tx = some (fail_session s)
message_opened e true s none = none
message_opened e true s (some tx) = let r = smtp_message_fd e s tx in begin_data e r ((r.0).tx)

unfoldable pub imsg_message_open : Env → Bool → Session → Option Session
unfolding tree_xpop message_opened
imsg_message_open e success s = do s' ← tree_xpop wait_queue_fd s; message_opened e success s' s'.tx

-- IMSG_FILTER_SMTP_DATA_BEGIN: the filter's end of a pipe.
unfoldable pub filter_opened : Env → Bool → Session → Option SmtpTx → Option Session
unfolding smtp_filter_fd fail_session smtp_message_begin set_tx
filter_opened e false s tx = some (fail_session s)
filter_opened e true s none = none
filter_opened e true s (some tx) =
    let tx' = smtp_filter_fd s tx in some (smtp_message_begin e (set_tx tx' s) tx')

unfoldable pub imsg_filter_data_begin : Env → Bool → Session → Option Session
unfolding tree_xpop filter_opened
imsg_filter_data_begin e success s = do
  s' ← tree_xpop wait_filter_fd s
  filter_opened e success s' s'.tx

-- IMSG_QUEUE_ENVELOPE_SUBMIT, with the id if it succeeds: the session goes on waiting.
unfoldable pub envelope_submitted : Option ℕ → Session → Option SmtpTx → Option Session
unfolding set_tx
envelope_submitted evpid s none = none
envelope_submitted (some evpid) s (some tx) =
    some
      (set_tx (record tx { evp = record (tx.evp) { id = evpid }; destcount = tx.destcount + 1 }) s)
envelope_submitted none s (some tx) =
    some (set_tx (record tx { content = record (tx.content) { error = error_envelope } }) s)

unfoldable pub imsg_envelope_submit : Option ℕ → Session → Option Session
unfolding tree_xget envelope_submitted
imsg_envelope_submit evpid s = do s' ← tree_xget wait_lka_rcpt s; envelope_submitted evpid s' s'.tx

-- IMSG_QUEUE_ENVELOPE_COMMIT: the recipient joins the others, unless an envelope has failed.
unfoldable pub add_rcpt : SmtpTx → SmtpTx
add_rcpt tx = record tx {
  rcpts =
      tx.rcpts
      ++ (record { evpid = tx.evp.id; maddr = tx.evp.rcpt; destcount = tx.destcount } ∷ []);
  destcount = 0;
  rcptcount = tx.rcptcount + 1;
}

unfoldable pub envelopes_committed : Session → Option SmtpTx → Option Session
unfolding fail_session set_tx smtp_reply add_rcpt
envelopes_committed s none = none
envelopes_committed s (some tx) =
    if is_ok tx.content.error
    then some (smtp_reply (status 250) (set_tx (add_rcpt tx) s))
    else some (fail_session s)

unfoldable pub imsg_envelope_commit : Bool → Session → Option Session
unfolding tree_xpop envelopes_committed
imsg_envelope_commit false s = none
imsg_envelope_commit true s = do s' ← tree_xpop wait_lka_rcpt s; envelopes_committed s' s'.tx

-- IMSG_SMTP_MESSAGE_COMMIT.
unfoldable pub message_committed : Bool → Session → Option Session
unfolding smtp_reply smtp_tx_free smtp_enter_state
message_committed false s = do
  s' ← smtp_tx_free (smtp_reply (status 421) s)
  some (smtp_enter_state state_quit s')
message_committed true s = do
  s' ← smtp_tx_free (smtp_reply (status 250) s)
  some (smtp_enter_state state_helo (record s' { mailcount = s'.mailcount + 1 }))

unfoldable pub imsg_message_commit : Bool → Session → Option Session
unfolding tree_xpop message_committed
imsg_message_commit success s = do s' ← tree_xpop wait_queue_commit s; message_committed success s'

-- IMSG_SMTP_AUTHENTICATE.
unfoldable pub authenticated_as : LkaStatus → Session → Session
unfolding smtp_reply smtp_enter_state smtp_auth_failure_pause
authenticated_as lka_ok s =
    smtp_enter_state state_helo (smtp_reply (status 235) (record s { authenticated = true }))
authenticated_as lka_permfail s = smtp_auth_failure_pause s
authenticated_as lka_tempfail s = smtp_enter_state state_helo (smtp_reply (status 421) s)

unfoldable pub imsg_authenticate : LkaStatus → Session → Option Session
unfolding tree_xpop authenticated_as
imsg_authenticate result s = do s' ← tree_xpop wait_parent_auth s; some (authenticated_as result s')

-- IMSG_FILTER_SMTP_PROTOCOL. A reply that is no error reply becomes a 421, and 421 ends the session.
unfoldable pub refusal_text : Text → Text
unfolding valid_smtp_response
refusal_text [] = codes "421 Internal server error"
refusal_text (c ∷ param) =
    if valid_smtp_response (c ∷ param) && (c == b'4' || c == b'5')
    then c ∷ param
    else codes "421 Internal server error"

abbrev pub is_commit : FilterPhase → Bool
is_commit filter_commit = true
is_commit _ = false

unfoldable pub filter_refuses : Env → Bool → Text → Session → Option Session
unfolding smtp_reply refusal_text starts_with smtp_enter_state smtp_proceed_rollback
filter_refuses e disconnects param s =
    let answer = refusal_text param in
    let s' = smtp_reply (text answer) s in
    if disconnects || starts_with (codes "421") answer
    then some (smtp_enter_state state_quit s')
    else if is_commit s.filter_phase
    then smtp_proceed_rollback e s' s'.tx
    else some s'

unfoldable pub mark_junk : Session → Option SmtpTx → Session
unfolding set_tx
mark_junk s none = record s { junk = true }
mark_junk s (some tx) = set_tx (record tx { junk = true }) s

-- FILTER_REWRITE: the new parameter is checked first, except in FILTER_CONNECT.
unfoldable pub proceed_checked : FilterPhase → Env → Text → Checked → Option Session
unfolding proceed_phase
proceed_checked phase e param (s, true) = proceed_phase phase e s (some param)
proceed_checked phase e param (s, false) = some s

unfoldable pub filter_rewrites : FilterPhase → Env → Text → Session → Option Session
unfolding check_phase proceed_checked smtp_proceed_connected
filter_rewrites filter_connect e param s = smtp_proceed_connected e s
filter_rewrites phase e param s = do
  r ← check_phase phase e s (some param)
  proceed_checked phase e param r

unfoldable pub filter_answers : FilterStatus → Env → Session → Option Session
unfolding filter_refuses mark_junk filter_rewrites proceed_any
filter_answers (reject param) e s = filter_refuses e false param s
filter_answers (disconnect param) e s = filter_refuses e true param s
filter_answers junk e s = proceed_any s.filter_phase e (mark_junk s s.tx) s.filter_param
filter_answers proceed e s = proceed_any s.filter_phase e s s.filter_param
filter_answers (report param) e s = proceed_any s.filter_phase e s (some param)
filter_answers (rewrite param) e s = filter_rewrites s.filter_phase e param s

unfoldable pub imsg_filter : FilterStatus → Env → Session → Option Session
unfolding tree_xpop filter_answers
imsg_filter answer e s = do s' ← tree_xpop wait_filters s; filter_answers answer e s'
