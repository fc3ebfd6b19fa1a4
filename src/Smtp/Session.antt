-- ===== src/Smtp/Session.antt =====
-- usr.sbin/smtpd/smtp_session.c: the steps that the handlers share. A function from a session to an
-- Option of a session is a C function on it: `none` is fatal(), a NULL pointer that is read, or a tree
-- that does not hold what is taken out of it, or holds what is put in.
use open_smtpd.Base.{
  ℕ, Bool, true, false, not, ◌&&◌, ◌||◌, Option, none, some, List, [], ◌∷◌, ◌==◌, ◌>>=◌,
  if◌then◌else◌, ◌++◌,
}
use open_smtpd.Smtp.Text.{Text, is_empty}
use open_smtpd.Smtp.Content.{Writer}
use open_smtpd.Smtp.Types.{
  State, Envelope, SmtpTx, Wait, wait_lka_helo, wait_lka_mail, wait_lka_rcpt, wait_parent_auth,
  wait_queue_msg, wait_queue_fd, wait_queue_commit, wait_filters, wait_filter_fd, Reply, Request,
  message_rollback, filter_begin, filter_end, filter_data_begin, filter_data_end, Session, Env,
}

abbrev pub has_text : Text → Bool
has_text t = not (is_empty t)

unfoldable pub smtp_enter_state : State → Session → Session
smtp_enter_state newstate s = record s { state = newstate }

unfoldable pub smtp_reply : Reply → Session → Session
smtp_reply r s = record s { replies = r ∷ s.replies; queued = true }

unfoldable pub send : Request → Session → Session
send r s = record s { sent = r ∷ s.sent }

unfoldable pub io_set_read : Session → Session
io_set_read s = record s { reading = true }

unfoldable pub io_set_write : Session → Session
io_set_write s = record s { reading = false }

-- The trees are told apart by a number.
abbrev pub tree_id : Wait → ℕ
tree_id wait_lka_helo = 0
tree_id wait_lka_mail = 1
tree_id wait_lka_rcpt = 2
tree_id wait_parent_auth = 3
tree_id wait_queue_msg = 4
tree_id wait_queue_fd = 5
tree_id wait_queue_commit = 6
tree_id wait_filters = 7
tree_id wait_filter_fd = 8

unfoldable pub waits_in : Wait → List Wait → Bool
waits_in w [] = false
waits_in w (v ∷ ws) = tree_id v == tree_id w || waits_in w ws

unfoldable pub leave_tree : Wait → List Wait → List Wait
leave_tree w [] = []
leave_tree w (v ∷ ws) =
    let rest = leave_tree w ws in if tree_id v == tree_id w then ws else v ∷ rest

unfoldable pub tree_xset : Wait → Session → Option Session
unfolding waits_in
tree_xset w s = if waits_in w s.waits then none else some (record s { waits = w ∷ s.waits })

unfoldable pub tree_xpop : Wait → Session → Option Session
unfolding waits_in leave_tree
tree_xpop w s =
    if waits_in w s.waits then some (record s { waits = leave_tree w s.waits }) else none

unfoldable pub tree_xget : Wait → Session → Option Session
unfolding waits_in
tree_xget w s = if waits_in w s.waits then some s else none

-- The transaction behind the pointer, which is not NULL.
unfoldable pub the_tx : Session → Option SmtpTx
the_tx s = s.tx

unfoldable pub set_tx : SmtpTx → Session → Session
set_tx tx s = record s { tx = some tx }

-- ADVERTISE_TLS, ADVERTISE_AUTH.
unfoldable pub advertise_tls : Env → Session → Bool
advertise_tls e s = e.f_starttls && not s.secure

unfoldable pub advertise_auth : Env → Session → Bool
advertise_auth e s = e.f_auth && s.secure && not s.authenticated

-- smtp_filter_data_end(): a transaction must be there in a filtered session.
unfoldable pub end_filter : Session → Option SmtpTx → Option Session
unfolding send set_tx
end_filter s none = none
end_filter s (some tx) =
    if tx.filter
    then some (send filter_data_end (set_tx (record tx { filter = false }) s))
    else some s

unfoldable pub smtp_filter_data_end : Env → Session → Option Session
unfolding end_filter
smtp_filter_data_end e s = if e.f_filtered then end_filter s s.tx else some s

unfoldable pub smtp_filter_begin : Env → Session → Session
unfolding send
smtp_filter_begin e s = if e.f_filtered then send filter_begin s else s

unfoldable pub smtp_filter_end : Env → Session → Session
unfolding send
smtp_filter_end e s = if e.f_filtered then send filter_end s else s

unfoldable pub smtp_filter_data_begin : Env → Session → Option Session
unfolding send tree_xset
smtp_filter_data_begin e s =
    if e.f_filtered then tree_xset wait_filter_fd (send filter_data_begin s) else some s

unfoldable pub smtp_tx_rollback : Env → SmtpTx → Session → Option Session
unfolding send smtp_filter_data_end
smtp_tx_rollback e tx s = smtp_filter_data_end e (send (message_rollback tx.msgid) s)

-- smtp_tx_free(): a NULL pointer is read.
unfoldable pub drop_tx : Session → Option SmtpTx → Option Session
drop_tx s none = none
drop_tx s (some tx) = some (record s { tx = none })

unfoldable pub smtp_tx_free : Session → Option Session
unfolding drop_tx
smtp_tx_free s = drop_tx s s.tx

-- The end of the transaction in smtp_free() and smtp_proceed_rset(), if there is one.
unfoldable pub abandon : Env → Session → Option SmtpTx → Option Session
unfolding smtp_tx_rollback smtp_tx_free
abandon e s none = some s
abandon e s (some tx) = do
  s' ← (if tx.msgid == 0 then some s else smtp_tx_rollback e tx s)
  smtp_tx_free s'

-- smtp_free(): the session is gone; what is left of it shows what it said last.
unfoldable pub smtp_free : Env → Session → Option Session
unfolding abandon smtp_filter_end
smtp_free e s = do
  s' ← abandon e s s.tx
  some (record (smtp_filter_end e s') { freed = true; queued = false; reading = false })

-- What the lines of a message are written by.
unfoldable pub writer_of : Env → Session → Envelope → Writer
writer_of e s evp = record {
  hostname = e.hostname;
  masquerade =
      if s.authenticated && has_text e.sendertable && e.f_masquerade
      then some (evp.sender.user ++ (b'@' ∷ evp.sender.domain))
      else none;
  submission = e.submission;
  date = e.date;
  message_id = e.message_id;
  vfprintf = e.vfprintf;
}
