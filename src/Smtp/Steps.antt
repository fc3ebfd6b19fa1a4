-- ===== src/Smtp/Steps.antt =====
-- The sessions that events can lead to. What the connection and the other processes do is bounded by
-- what a session has asked for: an answer comes to a session that waits for it, once; the connection
-- has events only while the session reads or has output (ioev.c, io_reload() and io_reset()); input comes
-- while it reads and no handshake is under way; a filter sends lines from the message's beginning on, in
-- whatever state the session is, and its last one once, after the client's last.
use open_smtpd.Base.{◌≡◌, Bool, true, false, not, ◌&&◌, ◌||◌, Option, none, some, List, [], ◌∷◌}
use open_smtpd.Smtp.Text.{Text, codes, text_eq}
use open_smtpd.Smtp.Types.{
  lka_ok, Wait, wait_lka_helo, wait_lka_mail, wait_lka_rcpt, wait_parent_auth, wait_queue_msg,
  wait_queue_fd, wait_queue_commit, wait_filters, wait_filter_fd, Session, Env,
}
use open_smtpd.Smtp.Session.{waits_in}
use open_smtpd.Smtp.Proceed.{smtp_lookup_servername, smtp_session}
use open_smtpd.Smtp.Io.{
  is_body, Event, tlsready, datain, lowat, timeout, disconnected, io_error, check_sender_answer,
  expand_rcpt_answer, lookup_helo_answer, message_create_answer, message_open_answer,
  filter_data_answer, envelope_submit, envelope_commit, message_commit_answer, authenticate_answer,
  filter_answer, resume, filter_line, smtp_io,
}

abbrev pub IsTrue : Bool → Type 0
IsTrue b = b ≡ true

-- The session waits in the tree.
abbrev pub Waits : Wait → Session → Type 0
Waits w s = IsTrue (waits_in w s.waits)

-- The connection can have an event.
abbrev pub Connected : Session → Type 0
Connected s = IsTrue (not s.freed && (s.reading || s.queued))

abbrev pub has_filter : Session → Bool
has_filter s = elim s.tx [ none ↦ false | some tx ↦ tx.filter ] && not s.freed

abbrev pub waits_for_none : List Wait → Bool
waits_for_none [] = true
waits_for_none (w ∷ ws) = false

-- A line of the filter: while the session has one. Within the message the client's last line has come
-- when the session neither reads nor has output; in other states it may have come.
abbrev pub filter_may_send : Text → Session → Bool
filter_may_send line s =
    has_filter s
    && waits_for_none s.waits
    && (not (text_eq line (codes ".")) || not (is_body s.state) || not s.reading && not s.queued)

-- When an event can happen. The lookup process sends a line of at least four characters with a refused
-- recipient, and never LKA_OK; the queue never refuses to commit envelopes that it took.
abbrev pub Enabled : Session → Event → Type 0
Enabled s tlsready = IsTrue (s.handshake && not s.freed)
Enabled s (datain lines rest) = IsTrue (s.reading && not s.handshake)
Enabled s lowat = IsTrue (s.queued && not s.reading)
Enabled s timeout = Connected s
Enabled s disconnected = Connected s
Enabled s io_error = Connected s
Enabled s (check_sender_answer result) = Waits wait_lka_mail s
Enabled s (expand_rcpt_answer lka_ok line) = ⊥
Enabled s (expand_rcpt_answer result line) = Waits wait_lka_rcpt s
Enabled s (lookup_helo_answer helo) = Waits wait_lka_helo s
Enabled s (message_create_answer msgid) = Waits wait_queue_msg s
Enabled s (message_open_answer success) = Waits wait_queue_fd s
Enabled s (filter_data_answer success) = Waits wait_filter_fd s
Enabled s (envelope_submit evpid) = Waits wait_lka_rcpt s
Enabled s (envelope_commit false) = ⊥
Enabled s (envelope_commit true) = Waits wait_lka_rcpt s
Enabled s (message_commit_answer success) = Waits wait_queue_commit s
Enabled s (authenticate_answer result) = Waits wait_parent_auth s
Enabled s (filter_answer answer) = Waits wait_filters s
Enabled s resume = IsTrue s.paused
Enabled s (filter_line line) = IsTrue (filter_may_send line s)

-- A session from its beginning on. The resolver, which only names the client, is passed over.
pub data Reach (e : Env) : Session → Type 0 where
  start :
      {s : Session} (host : Option Text)
      → smtp_lookup_servername e (smtp_session e host) ≡ some s
      → Reach e s
  step :
      {s t : Session}
      → Reach e s
      → (ev : Event) → Enabled s ev
      → smtp_io ev e s ≡ some t
      → Reach e t

-- The last line of a filter ends a message that the session is still in. It does not where the session
-- has refused further input before, and is about to quit: with a line that is too long, or with input
-- behind the message's last line, which filter_session_io() does not look at.
abbrev pub EndsInBody : Session → Event → Type 0
EndsInBody s (filter_line line) = IsTrue (not (text_eq line (codes ".")) || is_body s.state)
EndsInBody s ev = Unit {0}

-- So does each line of a filter in a run.
abbrev pub Timely : {e : Env} {s : Session} → Reach e s → Type 0
Timely (start host eq) = Unit {0}
Timely (step {s = s} r ev en eq) = EndsInBody s ev × Timely r

-- A run of events, for tests.
unfoldable pub run : Env → List Event → Option Session → Option Session
unfolding smtp_io
run e evs none = none
run e [] (some s) = some s
run e (ev ∷ evs) (some s) = run e evs (smtp_io ev e s)
