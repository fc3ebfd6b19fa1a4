-- ===== src/Smtp/Invariant/Late.antt =====
-- The end of a filtered message, with input behind it: IO_DATAIN in smtp_io(), and filter_session_io(), of
-- usr.sbin/smtpd/smtp_session.c.
use open_smtpd.Base.{true, false, none, some, List, [], ◌∷◌}
use open_smtpd.Smtp.Text.{Text, codes}
use open_smtpd.Smtp.Types.{
  state_body, state_quit, filter_commit, Content, SmtpTx, wait_filters, status, Request, filter_end,
  Session,
}

-- A session that reads the lines of a message that a filter rewrites.
abbrev pub in_message : Session → SmtpTx → Session
in_message s tx = record s {
  state = state_body;
  reading = true;
  queued = false;
  waits = [];
  tx = some (record tx { filter = true });
}

-- The client's last line goes to the filter.
abbrev pub passed_on : SmtpTx → SmtpTx
passed_on tx = record tx {
  filter = true;
  content = record tx.content { to_filter = codes "." ∷ tx.content.to_filter };
}

-- The client's last line goes to the filter, and the input behind it is refused.
abbrev left_message : Session → SmtpTx → Session
left_message s tx = record (in_message s tx) {
  state = state_quit;
  reading = false;
  queued = true;
  bad_input = true;
  tx = some (passed_on tx);
  replies = status 500 ∷ s.replies;
}

-- What the session is when the filter's last line has ended the message.
abbrev pub asking : Session → SmtpTx → Content → List Request → Session
asking s tx c m = record (left_message s tx) {
  tx = some (record (passed_on tx) { content = c });
  filter_phase = filter_commit;
  filter_param = none;
  waits = wait_filters ∷ [];
  sent = m;
}

-- What the session is when its output is gone.
abbrev pub freed_from : Session → List Request → Session
freed_from t m = record t {
  queued = false;
  tx = none;
  sent = filter_end ∷ m;
  freed = true;
  reading = false;
}
