-- ===== src/Smtp/Invariant/Events.antt =====
-- Every event keeps the invariant: smtp_io(), smtp_session_imsg(), filter_session_io() and the timer of
-- usr.sbin/smtpd/smtp_session.c.
use open_smtpd.Base.{
  ℕ, ◌≡◌, refl, sym, ap, subst, ◌∙◌, Bool, true, false, not, ◌&&◌, ◌||◌, Option, none, some, List,
  [], arith,
}
use open_smtpd.Smtp.Text.{Text, codes, text_eq}
use open_smtpd.Smtp.Types.{
  State, state_new, state_connected, state_tls, state_helo, state_auth_init, state_auth_username,
  state_auth_password, state_auth_finalize, state_body, state_quit, filter_commit, lka_ok,
  lka_tempfail, lka_permfail, Content, SmtpTx, Session, Env,
}
use open_smtpd.Smtp.Session.{set_tx, writer_of}
use open_smtpd.Smtp.Io.{
  smtp_tx_eom, is_body, io_datain, filtered_line, filter_session_line, Event, tlsready, datain,
  lowat, timeout, disconnected, io_error, check_sender_answer, expand_rcpt_answer,
  lookup_helo_answer, message_create_answer, message_open_answer, filter_data_answer,
  envelope_submit, envelope_commit, message_commit_answer, authenticate_answer, filter_answer,
  resume, filter_line, smtp_io,
}
use open_smtpd.Smtp.Steps.{has_filter, waits_for_none, filter_may_send, Enabled, EndsInBody}
use open_smtpd.Smtp.Lines.Total.{dataline-Total}
use open_smtpd.Smtp.Invariant.Defs.{
  Allowed, Closed, IsOpen, Filtered, Shape, Situation, over, ready, awaits, pauses, secures,
  filters, Inv, Kept, Good-Kept,
}
use open_smtpd.Smtp.Invariant.Commands.{Allocates}
use open_smtpd.Smtp.Invariant.Lines.{filter_phase-Good}
use open_smtpd.Smtp.Invariant.Answers.{check_sender-Good, expand_rcpt-Good, message_create-Good}
use open_smtpd.Smtp.Invariant.Messages.{
  envelope_submit-Good, envelope_commit-Good, message_open-Good, filter_data-Good,
  message_commit-Good, authenticate-Good, resume-Good, lookup_helo-Good,
}
use open_smtpd.Smtp.Invariant.Filters.{filter_answer-Good}
use open_smtpd.Smtp.Invariant.Input.{free-Good, tlsready-Kept, lowat-Kept}
use open_smtpd.Smtp.Invariant.Datain.{io_datain-Kept}

pub datain-Kept :
    (e : Env) (lines : List Text) (rest : ℕ) (s : Session)
    → Allocates e
    → Inv e s
    → (s.reading && not s.handshake) ≡ true
    → Kept e (io_datain e lines rest s)
datain-Kept e lines rest s al i h = by_situation i.situation
  where
    by_situation : Situation e s → Kept e (io_datain e lines rest s)
    by_situation (over (z, p, f) (r, q) n) = absurd (ground arith)
    by_situation (ready (z, p, hs, f) q sh) =
        let r : s.reading ≡ true = ground arith in
        io_datain-Kept e lines rest s al ((z, p, hs, f, i.bound, i.allowed), r, q ∙ ap not r, sh)
    by_situation (awaits v c (r, q) pe) = absurd (ground arith)
    by_situation (pauses c (r, q) n) = absurd (ground arith)
    by_situation (secures (z, p, hs, f) (r, q) n) = absurd (ground arith)
    by_situation (filters c (r, q) st fi) = absurd (ground arith)

-- The filter's lines come while a message is on its way.
has_filter-tx :
    (s : Session) (o : Option SmtpTx)
    → (elim o [ none ↦ false | some tx ↦ tx.filter ]) ≡ true
    → s.tx ≡ o
    → (tx : SmtpTx) × (s.tx ≡ some tx) × (tx.filter ≡ true)
has_filter-tx s none h eq = cc
has_filter-tx s (some tx) h eq = (tx, eq, h)

and-true : (a b : Bool) → (a && b) ≡ true → (a ≡ true) × (b ≡ true)
and-true a b h = ground arith

-- What is asked of a line of the filter, one by one.
may_send_parts :
    (line : Text) (s : Session)
    → filter_may_send line s ≡ true
    → ((tx : SmtpTx) × (s.tx ≡ some tx) × (tx.filter ≡ true))
      × (waits_for_none s.waits ≡ true)
      × ((not (text_eq line (codes ".")) || not (is_body s.state) || not s.reading && not s.queued)
          ≡ true)
may_send_parts line s h =
    let late =
      not (text_eq line (codes ".")) || not (is_body s.state) || not s.reading && not s.queued in
    let filter : Bool = elim s.tx [ none ↦ false | some tx ↦ tx.filter ] in
    let (parts, l) = and-true (has_filter s && waits_for_none s.waits) late h in
    let (f, w) = and-true (has_filter s) (waits_for_none s.waits) parts in
    (has_filter-tx s s.tx ((and-true filter (not s.freed) f).0) refl, w, l)

-- What a line changes of the message leaves the session as it was.
content-Shape :
    (st : State) (s : Session) (tx : SmtpTx) (c : Content)
    → s.tx ≡ some tx
    → tx.filter ≡ true
    → Shape st s
    → Shape st (record s { tx = some (record tx { content = c }) })
content-Shape state_new s tx c eq f sh = sh
content-Shape state_connected s tx c eq f (n, he) = cc
content-Shape state_tls s tx c eq f (n, r) = cc
content-Shape state_helo s tx c eq f sh = subst Closed eq sh
content-Shape state_auth_init s tx c eq f sh = cc
content-Shape state_auth_username s tx c eq f sh = cc
content-Shape state_auth_password s tx c eq f sh = cc
content-Shape state_auth_finalize s tx c eq f sh = sh
content-Shape state_body s tx c eq f sh = subst IsOpen eq sh
content-Shape state_quit s tx c eq f sh = sh

module _ (e : Env) (s : Session) (al : Allocates e) (i : Inv e s) (line : Text) where
  abbrev Sent : SmtpTx → Type 0
  Sent tx = Kept e (filter_session_line e line s (some tx))

  -- A line that is not the last.
  reading-Sent :
      (tx : SmtpTx)
      → (s.waits ≡ []) × (s.paused ≡ false) × (s.handshake ≡ false) × (s.freed ≡ false)
      → s.queued ≡ not s.reading
      → Shape s.state s
      → text_eq line (codes ".") ≡ false
      → s.tx ≡ some tx
      → tx.filter ≡ true
      → Sent tx
  unfolding filter_session_line
  reading-Sent tx c q sh dot eq fi =
      let (x, found, last) = dataline-Total (writer_of e s tx.evp) tx.content line in
      rw found (kept x (last dot))
    where
      kept : (x : Content × Bool) → x.1 ≡ false → Kept e (filtered_line e s tx (some x))
      kept (c', true) l = cc
      kept (c', false) l =
          unfold filtered_line set_tx in
          record {
            bound = i.bound;
            allowed = subst (Allowed e s) eq i.allowed;
            situation = ready c q (content-Shape s.state s tx c' eq fi sh);
          }

  filters-Sent :
      (tx : SmtpTx)
      → (s.waits ≡ []) × (s.paused ≡ false) × (s.handshake ≡ false) × (s.freed ≡ false)
      → (s.reading ≡ false) × (s.queued ≡ false)
      → s.state ≡ state_body
      → Filtered s.tx
      → s.tx ≡ some tx
      → Sent tx
  unfolding filter_session_line
  filters-Sent tx (z, p, hs, f) rq st fi eq =
      let (x, found, last) = dataline-Total (writer_of e s tx.evp) tx.content line in
      rw found (by_end x)
    where
      open_tx : Filtered (some tx)
      open_tx = subst Filtered eq fi

      by_end : (x : Content × Bool) → Kept e (filtered_line e s tx (some x))
      by_end (c', true) =
          let s' : Session = record s { tx = some (record tx { content = c' }) } in
          unfold filtered_line set_tx smtp_tx_eom in
          Good-Kept e (smtp_tx_eom e s') (
            filter_phase-Good filter_commit e s' none al
              ((z, p, hs, f, i.bound, subst (Allowed e s) eq i.allowed), rq.0, rq.1)
              (st, open_tx.0))
      by_end (c', false) =
          unfold filtered_line set_tx in
          record {
            bound = i.bound;
            allowed = subst (Allowed e s) eq i.allowed;
            situation = filters (z, p, hs, f) rq st open_tx;
          }

  pub filter_line-Kept :
      filter_may_send line s ≡ true
      → (not (text_eq line (codes ".")) || is_body s.state) ≡ true
      → Kept e (filter_session_line e line s s.tx)
  filter_line-Kept h body =
      let ((tx, eq, fi), w, late) = may_send_parts line s h in
      subst (λ o. Kept e (filter_session_line e line s o)) (sym eq)
        (by_situation tx eq fi w late i.situation)
    where
      by_situation :
          (tx : SmtpTx)
          → s.tx ≡ some tx
          → tx.filter ≡ true
          → waits_for_none s.waits ≡ true
          → (not (text_eq line (codes "."))
              || not (is_body s.state)
              || not s.reading && not s.queued)
            ≡ true
          → Situation e s
          → Sent tx
      by_situation tx eq fi w late (over c rq n) = cc (eq, n)
      by_situation tx eq fi w late (ready c q sh) =
          reading-Sent tx c q sh (ground (arith, body, late, q)) eq fi
      by_situation tx eq fi w late (awaits v (z, p, hs, f) rq pe) = cc (w, ap waits_for_none z)
      by_situation tx eq fi w late (pauses c rq n) = cc (eq, n)
      by_situation tx eq fi w late (secures c rq (n, o)) = cc (eq, n)
      by_situation tx eq fi w late (filters c rq st fi') = filters-Sent tx c rq st fi' eq

-- Where the invariant holds, an event that can happen does not fault, and keeps it.
pub Enabled-Kept :
    (ev : Event) (e : Env) (s : Session)
    → Allocates e
    → Inv e s
    → Enabled s ev
    → EndsInBody s ev
    → Kept e (smtp_io ev e s)
unfolding smtp_io
Enabled-Kept tlsready e s al i h t = tlsready-Kept e s i h
Enabled-Kept (datain lines rest) e s al i h t = datain-Kept e lines rest s al i h
Enabled-Kept lowat e s al i h t = lowat-Kept e s i h
Enabled-Kept timeout e s al i h t = Good-Kept e (smtp_io timeout e s) (free-Good e s i h)
Enabled-Kept disconnected e s al i h t = Good-Kept e (smtp_io disconnected e s) (free-Good e s i h)
Enabled-Kept io_error e s al i h t = Good-Kept e (smtp_io io_error e s) (free-Good e s i h)
Enabled-Kept (check_sender_answer result) e s al i h t =
    Good-Kept e (smtp_io (check_sender_answer result) e s) (check_sender-Good result e s i h)
Enabled-Kept (expand_rcpt_answer lka_ok line) e s al i h t = absurd h
Enabled-Kept (expand_rcpt_answer lka_tempfail line) e s al i h t =
    Good-Kept e (smtp_io (expand_rcpt_answer lka_tempfail line) e s)
      (expand_rcpt-Good lka_tempfail line e s (λ x. cc) i h)
Enabled-Kept (expand_rcpt_answer lka_permfail line) e s al i h t =
    Good-Kept e (smtp_io (expand_rcpt_answer lka_permfail line) e s)
      (expand_rcpt-Good lka_permfail line e s (λ x. cc) i h)
Enabled-Kept (lookup_helo_answer helo) e s al i h t =
    Good-Kept e (smtp_io (lookup_helo_answer helo) e s) (lookup_helo-Good helo e s al i h)
Enabled-Kept (message_create_answer msgid) e s al i h t =
    Good-Kept e (smtp_io (message_create_answer msgid) e s) (message_create-Good msgid e s i h)
Enabled-Kept (message_open_answer success) e s al i h t =
    Good-Kept e (smtp_io (message_open_answer success) e s) (message_open-Good success e s i h)
Enabled-Kept (filter_data_answer success) e s al i h t =
    Good-Kept e (smtp_io (filter_data_answer success) e s) (filter_data-Good success e s i h)
Enabled-Kept (envelope_submit evpid) e s al i h t =
    Good-Kept e (smtp_io (envelope_submit evpid) e s) (envelope_submit-Good evpid e s i h)
Enabled-Kept (envelope_commit false) e s al i h t = absurd h
Enabled-Kept (envelope_commit true) e s al i h t =
    Good-Kept e (smtp_io (envelope_commit true) e s) (envelope_commit-Good e s i h)
Enabled-Kept (message_commit_answer success) e s al i h t =
    Good-Kept e (smtp_io (message_commit_answer success) e s) (message_commit-Good success e s i h)
Enabled-Kept (authenticate_answer result) e s al i h t =
    Good-Kept e (smtp_io (authenticate_answer result) e s) (authenticate-Good result e s i h)
Enabled-Kept (filter_answer answer) e s al i h t =
    Good-Kept e (smtp_io (filter_answer answer) e s) (filter_answer-Good answer e s al i h)
Enabled-Kept resume e s al i h t = Good-Kept e (smtp_io resume e s) (resume-Good e s i h)
Enabled-Kept (filter_line line) e s al i h t = filter_line-Kept e s al i line h t
