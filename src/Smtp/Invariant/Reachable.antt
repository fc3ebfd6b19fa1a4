-- ===== src/Smtp/Invariant/Reachable.antt =====
-- What holds of every session of usr.sbin/smtpd/smtp_session.c that events can lead to.
use open_smtpd.Base.{
  ◌≡◌, refl, sym, ap, subst, ◌⊎◌, Bool, true, false, not, Option, none, some, [], ◌∷◌, arith,
}
use open_smtpd.Smtp.Text.{Text, codes, text_eq}
use open_smtpd.Smtp.Types.{
  proceed, lka_ok, SmtpTx, Wait, wait_lka_helo, wait_lka_mail, wait_lka_rcpt, wait_parent_auth,
  wait_queue_msg, wait_queue_fd, wait_queue_commit, wait_filters, wait_filter_fd, Session, Env,
}
use open_smtpd.Smtp.Session.{has_text, send, waits_in}
use open_smtpd.Smtp.Proceed.{smtp_lookup_servername, smtp_session}
use open_smtpd.Smtp.Io.{
  is_body, Event, tlsready, datain, lowat, timeout, disconnected, io_error, check_sender_answer,
  lookup_helo_answer, message_create_answer, message_open_answer, filter_data_answer,
  envelope_commit, message_commit_answer, authenticate_answer, filter_answer, resume, filter_line,
  smtp_io,
}
use open_smtpd.Smtp.Steps.{Enabled, Reach, start, step, EndsInBody, Timely}
use open_smtpd.Smtp.Invariant.Defs.{
  Allowed, Filtered, Turn, Situation, over, ready, awaits, pauses, secures, filters, Inv, Kept,
  Good, Good-Kept, xset-Good, if-Good,
}
use open_smtpd.Smtp.Invariant.Commands.{Allocates}
use open_smtpd.Smtp.Invariant.Messages.{connected-Good}
use open_smtpd.Smtp.Invariant.Events.{Enabled-Kept}

begun-Good :
    (e : Env) (host : Option Text)
    → Allocates e
    → Good e (smtp_lookup_servername e (smtp_session e host))
unfolding smtp_lookup_servername smtp_session send
begun-Good e host al =
    if-Good e (has_text e.hostnametable) _ _ (λ c. xset-Good e wait_lka_helo _ new (refl, refl))
      (λ c. connected-Good e (smtp_session e host) al new refl refl)
  where
    new : Turn e (smtp_session e host)
    new = ((refl, refl, refl, refl, omega arith, tt), refl, refl)

pub Reach-Inv : (e : Env) (s : Session) → Allocates e → (r : Reach e s) → Timely r → Inv e s
Reach-Inv e s al (start host eq) t =
    let x = smtp_lookup_servername e (smtp_session e host) in
    subst (Kept e) eq (Good-Kept e x (begun-Good e host al))
Reach-Inv e s al (step {s = t} r ev en eq) (now, before) =
    subst (Kept e) eq (Enabled-Kept ev e t al (Reach-Inv e t al r before) en now)

-- No fault, and a session that events can lead to.
abbrev pub Continues : Event → Env → Session → Type 0
Continues ev e s = (t : Session) × (smtp_io ev e s ≡ some t) × Reach e t

-- The connection's end is not counted.
abbrev pub goes_on : Event → Bool
goes_on timeout = false
goes_on disconnected = false
goes_on io_error = false
goes_on _ = true

-- An event can come, and is no end of the connection, nor of a message that the session has left.
abbrev pub Awake : Session → Type 0
Awake s = (ev : Event) × Enabled s ev × EndsInBody s ev × (goes_on ev ≡ true)

waited : (s : Session) (w : Wait) → s.waits ≡ w ∷ [] → Awake s
waited s w z = by_tree w (subst (λ x. waits_in w x ≡ true) (sym z) (itself w))
  where
    itself : (w : Wait) → waits_in w (w ∷ []) ≡ true
    itself w = unfold waits_in in ground arith

    by_tree : (w : Wait) → waits_in w s.waits ≡ true → Awake s
    by_tree wait_lka_helo h = (lookup_helo_answer none, h, tt, refl)
    by_tree wait_lka_mail h = (check_sender_answer lka_ok, h, tt, refl)
    by_tree wait_lka_rcpt h = (envelope_commit true, h, tt, refl)
    by_tree wait_parent_auth h = (authenticate_answer lka_ok, h, tt, refl)
    by_tree wait_queue_msg h = (message_create_answer none, h, tt, refl)
    by_tree wait_queue_fd h = (message_open_answer true, h, tt, refl)
    by_tree wait_queue_commit h = (message_commit_answer true, h, tt, refl)
    by_tree wait_filters h = (filter_answer proceed, h, tt, refl)
    by_tree wait_filter_fd h = (filter_data_answer true, h, tt, refl)

-- A session that events have led to, and that is not over, is not stuck: input, the end of output, the
-- end of a handshake, an answer, the end of a pause or a line of the filter can come. This is so where no
-- filter ends a message of a session that has refused further input and is about to quit, and where
-- memory for a transaction comes with memory for its parser.
pub no_deadlock :
    (e : Env) (s : Session) → Allocates e → (r : Reach e s) → Timely r → s.freed ≡ false → Awake s
unfolding text_eq
no_deadlock e s al r before alive = by_situation ((Reach-Inv e s al r before).situation)
  where
    filter_ends :
        (o : Option SmtpTx) → Filtered o → (elim o [ none ↦ false | some tx ↦ tx.filter ]) ≡ true
    filter_ends none f = absurd f
    filter_ends (some tx) f = f.1

    by_reading :
        (b : Bool) → s.reading ≡ b → s.queued ≡ not s.reading → s.handshake ≡ false → Awake s
    by_reading true rd q h = (datain [] 0, ground arith, tt, refl)
    by_reading false rd q h = (lowat, ground arith, tt, refl)

    by_situation : Situation e s → Awake s
    by_situation (over (z, p, f) rq n) = cc
    by_situation (ready (z, p, hs, f) q sh) = by_reading s.reading refl q hs
    by_situation (awaits w (z, p, hs, f) rq pe) = waited s w z
    by_situation (pauses (z, p, hs, f) rq n) = (resume, p, tt, refl)
    by_situation (secures (z, p, hs, f) rq n) = (tlsready, ground arith, tt, refl)
    by_situation (filters (z, p, hs, f) (rd, q) st fi) =
        (filter_line (codes "."), ground (arith, filter_ends s.tx fi), ap is_body st, refl)

-- A transaction of a session that events have led to is for a client that has said who it is, over TLS
-- and authenticated where the listener requires these; it is within the limits on messages and
-- recipients, and its recipients are as many as it counts. This is so where no filter ends a message of a
-- session that has refused further input and is about to quit, and where memory for a transaction comes
-- with memory for its parser.
pub Reach-Allowed :
    (e : Env) (s : Session) (tx : SmtpTx)
    → Allocates e
    → (r : Reach e s) → Timely r
    → s.tx ≡ some tx
    → Allowed e s (some tx)
Reach-Allowed e s tx al r before eq = subst (Allowed e s) eq (Reach-Inv e s al r before).allowed

-- In no tree, or in one, neither reading nor with output.
abbrev pub WaitsOnce : Session → Type 0
WaitsOnce s =
    (s.waits ≡ []) ⊎ ((w : Wait) × (s.waits ≡ w ∷ []) × (s.reading ≡ false) × (s.queued ≡ false))
