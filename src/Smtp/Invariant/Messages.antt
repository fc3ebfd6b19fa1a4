-- ===== src/Smtp/Invariant/Messages.antt =====
-- The answers about envelopes, files, passwords and names keep the invariant: smtp_session_imsg() of
-- usr.sbin/smtpd/smtp_session.c.
use open_smtpd.Base.{
  ℕ, ◌+◌, ◌<◌, ◌≡◌, refl, sym, subst, inl, inr, Bool, true, false, Option, none, some, [], ◌∷◌,
  arith, Bool-cases, length-append, if◌then◌else◌,
}
use open_smtpd.Smtp.Text.{Text, strlcpy}
use open_smtpd.Smtp.Types.{
  state_connected, state_helo, filter_connect, LkaStatus, lka_ok, lka_tempfail, lka_permfail,
  SmtpTx, wait_lka_helo, wait_lka_rcpt, wait_parent_auth, wait_queue_fd, wait_queue_commit,
  wait_filter_fd, filter_begin, Session, Env,
}
use open_smtpd.Smtp.Session.{
  smtp_enter_state, smtp_reply, send, waits_in, tree_xget, set_tx, smtp_filter_begin,
  smtp_filter_data_begin, drop_tx, smtp_tx_free,
}
use open_smtpd.Smtp.Content.{is_ok}
use open_smtpd.Smtp.Transaction.{smtp_message_fd, smtp_filter_fd, smtp_message_begin}
use open_smtpd.Smtp.Auth.{smtp_auth_failure_pause, smtp_auth_failure_resume}
use open_smtpd.Smtp.Proceed.{smtp_filter_phase, smtp_connected}
use open_smtpd.Smtp.Imsg.{
  imsg_lookup_helo, begin_data, message_opened, imsg_message_open, filter_opened,
  imsg_filter_data_begin, envelope_submitted, imsg_envelope_submit, add_rcpt, envelopes_committed,
  imsg_envelope_commit, message_committed, imsg_message_commit, authenticated_as, imsg_authenticate,
}
use open_smtpd.Smtp.Invariant.Defs.{
  Allowed, Closed, HasTx, Pending, Turn, Situation, over, ready, awaits, pauses, secures, filters,
  Inv, has_asked, is_paused, Good, replied-Done, xset-Good, Shape-at, Allowed-none, if-Good,
}
use open_smtpd.Smtp.Invariant.Commands.{Allocates}
use open_smtpd.Smtp.Invariant.Lines.{filter_phase-Good}
use open_smtpd.Smtp.Invariant.Answers.{answered, pop-Good, on_tx, fail_session-Good}

-- A transaction with room for a recipient.
abbrev WithRoom : Env → SmtpTx → Type 0
WithRoom e tx = (tx.ofile ≡ false) × (tx.filter ≡ false) × (tx.rcptcount < e.sc_session_max_rcpt)

-- The id of an envelope, or a failure: the session goes on waiting.
pub envelope_submit-Good :
    (evpid : Option ℕ) (e : Env) (s : Session)
    → Inv e s
    → waits_in wait_lka_rcpt s.waits ≡ true
    → Good e (imsg_envelope_submit evpid s)
unfolding imsg_envelope_submit tree_xget
envelope_submit-Good evpid e s i h =
    let (z, t, p) = answered wait_lka_rcpt e s i h in rw h (by_tx s z t p s.tx refl evpid)
  where
    by_tx :
        (s : Session)
        → s.waits ≡ wait_lka_rcpt ∷ []
        → Turn e (record s { waits = [] })
        → Pending wait_lka_rcpt e s
        → (o : Option SmtpTx) → s.tx ≡ o
        → (evpid : Option ℕ) → Good e (envelope_submitted evpid s o)
    by_tx s z t (st, c) none eq evpid = absurd (subst (HasTx (WithRoom e)) eq c)
    by_tx s z ((w, p, hs, f, m, a), r, q) (st, c) (some tx) eq (some evpid) =
        unfold envelope_submitted set_tx in
        record {
          bound = m;
          allowed = subst (Allowed e s) eq a;
          handled =
              has_asked wait_lka_rcpt (z, p, hs, f) (r, q) (st, subst (HasTx (WithRoom e)) eq c);
        }
    by_tx s z ((w, p, hs, f, m, a), r, q) (st, c) (some tx) eq none =
        unfold envelope_submitted set_tx in
        record {
          bound = m;
          allowed = subst (Allowed e s) eq a;
          handled =
              has_asked wait_lka_rcpt (z, p, hs, f) (r, q) (st, subst (HasTx (WithRoom e)) eq c);
        }

-- The recipient joins the others, unless an envelope has failed.
pub envelope_commit-Good :
    (e : Env) (s : Session)
    → Inv e s
    → waits_in wait_lka_rcpt s.waits ≡ true
    → Good e (imsg_envelope_commit true s)
unfolding imsg_envelope_commit
envelope_commit-Good e s i h =
    pop-Good wait_lka_rcpt e s (λ s'. envelopes_committed s' s'.tx) i h
      (λ t p.
        on_tx (WithRoom e) e (record s { waits = [] }) envelopes_committed t p.1
          (λ tx c t'. joined (record s { waits = [] }) tx t' p.0 c))
  where
    joined :
        (s : Session) (tx : SmtpTx)
        → Turn e (record s { tx = some tx })
        → s.state ≡ state_helo
        → WithRoom e tx
        → Good e (envelopes_committed (record s { tx = some tx }) (some tx))
    joined s tx ((w, p, hs, f, m, (he, se, au, lt, n, k)), r, q) st (o, fi, room) =
        unfold envelopes_committed add_rcpt set_tx smtp_reply in
        if-Good e (is_ok tx.content.error) _ _
          (λ c.
            replied-Done
              (
                w,
                p,
                hs,
                f,
                m,
                (
                  he,
                  se,
                  au,
                  lt,
                  omega arith,
                  omega (arith, k, length-append {0} tx.rcpts (_ ∷ [])),
                ),
              )
              r refl (Shape-at state_helo _ st (o, fi)))
          (λ c.
            fail_session-Good e (record s { tx = some tx })
              ((w, p, hs, f, m, (he, se, au, lt, n, k)), r, q))

-- The message's file, and the filter's pipe: the session begins to read the message.
begin-Good :
    (e : Env) (s : Session) (tx : SmtpTx)
    → Turn e (record s { tx = some tx })
    → tx.ofile ≡ true
    → Good e (some (smtp_message_begin e (record s { tx = some tx }) tx))
unfolding smtp_message_begin smtp_reply set_tx smtp_enter_state
begin-Good e s tx (rest, r, q) o = replied-Done rest r refl o

pub message_open-Good :
    (success : Bool) (e : Env) (s : Session)
    → Inv e s
    → waits_in wait_queue_fd s.waits ≡ true
    → Good e (imsg_message_open e success s)
unfolding imsg_message_open
message_open-Good success e s i h =
    pop-Good wait_queue_fd e s (λ s'. message_opened e success s' s'.tx) i h
      (λ t p.
        on_tx (λ tx. (tx.ofile ≡ false) × (tx.filter ≡ false)) e (record s { waits = [] })
          (message_opened e success) t p.1
          (λ tx c t'. opened (record s { waits = [] }) success tx t' p.0))
  where
    piped :
        (s : Session) (tx : SmtpTx)
        → Turn e (record s { tx = some tx })
        → s.state ≡ state_helo
        → e.f_filtered ≡ true
        → Good e (smtp_filter_data_begin e (record s { tx = some (record tx { ofile = true }) }))
    piped s tx t st d =
        unfold smtp_filter_data_begin send in
        if-Good e e.f_filtered _ _ (λ d'. xset-Good e wait_filter_fd _ t (st, refl)) (λ d'. cc)

    opened :
        (s : Session) (success : Bool) (tx : SmtpTx)
        → Turn e (record s { tx = some tx })
        → s.state ≡ state_helo
        → Good e (message_opened e success (record s { tx = some tx }) (some tx))
    opened s false tx t st =
        unfold message_opened in fail_session-Good e (record s { tx = some tx }) t
    opened s true tx (rest, r, q) st =
        unfold message_opened smtp_message_fd in
        elim (Bool-cases (e.fdopen (record s { tx = some tx }))) [
          | inr c ↦
              rw c (unfold begin_data smtp_reply smtp_enter_state in replied-Done rest r refl r)
          | inl c ↦ rw c (
              unfold begin_data set_tx in
              if-Good e e.f_filtered _ _ (λ d. piped s tx (rest, r, q) st d)
                (λ d. begin-Good e s (record tx { ofile = true }) (rest, r, q) refl))
        ]

pub filter_data-Good :
    (success : Bool) (e : Env) (s : Session)
    → Inv e s
    → waits_in wait_filter_fd s.waits ≡ true
    → Good e (imsg_filter_data_begin e success s)
unfolding imsg_filter_data_begin
filter_data-Good success e s i h =
    pop-Good wait_filter_fd e s (λ s'. filter_opened e success s' s'.tx) i h
      (λ t p.
        on_tx (λ tx. tx.ofile ≡ true) e (record s { waits = [] }) (filter_opened e success) t p.1
          (λ tx c t'. opened (record s { waits = [] }) success tx t' c))
  where
    opened :
        (s : Session) (success : Bool) (tx : SmtpTx)
        → Turn e (record s { tx = some tx })
        → tx.ofile ≡ true
        → Good e (filter_opened e success (record s { tx = some tx }) (some tx))
    opened s false tx t o =
        unfold filter_opened in fail_session-Good e (record s { tx = some tx }) t
    opened s true tx t o =
        unfold filter_opened smtp_filter_fd set_tx in
        begin-Good e s (record tx { filter = true }) t o

-- The message is in the queue, or it is lost.
pub message_commit-Good :
    (success : Bool) (e : Env) (s : Session)
    → Inv e s
    → waits_in wait_queue_commit s.waits ≡ true
    → Good e (imsg_message_commit success s)
unfolding imsg_message_commit
message_commit-Good success e s i h =
    pop-Good wait_queue_commit e s (λ s'. message_committed success s') i h
      (λ t p.
        on_tx (λ tx. Unit {0}) e (record s { waits = [] }) (λ s' o. message_committed success s') t
          p (λ tx c t'. committed (record s { waits = [] }) success tx t'))
  where
    committed :
        (s : Session) (success : Bool) (tx : SmtpTx)
        → Turn e (record s { tx = some tx })
        → Good e (message_committed success (record s { tx = some tx }))
    committed s false tx ((w, p, hs, f, m, a), r, q) =
        unfold message_committed smtp_reply smtp_tx_free drop_tx smtp_enter_state in
        replied-Done (w, p, hs, f, m, tt) r refl r
    committed s true tx ((w, p, hs, f, m, (he, se, au, lt, n, k)), r, q) =
        unfold message_committed smtp_reply smtp_tx_free drop_tx smtp_enter_state in
        replied-Done (w, p, hs, f, omega arith, tt) r refl tt

-- The password was checked.
pub authenticate-Good :
    (result : LkaStatus) (e : Env) (s : Session)
    → Inv e s
    → waits_in wait_parent_auth s.waits ≡ true
    → Good e (imsg_authenticate result s)
unfolding imsg_authenticate
authenticate-Good result e s i h =
    pop-Good wait_parent_auth e s (λ s'. some (authenticated_as result s')) i h
      (λ t p. decided (record s { waits = [] }) result t p.1)
  where
    decided :
        (s : Session) (result : LkaStatus)
        → Turn e s
        → s.tx ≡ none
        → Good e (some (authenticated_as result s))
    decided s lka_ok ((w, p, hs, f, m, a), r, q) n =
        unfold authenticated_as smtp_reply smtp_enter_state in
        replied-Done (w, p, hs, f, m, Allowed-none e (record s { authenticated = true }) n) r refl
          (subst Closed (sym n) tt)
    decided s lka_tempfail (rest, r, q) n =
        unfold authenticated_as smtp_reply smtp_enter_state in
        replied-Done rest r refl (subst Closed (sym n) tt)
    decided s lka_permfail ((w, p, hs, f, m, a), r, q) n =
        unfold authenticated_as smtp_auth_failure_pause in
        record { bound = m; allowed = a; handled = is_paused (w, refl, hs, f) (r, q) n }

-- The end of the pause after a wrong password.
pub resume-Good :
    (e : Env) (s : Session) → Inv e s → s.paused ≡ true → Good e (some (smtp_auth_failure_resume s))
unfolding smtp_auth_failure_resume smtp_reply smtp_enter_state
resume-Good e s i h = by_situation i.situation
  where
    by_situation : Situation e s → Good e (some (smtp_auth_failure_resume s))
    by_situation (over (z, p, f) r n) = cc
    by_situation (ready (z, p, hs, f) q sh) = cc
    by_situation (awaits v (z, p, hs, f) q pe) = cc
    by_situation (secures (z, p, hs, f) q n) = cc
    by_situation (filters (z, p, hs, f) q st fi) = cc
    by_situation (pauses (z, p, hs, f) (r, q) n) =
        replied-Done (z, refl, hs, f, i.bound, i.allowed) r refl (subst Closed (sym n) tt)

-- The session gets on with the client, whose name is known, or not.
pub connected-Good :
    (e : Env) (s : Session)
    → Allocates e
    → Turn e s
    → s.tx ≡ none
    → s.helo ≡ []
    → Good e (smtp_connected e s)
unfolding smtp_connected smtp_filter_begin smtp_enter_state send
connected-Good e s al t n he = begun e.f_filtered
  where
    begun :
        (b : Bool)
        → Good e (
            smtp_filter_phase filter_connect e
              (if b
                then record s { state = state_connected; sent = filter_begin ∷ s.sent }
                else record s { state = state_connected })
              (some e.peer))
    begun true =
        filter_phase-Good filter_connect e
          (record s { state = state_connected; sent = filter_begin ∷ s.sent }) (some e.peer) al t
          (refl, n, he)
    begun false =
        filter_phase-Good filter_connect e (record s { state = state_connected }) (some e.peer) al t
          (refl, n, he)

pub lookup_helo-Good :
    (helo : Option Text) (e : Env) (s : Session)
    → Allocates e
    → Inv e s
    → waits_in wait_lka_helo s.waits ≡ true
    → Good e (imsg_lookup_helo e helo s)
unfolding imsg_lookup_helo
lookup_helo-Good none e s al i h =
    pop-Good wait_lka_helo e s (smtp_connected e) i h
      (λ t p. connected-Good e (record s { waits = [] }) al t p.0 p.1)
lookup_helo-Good (some name) e s al i h =
    pop-Good wait_lka_helo e s
      (λ s'. smtp_connected e (record s' { smtpname = strlcpy (e.host_name_max + 1) name })) i h
      (λ t p.
        connected-Good e (record s { waits = []; smtpname = strlcpy (e.host_name_max + 1) name }) al
          t p.0 p.1)
