-- ===== src/Smtp/Invariant/Answers.antt =====
-- The answers of the queue and of the lookup process keep the invariant: smtp_session_imsg() of
-- usr.sbin/smtpd/smtp_session.c.
use open_smtpd.Base.{
  ℕ, ◌<◌, ◌≡◌, refl, sym, ap, subst, ◌∙◌, ◌≢◌, true, false, Option, none, some, [], ◌∷◌, arith,
  ◌==◌, ◌>>=◌, length, if◌then◌else◌,
}
use open_smtpd.Smtp.Text.{Text}
use open_smtpd.Smtp.Types.{
  state_helo, LkaStatus, lka_ok, lka_tempfail, lka_permfail, SmtpTx, Wait, wait_lka_helo,
  wait_lka_mail, wait_lka_rcpt, wait_parent_auth, wait_queue_msg, wait_queue_fd, wait_queue_commit,
  wait_filters, wait_filter_fd, Reply, status, Session, Env,
}
use open_smtpd.Smtp.Session.{
  smtp_enter_state, smtp_reply, tree_id, waits_in, tree_xpop, set_tx, drop_tx, smtp_tx_free,
}
use open_smtpd.Smtp.Check.{is_some}
use open_smtpd.Smtp.Imsg.{
  fail_session, sender_checked, imsg_check_sender, rcpt_failed, imsg_expand_rcpt, message_created,
  imsg_message_create,
}
use open_smtpd.Smtp.Invariant.Defs.{
  HasTx, Pending, Turn, Situation, over, ready, awaits, pauses, secures, filters, Inv, Good,
  replied-Done, xpop-turn, with_tx, Shape-at,
}
use open_smtpd.Smtp.Invariant.Transaction.{Opened, create_message-Good, replied-Good}
use open_smtpd.Smtp.Invariant.Lines.{Asked-move}

-- What the trees hold does not matter to what is pending.
Pending-pop :
    (w : Wait) (e : Env) (s : Session) → Pending w e s → Pending w e (record s { waits = [] })
Pending-pop wait_lka_helo e s a = a
Pending-pop wait_lka_mail e s a = a
Pending-pop wait_lka_rcpt e s a = a
Pending-pop wait_parent_auth e s a = a
Pending-pop wait_queue_msg e s a = a
Pending-pop wait_queue_fd e s a = a
Pending-pop wait_queue_commit e s a = a
Pending-pop wait_filter_fd e s a = a
Pending-pop wait_filters e s a =
    Asked-move s.filter_phase (is_some s.filter_param) e s [] s.sent s.filter_phase s.filter_param a

wait_of : ℕ → Option Wait
wait_of n =
    if n == 0
    then some wait_lka_helo
    else if n == 1
    then some wait_lka_mail
    else if n == 2
    then some wait_lka_rcpt
    else if n == 3
    then some wait_parent_auth
    else if n == 4
    then some wait_queue_msg
    else if n == 5
    then some wait_queue_fd
    else if n == 6
    then some wait_queue_commit
    else if n == 7
    then some wait_filters
    else some wait_filter_fd

wait_of-tree_id : (w : Wait) → wait_of (tree_id w) ≡ some w
unfolding wait_of
wait_of-tree_id wait_lka_helo = refl
wait_of-tree_id wait_lka_mail = refl
wait_of-tree_id wait_lka_rcpt = refl
wait_of-tree_id wait_parent_auth = refl
wait_of-tree_id wait_queue_msg = refl
wait_of-tree_id wait_queue_fd = refl
wait_of-tree_id wait_queue_commit = refl
wait_of-tree_id wait_filters = refl
wait_of-tree_id wait_filter_fd = refl

-- A session that waits is in one tree.
only_wait : (v w : Wait) → waits_in w (v ∷ []) ≡ true → v ≡ w
unfolding waits_in
only_wait v w h = cc (wait_of-tree_id v, wait_of-tree_id w, ap wait_of (same_id v w h))
  where
    same_id : (v w : Wait) → waits_in w (v ∷ []) ≡ true → tree_id v ≡ tree_id w
    same_id v w h = ground arith

-- What a session is that waits for an answer, when the answer comes.
abbrev pub Answered : Wait → Env → Session → Type 0
Answered w e s = (s.waits ≡ w ∷ []) × Turn e (record s { waits = [] }) × Pending w e s

pub answered :
    (w : Wait) (e : Env) (s : Session) → Inv e s → waits_in w s.waits ≡ true → Answered w e s
answered w e s i h = by_situation i.situation
  where
    nowhere : s.waits ≡ [] → ⊥
    nowhere z = unfold waits_in in cc (ap (waits_in w) z)

    by_situation : Situation e s → Answered w e s
    by_situation (over (z, p, f) r n) = absurd (nowhere z)
    by_situation (ready (z, p, hs, f) q sh) = absurd (nowhere z)
    by_situation (pauses (z, p, hs, f) q n) = absurd (nowhere z)
    by_situation (secures (z, p, hs, f) q n) = absurd (nowhere z)
    by_situation (filters (z, p, hs, f) q st fi) = absurd (nowhere z)
    by_situation (awaits v (z, p, hs, f) (r, q) pe) =
        let same : v ≡ w = only_wait v w (subst (λ x. waits_in w x ≡ true) z h) in
        (
          z ∙ ap (λ x. x ∷ []) same,
          ((refl, p, hs, f, i.bound, i.allowed), r, q),
          subst (λ x. Pending x e s) same pe,
        )

-- An answer takes the session out of its tree first.
pub pop-Good :
    (w : Wait) (e : Env) (s : Session) (f : Session → Option Session)
    → Inv e s
    → waits_in w s.waits ≡ true
    → (Turn e (record s { waits = [] })
        → Pending w e (record s { waits = [] })
        → Good e (f (record s { waits = [] })))
    → Good e (do s' ← tree_xpop w s; f s')
pop-Good w e s f i h go =
    let (z, t, p) = answered w e s i h in rw (xpop-turn w s z) (go t (Pending-pop w e s p))

-- The transaction that is there.
pub on_tx :
    (P : SmtpTx → Type 0) (e : Env) (s : Session) (f : Session → Option SmtpTx → Option Session)
    → Turn e s
    → HasTx P s.tx
    → ((tx : SmtpTx)
        → P tx
        → Turn e (record s { tx = some tx })
        → Good e (f (record s { tx = some tx }) (some tx)))
    → Good e (f s s.tx)
on_tx P e s f t h go = by_tx s.tx h refl
  where
    by_tx : (o : Option SmtpTx) → HasTx P o → s.tx ≡ o → Good e (f s o)
    by_tx none h eq = absurd h
    by_tx (some tx) h eq = with_tx (λ s'. Turn e s' → Good e (f s' (some tx))) s tx eq (go tx h) t

-- A session without its transaction, and with a reply, reads commands.
freed-Good :
    (e : Env) (s : Session) (r : Reply)
    → Turn e s
    → s.state ≡ state_helo
    → Good e (some (smtp_reply r (record s { tx = none })))
unfolding smtp_reply
freed-Good e s r ((w, p, h, f, m, a), re, q) st =
    replied-Done (w, p, h, f, m, tt) re refl (Shape-at state_helo _ st tt)

pub fail_session-Good : (e : Env) (s : Session) → Turn e s → Good e (some (fail_session s))
unfolding fail_session smtp_reply smtp_enter_state
fail_session-Good e s (rest, r, q) = replied-Done rest r refl r

pub check_sender-Good :
    (result : LkaStatus) (e : Env) (s : Session)
    → Inv e s
    → waits_in wait_lka_mail s.waits ≡ true
    → Good e (imsg_check_sender result s)
unfolding imsg_check_sender
check_sender-Good result e s i h =
    pop-Good wait_lka_mail e s (λ s'. sender_checked result s' s'.tx) i h
      (λ t p.
        on_tx (λ tx. (tx.ofile ≡ false) × (tx.filter ≡ false) × (tx.rcpts ≡ [])) e
          (record s { waits = [] }) (sender_checked result) t p.1
          (λ tx c t'. by_result (record s { waits = [] }) result tx t' p.0 c))
  where
    by_result :
        (s : Session) (result : LkaStatus) (tx : SmtpTx)
        → Turn e (record s { tx = some tx })
        → s.state ≡ state_helo
        → (tx.ofile ≡ false) × (tx.filter ≡ false) × (tx.rcpts ≡ [])
        → Good e (sender_checked result (record s { tx = some tx }) (some tx))
    by_result s lka_ok tx t st (o, f, rc) =
        unfold sender_checked in create_message-Good e s tx (t, st, o, f) rc
    by_result s lka_permfail tx t st c =
        unfold sender_checked smtp_tx_free drop_tx in
        freed-Good e (record s { tx = some tx }) (status 530) t st
    by_result s lka_tempfail tx t st c =
        unfold sender_checked smtp_tx_free drop_tx in
        freed-Good e (record s { tx = some tx }) (status 421) t st

-- A refused recipient: the answer is LKA_PERMFAIL or LKA_TEMPFAIL.
pub expand_rcpt-Good :
    (result : LkaStatus) (line : Text) (e : Env) (s : Session)
    → result ≢ lka_ok
    → Inv e s
    → waits_in wait_lka_rcpt s.waits ≡ true
    → Good e (imsg_expand_rcpt result line s)
unfolding imsg_expand_rcpt
expand_rcpt-Good result line e s ne i h =
    pop-Good wait_lka_rcpt e s (λ s'. rcpt_failed result line s' s'.tx) i h
      (λ t p.
        on_tx
          (λ tx. (tx.ofile ≡ false) × (tx.filter ≡ false) × (tx.rcptcount < e.sc_session_max_rcpt))
          e (record s { waits = [] }) (rcpt_failed result line) t p.1
          (λ tx c t'. by_result (record s { waits = [] }) result ne tx (t', p.0, c.0, c.1)))
  where
    by_result :
        (s : Session) (result : LkaStatus)
        → result ≢ lka_ok
        → (tx : SmtpTx) → Opened e s tx
        → Good e (rcpt_failed result line (record s { tx = some tx }) (some tx))
    by_result s lka_ok ne tx o = absurd (ne refl)
    by_result s lka_permfail ne tx o = unfold rcpt_failed in replied-Good e s tx _ o
    by_result s lka_tempfail ne tx o = unfold rcpt_failed in replied-Good e s tx _ o

-- The id of a message, or a failure that ends the session.
pub message_create-Good :
    (msgid : Option ℕ) (e : Env) (s : Session)
    → Inv e s
    → waits_in wait_queue_msg s.waits ≡ true
    → Good e (imsg_message_create msgid s)
unfolding imsg_message_create
message_create-Good msgid e s i h =
    pop-Good wait_queue_msg e s (λ s'. message_created msgid s' s'.tx) i h
      (λ t p.
        on_tx (λ tx. (tx.ofile ≡ false) × (tx.filter ≡ false) × (tx.rcpts ≡ [])) e
          (record s { waits = [] }) (message_created msgid) t p.1
          (λ tx c t'. by_id (record s { waits = [] }) msgid tx t' p.0 c))
  where
    by_id :
        (s : Session) (msgid : Option ℕ) (tx : SmtpTx)
        → Turn e (record s { tx = some tx })
        → s.state ≡ state_helo
        → (tx.ofile ≡ false) × (tx.filter ≡ false) × (tx.rcpts ≡ [])
        → Good e (message_created msgid (record s { tx = some tx }) (some tx))
    by_id s (some msgid) tx ((w, p, h, f, m, (he, se, au, lt, n, k)), r, q) st (o, fi, rc) =
        unfold message_created smtp_reply set_tx in
        replied-Done (w, p, h, f, m, (he, se, au, lt, omega arith, sym (ap length rc))) r refl
          (Shape-at state_helo _ st (o, fi))
    by_id s none tx ((w, p, h, f, m, a), r, q) st c =
        unfold message_created smtp_reply smtp_tx_free drop_tx smtp_enter_state in
        replied-Done (w, p, h, f, m, tt) r refl r
