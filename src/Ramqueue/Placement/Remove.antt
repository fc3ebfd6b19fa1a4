-- ===== src/Ramqueue/Placement/Remove.antt =====
-- usr.sbin/smtpd/scheduler_ramqueue.c: rq_envelope_remove() and rq_envelope_schedule().
use open_smtpd.Base.{
  ℕ, ◌≡◌, refl, ◌∙◌, ◌⊎◌, inl, inr, some, true, false, ◌||◌, arith, not, Bool-cases,
}
use open_smtpd.Ramqueue.Types.{
  pending, scheduled, inflight, held, RqEnvelope, q_pending, q_removed, Ram, same_list,
}
use open_smtpd.Ramqueue.Queue.{find_envelope, rq_envelope_list}
use open_smtpd.Ramqueue.Envelope.{
  with_queue, write, leave_pending, schedule_list, enter_list, rq_envelope_schedule,
  rq_envelope_remove,
}
use open_smtpd.Ramqueue.Placement.{on_list, Placed}
use open_smtpd.Ramqueue.Placement.Enter.{Awake}
use open_smtpd.Ramqueue.Placement.Leave.{unlink-Left, holdq_remove-Left, taken_off}
use open_smtpd.Ramqueue.Placement.Handlers.{
  Keeps, find-written, find-enter_list, enter_list-Placed, leave_list-Left, awake_list,
  EvpState-cases, mark-Placed,
}

remove_held :
    (x : ℕ) (r : Ram) (e : RqEnvelope)
    → Placed r
    → find_envelope r.ramqueue x ≡ some e
    → e.state ≡ held
    → Keeps x (λ d. d.removed || d.expired) (rq_envelope_remove r e) true
unfolding rq_envelope_remove on_list
remove_held x r e p f h =
    let (r', left, k) = holdq_remove-Left x r e p f h in
    let t = p.tidy x e f in
    let e' = record e { holdq = 0; removed = true; state = scheduled; t_scheduled = r.currtime } in
    (
      enter_list q_removed e' r',
      e',
      ground (arith, left, t),
      find-enter_list x r' e e' q_removed t.key (k.same x ∙ f),
      refl,
      enter_list-Placed x r r' e e' q_removed k f (ground (arith, t)) (ground (arith, t)) refl,
    )

remove_linked :
    (x : ℕ) (r : Ram) (e : RqEnvelope)
    → Placed r
    → find_envelope r.ramqueue x ≡ some e
    → e.suspend ≡ false
    → e.removed ≡ false
    → e.expired ≡ false
    → (e.state ≡ pending) ⊎ (e.state ≡ scheduled)
    → Keeps x (λ d. d.removed || d.expired) (rq_envelope_remove r e) true
unfolding rq_envelope_remove on_list
remove_linked x r e p f awake kept valid s =
    let (l, at, on) = awake_list e awake (ground arith) in
    let (r', left, k) = leave_list-Left x r e l p f at on in
    let t = p.tidy x e f in
    let e' = record e { removed = true; state = scheduled; t_scheduled = r.currtime } in
    (
      enter_list q_removed e' r',
      e',
      ground (arith, left),
      find-enter_list x r' e e' q_removed t.key (k.same x ∙ f),
      refl,
      enter_list-Placed x r r' e e' q_removed k f (ground (arith, t)) (ground arith) refl,
    )

-- Where every envelope is linked where it belongs: rq_envelope_remove() does not fault for an
-- envelope of the queue that is not suspended, or is in flight. It counts the envelope unless it
-- is removed or expired already; the envelope is removed or expired then, and every envelope is
-- linked where it belongs again.
pub remove-Placed :
    (x : ℕ) (r : Ram) (e : RqEnvelope)
    → Placed r
    → find_envelope r.ramqueue x ≡ some e
    → (e.suspend ≡ false) ⊎ (e.state ≡ inflight)
    → Keeps x (λ d. d.removed || d.expired) (rq_envelope_remove r e) (not (e.removed || e.expired))
unfolding rq_envelope_remove on_list
remove-Placed x r e p f ok = elim (Bool-cases (e.removed || e.expired)) [
  | inl over ↦ (r, e, ground arith, f, over, p)
  | inr new ↦
      let out : Keeps x (λ d. d.removed || d.expired) (rq_envelope_remove r e) true =
        elim (EvpState-cases e.state) [
          | inl s ↦ remove_linked x r e p f (ground arith) (ground arith) (ground arith) s
          | inr (inl fly) ↦ (
            write (record e { removed = true }) r,
            record e { removed = true },
            ground arith,
            find-written x r e (record e { removed = true }) f (p.tidy x e f).key,
            refl,
            mark-Placed x r e (record e { removed = true }) p f (ground (arith, p.tidy x e f))
                (λ l. ground arith) (λ t k. refl),
          )
          | inr (inr h) ↦ remove_held x r e p f h
        ] in
      let (r', d, s, g, o, q) = out in (r', d, ground (arith, s), g, o, q)
]

-- The envelope that rq_envelope_schedule() leaves.
abbrev pub as_scheduled : RqEnvelope → ℕ → RqEnvelope
as_scheduled e now = record e { state = scheduled; t_scheduled = now }

pub schedule_on :
    (e : RqEnvelope)
    → e.state ≡ scheduled
    → e.suspend ≡ false
    → e.removed ≡ false
    → e.expired ≡ false
    → (on_list e (schedule_list e) ≡ true) × (same_list (schedule_list e) q_pending ≡ false)
unfolding on_list schedule_list
schedule_on e s a r x = ground arith

-- Where every envelope is linked where it belongs: rq_envelope_schedule() does not fault for an
-- envelope of the queue that is held, or pending and not suspended. The envelope is scheduled
-- then, and every envelope is linked where it belongs again.
pub schedule-Placed :
    (x : ℕ) (r : Ram) (e : RqEnvelope)
    → Placed r
    → find_envelope r.ramqueue x ≡ some e
    → (e.state ≡ held) ⊎ Awake e
    → (r' : Ram) × (e' : RqEnvelope) × (rq_envelope_schedule r e ≡ some r')
      × (find_envelope r'.ramqueue x ≡ some e')
      × (e'.state ≡ scheduled)
      × Placed r'
unfolding rq_envelope_schedule leave_pending schedule_list
schedule-Placed x r e p f (inl h) =
    let (r', left, k) = holdq_remove-Left x r e p f h in
    let e' = record (as_scheduled e r.currtime) { holdq = 0 } in
    let t = p.tidy x e f in
    let on = schedule_on e' refl (ground (arith, t)) (ground (arith, t)) (ground (arith, t)) in
    (
      enter_list (schedule_list e) e' r',
      e',
      ground (arith, left),
      find-enter_list x r' e e' (schedule_list e) t.key (k.same x ∙ f),
      refl,
      enter_list-Placed x r r' e e' (schedule_list e') k f (ground (arith, t)) on.0 on.1,
    )
schedule-Placed x r e p f (inr (s, a)) =
    let (xs, left, k) =
      unlink-Left x r e q_pending p f (unfold on_list rq_envelope_list in ground arith) in
    let e' = as_scheduled e r.currtime in
    let t = p.tidy x e f in
    let on = schedule_on e' refl a (ground (arith, t)) (ground (arith, t)) in
    (
      enter_list (schedule_list e) e' (with_queue r (taken_off q_pending x xs r.ramqueue)),
      e',
      ground (arith, left, t),
      find-enter_list x (with_queue r (taken_off q_pending x xs r.ramqueue)) e e' (schedule_list e)
          t.key (k.same x ∙ f),
      refl,
      enter_list-Placed x r _ e e' (schedule_list e') k f (ground (arith, t)) on.0 on.1,
    )
