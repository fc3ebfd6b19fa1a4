-- ===== src/Ramqueue/Placement/Return.antt =====
-- usr.sbin/smtpd/scheduler_ramqueue.c: scheduler_ram_update(), by which an envelope in flight comes
-- back.
use open_smtpd.Base.{ℕ, ◌≡◌, ◌<◌, refl, ◌∙◌, ◌⊎◌, inl, inr, some, true, false, arith, Bool-cases}
use open_smtpd.Ramqueue.Types.{
  pending, scheduled, inflight, RqEnvelope, q_inflight, q_removed, Ram, SchedulerInfo,
}
use open_smtpd.Ramqueue.Backoff.{backoff_base, backoff_base_pos, scheduler_next-Next}
use open_smtpd.Ramqueue.Queue.{find_envelope, set_list, rq_envelope_list}
use open_smtpd.Ramqueue.Envelope.{with_queue, write, enter_list}
use open_smtpd.Ramqueue.Flight.{take_inflight, scheduler_ram_update}
use open_smtpd.Ramqueue.Placement.{on_list, held_list, IsTidy, Placed}
use open_smtpd.Ramqueue.Placement.Enter.{requeue-Placed}
use open_smtpd.Ramqueue.Placement.Leave.{Left, unlink-Left}
use open_smtpd.Ramqueue.Placement.Handlers.{
  find-written, find-enter_list, enter_list-Placed, write_rest-Placed,
}

-- The clock has no part in where the envelopes belong.
pub clock-Placed : (now : ℕ) (r : Ram) → Placed r → Placed (record r { currtime = now })
unfolding held_list
clock-Placed now r p = record {
  on_lists = p.on_lists;
  in_holdqs = p.in_holdqs;
  agree = p.agree;
  tidy = p.tidy;
  order = p.order;
  counted = p.counted;
}

pub take_inflight-Left :
    (now x : ℕ) (r : Ram) (e : RqEnvelope)
    → Placed r
    → find_envelope r.ramqueue x ≡ some e
    → e.state ≡ inflight
    → (r1 : Ram) × (take_inflight now x r ≡ some (r1, e)) × Left x (record r { currtime = now }) r1
unfolding take_inflight on_list rq_envelope_list
take_inflight-Left now x r e p f fly =
    let r0 : Ram = record r { currtime = now } in
    let (xs, s, k) = unlink-Left x r0 e q_inflight (clock-Placed now r p) f (ground arith) in
    (with_queue r0 (set_list q_inflight xs r.ramqueue), ground (arith, s, f, p.tidy x e f), k)

-- What becomes of an envelope that comes back: one that was removed waits on `q_removed`, and any
-- other is pending, for a time that has not come.
abbrev pub Settled : ℕ → SchedulerInfo → RqEnvelope → SchedulerInfo → RqEnvelope → Type 0
Settled now si e si' e' =
    ((e.removed ≡ true) × (on_list e' q_removed ≡ true) × (si' ≡ si))
    ⊎ ((e.removed ≡ false) × (e'.state ≡ pending) × (now < e'.sched) × (si'.nexttry ≡ e'.sched))

abbrev Returns : ℕ → SchedulerInfo → Ram → RqEnvelope → Type 0
Returns now si r e =
    (r' : Ram) × (si' : SchedulerInfo) × (e' : RqEnvelope) × (scheduler_ram_update now si r
      ≡ some (r', si'))
    × (find_envelope r'.ramqueue si.evpid ≡ some e')
    × Settled now si e si' e'
    × Placed r'

return_removed :
    (now : ℕ) (si : SchedulerInfo) (r : Ram) (e : RqEnvelope)
    → Placed r
    → find_envelope r.ramqueue si.evpid ≡ some e
    → e.state ≡ inflight
    → e.removed ≡ true
    → e.suspend ≡ false
    → Returns now si r e
unfolding scheduler_ram_update on_list rq_envelope_list enter_list
return_removed now si r e p f fly gone awake =
    let x = si.evpid in
    let (r1, took, k) = take_inflight-Left now x r e p f fly in
    let e' = record e { state = scheduled; t_scheduled = now } in
    let t = p.tidy x e f in
    let on : on_list e' q_removed ≡ true = ground (arith, t) in
    (
      enter_list q_removed e' r1,
      si,
      e',
      ground (arith, took),
      find-enter_list x r1 e e' q_removed t.key (k.same x ∙ f),
      inl (gone, on, refl),
      enter_list-Placed x _ r1 e e' q_removed k f (ground (arith, t)) on refl,
    )

return_pending :
    (now : ℕ) (si : SchedulerInfo) (r : Ram) (e : RqEnvelope)
    → Placed r
    → find_envelope r.ramqueue si.evpid ≡ some e
    → e.state ≡ inflight
    → e.removed ≡ false
    → Returns now si r e
unfolding scheduler_ram_update on_list rq_envelope_list
return_pending now si r e p f fly kept =
    let x = si.evpid in
    let (r1, took, k) = take_inflight-Left now x r e p f fly in
    let (sched, found, next) =
      scheduler_next-Next now e.ctime (backoff_base si.type) si.retry (backoff_base_pos si.type) in
    let e' = record e { sched = sched; state = pending } in
    let si' = record si { nexttry = sched } in
    let t = p.tidy x e f in
    let t' : IsTidy x e' = ground (arith, t) in
    let settled : Settled now si e si' e' = inr (kept, refl, next.later, refl) in
    elim (Bool-cases e.suspend) [
      | inl asleep ↦ (
        write e' r1,
        si',
        e',
        ground (arith, took, found),
        find-written x r1 e e' (k.same x ∙ f) t.key,
        settled,
        write_rest-Placed x _ r1 e e' k f t' (λ l. ground arith) refl,
      )
      | inr awake ↦
          let (r2, s, g, q) = requeue-Placed x r1 e' e k.missing (k.same x ∙ f) t' (refl, awake) in
          (r2, si', e', ground (arith, took, found, s), g, settled, q)
    ]

-- Where every envelope is linked where it belongs: scheduler_ram_update() does not fault for an
-- envelope in flight that is not both removed and suspended. The envelope waits on `q_removed` then
-- if it was removed, and otherwise it is pending, for a time that has not come, which is the result
-- in `nexttry` too. Every envelope is linked where it belongs again.
pub update-Placed :
    (now : ℕ) (si : SchedulerInfo) (r : Ram) (e : RqEnvelope)
    → Placed r
    → find_envelope r.ramqueue si.evpid ≡ some e
    → e.state ≡ inflight
    → (e.removed ≡ false) ⊎ (e.suspend ≡ false)
    → (r' : Ram) × (si' : SchedulerInfo) × (e' : RqEnvelope) × (scheduler_ram_update now si r
        ≡ some (r', si'))
      × (find_envelope r'.ramqueue si.evpid ≡ some e')
      × Settled now si e si' e'
      × Placed r'
update-Placed now si r e p f fly ok = elim (Bool-cases e.removed) [
  | inl gone ↦ return_removed now si r e p f fly gone (ground arith)
  | inr kept ↦ return_pending now si r e p f fly kept
]
