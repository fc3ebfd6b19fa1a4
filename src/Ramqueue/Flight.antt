-- ===== src/Ramqueue/Flight.antt =====
-- usr.sbin/smtpd/scheduler_ramqueue.c: what happens to an envelope in flight: it comes back by
-- scheduler_ram_update(), is done with by _delete(), or waits in a holding queue by _hold(), from
-- which _release() takes it. The first argument of a handler is what time(NULL) gives.
use open_smtpd.Base.{
  ℕ, zero, suc, ◌+◌, ◌-◌, Bool, true, false, Option, none, some, [], ◌∷◌, leb, if◌then◌else◌, ◌>>=◌,
  map_some, length, ◌==◌,
}
use open_smtpd.Tree.{Tree, tree_get, tree_xget, tree_xset, tree_xpop, tree_modify}
use open_smtpd.Ramqueue.Types.{
  DeliveryType, pending, scheduled, inflight, held, EvpState, RqEnvelope, RqHoldq, q_inflight,
  q_removed, Ram, SchedulerInfo,
}
use open_smtpd.Ramqueue.Backoff.{scheduler_next, backoff_base}
use open_smtpd.Ramqueue.Queue.{
  find_envelope, unlink, link, sorted_insert, rq_envelope_delete, set_holdqs,
}
use open_smtpd.Ramqueue.Envelope.{with_queue, write}

abbrev pub is_inflight : EvpState → Bool
is_inflight inflight = true
is_inflight pending = false
is_inflight scheduled = false
is_inflight held = false

-- tree_xget() twice, the test that the envelope is in flight, and its TAILQ_REMOVE: the way in of
-- three handlers.
unfoldable pub take_inflight : ℕ → ℕ → Ram → Option (Ram × RqEnvelope)
take_inflight now evpid r = find_envelope r.ramqueue evpid >>= λ evp.
    if is_inflight evp.state
    then map_some (λ rq. (with_queue (record r { currtime = now }) rq, evp))
        (unlink q_inflight evp.evpid r.ramqueue)
    else none

-- `sorted_insert(&ramqueue, evp)` with the envelope's new fields.
unfoldable pub requeue : RqEnvelope → Ram → Option Ram
requeue evp r = map_some (λ rq. write evp (with_queue r rq)) (sorted_insert r.ramqueue evp)

unfoldable pub scheduler_ram_update : ℕ → SchedulerInfo → Ram → Option (Ram × SchedulerInfo)
scheduler_ram_update now si r = take_inflight now si.evpid r >>= λ (r1, evp).
    if evp.removed
    then some (
      write (record evp { state = scheduled; t_scheduled = now })
          (with_queue r1 (link q_removed evp.evpid r1.ramqueue)),
      si,
    )
    else (scheduler_next now evp.ctime (backoff_base si.type) si.retry >>= λ sched.
        let evp' = record evp { sched = sched; state = pending } in
        map_some (λ r2. (r2, record si { nexttry = sched }))
          (if evp.suspend then some (write evp' r1) else requeue evp' r1))

unfoldable pub scheduler_ram_delete : ℕ → ℕ → Ram → Option Ram
scheduler_ram_delete now evpid r = take_inflight now evpid r >>= λ (r1, evp).
    map_some (with_queue r1) (rq_envelope_delete r1.ramqueue evp)

abbrev pub holdq_maxsize : ℕ
holdq_maxsize = 1000

-- The holding queue is made if it is not there.
unfoldable pub open_holdq : Tree RqHoldq → ℕ → Option (Tree RqHoldq)
open_holdq hqs holdq =
    let fresh = tree_xset hqs holdq (record { q = []; count = 0 }) in
    elim (tree_get hqs holdq) [ some hq ↦ some hqs | none ↦ fresh ]

-- The head of the holding queue is the envelope that came last.
unfoldable pub enter_holdq : RqEnvelope → ℕ → Tree RqHoldq → RqHoldq → Ram → Ram
enter_holdq evp holdq hqs hq r =
    write (record evp { state = held; holdq = holdq })
      (set_holdqs evp.type
        (tree_modify hqs holdq (λ _. record { q = evp.evpid ∷ hq.q; count = hq.count + 1 })) r)

unfoldable pub scheduler_ram_hold : ℕ → ℕ → ℕ → Ram → Option (Ram × Bool)
scheduler_ram_hold now evpid holdq r = take_inflight now evpid r >>= λ (r1, evp).
    let overflown = record evp { state = pending; update = true; overflow = true } in
    if evp.suspend
    then some (write (record evp { state = pending }) r1, false)
    else (open_holdq (r1.holdqs evp.type) holdq >>= λ hqs. tree_get hqs holdq >>= λ hq.
        if leb holdq_maxsize hq.count
        then map_some (λ r2. (r2, false)) (requeue overflown (set_holdqs evp.type hqs r1))
        else some (enter_holdq evp holdq hqs hq r1, true))

-- One round of the loop of scheduler_ram_release(): the first envelope of the queue becomes pending.
unfoldable pub release_first : DeliveryType → ℕ → Bool → Ram → Option (Option Ram)
release_first type holdq update r = tree_xget (r.holdqs type) holdq >>= λ hq. elim hq.q [
  | [] ↦ some none
  | id ∷ ids ↦ find_envelope r.ramqueue id >>= λ evp.
      let left =
        set_holdqs type
          (tree_modify (r.holdqs type) holdq (λ _. record { q = ids; count = hq.count - 1 })) r in
      let back = record evp {
        holdq = 0;
        state = pending;
        update = if update then true else evp.update;
      } in
      map_some some (requeue back left)
]

-- The loop with `n` rounds at most, and the number of envelopes that were released.
unfoldable pub release_loop : ℕ → DeliveryType → ℕ → Bool → Ram → Option (Ram × ℕ)
release_loop zero type holdq update r = some (r, 0)
release_loop (suc n) type holdq update r = release_first type holdq update r >>= λ more. elim more [
  | none ↦ some (r, 0)
  | some r1 ↦ map_some (λ (r2, i). (r2, suc i)) (release_loop n type holdq update r1)
]

-- A queue that was emptied is dropped.
unfoldable pub close_holdq : DeliveryType → ℕ → Ram → Option Ram
close_holdq type holdq r = tree_xget (r.holdqs type) holdq >>= λ hq. elim hq.q [
  | [] ↦ map_some (λ (gone, hqs). set_holdqs type hqs r) (tree_xpop (r.holdqs type) holdq)
  | x ∷ xs ↦ some r
]

-- `n` is `none` for -1. With -1 and with 0 the loop has no bound: the queue's length is enough.
unfoldable pub scheduler_ram_release : ℕ → DeliveryType → ℕ → Option ℕ → Ram → Option (Ram × ℕ)
scheduler_ram_release now type holdq n r =
    let r0 = record r { currtime = now } in
    elim (tree_get (r.holdqs type) holdq) [
      | none ↦ some (r0, 0)
      | some hq ↦
          let rounds : ℕ = elim n [
            | none ↦ length hq.q
            | some k ↦ if k == 0 then length hq.q else k
          ] in
          let update : Bool = elim n [ none ↦ true | some k ↦ false ] in
          release_loop rounds type holdq update r0 >>= λ (r1, i).
          map_some (λ r2. (r2, i)) (close_holdq type holdq r1)
    ]
