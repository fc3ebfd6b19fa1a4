-- ===== src/Ramqueue/Batch.antt =====
-- usr.sbin/smtpd/scheduler_ramqueue.c: scheduler_ram_batch(), which hands out the envelopes that
-- are to be worked on, up to `count` of them, or the delay until the next one is due.
use open_smtpd.Base.{
  ℕ, zero, suc, ◌-◌, Bool, false, Option, none, some, List, [], ◌∷◌, ◌++◌, ltb, ◌==◌, if◌then◌else◌,
  ◌>>=◌, map_some, length,
}
use open_smtpd.Ramqueue.Types.{
  pending, inflight, RqEnvelope, EvpList, q_pending, q_inflight, q_mta, q_mda, q_bounce, q_update,
  q_expired, q_removed, Ram,
}
use open_smtpd.Ramqueue.Backoff.{scheduler_next, backoff_base, backoff_overflow}
use open_smtpd.Ramqueue.Queue.{find_envelope, unlink, link, rq_envelope_delete}
use open_smtpd.Ramqueue.Envelope.{with_queue, write}
use open_smtpd.Ramqueue.Pending.{rq_queue_schedule}
use open_smtpd.Ramqueue.Flight.{requeue}

-- SCHED_*.
pub data SchedType : Type 0 where
  sched_remove sched_expire sched_update sched_bounce sched_mda sched_mta : SchedType

-- The state of the loop: the first `i` entries of `types` and `evpids`.
pub record Batch : Type 0 where
  pub ram : Ram
  pub taken : List (SchedType × ℕ)

-- What is done to an envelope that SCHED_REMOVE or SCHED_EXPIRE takes.
unfoldable pub drop_envelope : Ram → RqEnvelope → Option Ram
drop_envelope r evp = map_some (with_queue r) (rq_envelope_delete r.ramqueue evp)

-- SCHED_UPDATE: the envelope goes back to the pending list, with a new time.
unfoldable pub refresh_envelope : Ram → RqEnvelope → Option Ram
refresh_envelope r evp =
    let base = if evp.overflow then backoff_overflow else backoff_base evp.type in
    scheduler_next r.currtime evp.ctime base 0 >>= λ sched.
    let evp' = record evp { sched = sched; update = false; overflow = false; state = pending } in
    if evp.suspend then some (write evp' r) else requeue evp' r

-- SCHED_BOUNCE, SCHED_MDA and SCHED_MTA.
unfoldable pub launch_envelope : Ram → RqEnvelope → Option Ram
launch_envelope r evp = some (
    write (record evp { state = inflight; t_inflight = r.currtime })
      (with_queue r (link q_inflight evp.evpid r.ramqueue)))

-- The list of each type, and what is done to the envelopes that are taken off it.
unfoldable pub source_list : SchedType → EvpList
source_list sched_remove = q_removed
source_list sched_expire = q_expired
source_list sched_update = q_update
source_list sched_bounce = q_bounce
source_list sched_mda = q_mda
source_list sched_mta = q_mta

unfoldable pub treat : SchedType → Ram → RqEnvelope → Option Ram
treat sched_remove = drop_envelope
treat sched_expire = drop_envelope
treat sched_update = refresh_envelope
treat sched_bounce = launch_envelope
treat sched_mda = launch_envelope
treat sched_mta = launch_envelope

-- TAILQ_REMOVE of the first envelope of a list, and its treatment.
unfoldable pub take_envelope : SchedType → ℕ → Ram → Option Ram
take_envelope type id r = find_envelope r.ramqueue id >>= λ evp.
    unlink (source_list type) id r.ramqueue >>= λ rq. treat type (with_queue r rq) evp

-- The `if (mask & …)` for a type.
unfoldable pub batch_stage : (SchedType → Bool) → SchedType → Batch → Option Batch
batch_stage mask type b =
    if mask type
    then elim (b.ram.ramqueue.lists (source_list type)) [
      | [] ↦ some b
      | id ∷ ids ↦
          map_some (λ r. record { ram = r; taken = b.taken ++ (type, id) ∷ [] })
            (take_envelope type id b.ram)
    ]
    else some b

-- After the `break` of an earlier one (`++i == *count`) nothing more is done in the round. `count`
-- is positive: the arrays that are filled have no room otherwise.
unfoldable pub batch_one : (SchedType → Bool) → ℕ → SchedType → Batch → Option Batch
batch_one mask count type b = if length b.taken == count then some b else batch_stage mask type b

-- The six of them, in the source's order.
unfoldable pub batch_round : (SchedType → Bool) → ℕ → Batch → Option Batch
batch_round mask count b = batch_one mask count sched_remove b >>= λ b1.
    batch_one mask count sched_expire b1 >>= λ b2. batch_one mask count sched_update b2 >>= λ b3.
    batch_one mask count sched_bounce b3 >>= λ b4.
    batch_one mask count sched_mda b4 >>= λ b5. batch_one mask count sched_mta b5

-- The loop, on fuel: it ends when the batch is full, or a round has taken nothing.
unfoldable pub batch_loop : ℕ → (SchedType → Bool) → ℕ → Batch → Option Batch
batch_loop zero mask count b = none
batch_loop (suc f) mask count b = batch_round mask count b >>= λ b'.
    let more = batch_loop f mask count b' in
    if length b'.taken == count
    then some b'
    else if length b'.taken == length b.taken
    then some b'
    else more

-- A batch, or the delay until the next envelope is due (`none` is -1).
pub data BatchResult : Type 0 where
  batch : List (SchedType × ℕ) → BatchResult
  wait : Option ℕ → BatchResult

unfoldable pub batch_delay : Ram → Option (Option ℕ)
batch_delay r = elim (r.ramqueue.lists q_pending) [
  | [] ↦ some none
  | id ∷ ids ↦
      map_some
        (λ evp.
          let t = if ltb evp.sched evp.expire then evp.sched else evp.expire in
          some (if ltb t r.currtime then 0 else t - r.currtime))
        (find_envelope r.ramqueue id)
]

-- A round that goes on takes an envelope, so `count` + 1 rounds are enough.
unfoldable pub scheduler_ram_batch : ℕ → (SchedType → Bool) → ℕ → Ram → Option (Ram × BatchResult)
scheduler_ram_batch now mask count r = rq_queue_schedule (record r { currtime = now }) >>= λ r1.
    batch_loop (suc count) mask count (record { ram = r1; taken = [] }) >>= λ b. elim b.taken [
      | [] ↦ map_some (λ delay. (b.ram, wait delay)) (batch_delay b.ram)
      | x ∷ xs ↦ some (b.ram, batch b.taken)
    ]
