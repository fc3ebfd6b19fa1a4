-- ===== src/Ramqueue/Pending.antt =====
-- usr.sbin/smtpd/scheduler_ramqueue.c: rq_queue_schedule(), which moves the envelopes that are due
-- from the pending list to the lists that batches are taken from.
use open_smtpd.Base.{
  ℕ, zero, suc, ◌+◌, Bool, true, false, Option, none, some, [], ◌∷◌, ◌&&◌, ltb, leb, ◌==◌,
  if◌then◌else◌, ◌>>=◌, map_some, length,
}
use open_smtpd.Ramqueue.Types.{
  pending, scheduled, inflight, held, EvpState, RqEnvelope, q_pending, q_expired, Ram,
}
use open_smtpd.Ramqueue.Queue.{find_envelope, unlink, link, splay_remove}
use open_smtpd.Ramqueue.Envelope.{with_queue, write, rq_envelope_schedule}

abbrev pub schedulemax : ℕ
schedulemax = 1024

abbrev pub is_pending : EvpState → Bool
is_pending pending = true
is_pending scheduled = false
is_pending inflight = false
is_pending held = false

-- The branch for an envelope whose time is over.
unfoldable pub expire_envelope : Ram → RqEnvelope → Option Ram
expire_envelope r evp =
    map_some
      (λ rq.
        write (record evp { state = scheduled; expired = true; t_scheduled = r.currtime })
          (with_queue r (link q_expired evp.evpid (splay_remove evp.evpid rq))))
      (unlink q_pending evp.evpid r.ramqueue)

-- One round for the first pending envelope: `none` in the second part is `break`, and otherwise
-- the number of envelopes that were scheduled follows.
unfoldable pub schedule_round : Ram → ℕ → RqEnvelope → Option (Ram × Option ℕ)
schedule_round r n evp =
    if ltb r.currtime evp.sched && ltb r.currtime evp.expire
    then some (r, none)
    else if n == schedulemax
    then some (r, none)
    else if is_pending evp.state
    then if leb evp.expire r.currtime
      then map_some (λ r'. (r', some n)) (expire_envelope r evp)
      else map_some (λ r'. (r', some (n + 1))) (rq_envelope_schedule r evp)
    else none

-- The loop, on fuel: a round takes an envelope off the pending list, or ends the loop.
unfoldable pub schedule_loop : ℕ → ℕ → Ram → Option Ram
schedule_loop zero n r = none
schedule_loop (suc f) n r = elim (r.ramqueue.lists q_pending) [
  | [] ↦ some r
  | id ∷ ids ↦ find_envelope r.ramqueue id >>= λ evp. schedule_round r n evp >>= λ (r', more).
      elim more [ none ↦ some r' | some m ↦ schedule_loop f m r' ]
]

unfoldable pub rq_queue_schedule : Ram → Option Ram
rq_queue_schedule r = schedule_loop (suc (length (r.ramqueue.lists q_pending))) 0 r
