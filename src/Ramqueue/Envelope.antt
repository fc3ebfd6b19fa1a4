-- ===== src/Ramqueue/Envelope.antt =====
-- usr.sbin/smtpd/scheduler_ramqueue.c: rq_envelope_schedule(), _remove(), _suspend() and _resume().
-- All callers pass the file's own queue, `&ramqueue`. The results 1 and 0 are true and false.
use open_smtpd.Base.{Bool, true, false, Option, some, ◌||◌, if◌then◌else◌, ◌>>=◌, map_some}
use open_smtpd.Ramqueue.Types.{
  d_mda, d_mta, d_bounce, pending, scheduled, inflight, held, RqEnvelope, EvpList, q_pending, q_mta,
  q_mda, q_bounce, q_update, q_removed, RqQueue, Ram, same_list,
}
use open_smtpd.Ramqueue.Queue.{
  store, unlink, link, splay_remove, sorted_insert, rq_envelope_list, holdq_remove,
}

unfoldable pub with_queue : Ram → RqQueue → Ram
with_queue r rq = record r { ramqueue = rq }

-- Writes through the pointer to an envelope of the queue.
unfoldable pub write : RqEnvelope → Ram → Ram
write evp r = with_queue r (store evp r.ramqueue)

-- `TAILQ_REMOVE(evl, …); if (evl == &rq->q_pending) SPLAY_REMOVE(…)`. A NULL list is a fault.
unfoldable pub leave_list : Ram → RqEnvelope → Option Ram
leave_list r evp = rq_envelope_list evp >>= λ evl. unlink evl evp.evpid r.ramqueue >>= λ rq.
    some (with_queue r (if same_list evl q_pending then splay_remove evp.evpid rq else rq))

-- The list that rq_envelope_schedule() chooses.
unfoldable pub schedule_list : RqEnvelope → EvpList
schedule_list evp =
    if evp.update
    then q_update
    else elim evp.type [ d_mta ↦ q_mta | d_mda ↦ q_mda | d_bounce ↦ q_bounce ]

unfoldable pub leave_pending : Ram → RqEnvelope → Option Ram
leave_pending r evp =
    if evp.suspend
    then some r
    else map_some (λ rq. with_queue r (splay_remove evp.evpid rq))
        (unlink q_pending evp.evpid r.ramqueue)

-- `TAILQ_INSERT_TAIL(q, evp, entry)` and the writes to the envelope.
unfoldable pub enter_list : EvpList → RqEnvelope → Ram → Ram
enter_list l evp r = write evp (with_queue r (link l evp.evpid r.ramqueue))

unfoldable pub rq_envelope_schedule : Ram → RqEnvelope → Option Ram
rq_envelope_schedule r evp =
    let unheld = record evp { holdq = 0; state = scheduled; t_scheduled = r.currtime } in
    let rest = record evp { state = scheduled; t_scheduled = r.currtime } in
    let other = map_some (enter_list (schedule_list evp) rest) (leave_pending r evp) in
    elim evp.state [
      | held ↦ map_some (enter_list (schedule_list evp) unheld) (holdq_remove r evp)
      | pending ↦ other
      | scheduled ↦ other
      | inflight ↦ other
    ]

unfoldable pub rq_envelope_remove : Ram → RqEnvelope → Option (Ram × Bool)
rq_envelope_remove r evp =
    let gone = record evp { removed = true; state = scheduled; t_scheduled = r.currtime } in
    let unheld = record gone { holdq = 0 } in
    let left = if evp.suspend then some r else leave_list r evp in
    let other = map_some (λ r'. (enter_list q_removed gone r', true)) left in
    let marked = write (record evp { removed = true }) r in
    let out : Option (Ram × Bool) = elim evp.state [
      | inflight ↦ some (marked, true)
      | held ↦ map_some (λ r'. (enter_list q_removed unheld r', true)) (holdq_remove r evp)
      | pending ↦ other
      | scheduled ↦ other
    ] in
    if evp.removed || evp.expired then some (r, false) else out

unfoldable pub rq_envelope_suspend : Ram → RqEnvelope → Option (Ram × Bool)
rq_envelope_suspend r evp =
    let marked = record evp { suspend = true } in
    let unheld = record marked { holdq = 0; state = pending } in
    let out : Option (Ram × Bool) = elim evp.state [
      | held ↦ map_some (λ r'. (write unheld r', true)) (holdq_remove r evp)
      | inflight ↦ some (write marked r, true)
      | pending ↦ map_some (λ r'. (write marked r', true)) (leave_list r evp)
      | scheduled ↦ map_some (λ r'. (write marked r', true)) (leave_list r evp)
    ] in
    if evp.suspend then some (r, false) else out

-- The list that a resumed envelope goes back to. A NULL list is a fault.
unfoldable pub back_to_list : Ram → RqEnvelope → Option Ram
back_to_list r evp = rq_envelope_list evp >>= λ evl.
    if same_list evl q_pending
    then map_some (with_queue r) (sorted_insert r.ramqueue evp)
    else some (with_queue r (link evl evp.evpid r.ramqueue))

unfoldable pub rq_envelope_resume : Ram → RqEnvelope → Option (Ram × Bool)
rq_envelope_resume r evp =
    let woken = record evp { suspend = false } in
    let back = map_some (λ r'. (write woken r', true)) (back_to_list r evp) in
    let out : Option (Ram × Bool) = elim evp.state [
      | inflight ↦ some (write woken r, true)
      | pending ↦ back
      | scheduled ↦ back
      | held ↦ back
    ] in
    if evp.suspend then out else some (r, false)
