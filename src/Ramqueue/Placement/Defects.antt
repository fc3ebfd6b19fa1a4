-- ===== src/Ramqueue/Placement/Defects.antt =====
-- usr.sbin/smtpd/scheduler_ramqueue.c: sequences of calls after which an envelope is linked twice,
-- or that take an envelope off a list that does not hold it (in C the lists are corrupt then), and a
-- call that loses sight of a removal.
use open_smtpd.Base.{
  ℕ, Bool, Bool-cases, leb, ◌⊎◌, inl, inr, ◌∙◌, ◌≡◌, refl, none, some, true, false, count, List,
  ◌∷◌, [], count-append, count-cons, count-nil, arith, ◌+◌,
}
use open_smtpd.Ramqueue.Types.{
  pending, scheduled, inflight, held, RqEnvelope, EvpList, q_pending, q_removed, Ram, same_list,
}
use open_smtpd.Ramqueue.Queue.{
  find_envelope, set_holdqs, link, unlink, set_list, store, rq_envelope_list, tailq_remove,
}
use open_smtpd.Ramqueue.Envelope.{
  with_queue, write, leave_pending, schedule_list, enter_list, rq_envelope_schedule,
  rq_envelope_remove, back_to_list, rq_envelope_resume,
}
use open_smtpd.Ramqueue.Placement.{on_list, list_share, Placed}
use open_smtpd.Ramqueue.Admin.{schedule_op}
use open_smtpd.Ramqueue.Placement.Return.{take_inflight-Left}
use open_smtpd.Ramqueue.Placement.Hold.{open_holdq-Opened, set_holdqs-Missing}
use open_smtpd.Ramqueue.Flight.{
  is_inflight, requeue, holdq_maxsize, enter_holdq, scheduler_ram_hold,
}
use open_smtpd.Ramqueue.Placement.Enter.{sorted_insert-Links}
use open_smtpd.Ramqueue.Placement.Handlers.{find-written, find-enter_list}
use open_smtpd.Ramqueue.Placement.Remove.{as_scheduled}

-- What enter_list() links.
count-enter_list :
    (x : ℕ) (r : Ram) (e' : RqEnvelope) (l : EvpList)
    → e'.evpid ≡ x
    → count x ((enter_list l e' r).ramqueue.lists l) ≡ count x (r.ramqueue.lists l) + 1
unfolding enter_list with_queue link write store set_list
count-enter_list x r e' l k = ground (
  arith,
  count-append x (r.ramqueue.lists l) (e'.evpid ∷ []),
  count-cons x e'.evpid [],
  count-nil x,
)

-- A suspended envelope that is linked all the same is linked once more by rq_envelope_resume().
resume_again :
    (x : ℕ) (r : Ram) (e : RqEnvelope) (l : EvpList)
    → e.evpid ≡ x
    → e.suspend ≡ true
    → e.state ≡ scheduled
    → rq_envelope_list e ≡ some l
    → same_list l q_pending ≡ false
    → (r' : Ram) × (rq_envelope_resume r e ≡ some (r', true))
      × (count x (r'.ramqueue.lists l) ≡ count x (r.ramqueue.lists l) + 1)
unfolding rq_envelope_resume back_to_list enter_list
resume_again x r e l k asleep s at np =
    let e' = record e { suspend = false } in
    (enter_list l e' r, ground (arith, at), count-enter_list x r e' l k)

-- Where every envelope is linked where it belongs: for an envelope of the queue that is suspended
-- and not in flight, neither removed nor expired, rq_envelope_remove() succeeds, and
-- rq_envelope_resume() of the envelope that this leaves succeeds too, after which `q_removed`
-- links the envelope twice.
pub remove_resume_twice :
    (x : ℕ) (r : Ram) (e : RqEnvelope)
    → Placed r
    → find_envelope r.ramqueue x ≡ some e
    → e.suspend ≡ true
    → is_inflight e.state ≡ false
    → e.removed ≡ false
    → e.expired ≡ false
    → (r1 : Ram) × (e1 : RqEnvelope) × (r2 : Ram) × (rq_envelope_remove r e ≡ some (r1, true))
      × (find_envelope r1.ramqueue x ≡ some e1)
      × (rq_envelope_resume r1 e1 ≡ some (r2, true))
      × (count x (r2.ramqueue.lists q_removed) ≡ 2)
unfolding rq_envelope_remove rq_envelope_list list_share on_list
remove_resume_twice x r e p f asleep idle kept valid =
    let t = p.tidy x e f in
    let e1 = record e { removed = true; state = scheduled; t_scheduled = r.currtime } in
    let r1 = enter_list q_removed e1 r in
    let (r2, res, more) = resume_again x r1 e1 q_removed t.key asleep refl (ground arith) refl in
    (
      r1,
      e1,
      r2,
      ground (arith, t),
      find-enter_list x r e e1 q_removed t.key f,
      res,
      ground (arith, more, count-enter_list x r e1 q_removed t.key, p.on_lists q_removed x, f),
    )

-- Where every envelope is linked where it belongs: for a pending envelope of the queue that is
-- suspended, rq_envelope_schedule() succeeds, and rq_envelope_resume() of the envelope that this
-- leaves succeeds too, after which the list that rq_envelope_schedule() chose links the envelope
-- twice.
pub schedule_resume_twice :
    (x : ℕ) (r : Ram) (e : RqEnvelope)
    → Placed r
    → find_envelope r.ramqueue x ≡ some e
    → e.suspend ≡ true
    → e.state ≡ pending
    → (r1 : Ram) × (e1 : RqEnvelope) × (r2 : Ram) × (rq_envelope_schedule r e ≡ some r1)
      × (find_envelope r1.ramqueue x ≡ some e1)
      × (rq_envelope_resume r1 e1 ≡ some (r2, true))
      × (count x (r2.ramqueue.lists (schedule_list e)) ≡ 2)
unfolding rq_envelope_schedule leave_pending rq_envelope_list schedule_list list_share on_list
schedule_resume_twice x r e p f asleep s =
    let t = p.tidy x e f in
    let e1 = as_scheduled e r.currtime in
    let r1 = enter_list (schedule_list e) e1 r in
    let (r2, res, more) =
      resume_again x r1 e1 (schedule_list e) t.key asleep refl (ground (arith, t)) (ground arith) in
    (
      r1,
      e1,
      r2,
      ground (arith, t),
      find-enter_list x r e e1 (schedule_list e) t.key f,
      res,
      ground (
        arith,
        more,
        count-enter_list x r e1 (schedule_list e) t.key,
        p.on_lists (schedule_list e) x,
        f,
      ),
    )

tailq_remove_absent : (x : ℕ) (l : List ℕ) → count x l ≡ 0 → tailq_remove x l ≡ none
unfolding tailq_remove
tailq_remove_absent x [] h = refl
tailq_remove_absent x (y ∷ ys) h = ground (arith, count-cons x y ys, tailq_remove_absent x ys)

-- Where every envelope is linked where it belongs: what scheduler_ram_schedule() does to an
-- envelope of the queue that is scheduled already, and not suspended, is a fault: it takes the
-- envelope off the pending list, which does not hold it.
pub schedule_twice_faults :
    (x : ℕ) (r : Ram) (e : RqEnvelope)
    → Placed r
    → find_envelope r.ramqueue x ≡ some e
    → e.suspend ≡ false
    → e.state ≡ scheduled
    → schedule_op r e ≡ none
unfolding schedule_op rq_envelope_schedule leave_pending rq_envelope_list list_share on_list unlink
schedule_twice_faults x r e p f awake s = ground (
  arith,
  tailq_remove_absent e.evpid (r.ramqueue.lists q_pending),
  p.on_lists q_pending x,
  p.tidy x e f,
  f,
)

-- Where every envelope is linked where it belongs: for an envelope of the queue that was removed
-- while in flight, and is not suspended, scheduler_ram_hold() succeeds. The envelope is held or
-- pending then, still marked as removed, and it does not belong on `q_removed`.
pub hold_removed :
    (now x holdq : ℕ) (r : Ram) (e : RqEnvelope)
    → Placed r
    → find_envelope r.ramqueue x ≡ some e
    → e.state ≡ inflight
    → e.removed ≡ true
    → e.suspend ≡ false
    → (r' : Ram) × (b : Bool) × (e' : RqEnvelope) × (scheduler_ram_hold now x holdq r
        ≡ some (r', b))
      × (find_envelope r'.ramqueue x ≡ some e')
      × (e'.removed ≡ true)
      × (on_list e' q_removed ≡ false)
      × ((e'.state ≡ held) ⊎ (e'.state ≡ pending))
unfolding scheduler_ram_hold enter_holdq requeue on_list rq_envelope_list
hold_removed now x holdq r e p f fly gone awake =
    let (r1, took, k) = take_inflight-Left now x r e p f fly in
    let t = p.tidy x e f in
    let m = k.missing in
    let (hqs, hq, opened, o) =
      open_holdq-Opened (r1.holdqs e.type) holdq (m.order e.type) (m.counted e.type) in
    let r2 = set_holdqs e.type hqs r1 in
    let f2 : find_envelope r2.ramqueue x ≡ some e = unfold set_holdqs in k.same x ∙ f in
    elim (Bool-cases (leb holdq_maxsize hq.count)) [
      | inl full ↦
          let e' = record e { state = pending; update = true; overflow = true } in
          let (rq, s, links) =
            sorted_insert-Links x r2 e' (set_holdqs-Missing x r1 e.type hqs holdq hq m o) t.key
              (refl, awake) in
          (
            write e' (with_queue r2 rq),
            false,
            e',
            ground (arith, took, opened, o.there, s),
            find-written x (with_queue r2 rq) e e' (links.same x ∙ f2) t.key,
            gone,
            ground arith,
            inr refl,
          )
      | inr room ↦
          let e' = record e { state = held; holdq = holdq } in
          (
            enter_holdq e holdq hqs hq r1,
            true,
            e',
            ground (arith, took, opened, o.there),
            find-written x _ e e' (unfold set_holdqs in k.same x ∙ f) t.key,
            gone,
            ground arith,
            inl refl,
          )
    ]
