-- ===== src/Ramqueue/Placement/Suspend.antt =====
-- usr.sbin/smtpd/scheduler_ramqueue.c: rq_envelope_suspend() and rq_envelope_resume().
use open_smtpd.Base.{ℕ, ◌≡◌, refl, ◌∙◌, ◌⊎◌, inl, inr, some, true, false, arith, not, Bool-cases}
use open_smtpd.Ramqueue.Types.{
  pending, scheduled, held, RqEnvelope, EvpList, q_pending, Ram, same_list,
}
use open_smtpd.Ramqueue.Queue.{find_envelope, link, rq_envelope_list}
use open_smtpd.Ramqueue.Envelope.{
  with_queue, write, enter_list, rq_envelope_suspend, back_to_list, rq_envelope_resume,
}
use open_smtpd.Ramqueue.Flight.{is_inflight}
use open_smtpd.Ramqueue.SortedInsert.{sorted_insert-suspend}
use open_smtpd.Ramqueue.Placement.{is_held, on_list, list_share, holdq_share, Placed}
use open_smtpd.Ramqueue.Placement.Enter.{write-Placed, sorted_insert-Links}
use open_smtpd.Ramqueue.Placement.Leave.{Left, holdq_remove-Left}
use open_smtpd.Ramqueue.Placement.Handlers.{
  Keeps, find-written, find-enter_list, enter_list-Placed, write_rest-Placed, leave_list-Left,
  awake_list, EvpState-cases, mark-Placed,
}

suspend_linked :
    (x : ℕ) (r : Ram) (e : RqEnvelope)
    → Placed r
    → find_envelope r.ramqueue x ≡ some e
    → e.suspend ≡ false
    → (e.state ≡ pending) ⊎ (e.state ≡ scheduled)
    → Keeps x (λ d. d.suspend) (rq_envelope_suspend r e) true
unfolding rq_envelope_suspend on_list
suspend_linked x r e p f awake s =
    let (l, at, on) = awake_list e awake (ground arith) in
    let (r', left, k) = leave_list-Left x r e l p f at on in
    let e' = record e { suspend = true } in
    let t = p.tidy x e f in
    (
      write e' r',
      e',
      ground (arith, left),
      find-written x r' e e' (k.same x ∙ f) t.key,
      refl,
      write_rest-Placed x r r' e e' k f (ground (arith, t)) (λ m. ground arith) (ground arith),
    )

suspend_held :
    (x : ℕ) (r : Ram) (e : RqEnvelope)
    → Placed r
    → find_envelope r.ramqueue x ≡ some e
    → e.state ≡ held
    → Keeps x (λ d. d.suspend) (rq_envelope_suspend r e) true
unfolding rq_envelope_suspend on_list
suspend_held x r e p f h =
    let (r', left, k) = holdq_remove-Left x r e p f h in
    let e' = record e { suspend = true; holdq = 0; state = pending } in
    let t = p.tidy x e f in
    (
      write e' r',
      e',
      ground (arith, left, t),
      find-written x r' e e' (k.same x ∙ f) t.key,
      refl,
      write_rest-Placed x r r' e e' k f (ground (arith, t)) (λ m. ground arith) refl,
    )

suspend_awake :
    (x : ℕ) (r : Ram) (e : RqEnvelope)
    → Placed r
    → find_envelope r.ramqueue x ≡ some e
    → e.suspend ≡ false
    → Keeps x (λ d. d.suspend) (rq_envelope_suspend r e) true
unfolding rq_envelope_suspend on_list
suspend_awake x r e p f awake = elim (EvpState-cases e.state) [
  | inl linked ↦ suspend_linked x r e p f awake linked
  | inr (inl fly) ↦ (
    write (record e { suspend = true }) r,
    record e { suspend = true },
    ground arith,
    find-written x r e (record e { suspend = true }) f (p.tidy x e f).key,
    refl,
    mark-Placed x r e (record e { suspend = true }) p f (ground (arith, p.tidy x e f))
        (λ l. ground arith) (λ t k. refl),
  )
  | inr (inr h) ↦ suspend_held x r e p f h
]

-- Where every envelope is linked where it belongs: rq_envelope_suspend() does not fault for an
-- envelope of the queue. It counts the envelope unless it is suspended already; the envelope is
-- suspended then, and every envelope is linked where it belongs again.
pub suspend-Placed :
    (x : ℕ) (r : Ram) (e : RqEnvelope)
    → Placed r
    → find_envelope r.ramqueue x ≡ some e
    → Keeps x (λ d. d.suspend) (rq_envelope_suspend r e) (not e.suspend)
unfolding rq_envelope_suspend
suspend-Placed x r e p f = elim (Bool-cases e.suspend) [
  | inl asleep ↦ (r, e, ground arith, f, asleep, p)
  | inr awake ↦
      let (r', d, s, g, o, q) = suspend_awake x r e p f awake in (r', d, ground (arith, s), g, o, q)
]

-- An envelope that belongs nowhere is linked nowhere.
nowhere-Left :
    (x : ℕ) (r : Ram) (e : RqEnvelope)
    → Placed r
    → find_envelope r.ramqueue x ≡ some e
    → ((l : EvpList) → on_list e l ≡ false)
    → is_held e.state ≡ false
    → Left x r r
unfolding list_share holdq_share
nowhere-Left x r e p f off free = record {
  missing = record {
    on_lists = λ l id. ground (arith, p.on_lists l id, f, off l);
    in_holdqs = λ t k id. ground (arith, p.in_holdqs t k id, f);
    agree = p.agree;
    tidy = p.tidy;
    order = p.order;
    counted = p.counted;
  };
  same = λ id. refl;
  clock = refl;
}

asleep_off :
    (e : RqEnvelope)
    → e.suspend ≡ true
    → is_inflight e.state ≡ false
    → (l : EvpList) → on_list e l ≡ false
unfolding on_list
asleep_off e s h l = ground arith

resume_pending :
    (x : ℕ) (r : Ram) (e : RqEnvelope)
    → Placed r
    → find_envelope r.ramqueue x ≡ some e
    → e.suspend ≡ true
    → e.state ≡ pending
    → Keeps x (λ d. not d.suspend) (rq_envelope_resume r e) true
unfolding rq_envelope_resume back_to_list rq_envelope_list
resume_pending x r e p f asleep s =
    let e' = record e { suspend = false } in
    let k = nowhere-Left x r e p f (asleep_off e asleep (ground arith)) (ground arith) in
    let t = p.tidy x e f in
    let (rq, ins, links) = sorted_insert-Links x r e' k.missing t.key (s, refl) in
    (
      write e' (with_queue r rq),
      e',
      ground (arith, ins, sorted_insert-suspend r.ramqueue e false),
      find-written x (with_queue r rq) e e' (links.same x ∙ f) t.key,
      refl,
      write-Placed x r _ e' e k.missing f (ground (arith, t)) links,
    )

resume_scheduled :
    (x : ℕ) (r : Ram) (e : RqEnvelope)
    → Placed r
    → find_envelope r.ramqueue x ≡ some e
    → e.suspend ≡ true
    → e.state ≡ scheduled
    → Keeps x (λ d. not d.suspend) (rq_envelope_resume r e) true
unfolding rq_envelope_resume back_to_list rq_envelope_list enter_list
resume_scheduled x r e p f asleep s =
    let e' = record e { suspend = false } in
    let k = nowhere-Left x r e p f (asleep_off e asleep (ground arith)) (ground arith) in
    let (l, at, on) = awake_list e' refl (ground arith) in
    let np : same_list l q_pending ≡ false = ground arith in
    (
      write e' (with_queue r (link l e'.evpid r.ramqueue)),
      e',
      ground arith,
      find-enter_list x r e e' l (p.tidy x e f).key f,
      refl,
      enter_list-Placed x r r e e' l k f (ground (arith, p.tidy x e f)) on np,
    )

-- Where every envelope is linked where it belongs: rq_envelope_resume() does not fault for an
-- envelope of the queue. It counts the envelope if it was suspended; the envelope is not suspended
-- then, and every envelope is linked where it belongs again.
pub resume-Placed :
    (x : ℕ) (r : Ram) (e : RqEnvelope)
    → Placed r
    → find_envelope r.ramqueue x ≡ some e
    → Keeps x (λ d. not d.suspend) (rq_envelope_resume r e) e.suspend
unfolding rq_envelope_resume on_list
resume-Placed x r e p f = elim (Bool-cases e.suspend) [
  | inr awake ↦ (r, e, ground arith, f, ground arith, p)
  | inl asleep ↦
      let woken : Keeps x (λ d. not d.suspend) (rq_envelope_resume r e) true =
        elim (EvpState-cases e.state) [
          | inl (inl s) ↦ resume_pending x r e p f asleep s
          | inl (inr s) ↦ resume_scheduled x r e p f asleep s
          | inr (inl fly) ↦ (
            write (record e { suspend = false }) r,
            record e { suspend = false },
            ground arith,
            find-written x r e (record e { suspend = false }) f (p.tidy x e f).key,
            refl,
            mark-Placed x r e (record e { suspend = false }) p f (ground (arith, p.tidy x e f))
                (λ l. ground arith) (λ t k. refl),
          )
          | inr (inr h) ↦ absurd (ground (arith, (p.tidy x e f).held_awake))
        ] in
      let (r', d, s, g, o, q) = woken in (r', d, ground (arith, s), g, o, q)
]
