-- ===== src/Ramqueue/Placement/Hold.antt =====
-- usr.sbin/smtpd/scheduler_ramqueue.c: scheduler_ram_hold(), by which an envelope in flight goes to
-- a holding queue.
use open_smtpd.Base.{
  ℕ, ◌+◌, ◌≡◌, refl, ◌∙◌, ◌⊎◌, inl, inr, some, [], ◌∷◌, Bool, true, false, if◌then◌else◌, arith,
  Bool-cases, Option-cases, ◌==◌, leb, count-cons, length,
}
use open_smtpd.Tree.{Tree, find_entry, insert_entry, tree_get, tree_xset, tree_modify}
use open_smtpd.Tree.Laws.{Ascending, find-insert, find-modify}
use open_smtpd.Tree.Order.{insert_entry-Ascending, modify_entry-Ascending}
use open_smtpd.Ramqueue.Types.{DeliveryType, pending, inflight, held, RqEnvelope, RqHoldq, Ram}
use open_smtpd.Ramqueue.Queue.{find_envelope, set_holdqs, rq_envelope_list}
use open_smtpd.Ramqueue.Envelope.{write}
use open_smtpd.Ramqueue.Flight.{
  take_inflight, holdq_maxsize, open_holdq, enter_holdq, scheduler_ram_hold,
}
use open_smtpd.Ramqueue.Placement.{on_list, holdq_list, held_list, IsTidy, Missing, Placed}
use open_smtpd.Ramqueue.Placement.Enter.{Links, write-Placed, requeue-Placed}
use open_smtpd.Ramqueue.Placement.Leave.{Left, same_type→eq}
use open_smtpd.Ramqueue.Placement.Handlers.{find-written, write_rest-Placed}
use open_smtpd.Ramqueue.Placement.Return.{take_inflight-Left}

-- The holding queues of a type after one has been opened: there is that one, and every envelope is
-- held where it was.
pub record Opened (hqs hqs' : Tree RqHoldq) (k : ℕ) (hq : RqHoldq) : Type 0 where
  pub there : tree_get hqs' k ≡ some hq
  same : (j : ℕ) → holdq_list (tree_get hqs' j) ≡ holdq_list (tree_get hqs j)
  order : Ascending hqs'.entries
  counted : (j : ℕ) (h : RqHoldq) → tree_get hqs' j ≡ some h → h.count ≡ length h.q

pub open_holdq-Opened :
    (hqs : Tree RqHoldq) (k : ℕ)
    → Ascending hqs.entries
    → ((j : ℕ) (h : RqHoldq) → tree_get hqs j ≡ some h → h.count ≡ length h.q)
    → (hqs' : Tree RqHoldq) × (hq : RqHoldq) × (open_holdq hqs k ≡ some hqs') × Opened hqs hqs' k hq
unfolding open_holdq tree_xset tree_get
open_holdq-Opened hqs k o c = elim (Option-cases (find_entry k hqs.entries)) [
  | inr (hq, there) ↦ (
    hqs,
    hq,
    ground (arith, there),
    record { there = there; same = λ j. refl; order = o; counted = c },
  )
  | inl new ↦
      let fresh : RqHoldq = record { q = []; count = 0 } in
      let look : (j : ℕ)
          → find_entry j (insert_entry k fresh hqs.entries)
            ≡ (if k == j then some fresh else find_entry j hqs.entries) =
        λ j. find-insert k j fresh hqs.entries new in
      (
        record { entries = insert_entry k fresh hqs.entries; count = hqs.count + 1 },
        fresh,
        ground (arith, new),
        record {
          there = ground (arith, look k);
          same = λ j. ground (arith, look j, new);
          order = insert_entry-Ascending k fresh hqs.entries new o;
          counted = λ j h g. ground (arith, look j, c j h);
        },
      )
]

pub set_holdqs-Missing :
    (x : ℕ) (r : Ram) (t : DeliveryType) (hqs : Tree RqHoldq) (k : ℕ) (hq : RqHoldq)
    → Missing x r
    → Opened (r.holdqs t) hqs k hq
    → Missing x (set_holdqs t hqs r)
unfolding set_holdqs held_list
set_holdqs-Missing x r t hqs k hq m o = record {
  on_lists = m.on_lists;
  in_holdqs = λ u j id. ground (arith, o.same j, m.in_holdqs u j id, same_type→eq u t);
  agree = m.agree;
  tidy = m.tidy;
  order = λ u. ground (arith, o.order, m.order u);
  counted = λ u j h g. ground (arith, o.counted j h, m.counted u j h);
}

-- The envelope that is put at the head of an open holding queue is where it belongs.
enter_holdq-Links :
    (x : ℕ) (r : Ram) (e e' : RqEnvelope) (k : ℕ) (hqs : Tree RqHoldq) (hq : RqHoldq)
    → Missing x r
    → Opened (r.holdqs e.type) hqs k hq
    → e' ≡ record e { state = held; holdq = k }
    → Links r
        (set_holdqs e.type
          (tree_modify hqs k (λ _. record { q = e.evpid ∷ hq.q; count = hq.count + 1 }))
          r)
        e'
unfolding set_holdqs held_list on_list rq_envelope_list tree_get tree_modify
enter_holdq-Links x r e e' k hqs hq m o same =
    let new : RqHoldq → RqHoldq = λ _. record { q = e.evpid ∷ hq.q; count = hq.count + 1 } in
    record {
      same = λ id. refl;
      lists = λ l id. ground (arith, same);
      holds = λ t j id. ground (
        arith,
        same,
        find-modify k j new hqs.entries,
        o.there,
        o.same j,
        count-cons id e.evpid hq.q,
        same_type→eq t e.type,
      );
      agree = m.agree;
      order = λ t. ground (arith, modify_entry-Ascending k new hqs.entries o.order, m.order t);
      counted = λ t j h g. ground (
        arith,
        find-modify k j new hqs.entries,
        o.there,
        o.counted j h,
        o.counted k hq,
        m.counted t j h,
      );
    }

-- What becomes of an envelope that is held: it waits in the holding queue, or it is pending, because
-- it is suspended or, with both marks of an overflow, because the holding queue is full.
abbrev pub Waits : ℕ → RqEnvelope → RqEnvelope → Bool → Type 0
Waits holdq e e' b =
    ((b ≡ true) × (e.suspend ≡ false) × (e'.state ≡ held) × (e'.holdq ≡ holdq))
    ⊎ ((b ≡ false)
        × (e'.state ≡ pending)
        × ((e'.suspend ≡ true) ⊎ ((e'.update ≡ true) × (e'.overflow ≡ true))))

abbrev Holds : ℕ → ℕ → ℕ → Ram → RqEnvelope → Type 0
Holds now x holdq r e =
    (r' : Ram) × (b : Bool) × (e' : RqEnvelope) × (scheduler_ram_hold now x holdq r ≡ some (r', b))
    × (find_envelope r'.ramqueue x ≡ some e')
    × Waits holdq e e' b
    × Placed r'

hold_awake :
    (now x holdq : ℕ) (r r1 : Ram) (e : RqEnvelope)
    → take_inflight now x r ≡ some (r1, e)
    → Left x (record r { currtime = now }) r1
    → find_envelope r.ramqueue x ≡ some e
    → IsTidy x e
    → e.state ≡ inflight
    → e.removed ≡ false
    → e.suspend ≡ false
    → Holds now x holdq r e
unfolding scheduler_ram_hold enter_holdq
hold_awake now x holdq r r1 e took k f t fly kept awake =
    let m = k.missing in
    let (hqs, hq, opened, o) =
      open_holdq-Opened (r1.holdqs e.type) holdq (m.order e.type) (m.counted e.type) in
    elim (Bool-cases (leb holdq_maxsize hq.count)) [
      | inl full ↦
          let r2 = set_holdqs e.type hqs r1 in
          let e' = record e { state = pending; update = true; overflow = true } in
          let (r', s, g, q) =
            requeue-Placed x r2 e' e (set_holdqs-Missing x r1 e.type hqs holdq hq m o)
              (unfold set_holdqs in k.same x ∙ f) (ground (arith, t)) (refl, awake) in
          (
            r',
            false,
            e',
            ground (arith, took, opened, o.there, s),
            g,
            inr (refl, refl, inr (refl, refl)),
            q,
          )
      | inr room ↦
          let e' = record e { state = held; holdq = holdq } in
          let links = enter_holdq-Links x r1 e e' holdq hqs hq m o refl in
          (
            enter_holdq e holdq hqs hq r1,
            true,
            e',
            ground (arith, took, opened, o.there),
            find-written x _ e e' (links.same x ∙ (k.same x ∙ f)) t.key,
            inl (refl, awake, refl, refl),
            write-Placed x r1 _ e' e m (k.same x ∙ f) (ground (arith, t)) links,
          )
    ]

-- Where every envelope is linked where it belongs: scheduler_ram_hold() does not fault for an
-- envelope in flight that is not removed. If it gives 1, the envelope was not suspended and waits in
-- the holding queue; if it gives 0, the envelope is pending, and it is suspended or bears the marks
-- of an overflow. Every envelope is linked where it belongs again.
pub hold-Placed :
    (now x holdq : ℕ) (r : Ram) (e : RqEnvelope)
    → Placed r
    → find_envelope r.ramqueue x ≡ some e
    → e.state ≡ inflight
    → e.removed ≡ false
    → (r' : Ram) × (b : Bool) × (e' : RqEnvelope) × (scheduler_ram_hold now x holdq r
        ≡ some (r', b))
      × (find_envelope r'.ramqueue x ≡ some e')
      × Waits holdq e e' b
      × Placed r'
unfolding scheduler_ram_hold on_list rq_envelope_list
hold-Placed now x holdq r e p f fly kept =
    let (r1, took, k) = take_inflight-Left now x r e p f fly in
    let t = p.tidy x e f in
    elim (Bool-cases e.suspend) [
      | inr awake ↦ hold_awake now x holdq r r1 e took k f t fly kept awake
      | inl asleep ↦
          let e' = record e { state = pending } in
          (
            write e' r1,
            false,
            e',
            ground (arith, took),
            find-written x r1 e e' (k.same x ∙ f) t.key,
            inr (refl, refl, inl asleep),
            write_rest-Placed x _ r1 e e' k f (ground (arith, t)) (λ l. ground arith) refl,
          )
    ]
