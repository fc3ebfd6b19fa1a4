-- ===== src/Ramqueue/Placement/Enter.antt =====
-- usr.sbin/smtpd/scheduler_ramqueue.c: an envelope that is linked nowhere is put where it belongs.
use open_smtpd.Base.{
  ℕ, ◌+◌, ◌≤◌, ◌≡◌, refl, ◌∙◌, inl, inr, some, List, [], ◌∷◌, true, false, ◌==◌, if◌then◌else◌,
  count, count-append, count-cons, count-nil, All, arith, hit, length, Bool-cases, Option-cases,
}
use open_smtpd.Tree.{tree_get}
use open_smtpd.Tree.Laws.{Ascending}
use open_smtpd.Ramqueue.Types.{
  DeliveryType, RqHoldq, pending, RqEnvelope, RqQueue, EvpList, q_pending, Ram, same_list,
}
use open_smtpd.Ramqueue.Queue.{find_envelope, store, link, set_list, sorted_insert}
use open_smtpd.Ramqueue.Envelope.{write, with_queue}
use open_smtpd.Ramqueue.Flight.{requeue}
use open_smtpd.Ramqueue.Links.{find-store, same_list→eq}
use open_smtpd.Ramqueue.SortedInsert.{Found, sorted_insert_agrees, with_pending}
use open_smtpd.Ramqueue.Placement.{
  is_held, on_list, on_holdq, one, list_share, holdq_share, held_list, IsTidy, Missing, Placed,
}

-- An envelope is on one list at most, and then it is not held.
pub on_list_unique :
    (e : RqEnvelope) (l m : EvpList)
    → on_list e l ≡ true
    → (on_list e m ≡ same_list m l) × (is_held e.state ≡ false)
unfolding on_list
on_list_unique e l m h = ground arith

-- Lookups do not see the lists.
pub find-set_list :
    (l : EvpList) (xs : List ℕ) (rq : RqQueue) (id : ℕ)
    → find_envelope (set_list l xs rq) id ≡ find_envelope rq id
unfolding find_envelope set_list
find-set_list l xs rq id = refl

pub find-priotree :
    (p : List ℕ) (rq : RqQueue) (id : ℕ)
    → find_envelope (record rq { q_priotree = p }) id ≡ find_envelope rq id
unfolding find_envelope
find-priotree p rq id = refl

-- The envelopes after `write e`: `e` stands for the one with its id.
pub find-write :
    (e : RqEnvelope) (r : Ram) (x : ℕ) (d : RqEnvelope)
    → e.evpid ≡ x
    → find_envelope r.ramqueue x ≡ some d
    → (id : ℕ)
    → find_envelope (write e r).ramqueue id
      ≡ (if id == x then some e else find_envelope r.ramqueue id)
unfolding write with_queue
find-write e r x d k f id = ground (arith, find-store e r.ramqueue id)

-- From `r` to `r'` the lists have come to hold `e` where it belongs, and nothing else has changed.
pub record Links (r r' : Ram) (e : RqEnvelope) : Type 0 where
  pub same : (id : ℕ) → find_envelope r'.ramqueue id ≡ find_envelope r.ramqueue id
  pub lists :
      (l : EvpList) (id : ℕ)
      → count id (r'.ramqueue.lists l)
        ≡ count id (r.ramqueue.lists l) + (if id == e.evpid then one (on_list e l) else 0)
  pub holds :
      (t : DeliveryType) (k id : ℕ)
      → count id (held_list r' t k)
        ≡ count id (held_list r t k) + (if id == e.evpid then one (on_holdq e t k) else 0)
  pub agree : r'.ramqueue.q_priotree ≡ r'.ramqueue.lists q_pending
  pub order : (t : DeliveryType) → Ascending (r'.holdqs t).entries
  pub counted :
      (t : DeliveryType) (k : ℕ) (hq : RqHoldq)
      → tree_get (r'.holdqs t) k ≡ some hq
      → hq.count ≡ length hq.q

pub write-Placed :
    (x : ℕ) (r r' : Ram) (e d : RqEnvelope)
    → Missing x r
    → find_envelope r.ramqueue x ≡ some d
    → IsTidy x e
    → Links r r' e
    → Placed (write e r')
unfolding write with_queue store list_share holdq_share held_list
write-Placed x r r' e d m f t k =
    let look = find-write e r' x d t.key (k.same x ∙ f) in
    record {
      on_lists = λ l id. ground (arith, look id, k.lists l id, k.same id, m.on_lists l id, t.key);
      in_holdqs =
          λ u j id. ground (arith, look id, k.holds u j id, k.same id, m.in_holdqs u j id, t.key);
      agree = k.agree;
      tidy = λ id c g. elim (Bool-cases (id == x)) [
        | inl here ↦ ground (arith, look id, t.key)
        | inr other ↦ m.tidy id c (ground (arith, look id, k.same id, t.key))
      ];
      order = k.order;
      counted = k.counted;
    }

-- Where the new place is a list, its tail.
pub link-Links :
    (x : ℕ) (r : Ram) (e : RqEnvelope) (l : EvpList)
    → Missing x r
    → e.evpid ≡ x
    → on_list e l ≡ true
    → same_list l q_pending ≡ false
    → Links r (with_queue r (link l e.evpid r.ramqueue)) e
unfolding with_queue link held_list
link-Links x r e l m k on np = record {
  same = λ id. find-set_list l _ r.ramqueue id;
  lists = λ n id. ground (
    arith,
    on_list_unique e l n on,
    same_list→eq n l,
    count-append id (r.ramqueue.lists l) (e.evpid ∷ []),
    count-cons id e.evpid [],
    count-nil id,
  );
  holds = λ t k id. ground (arith, on_list_unique e l l on);
  agree = ground (arith, m.agree);
  order = m.order;
  counted = m.counted;
}

-- An envelope that is neither held nor on a list has its place already.
pub rest-Links :
    (x : ℕ) (r : Ram) (e : RqEnvelope)
    → Missing x r
    → ((l : EvpList) → on_list e l ≡ false)
    → is_held e.state ≡ false
    → Links r r e
rest-Links x r e m off free = record {
  same = λ id. refl;
  lists = λ l id. ground (arith, off l);
  holds = λ t k id. ground arith;
  agree = m.agree;
  order = m.order;
  counted = m.counted;
}

abbrev pub Awake : RqEnvelope → Type 0
Awake e = (e.state ≡ pending) × (e.suspend ≡ false)

pending_on : (e : RqEnvelope) (l : EvpList) → Awake e → on_list e l ≡ same_list l q_pending
unfolding on_list
pending_on e l (p, s) = ground arith

-- Every envelope that the pending list links can be looked up.
pending-Found :
    (x : ℕ) (r : Ram) (p : List ℕ)
    → Missing x r
    → ((id : ℕ) → count id p ≤ count id (r.ramqueue.lists q_pending))
    → All (Found r.ramqueue) p
unfolding list_share
pending-Found x r [] m h = tt
pending-Found x r (id ∷ ids) m h = (
  elim (Option-cases (find_envelope r.ramqueue id)) [
    | inl missing ↦
        absurd (ground (arith, missing, m.on_lists q_pending id, h id, count-cons id id ids))
    | inr (e, f) ↦ record { evp = e; found = f; key = (m.tidy id e f).key }
  ],
  pending-Found x r ids m (λ y. omega (arith, h y, count-cons y id ids)),
)

pending_single :
    (x : ℕ) (r : Ram) (id : ℕ) → Missing x r → count id (r.ramqueue.lists q_pending) ≤ 1
unfolding list_share
pending_single x r id m = ground (arith, m.on_lists q_pending id)

with_pending-Links :
    (x : ℕ) (r : Ram) (e : RqEnvelope) (p : List ℕ)
    → Missing x r
    → Awake e
    → ((y : ℕ) → count y p ≡ hit y e.evpid + count y (r.ramqueue.lists q_pending))
    → Links r (with_queue r (with_pending p r.ramqueue)) e
unfolding with_queue held_list set_list
with_pending-Links x r e p m a c = record {
  same = λ id. find-set_list q_pending p _ id ∙ find-priotree p r.ramqueue id;
  lists = λ l id. ground (arith, pending_on e l a, same_list→eq l q_pending, c id);
  holds = λ t k id. ground arith;
  agree = refl;
  order = m.order;
  counted = m.counted;
}

-- sorted_insert() puts an envelope that is pending and awake where it belongs.
pub sorted_insert-Links :
    (x : ℕ) (r : Ram) (e : RqEnvelope)
    → Missing x r
    → e.evpid ≡ x
    → Awake e
    → (rq : RqQueue) × (sorted_insert r.ramqueue e ≡ some rq) × Links r (with_queue r rq) e
sorted_insert-Links x r e m k a =
    let (p, s, c) =
      sorted_insert_agrees r.ramqueue e m.agree
        (pending-Found x r r.ramqueue.q_priotree m (λ id. ground (arith, m.agree)))
        (ground (arith, m.agree, m.on_lists q_pending e.evpid))
        (λ z. ground (arith, m.agree, pending_single x r z m)) in
    (with_pending p r.ramqueue, s, with_pending-Links x r e p m a c)

pub requeue-Placed :
    (x : ℕ) (r : Ram) (e d : RqEnvelope)
    → Missing x r
    → find_envelope r.ramqueue x ≡ some d
    → IsTidy x e
    → Awake e
    → (r' : Ram) × (requeue e r ≡ some r') × (find_envelope r'.ramqueue x ≡ some e) × Placed r'
unfolding requeue
requeue-Placed x r e d m f t a =
    let (rq, s, k) = sorted_insert-Links x r e m t.key a in
    (
      write e (with_queue r rq),
      rw s,
      ground (arith, find-write e (with_queue r rq) x d t.key (k.same x ∙ f) x),
      write-Placed x r _ e d m f t k,
    )
