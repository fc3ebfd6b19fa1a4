-- ===== src/Ramqueue/Placement.antt =====
-- usr.sbin/smtpd/scheduler_ramqueue.c: where an envelope is linked, by its state, flags and type.
pub mod Enter
pub mod Leave
pub mod Handlers
pub mod Suspend
pub mod Remove
pub mod Return
pub mod Hold
pub mod Release
pub mod Defects
mod Tests
use open_smtpd.Base.{
  ℕ, ◌≡◌, ◌≢◌, ◌⊎◌, Option, none, some, List, [], Bool, true, false, ◌&&◌, ◌||◌, not, ◌==◌,
  if◌then◌else◌, count, length,
}
use open_smtpd.Tree.{tree_get}
use open_smtpd.Tree.Laws.{Ascending}
use open_smtpd.Ramqueue.Types.{
  DeliveryType, EvpState, pending, scheduled, inflight, held, RqEnvelope, RqHoldq, EvpList,
  q_pending, Ram, same_list, same_type,
}
use open_smtpd.Ramqueue.Queue.{find_envelope, rq_envelope_list}
use open_smtpd.Ramqueue.Flight.{is_inflight}

abbrev pub is_held : EvpState → Bool
is_held held = true
is_held pending = false
is_held scheduled = false
is_held inflight = false

-- The envelope belongs on the list: the list is that of rq_envelope_list(), and the envelope is in
-- flight or not suspended.
unfoldable pub on_list : RqEnvelope → EvpList → Bool
unfolding rq_envelope_list
on_list e l =
    (not e.suspend || is_inflight e.state)
    && elim (rq_envelope_list e) [ none ↦ false | some m ↦ same_list l m ]

-- The envelope belongs in the holding queue `k` of a type.
abbrev pub on_holdq : RqEnvelope → DeliveryType → ℕ → Bool
on_holdq e t k = is_held e.state && (same_type t e.type && (k == e.holdq))

abbrev pub one : Bool → ℕ
one true = 1
one false = 0

unfoldable pub list_share : Option RqEnvelope → EvpList → ℕ
list_share none l = 0
list_share (some e) l = one (on_list e l)

unfoldable pub holdq_share : Option RqEnvelope → DeliveryType → ℕ → ℕ
holdq_share none t k = 0
holdq_share (some e) t k = one (on_holdq e t k)

abbrev pub holdq_list : Option RqHoldq → List ℕ
holdq_list none = []
holdq_list (some hq) = hq.q

-- The envelopes that a holding queue links: none if there is no such queue.
unfoldable pub held_list : Ram → DeliveryType → ℕ → List ℕ
held_list r t k = holdq_list (tree_get (r.holdqs t) k)

-- What holds of the fields of an envelope.
pub record IsTidy (id : ℕ) (e : RqEnvelope) : Type 0 where
  pub key : e.evpid ≡ id
  pub expired_scheduled : e.expired ≡ true → e.state ≡ scheduled
  pub removed_state : e.removed ≡ true → (e.state ≡ scheduled) ⊎ (e.state ≡ inflight)
  pub held_awake : e.state ≡ held → e.suspend ≡ false

-- Every envelope but `x` is linked where it belongs, once, and nowhere else; `x` is linked nowhere.
pub record Missing (x : ℕ) (r : Ram) : Type 0 where
  pub on_lists :
      (l : EvpList) (id : ℕ)
      → count id (r.ramqueue.lists l)
        ≡ (if id == x then 0 else list_share (find_envelope r.ramqueue id) l)
  pub in_holdqs :
      (t : DeliveryType) (k id : ℕ)
      → count id (held_list r t k)
        ≡ (if id == x then 0 else holdq_share (find_envelope r.ramqueue id) t k)
  pub agree : r.ramqueue.q_priotree ≡ r.ramqueue.lists q_pending
  pub tidy : (id : ℕ) (e : RqEnvelope) → find_envelope r.ramqueue id ≡ some e → IsTidy id e
  pub order : (t : DeliveryType) → Ascending (r.holdqs t).entries
  pub counted :
      (t : DeliveryType) (k : ℕ) (hq : RqHoldq)
      → tree_get (r.holdqs t) k ≡ some hq
      → hq.count ≡ length hq.q

-- Every envelope is linked where it belongs, once, and nowhere else.
pub record Placed (r : Ram) : Type 0 where
  pub on_lists :
      (l : EvpList) (id : ℕ)
      → count id (r.ramqueue.lists l) ≡ list_share (find_envelope r.ramqueue id) l
  pub in_holdqs :
      (t : DeliveryType) (k id : ℕ)
      → count id (held_list r t k) ≡ holdq_share (find_envelope r.ramqueue id) t k
  pub agree : r.ramqueue.q_priotree ≡ r.ramqueue.lists q_pending
  pub tidy : (id : ℕ) (e : RqEnvelope) → find_envelope r.ramqueue id ≡ some e → IsTidy id e
  pub order : (t : DeliveryType) → Ascending (r.holdqs t).entries
  pub counted :
      (t : DeliveryType) (k : ℕ) (hq : RqHoldq)
      → tree_get (r.holdqs t) k ≡ some hq
      → hq.count ≡ length hq.q
