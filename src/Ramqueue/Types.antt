-- ===== src/Ramqueue/Types.antt =====
-- usr.sbin/smtpd/scheduler_ramqueue.c: the data, and the ids of smtpd-api.h.
use open_smtpd.Base.{ℕ, ◌/◌, ◌^◌, Bool, List, ◌==◌}
use open_smtpd.Tree.{Tree}

-- enum delivery_type.
pub data DeliveryType : Type 0 where
  d_mda d_mta d_bounce : DeliveryType

-- RQ_EVPSTATE_*.
pub data EvpState : Type 0 where
  pending scheduled inflight held : EvpState

-- struct rq_envelope, each bit RQ_ENVELOPE_* of its flags as a field. `message` is the id of the
-- message that the pointer leads to. A queue links an envelope by its `evpid`.
pub record RqEnvelope : Type 0 where
  pub evpid : ℕ
  pub holdq : ℕ
  pub type : DeliveryType
  pub state : EvpState
  pub expired : Bool
  pub removed : Bool
  pub suspend : Bool
  pub update : Bool
  pub overflow : Bool
  pub ctime : ℕ
  pub sched : ℕ
  pub expire : ℕ
  pub message : ℕ
  pub t_inflight : ℕ
  pub t_scheduled : ℕ

-- struct rq_message.
pub record RqMessage : Type 0 where
  pub msgid : ℕ
  pub envelopes : Tree RqEnvelope

-- struct rq_holdq.
pub record RqHoldq : Type 0 where
  pub q : List ℕ
  pub count : ℕ

-- The `struct evplist` members of struct rq_queue: a value stands for the address of the list.
pub data EvpList : Type 0 where
  q_pending q_inflight q_mta q_mda q_bounce q_update q_expired q_removed : EvpList

-- struct rq_queue. `q_priotree` lists the splay tree in its order.
pub record RqQueue : Type 0 where
  pub evpcount : ℕ
  pub messages : Tree RqMessage
  pub q_priotree : List ℕ
  pub lists : EvpList → List ℕ

-- The file's static variables.
pub record Ram : Type 0 where
  pub ramqueue : RqQueue
  pub updates : Tree RqQueue
  pub holdqs : DeliveryType → Tree RqHoldq
  pub currtime : ℕ

-- struct scheduler_info, the members that the ram queue reads or writes.
pub record SchedulerInfo : Type 0 where
  pub evpid : ℕ
  pub type : DeliveryType
  pub retry : ℕ
  pub creation : ℕ
  pub ttl : ℕ
  pub nexttry : ℕ

abbrev pub list_index : EvpList → ℕ
list_index q_pending = 0
list_index q_inflight = 1
list_index q_mta = 2
list_index q_mda = 3
list_index q_bounce = 4
list_index q_update = 5
list_index q_expired = 6
list_index q_removed = 7

-- Equality of the addresses of two lists.
abbrev pub same_list : EvpList → EvpList → Bool
same_list l m = list_index l == list_index m

abbrev pub type_index : DeliveryType → ℕ
type_index d_mda = 0
type_index d_mta = 1
type_index d_bounce = 2

abbrev pub same_type : DeliveryType → DeliveryType → Bool
same_type t u = type_index t == type_index u

-- The upper 32 bits of an envelope's id are its message's id.
unfoldable pub evpid_to_msgid : ℕ → ℕ
evpid_to_msgid evpid = evpid / 2 ^ 32
