-- ===== src/Ramqueue/Queue.antt =====
-- usr.sbin/smtpd/scheduler_ramqueue.c: the lists, the tree of messages and the priority tree of a
-- struct rq_queue. An operation gives `none` where the source calls fatalx(), or where a TAILQ macro
-- is applied to an element that the list does not hold, which C leaves undefined.
use open_smtpd.Base.{
  ℕ, ◌-◌, Option, none, some, List, [], ◌∷◌, ◌++◌, Ordering, ltb, ◌==◌, if◌then◌else◌, ◌>>=◌,
  map_some, not,
}
use open_smtpd.Tree.{Tree, tree_init, tree_empty, tree_get, tree_xget, tree_xpop, tree_modify}
use open_smtpd.Ramqueue.Types.{
  DeliveryType, d_mda, d_mta, d_bounce, pending, scheduled, inflight, held, RqEnvelope, RqHoldq,
  EvpList, q_pending, q_inflight, q_mta, q_mda, q_bounce, q_update, q_expired, q_removed, RqQueue,
  Ram, same_list, same_type, evpid_to_msgid,
}

unfoldable pub rq_queue_init : RqQueue
unfolding tree_init
rq_queue_init = record { evpcount = 0; messages = tree_init; q_priotree = []; lists = λ l. [] }

-- The envelope that a link leads to, through its message.
unfoldable pub find_envelope : RqQueue → ℕ → Option RqEnvelope
find_envelope rq id = tree_get rq.messages (evpid_to_msgid id) >>= λ m. tree_get m.envelopes id

-- Writes through the pointer to an envelope.
unfoldable pub store : RqEnvelope → RqQueue → RqQueue
store e rq = record rq {
  messages =
      tree_modify rq.messages (evpid_to_msgid e.evpid)
        λ m. record m { envelopes = tree_modify m.envelopes e.evpid (λ _. e) };
}

-- TAILQ_REMOVE.
unfoldable pub tailq_remove : ℕ → List ℕ → Option (List ℕ)
tailq_remove x [] = none
tailq_remove x (y ∷ ys) = if x == y then some ys else map_some (λ zs. y ∷ zs) (tailq_remove x ys)

-- TAILQ_INSERT_BEFORE: `x` before `y`.
unfoldable pub tailq_insert_before : ℕ → ℕ → List ℕ → Option (List ℕ)
tailq_insert_before y x [] = none
tailq_insert_before y x (z ∷ zs) =
    if y == z then some (x ∷ z ∷ zs) else map_some (λ ws. z ∷ ws) (tailq_insert_before y x zs)

unfoldable pub set_list : EvpList → List ℕ → RqQueue → RqQueue
set_list l xs rq = record rq { lists = λ m. if same_list m l then xs else rq.lists m }

-- TAILQ_REMOVE(list, evp, entry).
unfoldable pub unlink : EvpList → ℕ → RqQueue → Option RqQueue
unfolding set_list
unlink l id rq = map_some (λ xs. set_list l xs rq) (tailq_remove id (rq.lists l))

-- TAILQ_INSERT_TAIL(list, evp, entry).
unfoldable pub link : EvpList → ℕ → RqQueue → RqQueue
unfolding set_list
link l id rq = set_list l (rq.lists l ++ id ∷ []) rq

-- The time by which the priority tree is ordered.
abbrev pub ref_time : RqEnvelope → ℕ
ref_time e = if ltb e.sched e.expire then e.sched else e.expire

-- -1, 0 and 1 are lt, eq and gt.
unfoldable pub rq_envelope_cmp : RqEnvelope → RqEnvelope → Ordering
rq_envelope_cmp e1 e2 =
    if not (ref_time e1 == ref_time e2)
    then if ltb (ref_time e1) (ref_time e2) then Ordering.lt else Ordering.gt
    else if not (e1.evpid == e2.evpid)
    then if ltb e1.evpid e2.evpid then Ordering.lt else Ordering.gt
    else Ordering.eq

-- SPLAY_INSERT(prioqtree, …): the place is found by comparing with the envelopes of the tree.
unfoldable pub splay_insert : RqQueue → RqEnvelope → List ℕ → Option (List ℕ)
splay_insert rq e [] = some (e.evpid ∷ [])
splay_insert rq e (id ∷ ids) =
    let rest = splay_insert rq e ids in
    find_envelope rq id >>= λ d. elim (rq_envelope_cmp e d) [
      | Ordering.lt ↦ some (e.evpid ∷ id ∷ ids)
      | Ordering.eq ↦ some (id ∷ ids)
      | Ordering.gt ↦ map_some (λ zs. id ∷ zs) rest
    ]

-- SPLAY_NEXT(prioqtree, …): the element behind one of the tree.
unfoldable pub splay_next : ℕ → List ℕ → Option ℕ
splay_next x [] = none
splay_next x (y ∷ ys) =
    let rest = splay_next x ys in if x == y then elim ys [ [] ↦ none | z ∷ zs ↦ some z ] else rest

-- SPLAY_REMOVE(prioqtree, …), which does nothing for an element that is not there.
unfoldable pub splay_erase : ℕ → List ℕ → List ℕ
splay_erase id [] = []
splay_erase id (y ∷ ys) = if id == y then ys else y ∷ splay_erase id ys

unfoldable pub splay_remove : ℕ → RqQueue → RqQueue
unfolding splay_erase
splay_remove id rq = record rq { q_priotree = splay_erase id rq.q_priotree }

unfoldable pub sorted_insert : RqQueue → RqEnvelope → Option RqQueue
unfolding splay_insert splay_next tailq_insert_before set_list link
sorted_insert rq evp = splay_insert rq evp rq.q_priotree >>= λ tree.
    elim (splay_next evp.evpid tree) [
      | none ↦ some (link q_pending evp.evpid (record rq { q_priotree = tree }))
      | some evp2 ↦
          map_some (λ xs. set_list q_pending xs (record rq { q_priotree = tree }))
            (tailq_insert_before evp2 evp.evpid (rq.lists q_pending))
    ]

-- The list that an envelope is said to be on; `none` is NULL.
unfoldable pub rq_envelope_list : RqEnvelope → Option EvpList
rq_envelope_list evp = elim evp.state [
  | pending ↦ some q_pending
  | scheduled ↦ some (
      if evp.expired
      then q_expired
      else if evp.removed
      then q_removed
      else if evp.update
      then q_update
      else elim evp.type [ d_mta ↦ q_mta | d_mda ↦ q_mda | d_bounce ↦ q_bounce ])
  | inflight ↦ some q_inflight
  | held ↦ none
]

-- Takes an envelope out of its message, and an emptied message out of the queue.
unfoldable pub rq_envelope_delete : RqQueue → RqEnvelope → Option RqQueue
unfolding tree_xget tree_xpop tree_empty tree_modify
rq_envelope_delete rq evp = tree_xget rq.messages evp.message >>= λ m.
    tree_xpop m.envelopes evp.evpid >>= λ (e, envelopes).
    if tree_empty envelopes
    then (tree_xpop rq.messages m.msgid >>= λ (gone, messages).
        some (record rq { messages = messages; evpcount = rq.evpcount - 1 }))
    else some (record rq {
      messages = tree_modify rq.messages evp.message (λ n. record n { envelopes = envelopes });
      evpcount = rq.evpcount - 1;
    })

-- The writes of one holding queue, by its delivery type.
unfoldable pub set_holdqs : DeliveryType → Tree RqHoldq → Ram → Ram
set_holdqs t hqs r = record r { holdqs = λ u. if same_type u t then hqs else r.holdqs u }

-- The steps by which an envelope leaves its holding queue, which three functions repeat.
unfoldable pub holdq_remove : Ram → RqEnvelope → Option Ram
holdq_remove r evp = tree_xget (r.holdqs evp.type) evp.holdq >>= λ hq.
    tailq_remove evp.evpid hq.q >>= λ q. elim q [
      | [] ↦ tree_xpop (r.holdqs evp.type) evp.holdq >>= λ (gone, hqs).
          some (set_holdqs evp.type hqs r)
      | x ∷ xs ↦ some (
          set_holdqs evp.type
            (tree_modify (r.holdqs evp.type) evp.holdq
              (λ _. record { q = x ∷ xs; count = hq.count - 1 }))
            r)
    ]
