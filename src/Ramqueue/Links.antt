-- ===== src/Ramqueue/Links.antt =====
-- usr.sbin/smtpd/scheduler_ramqueue.c: what the list operations do to the number of times that an
-- envelope is linked, and that lookups do not see them.
use open_smtpd.Base.{
  ℕ, suc, ◌+◌, ◌<◌, ◌≡◌, refl, ap, length, some, List, [], ◌∷◌, ◌==◌, true, if◌then◌else◌, map_some,
  arith, hit, count, count-cons, count-nil, Bool-cases, inl, inr, Option-cases,
}
use open_smtpd.Tree.{tree_get, tree_modify}
use open_smtpd.Tree.Laws.{tree_get-modify}
use open_smtpd.Ramqueue.Types.{
  EvpList, q_pending, q_inflight, q_mta, q_mda, q_bounce, q_update, q_expired, q_removed,
  RqEnvelope, RqMessage, RqQueue, same_list, evpid_to_msgid,
}
use open_smtpd.Ramqueue.Queue.{find_envelope, store, tailq_remove, splay_erase}

-- A list from which one occurrence of `x` is gone.
pub record Removed (x : ℕ) (l l' : List ℕ) : Type 0 where
  pub counts : (y : ℕ) → count y l ≡ hit y x + count y l'
  pub shorter : length l ≡ suc (length l')

-- TAILQ_REMOVE succeeds on an element of the list, and SPLAY_REMOVE gives the same list.
pub tailq_remove-Removed :
    (x : ℕ) (l : List ℕ)
    → 0 < count x l
    → (l' : List ℕ) × (tailq_remove x l ≡ some l') × Removed x l l' × (splay_erase x l ≡ l')
unfolding tailq_remove splay_erase
tailq_remove-Removed x [] h = absurd (omega (arith, count-nil x))
tailq_remove-Removed x (y ∷ ys) h = elim (Bool-cases (x == y)) [
  | inl same ↦ (
    ys,
    ground arith,
    record { counts = λ z. ground (arith, count-cons z y ys); shorter = refl },
    ground arith,
  )
  | inr other ↦
      let (l', e, r, s) = tailq_remove-Removed x ys (ground (arith, count-cons x y ys)) in
      (
        y ∷ l',
        ground arith,
        record {
          counts = λ z. ground (arith, count-cons z y ys, count-cons z y l', r.counts z);
          shorter = ap suc r.shorter;
        },
        ground arith,
      )
]

pub same_list→eq : (l m : EvpList) → same_list l m ≡ true → l ≡ m
same_list→eq q_pending m h = ground arith
same_list→eq q_inflight m h = ground arith
same_list→eq q_mta m h = ground arith
same_list→eq q_mda m h = ground arith
same_list→eq q_bounce m h = ground arith
same_list→eq q_update m h = ground arith
same_list→eq q_expired m h = ground arith
same_list→eq q_removed m h = ground arith

pub find-store :
    (e : RqEnvelope) (rq : RqQueue) (id : ℕ)
    → find_envelope (store e rq) id
      ≡ (if e.evpid == id then map_some (λ _. e) (find_envelope rq id) else find_envelope rq id)
unfolding find_envelope store
find-store e rq id = elim (Option-cases (tree_get rq.messages (evpid_to_msgid id))) [
  | inl missing ↦ ground (
    arith,
    missing,
    tree_get-modify rq.messages (evpid_to_msgid e.evpid) (evpid_to_msgid id)
        (λ (m : RqMessage). record m { envelopes = tree_modify m.envelopes e.evpid (λ _. e) }),
  )
  | inr (m, found) ↦ ground (
    arith,
    found,
    tree_get-modify rq.messages (evpid_to_msgid e.evpid) (evpid_to_msgid id)
        (λ (m : RqMessage). record m { envelopes = tree_modify m.envelopes e.evpid (λ _. e) }),
    tree_get-modify m.envelopes e.evpid id (λ _. e),
  )
]
