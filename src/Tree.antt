-- ===== src/Tree.antt =====
-- usr.sbin/smtpd/tree.c: the map from 64-bit ids to data, over the splay trees of
-- openbsd-compat/sys/tree.h. A splay tree is read as the list of its entries in the order of their
-- ids: the shape of the tree, which only SPLAY_ROOT shows, is left out.
pub mod Laws
pub mod Order
pub mod Iteration
mod Tests
use open_smtpd.Base.{
  ℕ, ◌+◌, ◌-◌, Bool, true, false, Option, none, some, List, [], ◌∷◌, ltb, leb, ◌==◌, if◌then◌else◌,
  ◌>>=◌, map_some,
}

-- struct tree: `count` is the source's own counter.
pub record Tree {ℓ} (V : Type ℓ) : Type ℓ where
  pub entries : List (ℕ × V)
  pub count : ℕ

module _ {ℓ} {V : Type ℓ} where
  -- SPLAY_FIND.
  unfoldable pub find_entry : ℕ → List (ℕ × V) → Option V
  find_entry k [] = none
  find_entry k ((j, v) ∷ es) = if j == k then some v else find_entry k es

  -- SPLAY_INSERT of an id that is not there yet.
  unfoldable pub insert_entry : ℕ → V → List (ℕ × V) → List (ℕ × V)
  insert_entry k v [] = (k, v) ∷ []
  insert_entry k v ((j, w) ∷ es) =
      if ltb k j then (k, v) ∷ (j, w) ∷ es else (j, w) ∷ insert_entry k v es

  -- SPLAY_REMOVE of the entry with an id.
  unfoldable pub remove_entry : ℕ → List (ℕ × V) → List (ℕ × V)
  remove_entry k [] = []
  remove_entry k ((j, w) ∷ es) = if j == k then es else (j, w) ∷ remove_entry k es

  -- `entry->data = data`, for the entry with an id.
  unfoldable pub modify_entry : ℕ → (V → V) → List (ℕ × V) → List (ℕ × V)
  modify_entry k f [] = []
  modify_entry k f ((j, w) ∷ es) = if j == k then (j, f w) ∷ es else (j, w) ∷ modify_entry k f es

  unfoldable pub tree_init : Tree V
  tree_init = record { entries = []; count = 0 }

  unfoldable pub tree_empty : Tree V → Bool
  tree_empty t = elim t.entries [ [] ↦ true | e ∷ es ↦ false ]

  unfoldable pub tree_get : Tree V → ℕ → Option V
  tree_get t k = find_entry k t.entries

  unfoldable pub tree_check : Tree V → ℕ → Bool
  unfolding tree_get
  tree_check t k = elim (tree_get t k) [ none ↦ false | some v ↦ true ]

  -- The old data comes back.
  unfoldable pub tree_set : Tree V → ℕ → V → Tree V × Option V
  unfolding tree_get
  tree_set t k v = elim (tree_get t k) [
    | none ↦ (record { entries = insert_entry k v t.entries; count = t.count + 1 }, none)
    | some old ↦ (record t { entries = modify_entry k (λ _. v) t.entries }, some old)
  ]

  -- `none` is fatalx(): the id is there already.
  unfoldable pub tree_xset : Tree V → ℕ → V → Option (Tree V)
  unfolding tree_get
  tree_xset t k v = elim (tree_get t k) [
    | none ↦ some (record { entries = insert_entry k v t.entries; count = t.count + 1 })
    | some old ↦ none
  ]

  -- `none` is fatalx(): the id is not there.
  unfoldable pub tree_xget : Tree V → ℕ → Option V
  tree_xget t k = find_entry k t.entries

  unfoldable pub tree_pop : Tree V → ℕ → Tree V × Option V
  unfolding tree_get
  tree_pop t k = elim (tree_get t k) [
    | none ↦ (t, none)
    | some v ↦ (record { entries = remove_entry k t.entries; count = t.count - 1 }, some v)
  ]

  -- `none` is fatalx(): the id is not there.
  unfoldable pub tree_xpop : Tree V → ℕ → Option (V × Tree V)
  unfolding tree_get
  tree_xpop t k = elim (tree_get t k) [
    | none ↦ none
    | some v ↦ some (v, record { entries = remove_entry k t.entries; count = t.count - 1 })
  ]

  -- The data behind an id that was looked up is changed through its pointer.
  unfoldable pub tree_modify : Tree V → ℕ → (V → V) → Tree V
  tree_modify t k f = record t { entries = modify_entry k f t.entries }

  -- SPLAY_NEXT: the entry behind the one with an id.
  unfoldable pub next_entry : ℕ → List (ℕ × V) → Option (ℕ × V)
  next_entry k [] = none
  next_entry k ((j, v) ∷ es) = if ltb k j then some (j, v) else next_entry k es

  -- The handle is NULL (`none`), or the id of the entry that came last.
  unfoldable pub tree_iter : Tree V → Option ℕ → Option (ℕ × V)
  tree_iter t none = elim t.entries [ [] ↦ none | e ∷ es ↦ some e ]
  tree_iter t (some k) = next_entry k t.entries

  first_from : ℕ → List (ℕ × V) → Option (ℕ × V)
  first_from k [] = none
  first_from k ((j, v) ∷ es) = if leb k j then some (j, v) else first_from k es

  -- From the first entry whose id is at least `k`.
  unfoldable pub tree_iterfrom : Tree V → Option ℕ → ℕ → Option (ℕ × V)
  unfolding first_from
  tree_iterfrom t none k =
      if k == 0 then elim t.entries [ [] ↦ none | e ∷ es ↦ some e ] else first_from k t.entries
  tree_iterfrom t (some j) k = next_entry j t.entries

  -- The loop of tree_merge(): each entry of the source is inserted, and a duplicate is fatal.
  merge_entries : List (ℕ × V) → List (ℕ × V) → Option (List (ℕ × V))
  merge_entries dst [] = some dst
  merge_entries dst ((k, v) ∷ es) = elim (find_entry k dst) [
    | none ↦ merge_entries (insert_entry k v dst) es
    | some old ↦ none
  ]

  -- The destination; the source, which is left empty, is not given: rq_queue_merge() frees it.
  unfoldable pub tree_merge : Tree V → Tree V → Option (Tree V)
  unfolding merge_entries
  tree_merge dst src =
      map_some (λ es. record { entries = es; count = dst.count + src.count })
        (merge_entries dst.entries src.entries)
