-- ===== src/Tree/Order.antt =====
-- usr.sbin/smtpd/tree.c: the order of the entries and the counter.
use open_smtpd.Base.{
  ℕ, ◌+◌, ◌-◌, ◌≤◌, ◌<◌, ◌≡◌, refl, subst, none, some, List, [], ◌∷◌, ◌==◌, All, if◌then◌else◌,
  arith, length, inl, inr, Option-cases,
}
use open_smtpd.Tree.{
  Tree, find_entry, insert_entry, remove_entry, modify_entry, merge_entries, tree_get, tree_set,
  tree_pop, tree_merge,
}
use open_smtpd.Tree.Laws.{Ascending, find-insert, find-modify, find-remove, find_below}

module _ {ℓ} {V : Type ℓ} where
  abbrev Above : ℕ → List (ℕ × V) → Type 0
  Above n = All (λ d. n < d.0)

  Above-insert :
      (n k : ℕ) (v : V) (es : List (ℕ × V)) → n < k → Above n es → Above n (insert_entry k v es)
  unfolding insert_entry
  Above-insert n k v [] lt h = (lt, tt)
  Above-insert n k v ((j, w) ∷ es) lt h = ground (arith, Above-insert n k v es lt h.1)

  Above-mono : (n m : ℕ) (es : List (ℕ × V)) → n ≤ m → Above m es → Above n es
  Above-mono n m [] le h = tt
  Above-mono n m (e ∷ es) le h = (omega (arith, h.0), Above-mono n m es le h.1)

  Above-remove : (n k : ℕ) (es : List (ℕ × V)) → Above n es → Above n (remove_entry k es)
  unfolding remove_entry
  Above-remove n k [] h = tt
  Above-remove n k ((j, w) ∷ es) h = ground (arith, Above-remove n k es h.1)

  Above-modify :
      (n k : ℕ) (f : V → V) (es : List (ℕ × V)) → Above n es → Above n (modify_entry k f es)
  unfolding modify_entry
  Above-modify n k f [] h = tt
  Above-modify n k f ((j, w) ∷ es) h = ground (arith, Above-modify n k f es h.1)

  pub insert_entry-Ascending :
      (k : ℕ) (v : V) (es : List (ℕ × V))
      → find_entry k es ≡ none
      → Ascending es
      → Ascending (insert_entry k v es)
  unfolding insert_entry find_entry
  insert_entry-Ascending k v [] f h = (tt, tt)
  insert_entry-Ascending k v ((j, w) ∷ es) f h =
      ground (arith, insert_entry-Ascending k v es, Above-insert j k v es, Above-mono k j es)

  pub remove_entry-Ascending :
      (k : ℕ) (es : List (ℕ × V)) → Ascending es → Ascending (remove_entry k es)
  unfolding remove_entry
  remove_entry-Ascending k [] h = tt
  remove_entry-Ascending k ((j, w) ∷ es) h =
      ground (arith, remove_entry-Ascending k es h.1, Above-remove j k es h.0)

  pub modify_entry-Ascending :
      (k : ℕ) (f : V → V) (es : List (ℕ × V)) → Ascending es → Ascending (modify_entry k f es)
  unfolding modify_entry
  modify_entry-Ascending k f [] h = tt
  modify_entry-Ascending k f ((j, w) ∷ es) h =
      ground (arith, modify_entry-Ascending k f es h.1, Above-modify j k f es h.0)

  length-insert_entry :
      (k : ℕ) (v : V) (es : List (ℕ × V)) → length (insert_entry k v es) ≡ length es + 1
  unfolding insert_entry
  length-insert_entry k v [] = omega arith
  length-insert_entry k v ((j, w) ∷ es) = ground (arith, length-insert_entry k v es)

  length-remove_entry :
      (k : ℕ) (v : V) (es : List (ℕ × V))
      → find_entry k es ≡ some v
      → length (remove_entry k es) + 1 ≡ length es
  unfolding remove_entry find_entry
  length-remove_entry k v [] h = cc
  length-remove_entry k v ((j, w) ∷ es) h = ground (arith, length-remove_entry k v es)

  length-modify_entry :
      (k : ℕ) (f : V → V) (es : List (ℕ × V)) → length (modify_entry k f es) ≡ length es
  unfolding modify_entry
  length-modify_entry k f [] = refl
  length-modify_entry k f ((j, w) ∷ es) = ground (arith, length-modify_entry k f es)

  -- The ids grow along the list, and the counter is the number of entries.
  pub record IsTree (t : Tree V) : Type 0 where
    pub order : Ascending t.entries
    pub counted : t.count ≡ length t.entries

  insert_entry-IsTree :
      (t : Tree V) (k : ℕ) (v : V)
      → IsTree t
      → find_entry k t.entries ≡ none
      → IsTree (record { entries = insert_entry k v t.entries; count = t.count + 1 })
  insert_entry-IsTree t k v w new = record {
    order = insert_entry-Ascending k v t.entries new w.order;
    counted = omega (arith, w.counted, length-insert_entry k v t.entries);
  }

  pub remove_entry-IsTree :
      (t : Tree V) (k : ℕ) (v : V)
      → IsTree t
      → find_entry k t.entries ≡ some v
      → IsTree (record { entries = remove_entry k t.entries; count = t.count - 1 })
  remove_entry-IsTree t k v w there = record {
    order = remove_entry-Ascending k t.entries w.order;
    counted = omega (arith, w.counted, length-remove_entry k v t.entries there);
  }

  pub modify_entry-IsTree :
      (t : Tree V) (k : ℕ) (f : V → V)
      → IsTree t
      → IsTree (record t { entries = modify_entry k f t.entries })
  modify_entry-IsTree t k f w = record {
    order = modify_entry-Ascending k f t.entries w.order;
    counted = omega (arith, w.counted, length-modify_entry k f t.entries);
  }

  -- For a tree in order and counted, tree_set() gives such a tree. A lookup then finds the new
  -- data under the id, and under every other id what it found before. The old data of the id comes
  -- back.
  pub tree_set_lem :
      (t : Tree V) (k : ℕ) (v : V)
      → IsTree t
      → IsTree (tree_set t k v).0
        × ((j : ℕ) → tree_get (tree_set t k v).0 j ≡ (if k == j then some v else tree_get t j))
        × ((tree_set t k v).1 ≡ tree_get t k)
  unfolding tree_set
  tree_set_lem t k v w = elim (Option-cases (find_entry k t.entries)) [
    | inl new ↦
        rw (new, tree_set)
          (insert_entry-IsTree t k v w new, λ j. find-insert k j v t.entries new, refl)
    | inr (old, there) ↦
        rw (there, tree_set)
          (
            modify_entry-IsTree t k (λ _. v) w,
            λ j. ground (arith, find-modify k j (λ (u : V). v) t.entries, there),
            refl,
          )
  ]

  -- For a tree in order and counted, tree_pop() gives such a tree. It gives what a lookup of the
  -- id finds, after which the id is not found, and a lookup of every other id finds what it did.
  pub tree_pop_lem :
      (t : Tree V) (k : ℕ)
      → IsTree t
      → IsTree (tree_pop t k).0
        × ((j : ℕ) → tree_get (tree_pop t k).0 j ≡ (if k == j then none else tree_get t j))
        × ((tree_pop t k).1 ≡ tree_get t k)
  unfolding tree_pop
  tree_pop_lem t k w = elim (Option-cases (find_entry k t.entries)) [
    | inl gone ↦ rw (gone, tree_pop) (w, λ j. ground (arith, gone), refl)
    | inr (v, there) ↦
        rw (there, tree_pop)
          (remove_entry-IsTree t k v w there, λ j. find-remove k j t.entries w.order, refl)
  ]

  -- What a merge leads to: an entry of the source is found, and otherwise one of the destination.
  merge_entries_lem :
      (dst src dst' : List (ℕ × V))
      → Ascending dst
      → Ascending src
      → merge_entries dst src ≡ some dst'
      → Ascending dst'
        × ((j : ℕ)
            → find_entry j dst'
              ≡ elim (find_entry j src) [ none ↦ find_entry j dst | some v ↦ some v ])
        × (length dst' ≡ length dst + length src)
  unfolding merge_entries find_entry
  merge_entries_lem dst [] dst' a b h = (ground arith, λ j. ground arith, ground arith)
  merge_entries_lem dst ((k, v) ∷ es) dst' a b h = elim (Option-cases (find_entry k dst)) [
    | inl new ↦
        let (o, look, n) =
          merge_entries_lem (insert_entry k v dst) es dst' (insert_entry-Ascending k v dst new a)
            b.1 (ground (arith, new)) in
        (
          o,
          λ j. ground (arith, look j, find-insert k j v dst new, find_below k es b.0),
          omega (arith, n, length-insert_entry k v dst),
        )
    | inr (old, there) ↦ absurd (ground (arith, there))
  ]

  -- For two trees in order and counted, a merge that is not refused gives such a tree. A lookup
  -- then finds what the source holds, and otherwise what the destination held.
  pub tree_merge_lem :
      (dst src : Tree V) {t : Tree V}
      → IsTree dst
      → IsTree src
      → tree_merge dst src ≡ some t
      → IsTree t
        × ((j : ℕ)
            → tree_get t j ≡ elim (tree_get src j) [ none ↦ tree_get dst j | some v ↦ some v ])
  unfolding tree_merge tree_get
  tree_merge_lem dst src {t} a b h = elim (Option-cases (merge_entries dst.entries src.entries)) [
    | inl refused ↦ absurd (ground (arith, refused))
    | inr (es, merged) ↦
        let (o, look, n) = merge_entries_lem dst.entries src.entries es a.order b.order merged in
        let merged_tree : Tree V = record { entries = es; count = dst.count + src.count } in
        let e : merged_tree ≡ t = ground (arith, merged) in
        subst
          (λ u.
            IsTree u
            × ((j : ℕ)
                → tree_get u j ≡ elim (tree_get src j) [ none ↦ tree_get dst j | some v ↦ some v ]))
          e (record { order = o; counted = omega (arith, n, a.counted, b.counted) }, look)
  ]
