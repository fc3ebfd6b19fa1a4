-- ===== src/Tree/Laws.antt =====
-- usr.sbin/smtpd/tree.c: what a lookup finds after each operation.
use open_smtpd.Base.{
  ℕ, ◌≡◌, refl, none, some, List, [], ◌∷◌, ◌==◌, if◌then◌else◌, map_some, arith, ◌<◌, All,
}
use open_smtpd.Tree.{
  Tree, find_entry, insert_entry, remove_entry, modify_entry, tree_get, tree_modify,
}

module _ {ℓ} {V : Type ℓ} where
  -- The ids grow along the list.
  abbrev pub Ascending : List (ℕ × V) → Type 0
  Ascending [] = Unit
  Ascending (e ∷ es) = All (λ d. e.0 < d.0) es × Ascending es

  pub find-insert :
      (k j : ℕ) (v : V) (es : List (ℕ × V))
      → find_entry k es ≡ none
      → find_entry j (insert_entry k v es) ≡ (if k == j then some v else find_entry j es)
  unfolding find_entry insert_entry
  find-insert k j v [] h = refl
  find-insert k j v ((i, w) ∷ es) h = ground (arith, find-insert k j v es)

  pub find-modify :
      (k j : ℕ) (f : V → V) (es : List (ℕ × V))
      → find_entry j (modify_entry k f es)
        ≡ (if k == j then map_some f (find_entry j es) else find_entry j es)
  unfolding find_entry modify_entry
  find-modify k j f [] = ground arith
  find-modify k j f ((i, w) ∷ es) = ground (arith, find-modify k j f es)

  pub find_below : (k : ℕ) (es : List (ℕ × V)) → All (λ d. k < d.0) es → find_entry k es ≡ none
  unfolding find_entry
  find_below k [] h = refl
  find_below k ((i, w) ∷ es) h = ground (arith, find_below k es h.1)

  pub find-remove :
      (k j : ℕ) (es : List (ℕ × V))
      → Ascending es
      → find_entry j (remove_entry k es) ≡ (if k == j then none else find_entry j es)
  unfolding find_entry remove_entry
  find-remove k j [] h = ground arith
  find-remove k j ((i, w) ∷ es) h = ground (arith, find-remove k j es h.1, find_below i es h.0)

  pub tree_get-modify :
      (t : Tree V) (k j : ℕ) (f : V → V)
      → tree_get (tree_modify t k f) j
        ≡ (if k == j then map_some f (tree_get t j) else tree_get t j)
  unfolding tree_get tree_modify
  tree_get-modify t k j f = find-modify k j f t.entries
