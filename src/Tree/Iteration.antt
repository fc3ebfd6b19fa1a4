-- ===== src/Tree/Iteration.antt =====
-- usr.sbin/smtpd/tree.c: the walks `while (tree_iter(…))` and `while (tree_iterfrom(…))`.
use open_smtpd.Base.{
  ℕ, zero, suc, ◌≤◌, ◌<◌, ◌≡◌, refl, Option, none, some, List, [], ◌∷◌, ltb, All, arith, length,
  Option-cases, inl, inr, Bool-cases,
}
use open_smtpd.Tree.{Tree, next_entry, tree_iter}
use open_smtpd.Tree.Laws.{Ascending}

module _ {ℓ} {V : Type ℓ} where
  -- The entries that a walk by `step` yields from a handle on, in `n` rounds at most.
  pub walk : ℕ → (Option ℕ → Option (ℕ × V)) → Option ℕ → List (ℕ × V)
  walk zero step i = []
  walk (suc n) step i = elim (step i) [ none ↦ [] | some (k, v) ↦ (k, v) ∷ walk n step (some k) ]

  walk_next : ℕ → List (ℕ × V) → ℕ → List (ℕ × V)
  walk_next zero es k = []
  walk_next (suc n) es k = elim (next_entry k es) [
    | none ↦ []
    | some (j, v) ↦ (j, v) ∷ walk_next n es j
  ]

  walk-walk_next :
      (n : ℕ) (t : Tree V) (step : Option ℕ → Option (ℕ × V)) (k : ℕ)
      → ((j : ℕ) → step (some j) ≡ next_entry j t.entries)
      → walk n step (some k) ≡ walk_next n t.entries k
  unfolding walk walk_next
  walk-walk_next zero t step k h = refl
  walk-walk_next (suc n) t step k h = elim (Option-cases (next_entry k t.entries)) [
    | inl e ↦ ground (arith, e, h k)
    | inr ((j, v), e) ↦ ground (arith, e, h k, walk-walk_next n t step j h)
  ]

  next_entry_after : (k j : ℕ) (v : V) (es : List (ℕ × V)) → next_entry k es ≡ some (j, v) → k < j
  unfolding next_entry
  next_entry_after k j v [] h = absurd (ground arith)
  next_entry_after k j v ((i, w) ∷ es) h = ground (arith, next_entry_after k j v es)

  next_entry_skip :
      (i k : ℕ) (w : V) (es : List (ℕ × V)) → i ≤ k → next_entry k ((i, w) ∷ es) ≡ next_entry k es
  unfolding next_entry
  next_entry_skip i k w es h = elim (Bool-cases (ltb k i)) [
    | inl less ↦ absurd (ground arith)
    | inr no_less ↦ rw no_less
  ]

  next_entry_first :
      (i k : ℕ) (w : V) (es : List (ℕ × V)) → k < i → next_entry k ((i, w) ∷ es) ≡ some (i, w)
  unfolding next_entry
  next_entry_first i k w es h = elim (Bool-cases (ltb k i)) [
    | inl less ↦ rw less
    | inr no_less ↦ absurd (ground arith)
  ]

  -- An entry at or before the handle is passed over, then and ever after.
  walk_next_skip :
      (n i k : ℕ) (w : V) (es : List (ℕ × V))
      → i ≤ k
      → walk_next n ((i, w) ∷ es) k ≡ walk_next n es k
  unfolding walk_next
  walk_next_skip zero i k w es h = refl
  walk_next_skip (suc n) i k w es h = elim (Option-cases (next_entry k es)) [
    | inl e ↦ rw (next_entry_skip i k w es h, e, walk_next)
    | inr ((j, v), e) ↦
        let past : i ≤ j = omega (arith, next_entry_after k j v es e) in
        rw (next_entry_skip i k w es h, e, walk_next) (rw (walk_next_skip n i j w es past))
  ]

  walk_next-all_lem :
      (n k : ℕ) (es : List (ℕ × V))
      → length es < n
      → All (λ d. k < d.0) es
      → Ascending es
      → walk_next n es k ≡ es
  unfolding walk_next next_entry
  walk_next-all_lem zero k es h a o = absurd (omega arith)
  walk_next-all_lem (suc n) k [] h a o = refl
  walk_next-all_lem (suc n) k ((j, v) ∷ es) h a o =
      rw (next_entry_first j k v es a.0, walk_next)
        (rw
          (walk_next_skip n j j v es (omega arith), walk_next-all_lem n j es (omega arith) o.0 o.1))

  walk_all :
      (t : Tree V) (step : Option ℕ → Option (ℕ × V)) (j : ℕ) (v : V) (es : List (ℕ × V))
      → ((i : ℕ) → step (some i) ≡ next_entry i t.entries)
      → step none ≡ some (j, v)
      → ((n : ℕ) → walk_next n t.entries j ≡ walk_next n es j)
      → Ascending ((j, v) ∷ es)
      → (n : ℕ) → length es < n
      → walk (suc n) step none ≡ (j, v) ∷ es
  unfolding walk
  walk_all t step j v es h first skip o n long =
      rw (first, walk)
        (rw (walk-walk_next n t step j h, skip n, walk_next-all_lem n j es long o.0 o.1))

  iter_entries :
      (es : List (ℕ × V)) (c : ℕ)
      → Ascending es
      → walk (suc (length es)) (tree_iter (record { entries = es; count = c })) none ≡ es
  unfolding tree_iter walk
  iter_entries [] c o = refl
  iter_entries ((j, v) ∷ es) c o =
      let t : Tree V = record { entries = (j, v) ∷ es; count = c } in
      walk_all t (tree_iter t) j v es (λ i. refl) refl
        (λ n. walk_next_skip n j j v es (omega arith)) o (suc (length es)) (omega arith)

  -- For a tree in order, a walk by tree_iter() from NULL on yields every entry once, in the order
  -- of the ids, within one round more than there are entries.
  pub tree_iter-walk :
      (t : Tree V)
      → Ascending t.entries
      → walk (suc (length t.entries)) (tree_iter t) none ≡ t.entries
  tree_iter-walk t o = iter_entries t.entries t.count o
