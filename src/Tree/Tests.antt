-- ===== src/Tree/Tests.antt =====
-- usr.sbin/smtpd/tree.c: trees of two entries at which the theorems are applied.
use open_smtpd.Base.{ℕ, ◌≡◌, refl, none, some, [], ◌∷◌, ◌==◌, if◌then◌else◌, arith}
use open_smtpd.Tree.{
  Tree, find_entry, insert_entry, merge_entries, tree_get, tree_set, tree_pop, tree_merge,
  tree_iter,
}
use open_smtpd.Tree.Order.{IsTree, tree_set_lem, tree_pop_lem, tree_merge_lem}
use open_smtpd.Tree.Iteration.{walk, tree_iter-walk}

abbrev two : Tree ℕ
two = record { entries = (3, 30) ∷ (5, 50) ∷ []; count = 2 }

abbrev other : Tree ℕ
other = record { entries = (4, 40) ∷ []; count = 1 }

abbrev three : Tree ℕ
three = record { entries = (3, 30) ∷ (4, 40) ∷ (5, 50) ∷ []; count = 3 }

two-IsTree : IsTree two
two-IsTree = record { order = ((omega arith, tt), (tt, tt)); counted = refl }

other-IsTree : IsTree other
other-IsTree = record { order = (tt, tt); counted = refl }

two-other : tree_merge two other ≡ some three
unfolding tree_merge merge_entries find_entry insert_entry
two-other = refl

tree_set_lem_example :
    IsTree (tree_set two 5 51).0
    × ((j : ℕ) → tree_get (tree_set two 5 51).0 j ≡ (if 5 == j then some 51 else tree_get two j))
    × ((tree_set two 5 51).1 ≡ tree_get two 5)
tree_set_lem_example = tree_set_lem two 5 51 two-IsTree

tree_pop_lem_example :
    IsTree (tree_pop two 3).0
    × ((j : ℕ) → tree_get (tree_pop two 3).0 j ≡ (if 3 == j then none else tree_get two j))
    × ((tree_pop two 3).1 ≡ tree_get two 3)
tree_pop_lem_example = tree_pop_lem two 3 two-IsTree

tree_merge_lem_example :
    IsTree three
    × ((j : ℕ)
        → tree_get three j ≡ elim (tree_get other j) [ none ↦ tree_get two j | some v ↦ some v ])
tree_merge_lem_example = tree_merge_lem two other two-IsTree other-IsTree two-other

tree_iter-walk_example : walk 3 (tree_iter two) none ≡ two.entries
tree_iter-walk_example = tree_iter-walk two two-IsTree.order
