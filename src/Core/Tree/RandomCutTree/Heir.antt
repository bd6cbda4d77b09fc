-- ===== src/Core/Tree/RandomCutTree/Heir.antt =====
-- The reverse index of a removal: an entry cleared, and the point that a leaf moves to.
use anomstream.Prelude.{
  ℕ, suc, ◌+◌, ◌-◌, ◌≤◌, ◌≡◌, ◌≢◌, refl, ap, true, not, ◌&&◌, List, [], ◌∷◌, Option, none, some,
  ◌==◌, if◌then◌else◌, arith, Bool-cases, inl, inr,
}
use anomstream.Core.Slab.{slot, lives}
use anomstream.Core.Slab.Vacant.{slot-set_self, slot-set_ne, lt_of_slot}
use anomstream.Core.Tree.Node.{NodeRef}
use anomstream.Core.Tree.RandomCutTree.{
  RandomCutTree, same_ref, is_none, leaf_index_get, leaf_index_clear,
}
use anomstream.Core.Tree.NodeStore.{NodeStore}
use anomstream.Core.Tree.RandomCutTree.Holds.{eq_of_same_ref}
use anomstream.Core.Tree.RandomCutTree.Index.{mapped, mapped-set-none}
use anomstream.Core.Tree.RandomCutTree.Delete.{names, position, heir_of}

names_lem : (x : Option NodeRef) (n : NodeRef) → names x n ≡ true → x ≡ some n
names_lem none n h = absurd (cc h)
names_lem (some m) n h = ap some (eq_of_same_ref m n h)

position_lem :
    (n : NodeRef) (xs : List (Option NodeRef))
    → 1 ≤ mapped xs n
    → (j : ℕ) × (position n xs ≡ some j) × (slot xs j ≡ some n)
unfolding position mapped
position_lem n [] h = absurd (omega (arith, h))
position_lem n (none ∷ xs) h = let (j, e, s) = position_lem n xs h in (suc j, rw e refl, s)
position_lem n (some m ∷ xs) h = elim (Bool-cases (same_ref m n)) [
  | inl q ↦ (0, rw q refl, ap some (eq_of_same_ref m n q))
  | inr q ↦ let (j, e, s) = position_lem n xs (ground (arith, h, q)) in (suc j, rw (q, e) refl, s)
]

module _ {F : Type 0} where
  -- A node that has an entry has an heir, which is mapped to it.
  pub heir_of_lem :
      (survivors : List ℕ) (idx : ℕ) (n : NodeRef) (t : RandomCutTree F)
      → 1 ≤ mapped t.leaf_index n
      → (h : ℕ) × (heir_of survivors idx n t ≡ some h) × (leaf_index_get t h ≡ some n)
  unfolding heir_of leaf_index_get
  heir_of_lem [] idx n t m = position_lem n t.leaf_index m
  heir_of_lem (i ∷ survivors) idx n t m =
      let (h, e, s) = heir_of_lem survivors idx n t m in
      elim (Bool-cases (not (i == idx) && names (slot t.leaf_index i) n)) [
        | inl q ↦ (i, rw q refl, names_lem (slot t.leaf_index i) n (ground (arith, q)))
        | inr q ↦ (h, rw q e, s)
      ]

  -- One entry less.
  pub leaf_index_clear_lem :
      (t : RandomCutTree F) (i : ℕ) (n : NodeRef)
      → leaf_index_get t i ≡ some n
      → let t' = leaf_index_clear i t in
        (leaf_index_get t' i ≡ none)
        × ((j : ℕ) → i ≢ j → leaf_index_get t' j ≡ leaf_index_get t j)
        × (t'.distinct_count ≡ t.distinct_count - 1)
        × (lives t'.leaf_index + 1 ≡ lives t.leaf_index)
        × ((k : NodeRef)
            → mapped t'.leaf_index k + (if same_ref n k then 1 else 0) ≡ mapped t.leaf_index k)
  unfolding leaf_index_get leaf_index_clear
  leaf_index_clear_lem t i n e =
      let (names, live) = mapped-set-none t.leaf_index i n e in
      rw e (
        slot-set_self t.leaf_index i none (lt_of_slot t.leaf_index i n e),
        λ j ne. slot-set_ne t.leaf_index i j none ne,
        refl,
        live,
        names,
      )

  -- The arena is nothing to the index.
  pub leaf_index_clear_eq :
      (t : RandomCutTree F) (s : NodeStore F) (i : ℕ)
      → (leaf_index_clear i (record t { store = s })) ≡ record (leaf_index_clear i t) { store = s }
  unfolding leaf_index_clear
  leaf_index_clear_eq t s i = elim (Bool-cases (is_none (slot t.leaf_index i))) [
    | inl e ↦ rw e refl
    | inr e ↦ rw e refl
  ]

  pub root-leaf_index_clear : (t : RandomCutTree F) (i : ℕ) → (leaf_index_clear i t).root ≡ t.root
  unfolding leaf_index_clear
  root-leaf_index_clear t i = elim (Bool-cases (is_none (slot t.leaf_index i))) [
    | inl e ↦ rw e refl
    | inr e ↦ rw e refl
  ]
