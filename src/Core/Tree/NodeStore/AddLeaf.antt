-- ===== src/Core/Tree/NodeStore/AddLeaf.antt =====
-- Allocation of a leaf.
use anomstream.Prelude.{
  ℕ, ◌+◌, ◌<◌, ◌≡◌, ◌⊎◌, inl, inr, refl, true, List, [], ◌∷◌, Option, some, length, set, arith,
  length-set, sym, ap, ◌∙◌,
}
use anomstream.Core.Error.{ok, err, invalid_config}
use anomstream.Core.Slab.{IsFreeList}
use anomstream.Core.Slab.Vacant.{slot-set_self}
use anomstream.Core.Slab.FreeList.{pop_vacant, pop-IsFreeList}
use anomstream.Core.Slab.Tally.{length_of_IsFreeList, empties-add-lives}
use anomstream.Core.Tree.Node
use anomstream.Core.Tree.Node.{
  NodeRef, InternalData, LeafData, NodeView, internal_view, leaf_view, is_leaf, index, index_mask,
}
use anomstream.Core.Tree.NodeStore.{
  NodeStore, pop_leaf, add_leaf, live_leaf_count, live_internal_count,
}
use anomstream.Core.Tree.NodeStore.Layout.{Layout}
use anomstream.Core.Tree.NodeStore.Views.{view-eq-peek, peek-set_leaf}
use anomstream.Core.Tree.NodeStore.Added.{Added}

module _ {F : Type 0} where
  abbrev with_leaf : NodeStore F → ℕ → List ℕ → LeafData → NodeStore F
  with_leaf s i free d = record s { leaves = set s.leaves i (some d); leaf_free = free }

  with_leaf-Layout :
      (s : NodeStore F) (i : ℕ) (free : List ℕ) (d : LeafData)
      → Layout s
      → IsFreeList s.leaves (i ∷ free)
      → Layout (with_leaf s i free d)
  with_leaf-Layout s i free d l h = record {
    positive = l.positive;
    small = l.small;
    internals_len = l.internals_len;
    leaves_len = length-set s.leaves i (some d) ∙ l.leaves_len;
    internal_list = l.internal_list;
    leaf_list = pop-IsFreeList s.leaves i free d h;
  }

  with_leaf-Added :
      (s : NodeStore F) (i : ℕ) (free : List ℕ) (d : LeafData)
      → Layout s
      → IsFreeList s.leaves (i ∷ free)
      → Added s (with_leaf s i free d) (Node.leaf i) (leaf_view d)
  with_leaf-Added s i free d l h = record {
    layout = l';
    word = omega arith;
    fresh =
        view-eq-peek s (Node.leaf i) l
        ∙ ground (arith, pop_vacant s.leaves i free h, l.leaves_len, l.small);
    holds =
        view-eq-peek s' (Node.leaf i) l'
        ∙ ground (arith, slot-set_self s.leaves i (some d) below, below, l.leaves_len, l.small);
    frame = λ m hm ne.
        view-eq-peek s' m l'
        ∙ (rw
            (peek-set_leaf s.internals s.leaves (Node.leaf i) m i (some d) (ground arith)
              (omega (arith, below, l.leaves_len, l.small)) below hm (omega arith) ne)
            (sym (view-eq-peek s m l)));
  }
    where
      s' : NodeStore F
      s' = with_leaf s i free d

      l' : Layout s'
      l' = with_leaf-Layout s i free d l h

      below : i < length s.leaves
      below = (pop_vacant s.leaves i free h).0

  live_leaf_count-with_leaf :
      (s : NodeStore F) (i : ℕ) (free : List ℕ) (d : LeafData)
      → Layout s
      → s.leaf_free ≡ i ∷ free
      → live_leaf_count (with_leaf s i free d) ≡ live_leaf_count s + 1
  unfolding live_leaf_count
  live_leaf_count-with_leaf s i free d l e = omega (
    arith,
    ap length e,
    length_of_IsFreeList s.leaves s.leaf_free l.leaf_list,
    empties-add-lives s.leaves,
    l.leaves_len,
  )

  -- In an arena with the layout, `add_leaf` fails only if every leaf slot is live. Otherwise it
  -- puts the new leaf in a leaf node that was free, changes the view of no other node, keeps the
  -- layout, and counts one leaf more.
  pub add_leaf_lem :
      (s : NodeStore F) (point_idx : ℕ) (parent : Option NodeRef) (mass : ℕ)
      → Layout s
      → ((add_leaf s point_idx parent mass ≡ err invalid_config) × (live_leaf_count s ≡ s.capacity))
        ⊎ ((n : NodeRef) × (s' : NodeStore F) × (add_leaf s point_idx parent mass ≡ ok (n, s'))
            × (is_leaf n ≡ true)
            × Added s s' n
                (leaf_view (record { point_idx = point_idx; parent = parent; mass = mass }))
            × (live_leaf_count s' ≡ live_leaf_count s + 1))
  unfolding add_leaf live_leaf_count
  add_leaf_lem s point_idx parent mass l = go s.leaf_free refl
    where
      d : LeafData
      d = record { point_idx = point_idx; parent = parent; mass = mass }

      go :
          (free : List ℕ)
          → s.leaf_free ≡ free
          → ((pop_leaf s free d ≡ err invalid_config) × (live_leaf_count s ≡ s.capacity))
            ⊎ ((n : NodeRef) × (s' : NodeStore F) × (pop_leaf s free d ≡ ok (n, s'))
                × (is_leaf n ≡ true)
                × Added s s' n (leaf_view d)
                × (live_leaf_count s' ≡ live_leaf_count s + 1))
      go [] e = inl (refl, omega (arith, ap length e))
      go (i ∷ free) e = inr (
        Node.leaf i,
        with_leaf s i free d,
        refl,
        ground arith,
        with_leaf-Added s i free d l h,
        live_leaf_count-with_leaf s i free d l e,
      )
        where
          h : IsFreeList s.leaves (i ∷ free)
          h = rw e at l.leaf_list

  pop_leaf_other :
      (s : NodeStore F) (free : List ℕ) (node : LeafData) {n : NodeRef} {s' : NodeStore F}
      → pop_leaf s free node ≡ ok (n, s')
      → (live_internal_count s' ≡ live_internal_count s) × (s'.capacity ≡ s.capacity)
  unfolding pop_leaf live_internal_count
  pop_leaf_other s [] node e = cc
  pop_leaf_other s (idx ∷ free) node e = ground (arith, e)

  -- An allocation of a leaf leaves the free internal slots alone.
  pub add_leaf_other :
      (s : NodeStore F) (point_idx : ℕ) (parent : Option NodeRef) (mass : ℕ) {n : NodeRef}
      {s' : NodeStore F}
      → add_leaf s point_idx parent mass ≡ ok (n, s')
      → (live_internal_count s' ≡ live_internal_count s) × (s'.capacity ≡ s.capacity)
  unfolding add_leaf
  add_leaf_other s point_idx parent mass e =
      pop_leaf_other s s.leaf_free (record { point_idx = point_idx; parent = parent; mass = mass })
        e
