-- ===== src/Core/Tree/NodeStore/Release.antt =====
-- Release of a node: `delete`.
use anomstream.Prelude.{
  ℕ, ◌+◌, ◌<◌, ◌^◌, ◌≡◌, inl, inr, refl, true, false, ◌∷◌, Option, none, some, length, set, arith,
  Bool-cases, length-set, ◌∙◌, sym,
}
use anomstream.Core.Error.{ok, err, out_of_bounds, ◌>>=◌}
use anomstream.Core.Slab.{slot}
use anomstream.Core.Slab.Vacant.{slot-set_self, lt_of_slot}
use anomstream.Core.Slab.FreeList.{push-IsFreeList}
use anomstream.Core.Slab.Tally.{length_of_IsFreeList, empties-add-lives}
use anomstream.Core.Tree.Node.{NodeRef, InternalData, LeafData, NodeView, is_leaf, index}
use anomstream.Core.Tree.NodeStore.{
  NodeStore, view, add_leaf, delete, live_count, live_leaf_count, live_internal_count,
}
use anomstream.Core.Tree.NodeStore.Layout.{Layout}
use anomstream.Core.Tree.NodeStore.Views.{
  view-eq-peek, peek-set_leaf, peek-set_internal, leaf_of_view, internal_of_view,
}
use anomstream.Core.Tree.NodeStore.Added.{Frame}

module _ {F : Type 0} where
  -- `s'` is `s` without the record in node `n`.
  pub record Released (s s' : NodeStore F) (n : NodeRef) : Type 0 where
    pub layout : Layout s'
    pub gone : view s' n ≡ err (out_of_bounds (index n) s.capacity)
    pub frame : Frame s s' n
    pub count : live_count s' + 1 ≡ live_count s

  abbrev without_leaf : NodeStore F → ℕ → NodeStore F
  without_leaf s i = record s { leaves = set s.leaves i none; leaf_free = i ∷ s.leaf_free }

  without_leaf-Layout :
      (s : NodeStore F) (i : ℕ) (d : LeafData)
      → Layout s
      → slot s.leaves i ≡ some d
      → Layout (without_leaf s i)
  without_leaf-Layout s i d l e = record {
    positive = l.positive;
    small = l.small;
    internals_len = l.internals_len;
    leaves_len = length-set s.leaves i none ∙ l.leaves_len;
    internal_list = l.internal_list;
    leaf_list = push-IsFreeList s.leaves i s.leaf_free d e l.leaf_list;
  }

  without_leaf-Released :
      (s : NodeStore F) (n : NodeRef) (d : LeafData)
      → Layout s
      → n.raw < 2 ^ 32
      → is_leaf n ≡ true
      → slot s.leaves (index n) ≡ some d
      → Released s (without_leaf s (index n)) n
  unfolding live_count live_leaf_count
  without_leaf-Released s n d l hn k e = record {
    layout = l';
    gone = view-eq-peek s' n l' ∙ ground (arith, slot-set_self s.leaves (index n) none below);
    frame = λ m hm ne.
        view-eq-peek s' m l'
        ∙ (rw (peek-set_leaf s.internals s.leaves n m (index n) none k refl below hm hn ne)
            (sym (view-eq-peek s m l)));
    count = omega (
      arith,
      length_of_IsFreeList s'.leaves s'.leaf_free l'.leaf_list,
      empties-add-lives s'.leaves,
      l'.leaves_len,
    );
  }
    where
      s' : NodeStore F
      s' = without_leaf s (index n)

      l' : Layout s'
      l' = without_leaf-Layout s (index n) d l e

      below : index n < length s.leaves
      below = lt_of_slot s.leaves (index n) d e

  abbrev without_internal : NodeStore F → ℕ → NodeStore F
  without_internal s i = record s {
    internals = set s.internals i none;
    internal_free = i ∷ s.internal_free;
  }

  without_internal-Layout :
      (s : NodeStore F) (i : ℕ) (d : InternalData F)
      → Layout s
      → slot s.internals i ≡ some d
      → Layout (without_internal s i)
  without_internal-Layout s i d l e = record {
    positive = l.positive;
    small = l.small;
    internals_len = length-set s.internals i none ∙ l.internals_len;
    leaves_len = l.leaves_len;
    internal_list = push-IsFreeList s.internals i s.internal_free d e l.internal_list;
    leaf_list = l.leaf_list;
  }

  without_internal-Released :
      (s : NodeStore F) (n : NodeRef) (d : InternalData F)
      → Layout s
      → n.raw < 2 ^ 32
      → is_leaf n ≡ false
      → slot s.internals (index n) ≡ some d
      → Released s (without_internal s (index n)) n
  unfolding live_count live_internal_count
  without_internal-Released s n d l hn k e = record {
    layout = l';
    gone = view-eq-peek s' n l' ∙ ground (arith, slot-set_self s.internals (index n) none below);
    frame = λ m hm ne.
        view-eq-peek s' m l'
        ∙ (rw (peek-set_internal s.internals s.leaves n m (index n) none k refl below hm hn ne)
            (sym (view-eq-peek s m l)));
    count = omega (
      arith,
      length_of_IsFreeList s'.internals s'.internal_free l'.internal_list,
      empties-add-lives s'.internals,
      l'.internals_len,
    );
  }
    where
      s' : NodeStore F
      s' = without_internal s (index n)

      l' : Layout s'
      l' = without_internal-Layout s (index n) d l e

      below : index n < length s.internals
      below = lt_of_slot s.internals (index n) d e

  -- In an arena with the layout, `delete` of a live node succeeds: the view of the node fails
  -- from then on, the view of no other node changes, the layout is kept, and one node fewer is
  -- live.
  pub delete-Released :
      (s : NodeStore F) (n : NodeRef) {v : NodeView F}
      → Layout s
      → n.raw < 2 ^ 32
      → view s n ≡ ok v
      → (s' : NodeStore F) × (delete s n ≡ ok s') × Released s s' n
  unfolding delete
  delete-Released s n {v} l hn e = elim (Bool-cases (is_leaf n)) [
    | inl k ↦
        let (d, at, same) = leaf_of_view s n v l k e in
        (
          without_leaf s (index n),
          ground (arith, lt_of_slot s.leaves (index n) d at, l.leaves_len),
          without_leaf-Released s n d l hn k at,
        )
    | inr k ↦
        let (d, at, same) = internal_of_view s n v l k e in
        (
          without_internal s (index n),
          ground (arith, lt_of_slot s.internals (index n) d at, l.internals_len),
          without_internal-Released s n d l hn k at,
        )
  ]

  -- In an arena with the layout, `add_leaf` after `delete` of a live leaf gives that leaf again,
  -- and the leaf free stack is as before the two.
  pub add_leaf-delete :
      (s : NodeStore F) (n : NodeRef) {v : NodeView F} (point_idx : ℕ) (parent : Option NodeRef)
      (mass : ℕ)
      → Layout s
      → n.raw < 2 ^ 32
      → is_leaf n ≡ true
      → view s n ≡ ok v
      → (s' : NodeStore F) × ((delete s n >>= λ t. add_leaf t point_idx parent mass) ≡ ok (n, s'))
        × (s'.leaf_free ≡ s.leaf_free)
  unfolding delete add_leaf
  add_leaf-delete s n {v} point_idx parent mass l hn k e =
      let (d, at, same) = leaf_of_view s n v l k e in
      (
        record s { leaves = set (set s.leaves (index n) none) (index n) (some node) },
        ground (arith, at, lt_of_slot s.leaves (index n) d at, l.leaves_len),
        refl,
      )
    where
      node : LeafData
      node = record { point_idx = point_idx; parent = parent; mass = mass }
