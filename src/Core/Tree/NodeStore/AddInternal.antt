-- ===== src/Core/Tree/NodeStore/AddInternal.antt =====
-- Allocation of an internal node.
use anomstream.Prelude.{
  ℕ, ◌+◌, ◌<◌, ◌≡◌, ◌⊎◌, inl, inr, refl, false, List, [], ◌∷◌, Option, some, length, set, arith,
  length-set, sym, ap, ◌∙◌,
}
use anomstream.Core.Error.{ok, err, invalid_config}
use anomstream.Core.Domain.{Cut, BoundingBox}
use anomstream.Core.Slab.{IsFreeList}
use anomstream.Core.Slab.Vacant.{slot-set_self}
use anomstream.Core.Slab.FreeList.{pop_vacant, pop-IsFreeList}
use anomstream.Core.Slab.Tally.{length_of_IsFreeList, empties-add-lives}
use anomstream.Core.Tree.Node
use anomstream.Core.Tree.Node.{
  NodeRef, InternalData, LeafData, NodeView, internal_view, leaf_view, is_leaf, index, index_mask,
}
use anomstream.Core.Tree.NodeStore.{NodeStore, pop_internal, add_internal, live_internal_count}
use anomstream.Core.Tree.NodeStore.Layout.{Layout}
use anomstream.Core.Tree.NodeStore.Views.{view-eq-peek, peek-set_internal}
use anomstream.Core.Tree.NodeStore.Added.{Added}

module _ {F : Type 0} where
  abbrev with_internal : NodeStore F → ℕ → List ℕ → (InternalData F) → NodeStore F
  with_internal s i free d = record s {
    internals = set s.internals i (some d);
    internal_free = free;
  }

  with_internal-Layout :
      (s : NodeStore F) (i : ℕ) (free : List ℕ) (d : (InternalData F))
      → Layout s
      → IsFreeList s.internals (i ∷ free)
      → Layout (with_internal s i free d)
  with_internal-Layout s i free d l h = record {
    positive = l.positive;
    small = l.small;
    leaves_len = l.leaves_len;
    internals_len = length-set s.internals i (some d) ∙ l.internals_len;
    leaf_list = l.leaf_list;
    internal_list = pop-IsFreeList s.internals i free d h;
  }

  with_internal-Added :
      (s : NodeStore F) (i : ℕ) (free : List ℕ) (d : (InternalData F))
      → Layout s
      → IsFreeList s.internals (i ∷ free)
      → Added s (with_internal s i free d) (Node.internal i) (internal_view d)
  with_internal-Added s i free d l h = record {
    layout = l';
    word = omega (arith, below, l.internals_len, l.small);
    fresh =
        view-eq-peek s (Node.internal i) l
        ∙ ground (arith, pop_vacant s.internals i free h, l.internals_len, l.small);
    holds =
        view-eq-peek s' (Node.internal i) l'
        ∙ ground
            (arith, slot-set_self s.internals i (some d) below, below, l.internals_len, l.small);
    frame = λ m hm ne.
        view-eq-peek s' m l'
        ∙ (rw
            (peek-set_internal s.internals s.leaves (Node.internal i) m i (some d)
              (ground (arith, below, l.internals_len, l.small))
              (omega (arith, below, l.internals_len, l.small)) below hm
              (omega (arith, below, l.internals_len, l.small)) ne)
            (sym (view-eq-peek s m l)));
  }
    where
      s' : NodeStore F
      s' = with_internal s i free d

      l' : Layout s'
      l' = with_internal-Layout s i free d l h

      below : i < length s.internals
      below = (pop_vacant s.internals i free h).0

  live_internal_count-with_internal :
      (s : NodeStore F) (i : ℕ) (free : List ℕ) (d : (InternalData F))
      → Layout s
      → s.internal_free ≡ i ∷ free
      → live_internal_count (with_internal s i free d) ≡ live_internal_count s + 1
  unfolding live_internal_count
  live_internal_count-with_internal s i free d l e = omega (
    arith,
    ap length e,
    length_of_IsFreeList s.internals s.internal_free l.internal_list,
    empties-add-lives s.internals,
    l.internals_len,
  )

  -- In an arena with the layout, `add_internal` fails only if every internal slot is live.
  -- Otherwise it puts the new node in an internal node that was free, changes the view of no
  -- other node, keeps the layout, and counts one internal node more.
  pub add_internal_lem :
      (s : NodeStore F) (cut : Cut F) (bbox : BoundingBox F) (left right : NodeRef)
      (parent : Option NodeRef) (mass : ℕ)
      → Layout s
      → ((add_internal s cut bbox left right parent mass ≡ err invalid_config)
          × (live_internal_count s ≡ s.capacity))
        ⊎ ((n : NodeRef) × (s' : NodeStore F) × (add_internal s cut bbox left right parent mass
              ≡ ok (n, s'))
            × (is_leaf n ≡ false)
            × Added s s' n (
                internal_view (record {
                  cut = cut;
                  bbox = bbox;
                  left = left;
                  right = right;
                  parent = parent;
                  mass = mass;
                }))
            × (live_internal_count s' ≡ live_internal_count s + 1))
  unfolding add_internal live_internal_count
  add_internal_lem s cut bbox left right parent mass l = go s.internal_free refl
    where
      d : (InternalData F)
      d = record {
        cut = cut;
        bbox = bbox;
        left = left;
        right = right;
        parent = parent;
        mass = mass;
      }

      go :
          (free : List ℕ)
          → s.internal_free ≡ free
          → ((pop_internal s free d ≡ err invalid_config) × (live_internal_count s ≡ s.capacity))
            ⊎ ((n : NodeRef) × (s' : NodeStore F) × (pop_internal s free d ≡ ok (n, s'))
                × (is_leaf n ≡ false)
                × Added s s' n (internal_view d)
                × (live_internal_count s' ≡ live_internal_count s + 1))
      go [] e = inl (refl, omega (arith, ap length e))
      go (i ∷ free) e = inr (
        Node.internal i,
        with_internal s i free d,
        refl,
        ground (arith, (pop_vacant s.internals i free h).0, l.internals_len, l.small),
        with_internal-Added s i free d l h,
        live_internal_count-with_internal s i free d l e,
      )
        where
          h : IsFreeList s.internals (i ∷ free)
          h = rw e at l.internal_list
