-- ===== src/Core/Tree/NodeStore/Views.antt =====
-- What `view` reads after a write to the arenas.
use mathlib.Core.Option
use anomstream.Prelude.{
  ℕ, ◌<◌, ◌^◌, ◌≡◌, ◌≢◌, refl, inl, inr, true, false, List, Option, some, length, set,
  if◌then◌else◌, arith, Option-cases,
}
use anomstream.Core.Error.{ok, out_of_bounds}
use anomstream.Core.Slab.{slot}
use anomstream.Core.Slab.Vacant.{slot_outside, slot-set}
use anomstream.Core.Tree.Node.{
  NodeRef, InternalData, LeafData, NodeView, internal_view, leaf_view, is_leaf, index, view_parent,
  eq_of_parts,
}
use anomstream.Core.Tree.NodeStore.{NodeStore, ok_or, parent, view}
use anomstream.Core.Tree.NodeStore.Layout.{Layout}

module _ {F : Type 0} where
  -- The record that a reference names in the two arenas.
  abbrev pub peek :
      List (Option (InternalData F)) → List (Option LeafData) → NodeRef → Option (NodeView F)
  peek internals leaves n =
      if is_leaf n
      then Option.map leaf_view (slot leaves (index n))
      else Option.map internal_view (slot internals (index n))

  abbrev pub peek_store : NodeStore F → NodeRef → Option (NodeView F)
  peek_store s n = peek s.internals s.leaves n

  pub view-eq-peek :
      (s : NodeStore F) (n : NodeRef)
      → Layout s
      → view s n ≡ ok_or (peek_store s n) (out_of_bounds (index n) s.capacity)
  unfolding view
  view-eq-peek s n l =
      ground (arith, slot_outside s.leaves (index n), slot_outside s.internals (index n))

  -- A write to the leaf arena is seen through one reference only.
  pub peek-set_leaf :
      (internals : List (Option (InternalData F))) (leaves : List (Option LeafData)) (n m : NodeRef)
      (i : ℕ) (v : Option LeafData)
      → is_leaf n ≡ true
      → index n ≡ i
      → i < length leaves
      → m.raw < 2 ^ 32
      → n.raw < 2 ^ 32
      → m ≢ n
      → peek internals (set leaves i v) m ≡ peek internals leaves m
  peek-set_leaf internals leaves n m i v k e h hm hn ne =
      ground (arith, slot-set leaves i (index m) v h, eq_of_parts m n hm hn)

  pub peek-set_internal :
      (internals : List (Option (InternalData F))) (leaves : List (Option LeafData)) (n m : NodeRef)
      (i : ℕ) (v : Option (InternalData F))
      → is_leaf n ≡ false
      → index n ≡ i
      → i < length internals
      → m.raw < 2 ^ 32
      → n.raw < 2 ^ 32
      → m ≢ n
      → peek (set internals i v) leaves m ≡ peek internals leaves m
  peek-set_internal internals leaves n m i v k e h hm hn ne =
      ground (arith, slot-set internals i (index m) v h, eq_of_parts m n hm hn)

  -- What a live view says of the arenas.
  pub leaf_of_view :
      (s : NodeStore F) (n : NodeRef) (v : NodeView F)
      → Layout s
      → is_leaf n ≡ true
      → view s n ≡ ok v
      → (d : LeafData) × (slot s.leaves (index n) ≡ some d) × (v ≡ leaf_view d)
  unfolding view
  leaf_of_view s n v l k e = ground arith

  pub internal_of_view :
      (s : NodeStore F) (n : NodeRef) (v : NodeView F)
      → Layout s
      → is_leaf n ≡ false
      → view s n ≡ ok v
      → (d : InternalData F) × (slot s.internals (index n) ≡ some d) × (v ≡ internal_view d)
  unfolding view
  internal_of_view s n v l k e = elim (Option-cases (slot s.internals (index n))) [
    | inl empty ↦ absurd (ground (arith, empty))
    | inr (d, at) ↦ (d, at, ground (arith, at))
  ]

  pub kind_of_internal :
      (s : NodeStore F) (n : NodeRef) (d : InternalData F)
      → view s n ≡ ok (internal_view d)
      → (is_leaf n ≡ false) × (slot s.internals (index n) ≡ some d)
  unfolding view
  kind_of_internal s n d e = ground arith

  pub kind_of_leaf :
      (s : NodeStore F) (n : NodeRef) (d : LeafData)
      → view s n ≡ ok (leaf_view d)
      → (is_leaf n ≡ true) × (slot s.leaves (index n) ≡ some d)
  unfolding view
  kind_of_leaf s n d e = ground arith

  pub parent-view :
      (s : NodeStore F) (n : NodeRef) {v : NodeView F}
      → view s n ≡ ok v
      → parent s n ≡ ok (view_parent v)
  unfolding parent
  parent-view s n e = rw e refl
