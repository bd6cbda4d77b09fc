-- ===== src/Core/Tree/NodeStore/Update.antt =====
-- Writes to live nodes: the setters.
use anomstream.Prelude.{
  ℕ, ◌<◌, ◌^◌, ◌≡◌, inl, inr, refl, true, false, Option, some, length, set, arith, Bool-cases,
  length-set, ◌∙◌, sym,
}
use anomstream.Core.Error.{ok}
use anomstream.Core.Domain.{Cut, BoundingBox}
use anomstream.Core.Slab.{slot}
use anomstream.Core.Slab.Vacant.{slot-set_self, lt_of_slot}
use anomstream.Core.Slab.FreeList.{write-IsFreeList}
use anomstream.Core.Tree.Node.{
  NodeRef, InternalData, LeafData, NodeView, internal_view, leaf_view, is_leaf, index,
}
use anomstream.Core.Tree.NodeStore.{
  NodeStore, view, leaf, update_leaf, live_count, with_parent, with_mass, update_view, set_parent,
  set_mass, set_internal_bbox, set_internal_children, set_internal_cut,
}
use anomstream.Core.Tree.NodeStore.Layout.{Layout}
use anomstream.Core.Tree.NodeStore.Views.{
  leaf_of_view, internal_of_view, kind_of_internal, kind_of_leaf, view-eq-peek, peek-set_leaf,
  peek-set_internal,
}
use anomstream.Core.Tree.NodeStore.Added.{Frame}

module _ {F : Type 0} where
  -- `s'` is `s` with the record `v` in node `n`, which was live before.
  pub record Written (s s' : NodeStore F) (n : NodeRef) (v : NodeView F) : Type 0 where
    pub layout : Layout s'
    pub holds : view s' n ≡ ok v
    pub frame : Frame s s' n
    pub count : live_count s' ≡ live_count s

  abbrev put_leaf : NodeStore F → ℕ → LeafData → NodeStore F
  put_leaf s i d = record s { leaves = set s.leaves i (some d) }

  put_leaf-Layout :
      (s : NodeStore F) (i : ℕ) (c d : LeafData)
      → Layout s
      → slot s.leaves i ≡ some c
      → Layout (put_leaf s i d)
  put_leaf-Layout s i c d l e = record {
    positive = l.positive;
    small = l.small;
    internals_len = l.internals_len;
    leaves_len = length-set s.leaves i (some d) ∙ l.leaves_len;
    internal_list = l.internal_list;
    leaf_list = write-IsFreeList s.leaves i s.leaf_free c d e l.leaf_list;
  }

  put_leaf-Written :
      (s : NodeStore F) (n : NodeRef) (c d : LeafData)
      → Layout s
      → n.raw < 2 ^ 32
      → is_leaf n ≡ true
      → slot s.leaves (index n) ≡ some c
      → Written s (put_leaf s (index n) d) n (leaf_view d)
  unfolding live_count
  put_leaf-Written s n c d l hn k e = record {
    layout = l';
    holds = view-eq-peek s' n l' ∙ ground (arith, slot-set_self s.leaves (index n) (some d) below);
    frame = λ m hm ne.
        view-eq-peek s' m l'
        ∙ (rw (peek-set_leaf s.internals s.leaves n m (index n) (some d) k refl below hm hn ne)
            (sym (view-eq-peek s m l)));
    count = refl;
  }
    where
      s' : NodeStore F
      s' = put_leaf s (index n) d

      l' : Layout s'
      l' = put_leaf-Layout s (index n) c d l e

      below : index n < length s.leaves
      below = lt_of_slot s.leaves (index n) c e

  abbrev put_internal : NodeStore F → ℕ → InternalData F → NodeStore F
  put_internal s i d = record s { internals = set s.internals i (some d) }

  put_internal-Layout :
      (s : NodeStore F) (i : ℕ) (c d : InternalData F)
      → Layout s
      → slot s.internals i ≡ some c
      → Layout (put_internal s i d)
  put_internal-Layout s i c d l e = record {
    positive = l.positive;
    small = l.small;
    internals_len = length-set s.internals i (some d) ∙ l.internals_len;
    leaves_len = l.leaves_len;
    internal_list = write-IsFreeList s.internals i s.internal_free c d e l.internal_list;
    leaf_list = l.leaf_list;
  }

  put_internal-Written :
      (s : NodeStore F) (n : NodeRef) (c d : InternalData F)
      → Layout s
      → n.raw < 2 ^ 32
      → is_leaf n ≡ false
      → slot s.internals (index n) ≡ some c
      → Written s (put_internal s (index n) d) n (internal_view d)
  unfolding live_count
  put_internal-Written s n c d l hn k e = record {
    layout = l';
    holds =
        view-eq-peek s' n l' ∙ ground (arith, slot-set_self s.internals (index n) (some d) below);
    frame = λ m hm ne.
        view-eq-peek s' m l'
        ∙ (rw (peek-set_internal s.internals s.leaves n m (index n) (some d) k refl below hm hn ne)
            (sym (view-eq-peek s m l)));
    count = refl;
  }
    where
      s' : NodeStore F
      s' = put_internal s (index n) d

      l' : Layout s'
      l' = put_internal-Layout s (index n) c d l e

      below : index n < length s.internals
      below = lt_of_slot s.internals (index n) c e

  -- In an arena with the layout, `set_parent` of a live node changes its parent and no other
  -- view, keeps the layout and keeps the number of live nodes.
  pub set_parent-Written :
      (s : NodeStore F) (n : NodeRef) (p : Option NodeRef) {v : NodeView F}
      → Layout s
      → n.raw < 2 ^ 32
      → view s n ≡ ok v
      → (s' : NodeStore F) × (set_parent s n p ≡ ok s') × Written s s' n (with_parent p v)
  unfolding set_parent
  set_parent-Written s n p {v} l hn e = elim (Bool-cases (is_leaf n)) [
    | inl k ↦
        let (d, at, same) = leaf_of_view s n v l k e in
        (
          put_leaf s (index n) (record d { parent = p }),
          rw (e, same),
          rw same (put_leaf-Written s n d (record d { parent = p }) l hn k at),
        )
    | inr k ↦
        let (d, at, same) = internal_of_view s n v l k e in
        (
          put_internal s (index n) (record d { parent = p }),
          rw (e, same),
          rw same (put_internal-Written s n d (record d { parent = p }) l hn k at),
        )
  ]

  -- In an arena with the layout, `set_mass` of a live node changes its mass and no other view,
  -- keeps the layout and keeps the number of live nodes.
  pub set_mass-Written :
      (s : NodeStore F) (n : NodeRef) (m : ℕ) {v : NodeView F}
      → Layout s
      → n.raw < 2 ^ 32
      → view s n ≡ ok v
      → (s' : NodeStore F) × (set_mass s n m ≡ ok s') × Written s s' n (with_mass m v)
  unfolding set_mass
  set_mass-Written s n m {v} l hn e = elim (Bool-cases (is_leaf n)) [
    | inl k ↦
        let (d, at, same) = leaf_of_view s n v l k e in
        (
          put_leaf s (index n) (record d { mass = m }),
          rw (e, same),
          rw same (put_leaf-Written s n d (record d { mass = m }) l hn k at),
        )
    | inr k ↦
        let (d, at, same) = internal_of_view s n v l k e in
        (
          put_internal s (index n) (record d { mass = m }),
          rw (e, same),
          rw same (put_internal-Written s n d (record d { mass = m }) l hn k at),
        )
  ]

  -- In an arena with the layout, the setters of the box, the children and the cut of a live
  -- internal node change that field and no other view, keep the layout and keep the number of
  -- live nodes.
  pub set_internal-Written :
      (s : NodeStore F) (n : NodeRef) {d : InternalData F} (b : BoundingBox F) (l r : NodeRef)
      (c : Cut F)
      → Layout s
      → n.raw < 2 ^ 32
      → view s n ≡ ok (internal_view d)
      → ((s' : NodeStore F) × (set_internal_bbox s n b ≡ ok s')
          × Written s s' n (internal_view (record d { bbox = b })))
        × ((s' : NodeStore F) × (set_internal_children s n l r ≡ ok s')
            × Written s s' n (internal_view (record d { left = l; right = r })))
        × ((s' : NodeStore F) × (set_internal_cut s n c ≡ ok s')
            × Written s s' n (internal_view (record d { cut = c })))
  unfolding set_internal_bbox set_internal_children set_internal_cut
  set_internal-Written s n {d} b l r c w hn e =
      let (k, at) = kind_of_internal s n d e in
      (
        (
          put_internal s (index n) (record d { bbox = b }),
          ground (arith, lt_of_slot s.internals (index n) d at, w.internals_len),
          put_internal-Written s n d (record d { bbox = b }) w hn k at,
        ),
        (
          put_internal s (index n) (record d { left = l; right = r }),
          ground (arith, lt_of_slot s.internals (index n) d at, w.internals_len),
          put_internal-Written s n d (record d { left = l; right = r }) w hn k at,
        ),
        (
          put_internal s (index n) (record d { cut = c }),
          ground (arith, lt_of_slot s.internals (index n) d at, w.internals_len),
          put_internal-Written s n d (record d { cut = c }) w hn k at,
        ),
      )

  -- A live internal node written through `view_mut`.
  pub put_internal_view-Written :
      (s : NodeStore F) (n : NodeRef) {d : InternalData F} (d' : InternalData F)
      → Layout s
      → n.raw < 2 ^ 32
      → view s n ≡ ok (internal_view d)
      → (s' : NodeStore F) × (update_view s n (λ _. internal_view d') ≡ ok s')
        × Written s s' n (internal_view d')
  unfolding update_view
  put_internal_view-Written s n {d} d' w hn e =
      let (k, at) = kind_of_internal s n d e in
      (put_internal s (index n) d', rw e refl, put_internal-Written s n d d' w hn k at)

  -- A live leaf read and written through `leaf` and `leaf_mut`.
  pub update_leaf-Written :
      (s : NodeStore F) (n : NodeRef) (f : LeafData → LeafData) {d : LeafData}
      → Layout s
      → n.raw < 2 ^ 32
      → view s n ≡ ok (leaf_view d)
      → (leaf s n ≡ ok d)
        × ((s' : NodeStore F) × (update_leaf s n f ≡ ok s') × Written s s' n (leaf_view (f d)))
  unfolding leaf update_leaf
  update_leaf-Written s n f {d} w hn e =
      let (k, at) = kind_of_leaf s n d e in
      (
        ground (arith, k, at, lt_of_slot s.leaves (index n) d at, w.leaves_len),
        (
          put_leaf s (index n) (f d),
          ground (arith, k, at, lt_of_slot s.leaves (index n) d at, w.leaves_len),
          put_leaf-Written s n d (f d) w hn k at,
        ),
      )
