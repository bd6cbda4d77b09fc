-- ===== src/Core/Tree/NodeStore.antt =====
-- The arena of a tree's nodes: core/src/tree/node_store.rs. A free stack is a list with its top in
-- front, where the source has a `Vec` with its top at the end. An operation that changes the store
-- returns the new one; on an error the store is as before.
pub mod Validate
pub mod Layout
pub mod Views
pub mod Fresh
pub mod Added
pub mod AddLeaf
pub mod AddInternal
pub mod Release
pub mod Update
mod Tests
use mathlib.Core.Option
use anomstream.Prelude.{
  ℕ, zero, suc, ◌+◌, ◌-◌, ◌≡◌, Bool, true, false, ◌&&◌, ◌||◌, not, List, [], ◌∷◌, Option, none,
  some, length, get_elem?, get_or, set, replicate, ltb, leb, ◌==◌, if◌then◌else◌,
}
use anomstream.Core.Error.{
  RcfError, RcfResult, ok, err, invalid_config, out_of_bounds, deserialization_failed, ◌>>=◌, ◌>>◌,
}
use anomstream.Core.Domain.{Cut, BoundingBox}
use anomstream.Core.Slab.{slot, empties}
use anomstream.Core.Slab.FreeList.{ascending}
use anomstream.Core.Tree.Node
use anomstream.Core.Tree.Node.{
  NodeRef, InternalData, LeafData, NodeView, internal_view, leaf_view, index_mask, is_leaf, index,
  view_parent,
}

pub record NodeStore (F : Type 0) : Type 0 where
  pub internals : List (Option (InternalData F))
  pub leaves : List (Option LeafData)
  pub internal_free : List ℕ
  pub leaf_free : List ℕ
  pub capacity : ℕ

-- `Option::ok_or`
abbrev pub ok_or : {A : Type 0} → Option A → RcfError → RcfResult A
ok_or none e = err e
ok_or (some a) e = ok a

module _ {F : Type 0} where
  unfoldable pub new : ℕ → RcfResult (NodeStore F)
  new capacity =
      if capacity == 0
      then err invalid_config
      else if ltb index_mask capacity
      then err invalid_config
      else ok (record {
        internals = replicate capacity none;
        leaves = replicate capacity none;
        internal_free = ascending 0 capacity;
        leaf_free = ascending 0 capacity;
        capacity = capacity;
      })

  unfoldable pub live_internal_count : NodeStore F → ℕ
  live_internal_count s = s.capacity - length s.internal_free

  unfoldable pub live_leaf_count : NodeStore F → ℕ
  live_leaf_count s = s.capacity - length s.leaf_free

  pub live_count : NodeStore F → ℕ
  unfolding live_internal_count live_leaf_count
  live_count s = live_internal_count s + live_leaf_count s

  pop_internal : NodeStore F → List ℕ → InternalData F → RcfResult (NodeRef × NodeStore F)
  pop_internal s [] node = err invalid_config
  pop_internal s (idx ∷ free) node = ok (
    Node.internal idx,
    record s { internals = set s.internals idx (some node); internal_free = free },
  )

  unfoldable pub add_internal :
      NodeStore F
      → Cut F
      → BoundingBox F
      → NodeRef
      → NodeRef
      → Option NodeRef
      → ℕ
      → RcfResult (NodeRef × NodeStore F)
  unfolding pop_internal
  add_internal s cut bbox left right parent mass =
      pop_internal s s.internal_free (record {
        cut = cut;
        bbox = bbox;
        left = left;
        right = right;
        parent = parent;
        mass = mass;
      })

  pop_leaf : NodeStore F → List ℕ → LeafData → RcfResult (NodeRef × NodeStore F)
  pop_leaf s [] node = err invalid_config
  pop_leaf s (idx ∷ free) node =
      ok (Node.leaf idx, record s { leaves = set s.leaves idx (some node); leaf_free = free })

  unfoldable pub add_leaf : NodeStore F → ℕ → Option NodeRef → ℕ → RcfResult (NodeRef × NodeStore F)
  unfolding pop_leaf
  add_leaf s point_idx parent mass =
      pop_leaf s s.leaf_free (record { point_idx = point_idx; parent = parent; mass = mass })

  -- `take()` and the push of the index; an empty slot is left as it is.
  abbrev free_internal : NodeStore F → ℕ → Option (InternalData F) → RcfResult (NodeStore F)
  free_internal s idx none = err (out_of_bounds idx s.capacity)
  free_internal s idx (some _) =
      ok (record s { internals = set s.internals idx none; internal_free = idx ∷ s.internal_free })

  abbrev free_leaf : NodeStore F → ℕ → Option LeafData → RcfResult (NodeStore F)
  free_leaf s idx none = err (out_of_bounds idx s.capacity)
  free_leaf s idx (some _) =
      ok (record s { leaves = set s.leaves idx none; leaf_free = idx ∷ s.leaf_free })

  pub delete : NodeStore F → NodeRef → RcfResult (NodeStore F)
  delete s n =
      let idx = index n in
      if leb s.capacity idx
      then err (out_of_bounds idx s.capacity)
      else if is_leaf n
      then free_leaf s idx (slot s.leaves idx)
      else free_internal s idx (slot s.internals idx)

  unfoldable pub view : NodeStore F → NodeRef → RcfResult (NodeView F)
  view s n =
      let idx = index n in
      if leb s.capacity idx
      then err (out_of_bounds idx s.capacity)
      else if is_leaf n
      then ok_or (Option.map leaf_view (slot s.leaves idx)) (out_of_bounds idx s.capacity)
      else ok_or (Option.map internal_view (slot s.internals idx)) (out_of_bounds idx s.capacity)

  pub internal : NodeStore F → NodeRef → RcfResult (InternalData F)
  internal s n =
      if is_leaf n
      then err invalid_config
      else let idx = index n in
        if leb s.capacity idx
        then err (out_of_bounds idx s.capacity)
        else ok_or (slot s.internals idx) (out_of_bounds idx s.capacity)

  pub leaf : NodeStore F → NodeRef → RcfResult LeafData
  leaf s n =
      if is_leaf n
      then (let idx = index n in
          if leb s.capacity idx
          then err (out_of_bounds idx s.capacity)
          else ok_or (slot s.leaves idx) (out_of_bounds idx s.capacity))
      else err invalid_config

  -- Writes through the references that `internal_mut`, `leaf_mut` and `view_mut` hand out: the
  -- record found there is replaced by what the caller makes of it.
  pub update_internal :
      NodeStore F → NodeRef → (InternalData F → InternalData F) → RcfResult (NodeStore F)
  unfolding internal
  update_internal s n f = do
    i ← internal s n
    ok (record s { internals = set s.internals (index n) (some (f i)) })

  pub update_leaf : NodeStore F → NodeRef → (LeafData → LeafData) → RcfResult (NodeStore F)
  unfolding leaf
  update_leaf s n f = do
    l ← leaf s n
    ok (record s { leaves = set s.leaves (index n) (some (f l)) })

  abbrev put_view : NodeStore F → ℕ → NodeView F → NodeStore F
  put_view s idx (NodeView.internal_view i) = record s { internals = set s.internals idx (some i) }
  put_view s idx (NodeView.leaf_view l) = record s { leaves = set s.leaves idx (some l) }

  pub update_view : NodeStore F → NodeRef → (NodeView F → NodeView F) → RcfResult (NodeStore F)
  unfolding view
  update_view s n f = do v ← view s n; ok (put_view s (index n) (f v))

  unfoldable pub parent : NodeStore F → NodeRef → RcfResult (Option NodeRef)
  unfolding view
  parent s n = do v ← view s n; ok (view_parent v)

  other_child : InternalData F → NodeRef → RcfResult (Option NodeRef)
  other_child p n =
      if p.left.raw == n.raw
      then ok (some p.right)
      else if p.right.raw == n.raw
      then ok (some p.left)
      else err invalid_config

  sibling_under : NodeStore F → NodeRef → Option NodeRef → RcfResult (Option NodeRef)
  unfolding other_child
  sibling_under s n none = ok none
  sibling_under s n (some parent_ref) =
      if is_leaf parent_ref
      then err invalid_config
      else (internal s parent_ref >>= λ p. other_child p n)

  pub sibling : NodeStore F → NodeRef → RcfResult (Option NodeRef)
  sibling s n = parent s n >>= sibling_under s n

  pub internal_bbox : NodeStore F → NodeRef → RcfResult (BoundingBox F)
  unfolding internal
  internal_bbox s n = do i ← internal s n; ok i.bbox

  abbrev pub with_parent : Option NodeRef → NodeView F → NodeView F
  with_parent p (NodeView.internal_view i) = internal_view (record i { parent = p })
  with_parent p (NodeView.leaf_view l) = leaf_view (record l { parent = p })

  abbrev pub with_mass : ℕ → NodeView F → NodeView F
  with_mass m (NodeView.internal_view i) = internal_view (record i { mass = m })
  with_mass m (NodeView.leaf_view l) = leaf_view (record l { mass = m })

  unfoldable pub set_parent : NodeStore F → NodeRef → Option NodeRef → RcfResult (NodeStore F)
  unfolding update_view
  set_parent s n p = update_view s n (with_parent p)

  pub set_mass : NodeStore F → NodeRef → ℕ → RcfResult (NodeStore F)
  unfolding update_view
  set_mass s n m = update_view s n (with_mass m)

  pub set_internal_bbox : NodeStore F → NodeRef → BoundingBox F → RcfResult (NodeStore F)
  unfolding update_internal
  set_internal_bbox s n b = update_internal s n (λ i. record i { bbox = b })

  pub set_internal_children : NodeStore F → NodeRef → NodeRef → NodeRef → RcfResult (NodeStore F)
  unfolding update_internal
  set_internal_children s n l r = update_internal s n (λ i. record i { left = l; right = r })

  pub set_internal_cut : NodeStore F → NodeRef → Cut F → RcfResult (NodeStore F)
  unfolding update_internal
  set_internal_cut s n c = update_internal s n (λ i. record i { cut = c })
