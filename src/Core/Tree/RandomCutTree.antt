-- ===== src/Core/Tree/RandomCutTree.antt =====
-- The random cut tree: core/src/tree/random_cut_tree.rs, without the feature `packed-cut`. `points`
-- is the method `point` of the `PointAccessor`, `draw` one `f64` of the generator, and `dim` the
-- constant `D`. A loop towards the root and the descent of `insert_at` take fuel; out of fuel they
-- give an error, and the theorems on them say how much is enough. A failed operation gives the error
-- alone.
pub mod Insert
pub mod Shape
pub mod Holds
pub mod Climb
pub mod Bodies
pub mod Sits
pub mod Splice
pub mod Grow
pub mod GrowCases
pub mod GrowSize
pub mod GrowSorted
pub mod Relink
pub mod Refine
pub mod Index
pub mod Whole
pub mod Delete
pub mod Plug
pub mod Lighter
pub mod Heir
pub mod Removed
pub mod Shrink
pub mod Sound
pub mod Walk
mod Tests
use anomstream.Prelude.{
  ℕ, zero, suc, ◌+◌, ◌-◌, Bool, true, false, not, ◌&&◌, ◌||◌, List, [], ◌∷◌, ◌++◌, Option, none,
  some, length, set, replicate, leb, ltb, ◌==◌, if◌then◌else◌,
}
use anomstream.Word.{wrapping_add64, wrapping_sub64}
use anomstream.Core.Error.{RcfResult, ok, err, invalid_config, out_of_bounds, ◌>>=◌, ◌>>◌}
use anomstream.Core.Domain.{Cut, BoundingBox, ensure_dim, ensure_finite}
use anomstream.Core.Domain.Arith.{Arith, coord}
use anomstream.Core.Domain.Boxes.{
  left_of, from_point, extend, merged, augmented_range_sum, augmented_random_cut,
}
use anomstream.Core.Slab.{slot}
use anomstream.Core.Tree.Node.{
  NodeRef, InternalData, LeafData, NodeView, internal_view, leaf_view, is_leaf, index, view_mass,
  view_parent,
}
use anomstream.Core.Tree.NodeStore
use anomstream.Core.Tree.NodeStore.{
  NodeStore, view, parent, add_leaf, add_internal, update_view, set_parent, set_mass,
  set_internal_bbox, set_internal_children, delete,
}

pub record RandomCutTree (F : Type 0) : Type 0 where
  pub root : Option NodeRef
  pub store : NodeStore F
  pub leaf_index : List (Option NodeRef)
  pub distinct_count : ℕ

-- `==` on references
abbrev pub same_ref : NodeRef → NodeRef → Bool
same_ref m n = m.raw == n.raw

abbrev pub is_none {ℓ} : {A : Type ℓ} → Option A → Bool
is_none none = true
is_none (some a) = false

-- `resize`, where the index is past the end
abbrev pub grown : List (Option NodeRef) → ℕ → List (Option NodeRef)
grown entries idx =
    if leb (length entries) idx
    then entries ++ replicate (idx + 1 - length entries) none
    else entries

abbrev pub plus_one : ℕ → ℕ
plus_one m = wrapping_add64 m 1

abbrev pub minus_one : ℕ → ℕ
minus_one m = wrapping_sub64 m 1

module _ {F : Type 0} where
  unfoldable pub new : ℕ → ℕ → RcfResult (RandomCutTree F)
  new dim capacity =
      if dim == 0
      then err invalid_config
      else (NodeStore.new capacity >>= λ s.
          ok (record { root = none; store = s; leaf_index = []; distinct_count = 0 }))

  pub leaf_index_set : ℕ → NodeRef → RandomCutTree F → RandomCutTree F
  leaf_index_set idx node t =
      let entries = grown t.leaf_index idx in
      record t {
        leaf_index = set entries idx (some node);
        distinct_count =
            if is_none (slot entries idx) then t.distinct_count + 1 else t.distinct_count;
      }

  pub leaf_index_get : RandomCutTree F → ℕ → Option NodeRef
  leaf_index_get t idx = slot t.leaf_index idx

  pub leaf_index_clear : ℕ → RandomCutTree F → RandomCutTree F
  leaf_index_clear idx t = if is_none (slot t.leaf_index idx) then t else record t {
    leaf_index = set t.leaf_index idx none;
    distinct_count = t.distinct_count - 1;
  }

  pub leaf_index_contains : RandomCutTree F → ℕ → Bool
  leaf_index_contains t idx = not (is_none (slot t.leaf_index idx))

  -- A loop from a node to the root: `body` on each node, then on to its parent.
  pub climb :
      (NodeStore F → NodeRef → RcfResult (NodeStore F))
      → ℕ
      → NodeStore F
      → Option NodeRef
      → RcfResult (NodeStore F)
  climb body zero s cur = err invalid_config
  climb body (suc fuel) s none = ok s
  climb body (suc fuel) s (some n) = do s' ← body s n; p ← parent s' n; climb body fuel s' p

  -- `set_mass` of the mass that a node has, changed.
  pub change_mass : (ℕ → ℕ) → NodeStore F → NodeRef → RcfResult (NodeStore F)
  change_mass f s n = do v ← view s n; set_mass s n (f (view_mass v))

  pub absorb_duplicate : ℕ → NodeRef → ℕ → RandomCutTree F → RcfResult (NodeRef × RandomCutTree F)
  absorb_duplicate fuel n point_idx t = if not (is_leaf n) then err invalid_config else do
    s ← change_mass plus_one t.store n
    p ← parent s n
    s' ← climb (change_mass plus_one) fuel s p
    ok (n, leaf_index_set point_idx n (record t { store = s' }))

  -- `replace_in_parent` under a parent whose children are known
  abbrev pub new_child :
      NodeStore F → NodeRef → NodeRef → NodeRef → NodeView F → RcfResult (NodeStore F)
  new_child s parent_ref old new (NodeView.leaf_view l) = err invalid_config
  new_child s parent_ref old new (NodeView.internal_view i) =
      if same_ref i.left old
      then set_internal_children s parent_ref new i.right
      else if same_ref i.right old
      then set_internal_children s parent_ref i.left new
      else err invalid_config

  pub replace_in_parent :
      RandomCutTree F → Option NodeRef → NodeRef → NodeRef → RcfResult (RandomCutTree F)
  replace_in_parent t none old new = ok (record t { root = some new })
  replace_in_parent t (some parent_ref) old new = do
    v ← view t.store parent_ref
    s ← new_child t.store parent_ref old new v
    ok (record t { store = s })

module _ {F : Type 0} (f64 : Arith F) (dim : ℕ) where
  pub isolates_point : Cut F → List F → BoundingBox F → Bool
  isolates_point cut point b =
      let p = coord f64 point cut.dim in
      (f64.le p cut.value && f64.lt cut.value (coord f64 b.min cut.dim))
      || (f64.le (coord f64 b.max cut.dim) cut.value && f64.lt cut.value p)

  -- The node with its mass and box after one more point; the parent is read from the same view.
  abbrev pub with_point : List F → NodeView F → RcfResult (NodeView F)
  with_point point (NodeView.internal_view i) = extend f64 dim i.bbox point >>= λ b.
      ok (internal_view (record i { mass = plus_one i.mass; bbox = b }))
  with_point point (NodeView.leaf_view l) = ok (leaf_view (record l { mass = plus_one l.mass }))

  pub add_point : List F → NodeStore F → NodeRef → RcfResult (NodeStore F)
  add_point point s n = do v ← view s n; v' ← with_point point v; update_view s n (λ _. v')

  pub update_ancestors_after_insert :
      ℕ → NodeStore F → Option NodeRef → List F → RcfResult (NodeStore F)
  update_ancestors_after_insert fuel s start point = climb (add_point point) fuel s start

  -- `bbox_of` for a node whose record is known
  abbrev pub bbox_in : (ℕ → Option (List F)) → NodeView F → RcfResult (BoundingBox F)
  bbox_in points (NodeView.internal_view i) = ok i.bbox
  bbox_in points (NodeView.leaf_view l) =
      NodeStore.ok_or (points l.point_idx) (out_of_bounds l.point_idx 0) >>= from_point f64 dim

  pub bbox_of : (ℕ → Option (List F)) → NodeStore F → NodeRef → RcfResult (BoundingBox F)
  bbox_of points s n = view s n >>= bbox_in points

  pub splice_new_internal :
      ℕ
      → NodeRef
      → ℕ
      → List F
      → Cut F
      → BoundingBox F
      → RandomCutTree F
      → RcfResult (NodeRef × RandomCutTree F)
  splice_new_internal fuel n point_idx point cut bbox t = do
    (new_leaf, s1) ← add_leaf t.store point_idx none 1
    parent_of_n ← parent s1 n
    v ← view s1 n
    let t1 = leaf_index_set point_idx new_leaf (record t { store = s1 })
    let goes_left = left_of f64 cut point
    (new_internal, s2) ←
        add_internal s1 cut bbox (if goes_left then new_leaf else n)
          (if goes_left then n else new_leaf) parent_of_n (plus_one (view_mass v))
    s3 ← set_parent s2 new_leaf (some new_internal)
    s4 ← set_parent s3 n (some new_internal)
    t2 ← replace_in_parent (record t1 { store = s4 }) parent_of_n n new_internal
    s6 ← update_ancestors_after_insert fuel t2.store parent_of_n point
    ok (new_internal, record t2 { store = s6 })
