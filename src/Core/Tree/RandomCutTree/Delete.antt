-- ===== src/Core/Tree/RandomCutTree/Delete.antt =====
-- Removal from the random cut tree: `delete` and `delete_with_survivors` of
-- core/src/tree/random_cut_tree.rs. `fuel` bounds the loops towards the root.
use mathlib.Core.Option
use anomstream.Prelude.{
  ℕ, suc, Bool, false, not, ◌&&◌, List, [], ◌∷◌, Option, none, some, if◌then◌else◌, ltb, ◌==◌,
}
use anomstream.Core.Error.{RcfResult, ok, err, invalid_config, ◌>>=◌}
use anomstream.Core.Domain.{BoundingBox}
use anomstream.Core.Domain.Arith.{Arith}
use anomstream.Core.Domain.Boxes.{merged}
use anomstream.Core.Tree.Node.{NodeRef, NodeView, is_leaf, view_mass}
use anomstream.Core.Tree.NodeStore
use anomstream.Core.Tree.NodeStore.{
  NodeStore, view, leaf, parent, delete, set_mass, set_parent, update_leaf, set_internal_bbox,
}
use anomstream.Core.Tree.RandomCutTree.{
  RandomCutTree, same_ref, leaf_index_get, leaf_index_clear, climb, change_mass, minus_one,
  replace_in_parent, bbox_of,
}

-- `e == Some(n)`
abbrev pub names : Option NodeRef → NodeRef → Bool
names none n = false
names (some m) n = same_ref m n

unfoldable pub position : NodeRef → List (Option NodeRef) → Option ℕ
position n [] = none
position n (x ∷ xs) =
    let rest = Option.map suc (position n xs) in if names x n then some 0 else rest

module _ {F : Type 0} where
  -- The point that a leaf moves to when its own is retracted: the first survivor mapped to it, or else
  -- the first entry of the reverse index.
  unfoldable pub heir_of : List ℕ → ℕ → NodeRef → RandomCutTree F → Option ℕ
  heir_of [] point_idx n t = position n t.leaf_index
  heir_of (i ∷ survivors) point_idx n t =
      let rest = heir_of survivors point_idx n t in
      if not (i == point_idx) && names (leaf_index_get t i) n then some i else rest

  -- The end of the branch for a leaf of more than one point.
  abbrev pub bequeath : List ℕ → ℕ → NodeRef → RandomCutTree F → RcfResult (RandomCutTree F)
  bequeath survivors point_idx n t = do
    l ← leaf t.store n
    if l.point_idx == point_idx
        then (do
          heir ← NodeStore.ok_or (heir_of survivors point_idx n t) invalid_config
          s ← update_leaf t.store n (λ d. record d { point_idx = heir })
          ok (record t { store = s }))
        else ok t

  -- A leaf of more than one point loses one.
  unfoldable pub drop_copy :
      ℕ → List ℕ → ℕ → NodeRef → ℕ → RandomCutTree F → RcfResult (RandomCutTree F)
  drop_copy fuel survivors point_idx n leaf_mass t = do
    s ← set_mass t.store n (minus_one leaf_mass)
    p ← parent s n
    s' ← climb (change_mass minus_one) fuel s p
    bequeath survivors point_idx n (leaf_index_clear point_idx (record t { store = s' }))

  abbrev pub child_beside : NodeRef → NodeView F → RcfResult NodeRef
  child_beside n (NodeView.internal_view i) = ok (if same_ref i.left n then i.right else i.left)
  child_beside n (NodeView.leaf_view l) = err invalid_config

  module _ (f64 : Arith F) (dim : ℕ) (points : ℕ → Option (List F)) where
    -- `compute_internal_bbox` for a node whose record is known
    abbrev pub joint_bbox : NodeStore F → NodeView F → RcfResult (BoundingBox F)
    joint_bbox s (NodeView.leaf_view l) = err invalid_config
    joint_bbox s (NodeView.internal_view i) = do
      lb ← bbox_of f64 dim points s i.left
      rb ← bbox_of f64 dim points s i.right
      ok (merged f64 lb rb)

    unfoldable pub compute_internal_bbox : NodeStore F → NodeRef → RcfResult (BoundingBox F)
    compute_internal_bbox s n = view s n >>= joint_bbox s

    -- One round of `recompute_ancestors`
    unfoldable pub recompute : NodeStore F → NodeRef → RcfResult (NodeStore F)
    recompute s n = do
      s' ← change_mass minus_one s n
      if is_leaf n then ok s' else (do b ← compute_internal_bbox s' n; set_internal_bbox s' n b)

    -- The sibling of the leaf that is gone takes the place of their parent.
    unfoldable pub close_gap : ℕ → NodeRef → NodeRef → RandomCutTree F → RcfResult (RandomCutTree F)
    close_gap fuel parent_ref n t = do
      v ← view t.store parent_ref
      sibling ← child_beside n v
      grandparent ← parent t.store parent_ref
      s ← set_parent t.store sibling grandparent
      s' ← delete s parent_ref
      t' ← replace_in_parent (record t { store = s' }) grandparent parent_ref sibling
      s'' ← climb recompute fuel t'.store grandparent
      ok (record t' { store = s'' })

    abbrev pub unlink : ℕ → Option NodeRef → NodeRef → RandomCutTree F → RcfResult (RandomCutTree F)
    unlink fuel none n t = ok (record t { root = none })
    unlink fuel (some parent_ref) n t = close_gap fuel parent_ref n t

    -- A leaf of one point goes.
    unfoldable pub remove_leaf : ℕ → ℕ → NodeRef → RandomCutTree F → RcfResult (RandomCutTree F)
    remove_leaf fuel point_idx n t = do
      p ← parent t.store n
      s ← delete t.store n
      unlink fuel p n (leaf_index_clear point_idx (record t { store = s }))

    unfoldable pub delete_with_survivors :
        ℕ → List ℕ → ℕ → RandomCutTree F → RcfResult (RandomCutTree F)
    delete_with_survivors fuel survivors point_idx t = do
      n ← NodeStore.ok_or (leaf_index_get t point_idx) invalid_config
      v ← view t.store n
      if ltb 1 (view_mass v)
          then drop_copy fuel survivors point_idx n (view_mass v) t
          else remove_leaf fuel point_idx n t
