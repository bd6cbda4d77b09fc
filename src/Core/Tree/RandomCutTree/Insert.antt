-- ===== src/Core/Tree/RandomCutTree/Insert.antt =====
-- Insertion into the random cut tree: `insert_at`, `descend_or_split` and `add` of
-- core/src/tree/random_cut_tree.rs. `climb_fuel` bounds the loops towards the root.
use anomstream.Prelude.{ℕ, zero, suc, Bool, List, Option, none, some, if◌then◌else◌}
use anomstream.Core.Error.{RcfResult, ok, err, invalid_config, ◌>>=◌, ◌>>◌}
use anomstream.Core.Domain.{ensure_dim, ensure_finite}
use anomstream.Core.Domain.Arith.{Arith}
use anomstream.Core.Domain.Boxes.{left_of, extend, augmented_range_sum, augmented_random_cut}
use anomstream.Core.Tree.Node.{NodeRef, InternalData, NodeView}
use anomstream.Core.Tree.NodeStore.{view, add_leaf, set_parent, set_internal_children}
use anomstream.Core.Tree.RandomCutTree.{
  RandomCutTree, same_ref, leaf_index_set, leaf_index_contains, absorb_duplicate,
  splice_new_internal, isolates_point, bbox_of,
}

-- The end of `descend_or_split`: the child's slot, in case the call below replaced it.
abbrev pub relink :
    {F : Type 0}
    → NodeRef
    → InternalData F
    → Bool
    → NodeRef
    → RandomCutTree F
    → RcfResult (RandomCutTree F)
relink n i go_left new_child t =
    if same_ref new_child (if go_left then i.left else i.right) then ok t else do
      s ←
          set_internal_children t.store n (if go_left then new_child else i.left)
            (if go_left then i.right else new_child)
      s' ← set_parent s new_child (some n)
      ok (record t { store = s' })

module _ {F R : Type 0} (f64 : Arith F) (draw : R → F × R) (dim : ℕ) (points : ℕ → Option (List F))
    (climb_fuel : ℕ) where
  -- `descend_or_split`, with the recursive call as an argument.
  abbrev pub descend_or_split :
      (NodeRef → RcfResult (NodeRef × RandomCutTree F × R))
      → NodeRef
      → List F
      → NodeView F
      → RcfResult (NodeRef × RandomCutTree F × R)
  descend_or_split recur n point (NodeView.leaf_view l) = err invalid_config
  descend_or_split recur n point (NodeView.internal_view i) = do
    let go_left = left_of f64 i.cut point
    (new_child, t, rng) ← recur (if go_left then i.left else i.right)
    t' ← relink n i go_left new_child t
    ok (n, t', rng)

  unfoldable pub insert_at :
      ℕ → NodeRef → ℕ → List F → RandomCutTree F → R → RcfResult (NodeRef × RandomCutTree F × R)
  insert_at zero n point_idx point t rng = err invalid_config
  insert_at (suc fuel) n point_idx point t rng = do
    n_bbox ← bbox_of f64 dim points t.store n
    if f64.le (augmented_range_sum f64 n_bbox point) f64.zero
        then (do (m, t') ← absorb_duplicate climb_fuel n point_idx t; ok (m, t', rng))
        else (do
          (cut, rng') ← augmented_random_cut f64 draw dim n_bbox point rng
          if isolates_point f64 dim cut point n_bbox
              then (do
                bbox ← extend f64 dim n_bbox point
                (m, t') ← splice_new_internal f64 dim climb_fuel n point_idx point cut bbox t
                ok (m, t', rng'))
              else (do
                v ← view t.store n
                descend_or_split (λ next. insert_at fuel next point_idx point t rng') n point v))

  -- `add` into a tree with a root or without
  abbrev pub add_under :
      ℕ → ℕ → List F → RandomCutTree F → R → Option NodeRef → RcfResult (RandomCutTree F × R)
  add_under fuel point_idx point t rng none = do
    (leaf, s) ← add_leaf t.store point_idx none 1
    ok (record (leaf_index_set point_idx leaf (record t { store = s })) { root = some leaf }, rng)
  add_under fuel point_idx point t rng (some root) = do
    (n, t', rng') ← insert_at fuel root point_idx point t rng
    ok (t', rng')

  unfoldable pub add : ℕ → ℕ → List F → RandomCutTree F → R → RcfResult (RandomCutTree F × R)
  add fuel point_idx point t rng = do
    ensure_dim point dim
    ensure_finite f64.is_finite point
    if leaf_index_contains t point_idx
        then err invalid_config
        else add_under fuel point_idx point t rng t.root
