-- ===== src/Core/Forest/RandomCutForest/Insertion.antt =====
-- Updates of the forest of core/src/forest/random_cut_forest.rs.
use anomstream.Prelude.{ℕ, List, [], ◌∷◌, Option, none, some, ltb, ◌==◌, if◌then◌else◌}
use anomstream.Word.{saturating_add64}
use anomstream.Core.Domain.{ensure_finite}
use anomstream.Core.Sampler.{
  SamplerOp, inserted, replaced, rejected, SamplerArith, BinaryHeap, accept,
}
use anomstream.Core.Forest.PointStore.{
  PointStore, point, incr_ref, decr_ref, set_free, drop_unreferenced, ref_count, capacity,
}
use anomstream.Core.Forest.PointStore
use anomstream.Core.Forest.Timestamps
use anomstream.Core.Forest.RandomCutForest.{
  Run, ◌>>=◌, ◌>>◌, return, expect, TreeSlot, RandomCutForest, scale_point_copy, tree_add,
  tree_delete,
}

abbrev pub with_freed : Option ℕ → List ℕ → List ℕ
with_freed none frees = frees
with_freed (some i) frees = i ∷ frees

-- The slots that the walk freed, and their timestamps.
unfoldable pub free_all :
    {F : Type 0} → List ℕ → PointStore F → List (ℕ × ℕ) → Run (PointStore F × List (ℕ × ℕ))
free_all [] store stamps = return (store, stamps)
free_all (i ∷ frees) store stamps = do
  store' ← some (set_free store i)
  free_all frees store' (Timestamps.remove i stamps)

-- `drop_unreferenced` for a point that no tree took
unfoldable pub drop_unheld :
    {F : Type 0} → ℕ → PointStore F → List (ℕ × ℕ) → Run (PointStore F × List (ℕ × ℕ))
drop_unheld new_idx store stamps =
    if ref_count store new_idx == 0
    then (do
      store' ← some (drop_unreferenced store new_idx)
      return (store', Timestamps.remove new_idx stamps))
    else return (store, stamps)

module _ {F R : Type 0} {b : BinaryHeap F} (a : SamplerArith F) (draw : R → F × R) (dim : ℕ)
    (fuel climb_fuel failures : ℕ) where
  open a use {f64}

  -- The end of both arms of `process_tree_update` that insert.
  unfoldable pub insert_new :
      PointStore F → ℕ → TreeSlot F R b → Run (TreeSlot F R b × PointStore F)
  insert_new store new_idx slot = do
    p ← expect (point store new_idx)
    (tree, rng) ← some (tree_add a draw dim fuel climb_fuel failures store new_idx p slot)
    store' ← some (incr_ref store new_idx)
    return (record slot { tree = tree; rng = rng }, store')

  -- `process_tree_update` after the sampler answered
  unfoldable pub apply :
      SamplerOp → PointStore F → ℕ → TreeSlot F R b → Run (Option ℕ × TreeSlot F R b × PointStore F)
  apply rejected store new_idx slot = return (none, slot, store)
  apply inserted store new_idx slot = do
    (slot', store') ← insert_new store new_idx slot
    return (none, slot', store')
  apply (replaced evicted) store new_idx slot = do
    tree ← some (tree_delete a draw dim fuel climb_fuel failures store evicted slot)
    (hit_zero, store') ← some (decr_ref failures store evicted)
    (slot', store'') ← insert_new store' new_idx (record slot { tree = tree })
    return (if hit_zero then some evicted else none, slot', store'')

  unfoldable pub process_tree_update :
      PointStore F → ℕ → TreeSlot F R b → Run (Option ℕ × TreeSlot F R b × PointStore F)
  process_tree_update store new_idx slot = do
    (op, sampler, rng) ← expect (accept a draw slot.sampler new_idx slot.rng)
    apply op store new_idx (record slot { sampler = sampler; rng = rng })

  unfoldable pub update_trees :
      PointStore F → ℕ → List (TreeSlot F R b) → Run (List ℕ × List (TreeSlot F R b) × PointStore F)
  update_trees store new_idx [] = return ([], [], store)
  update_trees store new_idx (slot ∷ slots) = do
    (freed, slot', store') ← process_tree_update store new_idx slot
    (out, slots', store'') ← update_trees store' new_idx slots
    return (with_freed freed out, slot' ∷ slots', store'')

  unfoldable pub insert_point : RandomCutForest F R b → List F → Run (ℕ × RandomCutForest F R b)
  insert_point f p = do
    some (ensure_finite f64.is_finite p)
    (new_idx, store) ← some (PointStore.add f64.is_finite f.point_store p)
    (frees, trees, store') ← update_trees store new_idx f.trees
    (store'', stamps) ← free_all frees store' f.timestamps
    (store3, stamps') ← drop_unheld new_idx store'' stamps
    return (
      new_idx,
      record f {
        trees = trees;
        point_store = store3;
        updates_seen = saturating_add64 f.updates_seen 1;
        timestamps = stamps';
      },
    )

  pub update_indexed : RandomCutForest F R b → List F → Run (ℕ × RandomCutForest F R b)
  update_indexed f p = insert_point f (scale_point_copy f64 dim f.feature_scales p)

  pub update : RandomCutForest F R b → List F → Run (RandomCutForest F R b)
  update f p = do
    (idx, f') ← insert_point f (scale_point_copy f64 dim f.feature_scales p)
    return f'

  pub update_indexed_at : RandomCutForest F R b → List F → ℕ → Run (ℕ × RandomCutForest F R b)
  update_indexed_at f p timestamp = do
    (idx, f') ← update_indexed f p
    if ltb 0 (ref_count f'.point_store idx)
        then return (idx, record f' { timestamps = Timestamps.insert idx timestamp f'.timestamps })
        else return (idx, f')

  pub update_at : RandomCutForest F R b → List F → ℕ → Run (RandomCutForest F R b)
  update_at f p timestamp = do (idx, f') ← update_indexed_at f p timestamp; return f'
