-- ===== src/Core/Forest/RandomCutForest/Deletion.antt =====
-- Retraction from the forest of core/src/forest/random_cut_forest.rs.
use anomstream.Prelude.{
  ℕ, ◌+◌, Bool, true, false, ◌||◌, ◌&&◌, List, [], ◌∷◌, none, some, set, replicate, ltb,
  if◌then◌else◌,
}
use anomstream.Word.{saturating_add64}
use anomstream.Core.Domain.{ensure_finite}
use anomstream.Core.Domain.Arith.{Arith}
use anomstream.Core.Sampler.{
  SamplerOp, inserted, replaced, rejected, SamplerArith, BinaryHeap, ReservoirSampler, iter_indices,
  accept, with_initial_accept_fraction,
}
use anomstream.Core.Sampler
use anomstream.Core.Forest.PointStore.{PointStore, point, decr_ref, set_free, capacity}
use anomstream.Core.Forest.Timestamps
use anomstream.Core.Forest.RandomCutForest.{
  Run, ◌>>=◌, ◌>>◌, return, TreeSlot, RandomCutForest, held_by, scale_point_copy, tree_delete,
}

-- The end of `delete`.
unfoldable pub free_deleted :
    {F : Type 0} → Bool → ℕ → PointStore F → List (ℕ × ℕ) → Run (PointStore F × List (ℕ × ℕ))
free_deleted went_to_zero idx store stamps =
    if went_to_zero
    then (do store' ← some (set_free store idx); return (store', Timestamps.remove idx stamps))
    else return (store, stamps)

unfoldable pub older : ℕ → List (ℕ × ℕ) → List ℕ
older cutoff [] = []
older cutoff ((idx, ts) ∷ stamps) =
    let rest = older cutoff stamps in if ltb ts cutoff then idx ∷ rest else rest

-- `seen[idx] = true` for the indices of one sampler, where they are in range
unfoldable pub mark_all : List ℕ → List Bool → List Bool
mark_all [] seen = seen
mark_all (i ∷ is) seen = mark_all is (set seen i true)

-- `==` of two arrays of `f64`
pub same_point : {F : Type 0} → Arith F → List F → List F → Bool
same_point f64 [] [] = true
same_point f64 (x ∷ xs) (y ∷ ys) = f64.le x y && f64.le y x && same_point f64 xs ys
same_point f64 xs ys = false

-- The marked slots from `i` on whose point is the probe.
unfoldable pub matches : {F : Type 0} → Arith F → PointStore F → List F → ℕ → List Bool → List ℕ
matches f64 store probe i [] = []
matches f64 store probe i (hit ∷ seen) =
    let rest = matches f64 store probe (i + 1) seen in
    elim (point store i) [
      | some p ↦ if hit && same_point f64 p probe then i ∷ rest else rest
      | none ↦ rest
    ]

module _ {F R : Type 0} {b : BinaryHeap F} (a : SamplerArith F) (draw : R → F × R) (dim : ℕ)
    (fuel climb_fuel failures : ℕ) where
  open a use {f64}

  unfoldable pub process_tree_delete :
      PointStore F → ℕ → TreeSlot F R b → Run ((Bool × Bool) × TreeSlot F R b × PointStore F)
  process_tree_delete store idx slot =
      let (held, sampler) = Sampler.remove a slot.sampler idx in
      let slot' = record slot { sampler = sampler } in
      if held
      then (do
        tree ← some (tree_delete a draw dim fuel climb_fuel failures store idx slot')
        (hit_zero, store') ← some (decr_ref failures store idx)
        return ((true, hit_zero), record slot' { tree = tree }, store'))
      else return ((false, false), slot', store)

  unfoldable pub delete_from_trees :
      PointStore F
      → ℕ
      → List (TreeSlot F R b)
      → Run ((Bool × Bool) × List (TreeSlot F R b) × PointStore F)
  delete_from_trees store idx [] = return ((false, false), [], store)
  delete_from_trees store idx (slot ∷ slots) = do
    (here, slot', store') ← process_tree_delete store idx slot
    (rest, slots', store'') ← delete_from_trees store' idx slots
    return ((here.0 || rest.0, here.1 || rest.1), slot' ∷ slots', store'')

  unfoldable pub delete : RandomCutForest F R b → ℕ → Run (Bool × RandomCutForest F R b)
  delete f idx = do
    (flags, trees, store) ← delete_from_trees f.point_store idx f.trees
    (store', stamps) ← free_deleted flags.1 idx store f.timestamps
    return (flags.0, record f { trees = trees; point_store = store'; timestamps = stamps })

  -- The loop of `delete_before` over its victims, with the count so far.
  unfoldable pub delete_victims :
      List ℕ → ℕ → RandomCutForest F R b → Run (ℕ × RandomCutForest F R b)
  delete_victims [] removed f = return (removed, f)
  delete_victims (idx ∷ victims) removed f = do
    (hit, f') ← delete f idx
    delete_victims victims (if hit then saturating_add64 removed 1 else removed)
        (record f' { timestamps = Timestamps.remove idx f'.timestamps })

  unfoldable pub delete_before : RandomCutForest F R b → ℕ → Run (ℕ × RandomCutForest F R b)
  delete_before f cutoff = delete_victims (older cutoff f.timestamps) 0 f

  -- The loop of `delete_by_value` over the matches.
  unfoldable pub delete_matching :
      List ℕ → ℕ → RandomCutForest F R b → Run (ℕ × RandomCutForest F R b)
  delete_matching [] removed f = return (removed, f)
  delete_matching (idx ∷ matching) removed f = do
    (hit, f') ← delete f idx
    delete_matching matching (if hit then saturating_add64 removed 1 else removed) f'

  unfoldable pub mark_held : List (TreeSlot F R b) → List Bool → List Bool
  mark_held [] seen = seen
  mark_held (slot ∷ slots) seen = mark_held slots (mark_all (held_by a slot) seen)

  unfoldable pub delete_by_value : RandomCutForest F R b → List F → Run (ℕ × RandomCutForest F R b)
  delete_by_value f p = do
    some (ensure_finite f64.is_finite p)
    let probe = scale_point_copy f64 dim f.feature_scales p
    let seen = mark_held f.trees (replicate (capacity f.point_store) false)
    delete_matching (matches f64 f.point_store probe 0 seen) 0 f
