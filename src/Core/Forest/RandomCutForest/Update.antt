-- ===== src/Core/Forest/RandomCutForest/Update.antt =====
-- One update of the forest: `insert_point` of core/src/forest/random_cut_forest.rs.
use anomstream.Prelude.{
  ℕ, ◌≤◌, ◌<◌, ◌^◌, ◌≡◌, ◌≢◌, sym, ap, ◌∙◌, false, ltb, ◌==◌, if◌then◌else◌, List, none, some,
  length, count, arith,
}
use anomstream.Word.{saturating_add64}
use anomstream.Core.Error.{ok}
use anomstream.Core.Slab.{slot, vacant}
use anomstream.Core.Sampler.{SamplerArith, BinaryHeap}
use anomstream.Core.Sampler.Heap.{IsOrder, IsHeap, IsWeighed}
use anomstream.Core.Forest.PointStore.{PointStore, load}
use anomstream.Core.Forest.PointStore.Validity.{IsValid, IsCounted}
use anomstream.Core.Forest.PointStore.Slots.{Added}
use anomstream.Core.Forest.Timestamps.{get}
use anomstream.Core.Forest.RandomCutForest.{Run, TreeSlot, RandomCutForest}
use anomstream.Core.Forest.RandomCutForest.Insertion.{free_all, drop_unheld}
use anomstream.Core.Forest.RandomCutForest.Holders.{holders, AllSampled}
use anomstream.Core.Forest.RandomCutForest.Walk.{Walked}
use anomstream.Core.Forest.RandomCutForest.Freeing.{Emptied, free_all-Emptied, drop_unheld-Emptied}

module _ {F R : Type 0} (a : SamplerArith F) (draw : R → F × R) {b : BinaryHeap F}
    (IsNumber : F → Type 0) where
  -- The store counts, for each point, the trees whose samplers hold it; every live point is held;
  -- no dead point has a timestamp.
  pub record IsBalanced (f : RandomCutForest F R b) : Type 0 where
    pub valid : IsValid a.f64.is_finite f.point_store
    pub counted : IsCounted f.point_store
    pub sampled : AllSampled a draw IsNumber f.trees
    pub few : length f.trees < 2 ^ 32
    pub counts : (i : ℕ) → load f.point_store i ≡ holders a f.trees i
    pub used : (i : ℕ) → slot f.point_store.points i ≢ none → 0 < holders a f.trees i
    pub stamped : (i : ℕ) → slot f.point_store.points i ≡ none → get i f.timestamps ≡ none

  -- The index was free; the points that some tree still holds stay, the others go.
  pub record Inserted (f : RandomCutForest F R b) (p : List F)
      (run : Run (ℕ × RandomCutForest F R b)) : Type 0 where
    pub idx : ℕ
    pub after : RandomCutForest F R b
    pub ran : run ≡ some (ok (idx, after))
    pub fresh : slot f.point_store.points idx ≡ none
    pub balanced : IsBalanced after
    pub slots :
        (i : ℕ)
        → slot after.point_store.points i ≡ (
            if holders a after.trees i == 0
            then none
            else if i == idx
            then some p
            else slot f.point_store.points i)
    pub falls : (i : ℕ) → i ≢ idx → holders a after.trees i ≤ holders a f.trees i
    pub as_many : length after.trees ≡ length f.trees

module _ {F R : Type 0} (a : SamplerArith F) (draw : R → F × R) (dim fuel climb_fuel failures : ℕ)
    (b : BinaryHeap F) (IsNumber : F → Type 0) (order : IsOrder a.f64.lt IsNumber)
    (heap : IsHeap b a.f64.lt IsNumber) (number : IsWeighed a b draw IsNumber) where
  module _ (f : RandomCutForest F R b) (p : List F) (inv : IsBalanced a draw IsNumber f) (idx : ℕ)
      (store : PointStore F) (added : Added a.f64.is_finite f.point_store store idx p)
      {run : Run (List ℕ × List (TreeSlot F R b) × PointStore F)}
      (walk : Walked a draw dim fuel climb_fuel failures b IsNumber order heap number idx p store
        f.trees run) where
    live : slot store.points idx ≡ some p
    live = ground (arith, added.slots idx)

    same_slot : (i : ℕ) → slot walk.store'.points i ≡ slot store.points i
    same_slot i = ap (λ ps. slot ps i) walk.kept.points

    walk-IsValid : IsValid a.f64.is_finite walk.store'
    walk-IsValid = record {
      counts_len = walk.kept.counts_len ∙ added.valid.counts_len ∙ ap length (sym walk.kept.points);
      free_slots = λ i.
          ap (count i) walk.kept.free_list
          ∙ added.valid.free_slots i
          ∙ ap (λ ps. vacant ps i) (sym walk.kept.points);
      finite = λ i q h. added.valid.finite i q (sym (same_slot i) ∙ h);
    }

    emptied :
        Emptied a.f64.is_finite walk.store' f.timestamps
          (λ i. ltb 0 (count i walk.out))
          (free_all walk.out walk.store' f.timestamps)
    emptied =
        free_all-Emptied a.f64.is_finite walk.out walk.store' f.timestamps walk-IsValid
          walk.kept.counted (λ i. ground (arith, walk.frees i))
          (λ i h. (
            λ e. ground (arith, walk.frees i, added.counted.idle i (sym (same_slot i) ∙ e)),
            ground (arith, walk.frees i),
          ))

    still_live : slot emptied.store'.points idx ≡ some p
    still_live = ground (arith, emptied.slots idx, walk.frees idx, same_slot idx, live)

    dropped :
        Emptied a.f64.is_finite emptied.store' emptied.stamps'
          (λ i. if i == idx then load emptied.store' idx == 0 else false)
          (drop_unheld idx emptied.store' emptied.stamps')
    dropped =
        drop_unheld-Emptied a.f64.is_finite idx emptied.store' emptied.stamps' emptied.valid
          emptied.counted still_live

    end_forest : RandomCutForest F R b
    end_forest = record f {
      trees = walk.slots';
      point_store = dropped.store';
      updates_seen = saturating_add64 f.updates_seen 1;
      timestamps = dropped.stamps';
    }
