-- ===== src/Core/Forest/RandomCutForest/Retract.antt =====
-- Removal of a point from every tree that holds it: `delete` of core/src/forest/random_cut_forest.rs.
use anomstream.Prelude.{
  ℕ, ◌<◌, ◌≡◌, ◌≢◌, ◌⊎◌, inl, inr, refl, sym, ap, ◌∙◌, Bool, false, ltb, ◌==◌, if◌then◌else◌,
  Bool-cases, Option-cases, List, none, some, length, count, arith,
}
use anomstream.Core.Error.{ok}
use anomstream.Core.Slab.{slot, vacant}
use anomstream.Core.Sampler.{SamplerArith, BinaryHeap}
use anomstream.Core.Sampler.Heap.{IsHeap}
use anomstream.Core.Forest.PointStore.{PointStore, load}
use anomstream.Core.Forest.PointStore.Validity.{IsValid}
use anomstream.Core.Forest.Timestamps
use anomstream.Core.Forest.Timestamps.{get, get-remove}
use anomstream.Core.Forest.RandomCutForest.{Run, TreeSlot, RandomCutForest}
use anomstream.Core.Forest.RandomCutForest.Deletion.{free_deleted, delete}
use anomstream.Core.Forest.RandomCutForest.Holders.{holders, AllSampled}
use anomstream.Core.Forest.RandomCutForest.Failures.{Failed, Failed->>=, DeleteFails}
use anomstream.Core.Forest.RandomCutForest.Freeing.{Emptied, freed}
use anomstream.Core.Forest.RandomCutForest.Update.{IsBalanced}
use anomstream.Core.Forest.RandomCutForest.RetractWalk.{Retracted, walk_cases}

module _ {F R : Type 0} (a : SamplerArith F) (draw : R → F × R) (dim fuel climb_fuel failures : ℕ)
    (b : BinaryHeap F) (IsNumber : F → Type 0) (heap : IsHeap b a.f64.lt IsNumber) (idx : ℕ) where
  -- The point is in no tree and in no slot, and every other one as before.
  pub record Deleted (f : RandomCutForest F R b) (run : Run (Bool × RandomCutForest F R b))
      : Type 0 where
    pub after : RandomCutForest F R b
    pub ran : run ≡ some (ok (ltb 0 (holders a f.trees idx), after))
    pub balanced : IsBalanced a draw IsNumber after
    pub left : (i : ℕ) → holders a after.trees i ≡ (if i == idx then 0 else holders a f.trees i)
    pub slots :
        (i : ℕ)
        → slot after.point_store.points i ≡ (if i == idx then none else slot f.point_store.points i)
    pub stamps : (i : ℕ) → get i after.timestamps ≡ (if i == idx then none else get i f.timestamps)

  module _ (f : RandomCutForest F R b) (inv : IsBalanced a draw IsNumber f)
      {run : Run ((Bool × Bool) × List (TreeSlot F R b) × PointStore F)}
      (walk : Retracted idx f.point_store
        (AllSampled a draw IsNumber)
        (holders a)
        length
        f.trees
        run) where
    same_slot : (i : ℕ) → slot walk.store'.points i ≡ slot f.point_store.points i
    same_slot i = ap (λ ps. slot ps i) walk.kept.points

    walk-IsValid : IsValid a.f64.is_finite walk.store'
    walk-IsValid = record {
      counts_len = walk.kept.counts_len ∙ inv.valid.counts_len ∙ ap length (sym walk.kept.points);
      free_slots = λ i.
          ap (count i) walk.kept.free_list
          ∙ inv.valid.free_slots i
          ∙ ap (λ ps. vacant ps i) (sym walk.kept.points);
      finite = λ i q h. inv.valid.finite i q (sym (same_slot i) ∙ h);
    }

    load_held : (i : ℕ) → load walk.store' i ≡ holders a walk.after i
    load_held i = omega (arith, walk.counts i, inv.counts i)

    -- The slot is emptied if some tree held the point.
    emptied :
        Emptied a.f64.is_finite walk.store' f.timestamps
          (λ i. if i == idx then walk.flags.1 else false)
          (free_deleted walk.flags.1 idx walk.store' f.timestamps)
    unfolding free_deleted
    emptied = elim (Bool-cases walk.flags.1) [
      | inl last ↦
          let (store1, set_free_ok, dropped, vacated) =
            freed a.f64.is_finite walk.store' idx walk-IsValid walk.kept.counted
              (λ e. ground (
                arith,
                walk.zero',
                last,
                inv.counted.idle idx (sym (same_slot idx) ∙ e),
                inv.counts idx,
              ))
              (ground (arith, walk.zero', last)) in
          record {
            store' = store1;
            stamps' = Timestamps.remove idx f.timestamps;
            ran = rw (last, set_free_ok) refl;
            valid = vacated.valid;
            counted = vacated.counted;
            slots = λ i. ground (arith, vacated.slots i, last);
            counts = vacated.counts;
            stamped = λ i. ground (arith, get-remove idx i f.timestamps, last);
          }
      | inr other ↦ record {
        store' = walk.store';
        stamps' = f.timestamps;
        ran = rw other refl;
        valid = walk-IsValid;
        counted = walk.kept.counted;
        slots = λ i. ground (arith, other);
        counts = λ i. refl;
        stamped = λ i. ground (arith, other);
      }
    ]

    was_held : (i : ℕ) → (slot f.point_store.points i ≡ none) ⊎ (0 < holders a f.trees i)
    was_held i = elim (Option-cases (slot f.point_store.points i)) [
      | inl e ↦ inl e
      | inr (q, e) ↦ inr (inv.used i (λ n. ground (arith, n, e)))
    ]

    end_slots :
        (i : ℕ)
        → slot emptied.store'.points i ≡ (if i == idx then none else slot f.point_store.points i)
    end_slots i =
        ground (
          arith,
          emptied.slots i,
          same_slot i,
          walk.zero',
          load_held idx,
          walk.left idx,
          was_held i,
        )

    end_stamps : (i : ℕ) → get i emptied.stamps' ≡ (if i == idx then none else get i f.timestamps)
    end_stamps i = ground (
      arith,
      emptied.stamped i,
      walk.zero',
      load_held idx,
      walk.left idx,
      was_held i,
      inv.stamped i,
    )

    end_forest : RandomCutForest F R b
    end_forest = record f {
      trees = walk.after;
      point_store = emptied.store';
      timestamps = emptied.stamps';
    }

    end-IsBalanced : IsBalanced a draw IsNumber end_forest
    unfolding end_forest
    end-IsBalanced = record {
      valid = emptied.valid;
      counted = emptied.counted;
      sampled = walk.in_order;
      few = omega (arith, walk.size, inv.few);
      counts = λ i. emptied.counts i ∙ load_held i;
      used = λ i h. still_held i h;
      stamped = λ i h. ground (arith, end_stamps i, end_slots i, h, inv.stamped i);
    }
      where
        still_held : (i : ℕ) → slot emptied.store'.points i ≢ none → 0 < holders a walk.after i
        still_held i h = elim (Bool-cases (i == idx)) [
          | inl e ↦ absurd (h (end_slots i ∙ rw e refl))
          | inr e ↦ ground (arith, walk.left i, e, inv.used i (λ n. h (end_slots i ∙ rw e n)))
        ]

  pub delete-IsBalanced :
      (f : RandomCutForest F R b)
      → IsBalanced a draw IsNumber f
      → Failed
          (DeleteFails a draw dim fuel climb_fuel failures b idx f)
          (delete a draw dim fuel climb_fuel failures f idx)
        ⊎ Deleted f (delete a draw dim fuel climb_fuel failures f idx)
  unfolding delete end_forest
  delete-IsBalanced f inv =
      elim (walk_cases a draw dim fuel climb_fuel failures b IsNumber heap idx f.trees f.point_store
        inv.counted inv.valid.counts_len (omega (arith, inv.counts idx)) inv.sampled) [
          | inl bad ↦ inl (Failed->>= _ bad)
          | inr walk ↦
              let freed' = emptied f inv walk in
              inr (record {
                after = end_forest f inv walk;
                ran = rw (walk.ran, freed'.ran, walk.removed) refl;
                balanced = end-IsBalanced f inv walk;
                left = walk.left;
                slots = end_slots f inv walk;
                stamps = end_stamps f inv walk;
              })
        ]
