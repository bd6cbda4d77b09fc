-- ===== src/Core/Forest/RandomCutForest/RetractWalk.antt =====
-- Removal of a point from each tree that holds it: `delete_from_trees` of
-- core/src/forest/random_cut_forest.rs.
use anomstream.Prelude.{
  ℕ, suc, ◌+◌, ◌-◌, ◌≤◌, ◌<◌, ◌≡◌, ◌⊎◌, inl, inr, refl, sym, ap, ◌∙◌, Bool, true, false, ◌&&◌, ◌||◌,
  ltb, ◌==◌, if◌then◌else◌, Bool-cases, Option-cases, List, [], ◌∷◌, some, length, count, arith,
}
use anomstream.Core.Error.{ok, err, result_cases}
use anomstream.Core.Slab.{slot}
use anomstream.Core.Slab.Vacant.{lt_of_slot}
use anomstream.Core.Sampler.{SamplerArith, BinaryHeap, ReservoirSampler, weigh}
use anomstream.Core.Sampler
use anomstream.Core.Sampler.Heap.{IsHeap}
use anomstream.Core.Sampler.Removed.{remove_lem, remove-IsReservoir}
use anomstream.Core.Forest.PointStore.{PointStore, load}
use anomstream.Core.Forest.PointStore.Validity.{IsCounted}
use anomstream.Core.Forest.PointStore.Counts.{with_count, decr_ref-pos}
use anomstream.Core.Forest.RandomCutForest.{Run, TreeSlot, held_by, tree_delete}
use anomstream.Core.Forest.RandomCutForest.Deletion.{process_tree_delete, delete_from_trees}
use anomstream.Core.Forest.RandomCutForest.Holders.{holders, IsSampled, AllSampled}
use anomstream.Core.Forest.RandomCutForest.Failures.{Failed, RetractFails}
use anomstream.Core.Forest.RandomCutForest.SamePoints.{
  SamePoints, load-with_count, with_count-SamePoints,
}

-- What a removal does to the counts, for the trees with the given numbers of holders.
pub record Retracted {F : Type 0} (idx : ℕ) (store : PointStore F) {A : Type 0}
    (InOrder : A → Type 0) (held : A → ℕ → ℕ) (measure : A → ℕ) (before : A)
    (run : Run ((Bool × Bool) × A × PointStore F)) : Type 0 where
  pub flags : Bool × Bool
  pub after : A
  pub store' : PointStore F
  pub ran : run ≡ some (ok (flags, after, store'))
  pub kept : SamePoints store store'
  pub in_order : InOrder after
  pub left : (i : ℕ) → held after i ≡ (if i == idx then 0 else held before i)
  pub counts : (i : ℕ) → load store' i + held before i ≡ load store i + held after i
  pub size : measure after ≡ measure before
  pub removed : flags.0 ≡ ltb 0 (held before idx)
  pub zero' : flags.1 ≡ (ltb 0 (held before idx) && load store' idx == 0)

module _ {F R : Type 0} (a : SamplerArith F) (draw : R → F × R) (dim fuel climb_fuel failures : ℕ)
    (b : BinaryHeap F) (IsNumber : F → Type 0) (heap : IsHeap b a.f64.lt IsNumber) (idx : ℕ) where
  abbrev held1 : TreeSlot F R b → ℕ → ℕ
  held1 t i = count i (held_by a t)

  retract : TreeSlot F R b → TreeSlot F R b
  retract t = record t { sampler = (Sampler.remove a t.sampler idx).1 }

  process_delete_cases :
      (store : PointStore F) (t : TreeSlot F R b)
      → IsCounted store
      → length store.ref_counts ≡ length store.points
      → held1 t idx ≤ load store idx
      → IsSampled a draw IsNumber t
      → Failed
          (λ e.
            ((Sampler.remove a t.sampler idx).0 ≡ true)
            × (tree_delete a draw dim fuel climb_fuel failures store idx (retract t) ≡ err e))
          (process_tree_delete a draw dim fuel climb_fuel failures store idx t)
        ⊎ Retracted idx store
            (IsSampled a draw IsNumber)
            held1
            (λ _. 1)
            t
            (process_tree_delete a draw dim fuel climb_fuel failures store idx t)
  unfolding process_tree_delete retract
  process_delete_cases store t counted lens backed sampled =
      let (answer, counts, same_rest) = remove_lem a draw IsNumber heap t.sampler idx in
      let reservoir = remove-IsReservoir a draw IsNumber heap t.sampler [] idx sampled.reservoir in
      let in_order : IsSampled a draw IsNumber (retract t) = record {
        reservoir = reservoir;
        once = λ i. ground (arith, counts i, sampled.once i);
      } in
      elim (Bool-cases (ltb 0 (held1 t idx))) [
        | inr absent ↦ inr (record {
          flags = (false, false);
          after = retract t;
          store' = store;
          ran = rw (answer, absent) refl;
          kept = record { points = refl; free_list = refl; counts_len = refl; counted = counted };
          in_order = in_order;
          left = counts;
          counts = λ i. ground (arith, counts i, absent);
          size = refl;
          removed = sym absent;
          zero' = rw absent refl;
        })
        | inl held ↦ elim (Option-cases (slot store.points idx)) [
          | inl dead ↦ absurd (ground (arith, held, backed, counted.idle idx dead))
          | inr (q, live) ↦
              let c = load store idx - 1 in
              let some_load : load store idx ≡ suc c = ground (arith, held, backed) in
              let decr = decr_ref-pos store idx q lens live failures c some_load in
              let in_range : idx < length store.ref_counts =
                omega (arith, lens, lt_of_slot store.points idx q live) in
              elim (result_cases
                (tree_delete a draw dim fuel climb_fuel failures store idx (retract t))) [
                  | inr (e, bad) ↦ inl (e, rw (answer, held, bad) refl, (answer ∙ held, bad))
                  | inl (tree, deleted) ↦ inr (record {
                    flags = (true, c == 0);
                    after = record (retract t) { tree = tree };
                    store' = with_count store idx c;
                    ran = rw (answer, held, deleted, decr) refl;
                    kept =
                        with_count-SamePoints store idx c q counted lens live
                          (omega (arith, some_load, counted.word idx));
                    in_order = record {
                      reservoir = reservoir;
                      once = λ i. ground (arith, counts i, sampled.once i);
                    };
                    left = counts;
                    counts = λ i. ground (
                      arith,
                      counts i,
                      held,
                      sampled.once i,
                      some_load,
                      load-with_count store idx i c in_range,
                    );
                    size = refl;
                    removed = sym held;
                    zero' = ground (arith, held, load-with_count store idx idx c in_range);
                  })
                ]
        ]
      ]

  pub walk_cases :
      (slots : List (TreeSlot F R b)) (store : PointStore F)
      → IsCounted store
      → length store.ref_counts ≡ length store.points
      → holders a slots idx ≤ load store idx
      → AllSampled a draw IsNumber slots
      → Failed
          (RetractFails a draw dim fuel climb_fuel failures b idx store slots)
          (delete_from_trees a draw dim fuel climb_fuel failures store idx slots)
        ⊎ Retracted idx store
            (AllSampled a draw IsNumber)
            (holders a)
            length
            slots
            (delete_from_trees a draw dim fuel climb_fuel failures store idx slots)
  unfolding delete_from_trees holders retract
  walk_cases [] store counted lens backed sampled = inr (record {
    flags = (false, false);
    after = [];
    store' = store;
    ran = refl;
    kept = record { points = refl; free_list = refl; counts_len = refl; counted = counted };
    in_order = tt;
    left = λ i. ground arith;
    counts = λ i. refl;
    size = refl;
    removed = refl;
    zero' = refl;
  })
  walk_cases (t ∷ slots) store counted lens backed sampled =
      elim (process_delete_cases store t counted lens (omega arith) sampled.0) [
        | inl (e, bad, why) ↦ inl (e, rw bad refl, inl why)
        | inr one ↦
            elim (walk_cases slots one.store' one.kept.counted
              (one.kept.counts_len ∙ lens ∙ ap length (sym one.kept.points))
              (ground (arith, one.counts idx, one.left idx)) sampled.1) [
                | inl (e, bad, why) ↦ inl (
                  e,
                  rw (one.ran, bad) refl,
                  inr (one.flags, one.after, one.store', one.ran, why),
                )
                | inr rest ↦ inr (record {
                  flags = (one.flags.0 || rest.flags.0, one.flags.1 || rest.flags.1);
                  after = one.after ∷ rest.after;
                  store' = rest.store';
                  ran = rw (one.ran, rest.ran) refl;
                  kept = record {
                    points = rest.kept.points ∙ one.kept.points;
                    free_list = rest.kept.free_list ∙ one.kept.free_list;
                    counts_len = rest.kept.counts_len ∙ one.kept.counts_len;
                    counted = rest.kept.counted;
                  };
                  in_order = (one.in_order, rest.in_order);
                  left = λ i. ground (arith, one.left i, rest.left i);
                  counts = λ i. omega (arith, one.counts i, rest.counts i);
                  size = ap suc rest.size;
                  removed = ground (arith, one.removed, rest.removed);
                  zero' = ground (
                    arith,
                    one.zero',
                    rest.zero',
                    one.counts idx,
                    rest.counts idx,
                    one.left idx,
                    rest.left idx,
                    backed,
                  );
                })
              ]
      ]
