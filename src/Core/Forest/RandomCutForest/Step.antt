-- ===== src/Core/Forest/RandomCutForest/Step.antt =====
-- One tree's part in an update of the forest: `process_tree_update` of
-- core/src/forest/random_cut_forest.rs.
use anomstream.Prelude.{
  ℕ, suc, ◌+◌, ◌-◌, ◌^◌, ◌≤◌, ◌<◌, ◌≡◌, ◌≢◌, ◌⊎◌, inl, inr, refl, ap, ◌∙◌, ◌==◌, if◌then◌else◌,
  List, [], Option, none, some, length, count, same, arith, length-set, Option-cases,
}
use anomstream.Core.Error.{ok, err, result_cases}
use anomstream.Core.Slab.{slot}
use anomstream.Core.Slab.Vacant.{lt_of_slot}
use anomstream.Core.Sampler.{
  SamplerOp, inserted, replaced, rejected, SamplerArith, BinaryHeap, ReservoirSampler,
}
use anomstream.Core.Sampler.Kept.{IsReservoir, came, gone}
use anomstream.Core.Tree.RandomCutTree.{RandomCutTree}
use anomstream.Core.Forest.PointStore.{PointStore, load, point}
use anomstream.Core.Forest.PointStore.Validity.{IsCounted}
use anomstream.Core.Forest.PointStore.Counts.{with_count, incr_ref-live, decr_ref-pos}
use anomstream.Core.Forest.RandomCutForest.{Run, TreeSlot, held_by, tree_add, tree_delete}
use anomstream.Core.Forest.RandomCutForest.Insertion.{insert_new, apply}
use anomstream.Core.Forest.RandomCutForest.Holders.{IsSampled, lost, occurs}
use anomstream.Core.Forest.RandomCutForest.Failures.{Failed, Failed->>=, ApplyFails}
use anomstream.Core.Forest.RandomCutForest.SamePoints.{
  SamePoints, load-with_count, with_count-SamePoints,
}

module _ {F R : Type 0} (a : SamplerArith F) (draw : R → F × R) (dim fuel climb_fuel failures : ℕ)
    (b : BinaryHeap F) where
  module _ (new_idx : ℕ) (p : List F) where
    insert_new_cases :
        (store : PointStore F) (t : TreeSlot F R b)
        → length store.ref_counts ≡ length store.points
        → slot store.points new_idx ≡ some p
        → load store new_idx + 1 < 2 ^ 32
        → Failed
            (λ e. tree_add a draw dim fuel climb_fuel failures store new_idx p t ≡ err e)
            (insert_new a draw dim fuel climb_fuel failures store new_idx t)
          ⊎ ((tree : RandomCutTree F) × (rng : R) × (insert_new a draw dim fuel climb_fuel failures
                  store new_idx t
                ≡ some (
                    ok (
                      record t { tree = tree; rng = rng },
                      with_count store new_idx (load store new_idx + 1),
                    ))))
    unfolding insert_new point
    insert_new_cases store t lens live word =
        elim (result_cases (tree_add a draw dim fuel climb_fuel failures store new_idx p t)) [
          | inl ((tree, rng), added) ↦ inr (
            tree,
            rng,
            rw (live, added, incr_ref-live store new_idx p lens live)
                (ap
                  (λ n. some (ok (record t { tree = tree; rng = rng }, with_count store new_idx n)))
                  (omega arith)),
          )
          | inr (e, bad) ↦ inl (e, rw (live, bad) refl, bad)
        ]

    -- What one tree does to the counts: it takes one reference for each index that its sampler now
    -- holds, gives one back for each that it no longer holds, and reports the last ones given back.
    pub record Processed (store : PointStore F) (t : TreeSlot F R b) (IsNumber : F → Type 0)
        (run : Run (Option ℕ × TreeSlot F R b × PointStore F)) : Type 0 where
      pub freed : Option ℕ
      pub slot' : TreeSlot F R b
      pub store' : PointStore F
      pub ran : run ≡ some (ok (freed, slot', store'))
      pub kept : SamePoints store store'
      pub sampled : IsSampled a draw IsNumber slot'
      pub counts :
          (i : ℕ) → load store' i + count i (held_by a t) ≡ load store i + count i (held_by a slot')
      pub falls : (i : ℕ) → i ≢ new_idx → load store' i ≤ load store i
      pub frees :
          (i : ℕ)
          → occurs freed i ≡ (if i == new_idx then 0 else lost (load store i) (load store' i))

    module _ (IsNumber : F → Type 0) (store : PointStore F) (t : TreeSlot F R b)
        (counted : IsCounted store) (lens : length store.ref_counts ≡ length store.points)
        (live : slot store.points new_idx ≡ some p) (word : load store new_idx + 1 < 2 ^ 32)
        (absent : count new_idx (held_by a t) ≡ 0)
        (backed : (i : ℕ) → count i (held_by a t) ≤ load store i)
        (once : (i : ℕ) → count i (held_by a t) ≤ 1) (s' : ReservoirSampler b) (rng' : R)
        (r : IsReservoir a draw IsNumber s' []) where
      abbrev pub asked : TreeSlot F R b
      asked = record t { sampler = s'; rng = rng' }

      in_range : new_idx < length store.ref_counts
      in_range = omega (arith, lens, lt_of_slot store.points new_idx p live)

      abbrev pub Outcome : SamplerOp → Type 0
      Outcome op =
          ((i : ℕ)
            → gone op i + count i (held_by a asked) ≡ came op new_idx i + count i (held_by a t))
          → ((i : ℕ) → gone op i ≤ count i (held_by a t))
          → Failed (ApplyFails a draw dim fuel climb_fuel failures b new_idx p store asked op)
              (apply a draw dim fuel climb_fuel failures op store new_idx asked)
            ⊎ Processed store t IsNumber
                (apply a draw dim fuel climb_fuel failures op store new_idx asked)

      apply-rejected : Outcome rejected
      unfolding apply
      apply-rejected eqs les = inr (record {
        freed = none;
        slot' = asked;
        store' = store;
        ran = refl;
        kept = record { points = refl; free_list = refl; counts_len = refl; counted = counted };
        sampled = record { reservoir = r; once = λ i. omega (arith, eqs i, once i) };
        counts = λ i. omega (arith, eqs i);
        falls = λ i h. omega arith;
        frees = λ i. ground arith;
      })

      apply-inserted : Outcome inserted
      unfolding apply
      apply-inserted eqs les = elim (insert_new_cases store asked lens live word) [
        | inl bad ↦ inl (Failed->>= _ bad)
        | inr (tree, rng, ran) ↦ inr (record {
          freed = none;
          slot' = record asked { tree = tree; rng = rng };
          store' = with_count store new_idx (load store new_idx + 1);
          ran = rw ran refl;
          kept =
              with_count-SamePoints store new_idx (load store new_idx + 1) p counted lens live word;
          sampled = record { reservoir = r; once = λ i. ground (arith, eqs i, once i, absent) };
          counts = λ i.
              ground
                (arith, eqs i, load-with_count store new_idx i (load store new_idx + 1) in_range);
          falls = λ i h.
              ground (arith, load-with_count store new_idx i (load store new_idx + 1) in_range);
          frees = λ i.
              ground (arith, load-with_count store new_idx i (load store new_idx + 1) in_range);
        })
      ]

      module _ (evicted c : ℕ) (q : List F) (other : evicted ≢ new_idx)
          (live_evicted : slot store.points evicted ≡ some q)
          (load_evicted : load store evicted ≡ suc c) where
        store1 : PointStore F
        store1 = with_count store evicted c

        below : evicted < length store.ref_counts
        below = omega (arith, lens, lt_of_slot store.points evicted q live_evicted)

        load1 : (i : ℕ) → load store1 i ≡ (if evicted == i then c else load store i)
        unfolding store1
        load1 i = load-with_count store evicted i c below

        kept1 : SamePoints store store1
        unfolding store1
        kept1 =
            with_count-SamePoints store evicted c q counted lens live_evicted
              (omega (arith, load_evicted, counted.word evicted))

        load_new : load store1 new_idx ≡ load store new_idx
        load_new = load1 new_idx ∙ ground arith

        store2 : PointStore F
        store2 = with_count store1 new_idx (load store1 new_idx + 1)

        load2 :
            (i : ℕ)
            → load store2 i ≡ (if new_idx == i then load store1 new_idx + 1 else load store1 i)
        unfolding store1 store2
        load2 i =
            load-with_count store1 new_idx i (load store1 new_idx + 1)
              (omega (arith, length-set store.ref_counts evicted c, in_range))

        kept2 : SamePoints store store2
        unfolding store1 store2
        kept2 =
            let second =
              with_count-SamePoints store1 new_idx (load store1 new_idx + 1) p kept1.counted
                (kept1.counts_len ∙ lens) live (omega (arith, load_new, word)) in
            record {
              points = refl;
              free_list = refl;
              counts_len = second.counts_len ∙ kept1.counts_len;
              counted = second.counted;
            }

        replaced-Processed :
            ((i : ℕ)
              → same evicted i + count i (held_by a asked) ≡ same new_idx i + count i (held_by a t))
            → (tree' : RandomCutTree F) (rng'' : R)
              (run : Run (Option ℕ × TreeSlot F R b × PointStore F))
            → run
              ≡ some (
                  ok (
                    if c == 0 then some evicted else none,
                    record asked { tree = tree'; rng = rng'' },
                    store2,
                  ))
            → Processed store t IsNumber run
        replaced-Processed eqs tree' rng'' run ran = record {
          freed = if c == 0 then some evicted else none;
          slot' = record asked { tree = tree'; rng = rng'' };
          store' = store2;
          ran = ran;
          kept = kept2;
          sampled = record { reservoir = r; once = λ i. ground (arith, eqs i, once i, absent) };
          counts = λ i. ground (arith, eqs i, load1 i, load2 i, load_new, load_evicted);
          falls = λ i h. ground (arith, load1 i, load2 i, load_evicted);
          frees = λ i. ground (arith, load1 i, load2 i, load_evicted, other);
        }

      apply-replaced : (evicted : ℕ) → Outcome (replaced evicted)
      unfolding apply store1 store2
      apply-replaced evicted eqs les = elim (Option-cases (slot store.points evicted)) [
        | inl gone' ↦
            absurd (ground (arith, les evicted, backed evicted, counted.idle evicted gone'))
        | inr (q, live_evicted) ↦
            let some_load : load store evicted ≡ suc (load store evicted - 1) =
              ground (arith, les evicted, backed evicted) in
            let other : evicted ≢ new_idx = λ e. ground (arith, les evicted, absent) in
            let decr =
              decr_ref-pos store evicted q lens live_evicted failures (load store evicted - 1)
                some_load in
            elim (result_cases
              (tree_delete a draw dim fuel climb_fuel failures store evicted asked)) [
                | inr (e, bad) ↦ inl (e, rw bad refl, inl bad)
                | inl (tree, deleted) ↦
                    let kept =
                      kept1 evicted (load store evicted - 1) q other live_evicted some_load in
                    elim (insert_new_cases
                      (store1 evicted (load store evicted - 1) q other live_evicted some_load)
                      (record asked { tree = tree }) (kept.counts_len ∙ lens) live
                      (omega (
                        arith,
                        word,
                        load_new evicted (load store evicted - 1) q other live_evicted some_load,
                      ))) [
                        | inl (e, bad, why) ↦
                            inl (
                              e,
                              rw (deleted, decr, bad) refl,
                              inr (tree, _, _, deleted, decr, why),
                            )
                        | inr (tree', rng'', ran) ↦ inr (
                            replaced-Processed evicted (load store evicted - 1) q other live_evicted
                              some_load eqs tree' rng'' _ (rw (deleted, decr, ran) refl))
                      ]
              ]
      ]

      pub apply-Outcome : (op : SamplerOp) → Outcome op
      apply-Outcome inserted = apply-inserted
      apply-Outcome (replaced evicted) = apply-replaced evicted
      apply-Outcome rejected = apply-rejected
