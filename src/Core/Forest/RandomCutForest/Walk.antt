-- ===== src/Core/Forest/RandomCutForest/Walk.antt =====
-- The walk over the trees in an update of the forest: `update_trees` of
-- core/src/forest/random_cut_forest.rs.
use anomstream.Prelude.{
  ℕ, suc, ◌+◌, ◌^◌, ◌≤◌, ◌<◌, ◌≡◌, ◌≢◌, ◌⊎◌, inl, inr, refl, sym, ap, ◌∙◌, ◌==◌, if◌then◌else◌,
  List, [], ◌∷◌, Option, none, some, length, count, arith,
}
use anomstream.Core.Error.{ok}
use anomstream.Core.Slab.{slot}
use anomstream.Core.Sampler.{SamplerArith, BinaryHeap, ReservoirSampler, WeightedEntry, candidate}
use anomstream.Core.Sampler.Heap.{IsOrder, IsHeap, IsWeighed}
use anomstream.Core.Sampler.Kept.{IsReservoir}
use anomstream.Core.Sampler.Accept.{accept-Accepted}
use anomstream.Core.Forest.PointStore.{PointStore, load}
use anomstream.Core.Forest.PointStore.Validity.{IsCounted}
use anomstream.Core.Forest.RandomCutForest.{Run, TreeSlot, held_by}
use anomstream.Core.Forest.RandomCutForest.Insertion.{process_tree_update, update_trees, with_freed}
use anomstream.Core.Forest.RandomCutForest.Holders.{holders, IsSampled, AllSampled, lost, occurs}
use anomstream.Core.Forest.RandomCutForest.Step.{Processed, apply-Outcome}
use anomstream.Core.Forest.RandomCutForest.Failures.{Failed, UpdateFails, WalkFails}
use anomstream.Core.Forest.RandomCutForest.SamePoints.{SamePoints}

count_nil : (i : ℕ) → count i [] ≡ 0
unfolding count
count_nil i = refl

count-with_freed :
    (o : Option ℕ) (is : List ℕ) (i : ℕ) → count i (with_freed o is) ≡ occurs o i + count i is
unfolding count
count-with_freed none is i = omega arith
count-with_freed (some j) is i = refl

module _ {F R : Type 0} (a : SamplerArith F) (draw : R → F × R) (dim fuel climb_fuel failures : ℕ)
    (b : BinaryHeap F) (IsNumber : F → Type 0) (order : IsOrder a.f64.lt IsNumber)
    (heap : IsHeap b a.f64.lt IsNumber) (number : IsWeighed a b draw IsNumber) (new_idx : ℕ)
    (p : List F) where
  forget_dropped :
      {s : ReservoirSampler b} {dropped : List (WeightedEntry F)}
      → IsReservoir a draw IsNumber s dropped
      → IsReservoir a draw IsNumber s []
  forget_dropped r = record {
    positive = r.positive;
    decay_ok = r.decay_ok;
    held = r.held;
    full = λ h. absurd (omega arith);
    kept_numbers = r.kept_numbers;
    dropped_numbers = tt;
    least = tt;
  }

  process_cases :
      (store : PointStore F) (t : TreeSlot F R b)
      → IsCounted store
      → length store.ref_counts ≡ length store.points
      → slot store.points new_idx ≡ some p
      → load store new_idx + 1 < 2 ^ 32
      → count new_idx (held_by a t) ≡ 0
      → ((i : ℕ) → count i (held_by a t) ≤ load store i)
      → IsSampled a draw IsNumber t
      → Failed
          (UpdateFails a draw dim fuel climb_fuel failures b new_idx p store t)
          (process_tree_update a draw dim fuel climb_fuel failures store new_idx t)
        ⊎ Processed a draw dim fuel climb_fuel failures b new_idx p store t IsNumber
            (process_tree_update a draw dim fuel climb_fuel failures store new_idx t)
  unfolding process_tree_update
  process_cases store t counted lens live word absent backed sampled =
      let acc =
        accept-Accepted a draw IsNumber order heap number t.sampler [] new_idx t.rng
          sampled.reservoir in
      let outcome =
        apply-Outcome a draw dim fuel climb_fuel failures b new_idx p IsNumber store t counted lens
          live word absent backed sampled.once acc.after
          (candidate a draw t.sampler new_idx t.rng).1 (forget_dropped acc.IsReservoir-after) acc.op
          acc.indices acc.gone-le in
      elim outcome [
        | inl (e, bad, why) ↦ inl (e, rw acc.ran bad, (acc.op, acc.after, _, acc.ran, why))
        | inr done ↦ inr (rw acc.ran done)
      ]

  -- What the walk does to the counts, and which slots it reports.
  pub record Walked (store : PointStore F) (slots : List (TreeSlot F R b))
      (run : Run (List ℕ × List (TreeSlot F R b) × PointStore F)) : Type 0 where
    pub out : List ℕ
    pub slots' : List (TreeSlot F R b)
    pub store' : PointStore F
    pub ran : run ≡ some (ok (out, slots', store'))
    pub kept : SamePoints store store'
    pub sampled : AllSampled a draw IsNumber slots'
    pub counts : (i : ℕ) → load store' i + holders a slots i ≡ load store i + holders a slots' i
    pub falls : (i : ℕ) → i ≢ new_idx → load store' i ≤ load store i
    pub frees :
        (i : ℕ) → count i out ≡ (if i == new_idx then 0 else lost (load store i) (load store' i))
    pub as_many : length slots' ≡ length slots

  pub update_trees_cases :
      (slots : List (TreeSlot F R b)) (store : PointStore F)
      → IsCounted store
      → length store.ref_counts ≡ length store.points
      → slot store.points new_idx ≡ some p
      → load store new_idx + length slots < 2 ^ 32
      → holders a slots new_idx ≡ 0
      → ((i : ℕ) → holders a slots i ≤ load store i)
      → AllSampled a draw IsNumber slots
      → Failed
          (WalkFails a draw dim fuel climb_fuel failures b new_idx p store slots)
          (update_trees a draw dim fuel climb_fuel failures store new_idx slots)
        ⊎ Walked store slots (update_trees a draw dim fuel climb_fuel failures store new_idx slots)
  unfolding update_trees holders
  update_trees_cases [] store counted lens live word absent backed sampled = inr (record {
    out = [];
    slots' = [];
    store' = store;
    ran = refl;
    kept = record { points = refl; free_list = refl; counts_len = refl; counted = counted };
    sampled = tt;
    counts = λ i. refl;
    falls = λ i h. omega arith;
    frees = λ i. ground (arith, count_nil i);
    as_many = refl;
  })
  update_trees_cases (t ∷ slots) store counted lens live word absent backed sampled =
      elim (process_cases store t counted lens live (omega arith) (omega arith)
        (λ i. omega (arith, backed i)) sampled.0) [
          | inl (e, bad, why) ↦ inl (e, rw bad refl, inl why)
          | inr one ↦
              elim (update_trees_cases slots one.store' one.kept.counted
                (one.kept.counts_len ∙ lens ∙ ap length (sym one.kept.points))
                (ap (λ ps. slot ps new_idx) one.kept.points ∙ live)
                (omega (arith, one.counts new_idx, one.sampled.once new_idx)) (omega arith)
                (λ i. omega (arith, one.counts i, backed i)) sampled.1) [
                  | inl (e, bad, why) ↦ inl (
                    e,
                    rw (one.ran, bad) refl,
                    inr (one.freed, one.slot', one.store', one.ran, why),
                  )
                  | inr rest ↦ inr (record {
                    out = with_freed one.freed rest.out;
                    slots' = one.slot' ∷ rest.slots';
                    store' = rest.store';
                    ran = rw (one.ran, rest.ran) refl;
                    kept = record {
                      points = rest.kept.points ∙ one.kept.points;
                      free_list = rest.kept.free_list ∙ one.kept.free_list;
                      counts_len = rest.kept.counts_len ∙ one.kept.counts_len;
                      counted = rest.kept.counted;
                    };
                    sampled = (one.sampled, rest.sampled);
                    counts = λ i. omega (arith, one.counts i, rest.counts i);
                    falls = λ i h. omega (arith, one.falls i h, rest.falls i h);
                    frees = λ i. ground (
                      arith,
                      count-with_freed one.freed rest.out i,
                      one.frees i,
                      rest.frees i,
                      one.falls i,
                      rest.falls i,
                    );
                    as_many = ap suc rest.as_many;
                  })
                ]
        ]
