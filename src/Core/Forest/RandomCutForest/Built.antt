-- ===== src/Core/Forest/RandomCutForest/Built.antt =====
-- A forest that was just built: `from_config` of core/src/forest/random_cut_forest.rs.
use anomstream.Prelude.{
  ℕ, zero, suc, ◌+◌, ◌<◌, ◌^◌, ◌≡◌, refl, ap, sym, subst, inl, inr, Bool-cases, List, [], Option,
  none, some, length, map, count, arith, Bool, ◌∙◌, ◌==◌,
}
use anomstream.Core.Error.{RcfResult, ok, result_cases}
use anomstream.Core.Sampler.{
  SamplerArith, BinaryHeap, ReservoirSampler, with_initial_accept_fraction,
}
use anomstream.Core.Sampler.Heap.{IsHeap}
use anomstream.Core.Sampler.Streams.{fresh}
use anomstream.Core.Slab.{slot, vacant}
use anomstream.Core.Forest.PointStore
use anomstream.Core.Forest.PointStore.{PointStore, load}
use anomstream.Core.Forest.PointStore.Validity.{IsValid, IsCounted}
use anomstream.Core.Forest.Timestamps.{get}
use anomstream.Core.Forest.RandomCutForest.{TreeSlot, RandomCutForest, Run, Run-cases}
use anomstream.Core.Forest.RandomCutForest.Config.{
  RcfConfig, validate_feature_scales_dimension, build_trees, from_config, new_tree,
}
use anomstream.Core.Forest.RandomCutForest.Holders.{holders, AllSampled}
use anomstream.Core.Forest.RandomCutForest.Update.{IsBalanced}

given : {A : Type 0} {v w : A} → ◌≡◌ {A = Run A} (some (ok v)) (some (ok w)) → v ≡ w
given h = cc

no_point : {A : Type 0} {p : A} {B : Type 0} → ◌≡◌ {A = Option A} none (some p) → B
no_point h = absurd (cc)

new_store :
    {F : Type 0} (is_finite : F → Bool) (dim : ℕ) (store : PointStore F)
    → PointStore.new dim ≡ ok store
    → IsValid is_finite store
      × IsCounted store
      × ((i : ℕ) → slot store.points i ≡ none)
      × ((i : ℕ) → load store i ≡ 0)
unfolding PointStore.new count vacant
new_store {F} is_finite dim store h = elim (Bool-cases (dim == 0)) [
  | inl e ↦ absurd (cc (rw e at h))
  | inr e ↦
      subst
        (λ (s : PointStore F).
          IsValid is_finite s
          × IsCounted s
          × ((i : ℕ) → slot s.points i ≡ none)
          × ((i : ℕ) → load s i ≡ 0))
        (let same : record { points = []; ref_counts = []; free_list = [] } ≡ store =
            cc (rw e at h) in
          same)
        (
          record { counts_len = refl; free_slots = λ i. refl; finite = λ i p d. no_point d },
          record { word = λ i. omega arith; idle = λ i d. refl },
          (λ i. refl),
          (λ i. refl),
        )
]

module _ {F R : Type 0} (a : SamplerArith F) (draw : R → F × R) (dim : ℕ) (b : BinaryHeap F)
    (IsNumber : F → Type 0) (heap : IsHeap b a.f64.lt IsNumber) (seeded : ℕ → R) where
  nothing_held :
      (s : ReservoirSampler b) (i : ℕ)
      → b.entries s.heap ≡ []
      → count i (map (λ e. e.point_idx) (b.entries s.heap)) ≡ 0
  unfolding count
  nothing_held s i h = rw h refl

  abbrev new_sampler : RcfConfig F → RcfResult (ReservoirSampler b)
  new_sampler config =
      with_initial_accept_fraction a b config.sample_size config.time_decay
        config.initial_accept_fraction

  build_trees_lem :
      (config : RcfConfig F) (i n : ℕ) (trees : List (TreeSlot F R b))
      → build_trees a dim b seeded config i n ≡ some (ok trees)
      → AllSampled a draw IsNumber trees × ((j : ℕ) → holders a trees j ≡ 0) × (length trees ≡ n)
  unfolding build_trees holders
  build_trees_lem config i zero trees h =
      subst
        (λ (ts : List (TreeSlot F R b)).
          AllSampled a draw IsNumber ts × ((j : ℕ) → holders a ts j ≡ 0) × (length ts ≡ 0))
        (given h) (tt, (λ j. refl), refl)
  build_trees_lem config i (suc n) trees h = elim (result_cases (new_tree a dim b seeded config)) [
    | inr (e, bad) ↦ absurd (cc (rw bad at h))
    | inl (tree, tree_ok) ↦ elim (result_cases (new_sampler config)) [
      | inr (e, bad) ↦ absurd (cc (rw (tree_ok, bad) at h))
      | inl (sampler, sampler_ok) ↦ elim (Run-cases (build_trees a dim b seeded config (i + 1) n)) [
        | inl stop ↦ absurd (cc (rw (tree_ok, sampler_ok, stop) at h))
        | inr (inl (e, bad)) ↦ absurd (cc (rw (tree_ok, sampler_ok, bad) at h))
        | inr (inr (rest, rest_ok)) ↦
            let (sampled, empty, as_many) = build_trees_lem config (i + 1) n rest rest_ok in
            let (reservoir, none_held, cap) =
              fresh a draw IsNumber heap config.sample_size config.time_decay
                config.initial_accept_fraction sampler sampler_ok in
            subst
              (λ (ts : List (TreeSlot F R b)).
                AllSampled a draw IsNumber ts
                × ((j : ℕ) → holders a ts j ≡ 0)
                × (length ts ≡ suc n))
              (given (rw (tree_ok, sampler_ok, rest_ok) at h))
              (
                (
                  record {
                    reservoir = reservoir;
                    once = λ j. omega (arith, nothing_held sampler j none_held);
                  },
                  sampled,
                ),
                (λ j. omega (arith, nothing_held sampler j none_held, empty j)),
                ap suc as_many,
              )
      ]
    ]
  ]

  -- Let `BinaryHeap` behave as documented. A forest that `from_config` builds of fewer than 2^32 trees is balanced (`IsBalanced`), with the
  -- configured number of trees and no live point.
  pub from_config-IsBalanced :
      (config : RcfConfig F) (f : RandomCutForest F R b)
      → config.num_trees < 2 ^ 32
      → from_config a dim b seeded config ≡ some (ok f)
      → IsBalanced a draw IsNumber f
        × (length f.trees ≡ config.num_trees)
        × ((i : ℕ) → slot f.point_store.points i ≡ none)
  unfolding from_config get
  from_config-IsBalanced config f few h =
      elim (result_cases (validate_feature_scales_dimension config.feature_scales dim)) [
        | inr (e, bad) ↦ absurd (cc (rw bad at h))
        | inl (u, scales_ok) ↦
            elim (Run-cases (build_trees a dim b seeded config 0 config.num_trees)) [
              | inl stop ↦ absurd (cc (rw (scales_ok, stop) at h))
              | inr (inl (e, bad)) ↦ absurd (cc (rw (scales_ok, bad) at h))
              | inr (inr (trees, trees_ok)) ↦ elim (result_cases (PointStore.new {F = F} dim)) [
                | inr (e, bad) ↦ absurd (cc (rw (scales_ok, trees_ok, bad) at h))
                | inl (store, store_ok) ↦
                    let (sampled, empty, as_many) =
                      build_trees_lem config 0 config.num_trees trees trees_ok in
                    let (valid, counted, dead, idle) =
                      new_store a.f64.is_finite dim store store_ok in
                    subst
                      (λ (g : RandomCutForest F R b).
                        IsBalanced a draw IsNumber g
                        × (length g.trees ≡ config.num_trees)
                        × ((i : ℕ) → slot g.point_store.points i ≡ none))
                      (given (rw (scales_ok, trees_ok, store_ok) at h))
                      (
                        record {
                          valid = valid;
                          counted = counted;
                          sampled = sampled;
                          few = omega (arith, as_many, few);
                          counts = λ i. idle i ∙ sym (empty i);
                          used = λ i live. absurd (live (dead i));
                          stamped = λ i e. refl;
                        },
                        as_many,
                        dead,
                      )
              ]
            ]
      ]
