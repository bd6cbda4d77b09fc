-- ===== src/Core/Sampler/Accept.antt =====
-- One call of `accept` of the sampler of core/src/sampler/reservoir.rs.
use anomstream.Prelude.{
  ℕ, false, ◌+◌, ◌≤◌, ◌≡◌, refl, ap, inl, inr, Bool-cases, Option-cases, List, ◌∷◌, ◌++◌, Option,
  none, some, arith, subst, count,
}
use mathlib.Core.List.Permᴰ
use mathlib.Core.List.{Permᴰ}
use anomstream.Core.Sampler.{
  SamplerOp, rejected, WeightedEntry, SamplerArith, BinaryHeap, ReservoirSampler, candidate, weigh,
  bad_decay, counted, accept, admit_probability, iter_indices,
}
use anomstream.Core.Sampler.Heap.{IsOrder, IsHeap, IsWeighed}
use anomstream.Core.Sampler.Kept.{IsReservoir, offer-Offered, came, gone}

-- The candidates weighed, with one more if the gate let it in.
abbrev pub with_candidate :
    {F : Type 0} → Option (WeightedEntry F) → List (WeightedEntry F) → List (WeightedEntry F)
with_candidate none es = es
with_candidate (some e) es = e ∷ es

module _ {F R : Type 0} (a : SamplerArith F) {b : BinaryHeap F} (draw : R → F × R) where
  module _ (IsNumber : F → Type 0) (order : IsOrder a.f64.lt IsNumber)
      (heap : IsHeap b a.f64.lt IsNumber) (number : IsWeighed a b draw IsNumber) where
    abbrev Fits : ℕ → Option (WeightedEntry F) → Type 0
    Fits i none = Unit {0}
    Fits i (some e) = IsNumber e.weight × (e.point_idx ≡ i)

    candidate-Fits :
        (s : ReservoirSampler b) (i : ℕ) (rng : R)
        → bad_decay a s.time_decay ≡ false
        → Fits i (candidate a draw s i rng).0
    unfolding candidate
    candidate-Fits s i rng decay_ok = elim (Bool-cases (a.f64.lt (admit_probability a s) a.one)) [
      | inl gated ↦ elim (Bool-cases (a.f64.le (admit_probability a s) (draw rng).0)) [
        | inl out ↦ rw (gated, out) tt
        | inr in' ↦ rw (gated, in') (fits (draw rng).1, refl)
      ]
      | inr open' ↦ rw open' (fits rng, refl)
    ]
      where
        fits : (g : R) → IsNumber (weigh a draw (counted a draw s) (draw g).0)
        fits g =
            number.number (counted a draw s) (draw g).0 (number.draw_from_zero g)
              (number.draw_below_one g) decay_ok (omega arith)

    -- `accept`, panics excluded.
    pub record Accepted (s : ReservoirSampler b) (dropped : List (WeightedEntry F)) (i : ℕ)
        (rng : R) : Type 0 where
      pub op : SamplerOp
      pub after : ReservoirSampler b
      pub dropped' : List (WeightedEntry F)
      pub ran : accept a draw s i rng ≡ some (op, after, (candidate a draw s i rng).1)
      pub kept :
          Permᴰ
            (b.entries after.heap ++ dropped')
            (with_candidate (candidate a draw s i rng).0 (b.entries s.heap ++ dropped))
      pub IsReservoir-after : IsReservoir a draw IsNumber after dropped'
      pub gone-le : (j : ℕ) → gone op j ≤ count j (iter_indices a s)
      pub capacity_kept : after.capacity ≡ s.capacity
      pub indices :
          (j : ℕ)
          → gone op j + count j (iter_indices a after) ≡ came op i j + count j (iter_indices a s)

    pub accept-Accepted :
        (s : ReservoirSampler b) (dropped : List (WeightedEntry F)) (i : ℕ) (rng : R)
        → IsReservoir a draw IsNumber s dropped
        → Accepted s dropped i rng
    unfolding accept
    accept-Accepted s dropped i rng r = elim (Option-cases (candidate a draw s i rng).0) [
      | inl nothing ↦ record {
        op = rejected;
        after = counted a draw s;
        dropped' = dropped;
        ran = rw nothing refl;
        kept = rw nothing (Permᴰ.refl (b.entries s.heap ++ dropped));
        IsReservoir-after = later;
        capacity_kept = refl;
        indices = λ j. refl;
        gone-le = λ j. omega arith;
      }
      | inr (e, some_e) ↦
          let fits : Fits i (some e) = subst (Fits i) some_e (candidate-Fits s i rng r.decay_ok) in
          let o =
            offer-Offered a draw IsNumber order heap (counted a draw s) dropped e later fits.0 in
          record {
            op = o.op;
            after = o.after;
            dropped' = o.dropped';
            ran = rw (some_e, o.ran) refl;
            kept = rw some_e o.kept;
            IsReservoir-after = o.IsReservoir-after;
            capacity_kept = ap (λ (t : ReservoirSampler b). t.capacity) o.rest_kept;
            gone-le = o.gone-le;
            indices = λ j.
                subst
                  (λ k.
                    gone o.op j + count j (iter_indices a o.after)
                    ≡ came o.op k j + count j (iter_indices a s))
                  fits.1 (o.indices j);
          }
    ]
      where
        later : IsReservoir a draw IsNumber (counted a draw s) dropped
        later = record {
          positive = r.positive;
          decay_ok = r.decay_ok;
          held = r.held;
          full = r.full;
          kept_numbers = r.kept_numbers;
          dropped_numbers = r.dropped_numbers;
          least = r.least;
        }
