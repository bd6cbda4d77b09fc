-- ===== src/Core/Sampler/Streams.antt =====
-- A stream of offers to the sampler of core/src/sampler/reservoir.rs.
use anomstream.Prelude.{
  ℕ, false, ◌<◌, ◌≡◌, refl, ap, sym, ◌∙◌, inl, inr, Bool-cases, min, List, [], ◌∷◌, ◌++◌, Option,
  none, some, length, ◌==◌, arith, All, length-perm, length-append, subst,
}
use mathlib.Core.List.Permᴰ
use mathlib.Core.List.{Permᴰ}
use mathlib.Core.Option
use anomstream.Core.Error.{ok}
use anomstream.Core.Sampler.{
  SamplerOp, WeightedEntry, SamplerArith, BinaryHeap, ReservoirSampler,
  with_initial_accept_fraction, candidate, accept, bad_decay, bad_fraction,
}
use anomstream.Core.Sampler.Heap.{IsOrder, NotAbove, Numbers, IsHeap, IsWeighed}
use anomstream.Core.Sampler.Kept.{IsReservoir}
use anomstream.Core.Sampler.Accept.{with_candidate, accept-Accepted}

module _ {F R : Type 0} (a : SamplerArith F) {b : BinaryHeap F} (draw : R → F × R) where
  -- Offers one after the other, with the candidates that were weighed.
  unfoldable pub accept_all :
      List ℕ → ReservoirSampler b → R → Option (List (WeightedEntry F) × ReservoirSampler b × R)
  accept_all [] s rng = some ([], s, rng)
  accept_all (i ∷ is) s rng = elim (accept a draw s i rng) [
    | none ↦ none
    | some (op, s', rng') ↦
        Option.map
          (λ (p : List (WeightedEntry F) × ReservoirSampler b × R).
            (with_candidate (candidate a draw s i rng).0 p.0, p.1, p.2))
          (accept_all is s' rng')
  ]

  module _ (IsNumber : F → Type 0) (heap : IsHeap b a.f64.lt IsNumber) where
    abbrev built : ℕ → F → F → ReservoirSampler b
    built capacity decay fraction = record {
      heap = b.empty;
      capacity = capacity;
      entries_seen = 0;
      time_decay = decay;
      initial_accept_fraction = fraction;
    }

    with_initial_accept_fraction_lem :
        (capacity : ℕ) (decay fraction : F) (s : ReservoirSampler b)
        → with_initial_accept_fraction a b capacity decay fraction ≡ ok s
        → (0 < capacity) × (bad_decay a decay ≡ false) × (built capacity decay fraction ≡ s)
    unfolding with_initial_accept_fraction
    with_initial_accept_fraction_lem capacity decay fraction s h =
        elim (Bool-cases (capacity == 0)) [
          | inl e ↦ absurd (cc (rw e at h))
          | inr e ↦ elim (Bool-cases (bad_decay a decay)) [
            | inl d ↦ absurd (cc (rw (e, d) at h))
            | inr d ↦ elim (Bool-cases (bad_fraction a fraction)) [
              | inl f ↦ absurd (cc (rw (e, d, f) at h))
              | inr f ↦ (ground (arith, e), d, cc (rw (e, d, f) at h))
            ]
          ]
        ]

    pub fresh :
        (capacity : ℕ) (decay fraction : F) (s : ReservoirSampler b)
        → with_initial_accept_fraction a b capacity decay fraction ≡ ok s
        → IsReservoir a draw IsNumber s [] × (b.entries s.heap ≡ []) × (s.capacity ≡ capacity)
    fresh capacity decay fraction s h =
        let (pos, decay_ok, e) = with_initial_accept_fraction_lem capacity decay fraction s h in
        subst
          (λ (t : ReservoirSampler b).
            IsReservoir a draw IsNumber t [] × (b.entries t.heap ≡ []) × (t.capacity ≡ capacity))
          e
          (
            record {
              positive = pos;
              decay_ok = decay_ok;
              held = omega (arith, ap length heap.entries_empty);
              full = λ k. absurd (omega arith);
              kept_numbers = subst (Numbers IsNumber) (sym heap.entries_empty) tt;
              dropped_numbers = tt;
              least = tt;
            },
            heap.entries_empty,
            refl,
          )

  module _ (IsNumber : F → Type 0) (order : IsOrder a.f64.lt IsNumber)
      (heap : IsHeap b a.f64.lt IsNumber) (number : IsWeighed a b draw IsNumber) where
    -- A run from any reservoir.
    record Run (s : ReservoirSampler b) (dropped : List (WeightedEntry F)) (is : List ℕ) (rng : R)
        : Type 0 where
      weighed : List (WeightedEntry F)
      after : ReservoirSampler b
      rng' : R
      dropped' : List (WeightedEntry F)
      ran : accept_all is s rng ≡ some (weighed, after, rng')
      kept : Permᴰ (b.entries after.heap ++ dropped') (weighed ++ (b.entries s.heap ++ dropped))
      IsReservoir-after : IsReservoir a draw IsNumber after dropped'
      capacity_kept : after.capacity ≡ s.capacity

    with_candidate-perm :
        (e : Option (WeightedEntry F)) (ws : List (WeightedEntry F))
        {xs ys : List (WeightedEntry F)} (zs : List (WeightedEntry F))
        → Permᴰ xs (ws ++ ys)
        → Permᴰ ys (with_candidate e zs)
        → Permᴰ xs (with_candidate e ws ++ zs)
    with_candidate-perm none ws zs p q = Permᴰ.trans p (Permᴰ.append_left ws q)
    with_candidate-perm (some e) ws zs p q =
        Permᴰ.trans p (Permᴰ.trans (Permᴰ.append_left ws q) (Permᴰ.middle e ws zs))

    accept_all-cons :
        (i : ℕ) (is : List ℕ) (s : ReservoirSampler b) (rng : R) {op : SamplerOp}
        {s' t : ReservoirSampler b} {rng' rng'' : R} {ws : List (WeightedEntry F)}
        → accept a draw s i rng ≡ some (op, s', rng')
        → accept_all is s' rng' ≡ some (ws, t, rng'')
        → accept_all (i ∷ is) s rng
          ≡ some (with_candidate (candidate a draw s i rng).0 ws, t, rng'')
    unfolding accept_all
    accept_all-cons i is s rng h k = rw (h, accept_all) (rw k refl)

    accept_all-Run :
        (s : ReservoirSampler b) (dropped : List (WeightedEntry F)) (is : List ℕ) (rng : R)
        → IsReservoir a draw IsNumber s dropped
        → Run s dropped is rng
    unfolding accept_all
    accept_all-Run s dropped [] rng r = record {
      weighed = [];
      after = s;
      rng' = rng;
      dropped' = dropped;
      ran = refl;
      kept = Permᴰ.refl (b.entries s.heap ++ dropped);
      IsReservoir-after = r;
      capacity_kept = refl;
    }
    accept_all-Run s dropped (i ∷ is) rng r =
        let one' = accept-Accepted a draw IsNumber order heap number s dropped i rng r in
        let more =
          accept_all-Run one'.after one'.dropped' is (candidate a draw s i rng).1
            one'.IsReservoir-after in
        record {
          weighed = with_candidate (candidate a draw s i rng).0 more.weighed;
          after = more.after;
          rng' = more.rng';
          dropped' = more.dropped';
          ran = accept_all-cons i is s rng one'.ran more.ran;
          kept =
              with_candidate-perm (candidate a draw s i rng).0 more.weighed
                (b.entries s.heap ++ dropped) more.kept one'.kept;
          IsReservoir-after = more.IsReservoir-after;
          capacity_kept = more.capacity_kept ∙ one'.capacity_kept;
        }

    -- Let `BinaryHeap` and the order of numbers behave as documented, every draw be in [0, 1) and
    -- every weight of such a draw, with a decay that the constructor accepts, be a number. From a
    -- sampler that the constructor built, every stream of offers is accepted without a panic. The
    -- reservoir then holds `capacity` of the candidates that the gate let in, or all of them if
    -- they are fewer, and no other candidate weighs less than one that it holds.
    pub accept_all-keeps-least :
        (capacity : ℕ) (decay fraction : F) (is : List ℕ) (rng : R) {s : ReservoirSampler b}
        → with_initial_accept_fraction a b capacity decay fraction ≡ ok s
        → (weighed dropped : List (WeightedEntry F)) × (after : ReservoirSampler b) × (rng' : R)
          × (accept_all is s rng ≡ some (weighed, after, rng'))
          × Permᴰ (b.entries after.heap ++ dropped) weighed
          × (length (b.entries after.heap) ≡ min capacity (length weighed))
          × All (λ d. NotAbove a.f64.lt d.weight (b.entries after.heap)) dropped
    accept_all-keeps-least capacity decay fraction is rng {s} h =
        let (r, none_held, cap) = fresh IsNumber heap capacity decay fraction s h in
        let run = accept_all-Run s [] is rng r in
        let all =
          subst (λ es. Permᴰ (b.entries run.after.heap ++ run.dropped') (run.weighed ++ (es ++ [])))
            none_held run.kept in
        let kept = Permᴰ.trans all (Permᴰ.append-nil run.weighed) in
        let end = run.IsReservoir-after in
        (
          run.weighed,
          run.dropped',
          run.after,
          run.rng',
          run.ran,
          kept,
          ground (
            arith,
            cap,
            run.capacity_kept,
            length-perm kept,
            length-append (b.entries run.after.heap) run.dropped',
            end.held,
            end.full,
          ),
          end.least,
        )
