-- ===== src/Core/Sampler/Heap.antt =====
-- What the sampler of core/src/sampler/reservoir.rs relies on in `BinaryHeap` and in the order of `f64`.
use anomstream.Prelude.{◌<◌, ◌^◌, ◌≡◌, ◌⊎◌, Bool, true, false, List, [], ◌∷◌, none, some, All}
use mathlib.Core.List.{Permᴰ}
use mathlib.Core.Option
use anomstream.Core.Sampler.{
  WeightedEntry, BinaryHeap, SamplerArith, ReservoirSampler, bad_decay, weigh,
}

-- `<` between numbers, NaN excepted.
pub record IsOrder {F : Type 0} (lt : F → F → Bool) (IsNumber : F → Type 0) : Type 0 where
  pub lt_trans :
      (x y z : F)
      → IsNumber x
      → IsNumber y
      → IsNumber z
      → lt x y ≡ true
      → lt y z ≡ true
      → lt x z ≡ true
  pub lt_split :
      (x y z : F)
      → IsNumber x
      → IsNumber y
      → IsNumber z
      → lt x z ≡ true
      → (lt x y ≡ true) ⊎ (lt y z ≡ true)
  pub lt_irrefl : (x : F) → lt x x ≡ false

-- The entries whose weight is not below a given one.
abbrev pub NotAbove : {F : Type 0} → (F → F → Bool) → F → List (WeightedEntry F) → Type 0
NotAbove lt w = All (λ e. lt w e.weight ≡ false)

abbrev pub Numbers : {F : Type 0} → (F → Type 0) → List (WeightedEntry F) → Type 0
Numbers IsNumber = All (λ e. IsNumber e.weight)

-- The documented behaviour of `BinaryHeap`: `push` adds one entry, `pop` takes out a greatest one,
-- which is the one that `peek` shows, and finds one unless the heap is empty.
pub record IsHeap {F : Type 0} (b : BinaryHeap F) (lt : F → F → Bool) (IsNumber : F → Type 0)
    : Type 0 where
  pub entries_empty : b.entries b.empty ≡ []
  pub entries_push :
      (e : WeightedEntry F) (h : b.Heap) → Permᴰ (b.entries (b.push e h)) (e ∷ b.entries h)
  pub peek-pop : (h : b.Heap) → b.peek h ≡ Option.map (λ p. p.0) (b.pop h)
  pub pop_none : (h : b.Heap) → b.pop h ≡ none → b.entries h ≡ []
  pub pop_some :
      (h rest : b.Heap) (top : WeightedEntry F)
      → Numbers IsNumber (b.entries h)
      → b.pop h ≡ some (top, rest)
      → Permᴰ (b.entries h) (top ∷ b.entries rest) × NotAbove lt top.weight (b.entries rest)

-- A draw is in [0, 1), and the weight of such a draw, `ln` of `-ln` of it less a decay that the
-- constructor accepts times the offers seen, a `u64`, is a number.
pub record IsWeighed {F R : Type 0} (a : SamplerArith F) (b : BinaryHeap F) (draw : R → F × R)
    (IsNumber : F → Type 0) : Type 0 where
  pub draw_from_zero : (rng : R) → a.f64.le a.f64.zero (draw rng).0 ≡ true
  pub draw_below_one : (rng : R) → a.f64.lt (draw rng).0 a.one ≡ true
  pub number :
      (s : ReservoirSampler b) (u : F)
      → a.f64.le a.f64.zero u ≡ true
      → a.f64.lt u a.one ≡ true
      → bad_decay a s.time_decay ≡ false
      → s.entries_seen < 2 ^ 64
      → IsNumber (weigh a draw s u)
