-- ===== src/Core/Sampler.antt =====
-- The reservoir sampler of core/src/sampler/reservoir.rs. The binary heap is that of the standard
-- library, so it is a parameter, and so are the operations of `f64` and the generator. A result `none`
-- is a panic.
pub mod Heap
pub mod Kept
pub mod Accept
pub mod Removed
pub mod Streams
pub mod Toy
mod Tests
use anomstream.Prelude.{
  ℕ, zero, suc, ◌+◌, Bool, true, false, not, ◌||◌, List, [], ◌∷◌, Option, none, some, length, map,
  ltb, ◌==◌, if◌then◌else◌,
}
use mathlib.Core.Option
use mathlib.Core.List.{any}
use anomstream.Word.{saturating_add64}
use anomstream.Core.Error.{RcfResult, ok, err, invalid_config, deserialization_failed, ◌>>=◌, ◌>>◌}
use anomstream.Core.Domain.Arith.{Arith}

pub data SamplerOp : Type 0 where
  inserted : SamplerOp
  replaced : ℕ → SamplerOp
  rejected : SamplerOp

pub record WeightedEntry (F : Type 0) : Type 0 where
  pub weight : F
  pub point_idx : ℕ

-- `f64` with the functions that only the sampler uses.
pub record SamplerArith (F : Type 0) : Type 0 where
  pub f64 : Arith F
  pub one : F
  pub min_positive : F
  pub ln : F → F
  pub neg : F → F

-- `BinaryHeap<WeightedEntry>`; `entries` is what `iter` and `drain` give.
pub record BinaryHeap (F : Type 0) : Type 1 where
  pub Heap : Type 0
  pub empty : Heap
  pub entries : Heap → List (WeightedEntry F)
  pub push : WeightedEntry F → Heap → Heap
  pub peek : Heap → Option (WeightedEntry F)
  pub pop : Heap → Option (WeightedEntry F × Heap)

pub record ReservoirSampler {F : Type 0} (b : BinaryHeap F) : Type 0 where
  pub heap : b.Heap
  pub capacity : ℕ
  pub entries_seen : ℕ
  pub time_decay : F
  pub initial_accept_fraction : F

module _ {F : Type 0} where
  -- The entries of `drain` that `remove` keeps.
  pub others : ℕ → List (WeightedEntry F) → List (WeightedEntry F)
  others point_idx [] = []
  others point_idx (e ∷ es) =
      let rest = others point_idx es in if e.point_idx == point_idx then rest else e ∷ rest

  pub push_all : (b : BinaryHeap F) → List (WeightedEntry F) → b.Heap → b.Heap
  push_all b [] heap = heap
  push_all b (e ∷ es) heap = push_all b es (b.push e heap)

module _ {F : Type 0} (a : SamplerArith F) where
  open a use {f64, one, min_positive, ln, neg}

  abbrev pub bad_decay : F → Bool
  bad_decay decay = not (f64.is_finite decay) || f64.lt decay f64.zero

  abbrev pub bad_fraction : F → Bool
  bad_fraction fraction =
      not (f64.is_finite fraction) || f64.le fraction f64.zero || f64.lt one fraction

  module _ (b : BinaryHeap F) where
    unfoldable pub with_initial_accept_fraction : ℕ → F → F → RcfResult (ReservoirSampler b)
    with_initial_accept_fraction capacity decay fraction =
        if capacity == 0
        then err invalid_config
        else if bad_decay decay
        then err invalid_config
        else if bad_fraction fraction
        then err invalid_config
        else ok (record {
          heap = b.empty;
          capacity = capacity;
          entries_seen = 0;
          time_decay = decay;
          initial_accept_fraction = fraction;
        })

    pub new : ℕ → F → RcfResult (ReservoirSampler b)
    new capacity decay = with_initial_accept_fraction capacity decay one

  module _ {b : BinaryHeap F} where
    pub admit_probability : ReservoirSampler b → F
    admit_probability s =
        let threshold = f64.max (f64.mul s.initial_accept_fraction (f64.of_u64 s.capacity)) one in
        let seen = f64.of_u64 s.entries_seen in
        if f64.le one s.initial_accept_fraction
        then one
        else if f64.lt seen threshold
        then f64.min (f64.div (f64.add seen one) threshold) one
        else one

  module _ {b : BinaryHeap F} {R : Type 0} (draw : R → F × R) where
    -- The weight of a candidate, from one draw.
    abbrev pub weigh : ReservoirSampler b → F → F
    weigh s u =
        let positive = if f64.le u f64.zero then min_positive else u in
        f64.sub (ln (neg (ln positive))) (f64.mul (f64.of_u64 s.entries_seen) s.time_decay)

    -- The end of `accept` on a full heap.
    abbrev pub displace :
        ReservoirSampler b
        → WeightedEntry F
        → Option (WeightedEntry F)
        → Option (WeightedEntry F × b.Heap)
        → Option (SamplerOp × ReservoirSampler b)
    displace s e none popped = none
    displace s e (some greatest) popped =
        if f64.lt e.weight greatest.weight
        then Option.map
            (λ (p : WeightedEntry F × b.Heap).
              (replaced p.0.point_idx, record s { heap = b.push e p.1 }))
            popped
        else some (rejected, s)

    -- `accept` with a weighed candidate.
    pub offer : ReservoirSampler b → WeightedEntry F → Option (SamplerOp × ReservoirSampler b)
    offer s e =
        if ltb (length (b.entries s.heap)) s.capacity
        then some (inserted, record s { heap = b.push e s.heap })
        else displace s e (b.peek s.heap) (b.pop s.heap)

    abbrev pub counted : ReservoirSampler b → ReservoirSampler b
    counted s = record s { entries_seen = saturating_add64 s.entries_seen 1 }

    abbrev pub weighed : ReservoirSampler b → ℕ → R → Option (WeightedEntry F) × R
    weighed s point_idx rng =
        (some (record { weight = weigh s (draw rng).0; point_idx = point_idx }), (draw rng).1)

    -- What the warmup gate and the draws make of an offer: a weighed candidate, or none.
    pub candidate : ReservoirSampler b → ℕ → R → Option (WeightedEntry F) × R
    unfolding admit_probability
    candidate s point_idx rng =
        let admit_prob = admit_probability s in
        if f64.lt admit_prob one
        then (if f64.le admit_prob (draw rng).0
            then (none, (draw rng).1)
            else weighed (counted s) point_idx (draw rng).1)
        else weighed (counted s) point_idx rng

    abbrev pub settle :
        ReservoirSampler b → Option (WeightedEntry F) → Option (SamplerOp × ReservoirSampler b)
    settle s none = some (rejected, s)
    settle s (some e) = offer s e

    pub accept : ReservoirSampler b → ℕ → R → Option (SamplerOp × ReservoirSampler b × R)
    unfolding candidate offer
    accept s point_idx rng =
        let (e, rng') = candidate s point_idx rng in
        Option.map (λ (p : SamplerOp × ReservoirSampler b). (p.0, p.1, rng')) (settle (counted s) e)

  module _ {b : BinaryHeap F} where
    pub reset : ReservoirSampler b → ReservoirSampler b
    reset s = record s { heap = b.empty; entries_seen = 0 }

    abbrev pub iter_indices : ReservoirSampler b → List ℕ
    iter_indices s = map (λ e. e.point_idx) (b.entries s.heap)

    pub contains : ReservoirSampler b → ℕ → Bool
    contains s point_idx = any (iter_indices s) (λ i. i == point_idx)

    pub remove : ReservoirSampler b → ℕ → Bool × ReservoirSampler b
    unfolding others push_all
    remove s point_idx =
        let kept = others point_idx (b.entries s.heap) in
        (ltb (length kept) (length (b.entries s.heap)), record s { heap = push_all b kept b.empty })

    pub validate_restored : ReservoirSampler b → ℕ → RcfResult (Unit {0})
    validate_restored s capacity =
        if not (s.capacity == capacity) || ltb capacity (length (b.entries s.heap))
        then err deserialization_failed
        else if bad_decay s.time_decay || bad_fraction s.initial_accept_fraction
        then err deserialization_failed
        else if any (b.entries s.heap) (λ e. not (f64.is_finite e.weight))
        then err deserialization_failed
        else ok tt
