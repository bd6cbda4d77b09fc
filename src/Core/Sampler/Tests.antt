-- ===== src/Core/Sampler/Tests.antt =====
-- A sampler of two of four offers, over core/src/sampler/reservoir.rs.
use anomstream.Prelude.{ℕ, ◌≡◌, refl, List, [], ◌∷◌, ◌++◌, some, length, min, true, All}
use mathlib.Core.List.{Permᴰ}
use anomstream.Core.Error.{ok}
use anomstream.Core.Sampler.{
  WeightedEntry, ReservoirSampler, with_initial_accept_fraction, candidate, offer, accept, remove,
  others, push_all, admit_probability,
}
use anomstream.Core.Sampler.Heap.{NotAbove}
use anomstream.Core.Sampler.Streams.{accept_all, accept_all-keeps-least}
use anomstream.Core.Sampler.Toy.{
  toy, toy_draw, extract, list_heap, AnyNumber, ltb-IsOrder, list_heap-IsHeap, toy-IsWeighed,
}

abbrev fresh : ReservoirSampler list_heap
fresh = record {
  heap = [];
  capacity = 2;
  entries_seen = 0;
  time_decay = 0;
  initial_accept_fraction = 7;
}

built : with_initial_accept_fraction toy list_heap 2 0 7 ≡ ok fresh
unfolding with_initial_accept_fraction
built = refl

-- The weights are 6, 4, 2 and 1.
two_least :
    accept_all toy toy_draw (10 ∷ 11 ∷ 12 ∷ 13 ∷ []) fresh 4
    ≡ some (
      record { weight = 6; point_idx = 10 }
          ∷ record { weight = 4; point_idx = 11 }
          ∷ record { weight = 2; point_idx = 12 }
          ∷ record { weight = 1; point_idx = 13 }
          ∷ [],
      record fresh {
        heap = record { weight = 1; point_idx = 13 } ∷ record { weight = 2; point_idx = 12 } ∷ [];
        entries_seen = 4;
      },
      8,
    )
unfolding accept_all accept candidate offer admit_probability extract
two_least = refl

removed :
    remove toy (record fresh { heap = record { weight = 1; point_idx = 13 } ∷ [] }) 13
    ≡ (true, fresh)
unfolding remove others push_all
removed = refl

accept_all-keeps-least_example :
    (weighed dropped : List (WeightedEntry ℕ)) × (after : ReservoirSampler list_heap) × (rng' : ℕ)
    × (accept_all toy toy_draw (10 ∷ 11 ∷ 12 ∷ 13 ∷ []) fresh 2 ≡ some (weighed, after, rng'))
    × Permᴰ (after.heap ++ dropped) weighed
    × (length after.heap ≡ min 2 (length weighed))
    × All (λ d. NotAbove toy.f64.lt d.weight after.heap) dropped
accept_all-keeps-least_example =
    accept_all-keeps-least toy toy_draw AnyNumber ltb-IsOrder list_heap-IsHeap toy-IsWeighed 2 0 7
      (10 ∷ 11 ∷ 12 ∷ 13 ∷ []) 2 built
