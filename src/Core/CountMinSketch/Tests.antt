-- ===== src/Core/CountMinSketch/Tests.antt =====
-- A sketch of two rows over keys that are numbers.
use anomstream.Prelude.{ℕ, ◌+◌, ◌*◌, ◌^◌, ◌-◌, ◌≤◌, ◌≡◌, min, refl, List, [], ◌∷◌, arith, ◌==◌}
use anomstream.Core.Error.{ok}
use anomstream.Core.CountMinSketch.{CountMinSketch, new, estimate}
use anomstream.Core.CountMinSketch.Bounds.{increment_all, true_count, sum_counts, estimate-bounds}

abbrev hash : ℕ → ℕ → ℕ → ℕ
hash a key b = a + key * b

abbrev empty : CountMinSketch
empty = record {
  table = (0 ∷ 0 ∷ []) ∷ (0 ∷ 0 ∷ []) ∷ [];
  seeds =
      (5871781006564002453, 7809847782465536322)
      ∷ (11743562013128004906, 15619695564931072644)
      ∷ [];
  width = 2;
  depth = 2;
  total = 0;
}

new-empty : new 2 2 ≡ ok empty
unfolding new
new-empty = refl

abbrev stream : List (ℕ × ℕ)
stream = (7, 3) ∷ (5, 1) ∷ (7, 2) ∷ []

estimate-bounds_example :
    (min (true_count (λ a b. a == b) stream 7) (2 ^ 64 - 1)
      ≤ estimate hash (increment_all hash stream empty) 7)
    × (estimate hash (increment_all hash stream empty) 7 ≤ (increment_all hash stream empty).total)
    × ((increment_all hash stream empty).total ≡ min (sum_counts stream) (2 ^ 64 - 1))
estimate-bounds_example =
    estimate-bounds hash (λ a b. a == b) (λ a b h. ground (arith, h)) 2 2 empty stream 7 new-empty
