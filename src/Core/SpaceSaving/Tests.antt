-- ===== src/Core/SpaceSaving/Tests.antt =====
-- The heavy-hitter table on a small stream, with numbers for keys and the order of the list for the
-- order of iteration.
use anomstream.Prelude.{
  ℕ, ◌≤◌, ◌<◌, ◌^◌, ◌≡◌, refl, Bool, true, List, [], ◌∷◌, length, arith, ◌==◌, ==_iff, ==_refl,
  if◌then◌else◌,
}
use anomstream.Core.Error.{ok}
use anomstream.Core.SpaceSaving.{SpaceSaving, new, observe_weighted}
use anomstream.Core.SpaceSaving.Table.{HeavyHitterEntry, Distinct, find, mass}
use anomstream.Core.SpaceSaving.Bounds.{IsTracked, with_seen, observe_weighted-IsTracked}
use anomstream.Core.SpaceSaving.Streams.{
  weight_of, weight_of_all, IsReported, observe_all, observe_all-IsReported,
}

abbrev eq : ℕ → ℕ → Bool
eq a b = a == b

eq_sound : (a b : ℕ) → eq a b ≡ true → a ≡ b
eq_sound a b h = (==_iff a b).0 h

eq_self : (a : ℕ) → eq a a ≡ true
eq_self a = ==_refl a

abbrev order : List (ℕ × HeavyHitterEntry) → List (ℕ × HeavyHitterEntry)
order t = t

order-Iterates :
    (t : List (ℕ × HeavyHitterEntry))
    → Distinct eq t
    → Distinct eq (order t) × ((k : ℕ) → find eq k (order t) ≡ find eq k t)
order-Iterates t h = (h, λ k. refl)

abbrev empty : SpaceSaving ℕ
empty = record { counts = []; capacity = 2; total = 0 }

empty-new : new 2 ≡ ok empty
unfolding new
empty-new = refl

-- The third key finds the table full.
abbrev stream : List (ℕ × ℕ)
stream = (7, 5) ∷ (8, 2) ∷ (9, 1) ∷ (7, 4) ∷ []

stream_small : weight_of_all stream < 2 ^ 64
unfolding weight_of_all
stream_small = omega arith

observe_all-IsReported_example :
    IsReported eq (observe_all eq order stream empty) 7 (weight_of eq 7 stream)
    × ((observe_all eq order stream empty).total ≡ weight_of_all stream)
    × ((observe_all eq order stream empty).capacity ≡ 2)
    × (length (observe_all eq order stream empty).counts ≤ 2)
observe_all-IsReported_example =
    observe_all-IsReported eq eq_sound eq_self order order-Iterates 2 empty stream 7 empty-new
      stream_small

abbrev full : SpaceSaving ℕ
full = record {
  counts = (7, record { estimate = 5; error = 0 }) ∷ (8, record { estimate = 2; error = 0 }) ∷ [];
  capacity = 2;
  total = 7;
}

abbrev seen : ℕ → ℕ
seen k = if k == 7 then 5 else if k == 8 then 2 else 0

full-IsTracked : IsTracked eq seen full
unfolding find mass
full-IsTracked = record {
  positive = omega arith;
  distinct = (refl, (refl, tt));
  bounded = omega arith;
  sum = refl;
  over = λ k e f. ground (arith, f);
  under = λ k e f. ground (arith, f);
  floor = λ k j e f g. ground (arith, f, g);
  spare = λ k f g. absurd (omega (arith, g));
}

observe_weighted-IsTracked_example :
    IsTracked eq (with_seen eq seen 9 1) (observe_weighted eq order 9 1 full)
observe_weighted-IsTracked_example =
    observe_weighted-IsTracked eq eq_sound eq_self order order-Iterates seen full 9 1 (omega arith)
      full-IsTracked
