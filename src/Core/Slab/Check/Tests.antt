-- ===== src/Core/Slab/Check/Tests.antt =====
-- The check of a free stack on small arrays.
use anomstream.Prelude.{ℕ, ◌≡◌, List, [], ◌∷◌, Option, none, some, refl}
use anomstream.Core.Error.{ok, err, deserialization_failed}
use anomstream.Core.Slab.{empties}
use anomstream.Core.Slab.Check.{check_free_list, check_listed}

abbrev slots : List (Option ℕ)
slots = none ∷ some 5 ∷ none ∷ []

check_free_list_full : check_free_list slots (2 ∷ 0 ∷ []) ≡ ok tt
unfolding check_free_list check_listed empties
check_free_list_full = refl

check_free_list_twice : check_free_list slots (2 ∷ 2 ∷ []) ≡ err deserialization_failed
unfolding check_free_list check_listed empties
check_free_list_twice = refl

check_free_list_live : check_free_list slots (1 ∷ 0 ∷ []) ≡ err deserialization_failed
unfolding check_free_list check_listed empties
check_free_list_live = refl
