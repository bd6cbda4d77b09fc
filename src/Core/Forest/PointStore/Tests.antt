-- ===== src/Core/Forest/PointStore/Tests.antt =====
-- The point store on small stores, over numbers with 1000 in the place of a value that is not
-- finite.
use anomstream.Prelude.{
  ℕ, zero, suc, ◌+◌, ◌<◌, ◌^◌, ◌≡◌, ◌≢◌, ◌⊎◌, ◌↔◌, refl, Bool, true, false, List, [], ◌∷◌, none,
  some, arith, not, ◌==◌, if◌then◌else◌,
}
use anomstream.Core.Error.{ok, err, out_of_bounds, invalid_config, ◌>>=◌}
use anomstream.Core.Domain.{ensure_finite}
use anomstream.Core.Slab.{slot, empties}
use anomstream.Core.Forest.PointStore.{
  PointStore, load, add, set_free, drop_unreferenced, validate_restored, check_listed, check_finite,
}
use anomstream.Core.Forest.PointStore.Validity.{IsValid, IsCounted}
use anomstream.Core.Forest.PointStore.Restore.{validate_restored-exact}
use anomstream.Core.Forest.PointStore.Slots.{Added, add-Added}
use anomstream.Core.Forest.PointStore.Frees.{Vacated, free_cases, add-set_free}
use anomstream.Core.Forest.PointStore.Counts.{adopt, release, release-adopt}
use anomstream.Core.Forest.PointStore.Race.{
  Shared, Reach, here, next, incr, enter, load as read, win, start, no_lost_update, one_true,
}

abbrev is_finite : ℕ → Bool
is_finite v = not (v == 1000)

abbrev p : List ℕ
p = 3 ∷ 4 ∷ []

abbrev store : PointStore ℕ
store = record {
  points = some p ∷ none ∷ some p ∷ [];
  ref_counts = 0 ∷ 0 ∷ 5 ∷ [];
  free_list = 1 ∷ [];
}

abbrev after : PointStore ℕ
after = record {
  points = none ∷ none ∷ some p ∷ [];
  ref_counts = 0 ∷ 0 ∷ 5 ∷ [];
  free_list = 0 ∷ 1 ∷ [];
}

validate_restored-exact_example :
    (validate_restored is_finite store ≡ ok tt) ↔ IsValid is_finite store
validate_restored-exact_example = validate_restored-exact is_finite store

store_passes : validate_restored is_finite store ≡ ok tt
unfolding validate_restored check_listed check_finite empties ensure_finite
store_passes = refl

store-IsValid : IsValid is_finite store
store-IsValid = validate_restored-exact_example.0 store_passes

store_word : (i : ℕ) → load store i < 2 ^ 32
store_word zero = omega arith
store_word (suc zero) = omega arith
store_word (suc (suc zero)) = omega arith
store_word (suc (suc (suc i))) = omega arith

store_idle : (i : ℕ) → slot store.points i ≡ none → load store i ≡ 0
store_idle zero e = refl
store_idle (suc zero) e = refl
store_idle (suc (suc zero)) e = cc
store_idle (suc (suc (suc i))) e = refl

store-IsCounted : IsCounted store
store-IsCounted = record { word = store_word; idle = store_idle }

p_finite : ensure_finite is_finite p ≡ ok tt
unfolding ensure_finite
p_finite = refl

add-Added_example :
    (idx : ℕ) × (s' : PointStore ℕ) × (add is_finite store p ≡ ok (idx, s'))
    × Added is_finite store s' idx p
add-Added_example = add-Added is_finite store p store-IsValid store-IsCounted p_finite

free_cases_example :
    ((slot store.points 0 ≡ none)
      × (set_free store 0 ≡ err (out_of_bounds 0 3))
      × (drop_unreferenced store 0 ≡ err (out_of_bounds 0 3)))
    ⊎ ((load store 0 ≢ 0)
        × (set_free store 0 ≡ err invalid_config)
        × (drop_unreferenced store 0 ≡ err invalid_config))
    ⊎ ((s' : PointStore ℕ) × (set_free store 0 ≡ ok s')
        × (drop_unreferenced store 0 ≡ ok s')
        × Vacated is_finite store s' 0)
free_cases_example = free_cases is_finite store 0 store-IsValid store-IsCounted

set_free_0 : set_free store 0 ≡ ok after
unfolding set_free
set_free_0 = refl

add-set_free_example :
    (s'' : PointStore ℕ) × (add is_finite after p ≡ ok (0, s'')) × (s''.free_list ≡ 1 ∷ [])
add-set_free_example = add-set_free is_finite store after 0 p set_free_0 p_finite

release-adopt_example :
    (adopt 3 store 0 >>= λ t. release (0 ∷ 2 ∷ 1 ∷ []) t 0) ≡ ok (false ∷ false ∷ true ∷ [], store)
release-adopt_example = release-adopt (0 ∷ 2 ∷ 1 ∷ []) store 0 refl refl refl (omega arith)

-- Thread 0 takes a reference.
taken : Reach 1 (record (start 1) { cell = 2; incs = 1 })
taken = next here (incr 0 refl)

no_lost_update_example : 2 + 0 ≡ 1 + 1
no_lost_update_example = no_lost_update taken (omega arith)

-- Thread 0 gives back the only reference.
given : (s : Shared) × Reach 1 s × (s.incs ≡ 0) × (s.trues ≡ 1)
given = (
  _,
  next (next (next here (enter 0 refl)) (read 0 refl (omega arith))) (win 0 1 refl refl),
  refl,
  refl,
)

one_true_example : given.0.trues ≡ (if given.0.cell == 0 then 1 else 0)
one_true_example = one_true given.1 (omega arith) given.2
