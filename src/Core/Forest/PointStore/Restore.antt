-- ===== src/Core/Forest/PointStore/Restore.antt =====
-- `validate_restored` of core/src/forest/point_store.rs against the validity of a store.
use anomstream.Prelude.{
  ℕ, zero, suc, ◌≡◌, ◌↔◌, refl, Bool, true, false, List, [], ◌∷◌, Option, none, some, length, set,
  replicate, arith, sym, ◌==◌,
}
use anomstream.Core.Error.{ok}
use anomstream.Core.Domain.{ensure_finite}
use anomstream.Core.Slab.{slot, empties, IsFreeList}
use anomstream.Core.Slab.Check
use anomstream.Core.Slab.Check.Exact.{check_free_list-exact}
use anomstream.Core.Forest.PointStore.{PointStore, check_listed, check_finite, validate_restored}
use anomstream.Core.Forest.PointStore.Validity.{IsValid}

module _ {F : Type 0} where
  -- The loop is that of the node arena's check.
  check_listed-eq :
      (points : List (Option (List F))) (free : List ℕ) (listed : List Bool)
      → check_listed points free listed ≡ Check.check_listed points free listed
  unfolding check_listed Check.check_listed
  check_listed-eq points [] listed = refl
  check_listed-eq points (i ∷ free) listed =
      ground (arith, check_listed-eq points free (set listed i true))

module _ {F : Type 0} (is_finite : F → Bool) where
  check_finite_sound :
      (points : List (Option (List F)))
      → check_finite is_finite points ≡ ok tt
      → (i : ℕ) (p : List F) → slot points i ≡ some p
      → ensure_finite is_finite p ≡ ok tt
  unfolding check_finite
  check_finite_sound [] h i p e = cc
  check_finite_sound (none ∷ points) h zero p e = cc
  check_finite_sound (none ∷ points) h (suc i) p e = check_finite_sound points h i p e
  check_finite_sound (some q ∷ points) h zero p e = ground arith
  check_finite_sound (some q ∷ points) h (suc i) p e =
      check_finite_sound points (ground arith) i p e

  check_finite_complete :
      (points : List (Option (List F)))
      → ((i : ℕ) (p : List F) → slot points i ≡ some p → ensure_finite is_finite p ≡ ok tt)
      → check_finite is_finite points ≡ ok tt
  unfolding check_finite
  check_finite_complete [] h = refl
  check_finite_complete (none ∷ points) h = check_finite_complete points (λ i p e. h (suc i) p e)
  check_finite_complete (some q ∷ points) h =
      rw (h 0 q refl) (check_finite_complete points (λ i p e. h (suc i) p e))

  -- The check of a restored store passes exactly if the store is valid: a count for each slot, a
  -- free stack that names every empty slot once and nothing else, and finite points.
  pub validate_restored-exact :
      (s : PointStore F) → (validate_restored is_finite s ≡ ok tt) ↔ IsValid is_finite s
  unfolding validate_restored Check.check_free_list
  validate_restored-exact s = (sound, complete)
    where
      free_list_exact :
          (Check.check_free_list s.points s.free_list ≡ ok tt) ↔ IsFreeList s.points s.free_list
      free_list_exact = check_free_list-exact s.points s.free_list

      same :
          check_listed s.points s.free_list (replicate (length s.points) false)
          ≡ Check.check_listed s.points s.free_list (replicate (length s.points) false)
      same = check_listed-eq s.points s.free_list (replicate (length s.points) false)

      parts :
          validate_restored is_finite s ≡ ok tt
          → (length s.points ≡ length s.ref_counts)
            × (check_listed s.points s.free_list (replicate (length s.points) false) ≡ ok tt)
            × ((empties s.points == length s.free_list) ≡ true)
            × (check_finite is_finite s.points ≡ ok tt)
      parts h = ground arith

      sound : validate_restored is_finite s ≡ ok tt → IsValid is_finite s
      sound h =
          let (lens, listed, counted, finite) = parts h in
          record {
            counts_len = sym lens;
            free_slots = free_list_exact.0 (rw (← same, listed, counted));
            finite = check_finite_sound s.points finite;
          }

      complete : IsValid is_finite s → validate_restored is_finite s ≡ ok tt
      complete v =
          let e = free_list_exact.1 v.free_slots in
          ground (arith, e, same, v.counts_len, check_finite_complete s.points v.finite)
