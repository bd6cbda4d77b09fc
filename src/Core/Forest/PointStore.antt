-- ===== src/Core/Forest/PointStore.antt =====
-- The refcounted point store: core/src/forest/point_store.rs. A free stack is a list with its top
-- in front. An operation that changes the store returns the new one; on an error the store is as
-- before. This file has each operation run by itself; `Race` has the atomic ones interleaved.
pub mod Validity
pub mod Restore
pub mod Slots
pub mod Frees
pub mod Counts
pub mod Race
mod Tests
use anomstream.Prelude.{
  ℕ, zero, suc, ◌+◌, ◌-◌, ◌*◌, ◌%◌, ◌^◌, Bool, true, false, not, ◌||◌, List, [], ◌∷◌, ◌++◌, Option,
  none, some, length, get_elem?, get_or, set, replicate, leb, ◌==◌, if◌then◌else◌,
}
use anomstream.Core.Error.{
  RcfError, RcfResult, ok, err, invalid_config, out_of_bounds, deserialization_failed, ◌>>=◌, ◌>>◌,
}
use anomstream.Core.Domain.{ensure_finite}
use anomstream.Core.Slab.{slot, empties, lives}

-- `D` is `dim`; the counts are `AtomicU32`.
pub record PointStore (F : Type 0) : Type 0 where
  pub points : List (Option (List F))
  pub ref_counts : List ℕ
  pub free_list : List ℕ

abbrev pub is_none {ℓ} : {A : Type ℓ} → Option A → Bool
is_none none = true
is_none (some a) = false

-- `map_err` turns every refusal of `ensure_finite` into one error.
abbrev refused : RcfResult (Unit {0}) → RcfResult (Unit {0})
refused (ok u) = ok u
refused (err e) = err deserialization_failed

module _ {F : Type 0} where
  unfoldable pub new : ℕ → RcfResult (PointStore F)
  new dim =
      if dim == 0
      then err invalid_config
      else ok (record { points = []; ref_counts = []; free_list = [] })

  unfoldable pub capacity : PointStore F → ℕ
  capacity s = length s.points

  pub live_count : PointStore F → ℕ
  live_count s = lives s.points

  pub memory_estimate : ℕ → PointStore F → ℕ
  memory_estimate dim s =
      length s.points * (dim * 8) + length s.ref_counts * 4 + length s.free_list * 8

  -- `idx >= self.points.len() || self.points[idx].is_none()`
  abbrev pub missing : PointStore F → ℕ → Bool
  missing s idx = leb (length s.points) idx || is_none (slot s.points idx)

  -- An atomic load of a count, where the index is in range.
  abbrev pub load : PointStore F → ℕ → ℕ
  load s idx = get_or s.ref_counts idx 0

  unfoldable pub ref_count : PointStore F → ℕ → ℕ
  ref_count s idx = if leb (length s.ref_counts) idx then 0 else load s idx

  -- `PointAccessor::point`
  unfoldable pub point : PointStore F → ℕ → Option (List F)
  point s idx = slot s.points idx

  pub is_live : PointStore F → ℕ → Bool
  is_live s idx = not (is_none (slot s.points idx))

  place : PointStore F → List ℕ → List F → ℕ × PointStore F
  place s [] p = (
    length s.points,
    record s { points = s.points ++ (some p ∷ []); ref_counts = s.ref_counts ++ (0 ∷ []) },
  )
  place s (idx ∷ free) p = (
    idx,
    record {
      points = set s.points idx (some p);
      ref_counts = set s.ref_counts idx 0;
      free_list = free;
    },
  )

  pub add : (F → Bool) → PointStore F → List F → RcfResult (ℕ × PointStore F)
  unfolding place
  add is_finite s p = do ensure_finite is_finite p; ok (place s s.free_list p)

  abbrev vacate : PointStore F → ℕ → PointStore F
  vacate s idx = record s { points = set s.points idx none; free_list = idx ∷ s.free_list }

  pub drop_unreferenced : PointStore F → ℕ → RcfResult (PointStore F)
  drop_unreferenced s idx =
      if missing s idx
      then err (out_of_bounds idx (length s.points))
      else if not (load s idx == 0)
      then err invalid_config
      else ok (vacate s idx)

  pub set_free : PointStore F → ℕ → RcfResult (PointStore F)
  set_free s idx =
      if missing s idx
      then err (out_of_bounds idx (length s.points))
      else if not (load s idx == 0)
      then err invalid_config
      else ok (vacate s idx)

  -- `fetch_add` on an `AtomicU32` wraps.
  pub incr_ref : PointStore F → ℕ → RcfResult (PointStore F)
  incr_ref s idx =
      if missing s idx
      then err (out_of_bounds idx (length s.points))
      else ok (record s { ref_counts = set s.ref_counts idx ((load s idx + 1) % 2 ^ 32) })

  -- The loop of `decr_ref`, with nobody else writing: `compare_exchange_weak` may still fail, as
  -- often as `failures` says.
  decr_loop : PointStore F → ℕ → ℕ → RcfResult (Bool × PointStore F)
  decr_loop s idx zero =
      let current = load s idx in
      if current == 0
      then err invalid_config
      else ok (current - 1 == 0, record s { ref_counts = set s.ref_counts idx (current - 1) })
  decr_loop s idx (suc failures) =
      let again = decr_loop s idx failures in if load s idx == 0 then err invalid_config else again

  pub decr_ref : ℕ → PointStore F → ℕ → RcfResult (Bool × PointStore F)
  unfolding decr_loop
  decr_ref failures s idx =
      if missing s idx then err (out_of_bounds idx (length s.points)) else decr_loop s idx failures

  check_listed : List (Option (List F)) → List ℕ → List Bool → RcfResult (Unit {0})
  check_listed points [] listed = ok tt
  check_listed points (idx ∷ free) listed =
      let rest = check_listed points free (set listed idx true) in
      elim (get_elem? points idx) [
        | some none ↦ if get_or listed idx false then err deserialization_failed else rest
        | some (some p) ↦ err deserialization_failed
        | none ↦ err deserialization_failed
      ]

  check_finite : (F → Bool) → List (Option (List F)) → RcfResult (Unit {0})
  check_finite is_finite [] = ok tt
  check_finite is_finite (none ∷ points) = check_finite is_finite points
  check_finite is_finite (some p ∷ points) =
      let rest = check_finite is_finite points in refused (ensure_finite is_finite p) >> rest

  pub validate_restored : (F → Bool) → PointStore F → RcfResult (Unit {0})
  unfolding check_listed check_finite
  validate_restored is_finite s =
      if not (length s.points == length s.ref_counts) then err deserialization_failed else do
        check_listed s.points s.free_list (replicate (length s.points) false)
        if empties s.points == length s.free_list then ok tt else err deserialization_failed
        check_finite is_finite s.points
