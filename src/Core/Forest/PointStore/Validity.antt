-- ===== src/Core/Forest/PointStore/Validity.antt =====
-- What a point store keeps.
use anomstream.Prelude.{ℕ, ◌<◌, ◌^◌, ◌≡◌, Bool, List, none, some, length}
use anomstream.Core.Error.{ok}
use anomstream.Core.Domain.{ensure_finite}
use anomstream.Core.Slab.{slot, IsFreeList}
use anomstream.Core.Forest.PointStore.{PointStore, load}

-- One count for each slot, a free stack that names every empty slot once, finite points.
pub record IsValid {F : Type 0} (is_finite : F → Bool) (s : PointStore F) : Type 0 where
  pub counts_len : length s.ref_counts ≡ length s.points
  pub free_slots : IsFreeList s.points s.free_list
  pub finite : (i : ℕ) (p : List F) → slot s.points i ≡ some p → ensure_finite is_finite p ≡ ok tt

-- The counts fit a `u32`, and that of an empty slot is 0.
pub record IsCounted {F : Type 0} (s : PointStore F) : Type 0 where
  pub word : (i : ℕ) → load s i < 2 ^ 32
  pub idle : (i : ℕ) → slot s.points i ≡ none → load s i ≡ 0
