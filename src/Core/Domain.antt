-- ===== src/Core/Domain.antt =====
-- Values of core/src/domain over a type `F` that stands for `f64`: a point `[f64; D]` and the ends
-- of a box are lists.
pub mod Arith
pub mod Boxes
pub mod Naturals
use anomstream.Prelude.{ℕ, Bool, List, [], ◌∷◌, length, ◌==◌, if◌then◌else◌}
use anomstream.Core.Error.{RcfResult, ok, err, dimension_mismatch, nan_value}

-- `Cut` of core/src/domain/cut.rs, without the feature `packed-cut`.
pub record Cut (F : Type 0) : Type 0 where
  pub dim : ℕ
  pub value : F

-- `BoundingBox` of core/src/domain/bounding_box.rs.
pub record BoundingBox (F : Type 0) : Type 0 where
  pub min : List F
  pub max : List F

module _ {F : Type 0} where
  -- core/src/domain/point.rs
  unfoldable pub ensure_dim : List F → ℕ → RcfResult (Unit {0})
  ensure_dim point dimension =
      if length point == dimension then ok tt else err (dimension_mismatch dimension (length point))

  -- `is_finite` is the method of `f64`.
  unfoldable pub ensure_finite : (F → Bool) → List F → RcfResult (Unit {0})
  ensure_finite is_finite [] = ok tt
  ensure_finite is_finite (v ∷ point) =
      if is_finite v then ensure_finite is_finite point else err nan_value
