-- ===== src/Core/Domain/Arith.antt =====
-- What the crate uses of `f64` and of the vectors of `wide`: an interface, since neither is defined
-- in the repository.
use anomstream.Prelude.{ℕ, Bool, List, get_or}

pub record Arith (F : Type 0) : Type 0 where
  pub zero : F
  pub le : F → F → Bool
  pub lt : F → F → Bool
  pub add : F → F → F
  pub sub : F → F → F
  pub mul : F → F → F
  pub div : F → F → F
  -- `f64::min` and `f64::max`
  pub min : F → F → F
  pub max : F → F → F
  -- `as f64` of a `u64`
  pub of_u64 : ℕ → F
  pub is_finite : F → Bool
  -- `x.abs() < f64::EPSILON`
  pub is_tiny : F → Bool
  -- `fast_min`, `fast_max` and `reduce_add` of `f64x4`, the first two on one lane
  pub fast_min : F → F → F
  pub fast_max : F → F → F
  pub reduce_add : F → F → F → F → F

-- A coordinate; the source indexes only below the dimension.
abbrev pub coord : {F : Type 0} → Arith F → List F → ℕ → F
coord arith xs d = get_or xs d arith.zero
