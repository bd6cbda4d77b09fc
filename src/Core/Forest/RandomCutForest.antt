-- ===== src/Core/Forest/RandomCutForest.antt =====
-- The forest of core/src/forest/random_cut_forest.rs: trees that share one point store, each with the
-- sampler that decides what it holds. This is the serial walk over the trees. The metrics sink is left
-- out. A result `none` is a panic.
pub mod Config
pub mod Insertion
pub mod Deletion
pub mod Holders
pub mod Failures
pub mod SamePoints
pub mod Step
pub mod Walk
pub mod Freeing
pub mod Built
pub mod Update
pub mod RetractWalk
pub mod Retract
pub mod Purge
pub mod Matching
mod Tests
use mathlib.Core.Option
use anomstream.Prelude.{
  ℕ, zero, suc, ◌+◌, ◌^◌, ◌≡◌, refl, ◌⊎◌, inl, inr, Bool, true, false, not, ◌||◌, ◌&&◌, List, [],
  ◌∷◌, Option, none, some, length, set, get_or, replicate, map, ltb, leb, ◌==◌, if◌then◌else◌,
}
use anomstream.Word.{saturating_add64}
use anomstream.Core.Error.{RcfError, RcfResult, ok, err, invalid_config, dimension_mismatch}
use anomstream.Core.Domain.{ensure_finite}
use anomstream.Core.Domain.Arith.{Arith}
use anomstream.Core.Sampler.{
  SamplerOp, inserted, replaced, rejected, SamplerArith, BinaryHeap, ReservoirSampler, iter_indices,
  accept, with_initial_accept_fraction,
}
use anomstream.Core.Sampler
use anomstream.Core.Tree.RandomCutTree
use anomstream.Core.Tree.RandomCutTree.{RandomCutTree}
use anomstream.Core.Tree.RandomCutTree.Insert as Tree
use anomstream.Core.Tree.RandomCutTree.Delete.{delete_with_survivors}
use anomstream.Core.Forest.PointStore.{
  PointStore, point, incr_ref, decr_ref, set_free, drop_unreferenced, ref_count, capacity,
}
use anomstream.Core.Forest.PointStore
use anomstream.Core.Forest.Timestamps

-- A fallible operation that may also panic.
abbrev pub Run : Type 0 → Type 0
Run A = Option (RcfResult A)

infixl 5 ◌>>=◌ ◌>>◌
abbrev pub ◌>>=◌ : {A B : Type 0} → Run A → (A → Run B) → Run B
none >>= f = none
some (err e) >>= f = some (err e)
some (ok v) >>= f = f v

pub Run-cases :
    {A : Type 0} (run : Run A)
    → (run ≡ none) ⊎ ((e : RcfError) × (run ≡ some (err e))) ⊎ ((v : A) × (run ≡ some (ok v)))
Run-cases none = inl refl
Run-cases (some (err e)) = inr (inl (e, refl))
Run-cases (some (ok v)) = inr (inr (v, refl))

abbrev pub ◌>>◌ : {B : Type 0} → Run (Unit {0}) → Run B → Run B
check >> rest = check >>= λ _. rest

abbrev pub return : {A : Type 0} → A → Run A
return v = some (ok v)

-- `expect`
abbrev pub expect : {A : Type 0} → Option A → Run A
expect none = none
expect (some v) = some (ok v)

pub record TreeSlot (F R : Type 0) (b : BinaryHeap F) : Type 0 where
  pub tree : RandomCutTree F
  pub sampler : ReservoirSampler b
  pub rng : R

pub record RandomCutForest (F R : Type 0) (b : BinaryHeap F) : Type 0 where
  pub feature_scales : Option (List F)
  pub trees : List (TreeSlot F R b)
  pub point_store : PointStore F
  pub updates_seen : ℕ
  pub timestamps : List (ℕ × ℕ)

-- The indices that a sampler holds.
abbrev pub held_by : {F R : Type 0} {b : BinaryHeap F} → SamplerArith F → TreeSlot F R b → List ℕ
held_by a slot = iter_indices a slot.sampler

pub scaled : {F : Type 0} → Arith F → List F → List F → List F
scaled f64 (x ∷ xs) (s ∷ scales) = f64.mul x s ∷ scaled f64 xs scales
scaled f64 xs scales = xs

pub scale_point_copy : {F : Type 0} → Arith F → ℕ → Option (List F) → List F → List F
scale_point_copy f64 dim none p = p
scale_point_copy f64 dim (some scales) p = if length scales == dim then scaled f64 p scales else p

module _ {F R : Type 0} {b : BinaryHeap F} (a : SamplerArith F) (draw : R → F × R) (dim : ℕ)
    (fuel climb_fuel failures : ℕ) where
  open a use {f64}

  pub tree_add : PointStore F → ℕ → List F → TreeSlot F R b → RcfResult (RandomCutTree F × R)
  tree_add store new_idx p slot =
      Tree.add f64 draw dim (point store) climb_fuel fuel new_idx p slot.tree slot.rng

  pub tree_delete : PointStore F → ℕ → TreeSlot F R b → RcfResult (RandomCutTree F)
  tree_delete store idx slot =
      delete_with_survivors f64 dim (point store) fuel (held_by a slot) idx slot.tree

module _ {F R : Type 0} {b : BinaryHeap F} where
  pub set_point_timestamp : RandomCutForest F R b → ℕ → ℕ → RandomCutForest F R b
  set_point_timestamp f idx timestamp = record f {
    timestamps = Timestamps.insert idx timestamp f.timestamps;
  }

  pub point_timestamp : RandomCutForest F R b → ℕ → Option ℕ
  point_timestamp f idx = Timestamps.get idx f.timestamps

  pub tracked_timestamps : RandomCutForest F R b → ℕ
  tracked_timestamps f = length f.timestamps
