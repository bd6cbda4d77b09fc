-- ===== src/Core/Forest/RandomCutForest/Matching.antt =====
-- `delete_by_value` of core/src/forest/random_cut_forest.rs: the points that it finds, and their removal.
use anomstream.Prelude.{
  ℕ, zero, suc, ◌≡◌, refl, Bool, false, List, Option, none, some, get_or, replicate,
}
use anomstream.Core.Domain.Arith.{Arith}
use anomstream.Core.Forest.PointStore.{PointStore}
use anomstream.Core.Forest.RandomCutForest.{RandomCutForest}
use anomstream.Core.Forest.RandomCutForest.Deletion.{same_point}

-- Whether a slot holds a point that equals the probe.
abbrev pub is_match : {F : Type 0} → Arith F → List F → Option (List F) → Bool
is_match f64 probe none = false
is_match f64 probe (some p) = same_point f64 p probe

marked : List Bool → ℕ → Bool
marked seen i = get_or seen i false

marked-replicate : (n i : ℕ) → marked (replicate n false) i ≡ false
unfolding marked
marked-replicate zero i = refl
marked-replicate (suc n) zero = refl
marked-replicate (suc n) (suc i) = marked-replicate n i
