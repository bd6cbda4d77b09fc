-- ===== src/Core/Forest/RandomCutForest/Holders.antt =====
-- Who holds which point in the forest of core/src/forest/random_cut_forest.rs.
use anomstream.Prelude.{
  ℕ, ◌+◌, ◌≤◌, List, [], ◌∷◌, Option, none, some, length, count, same, All, arith, ◌&&◌, ltb, ◌==◌,
  if◌then◌else◌,
}
use anomstream.Core.Slab.{slot}
use anomstream.Core.Sampler.{SamplerArith, BinaryHeap}
use anomstream.Core.Sampler.Kept.{IsReservoir}
use anomstream.Core.Forest.RandomCutForest.{TreeSlot, held_by}

module _ {F R : Type 0} {b : BinaryHeap F} (a : SamplerArith F) where
  -- How many trees hold an index.
  unfoldable pub holders : List (TreeSlot F R b) → ℕ → ℕ
  holders [] i = 0
  holders (slot ∷ slots) i = count i (held_by a slot) + holders slots i

module _ {F R : Type 0} {b : BinaryHeap F} (a : SamplerArith F) (draw : R → F × R)
    (IsNumber : F → Type 0) where
  -- A sampler in order, which holds no index twice.
  pub record IsSampled (slot : TreeSlot F R b) : Type 0 where
    pub reservoir : IsReservoir a draw IsNumber slot.sampler []
    pub once : (i : ℕ) → count i (held_by a slot) ≤ 1

  abbrev pub AllSampled : List (TreeSlot F R b) → Type 0
  AllSampled = All IsSampled

  pub holders-le :
      (slots : List (TreeSlot F R b)) (i : ℕ) → AllSampled slots → holders a slots i ≤ length slots
  unfolding holders
  holders-le [] i h = omega arith
  holders-le (slot ∷ slots) i h = omega (arith, h.0.once i, holders-le slots i h.1)

-- 1 for an index that lost its last reference.
abbrev pub lost : ℕ → ℕ → ℕ
lost before after = if ltb 0 before && after == 0 then 1 else 0

abbrev pub occurs : Option ℕ → ℕ → ℕ
occurs none i = 0
occurs (some j) i = same j i
