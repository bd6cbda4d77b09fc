-- ===== src/Core/Forest/RandomCutForest/SamePoints.antt =====
-- Changes of counts in the point store that leave every point where it is.
use anomstream.Prelude.{
  ℕ, ◌^◌, ◌<◌, ◌≡◌, refl, ◌==◌, if◌then◌else◌, List, some, length, arith, get_or-set, length-set,
}
use anomstream.Core.Slab.{slot}
use anomstream.Core.Slab.Vacant.{lt_of_slot}
use anomstream.Core.Forest.PointStore.{PointStore, load}
use anomstream.Core.Forest.PointStore.Validity.{IsCounted}
use anomstream.Core.Forest.PointStore.Counts.{with_count}

-- The same points in the same slots, and counts that fit.
pub record SamePoints {F : Type 0} (s s' : PointStore F) : Type 0 where
  pub points : s'.points ≡ s.points
  pub free_list : s'.free_list ≡ s.free_list
  pub counts_len : length s'.ref_counts ≡ length s.ref_counts
  pub counted : IsCounted s'

module _ {F : Type 0} where
  pub load-with_count :
      (s : PointStore F) (i j n : ℕ)
      → i < length s.ref_counts
      → load (with_count s i n) j ≡ (if i == j then n else load s j)
  load-with_count s i j n h = get_or-set s.ref_counts i j n 0 h

  pub with_count-SamePoints :
      (s : PointStore F) (i n : ℕ) (p : List F)
      → IsCounted s
      → length s.ref_counts ≡ length s.points
      → slot s.points i ≡ some p
      → n < 2 ^ 32
      → SamePoints s (with_count s i n)
  with_count-SamePoints s i n p c lens live word = record {
    points = refl;
    free_list = refl;
    counts_len = length-set s.ref_counts i n;
    counted = record {
      word = λ j. ground (
        arith,
        load-with_count s i j n (omega (arith, lens, lt_of_slot s.points i p live)),
        c.word j,
      );
      idle = λ j e. ground (
        arith,
        load-with_count s i j n (omega (arith, lens, lt_of_slot s.points i p live)),
        c.idle j e,
        e,
        live,
      );
    };
  }
