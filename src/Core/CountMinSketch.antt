-- ===== src/Core/CountMinSketch.antt =====
-- The count-min sketch of core/src/count_min_sketch.rs. `hash` is what a fresh `DefaultHasher` finishes
-- with after the first seed of a row, the key and the second seed. The loops over `0..depth` walk the
-- rows and their seeds together, since there are `depth` of both.
pub mod Bounds
mod Tests
use anomstream.Prelude.{
  ℕ, zero, suc, ◌+◌, ◌*◌, ◌%◌, ◌^◌, min, Bool, ◌||◌, List, [], ◌∷◌, get_or, set, replicate, map,
  ltb, ◌==◌, if◌then◌else◌,
}
use anomstream.Word.{saturating_add64}
use anomstream.Core.Error.{RcfResult, ok, err, invalid_config}

abbrev pub max_width : ℕ
max_width = 2 ^ 18

abbrev pub max_depth : ℕ
max_depth = 16

pub record CountMinSketch : Type 0 where
  pub table : List (List ℕ)
  pub seeds : List (ℕ × ℕ)
  pub width : ℕ
  pub depth : ℕ
  pub total : ℕ

-- The seeds of the rows from `i` on, `n` of them.
abbrev pub seeds_from : ℕ → ℕ → List (ℕ × ℕ)
seeds_from i zero = []
seeds_from i (suc n) =
    (5871781006564002453 * (i + 1) % 2 ^ 64, 7809847782465536322 * (i + 1) % 2 ^ 64)
    ∷ seeds_from (i + 1) n

unfoldable pub new : ℕ → ℕ → RcfResult CountMinSketch
new width depth =
    if width == 0 || ltb max_width width
    then err invalid_config
    else if depth == 0 || ltb max_depth depth
    then err invalid_config
    else ok (record {
      table = replicate depth (replicate width 0);
      seeds = seeds_from 0 depth;
      width = width;
      depth = depth;
      total = 0;
    })

-- Every counter is set to 0 in place.
abbrev pub zeroed : List ℕ → List ℕ
zeroed [] = []
zeroed (x ∷ xs) = 0 ∷ zeroed xs

abbrev pub all_zeroed : List (List ℕ) → List (List ℕ)
all_zeroed [] = []
all_zeroed (row ∷ rows) = zeroed row ∷ all_zeroed rows

pub reset : CountMinSketch → CountMinSketch
reset s = record s { table = all_zeroed s.table; total = 0 }

-- `Iterator::min`, 0 without values
pub least : List ℕ → ℕ
least [] = 0
least (x ∷ []) = x
least (x ∷ y ∷ ys) = min x (least (y ∷ ys))

module _ {K : Type 0} (hash : ℕ → K → ℕ → ℕ) where
  abbrev pub hash_to_col : ℕ → ℕ × ℕ → K → ℕ
  hash_to_col width (a, b) key = hash a key b % width

  pub bump : ℕ → K → ℕ → List (List ℕ) → List (ℕ × ℕ) → List (List ℕ)
  bump width key count (row ∷ rows) (seed ∷ seeds) =
      let col = hash_to_col width seed key in
      set row col (saturating_add64 (get_or row col 0) count) ∷ bump width key count rows seeds
  bump width key count rows seeds = rows

  pub increment : K → ℕ → CountMinSketch → CountMinSketch
  increment key count s = record s {
    total = saturating_add64 s.total count;
    table = bump s.width key count s.table s.seeds;
  }

  -- The counter of a key in every row.
  pub cells : ℕ → K → List (List ℕ) → List (ℕ × ℕ) → List ℕ
  cells width key (row ∷ rows) (seed ∷ seeds) =
      get_or row (hash_to_col width seed key) 0 ∷ cells width key rows seeds
  cells width key rows seeds = []

  unfoldable pub estimate : CountMinSketch → K → ℕ
  estimate s key = least (cells s.width key s.table s.seeds)
