-- ===== src/Core/Domain/Boxes.antt =====
-- The methods of core/src/domain/cut.rs and core/src/domain/bounding_box.rs that the trees call, over
-- the arithmetic of `Arith`. `dim` is the constant `D`.
pub mod Order
use anomstream.Prelude.{ℕ, zero, suc, ◌+◌, Bool, not, List, [], ◌∷◌, length, ◌==◌, if◌then◌else◌}
use anomstream.Core.Error.{RcfResult, ok, err, dimension_mismatch, empty_bounding_box}
use anomstream.Core.Domain.{Cut, BoundingBox}
use anomstream.Core.Domain.Arith.{Arith, coord}

module _ {F : Type 0} (f64 : Arith F) where
  unfoldable pub left_of : Cut F → List F → Bool
  left_of cut point = f64.le (coord f64 point cut.dim) cut.value

  unfoldable pub from_point : ℕ → List F → RcfResult (BoundingBox F)
  from_point dim point =
      if dim == 0
      then err empty_bounding_box
      else if not (length point == dim)
      then err (dimension_mismatch dim (length point))
      else ok (record { min = point; max = point })

  -- `if v < min[d] { min[d] = v }` over the dimensions, and the same for `max`
  unfoldable pub lower : List F → List F → List F
  lower [] vs = []
  lower (m ∷ ms) [] = m ∷ ms
  lower (m ∷ ms) (v ∷ vs) = (if f64.lt v m then v else m) ∷ lower ms vs

  unfoldable pub raise : List F → List F → List F
  raise [] vs = []
  raise (m ∷ ms) [] = m ∷ ms
  raise (m ∷ ms) (v ∷ vs) = (if f64.lt m v then v else m) ∷ raise ms vs

  abbrev pub extended : BoundingBox F → List F → BoundingBox F
  extended b point = record { min = lower b.min point; max = raise b.max point }

  unfoldable pub extend : ℕ → BoundingBox F → List F → RcfResult (BoundingBox F)
  extend dim b point =
      if not (length point == dim)
      then err (dimension_mismatch dim (length point))
      else ok (extended b point)

  pub merged : BoundingBox F → BoundingBox F → BoundingBox F
  merged b other = record { min = lower b.min other.min; max = raise b.max other.max }

  pub augmented_range_at : BoundingBox F → ℕ → List F → F
  augmented_range_at b d point =
      f64.sub (f64.max (coord f64 b.max d) (coord f64 point d))
        (f64.min (coord f64 b.min d) (coord f64 point d))

  -- The widths of all dimensions, with the `min` and `max` of one of the two loops.
  widths : (F → F → F) → (F → F → F) → List F → List F → List F → List F
  widths least most (p ∷ ps) (mn ∷ mins) (mx ∷ maxs) =
      f64.sub (most mx p) (least mn p) ∷ widths least most ps mins maxs
  widths least most _ _ _ = []

  sum_tail : F → List F → F
  sum_tail acc [] = acc
  sum_tail acc (w ∷ ws) = sum_tail (f64.add acc w) ws

  -- Chunks of four go to the four lanes; `plain` has the widths for the tail.
  sum_chunks : F → F → F → F → List F → List F → F
  unfolding sum_tail
  sum_chunks a b c d (w ∷ x ∷ y ∷ z ∷ fast) (_ ∷ _ ∷ _ ∷ _ ∷ plain) =
      sum_chunks (f64.add a w) (f64.add b x) (f64.add c y) (f64.add d z) fast plain
  sum_chunks a b c d fast plain = sum_tail (f64.reduce_add a b c d) plain

  unfoldable pub augmented_range_sum : BoundingBox F → List F → F
  unfolding widths sum_chunks
  augmented_range_sum b point =
      sum_chunks f64.zero f64.zero f64.zero f64.zero
        (widths f64.fast_min f64.fast_max point b.min b.max)
        (widths f64.min f64.max point b.min b.max)

  -- The loop over the dimensions from `d` on, `n` of them left.
  choose : BoundingBox F → List F → ℕ → ℕ → F → ℕ → ℕ
  unfolding augmented_range_at
  choose b point zero d target chosen = chosen
  choose b point (suc n) d target chosen =
      let r = augmented_range_at b d point in
      let later = choose b point n (d + 1) (f64.sub target r) d in
      if f64.lt target r then d else later

  -- `draw` is `random::<f64>()`.
  unfoldable pub augmented_random_cut :
      {R : Type 0} → (R → F × R) → ℕ → BoundingBox F → List F → R → RcfResult (Cut F × R)
  unfolding augmented_range_sum choose
  augmented_random_cut draw dim b point rng =
      let total = augmented_range_sum b point in
      if f64.le total f64.zero
      then err empty_bounding_box
      else (let (u, rng1) = draw rng in
          let chosen = choose b point dim 0 (f64.mul u total) 0 in
          let lo = f64.min (coord f64 b.min chosen) (coord f64 point chosen) in
          let hi = f64.max (coord f64 b.max chosen) (coord f64 point chosen) in
          let (w, rng2) = draw rng1 in
          if f64.is_tiny (f64.sub hi lo)
          then ok (record { dim = chosen; value = lo }, rng1)
          else ok (record { dim = chosen; value = f64.add lo (f64.mul w (f64.sub hi lo)) }, rng2))
