-- ===== src/Core/Tree/RandomCutTree/Grow.antt =====
-- What an insertion does to a tree, without the arena: nodes have no references and no parents.
use anomstream.Prelude.{ℕ, suc, ◌+◌, max, Bool, true, false, List, Option, if◌then◌else◌}
use anomstream.Core.Error.{RcfResult, ok, err, invalid_config, out_of_bounds, ◌>>=◌}
use anomstream.Core.Domain.{Cut, BoundingBox}
use anomstream.Core.Domain.Arith.{Arith}
use anomstream.Core.Domain.Boxes.{
  left_of, from_point, extended, augmented_range_sum, augmented_random_cut,
}
use anomstream.Core.Tree.NodeStore
use anomstream.Core.Tree.RandomCutTree.{isolates_point}
use anomstream.Core.Tree.RandomCutTree.Shape.{Shape, tip, fork}

pub data Tree (F : Type 0) : Type 0 where
  leaf : (point_idx mass : ℕ) → Tree F
  split : (cut : Cut F) (bbox : BoundingBox F) (l r : Tree F) → Tree F

unfoldable pub erase : {F : Type 0} → Shape F → Tree F
erase (tip n i m) = leaf i m
erase (fork n cut bbox l r) = split cut bbox (erase l) (erase r)

unfoldable pub size : {F : Type 0} → Tree F → ℕ
size (leaf i m) = m
size (split cut bbox l r) = size l + size r

unfoldable pub tall : {F : Type 0} → Tree F → ℕ
tall (leaf i m) = 0
tall (split cut bbox l r) = suc (max (tall l) (tall r))

-- The tree, whether a leaf was made, and the generator.
abbrev pub Grown : Type 0 → Type 0 → Type 0
Grown F R = Tree F × Bool × R

module _ {F R : Type 0} (f64 : Arith F) (draw : R → F × R) (dim : ℕ) (points : ℕ → Option (List F))
    (point_idx : ℕ) (point : List F) where
  abbrev pub tree_box : Tree F → RcfResult (BoundingBox F)
  tree_box (leaf i m) = NodeStore.ok_or (points i) (out_of_bounds i 0) >>= from_point f64 dim
  tree_box (split cut bbox l r) = ok bbox

  -- A point that the box of the tree has already
  abbrev pub coincide : Tree F → R → RcfResult (Grown F R)
  coincide (leaf i m) rng = ok (leaf i (m + 1), false, rng)
  coincide (split cut bbox l r) rng = err invalid_config

  abbrev pub beside : Cut F → BoundingBox F → Tree F → Tree F
  beside cut bbox t =
      split cut bbox (if left_of f64 cut point then leaf point_idx 1 else t)
        (if left_of f64 cut point then t else leaf point_idx 1)

  abbrev pub child : Tree F → Cut F → Tree F → Tree F
  child l cut r = if left_of f64 cut point then l else r

  abbrev pub with_child : Cut F → BoundingBox F → Tree F → Tree F → Grown F R → Grown F R
  with_child cut bbox l r (t, is_new, rng) = (
    split cut (if is_new then extended f64 bbox point else bbox)
        (if left_of f64 cut point then t else l) (if left_of f64 cut point then r else t),
    is_new,
    rng,
  )

  -- What becomes of a tree under the first cut, `below` being what becomes of its children.
  abbrev pub cut_or : Tree F → (R → RcfResult (Grown F R)) → R → RcfResult (Grown F R)
  cut_or t below rng = do
    b ← tree_box t
    if f64.le (augmented_range_sum f64 b point) f64.zero then coincide t rng else (do
      (cut, rng') ← augmented_random_cut f64 draw dim b point rng
      if isolates_point f64 dim cut point b
          then ok (beside cut (extended f64 b point) t, true, rng')
          else below rng')

  unfoldable pub grow : Tree F → R → RcfResult (Grown F R)
  grow (leaf i m) rng = cut_or (leaf i m) (λ rng'. err invalid_config) rng
  grow (split cut bbox l r) rng =
      cut_or (split cut bbox l r)
        (λ rng'. (if left_of f64 cut point then grow l rng' else grow r rng') >>= λ g.
          ok (with_child cut bbox l r g))
        rng
