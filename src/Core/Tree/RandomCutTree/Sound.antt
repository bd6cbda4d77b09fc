-- ===== src/Core/Tree/RandomCutTree/Sound.antt =====
-- `add` and `delete` together, and what `add` keeps of the cuts and boxes.
use anomstream.Prelude.{
  ℕ, ◌+◌, ◌-◌, ◌<◌, ◌^◌, ◌≡◌, ◌∙◌, sym, ap, subst, List, Option, some, none, length, arith, inl,
  inr, ℕ_discrete,
}
use anomstream.Core.Error.{ok}
use anomstream.Core.Domain.{ensure_finite}
use anomstream.Core.Domain.Arith.{Arith}
use anomstream.Core.Domain.Boxes.Order.{Ordered, Finite-of_ensure}
use anomstream.Core.Tree.Node.{NodeRef}
use anomstream.Core.Tree.RandomCutTree.{RandomCutTree, leaf_index_get}
use anomstream.Core.Tree.RandomCutTree.Insert.{add}
use anomstream.Core.Tree.RandomCutTree.Delete.{delete_with_survivors}
use anomstream.Core.Tree.RandomCutTree.Shape.{Shape, mass, height}
use anomstream.Core.Tree.RandomCutTree.Splice.{HasRoom}
use anomstream.Core.Tree.RandomCutTree.Lighter.{HasBox}
use anomstream.Core.Tree.RandomCutTree.Whole.{IsTree, add-IsTree}
use anomstream.Core.Tree.RandomCutTree.Shrink.{delete-Lighter, Lighter}
use anomstream.Core.Tree.RandomCutTree.Grow.{erase}
use anomstream.Core.Tree.RandomCutTree.GrowSize.{size-erase, size-grow, tall-erase, tall-grow}
use anomstream.Core.Tree.RandomCutTree.GrowSorted.{IsSorted, IsSorted-grow}

module _ {F R : Type 0} (f64 : Arith F) (draw : R → F × R) (dim : ℕ) (points : ℕ → Option (List F))
    (climb_fuel idx : ℕ) (point : List F) where
  -- Let the coordinates be ordered as finite `f64` are, the object hold a tree in order (`IsTree`) with
  -- room, fuel above its height and no overflow of its mass, and the point be finite, of the dimension,
  -- and the one that the accessor gives at its index, which is new. If every cut of the tree has the
  -- points on its two sides and every box has the points below it inside (`IsSorted`), and `add`
  -- succeeds, then the object holds a tree in order of which the same is true.
  pub add-IsSorted :
      Ordered f64
      → (tree tree' : RandomCutTree F) (t : Shape F) (fuel : ℕ) (rng rng' : R) → height t < fuel
      → height t < climb_fuel
      → IsTree tree t
      → HasRoom tree.store
      → mass t + 1 < 2 ^ 64
      → length point ≡ dim
      → ensure_finite f64.is_finite point ≡ ok tt
      → leaf_index_get tree idx ≡ none
      → points idx ≡ some point
      → IsSorted f64 dim points (erase t)
      → add f64 draw dim points climb_fuel fuel idx point tree rng ≡ ok (tree', rng')
      → (t' : Shape F) × IsTree tree' t' × IsSorted f64 dim points (erase t')
  add-IsSorted o tree tree' t fuel rng rng' b b' h room small fits finite e known sorted ran =
      elim (add-IsTree f64 draw dim points climb_fuel idx point tree t fuel rng b b' h room small
        fits finite e) [
          | inl (why, _, r) ↦ absurd (cc (ran, r))
          | inr (t', is_new, rng2, tree2, grown, r, is_tree, _) ↦
              let same : tree2 ≡ tree' = cc (ran, r) in
              (
                t',
                subst (λ x. IsTree x t') same is_tree,
                (IsSorted-grow f64 dim points o point fits (Finite-of_ensure f64 point finite) draw
                    idx known (erase t) rng _ grown sorted).0,
              )
        ]

  -- Let the object hold a tree in order (`IsTree`) with room, fuel above its height and for one level
  -- more, and no overflow of its mass, and the point be finite, of the dimension, and its index new.
  -- After an `add` that succeeds, if the accessor gives every indexed point, `delete_with_survivors` of
  -- the same index succeeds, and leaves the count of points and every entry of the reverse index as
  -- they were before the two.
  pub delete-add :
      (survivors : List ℕ) (tree tree' : RandomCutTree F) (t : Shape F) (fuel fuel' : ℕ)
      (rng rng' : R)
      → height t < fuel
      → height t < climb_fuel
      → height t + 1 < fuel'
      → IsTree tree t
      → HasRoom tree.store
      → mass t + 1 < 2 ^ 64
      → length point ≡ dim
      → ensure_finite f64.is_finite point ≡ ok tt
      → leaf_index_get tree idx ≡ none
      → ((j : ℕ) (k : NodeRef) → leaf_index_get tree' j ≡ some k → HasBox f64 dim points k j)
      → add f64 draw dim points climb_fuel fuel idx point tree rng ≡ ok (tree', rng')
      → (tree'' : RandomCutTree F) × (delete_with_survivors f64 dim points fuel' survivors idx tree'
          ≡ ok tree'')
        × ((j : ℕ) → leaf_index_get tree'' j ≡ leaf_index_get tree j)
        × (tree''.distinct_count ≡ tree.distinct_count)
  delete-add survivors tree tree' t fuel fuel' rng rng' b b' b'' h room small fits finite e known
        ran =
      elim (add-IsTree f64 draw dim points climb_fuel idx point tree t fuel rng b b' h room small
        fits finite e) [
          | inl (why, _, r) ↦ absurd (cc (ran, r))
          | inr (t', is_new, rng2, tree2, grown, r, is_tree2, ((n, at), others)) ↦
              let same : tree2 ≡ tree' = cc (ran, r) in
              let is_tree = subst (λ x. IsTree x t') same is_tree2 in
              let index : (j : ℕ) → leaf_index_get tree2 j ≡ leaf_index_get tree' j =
                λ j. ap (λ x. leaf_index_get x j) same in
              let one : mass t' ≡ mass t + 1 = omega (
                arith,
                size-erase t,
                size-erase t',
                size-grow f64 draw dim points idx point (erase t) rng _ grown,
              ) in
              let low : height t' < fuel' = omega (
                arith,
                b'',
                tall-erase t,
                tall-erase t',
                tall-grow f64 draw dim points idx point (erase t) rng _ grown,
              ) in
              let (tree3, gone, lighter, (none_left, others')) =
                delete-Lighter f64 dim points survivors idx fuel' tree' t' n low is_tree known
                  (omega (arith, small, one)) (sym (index idx) ∙ at) in
              (
                tree3,
                gone,
                λ j. elim (ℕ_discrete idx j) [
                  | yes d ↦
                      ap (leaf_index_get tree3) (sym d)
                      ∙ none_left
                      ∙ sym e
                      ∙ ap (leaf_index_get tree) d
                  | no d ↦ others' j d ∙ sym (index j) ∙ others j d
                ],
                lighter_count tree3 t' lighter ∙ omega (arith, one, h.weighed),
              )
        ]
    where
      lighter_count :
          (tree3 : RandomCutTree F) (t' : Shape F)
          → Lighter tree3 t'
          → tree3.distinct_count ≡ mass t' - 1
      lighter_count tree3 t' (inl (h, one)) = omega (arith, h.counted.0, one)
      lighter_count tree3 t' (inr (t3, h, one)) = omega (arith, h.weighed, one)
