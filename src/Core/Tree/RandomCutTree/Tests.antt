-- ===== src/Core/Tree/RandomCutTree/Tests.antt =====
-- Trees over natural numbers, with two points on a line, and a generator that draws 0.
use anomstream.Prelude.{
  ℕ, zero, suc, ◌+◌, ◌<◌, ◌^◌, ◌≡◌, ◌⊎◌, refl, Bool, true, List, [], ◌∷◌, Option, none, some, arith,
}
use anomstream.Core.Error.{RcfError, ok, err}
use anomstream.Core.Domain.{ensure_dim, ensure_finite}
use anomstream.Core.Domain.Naturals.{nat}
use anomstream.Core.Domain.Boxes.{
  extend, lower, raise, left_of, augmented_range_sum, augmented_random_cut, from_point,
}
use anomstream.Core.Domain.Boxes.Order.{Ordered}
use anomstream.Core.Tree.Node
use anomstream.Core.Tree.Node.{NodeRef}
use anomstream.Core.Tree.NodeStore.{
  view, add_leaf, add_internal, parent, set_parent, live_leaf_count, live_internal_count,
}
use anomstream.Core.Tree.NodeStore.Validate.{validate_layout, validate_layout-exact}
use anomstream.Core.Slab.{empties, lives}
use anomstream.Core.Slab.Check.{check_free_list, check_listed}
use anomstream.Core.Tree.RandomCutTree.{
  RandomCutTree, splice_new_internal, replace_in_parent, update_ancestors_after_insert, climb,
  isolates_point, bbox_of, leaf_index_set, leaf_index_contains, leaf_index_get,
}
use anomstream.Core.Tree.RandomCutTree.Insert.{add, insert_at}
use anomstream.Core.Tree.RandomCutTree.Delete.{delete_with_survivors}
use anomstream.Core.Tree.RandomCutTree.Shape.{
  Shape, tip, fork, mass, mass_at, height, uses, uses_around, root_of,
}
use anomstream.Core.Tree.RandomCutTree.Splice.{HasRoom}
use anomstream.Core.Tree.RandomCutTree.Index.{mapped}
use anomstream.Core.Tree.RandomCutTree.Lighter.{HasBox}
use anomstream.Core.Tree.RandomCutTree.Whole.{IsTree, Entered, add-IsTree}
use anomstream.Core.Tree.RandomCutTree.Shrink.{Lighter, Left, delete-Lighter}
use anomstream.Core.Tree.RandomCutTree.Grow.{erase, grow}
use anomstream.Core.Tree.RandomCutTree.GrowSorted.{IsSorted}
use anomstream.Core.Tree.RandomCutTree.Walk.{
  max_depth, codisp_stateless, ratios, IsGreatest, codisp_stateless-IsTree,
}
use anomstream.Core.Tree.RandomCutTree.Sound.{add-IsSorted, delete-add}

nat-Ordered : Ordered nat
nat-Ordered = record {
  finite_zero = refl;
  le_refl = λ a _. ground arith;
  le_trans = λ a b c h k. ground (arith, h, k);
  le_of_lt = λ a b h. ground (arith, h);
  lt_asym = λ a b h. ground (arith, h);
  le_of_not_lt = λ a b _ _ h. ground (arith, h);
}

abbrev draw : ℕ → ℕ × ℕ
draw r = (0, r + 1)

abbrev known : ℕ → Option (List ℕ)
known zero = some (7 ∷ [])
known (suc zero) = some (3 ∷ [])
known (suc (suc i)) = none

abbrev first : NodeRef
first = Node.leaf 0

abbrev one_leaf : RandomCutTree ℕ
one_leaf = record {
  root = some first;
  store = record {
    internals = none ∷ none ∷ [];
    leaves = some (record { point_idx = 0; parent = none; mass = 1 }) ∷ none ∷ [];
    internal_free = 0 ∷ 1 ∷ [];
    leaf_free = 1 ∷ [];
    capacity = 2;
  };
  leaf_index = some first ∷ [];
  distinct_count = 1;
}

one_leaf_passes : validate_layout one_leaf.store ≡ ok tt
unfolding validate_layout check_free_list check_listed empties
one_leaf_passes = refl

abbrev alone : Shape ℕ
alone = tip first 0 1

one_leaf-IsTree : IsTree one_leaf alone
unfolding root_of uses uses_around mass mass_at mapped lives view leaf_index_get
one_leaf-IsTree = record {
  sits = record {
    rooted = refl;
    layout = (validate_layout-exact one_leaf.store).0 one_leaf_passes;
    inner = (omega arith, refl);
    outer = tt;
    once = λ k. ground arith;
  };
  counted = refl;
  weighed = refl;
  entries = λ k. ground arith;
  resolved = refl;
}

one_leaf-HasRoom : HasRoom one_leaf.store
unfolding live_leaf_count live_internal_count
one_leaf-HasRoom = record { leaf = omega arith; internal = omega arith }

abbrev two_leaves : RandomCutTree ℕ
two_leaves = record {
  root = some (Node.internal 0);
  store = record {
    internals =
        some (record {
          cut = record { dim = 0; value = 3 };
          bbox = record { min = 3 ∷ []; max = 7 ∷ [] };
          left = Node.leaf 1;
          right = first;
          parent = none;
          mass = 2;
        })
        ∷ none
        ∷ [];
    leaves =
        some (record { point_idx = 0; parent = some (Node.internal 0); mass = 1 })
        ∷ some (record { point_idx = 1; parent = some (Node.internal 0); mass = 1 })
        ∷ [];
    internal_free = 1 ∷ [];
    leaf_free = [];
    capacity = 2;
  };
  leaf_index = some first ∷ some (Node.leaf 1) ∷ [];
  distinct_count = 2;
}

-- The point 3 goes beside the point 7.
ran : add nat draw 1 known 9 9 1 (3 ∷ []) one_leaf 0 ≡ ok (two_leaves, 2)
unfolding add add_leaf add_internal parent set_parent view insert_at splice_new_internal
    replace_in_parent update_ancestors_after_insert climb isolates_point bbox_of extend lower raise
    augmented_range_sum augmented_random_cut left_of from_point leaf_index_set leaf_index_contains
    ensure_dim ensure_finite
ran = refl

abbrev pair : Shape ℕ
pair =
    fork (Node.internal 0) (record { dim = 0; value = 3 }) (record { min = 3 ∷ []; max = 7 ∷ [] })
      (tip (Node.leaf 1) 1 1) alone

two_leaves_pass : validate_layout two_leaves.store ≡ ok tt
unfolding validate_layout check_free_list check_listed empties
two_leaves_pass = refl

two_leaves-IsTree : IsTree two_leaves pair
unfolding root_of uses uses_around mass mass_at mapped lives view leaf_index_get
two_leaves-IsTree = record {
  sits = record {
    rooted = refl;
    layout = (validate_layout-exact two_leaves.store).0 two_leaves_pass;
    inner = (omega arith, refl, (omega arith, refl), (omega arith, refl));
    outer = tt;
    once = λ k. ground arith;
  };
  counted = refl;
  weighed = refl;
  entries = λ k. ground arith;
  resolved = (refl, refl);
}

known-HasBox : (j : ℕ) (k : NodeRef) → leaf_index_get two_leaves j ≡ some k → HasBox nat 1 known k j
unfolding leaf_index_get from_point
known-HasBox zero k e = (7 ∷ [], refl, refl)
known-HasBox (suc zero) k e = (3 ∷ [], refl, refl)
known-HasBox (suc (suc j)) k e = absurd (cc e)

finite : ensure_finite (λ (a : ℕ). true) (3 ∷ []) ≡ ok tt
unfolding ensure_finite
finite = refl

alone_low : (height alone < 9) × (height alone + 1 < 9) × (mass alone + 1 < 2 ^ 64)
unfolding height mass
alone_low = (omega arith, omega arith, omega arith)

pair_low : (height pair < 9) × (mass pair < 2 ^ 64)
unfolding height mass
pair_low = (omega arith, omega arith)

at_one : (leaf_index_get one_leaf 1 ≡ none) × (leaf_index_get two_leaves 1 ≡ some (Node.leaf 1))
unfolding leaf_index_get
at_one = (refl, refl)

alone-IsSorted : IsSorted nat 1 known (erase alone)
unfolding erase
alone-IsSorted = (7 ∷ [], refl, refl, (refl, tt), tt)

add-IsTree_example :
    ((e : RcfError) × (grow nat draw 1 known 1 (3 ∷ []) (erase alone) 0 ≡ err e)
      × (add nat draw 1 known 9 9 1 (3 ∷ []) one_leaf 0 ≡ err e))
    ⊎ ((t' : Shape ℕ) × (is_new : Bool) × (rng' : ℕ) × (tree' : RandomCutTree ℕ) × (grow nat draw 1
            known 1
            (3 ∷ [])
            (erase alone)
            0
          ≡ ok (erase t', is_new, rng'))
        × (add nat draw 1 known 9 9 1 (3 ∷ []) one_leaf 0 ≡ ok (tree', rng'))
        × IsTree tree' t'
        × Entered one_leaf tree' 1)
add-IsTree_example =
    add-IsTree nat draw 1 known 9 1 (3 ∷ []) one_leaf alone 9 0 alone_low.0 alone_low.0
      one_leaf-IsTree one_leaf-HasRoom alone_low.2 refl finite at_one.0

delete-Lighter_example :
    (tree' : RandomCutTree ℕ) × (delete_with_survivors nat 1 known 9 (0 ∷ []) 1 two_leaves
      ≡ ok tree')
    × Lighter tree' pair
    × Left two_leaves tree' 1
delete-Lighter_example =
    delete-Lighter nat 1 known (0 ∷ []) 1 9 two_leaves pair (Node.leaf 1) pair_low.0
      two_leaves-IsTree known-HasBox pair_low.1 at_one.1

add-IsSorted_example : (t' : Shape ℕ) × IsTree two_leaves t' × IsSorted nat 1 known (erase t')
add-IsSorted_example =
    add-IsSorted nat draw 1 known 9 1 (3 ∷ []) nat-Ordered one_leaf two_leaves alone 9 0 2
      alone_low.0 alone_low.0 one_leaf-IsTree one_leaf-HasRoom alone_low.2 refl finite at_one.0 refl
      alone-IsSorted ran

delete-add_example :
    (tree'' : RandomCutTree ℕ) × (delete_with_survivors nat 1 known 9 [] 1 two_leaves ≡ ok tree'')
    × ((j : ℕ) → leaf_index_get tree'' j ≡ leaf_index_get one_leaf j)
    × (tree''.distinct_count ≡ one_leaf.distinct_count)
delete-add_example =
    delete-add nat draw 1 known 9 1 (3 ∷ []) [] one_leaf two_leaves alone 9 9 0 2 alone_low.0
      alone_low.0 alone_low.1 one_leaf-IsTree one_leaf-HasRoom alone_low.2 refl finite at_one.0
      known-HasBox ran

codisp_stateless-IsTree_example :
    (max_depth 9 two_leaves ≡ some (height pair))
    × (d : ℕ) × (codisp_stateless nat 1 (3 ∷ []) 9 two_leaves ≡ ok d)
    × IsGreatest nat 1 (3 ∷ []) (ratios nat 1 (3 ∷ []) (erase pair)) d
codisp_stateless-IsTree_example =
    codisp_stateless-IsTree nat 1 (3 ∷ []) (λ x y z h k. ground (arith, h, k)) (λ x. ground arith)
      two_leaves pair 9 two_leaves-IsTree pair_low.0 refl finite
