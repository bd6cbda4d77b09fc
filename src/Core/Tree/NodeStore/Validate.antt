-- ===== src/Core/Tree/NodeStore/Validate.antt =====
-- The check of a restored arena: `validate_layout` and `check_free_list` of
-- core/src/tree/node_store.rs.
use anomstream.Prelude.{◌≡◌, ◌↔◌, ◌||◌, not, length, ltb, ◌==◌, if◌then◌else◌, arith}
use anomstream.Core.Error.{RcfResult, ok, err, deserialization_failed, ◌>>◌, >>=-eq-ok}
use anomstream.Core.Slab.{IsFreeList}
use anomstream.Core.Slab.Check.{check_free_list}
use anomstream.Core.Slab.Check.Exact.{check_free_list-exact}
use anomstream.Core.Tree.NodeStore.Layout.{Layout}
use anomstream.Core.Tree.Node.{index_mask}
use anomstream.Core.Tree.NodeStore.{NodeStore}

module _ {F : Type 0} where
  unfoldable pub validate_layout : NodeStore F → RcfResult (Unit {0})
  validate_layout s =
      if s.capacity == 0 || ltb index_mask s.capacity
      then err deserialization_failed
      else if not (length s.internals == s.capacity) || not (length s.leaves == s.capacity)
      then err deserialization_failed
      else (check_free_list s.internals s.internal_free >> check_free_list s.leaves s.leaf_free)

  -- The check of an arena passes exactly if the arena has the layout: a capacity from 1 to
  -- `MAX_INDEX`, two arrays of that length, and for each a free stack that names every empty
  -- slot once and nothing else.
  pub validate_layout-exact : (s : NodeStore F) → (validate_layout s ≡ ok tt) ↔ Layout s
  unfolding validate_layout
  validate_layout-exact s = (sound, complete)
    where
      internals_exact :
          (check_free_list s.internals s.internal_free ≡ ok tt)
          ↔ IsFreeList s.internals s.internal_free
      internals_exact = check_free_list-exact s.internals s.internal_free

      leaves_exact :
          (check_free_list s.leaves s.leaf_free ≡ ok tt) ↔ IsFreeList s.leaves s.leaf_free
      leaves_exact = check_free_list-exact s.leaves s.leaf_free

      both :
          (check_free_list s.internals s.internal_free >> check_free_list s.leaves s.leaf_free)
            ≡ ok tt
          → IsFreeList s.internals s.internal_free × IsFreeList s.leaves s.leaf_free
      both h =
          let (u, e, k) =
            >>=-eq-ok (check_free_list s.internals s.internal_free)
              (λ _. check_free_list s.leaves s.leaf_free) h in
          (internals_exact.0 e, leaves_exact.0 k)

      sound : validate_layout s ≡ ok tt → Layout s
      sound h =
          let pair = both (ground arith) in
          record {
            positive = ground arith;
            small = ground arith;
            internals_len = ground arith;
            leaves_len = ground arith;
            internal_list = pair.0;
            leaf_list = pair.1;
          }

      complete : Layout s → validate_layout s ≡ ok tt
      complete l =
          rw (internals_exact.1 l.internal_list) (rw (leaves_exact.1 l.leaf_list) (ground arith))
