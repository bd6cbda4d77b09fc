-- ===== src/Core/Tree/NodeStore/Layout.antt =====
-- The shape of an arena, which every indexed access trusts, and what keeps it.
use anomstream.Prelude.{◌≤◌, ◌<◌, ◌≡◌, length}
use anomstream.Core.Slab.{IsFreeList}
use anomstream.Core.Tree.Node.{index_mask}
use anomstream.Core.Tree.NodeStore.{NodeStore}

pub record Layout {F : Type 0} (s : NodeStore F) : Type 0 where
  pub positive : 0 < s.capacity
  pub small : s.capacity ≤ index_mask
  pub internals_len : length s.internals ≡ s.capacity
  pub leaves_len : length s.leaves ≡ s.capacity
  pub internal_list : IsFreeList s.internals s.internal_free
  pub leaf_list : IsFreeList s.leaves s.leaf_free
