-- ===== src/Core/Tree/NodeStore/Added.antt =====
-- What an allocation promises, and what the counts of live nodes count.
use anomstream.Prelude.{◌<◌, ◌^◌, ◌≡◌, ◌≢◌, arith}
use anomstream.Core.Error.{ok, err, out_of_bounds}
use anomstream.Core.Slab.{lives}
use anomstream.Core.Slab.Tally.{length_of_IsFreeList, empties-add-lives}
use anomstream.Core.Tree.Node.{NodeRef, NodeView, index}
use anomstream.Core.Tree.NodeStore.{NodeStore, view, live_leaf_count, live_internal_count}
use anomstream.Core.Tree.NodeStore.Layout.{Layout}

module _ {F : Type 0} where
  -- The reference gives the same view in both stores.
  abbrev pub Frame : NodeStore F → NodeStore F → NodeRef → Type 0
  Frame s s' n = (m : NodeRef) → m.raw < 2 ^ 32 → m ≢ n → view s' m ≡ view s m

  -- `s'` is `s` with the record `v` in a node `n` that was free.
  pub record Added (s s' : NodeStore F) (n : NodeRef) (v : NodeView F) : Type 0 where
    pub layout : Layout s'
    pub word : n.raw < 2 ^ 32
    pub fresh : view s n ≡ err (out_of_bounds (index n) s.capacity)
    pub holds : view s' n ≡ ok v
    pub frame : Frame s s' n

  -- A free stack that is not longer than its arena counts the live slots.
  pub live_leaf_count-eq-lives : {s : NodeStore F} → Layout s → live_leaf_count s ≡ lives s.leaves
  unfolding live_leaf_count
  live_leaf_count-eq-lives {s} l = omega (
    arith,
    length_of_IsFreeList s.leaves s.leaf_free l.leaf_list,
    empties-add-lives s.leaves,
    l.leaves_len,
  )

  pub live_internal_count-eq-lives :
      {s : NodeStore F} → Layout s → live_internal_count s ≡ lives s.internals
  unfolding live_internal_count
  live_internal_count-eq-lives {s} l = omega (
    arith,
    length_of_IsFreeList s.internals s.internal_free l.internal_list,
    empties-add-lives s.internals,
    l.internals_len,
  )
