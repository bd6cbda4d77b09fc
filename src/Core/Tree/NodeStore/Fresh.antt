-- ===== src/Core/Tree/NodeStore/Fresh.antt =====
-- The empty arena: `NodeStore::new`.
use anomstream.Prelude.{
  ℕ, ◌≤◌, ◌<◌, ◌≡◌, ◌⊎◌, inl, inr, refl, none, arith, length-replicate, replicate, dec_lt,
}
use anomstream.Core.Error.{ok, err, invalid_config}
use anomstream.Core.Slab.FreeList.{ascending, length-ascending, fresh-IsFreeList}
use anomstream.Core.Tree.Node.{InternalData, LeafData, index_mask}
use anomstream.Core.Tree.NodeStore.{NodeStore, new, live_count}
use anomstream.Core.Tree.NodeStore.Layout.{Layout}

module _ {F : Type 0} where
  fresh_store : ℕ → NodeStore F
  fresh_store c = record {
    internals = replicate c none;
    leaves = replicate c none;
    internal_free = ascending 0 c;
    leaf_free = ascending 0 c;
    capacity = c;
  }

  fresh_store-Layout : (c : ℕ) → 0 < c → c ≤ index_mask → Layout (fresh_store c)
  unfolding fresh_store
  fresh_store-Layout c h k = record {
    positive = h;
    small = k;
    internals_len = length-replicate c none;
    leaves_len = length-replicate c none;
    internal_list = fresh-IsFreeList (InternalData F) c;
    leaf_list = fresh-IsFreeList LeafData c;
  }

  -- `new` fails only on a capacity of 0 or above `MAX_INDEX`, and otherwise gives an arena of
  -- that capacity with the layout and no live node.
  pub new_lem :
      (c : ℕ)
      → ((new {F = F} c ≡ err invalid_config) × ((c ≡ 0) ⊎ (index_mask < c)))
        ⊎ ((s : NodeStore F) × (new c ≡ ok s) × Layout s × (live_count s ≡ 0) × (s.capacity ≡ c))
  unfolding new fresh_store live_count
  new_lem c = elim (dec_lt 0 c) [
    | no p ↦ inl (ground arith, inl (omega arith))
    | yes p ↦ elim (dec_lt index_mask c) [
      | yes q ↦ inl (ground arith, inr q)
      | no q ↦ inr (
        fresh_store c,
        ground arith,
        fresh_store-Layout c p (omega arith),
        omega (arith, length-ascending 0 c),
        refl,
      )
    ]
  ]
