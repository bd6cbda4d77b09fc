-- ===== src/Core/Tree/NodeStore/Tests.antt =====
-- The arena of nodes on a small tree: a root over two leaves.
use anomstream.Prelude.{
  ℕ, ◌+◌, ◌<◌, ◌^◌, ◌≡◌, ◌⊎◌, ◌↔◌, refl, true, false, [], ◌∷◌, none, some, arith,
}
use anomstream.Core.Error.{ok, err, out_of_bounds, invalid_config, ◌>>=◌}
use anomstream.Core.Domain.{Cut, BoundingBox}
use anomstream.Core.Slab.{empties}
use anomstream.Core.Slab.Check.{check_free_list, check_listed}
use anomstream.Core.Tree.Node
use anomstream.Core.Tree.Node.{
  NodeRef, InternalData, LeafData, NodeView, internal_view, leaf_view, is_leaf, index, index_mask,
}
use anomstream.Core.Tree.NodeStore
use anomstream.Core.Tree.NodeStore.{
  NodeStore, sibling_under, view, new, add_leaf, add_internal, delete, parent, sibling, with_parent,
  with_mass, set_parent, set_mass, set_internal_bbox, set_internal_children, set_internal_cut,
  live_count, live_leaf_count, live_internal_count,
}
use anomstream.Core.Tree.NodeStore.Validate.{validate_layout, validate_layout-exact}
use anomstream.Core.Tree.NodeStore.Layout.{Layout}
use anomstream.Core.Tree.NodeStore.Added.{Added}
use anomstream.Core.Tree.NodeStore.AddLeaf.{add_leaf_lem}
use anomstream.Core.Tree.NodeStore.AddInternal.{add_internal_lem}
use anomstream.Core.Tree.NodeStore.Release.{Released, delete-Released, add_leaf-delete}

abbrev cut : Cut ℕ
cut = record { dim = 0; value = 5 }

abbrev bbox : BoundingBox ℕ
bbox = record { min = 1 ∷ []; max = 9 ∷ [] }

abbrev root : NodeRef
root = Node.internal 0

abbrev near : NodeRef
near = Node.leaf 0

abbrev far : NodeRef
far = Node.leaf 1

abbrev root_data : InternalData ℕ
root_data = record { cut = cut; bbox = bbox; left = near; right = far; parent = none; mass = 2 }

abbrev near_data : LeafData
near_data = record { point_idx = 4; parent = some root; mass = 1 }

abbrev store : NodeStore ℕ
store = record {
  internals = some root_data ∷ none ∷ none ∷ [];
  leaves =
      some near_data ∷ some (record { point_idx = 6; parent = some root; mass = 1 }) ∷ none ∷ [];
  internal_free = 2 ∷ 1 ∷ [];
  leaf_free = 2 ∷ [];
  capacity = 3;
}

store_passes : validate_layout store ≡ ok tt
unfolding validate_layout check_free_list check_listed empties
store_passes = refl

validate_layout-exact_example : (validate_layout store ≡ ok tt) ↔ Layout store
validate_layout-exact_example = validate_layout-exact store

store-Layout : Layout store
store-Layout = validate_layout-exact_example.0 store_passes

view-near : view store near ≡ ok (leaf_view near_data)
unfolding view
view-near = refl

view-root : view store root ≡ ok (internal_view root_data)
unfolding view
view-root = refl

view_free : view store (Node.leaf 2) ≡ err (out_of_bounds 2 3)
unfolding view
view_free = refl

near_word : near.raw < 2 ^ 32
near_word = omega arith

root_word : root.raw < 2 ^ 32
root_word = omega arith

delete-Released_example : (s' : NodeStore ℕ) × (delete store near ≡ ok s') × Released store s' near
delete-Released_example = delete-Released store near store-Layout near_word view-near

add_leaf-delete_example :
    (s' : NodeStore ℕ) × ((delete store near >>= λ t. add_leaf t 8 none 3) ≡ ok (near, s'))
    × (s'.leaf_free ≡ 2 ∷ [])
add_leaf-delete_example = add_leaf-delete store near 8 none 3 store-Layout near_word refl view-near

add_leaf_lem_example :
    ((add_leaf store 8 none 3 ≡ err invalid_config) × (live_leaf_count store ≡ 3))
    ⊎ ((n : NodeRef) × (s' : NodeStore ℕ) × (add_leaf store 8 none 3 ≡ ok (n, s'))
        × (is_leaf n ≡ true)
        × Added store s' n (leaf_view (record { point_idx = 8; parent = none; mass = 3 }))
        × (live_leaf_count s' ≡ live_leaf_count store + 1))
add_leaf_lem_example = add_leaf_lem store 8 none 3 store-Layout

add_internal_lem_example :
    ((add_internal store cut bbox near far none 2 ≡ err invalid_config)
      × (live_internal_count store ≡ 3))
    ⊎ ((n : NodeRef) × (s' : NodeStore ℕ) × (add_internal store cut bbox near far none 2
          ≡ ok (n, s'))
        × (is_leaf n ≡ false)
        × Added store s' n (internal_view root_data)
        × (live_internal_count s' ≡ live_internal_count store + 1))
add_internal_lem_example = add_internal_lem store cut bbox near far none 2 store-Layout

sibling-near : sibling store near ≡ ok (some far)
unfolding sibling parent sibling_under NodeStore.internal
sibling-near = refl

parent_same : parent store far ≡ parent store near
unfolding parent
parent_same = refl
