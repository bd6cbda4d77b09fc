-- ===== src/Core/Forest/RandomCutForest/Tests.antt =====
-- A forest of one tree over natural numbers: core/src/forest/random_cut_forest.rs.
use anomstream.Prelude.{ℕ, ◌+◌, ◌≡◌, refl, [], ◌∷◌, none, some, arith}
use anomstream.Core.Error.{ok}
use anomstream.Core.Slab.{slot}
use anomstream.Core.Sampler.{ReservoirSampler, with_initial_accept_fraction}
use anomstream.Core.Sampler.Toy.{toy, toy_draw, list_heap, AnyNumber, list_heap-IsHeap}
use anomstream.Core.Tree.Node
use anomstream.Core.Tree.NodeStore
use anomstream.Core.Slab.FreeList.{ascending}
use anomstream.Core.Tree.RandomCutTree
use anomstream.Core.Tree.RandomCutTree.{RandomCutTree}
use anomstream.Core.Forest.PointStore
use anomstream.Core.Forest.PointStore.{PointStore, capacity}
use anomstream.Core.Forest.RandomCutForest.{TreeSlot, RandomCutForest}
use anomstream.Core.Forest.RandomCutForest.Config.{
  RcfConfig, from_config, build_trees, validate_feature_scales_dimension,
}
use anomstream.Core.Forest.RandomCutForest.Built.{from_config-IsBalanced}
use anomstream.Core.Forest.RandomCutForest.Update.{IsBalanced}

abbrev tree : RandomCutTree ℕ
tree = record {
  root = some (Node.leaf 0);
  store = record {
    internals = none ∷ none ∷ [];
    leaves = some (record { point_idx = 0; parent = none; mass = 1 }) ∷ none ∷ [];
    internal_free = 0 ∷ 1 ∷ [];
    leaf_free = 1 ∷ [];
    capacity = 2;
  };
  leaf_index = some (Node.leaf 0) ∷ [];
  distinct_count = 1;
}

abbrev sampler : ReservoirSampler list_heap
sampler = record {
  heap = record { weight = 3; point_idx = 0 } ∷ [];
  capacity = 1;
  entries_seen = 1;
  time_decay = 0;
  initial_accept_fraction = 7;
}

abbrev forest : RandomCutForest ℕ ℕ list_heap
forest = record {
  feature_scales = none;
  trees = record { tree = tree; sampler = sampler; rng = 0 } ∷ [];
  point_store = record { points = some (7 ∷ []) ∷ []; ref_counts = 1 ∷ []; free_list = [] };
  updates_seen = 1;
  timestamps = (0, 99) ∷ [];
}

abbrev config : RcfConfig ℕ
config = record {
  num_trees = 2;
  sample_size = 3;
  time_decay = 0;
  initial_accept_fraction = 7;
  feature_scales = none;
}

abbrev blank : TreeSlot ℕ ℕ list_heap
blank = record {
  tree = record {
    root = none;
    store = record {
      internals = none ∷ none ∷ none ∷ [];
      leaves = none ∷ none ∷ none ∷ [];
      internal_free = 0 ∷ 1 ∷ 2 ∷ [];
      leaf_free = 0 ∷ 1 ∷ 2 ∷ [];
      capacity = 3;
    };
    leaf_index = [];
    distinct_count = 0;
  };
  sampler = record sampler { heap = []; capacity = 3; entries_seen = 0 };
  rng = 7;
}

abbrev new_forest : RandomCutForest ℕ ℕ list_heap
new_forest = record {
  feature_scales = none;
  trees = blank ∷ record blank { rng = 8 } ∷ [];
  point_store = record { points = []; ref_counts = []; free_list = [] };
  updates_seen = 0;
  timestamps = [];
}

built : from_config toy 1 list_heap (λ i. i + 7) config ≡ some (ok new_forest)
unfolding from_config build_trees validate_feature_scales_dimension PointStore.new RandomCutTree.new
    NodeStore.new with_initial_accept_fraction ascending
built = refl

from_config-IsBalanced_example :
    IsBalanced toy toy_draw AnyNumber new_forest
    × (2 ≡ config.num_trees)
    × ((i : ℕ) → slot new_forest.point_store.points i ≡ none)
from_config-IsBalanced_example =
    from_config-IsBalanced toy toy_draw 1 list_heap AnyNumber list_heap-IsHeap (λ i. i + 7) config
      new_forest (omega arith) built
