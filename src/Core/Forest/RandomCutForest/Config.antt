-- ===== src/Core/Forest/RandomCutForest/Config.antt =====
-- How core/src/forest/random_cut_forest.rs builds a forest from the settings of core/src/config.rs.
use anomstream.Prelude.{
  ℕ, zero, suc, ◌+◌, ◌^◌, List, [], ◌∷◌, Option, none, some, length, ltb, ◌==◌, if◌then◌else◌,
}
use anomstream.Core.Error.{RcfResult, ok, err, invalid_config, dimension_mismatch}
use anomstream.Core.Sampler.{SamplerArith, BinaryHeap, with_initial_accept_fraction}
use anomstream.Core.Tree.RandomCutTree
use anomstream.Core.Tree.RandomCutTree.{RandomCutTree}
use anomstream.Core.Forest.PointStore.{
  PointStore, point, incr_ref, decr_ref, set_free, drop_unreferenced, ref_count, capacity,
}
use anomstream.Core.Forest.PointStore
use anomstream.Core.Forest.RandomCutForest.{Run, ◌>>=◌, ◌>>◌, return, TreeSlot, RandomCutForest}

-- The settings of `RcfConfig` that the forest reads, the seed left out.
pub record RcfConfig (F : Type 0) : Type 0 where
  pub num_trees : ℕ
  pub sample_size : ℕ
  pub time_decay : F
  pub initial_accept_fraction : F
  pub feature_scales : Option (List F)

unfoldable pub validate_feature_scales_dimension :
    {F : Type 0} → Option (List F) → ℕ → RcfResult (Unit {0})
validate_feature_scales_dimension none d = ok tt
validate_feature_scales_dimension (some scales) d =
    if length scales == d then ok tt else err (dimension_mismatch d (length scales))

module _ {F R : Type 0} (a : SamplerArith F) (dim : ℕ) (b : BinaryHeap F) (seeded : ℕ → R) where
  -- `u32::try_from` of the sample size, then `RandomCutTree::new`
  abbrev pub new_tree : RcfConfig F → RcfResult (RandomCutTree F)
  new_tree config =
      if ltb config.sample_size (2 ^ 32)
      then RandomCutTree.new dim config.sample_size
      else err invalid_config

  -- The trees from the `i`-th on; `seeded` gives the generator of each.
  unfoldable pub build_trees : RcfConfig F → ℕ → ℕ → Run (List (TreeSlot F R b))
  build_trees config i zero = return []
  build_trees config i (suc n) = do
    tree ← some (new_tree config)
    sampler ← some (
        with_initial_accept_fraction a b config.sample_size config.time_decay
          config.initial_accept_fraction)
    rest ← build_trees config (i + 1) n
    return (record { tree = tree; sampler = sampler; rng = seeded i } ∷ rest)

  unfoldable pub from_config : RcfConfig F → Run (RandomCutForest F R b)
  unfolding build_trees
  from_config config = do
    some (validate_feature_scales_dimension config.feature_scales dim)
    trees ← build_trees config 0 config.num_trees
    point_store ← some (PointStore.new dim)
    return (record {
      feature_scales = config.feature_scales;
      trees = trees;
      point_store = point_store;
      updates_seen = 0;
      timestamps = [];
    })
