-- ===== src/Core/Forest/RandomCutForest/Failures.antt =====
-- Where an operation of the forest of core/src/forest/random_cut_forest.rs stops: the tree of the forest
-- that refused, and the calls that led to it.
use anomstream.Prelude.{ℕ, ◌≡◌, ◌⊎◌, ap, Bool, true, List, [], ◌∷◌, Option, some}
use anomstream.Core.Error.{RcfError, ok, err}
use anomstream.Core.Sampler.{
  SamplerOp, inserted, replaced, rejected, SamplerArith, BinaryHeap, ReservoirSampler, accept,
}
use anomstream.Core.Sampler
use anomstream.Core.Tree.RandomCutTree.{RandomCutTree}
use anomstream.Core.Forest.PointStore.{PointStore, decr_ref}
use anomstream.Core.Forest.PointStore
use anomstream.Core.Forest.RandomCutForest.{
  Run, TreeSlot, RandomCutForest, tree_add, tree_delete, ◌>>=◌,
}
use anomstream.Core.Forest.RandomCutForest.Insertion.{process_tree_update}
use anomstream.Core.Forest.RandomCutForest.Deletion.{process_tree_delete, delete}

-- A run that stops with an error, and why.
abbrev pub Failed : {A : Type 0} → (RcfError → Type 0) → Run A → Type 0
Failed Why run = (e : RcfError) × (run ≡ some (err e)) × Why e

pub Failed->>= :
    {A B : Type 0} {Why : RcfError → Type 0} {run : Run A} (f : A → Run B)
    → Failed Why run
    → Failed Why (run >>= f)
Failed->>= f (e, h, why) = (e, ap (λ r. r >>= f) h, why)

module _ {F R : Type 0} (a : SamplerArith F) (draw : R → F × R) (dim fuel climb_fuel failures : ℕ)
    (b : BinaryHeap F) where
  -- The calls on one tree after the answer of its sampler: of these, one fails.
  abbrev pub ApplyFails : ℕ → List F → PointStore F → TreeSlot F R b → SamplerOp → RcfError → Type 0
  ApplyFails new_idx p store t rejected e = ⊥
  ApplyFails new_idx p store t inserted e =
      tree_add a draw dim fuel climb_fuel failures store new_idx p t ≡ err e
  ApplyFails new_idx p store t (replaced evicted) e =
      (tree_delete a draw dim fuel climb_fuel failures store evicted t ≡ err e)
      ⊎ ((tree : RandomCutTree F) × (last : Bool) × (store' : PointStore F) × (tree_delete a draw
              dim fuel climb_fuel failures store evicted t
            ≡ ok tree)
          × (decr_ref failures store evicted ≡ ok (last, store'))
          × (tree_add a draw dim fuel climb_fuel failures store' new_idx p
                (record t { tree = tree })
              ≡ err e))

  -- The sampler of the tree answers, and the tree refuses what the answer asks for.
  abbrev pub UpdateFails : ℕ → List F → PointStore F → TreeSlot F R b → RcfError → Type 0
  UpdateFails new_idx p store t e =
      (op : SamplerOp) × (s' : ReservoirSampler b) × (rng' : R) × (accept a draw t.sampler new_idx
          t.rng
        ≡ some (op, s', rng'))
      × ApplyFails new_idx p store (record t { sampler = s'; rng = rng' }) op e

  -- The walk reaches a tree that refuses.
  abbrev pub WalkFails : ℕ → List F → PointStore F → List (TreeSlot F R b) → RcfError → Type 0
  WalkFails new_idx p store [] e = ⊥
  WalkFails new_idx p store (t ∷ slots) e =
      UpdateFails new_idx p store t e
      ⊎ ((freed : Option ℕ) × (t' : TreeSlot F R b) × (store' : PointStore F) × (process_tree_update
              a draw dim fuel climb_fuel failures store new_idx t
            ≡ some (ok (freed, t', store')))
          × WalkFails new_idx p store' slots e)

  -- The point store takes the point, and a tree of the forest refuses it or the removal of the
  -- point that its sampler gave up for it.
  abbrev pub InsertFails : RandomCutForest F R b → List F → RcfError → Type 0
  InsertFails f p e =
      (new_idx : ℕ) × (store : PointStore F) × (PointStore.add a.f64.is_finite f.point_store p
        ≡ ok (new_idx, store))
      × WalkFails new_idx p store f.trees e

  -- The walk reaches a tree whose sampler held the point, and which refuses its removal.
  abbrev pub RetractFails : ℕ → PointStore F → List (TreeSlot F R b) → RcfError → Type 0
  RetractFails idx store [] e = ⊥
  RetractFails idx store (t ∷ slots) e =
      (((Sampler.remove a t.sampler idx).0 ≡ true)
        × (tree_delete a draw dim fuel climb_fuel failures store idx
              (record t { sampler = (Sampler.remove a t.sampler idx).1 })
            ≡ err e))
      ⊎ ((flags : Bool × Bool) × (t' : TreeSlot F R b) × (store' : PointStore F)
          × (process_tree_delete a draw dim fuel climb_fuel failures store idx t
              ≡ some (ok (flags, t', store')))
          × RetractFails idx store' slots e)

  abbrev pub DeleteFails : ℕ → RandomCutForest F R b → RcfError → Type 0
  DeleteFails idx f e = RetractFails idx f.point_store f.trees e

  -- One of the removals fails, on the forest that those before it left; `next` is what the loop does
  -- to the forest after each.
  abbrev pub PurgeFails :
      (ℕ → RandomCutForest F R b → RandomCutForest F R b)
      → List ℕ
      → RandomCutForest F R b
      → RcfError
      → Type 0
  PurgeFails next [] f e = ⊥
  PurgeFails next (idx ∷ victims) f e =
      DeleteFails idx f e
      ⊎ ((hit : Bool) × (f' : RandomCutForest F R b) × (delete a draw dim fuel climb_fuel failures f
              idx
            ≡ some (ok (hit, f')))
          × PurgeFails next victims (next idx f') e)
