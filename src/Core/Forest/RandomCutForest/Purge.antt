-- ===== src/Core/Forest/RandomCutForest/Purge.antt =====
-- Retractions of many points at once: `delete_before`, and the loop that ends `delete_by_value`, of
-- core/src/forest/random_cut_forest.rs.
use anomstream.Prelude.{
  ℕ, ◌≤◌, ◌≡◌, ◌⊎◌, inl, inr, refl, ap, ◌∙◌, Bool, false, ◌||◌, ltb, ◌==◌, if◌then◌else◌, List, [],
  ◌∷◌, Option, none, some, count, map, arith,
}
use anomstream.Word.{saturating_add64}
use anomstream.Core.Error.{ok}
use anomstream.Core.Slab.{slot}
use anomstream.Core.Sampler.{SamplerArith, BinaryHeap}
use anomstream.Core.Sampler.Heap.{IsHeap}
use anomstream.Core.Forest.Timestamps
use anomstream.Core.Forest.Timestamps.{get}
use anomstream.Core.Forest.RandomCutForest.{Run, RandomCutForest}
use anomstream.Core.Forest.RandomCutForest.Deletion.{delete_matching}
use anomstream.Core.Forest.RandomCutForest.Holders.{holders}
use anomstream.Core.Forest.RandomCutForest.Failures.{Failed, PurgeFails}
use anomstream.Core.Forest.RandomCutForest.Update.{IsBalanced}
use anomstream.Core.Forest.RandomCutForest.Retract.{Deleted, delete-IsBalanced}

-- Each key stands once in a map.
abbrev pub Once : List (ℕ × ℕ) → Type 0
Once stamps = (i : ℕ) → count i (map (λ e. e.0) stamps) ≤ 1

-- Whether a timestamp is older than the cutoff.
abbrev pub is_due : ℕ → Option ℕ → Bool
is_due cutoff none = false
is_due cutoff (some ts) = ltb ts cutoff

abbrev pub occurs_in : ℕ → List ℕ → Bool
occurs_in i [] = false
occurs_in i (j ∷ js) = (i == j) || occurs_in i js

-- What the loop of `delete_before` does to the forest after a removal.
abbrev pub scrubbed :
    {F R : Type 0} {b : BinaryHeap F} → ℕ → RandomCutForest F R b → RandomCutForest F R b
scrubbed idx f = record f { timestamps = Timestamps.remove idx f.timestamps }

module _ {F R : Type 0} (a : SamplerArith F) (draw : R → F × R) (dim fuel climb_fuel failures : ℕ)
    (b : BinaryHeap F) (IsNumber : F → Type 0) (heap : IsHeap b a.f64.lt IsNumber) where
  -- The points that are due are in no tree and no slot, and every other one as before.
  pub record Purged (due : ℕ → Bool) (f : RandomCutForest F R b)
      (run : Run (ℕ × RandomCutForest F R b)) : Type 0 where
    pub number : ℕ
    pub after : RandomCutForest F R b
    pub ran : run ≡ some (ok (number, after))
    pub balanced : IsBalanced a draw IsNumber after
    pub left : (i : ℕ) → holders a after.trees i ≡ (if due i then 0 else holders a f.trees i)
    pub slots :
        (i : ℕ)
        → slot after.point_store.points i ≡ (if due i then none else slot f.point_store.points i)
    pub stamps : (i : ℕ) → get i after.timestamps ≡ (if due i then none else get i f.timestamps)

  -- One removal, and a purge of a forest with what it left.
  one_more :
      {due : ℕ → Bool} {idx : ℕ} {f : RandomCutForest F R b}
      → {first : Run (Bool × RandomCutForest F R b)} {run whole : Run (ℕ × RandomCutForest F R b)}
      → (one : Deleted a draw dim fuel climb_fuel failures b IsNumber heap idx f first)
        (g : RandomCutForest F R b)
      → g.trees ≡ one.after.trees
      → g.point_store ≡ one.after.point_store
      → ((i : ℕ) → get i g.timestamps ≡ get i one.after.timestamps)
      → whole ≡ run
      → Purged due g run
      → Purged (λ i. (i == idx) || due i) f whole
  one_more one g trees store stamps same_run rest = record {
    number = rest.number;
    after = rest.after;
    ran = same_run ∙ rest.ran;
    balanced = rest.balanced;
    left = λ i. ground (arith, rest.left i, one.left i, ap (λ ts. holders a ts i) trees);
    slots = λ i. ground (arith, rest.slots i, one.slots i, ap (λ st. slot st.points i) store);
    stamps = λ i. ground (arith, rest.stamps i, one.stamps i, stamps i);
  }

  nothing :
      (number : ℕ) (f : RandomCutForest F R b)
      → IsBalanced a draw IsNumber f
      → Purged (λ i. false) f (some (ok (number, f)))
  nothing number f inv = record {
    number = number;
    after = f;
    ran = refl;
    balanced = inv;
    left = λ i. refl;
    slots = λ i. refl;
    stamps = λ i. refl;
  }

  pub Purged-eq :
      {due due' : ℕ → Bool} {f : RandomCutForest F R b}
      → {run : Run (ℕ × RandomCutForest F R b)} → ((i : ℕ) → due i ≡ due' i)
      → Purged due f run
      → Purged due' f run
  Purged-eq e all = record {
    number = all.number;
    after = all.after;
    ran = all.ran;
    balanced = all.balanced;
    left = λ i. all.left i ∙ rw (e i) refl;
    slots = λ i. all.slots i ∙ rw (e i) refl;
    stamps = λ i. all.stamps i ∙ rw (e i) refl;
  }

  pub matching_cases :
      (matching : List ℕ) (removed : ℕ) (f : RandomCutForest F R b)
      → IsBalanced a draw IsNumber f
      → Failed
          (PurgeFails a draw dim fuel climb_fuel failures b (λ _ g. g) matching f)
          (delete_matching a draw dim fuel climb_fuel failures matching removed f)
        ⊎ Purged
            (λ i. occurs_in i matching)
            f
            (delete_matching a draw dim fuel climb_fuel failures matching removed f)
  unfolding delete_matching
  matching_cases [] removed f inv = inr (nothing removed f inv)
  matching_cases (idx ∷ matching) removed f inv =
      elim (delete-IsBalanced a draw dim fuel climb_fuel failures b IsNumber heap idx f inv) [
        | inl (e, bad, why) ↦ inl (e, rw bad refl, inl why)
        | inr one ↦
            elim (matching_cases matching
              (if ltb 0 (holders a f.trees idx) then saturating_add64 removed 1 else removed)
              one.after one.balanced) [
                | inl (e, ran, why) ↦ inl (e, rw one.ran ran, inr (_, one.after, one.ran, why))
                | inr rest ↦
                    inr (one_more one one.after refl refl (λ i. refl) (rw one.ran refl) rest)
              ]
      ]
