-- ===== src/Core/Sampler/Removed.antt =====
-- `remove` of the sampler of core/src/sampler/reservoir.rs.
use anomstream.Prelude.{
  ℕ, ◌+◌, ◌≡◌, refl, subst, ◌∙◌, inl, inr, Bool-cases, List, [], ◌∷◌, ◌++◌, map, length, ltb, ◌==◌,
  if◌then◌else◌, arith, All-perm, count, count-perm, length-perm,
}
use mathlib.Core.List.Permᴰ
use mathlib.Core.List.{Permᴰ}
use anomstream.Core.Sampler.{
  WeightedEntry, SamplerArith, BinaryHeap, ReservoirSampler, iter_indices, others, push_all, remove,
}
use anomstream.Core.Sampler.Heap.{Numbers, IsHeap}
use anomstream.Core.Sampler.Kept.{IsReservoir}

module _ {F : Type 0} where
  abbrev index : WeightedEntry F → ℕ
  index e = e.point_idx

  count-others :
      (i j : ℕ) (es : List (WeightedEntry F))
      → count i (map index (others j es)) ≡ (if i == j then 0 else count i (map index es))
  unfolding count others
  count-others i j [] = ground arith
  count-others i j (e ∷ es) = ground (arith, count-others i j es)

  length-others :
      (j : ℕ) (es : List (WeightedEntry F))
      → length (others j es) + count j (map index es) ≡ length es
  unfolding count others
  length-others j [] = refl
  length-others j (e ∷ es) = ground (arith, length-others j es)

  Numbers-others :
      (IsNumber : F → Type 0) (j : ℕ) (es : List (WeightedEntry F))
      → Numbers IsNumber es
      → Numbers IsNumber (others j es)
  unfolding others
  Numbers-others IsNumber j [] h = tt
  Numbers-others IsNumber j (e ∷ es) h = elim (Bool-cases (e.point_idx == j)) [
    | inl y ↦ rw y (Numbers-others IsNumber j es h.1)
    | inr n ↦ rw n (h.0, Numbers-others IsNumber j es h.1)
  ]

module _ {F R : Type 0} (a : SamplerArith F) {b : BinaryHeap F} (draw : R → F × R)
    (IsNumber : F → Type 0) (heap : IsHeap b a.f64.lt IsNumber) where
  push_all-perm :
      (es : List (WeightedEntry F)) (h : b.Heap)
      → Permᴰ (b.entries (push_all b es h)) (es ++ b.entries h)
  unfolding push_all
  push_all-perm [] h = Permᴰ.refl (b.entries h)
  push_all-perm (e ∷ es) h =
      Permᴰ.trans (push_all-perm es (b.push e h)) (
        Permᴰ.trans (Permᴰ.append_left es (heap.entries_push e h))
          (Permᴰ.middle e es (b.entries h)))

  -- The heap after `remove` holds the other entries.
  rebuilt : (es : List (WeightedEntry F)) → Permᴰ (b.entries (push_all b es b.empty)) es
  rebuilt es =
      Permᴰ.trans
        (subst (λ xs. Permᴰ (b.entries (push_all b es b.empty)) (es ++ xs)) heap.entries_empty
          (push_all-perm es b.empty))
        (Permᴰ.append-nil es)

  module _ (s : ReservoirSampler b) (dropped : List (WeightedEntry F)) (j : ℕ)
      (r : IsReservoir a draw IsNumber s dropped) where
    pub remove-IsReservoir : IsReservoir a draw IsNumber (remove a s j).1 []
    unfolding remove
    remove-IsReservoir = record {
      positive = r.positive;
      decay_ok = r.decay_ok;
      held = omega (
        arith,
        length-perm (rebuilt (others j (b.entries s.heap))),
        length-others j (b.entries s.heap),
        r.held,
      );
      full = λ h. absurd (omega arith);
      kept_numbers =
          All-perm _ (Permᴰ.symm (rebuilt (others j (b.entries s.heap))))
            (Numbers-others IsNumber j (b.entries s.heap) r.kept_numbers);
      dropped_numbers = tt;
      least = tt;
    }

  -- `remove` says whether the index was held, takes out every entry with it and no other, and changes
  -- nothing else.
  pub remove_lem :
      (s : ReservoirSampler b) (j : ℕ)
      → ((remove a s j).0 ≡ ltb 0 (count j (iter_indices a s)))
        × ((i : ℕ)
            → count i (iter_indices a (remove a s j).1)
              ≡ (if i == j then 0 else count i (iter_indices a s)))
        × ((remove a s j).1 ≡ record s { heap = (remove a s j).1.heap })
  unfolding remove
  remove_lem s j = (
    ground (arith, length-others j (b.entries s.heap)),
    λ i.
        count-perm i (Permᴰ.map index (rebuilt (others j (b.entries s.heap))))
        ∙ count-others i j (b.entries s.heap),
    refl,
  )
