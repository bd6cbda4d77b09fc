-- ===== src/Core/Forest/RandomCutForest/Freeing.antt =====
-- The slots that the forest gives back to the point store after a walk over its trees:
-- core/src/forest/random_cut_forest.rs.
use anomstream.Prelude.{
  ℕ, ◌+◌, ◌≤◌, ◌<◌, ◌≡◌, ◌≢◌, inl, inr, refl, ◌∙◌, Bool, false, ltb, ◌==◌, if◌then◌else◌,
  Bool-cases, List, [], ◌∷◌, none, some, count, same, arith, get_or_outside,
}
use anomstream.Core.Error.{ok}
use anomstream.Core.Slab.{slot}
use anomstream.Core.Forest.PointStore.{PointStore, load, set_free, drop_unreferenced, ref_count}
use anomstream.Core.Forest.PointStore.Validity.{IsValid, IsCounted}
use anomstream.Core.Forest.PointStore.Frees.{Vacated, free_cases}
use anomstream.Core.Forest.Timestamps
use anomstream.Core.Forest.Timestamps.{get, get-remove}
use anomstream.Core.Forest.RandomCutForest.{Run}
use anomstream.Core.Forest.RandomCutForest.Insertion.{free_all, drop_unheld}

count_cons : (j : ℕ) (is : List ℕ) (i : ℕ) → count i (j ∷ is) ≡ same j i + count i is
unfolding count
count_cons j is i = refl

pub ref_count-eq-load : {F : Type 0} (s : PointStore F) (i : ℕ) → ref_count s i ≡ load s i
unfolding ref_count
ref_count-eq-load s i = ground (arith, get_or_outside s.ref_counts i 0)

module _ {F : Type 0} (is_finite : F → Bool) where
  -- `gone` says which slots were emptied; nothing else is changed.
  pub record Emptied (store : PointStore F) (stamps : List (ℕ × ℕ)) (gone : ℕ → Bool)
      (run : Run (PointStore F × List (ℕ × ℕ))) : Type 0 where
    pub store' : PointStore F
    pub stamps' : List (ℕ × ℕ)
    pub ran : run ≡ some (ok (store', stamps'))
    pub valid : IsValid is_finite store'
    pub counted : IsCounted store'
    pub slots : (i : ℕ) → slot store'.points i ≡ (if gone i then none else slot store.points i)
    pub counts : (i : ℕ) → load store' i ≡ load store i
    pub stamped : (i : ℕ) → get i stamps' ≡ (if gone i then none else get i stamps)

  -- A live slot without references is freed, by either call.
  pub freed :
      (store : PointStore F) (i : ℕ)
      → IsValid is_finite store
      → IsCounted store
      → slot store.points i ≢ none
      → load store i ≡ 0
      → (store' : PointStore F) × (set_free store i ≡ ok store')
        × (drop_unreferenced store i ≡ ok store')
        × Vacated is_finite store store' i
  freed store i v c live zero' = elim (free_cases is_finite store i v c) [
    | inl empty ↦ absurd (live empty.0)
    | inr (inl used) ↦ absurd (used.0 zero')
    | inr (inr done) ↦ done
  ]

  pub free_all-Emptied :
      (frees : List ℕ) (store : PointStore F) (stamps : List (ℕ × ℕ))
      → IsValid is_finite store
      → IsCounted store
      → ((i : ℕ) → count i frees ≤ 1)
      → ((i : ℕ) → 0 < count i frees → (slot store.points i ≢ none) × (load store i ≡ 0))
      → Emptied store stamps (λ i. ltb 0 (count i frees)) (free_all frees store stamps)
  unfolding free_all count
  free_all-Emptied [] store stamps v c once due = record {
    store' = store;
    stamps' = stamps;
    ran = refl;
    valid = v;
    counted = c;
    slots = λ i. refl;
    counts = λ i. refl;
    stamped = λ i. refl;
  }
  free_all-Emptied (j ∷ frees) store stamps v c once due =
      let now = due j (ground arith) in
      let (store1, set_free_ok, dropped, vacated) = freed store j v c now.0 now.1 in
      let rest =
        free_all-Emptied frees store1 (Timestamps.remove j stamps) vacated.valid vacated.counted
          (λ i. omega (arith, once i))
          (λ i h.
            let later = due i (omega arith) in
            (
              λ e. later.0 (ground (arith, vacated.slots i, once j, h, e)),
              vacated.counts i ∙ later.1,
            )) in
      record {
        store' = rest.store';
        stamps' = rest.stamps';
        ran = rw set_free_ok rest.ran;
        valid = rest.valid;
        counted = rest.counted;
        slots = λ i. ground (arith, rest.slots i, vacated.slots i);
        counts = λ i. rest.counts i ∙ vacated.counts i;
        stamped = λ i. ground (arith, rest.stamped i, get-remove j i stamps);
      }

  pub drop_unheld-Emptied :
      (new_idx : ℕ) (store : PointStore F) (stamps : List (ℕ × ℕ)) {p : List F}
      → IsValid is_finite store
      → IsCounted store
      → slot store.points new_idx ≡ some p
      → Emptied store stamps
          (λ i. if i == new_idx then load store new_idx == 0 else false)
          (drop_unheld new_idx store stamps)
  unfolding drop_unheld
  drop_unheld-Emptied new_idx store stamps {p} v c live =
      elim (Bool-cases (load store new_idx == 0)) [
        | inl zero' ↦
            let (store1, set_free_ok, dropped, vacated) =
              freed store new_idx v c (λ e. ground (arith, e, live)) (ground (arith, zero')) in
            record {
              store' = store1;
              stamps' = Timestamps.remove new_idx stamps;
              ran = rw (ref_count-eq-load store new_idx, zero', dropped) refl;
              valid = vacated.valid;
              counted = vacated.counted;
              slots = λ i. ground (arith, vacated.slots i, zero');
              counts = vacated.counts;
              stamped = λ i. ground (arith, get-remove new_idx i stamps, zero');
            }
        | inr used ↦ record {
          store' = store;
          stamps' = stamps;
          ran = rw (ref_count-eq-load store new_idx, used) refl;
          valid = v;
          counted = c;
          slots = λ i. ground (arith, used);
          counts = λ i. refl;
          stamped = λ i. ground (arith, used);
        }
      ]
