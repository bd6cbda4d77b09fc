-- ===== src/Core/Slab/Tally.antt =====
-- How many slots are empty: as many as the free stack is long.
use anomstream.Prelude.{
  ◌++◌, ℕ, ◌+◌, ◌≤◌, ◌<◌, ◌≡◌, refl, ◌∙◌, sym, List, [], ◌∷◌, Option, none, some, arith, length,
  same, total, total-add, total-zero, total-cong, total-same, total-eq_of_le, dec_lt,
}
use anomstream.Core.Slab.{vacant, empties, lives, count, IsFreeList}
use anomstream.Core.Slab.Vacant.{slot_of_vacant}

-- Every number of the list is below `n`.
abbrev pub AllBelow : ℕ → List ℕ → Type 0
AllBelow n [] = Unit {0}
AllBelow n (j ∷ js) = (j < n) × AllBelow n js

pub AllBelow-of_count :
    (n : ℕ) (free : List ℕ) → ((i : ℕ) → 1 ≤ count i free → i < n) → AllBelow n free
unfolding count
AllBelow-of_count n [] h = tt
AllBelow-of_count n (j ∷ js) h =
    (h j (ground arith), AllBelow-of_count n js (λ i p. h i (omega arith)))

pub total-count :
    (n : ℕ) (free : List ℕ) → AllBelow n free → total n (λ i. count i free) ≡ length free
unfolding count
total-count n [] h = total-zero n
total-count n (j ∷ js) h =
    omega (arith, total-add n (same j) (λ i. count i js), total-same n j h.0, total-count n js h.1)

module _ {ℓ} {A : Type ℓ} where
  pub total-vacant : (xs : List (Option A)) → total (length xs) (vacant xs) ≡ empties xs
  unfolding total vacant empties
  total-vacant [] = refl
  total-vacant (none ∷ xs) = omega (arith, total-vacant xs)
  total-vacant (some a ∷ xs) = omega (arith, total-vacant xs)

  pub empties-add-lives : (xs : List (Option A)) → empties xs + lives xs ≡ length xs
  unfolding empties lives
  empties-add-lives [] = refl
  empties-add-lives (none ∷ xs) = omega (arith, empties-add-lives xs)
  empties-add-lives (some a ∷ xs) = omega (arith, empties-add-lives xs)

  pub IsFreeList-AllBelow :
      (xs : List (Option A)) (free : List ℕ) → IsFreeList xs free → AllBelow (length xs) free
  IsFreeList-AllBelow xs free h =
      AllBelow-of_count (length xs) free (λ i p. (slot_of_vacant xs i (omega (arith, h i))).0)

  -- The stack of a well-formed store is as long as the store has empty slots.
  pub length_of_IsFreeList :
      (xs : List (Option A)) (free : List ℕ) → IsFreeList xs free → length free ≡ empties xs
  length_of_IsFreeList xs free h =
      sym (total-count (length xs) free (IsFreeList-AllBelow xs free h))
      ∙ total-cong (length xs) (λ i. count i free) (vacant xs) (λ i _. h i)
      ∙ total-vacant xs

  -- A list that names empty slots only, each at most once, and as many as there are, names all.
  pub IsFreeList-of_le :
      (xs : List (Option A)) (free : List ℕ)
      → ((i : ℕ) → count i free ≤ vacant xs i)
      → length free ≡ empties xs
      → IsFreeList xs free
  IsFreeList-of_le xs free le e i = elim (dec_lt i (length xs)) [
    | yes p ↦
        total-eq_of_le (length xs) (λ j. count j free) (vacant xs) (λ j _. le j)
          (total-count (length xs) free below ∙ e ∙ sym (total-vacant xs)) i p
    | no p ↦ omega (arith, le i, outside p)
  ]
    where
      below : AllBelow (length xs) free
      below =
          AllBelow-of_count (length xs) free (λ j p. (slot_of_vacant xs j (omega (arith, le j))).0)

      outside : ¬ (i < length xs) → vacant xs i ≡ 0
      outside p = elim (dec_lt 0 (vacant xs i)) [
        | yes q ↦ absurd (p (slot_of_vacant xs i q).0)
        | no q ↦ omega arith
      ]

  pub lives-append : (xs : List (Option A)) (a : A) → lives (xs ++ (some a ∷ [])) ≡ lives xs + 1
  unfolding lives
  lives-append [] a = refl
  lives-append (none ∷ xs) a = lives-append xs a
  lives-append (some b ∷ xs) a = omega (arith, lives-append xs a)
