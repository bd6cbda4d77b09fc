-- ===== src/Core/Slab/Vacant.antt =====
-- Reads of `slot` and `vacant` after a write or a push.
use anomstream.Prelude.{
  Option-cases, inl, inr, ℕ, zero, suc, ◌≤◌, ◌<◌, ◌≡◌, refl, ◌≢◌, List, [], ◌∷◌, ◌++◌, Option, none,
  some, ap, arith, length, set, get_elem?, ◌==◌, if◌then◌else◌,
}
use anomstream.Core.Slab.{slot, vacant}

module _ {ℓ} {A : Type ℓ} where
  pub vacant-le : (xs : List (Option A)) (i : ℕ) → vacant xs i ≤ 1
  unfolding vacant
  vacant-le [] i = omega arith
  vacant-le (none ∷ xs) zero = omega arith
  vacant-le (some a ∷ xs) zero = omega arith
  vacant-le (none ∷ xs) (suc i) = vacant-le xs i
  vacant-le (some a ∷ xs) (suc i) = vacant-le xs i

  pub slot_of_vacant :
      (xs : List (Option A)) (i : ℕ) → 1 ≤ vacant xs i → (i < length xs) × (slot xs i ≡ none)
  unfolding vacant
  slot_of_vacant [] i h = absurd (omega arith)
  slot_of_vacant (none ∷ xs) zero h = (omega arith, refl)
  slot_of_vacant (some a ∷ xs) zero h = absurd (omega arith)
  slot_of_vacant (none ∷ xs) (suc i) h = let (l, e) = slot_of_vacant xs i h in (omega arith, e)
  slot_of_vacant (some a ∷ xs) (suc i) h = let (l, e) = slot_of_vacant xs i h in (omega arith, e)

  pub vacant_of_none :
      (xs : List (Option A)) (i : ℕ) → i < length xs → slot xs i ≡ none → vacant xs i ≡ 1
  unfolding vacant
  vacant_of_none [] i h e = absurd (omega arith)
  vacant_of_none (none ∷ xs) zero h e = refl
  vacant_of_none (some a ∷ xs) zero h e = cc
  vacant_of_none (none ∷ xs) (suc i) h e = vacant_of_none xs i (omega arith) e
  vacant_of_none (some a ∷ xs) (suc i) h e = vacant_of_none xs i (omega arith) e

  pub vacant_of_some : (xs : List (Option A)) (i : ℕ) (a : A) → slot xs i ≡ some a → vacant xs i ≡ 0
  unfolding vacant
  vacant_of_some [] i a e = refl
  vacant_of_some (none ∷ xs) zero a e = cc
  vacant_of_some (some b ∷ xs) zero a e = refl
  vacant_of_some (none ∷ xs) (suc i) a e = vacant_of_some xs i a e
  vacant_of_some (some b ∷ xs) (suc i) a e = vacant_of_some xs i a e

  pub lt_of_slot : (xs : List (Option A)) (i : ℕ) (a : A) → slot xs i ≡ some a → i < length xs
  lt_of_slot [] i a e = cc
  lt_of_slot (x ∷ xs) zero a e = omega arith
  lt_of_slot (x ∷ xs) (suc i) a e = omega (arith, lt_of_slot xs i a e)

  pub vacant-set-some :
      (xs : List (Option A)) (i j : ℕ) (a : A)
      → vacant (set xs i (some a)) j ≡ (if i == j then 0 else vacant xs j)
  unfolding vacant
  vacant-set-some [] i j a = ground arith
  vacant-set-some (none ∷ xs) zero zero a = refl
  vacant-set-some (some b ∷ xs) zero zero a = refl
  vacant-set-some (none ∷ xs) zero (suc j) a = ground arith
  vacant-set-some (some b ∷ xs) zero (suc j) a = ground arith
  vacant-set-some (none ∷ xs) (suc i) zero a = ground arith
  vacant-set-some (some b ∷ xs) (suc i) zero a = ground arith
  vacant-set-some (none ∷ xs) (suc i) (suc j) a = ground (arith, vacant-set-some xs i j a)
  vacant-set-some (some b ∷ xs) (suc i) (suc j) a = ground (arith, vacant-set-some xs i j a)

  pub vacant-set-none :
      (xs : List (Option A)) (i j : ℕ)
      → i < length xs
      → vacant (set xs i none) j ≡ (if i == j then 1 else vacant xs j)
  unfolding vacant
  vacant-set-none [] i j h = absurd (omega arith)
  vacant-set-none (none ∷ xs) zero zero h = refl
  vacant-set-none (some b ∷ xs) zero zero h = refl
  vacant-set-none (none ∷ xs) zero (suc j) h = ground arith
  vacant-set-none (some b ∷ xs) zero (suc j) h = ground arith
  vacant-set-none (none ∷ xs) (suc i) zero h = ground arith
  vacant-set-none (some b ∷ xs) (suc i) zero h = ground arith
  vacant-set-none (none ∷ xs) (suc i) (suc j) h =
      ground (arith, vacant-set-none xs i j (omega arith))
  vacant-set-none (some b ∷ xs) (suc i) (suc j) h =
      ground (arith, vacant-set-none xs i j (omega arith))

  pub vacant-append :
      (xs : List (Option A)) (a : A) (j : ℕ) → vacant (xs ++ (some a ∷ [])) j ≡ vacant xs j
  unfolding vacant
  vacant-append [] a zero = refl
  vacant-append [] a (suc j) = refl
  vacant-append (none ∷ xs) a zero = refl
  vacant-append (some b ∷ xs) a zero = refl
  vacant-append (none ∷ xs) a (suc j) = vacant-append xs a j
  vacant-append (some b ∷ xs) a (suc j) = vacant-append xs a j

module _ {ℓ} {A : Type ℓ} where
  pub slot-set_self :
      (xs : List (Option A)) (i : ℕ) (v : Option A) → i < length xs → slot (set xs i v) i ≡ v
  slot-set_self [] i v h = absurd (omega arith)
  slot-set_self (x ∷ xs) zero v h = refl
  slot-set_self (x ∷ xs) (suc i) v h = slot-set_self xs i v (omega arith)

  pub slot-set_ne :
      (xs : List (Option A)) (i j : ℕ) (v : Option A) → i ≢ j → slot (set xs i v) j ≡ slot xs j
  slot-set_ne [] i j v h = refl
  slot-set_ne (x ∷ xs) zero zero v h = absurd (h refl)
  slot-set_ne (x ∷ xs) zero (suc j) v h = refl
  slot-set_ne (x ∷ xs) (suc i) zero v h = refl
  slot-set_ne (x ∷ xs) (suc i) (suc j) v h = slot-set_ne xs i j v (λ e. h (ap suc e))

  -- Both at once, with no side condition but that the write is in range.
  pub slot-set :
      (xs : List (Option A)) (i j : ℕ) (v : Option A)
      → i < length xs
      → slot (set xs i v) j ≡ (if i == j then v else slot xs j)
  slot-set [] i j v h = absurd (omega arith)
  slot-set (x ∷ xs) zero zero v h = refl
  slot-set (x ∷ xs) zero (suc j) v h = ground arith
  slot-set (x ∷ xs) (suc i) zero v h = ground arith
  slot-set (x ∷ xs) (suc i) (suc j) v h = ground (arith, slot-set xs i j v (omega arith))

  pub slot-append :
      (xs : List (Option A)) (v : Option A) (j : ℕ)
      → slot (xs ++ (v ∷ [])) j ≡ (if length xs == j then v else slot xs j)
  slot-append [] v zero = refl
  slot-append [] v (suc j) = ground arith
  slot-append (x ∷ xs) v zero = ground arith
  slot-append (x ∷ xs) v (suc j) = ground (arith, slot-append xs v j)

module _ {ℓ} {A : Type ℓ} where
  -- What an indexed read says of the slot.
  pub vacant_of_get : (xs : List (Option A)) (i : ℕ) → get_elem? xs i ≡ some none → vacant xs i ≡ 1
  unfolding vacant
  vacant_of_get [] i e = cc
  vacant_of_get (none ∷ xs) zero e = refl
  vacant_of_get (some a ∷ xs) zero e = cc
  vacant_of_get (none ∷ xs) (suc i) e = vacant_of_get xs i e
  vacant_of_get (some a ∷ xs) (suc i) e = vacant_of_get xs i e

  pub get_of_vacant : (xs : List (Option A)) (i : ℕ) → 1 ≤ vacant xs i → get_elem? xs i ≡ some none
  unfolding vacant
  get_of_vacant [] i e = absurd (omega arith)
  get_of_vacant (none ∷ xs) zero e = refl
  get_of_vacant (some a ∷ xs) zero e = absurd (omega arith)
  get_of_vacant (none ∷ xs) (suc i) e = get_of_vacant xs i e
  get_of_vacant (some a ∷ xs) (suc i) e = get_of_vacant xs i e

pub slot_outside {ℓ} :
    {A : Type ℓ} (xs : List (Option A)) (i : ℕ) → length xs ≤ i → slot xs i ≡ none
slot_outside xs i h = elim (Option-cases (slot xs i)) [
  | inl e ↦ e
  | inr (a, e) ↦ absurd (omega (arith, lt_of_slot xs i a e))
]
