-- ===== src/Prelude/Sums.antt =====
-- Sums of a function of an index over the first `n` indices.
use Prim.Native.Nat.{ℕ, zero, suc, ◌+◌, ◌≤◌, ◌<◌}
use mathlib.Core.Path.{◌≡◌, refl}
use native.Mathlib.Omega.{arith}
use anomstream.Prelude.Tests.{◌==◌, if◌then◌else◌}

-- 1 where the two numbers are equal
abbrev pub same : ℕ → ℕ → ℕ
same j i = if j == i then 1 else 0

unfoldable pub total : ℕ → (ℕ → ℕ) → ℕ
total zero f = 0
total (suc n) f = f 0 + total n (λ i. f (suc i))

pub total-add : (n : ℕ) (f g : ℕ → ℕ) → total n (λ i. f i + g i) ≡ total n f + total n g
unfolding total
total-add zero f g = refl
total-add (suc n) f g = omega (arith, total-add n (λ i. f (suc i)) (λ i. g (suc i)))

pub total-zero : (n : ℕ) → total n (λ _. 0) ≡ 0
unfolding total
total-zero zero = refl
total-zero (suc n) = omega (arith, total-zero n)

pub total-cong : (n : ℕ) (f g : ℕ → ℕ) → ((i : ℕ) → i < n → f i ≡ g i) → total n f ≡ total n g
unfolding total
total-cong zero f g h = refl
total-cong (suc n) f g h =
    omega
      (arith, h 0, total-cong n (λ i. f (suc i)) (λ i. g (suc i)) (λ i p. h (suc i) (omega arith)))

same-suc : (j i : ℕ) → same (suc j) (suc i) ≡ same j i
same-suc j i = ground arith

pub total-same : (n j : ℕ) → j < n → total n (same j) ≡ 1
unfolding total
total-same zero j h = absurd (omega arith)
total-same (suc n) zero h =
    omega (arith, total-cong n (λ i. same 0 (suc i)) (λ _. 0) (λ i p. ground arith), total-zero n)
total-same (suc n) (suc j) h = grind (
  arith,
  total-cong n (λ i. same (suc j) (suc i)) (same j) (λ i p. same-suc j i),
  total-same n j (omega arith),
)

pub total-le : (n : ℕ) (f g : ℕ → ℕ) → ((i : ℕ) → i < n → f i ≤ g i) → total n f ≤ total n g
unfolding total
total-le zero f g h = omega arith
total-le (suc n) f g h =
    omega
      (arith, h 0, total-le n (λ i. f (suc i)) (λ i. g (suc i)) (λ i p. h (suc i) (omega arith)))

-- Below pointwise, and equal in sum: equal at each index.
pub total-eq_of_le :
    (n : ℕ) (f g : ℕ → ℕ)
    → ((i : ℕ) → i < n → f i ≤ g i)
    → total n f ≡ total n g
    → (i : ℕ) → i < n
    → f i ≡ g i
unfolding total
total-eq_of_le zero f g h e i p = absurd (omega arith)
total-eq_of_le (suc n) f g h e zero p =
    omega
      (arith, h 0, total-le n (λ i. f (suc i)) (λ i. g (suc i)) (λ i q. h (suc i) (omega arith)))
total-eq_of_le (suc n) f g h e (suc i) p =
    total-eq_of_le n (λ i. f (suc i)) (λ i. g (suc i)) (λ i q. h (suc i) (omega arith))
      (omega
        (arith, h 0, total-le n (λ i. f (suc i)) (λ i. g (suc i)) (λ i q. h (suc i) (omega arith))))
      i (omega arith)

-- A sum with one term replaced.
pub total-update_of_le :
    (n : ℕ) (f : ℕ → ℕ) (i v : ℕ) → n ≤ i → total n (λ j. if i == j then v else f j) ≡ total n f
total-update_of_le n f i v h = total-cong n (λ j. if i == j then v else f j) f (λ j p. ground arith)

pub total-update :
    (n : ℕ) (f : ℕ → ℕ) (i v : ℕ)
    → i < n
    → total n (λ j. if i == j then v else f j) + f i ≡ total n f + v
unfolding total
total-update zero f i v h = absurd (omega arith)
total-update (suc n) f zero v h = omega (
  arith,
  total-cong n (λ j. if 0 == suc j then v else f (suc j)) (λ j. f (suc j)) (λ j p. ground arith),
)
total-update (suc n) f (suc i) v h = grind (
  arith,
  total-cong n (λ j. if suc i == suc j then v else f (suc j)) (λ j. if i == j then v else f (suc j))
      (λ j p. ground arith),
  total-update n (λ j. f (suc j)) i v (omega arith),
)

-- At most 1 in each term.
pub total-le_self : (n : ℕ) (f : ℕ → ℕ) → ((i : ℕ) → f i ≤ 1) → total n f ≤ n
unfolding total
total-le_self zero f h = omega arith
total-le_self (suc n) f h = omega (arith, h 0, total-le_self n (λ i. f (suc i)) (λ i. h (suc i)))
