-- ===== src/Prelude/Perms.antt =====
-- Predicates on all elements of a list, and what a permutation keeps.
use Prim.Native.Nat.{ℕ, ◌+◌}
use mathlib.Core.Path.{◌≡◌, refl, subst}
use mathlib.Core.List.{List, [], ◌∷◌, ◌++◌, Permᴰ}
use native.Mathlib.Omega.{arith}
use anomstream.Prelude.Lists.{length}
use anomstream.Prelude.Sums.{same}

abbrev pub All {ℓ κ} : {A : Type ℓ} → (A → Type κ) → List A → Type κ
All P [] = Unit
All P (x ∷ xs) = P x × All P xs

-- How often an index stands in a list.
unfoldable pub count : ℕ → List ℕ → ℕ
count i [] = 0
count i (j ∷ js) = same j i + count i js

module _ {ℓ κ} {A : Type ℓ} (P : A → Type κ) where
  pub All-perm : {xs ys : List A} → Permᴰ xs ys → All P xs → All P ys
  All-perm Permᴰ.nil h = h
  All-perm (Permᴰ.cons e p) h = (subst P e h.0, All-perm p h.1)
  All-perm {xs = a ∷ b ∷ l} (Permᴰ.swap e d) h = (subst P d h.1.0, (subst P e h.0, h.1.1))
  All-perm (Permᴰ.trans p q) h = All-perm q (All-perm p h)

  pub All-append : (xs ys : List A) → All P xs → All P ys → All P (xs ++ ys)
  All-append [] ys h k = k
  All-append (x ∷ xs) ys h k = (h.0, All-append xs ys h.1 k)

module _ {ℓ} {A : Type ℓ} where
  pub length-perm : {xs ys : List A} → Permᴰ xs ys → length xs ≡ length ys
  length-perm Permᴰ.nil = refl
  length-perm (Permᴰ.cons e p) = omega (arith, length-perm p)
  length-perm (Permᴰ.swap e d) = refl
  length-perm (Permᴰ.trans p q) = omega (arith, length-perm p, length-perm q)

pub count-perm : (i : ℕ) {js ks : List ℕ} → Permᴰ js ks → count i js ≡ count i ks
unfolding count
count-perm i Permᴰ.nil = refl
count-perm i (Permᴰ.cons e p) = ground (arith, e, count-perm i p)
count-perm i (Permᴰ.swap e d) = ground (arith, e, d)
count-perm i (Permᴰ.trans p q) = omega (arith, count-perm i p, count-perm i q)
