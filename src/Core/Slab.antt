-- ===== src/Core/Slab.antt =====
-- Slot arrays with a stack of free slots, as core/src/tree/node_store.rs keeps two and
-- core/src/forest/point_store.rs one: `Vec<Option<T>>` beside a `Vec` of indices. The children
-- prove what the operations on such a pair keep.
pub mod Vacant
pub mod FreeList
pub mod Tally
pub mod Check
use anomstream.Prelude.{ℕ, zero, suc, ◌+◌, ◌≡◌, List, [], ◌∷◌, Option, none, some}
unfoldable pub use anomstream.Prelude.{count}

module _ {ℓ} {A : Type ℓ} where
  -- The value in a slot; `none` for an empty slot and for one past the end.
  abbrev pub slot : List (Option A) → ℕ → Option A
  slot [] i = none
  slot (x ∷ xs) zero = x
  slot (x ∷ xs) (suc i) = slot xs i

  -- 1 if the slot exists and is empty.
  unfoldable pub vacant : List (Option A) → ℕ → ℕ
  vacant [] i = 0
  vacant (none ∷ xs) zero = 1
  vacant (some a ∷ xs) zero = 0
  vacant (x ∷ xs) (suc i) = vacant xs i

  -- `slots.iter().filter(|s| s.is_none()).count()`
  unfoldable pub empties : List (Option A) → ℕ
  empties [] = 0
  empties (none ∷ xs) = suc (empties xs)
  empties (some a ∷ xs) = empties xs

  -- `slots.iter().filter(|s| s.is_some()).count()`
  unfoldable pub lives : List (Option A) → ℕ
  lives [] = 0
  lives (none ∷ xs) = lives xs
  lives (some a ∷ xs) = suc (lives xs)

-- Every empty slot stands in the list once, and nothing else does.
abbrev pub IsFreeList {ℓ} : {A : Type ℓ} → List (Option A) → List ℕ → Type 0
IsFreeList slots free = (i : ℕ) → count i free ≡ vacant slots i
