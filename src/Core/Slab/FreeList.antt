-- ===== src/Core/Slab/FreeList.antt =====
-- What pushes and pops of the free stack keep: it names every empty slot once.
use anomstream.Prelude.{
  refl, ap, ℕ, zero, suc, ◌<◌, ◌≡◌, List, [], ◌∷◌, ◌++◌, Option, none, some, arith, length, set,
  replicate, ◌+◌, ltb, leb, ◌&&◌, if◌then◌else◌, sym, ◌∙◌,
}
use anomstream.Core.Slab.{slot, vacant, count, IsFreeList}
use anomstream.Core.Slab.Vacant.{
  vacant-le, slot_of_vacant, vacant_of_some, lt_of_slot, vacant-set-some, vacant-set-none,
  vacant-append,
}

-- A stack of the indices from `i` on, `n` of them, the least on top.
unfoldable pub ascending : ℕ → ℕ → List ℕ
ascending i zero = []
ascending i (suc n) = i ∷ ascending (suc i) n

pub length-ascending : (i n : ℕ) → length (ascending i n) ≡ n
unfolding ascending
length-ascending i zero = refl
length-ascending i (suc n) = ap suc (length-ascending (suc i) n)

between : ℕ → ℕ → ℕ → ℕ
between i n j = if leb i j && ltb j (i + n) then 1 else 0

count-ascending : (i n j : ℕ) → count j (ascending i n) ≡ between i n j
unfolding ascending count between
count-ascending i zero j = ground arith
count-ascending i (suc n) j = ground (arith, count-ascending (suc i) n j)

below : ℕ → ℕ → ℕ
below n i = if ltb i n then 1 else 0

between-zero : (n j : ℕ) → between 0 n j ≡ below n j
unfolding between below
between-zero n j = ground arith

vacant-replicate {ℓ} : (A : Type ℓ) (n i : ℕ) → vacant {A = A} (replicate n none) i ≡ below n i
unfolding vacant below
vacant-replicate A zero i = ground arith
vacant-replicate A (suc n) zero = ground arith
vacant-replicate A (suc n) (suc i) = ground (arith, vacant-replicate A n i)

-- A store of empty slots with all their indices on the stack.
pub fresh-IsFreeList {ℓ} :
    (A : Type ℓ) (n : ℕ) → IsFreeList {A = A} (replicate n none) (ascending 0 n)
fresh-IsFreeList A n i = count-ascending 0 n i ∙ between-zero n i ∙ sym (vacant-replicate A n i)

module _ {ℓ} {A : Type ℓ} where
  -- The top of the stack is an empty slot.
  pub pop_vacant :
      (xs : List (Option A)) (i : ℕ) (free : List ℕ)
      → IsFreeList xs (i ∷ free)
      → (i < length xs) × (slot xs i ≡ none)
  unfolding count
  pop_vacant xs i free h = slot_of_vacant xs i (ground (arith, h i))

  pub pop-IsFreeList :
      (xs : List (Option A)) (i : ℕ) (free : List ℕ) (a : A)
      → IsFreeList xs (i ∷ free)
      → IsFreeList (set xs i (some a)) free
  unfolding count
  pop-IsFreeList xs i free a h j =
      ground (arith, h j, h i, vacant-le xs i, vacant-set-some xs i j a)

  pub push-IsFreeList :
      (xs : List (Option A)) (i : ℕ) (free : List ℕ) (a : A)
      → slot xs i ≡ some a
      → IsFreeList xs free
      → IsFreeList (set xs i none) (i ∷ free)
  unfolding count
  push-IsFreeList xs i free a e h j =
      ground
        (arith, h j, h i, vacant_of_some xs i a e, vacant-set-none xs i j (lt_of_slot xs i a e))

  pub write-IsFreeList :
      (xs : List (Option A)) (i : ℕ) (free : List ℕ) (a b : A)
      → slot xs i ≡ some a
      → IsFreeList xs free
      → IsFreeList (set xs i (some b)) free
  write-IsFreeList xs i free a b e h j =
      ground (arith, h j, h i, vacant_of_some xs i a e, vacant-set-some xs i j b)

  pub append-IsFreeList :
      (xs : List (Option A)) (free : List ℕ) (a : A)
      → IsFreeList xs free
      → IsFreeList (xs ++ (some a ∷ [])) free
  append-IsFreeList xs free a h j = ground (arith, h j, vacant-append xs a j)
