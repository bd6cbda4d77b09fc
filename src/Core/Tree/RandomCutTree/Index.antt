-- ===== src/Core/Tree/RandomCutTree/Index.antt =====
-- The reverse index of the tree: `leaf_index_set` and `leaf_index_clear`.
use anomstream.Prelude.{
  ℕ, zero, suc, ◌+◌, ◌-◌, ◌≤◌, ◌<◌, ◌≡◌, ◌≢◌, ◌∙◌, refl, ap, true, List, [], ◌∷◌, ◌++◌, Option,
  none, some, length, set, replicate, leb, if◌then◌else◌, arith, inl, inr, length-replicate,
  Bool-cases,
}
use anomstream.Core.Slab.{slot, lives}
use anomstream.Core.Slab.Vacant.{slot-set_self, slot-set_ne}
use anomstream.Core.Tree.Node.{NodeRef}
use anomstream.Core.Tree.RandomCutTree.Holds.{same_ref_self}
use anomstream.Core.Tree.RandomCutTree.{
  same_ref, RandomCutTree, grown, leaf_index_set, leaf_index_get,
}

pub some_inj : {A : Type 0} {a b : A} → Path (Option A) (some a) (some b) → a ≡ b
some_inj e = cc

module _ {ℓ} {A : Type ℓ} where
  slot-append_none : (xs : List (Option A)) (k j : ℕ) → slot (xs ++ replicate k none) j ≡ slot xs j
  slot-append_none [] zero j = refl
  slot-append_none [] (suc k) zero = refl
  slot-append_none [] (suc k) (suc j) = slot-append_none [] k j
  slot-append_none (x ∷ xs) k zero = refl
  slot-append_none (x ∷ xs) k (suc j) = slot-append_none xs k j

  lives-append_none : (xs : List (Option A)) (k : ℕ) → lives (xs ++ replicate k none) ≡ lives xs
  unfolding lives
  lives-append_none [] zero = refl
  lives-append_none [] (suc k) = lives-append_none [] k
  lives-append_none (none ∷ xs) k = lives-append_none xs k
  lives-append_none (some a ∷ xs) k = ap suc (lives-append_none xs k)

  length-append_none :
      (xs : List (Option A)) (k : ℕ) → length (xs ++ replicate k none) ≡ length xs + k
  length-append_none [] k = omega (arith, length-replicate {A = Option A} k none)
  length-append_none (x ∷ xs) k = omega (arith, length-append_none xs k)

  lives-set-some :
      (xs : List (Option A)) (i : ℕ) (a : A)
      → i < length xs
      → slot xs i ≡ none
      → lives (set xs i (some a)) ≡ suc (lives xs)
  unfolding lives
  lives-set-some [] i a h e = absurd (omega arith)
  lives-set-some (none ∷ xs) zero a h e = refl
  lives-set-some (some b ∷ xs) zero a h e = cc
  lives-set-some (none ∷ xs) (suc i) a h e = lives-set-some xs i a (omega arith) e
  lives-set-some (some b ∷ xs) (suc i) a h e = ap suc (lives-set-some xs i a (omega arith) e)

-- How many entries name a node.
unfoldable pub mapped : List (Option NodeRef) → NodeRef → ℕ
mapped [] k = 0
mapped (none ∷ xs) k = mapped xs k
mapped (some n ∷ xs) k = (if same_ref n k then 1 else 0) + mapped xs k

mapped-append_none :
    (xs : List (Option NodeRef)) (m : ℕ) (k : NodeRef)
    → mapped (xs ++ replicate m none) k ≡ mapped xs k
unfolding mapped
mapped-append_none [] zero k = refl
mapped-append_none [] (suc m) k = mapped-append_none [] m k
mapped-append_none (none ∷ xs) m k = mapped-append_none xs m k
mapped-append_none (some n ∷ xs) m k = omega (arith, mapped-append_none xs m k)

mapped-set-some :
    (xs : List (Option NodeRef)) (i : ℕ) (n k : NodeRef)
    → i < length xs
    → slot xs i ≡ none
    → mapped (set xs i (some n)) k ≡ mapped xs k + (if same_ref n k then 1 else 0)
unfolding mapped
mapped-set-some [] i n k h e = absurd (omega arith)
mapped-set-some (none ∷ xs) zero n k h e = omega arith
mapped-set-some (some m ∷ xs) zero n k h e = absurd (cc e)
mapped-set-some (none ∷ xs) (suc i) n k h e = mapped-set-some xs i n k (omega arith) e
mapped-set-some (some m ∷ xs) (suc i) n k h e =
    omega (arith, mapped-set-some xs i n k (omega arith) e)

-- An entry cleared.
pub mapped-set-none :
    (xs : List (Option NodeRef)) (i : ℕ) (n : NodeRef)
    → slot xs i ≡ some n
    → ((k : NodeRef) → mapped (set xs i none) k + (if same_ref n k then 1 else 0) ≡ mapped xs k)
      × (lives (set xs i none) + 1 ≡ lives xs)
unfolding mapped lives
mapped-set-none [] i n e = absurd (cc e)
mapped-set-none (none ∷ xs) zero n e = absurd (cc e)
mapped-set-none (some m ∷ xs) zero n e =
    (λ k. ground (arith, ap (λ x. same_ref x k) (some_inj e)), omega arith)
mapped-set-none (none ∷ xs) (suc i) n e = mapped-set-none xs i n e
mapped-set-none (some m ∷ xs) (suc i) n e =
    let (f, g) = mapped-set-none xs i n e in (λ k. omega (arith, f k), omega (arith, g))

-- A node with an entry.
pub mapped-le :
    (xs : List (Option NodeRef)) (i : ℕ) (n : NodeRef) → slot xs i ≡ some n → 1 ≤ mapped xs n
unfolding mapped
mapped-le xs i n e = ground (arith, (mapped-set-none xs i n e).0 n, same_ref_self n)

grown_lem :
    (xs : List (Option NodeRef)) (i : ℕ)
    → (i < length (grown xs i))
      × ((j : ℕ) → slot (grown xs i) j ≡ slot xs j)
      × (lives (grown xs i) ≡ lives xs)
      × ((k : NodeRef) → mapped (grown xs i) k ≡ mapped xs k)
grown_lem xs i = elim (Bool-cases (leb (length xs) i)) [
  | inl e ↦
      let k = i + 1 - length xs in
      rw e (
        omega (arith, length-append_none xs k, e_le e),
        slot-append_none xs k,
        lives-append_none xs k,
        mapped-append_none xs k,
      )
  | inr e ↦ rw e (ground (arith, e), λ j. refl, refl, λ k. refl)
]
  where
    e_le : leb (length xs) i ≡ true → length xs ≤ i
    e_le e = ground arith

module _ {F : Type 0} where
  -- A new entry is there, the others stay, and one more is counted, as there is.
  pub leaf_index_set_lem :
      (t : RandomCutTree F) (i : ℕ) (n : NodeRef)
      → leaf_index_get t i ≡ none
      → let t' = leaf_index_set i n t in
        (leaf_index_get t' i ≡ some n)
        × ((j : ℕ) → i ≢ j → leaf_index_get t' j ≡ leaf_index_get t j)
        × (t'.distinct_count ≡ t.distinct_count + 1)
        × (lives t'.leaf_index ≡ lives t.leaf_index + 1)
        × ((k : NodeRef)
            → mapped t'.leaf_index k ≡ mapped t.leaf_index k + (if same_ref n k then 1 else 0))
  unfolding leaf_index_get leaf_index_set
  leaf_index_set_lem t i n e =
      let (below, same, count, names) = grown_lem t.leaf_index i in
      (
        slot-set_self (grown t.leaf_index i) i (some n) below,
        λ j ne. slot-set_ne (grown t.leaf_index i) i j (some n) ne ∙ same j,
        rw (same i, e) refl,
        lives-set-some (grown t.leaf_index i) i n below (same i ∙ e) ∙ omega (arith, count),
        λ k.
            mapped-set-some (grown t.leaf_index i) i n k below (same i ∙ e)
            ∙ omega (arith, names k),
      )
