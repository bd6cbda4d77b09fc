-- ===== src/Core/Slab/Check/Exact.antt =====
-- `check_free_list` of core/src/tree/node_store.rs against what a free stack names.
use anomstream.Prelude.{
  ℕ, zero, suc, ◌+◌, ◌≤◌, ◌<◌, ◌≡◌, ◌↔◌, ◌∙◌, refl, Bool, true, false, List, [], ◌∷◌, Option, none,
  some, length, get_elem?, get_or, set, replicate, ◌==◌, if◌then◌else◌, arith, Bool-cases,
  length-set, get_or-set_self, get_or-set_ne, length-replicate, inl, inr, ==_refl, ==_iff, dec_lt,
}
use anomstream.Core.Error.{ok, err, deserialization_failed, >>=-eq-ok}
use anomstream.Core.Slab.{vacant, empties, count, IsFreeList}
use anomstream.Core.Slab.Vacant.{vacant_of_get, get_of_vacant, vacant-le, slot_of_vacant}
use anomstream.Core.Slab.Tally.{length_of_IsFreeList, IsFreeList-of_le}
use anomstream.Core.Slab.Check.{check_listed, check_free_list}

abbrev mark : List Bool → ℕ → ℕ
mark listed i = if get_or listed i false then 1 else 0

mark-set :
    (listed : List Bool) (j i : ℕ)
    → j < length listed
    → mark (set listed j true) i ≡ (if j == i then 1 else mark listed i)
mark-set listed j i h = elim (Bool-cases (j == i)) [
  | inl e ↦ rw (← (==_iff j i).0 e, get_or-set_self listed j true false h, ==_refl)
  | inr ne ↦ rw (ne, get_or-set_ne listed j i true false (λ e. ground (arith, e)))
]

mark-replicate : (n i : ℕ) → mark (replicate n false) i ≡ 0
mark-replicate zero i = refl
mark-replicate (suc n) zero = refl
mark-replicate (suc n) (suc i) = mark-replicate n i

module _ {ℓ} {A : Type ℓ} (slots : List (Option A)) where
  -- What the loop has still to see: each index named is an empty slot not yet marked.
  abbrev Unseen : List ℕ → List Bool → Type 0
  Unseen free listed = (i : ℕ) → 1 ≤ count i free → count i free + mark listed i ≤ vacant slots i

  -- One round that passes.
  check_listed-cons :
      (j : ℕ) (free : List ℕ) (listed : List Bool)
      → check_listed slots (j ∷ free) listed ≡ ok tt
      → (get_elem? slots j ≡ some none)
        × (mark listed j ≡ 0)
        × (check_listed slots free (set listed j true) ≡ ok tt)
  unfolding check_listed
  check_listed-cons j free listed h = ground arith

  check_listed_sound :
      (free : List ℕ) (listed : List Bool)
      → length listed ≡ length slots
      → check_listed slots free listed ≡ ok tt
      → Unseen free listed
  unfolding check_listed count
  check_listed_sound [] listed e h i p = absurd (omega arith)
  check_listed_sound (j ∷ free) listed e h i p =
      let (empty, unmarked, rest) = check_listed-cons j free listed h in
      let below : j < length listed =
        omega (arith, (slot_of_vacant slots j (omega (arith, vacant_of_get slots j empty))).0) in
      ground (
        arith,
        vacant_of_get slots j empty,
        unmarked,
        mark-set listed j i below,
        vacant-le slots i,
        check_listed_sound free (set listed j true) (length-set listed j true ∙ e) rest i,
      )

  check_listed_complete :
      (free : List ℕ) (listed : List Bool)
      → length listed ≡ length slots
      → Unseen free listed
      → check_listed slots free listed ≡ ok tt
  unfolding check_listed count
  check_listed_complete [] listed e h = refl
  check_listed_complete (j ∷ free) listed e h = ground (
    arith,
    get_of_vacant slots j first,
    first,
    h j,
    vacant-le slots j,
    check_listed_complete free (set listed j true) (length-set listed j true ∙ e) later,
  )
    where
      first : 1 ≤ vacant slots j
      first = ground (arith, h j)

      below : j < length listed
      below = omega (arith, (slot_of_vacant slots j first).0)

      later : Unseen free (set listed j true)
      later i p = ground (arith, h i, h j, vacant-le slots j, mark-set listed j i below)

  -- The check of a free stack against an array of slots passes exactly if the stack names every
  -- empty slot once and nothing else.
  pub check_free_list-exact :
      (free : List ℕ) → (check_free_list slots free ≡ ok tt) ↔ IsFreeList slots free
  unfolding check_free_list
  check_free_list-exact free = (sound, complete)
    where
      marks : List Bool
      marks = replicate (length slots) false

      le : check_listed slots free marks ≡ ok tt → (i : ℕ) → count i free ≤ vacant slots i
      le passed i = elim (dec_lt 0 (count i free)) [
        | yes p ↦ omega (
          arith,
          check_listed_sound free marks (length-replicate (length slots) false) passed i p,
        )
        | no p ↦ omega arith
      ]

      sound : check_free_list slots free ≡ ok tt → IsFreeList slots free
      sound h =
          let (u, passed, same_length) =
            >>=-eq-ok (check_listed slots free marks)
              (λ _. if empties slots == length free then ok tt else err deserialization_failed) h in
          IsFreeList-of_le slots free (le passed) (ground arith)

      complete : IsFreeList slots free → check_free_list slots free ≡ ok tt
      complete h =
          rw
            (check_listed_complete free marks (length-replicate (length slots) false)
              (λ i p. omega (arith, h i, mark-replicate (length slots) i)))
            (ground (arith, length_of_IsFreeList slots free h))
