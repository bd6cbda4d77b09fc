-- ===== src/Core/Forest/PointStore/Slots.antt =====
-- Slots of the point store taken and given back: `add`, `drop_unreferenced` and `set_free`.
use anomstream.Prelude.{
  ℕ, ◌+◌, ◌<◌, ◌≡◌, ◌⊎◌, inl, inr, refl, Bool, List, [], ◌∷◌, none, some, length, arith, sym, ◌∙◌,
  ap, ◌==◌, if◌then◌else◌, length-set, length-append, get_or-set, get_or-append, get_or_outside,
}
use anomstream.Core.Error.{ok}
use anomstream.Core.Domain.{ensure_finite}
use anomstream.Core.Slab.{slot, IsFreeList}
use anomstream.Core.Slab.Vacant.{slot-set, slot-append, slot_outside}
use anomstream.Core.Slab.FreeList.{pop_vacant, pop-IsFreeList, append-IsFreeList}
use anomstream.Core.Slab.Tally.{lives-append, length_of_IsFreeList, empties-add-lives}
use anomstream.Core.Forest.PointStore.{PointStore, load, place, add, capacity, live_count}
use anomstream.Core.Forest.PointStore.Validity.{IsValid, IsCounted}

module _ {F : Type 0} (is_finite : F → Bool) where
  -- `s'` is `s` with the point `p` in slot `idx`, which was empty, at count 0.
  pub record Added (s s' : PointStore F) (idx : ℕ) (p : List F) : Type 0 where
    pub valid : IsValid is_finite s'
    pub counted : IsCounted s'
    pub fresh : slot s.points idx ≡ none
    pub slots : (j : ℕ) → slot s'.points j ≡ (if idx == j then some p else slot s.points j)
    pub counts : (j : ℕ) → load s' j ≡ load s j
    pub live : live_count s' ≡ live_count s + 1
    -- The store grows only if it has no empty slot.
    pub grows :
        capacity s' ≡ capacity s ⊎ ((live_count s ≡ capacity s) × (capacity s' ≡ capacity s + 1))

  pub live-free :
      (s : PointStore F) → IsValid is_finite s → live_count s + length s.free_list ≡ capacity s
  unfolding live_count capacity
  live-free s v =
      omega
        (arith, length_of_IsFreeList s.points s.free_list v.free_slots, empties-add-lives s.points)

  module _ (s : PointStore F) (v : IsValid is_finite s) (c : IsCounted s) (p : List F)
      (f : ensure_finite is_finite p ≡ ok tt) where
    -- The slots and counts after a store decide the rest of `Added`.
    fill-Added :
        (s' : PointStore F) (idx : ℕ)
        → length s'.ref_counts ≡ length s'.points
        → IsFreeList s'.points s'.free_list
        → ((j : ℕ) → slot s'.points j ≡ (if idx == j then some p else slot s.points j))
        → ((j : ℕ) → load s' j ≡ load s j)
        → IsValid is_finite s' × IsCounted s'
    fill-Added s' idx lens free slots counts = (
      record {
        counts_len = lens;
        free_slots = free;
        finite = λ j q e. ground (arith, slots j, v.finite j q, f);
      },
      record {
        word = λ j. omega (arith, counts j, c.word j);
        idle = λ j e. ground (arith, slots j, counts j, c.idle j);
      },
    )

    grow-Added : s.free_list ≡ [] → Added s (place s [] p).1 (length s.points) p
    unfolding place live_count capacity
    grow-Added e = record {
      valid = kept.0;
      counted = kept.1;
      fresh = slot_outside s.points (length s.points) (omega arith);
      slots = slots;
      counts = counts;
      live = lives-append s.points p;
      grows = inr (omega (arith, live-free s v, ap length e), length-append s.points (some p ∷ []));
    }
      where
        s' : PointStore F
        s' = (place s [] p).1

        slots :
            (j : ℕ) → slot s'.points j ≡ (if length s.points == j then some p else slot s.points j)
        slots j = slot-append s.points (some p) j

        counts : (j : ℕ) → load s' j ≡ load s j
        counts j = ground (arith, get_or-append s.ref_counts 0 0 j, get_or_outside s.ref_counts j 0)

        kept : IsValid is_finite s' × IsCounted s'
        kept =
            fill-Added s' (length s.points)
              (omega (
                arith,
                v.counts_len,
                length-append s.ref_counts (0 ∷ []),
                length-append s.points (some p ∷ []),
              ))
              (append-IsFreeList s.points s.free_list p v.free_slots) slots counts

    reuse-Added :
        (i : ℕ) (free : List ℕ) → s.free_list ≡ i ∷ free → Added s (place s (i ∷ free) p).1 i p
    unfolding place live_count capacity
    reuse-Added i free e = record {
      valid = kept.0;
      counted = kept.1;
      fresh = empty.1;
      slots = slots;
      counts = counts;
      live =
          omega (
            arith,
            live-free s v,
            live-free s' kept.0,
            ap length e,
            length-set s.points i (some p),
          );
      grows = inl (length-set s.points i (some p));
    }
      where
        s' : PointStore F
        s' = (place s (i ∷ free) p).1

        free_slots : IsFreeList s.points (i ∷ free)
        free_slots = rw e at v.free_slots

        empty : (i < length s.points) × (slot s.points i ≡ none)
        empty = pop_vacant s.points i free free_slots

        slots : (j : ℕ) → slot s'.points j ≡ (if i == j then some p else slot s.points j)
        slots j = slot-set s.points i j (some p) empty.0

        counts : (j : ℕ) → load s' j ≡ load s j
        counts j =
            ground (arith, get_or-set s.ref_counts i j 0 0, c.idle i empty.1, empty.0, v.counts_len)

        kept : IsValid is_finite s' × IsCounted s'
        kept =
            fill-Added s' i
              (length-set s.ref_counts i 0 ∙ v.counts_len ∙ sym (length-set s.points i (some p)))
              (pop-IsFreeList s.points i free p free_slots) slots counts

    place-Added :
        (free : List ℕ) → s.free_list ≡ free → Added s (place s free p).1 (place s free p).0 p
    unfolding place
    place-Added [] e = grow-Added e
    place-Added (i ∷ free) e = reuse-Added i free e

  -- In a valid store whose empty slots have count 0, `add` stores a finite point in a slot that
  -- was empty, at count 0, and changes no other slot and no count. The store stays valid, has
  -- one live point more, and grows only if every slot was live.
  pub add-Added :
      (s : PointStore F) (p : List F)
      → IsValid is_finite s
      → IsCounted s
      → ensure_finite is_finite p ≡ ok tt
      → (idx : ℕ) × (s' : PointStore F) × (add is_finite s p ≡ ok (idx, s')) × Added s s' idx p
  unfolding add
  add-Added s p v c f = (
    (place s s.free_list p).0,
    (place s s.free_list p).1,
    rw f,
    place-Added s v c p f s.free_list refl,
  )
