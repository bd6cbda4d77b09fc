-- ===== src/Core/Forest/PointStore/Frees.antt =====
-- Slots of the point store given back: `drop_unreferenced` and `set_free`.
use anomstream.Prelude.{
  ℕ, ◌+◌, ◌<◌, ◌≡◌, ◌≢◌, ◌⊎◌, inl, inr, refl, Bool, List, ◌∷◌, none, some, length, arith, sym, ◌∙◌,
  ◌==◌, if◌then◌else◌, Option-cases, length-set, dec_lt,
}
use anomstream.Core.Error.{ok, err, out_of_bounds, invalid_config}
use anomstream.Core.Domain.{ensure_finite}
use anomstream.Core.Slab.{slot}
use anomstream.Core.Slab.Vacant.{slot-set, lt_of_slot}
use anomstream.Core.Slab.FreeList.{push-IsFreeList}
use anomstream.Core.Forest.PointStore.{
  PointStore, load, place, add, vacate, drop_unreferenced, set_free, capacity, live_count,
}
use anomstream.Core.Forest.PointStore.Validity.{IsValid, IsCounted}
use anomstream.Core.Forest.PointStore.Slots.{live-free}

module _ {F : Type 0} (is_finite : F → Bool) where
  -- `s'` is `s` with slot `idx` empty and every other slot and every count as before.
  pub record Vacated (s s' : PointStore F) (idx : ℕ) : Type 0 where
    pub valid : IsValid is_finite s'
    pub counted : IsCounted s'
    pub slots : (j : ℕ) → slot s'.points j ≡ (if idx == j then none else slot s.points j)
    pub counts : (j : ℕ) → load s' j ≡ load s j
    pub live : live_count s' + 1 ≡ live_count s
    pub same_size : capacity s' ≡ capacity s

  vacate-Vacated :
      (s : PointStore F) (idx : ℕ) (p : List F)
      → IsValid is_finite s
      → IsCounted s
      → slot s.points idx ≡ some p
      → load s idx ≡ 0
      → Vacated s (vacate s idx) idx
  unfolding capacity
  vacate-Vacated s idx p v c e z = record {
    valid = valid;
    counted = record { word = c.word; idle = λ j h. ground (arith, slots j, c.idle j, z) };
    slots = slots;
    counts = λ j. refl;
    live = omega (
      arith,
      live-free is_finite s v,
      live-free is_finite s' valid,
      length-set s.points idx none,
    );
    same_size = length-set s.points idx none;
  }
    where
      s' : PointStore F
      s' = vacate s idx

      slots : (j : ℕ) → slot s'.points j ≡ (if idx == j then none else slot s.points j)
      slots j = slot-set s.points idx j none (lt_of_slot s.points idx p e)

      valid : IsValid is_finite s'
      valid = record {
        counts_len = v.counts_len ∙ sym (length-set s.points idx none);
        free_slots = push-IsFreeList s.points idx s.free_list p e v.free_slots;
        finite = λ j q h. ground (arith, slots j, v.finite j q);
      }

  -- In a valid store whose empty slots have count 0, `set_free` and `drop_unreferenced` agree:
  -- both refuse an empty slot or one out of range, both refuse a slot whose count is not 0, and
  -- otherwise both empty the slot and nothing else, and the store stays valid.
  pub free_cases :
      (s : PointStore F) (idx : ℕ)
      → IsValid is_finite s
      → IsCounted s
      → ((slot s.points idx ≡ none)
          × (set_free s idx ≡ err (out_of_bounds idx (length s.points)))
          × (drop_unreferenced s idx ≡ err (out_of_bounds idx (length s.points))))
        ⊎ ((load s idx ≢ 0)
            × (set_free s idx ≡ err invalid_config)
            × (drop_unreferenced s idx ≡ err invalid_config))
        ⊎ ((s' : PointStore F) × (set_free s idx ≡ ok s')
            × (drop_unreferenced s idx ≡ ok s')
            × Vacated s s' idx)
  unfolding set_free drop_unreferenced
  free_cases s idx v c = elim (Option-cases (slot s.points idx)) [
    | inl e ↦ inl (e, ground (arith, e), ground (arith, e))
    | inr (p, e) ↦
        let below : idx < length s.points = lt_of_slot s.points idx p e in
        elim (dec_lt 0 (load s idx)) [
          | yes q ↦ inr (inl (omega arith, ground (arith, e), ground (arith, e)))
          | no q ↦ inr (
              inr (
                vacate s idx,
                ground (arith, e),
                ground (arith, e),
                vacate-Vacated s idx p v c e (omega arith),
              ))
        ]
  ]

  -- Where it succeeds, `set_free` empties the slot.
  set_free-vacate : (s s' : PointStore F) (idx : ℕ) → set_free s idx ≡ ok s' → s' ≡ vacate s idx
  unfolding set_free
  set_free-vacate s s' idx h = ground arith

  -- After `set_free` of a slot, `add` of a finite point takes that slot, and the free stack is
  -- as before the two.
  pub add-set_free :
      (s s' : PointStore F) (idx : ℕ) (p : List F)
      → set_free s idx ≡ ok s'
      → ensure_finite is_finite p ≡ ok tt
      → (s'' : PointStore F) × (add is_finite s' p ≡ ok (idx, s'')) × (s''.free_list ≡ s.free_list)
  unfolding add
  add-set_free s s' idx p h f =
      ((place (vacate s idx) (idx ∷ s.free_list) p).1, rw (set_free-vacate s s' idx h, f), refl)
