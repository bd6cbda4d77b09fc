-- ===== src/Core/Forest/PointStore/Counts.antt =====
-- The counts of the point store: `incr_ref` and `decr_ref`.
use anomstream.Prelude.{
  ℕ, zero, suc, ◌+◌, ◌-◌, ◌%◌, ◌^◌, ◌<◌, ◌≡◌, refl, Bool, true, false, List, [], ◌∷◌, some, length,
  set, arith, sym, ◌∙◌, ap, ◌==◌, if◌then◌else◌, length-set, get_or-set_self, set-get_or, set-set,
}
use anomstream.Core.Error.{RcfResult, ok, err, invalid_config, ◌>>=◌}
use anomstream.Core.Slab.{slot}
use anomstream.Core.Slab.Vacant.{lt_of_slot}
use anomstream.Core.Forest.PointStore.{PointStore, load, incr_ref, decr_ref, decr_loop}

-- Only the last of `n` answers is `true`.
abbrev pub last_only : ℕ → List Bool
last_only zero = []
last_only (suc zero) = true ∷ []
last_only (suc (suc n)) = false ∷ last_only (suc n)

last_only-cons : (c : ℕ) → (c == 0) ∷ last_only c ≡ last_only (suc c)
last_only-cons zero = refl
last_only-cons (suc c) = ap (λ (b : Bool). b ∷ last_only (suc c)) (ground arith)

module _ {F : Type 0} where
  -- The store with the count of one slot replaced.
  abbrev pub with_count : PointStore F → ℕ → ℕ → PointStore F
  with_count s idx n = record s { ref_counts = set s.ref_counts idx n }

  -- However often the exchange fails for no reason, the loop does the same.
  decr_loop-eq :
      (failures : ℕ) (s : PointStore F) (idx : ℕ)
      → decr_loop s idx failures ≡ (
          if load s idx == 0
          then err invalid_config
          else ok (load s idx - 1 == 0, with_count s idx (load s idx - 1)))
  unfolding decr_loop
  decr_loop-eq zero s idx = refl
  decr_loop-eq (suc failures) s idx = ground (arith, decr_loop-eq failures s idx)

  module _ (s : PointStore F) (idx : ℕ) (p : List F) (lens : length s.ref_counts ≡ length s.points)
      (e : slot s.points idx ≡ some p) where
    below : idx < length s.points
    below = lt_of_slot s.points idx p e

    pub incr_ref-live : incr_ref s idx ≡ ok (with_count s idx ((load s idx + 1) % 2 ^ 32))
    unfolding incr_ref
    incr_ref-live = ground (arith, e, below)

    decr_ref-live :
        (failures : ℕ)
        → decr_ref failures s idx ≡ (
            if load s idx == 0
            then err invalid_config
            else ok (load s idx - 1 == 0, with_count s idx (load s idx - 1)))
    unfolding decr_ref
    decr_ref-live failures = ground (arith, e, below, decr_loop-eq failures s idx)

    pub decr_ref-pos :
        (failures c : ℕ)
        → load s idx ≡ suc c
        → decr_ref failures s idx ≡ ok (c == 0, with_count s idx c)
    decr_ref-pos failures c h = decr_ref-live failures ∙ ground (arith, h)

  -- `n` trees take the slot, one after the other.
  pub adopt : ℕ → PointStore F → ℕ → RcfResult (PointStore F)
  adopt zero s idx = ok s
  adopt (suc n) s idx = incr_ref s idx >>= λ t. adopt n t idx

  -- A tree for each entry gives it back; the entry says how often its exchange fails for no reason.
  -- The flags are what `decr_ref` answers.
  pub release : List ℕ → PointStore F → ℕ → RcfResult (List Bool × PointStore F)
  release [] s idx = ok ([], s)
  release (failures ∷ rest) s idx = do
    (flag, t) ← decr_ref failures s idx
    (flags, u) ← release rest t idx
    ok (flag ∷ flags, u)

  adopt-eq :
      (n : ℕ) (s : PointStore F) (idx : ℕ) (p : List F)
      → length s.ref_counts ≡ length s.points
      → slot s.points idx ≡ some p
      → load s idx + n < 2 ^ 32
      → adopt n s idx ≡ ok (with_count s idx (load s idx + n))
  unfolding adopt
  adopt-eq zero s idx p lens e h =
      ap (λ (cs : List ℕ). ok (record s { ref_counts = cs }))
        (sym (set-get_or s.ref_counts idx 0) ∙ ap (λ (c : ℕ). set s.ref_counts idx c) (omega arith))
  adopt-eq (suc n) s idx p lens e h = rw (incr_ref-live s idx p lens e) (
      adopt-eq n t idx p (length-set s.ref_counts idx c ∙ lens) e (omega (arith, here))
      ∙ ap (λ (cs : List ℕ). ok (record s { ref_counts = cs }))
          (set-set s.ref_counts idx c (load t idx + n)
            ∙ ap (λ (k : ℕ). set s.ref_counts idx k) (omega (arith, here))))
    where
      c : ℕ
      c = (load s idx + 1) % 2 ^ 32

      t : PointStore F
      t = with_count s idx c

      here : load t idx ≡ c
      here = get_or-set_self s.ref_counts idx c 0 (omega (arith, lens, lt_of_slot s.points idx p e))

  release-eq :
      (failures : List ℕ) (s : PointStore F) (idx : ℕ) (p : List F)
      → length s.ref_counts ≡ length s.points
      → slot s.points idx ≡ some p
      → length failures ≡ load s idx
      → release failures s idx ≡ ok (last_only (length failures), with_count s idx 0)
  unfolding release
  release-eq [] s idx p lens e h =
      ap (λ (cs : List ℕ). ok ([], record s { ref_counts = cs }))
        (sym (set-get_or s.ref_counts idx 0) ∙ ap (λ (c : ℕ). set s.ref_counts idx c) (sym h))
  release-eq (k ∷ failures) s idx p lens e h =
      rw
        (
          decr_ref-pos s idx p lens e k c (sym h),
          release-eq failures (with_count s idx c) idx p (length-set s.ref_counts idx c ∙ lens) e
              (sym here),
          last_only-cons c,
        )
        (ap (λ (cs : List ℕ). ok (last_only (suc c), record s { ref_counts = cs }))
          (set-set s.ref_counts idx c 0))
    where
      c : ℕ
      c = length failures

      here : load (with_count s idx c) idx ≡ c
      here = get_or-set_self s.ref_counts idx c 0 (omega (arith, lens, lt_of_slot s.points idx p e))

  -- If the slot of a point has count 0 and `n` trees, fewer than 2^32, each take a reference
  -- with `incr_ref` and then each give it back with `decr_ref`, the store is as before, and of
  -- the `n` answers of `decr_ref` only the last is `true`, however often its exchanges fail for
  -- no reason.
  pub release-adopt :
      (failures : List ℕ) (s : PointStore F) (idx : ℕ) {p : List F}
      → length s.ref_counts ≡ length s.points
      → slot s.points idx ≡ some p
      → load s idx ≡ 0
      → length failures < 2 ^ 32
      → (adopt (length failures) s idx >>= λ t. release failures t idx)
        ≡ ok (last_only (length failures), s)
  release-adopt failures s idx {p} lens e z h =
      rw
        (
          adopt-eq n s idx p lens e (omega (arith, z)),
          release-eq failures t idx p (length-set s.ref_counts idx (load s idx + n) ∙ lens) e
              (sym (here ∙ omega (arith, z))),
        )
        (ap (λ (cs : List ℕ). ok (last_only n, record s { ref_counts = cs })) restored)
    where
      n : ℕ
      n = length failures

      t : PointStore F
      t = with_count s idx (load s idx + n)

      here : load t idx ≡ load s idx + n
      here =
          get_or-set_self s.ref_counts idx (load s idx + n) 0
            (omega (arith, lens, lt_of_slot s.points idx p e))

      restored : set t.ref_counts idx 0 ≡ s.ref_counts
      restored =
          set-set s.ref_counts idx (load s idx + n) 0
          ∙ ap (λ (c : ℕ). set s.ref_counts idx c) (sym z)
          ∙ set-get_or s.ref_counts idx 0
