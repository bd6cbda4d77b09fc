-- ===== src/Core/SpaceSaving/Table.antt =====
-- Tables with one entry for each key: the `HashMap` of core/src/space_saving.rs.
use anomstream.Prelude.{
  ℕ, ◌+◌, ◌≡◌, ◌∙◌, inl, inr, Bool-cases, refl, ap, Bool, true, false, List, [], ◌∷◌, Option, none,
  some, length, if◌then◌else◌, arith,
}

pub record HeavyHitterEntry : Type 0 where
  pub estimate : ℕ
  pub error : ℕ

module _ {K : Type 0} where
  -- The estimates of all entries together.
  unfoldable pub mass : List (K × HeavyHitterEntry) → ℕ
  mass [] = 0
  mass ((k, e) ∷ t) = e.estimate + mass t

module _ {K : Type 0} (eq : K → K → Bool) where
  unfoldable pub find : K → List (K × HeavyHitterEntry) → Option HeavyHitterEntry
  find k [] = none
  find k ((j, e) ∷ t) = let rest = find k t in if eq j k then some e else rest

  -- A write through `get_mut`.
  pub put : K → HeavyHitterEntry → List (K × HeavyHitterEntry) → List (K × HeavyHitterEntry)
  put k e [] = []
  put k e ((j, d) ∷ t) = let rest = put k e t in if eq j k then (j, e) ∷ t else (j, d) ∷ rest

  pub remove : K → List (K × HeavyHitterEntry) → List (K × HeavyHitterEntry)
  remove k [] = []
  remove k ((j, d) ∷ t) = let rest = remove k t in if eq j k then t else (j, d) ∷ rest

  -- No key stands in the table twice.
  abbrev pub Distinct : List (K × HeavyHitterEntry) → Type 0
  Distinct [] = Unit {0}
  Distinct ((k, e) ∷ t) = (find k t ≡ none) × Distinct t

  module _ (sound : (a b : K) → eq a b ≡ true → a ≡ b) (self : (a : K) → eq a a ≡ true) where
    eq-left : (a b c : K) → eq a b ≡ true → eq a c ≡ eq b c
    eq-left a b c h = ap (λ x. eq x c) (sound a b h)

    eq-right : (a b c : K) → eq a b ≡ true → eq c a ≡ eq c b
    eq-right a b c h = ap (λ x. eq c x) (sound a b h)

    find_same : (a b : K) (t : List (K × HeavyHitterEntry)) → eq a b ≡ true → find a t ≡ find b t
    find_same a b t h = ap (λ x. find x t) (sound a b h)

    pub find-put :
        (k j : K) (e d : HeavyHitterEntry) (t : List (K × HeavyHitterEntry))
        → find k t ≡ some d
        → find j (put k e t) ≡ (if eq k j then some e else find j t)
    unfolding find put
    find-put k j e d [] h = cc
    find-put k j e d ((i, c) ∷ t) h =
        ground (arith, eq-left i k j, eq-right k j i, find-put k j e d t)

    find-put_ne :
        (k j : K) (e : HeavyHitterEntry) (t : List (K × HeavyHitterEntry))
        → eq j k ≡ false
        → find j (put k e t) ≡ find j t
    unfolding find put
    find-put_ne k j e [] h = refl
    find-put_ne k j e ((i, c) ∷ t) h = ground (
      arith,
      eq-left i k j,
      eq-right i j k,
      eq-left i j k,
      eq-right k j i,
      find-put_ne k j e t,
      self k,
      self j,
      self i,
    )

    pub find-remove :
        (k j : K) (t : List (K × HeavyHitterEntry))
        → Distinct t
        → find j (remove k t) ≡ (if eq k j then none else find j t)
    unfolding find remove
    find-remove k j [] h = ground arith
    find-remove k j ((i, c) ∷ t) h =
        ground (arith, eq-left i k j, eq-right k j i, find_same i j t, find-remove k j t h.1, h.0)

    pub mass-put :
        (k : K) (e d : HeavyHitterEntry) (t : List (K × HeavyHitterEntry))
        → find k t ≡ some d
        → mass (put k e t) + d.estimate ≡ mass t + e.estimate
    unfolding find put mass
    mass-put k e d [] h = cc
    mass-put k e d ((i, c) ∷ t) h = ground (arith, mass-put k e d t)

    pub mass-remove :
        (k : K) (d : HeavyHitterEntry) (t : List (K × HeavyHitterEntry))
        → find k t ≡ some d
        → (mass (remove k t) + d.estimate ≡ mass t) × (length (remove k t) + 1 ≡ length t)
    unfolding find remove mass
    mass-remove k d [] h = cc
    mass-remove k d ((i, c) ∷ t) h = ground (arith, mass-remove k d t)

    pub length-put :
        (k : K) (e : HeavyHitterEntry) (t : List (K × HeavyHitterEntry))
        → length (put k e t) ≡ length t
    unfolding put
    length-put k e [] = refl
    length-put k e ((i, c) ∷ t) = ground (arith, length-put k e t)

    pub Distinct-put :
        (k : K) (e : HeavyHitterEntry) (t : List (K × HeavyHitterEntry))
        → Distinct t
        → Distinct (put k e t)
    unfolding put
    Distinct-put k e [] h = h
    Distinct-put k e ((i, c) ∷ t) h = elim (Bool-cases (eq i k)) [
      | inl y ↦ rw y h
      | inr y ↦ rw y (find-put_ne k i e t y ∙ h.0, Distinct-put k e t h.1)
    ]

    pub Distinct-remove :
        (k : K) (t : List (K × HeavyHitterEntry)) → Distinct t → Distinct (remove k t)
    unfolding remove
    Distinct-remove k [] h = h
    Distinct-remove k ((i, c) ∷ t) h = elim (Bool-cases (eq i k)) [
      | inl e ↦ rw e h.1
      | inr e ↦ rw e (find-remove k i t h.1 ∙ ground (arith, h.0), Distinct-remove k t h.1)
    ]
