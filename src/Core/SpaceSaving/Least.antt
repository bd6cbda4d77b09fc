-- ===== src/Core/SpaceSaving/Least.antt =====
-- The least entry of a table, as `find_min` picks it.
use anomstream.Prelude.{
  ◌≤◌, ◌≡◌, ◌⊎◌, sym, subst, inl, inr, refl, ap, Bool, true, false, List, [], ◌∷◌, none, some, ltb,
  Bool-cases, if◌then◌else◌, arith,
}
use anomstream.Core.SpaceSaving.{least, find_min}
use anomstream.Core.SpaceSaving.Table.{HeavyHitterEntry, find, Distinct}

module _ {K : Type 0} (eq : K → K → Bool) (sound : (a b : K) → eq a b ≡ true → a ≡ b)
    (self : (a : K) → eq a a ≡ true) where
  least-le :
      (x : K × HeavyHitterEntry) (t : List (K × HeavyHitterEntry))
      → ((least x t).1.estimate ≤ x.1.estimate)
        × ((j : K) (e : HeavyHitterEntry)
            → find eq j t ≡ some e
            → (least x t).1.estimate ≤ e.estimate)
  unfolding find
  least-le x [] = (omega arith, λ j e h. cc)
  least-le x ((k, d) ∷ t) =
      let y = if ltb d.estimate x.1.estimate then (k, d) else x in
      let (below, rest) = least-le y t in
      (ground (arith, below), λ j e h. ground (arith, below, rest j e))

  find_alike :
      (a b : K) (t : List (K × HeavyHitterEntry)) → eq a b ≡ true → find eq a t ≡ find eq b t
  find_alike a b t h = ap (λ x. find eq x t) (sound a b h)

  -- An entry found in a table is found behind an entry of a new key.
  later :
      (r x : K × HeavyHitterEntry) (t : List (K × HeavyHitterEntry))
      → find eq x.0 t ≡ none
      → find eq r.0 t ≡ some r.1
      → find eq r.0 (x ∷ t) ≡ some r.1
  unfolding find
  later r x t h g = elim (Bool-cases (eq x.0 r.0)) [
    | inl e ↦ absurd (cc (find_alike x.0 r.0 t e, h, g))
    | inr e ↦ rw e g
  ]

  -- The same for a new entry in the second place.
  between :
      (r x y : K × HeavyHitterEntry) (t : List (K × HeavyHitterEntry))
      → eq y.0 x.0 ≡ false
      → find eq y.0 t ≡ none
      → find eq r.0 (x ∷ t) ≡ some r.1
      → find eq r.0 (x ∷ y ∷ t) ≡ some r.1
  unfolding find
  between r x y t n h g = elim (Bool-cases (eq x.0 r.0)) [
    | inl e ↦ rw e (rw e at g)
    | inr e ↦ rw e (later r y t h (rw e at g))
  ]

  find-least :
      (x : K × HeavyHitterEntry) (t : List (K × HeavyHitterEntry))
      → Distinct eq (x ∷ t)
      → find eq (least x t).0 (x ∷ t) ≡ some (least x t).1
  unfolding find
  find-least x [] h = rw (self x.0) refl
  find-least x ((k, d) ∷ t) h = elim (Bool-cases (ltb d.estimate x.1.estimate)) [
    | inl y ↦
        subst (λ r. find eq r.0 (x ∷ (k, d) ∷ t) ≡ some r.1)
          (sym (ap (λ b. least (if b then (k, d) else x) t) y))
          (later (least (k, d) t) x ((k, d) ∷ t) h.0 (find-least (k, d) t h.1))
    | inr y ↦
        let off : (eq k x.0 ≡ false) × (find eq x.0 t ≡ none) = ground (arith, h.0) in
        subst (λ r. find eq r.0 (x ∷ (k, d) ∷ t) ≡ some r.1)
          (sym (ap (λ b. least (if b then (k, d) else x) t) y))
          (between (least x t) x (k, d) t off.0 h.1.0 (find-least x t (off.1, h.1.1)))
  ]

  -- `find_min` answers with an entry of the table than which no other is less.
  pub find_min_lem :
      (t : List (K × HeavyHitterEntry))
      → Distinct eq t
      → ((t ≡ []) × (find_min t ≡ none))
        ⊎ ((m : K) × (d : HeavyHitterEntry) × (find_min t ≡ some (m, d))
            × (find eq m t ≡ some d)
            × ((j : K) (e : HeavyHitterEntry) → find eq j t ≡ some e → d.estimate ≤ e.estimate))
  unfolding find
  find_min_lem [] h = inl (refl, refl)
  find_min_lem (x ∷ t) h =
      let (below, rest) = least-le x t in
      inr (_, _, refl, find-least x t h, λ j e y. ground (arith, below, rest j e))
