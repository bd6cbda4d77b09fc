-- ===== src/Core/Domain/Boxes/Order.antt =====
-- Boxes over ordered coordinates: what `extend` keeps inside.
use anomstream.Prelude.{
  ℕ, zero, suc, ◌≡◌, refl, ap, true, false, List, [], ◌∷◌, length, arith, Bool-cases, ◌==◌, inl,
  inr,
}
use anomstream.Core.Error.{ok}
use anomstream.Core.Domain.{BoundingBox, ensure_finite}
use anomstream.Core.Domain.Arith.{Arith, coord}
use anomstream.Core.Domain.Boxes.{from_point, lower, raise, extended}

-- What `<=` and `<` of `f64` satisfy: the laws that fail on NaN are about finite numbers.
pub record Ordered {F : Type 0} (f64 : Arith F) : Type 0 where
  pub finite_zero : f64.is_finite f64.zero ≡ true
  pub le_refl : (a : F) → f64.is_finite a ≡ true → f64.le a a ≡ true
  pub le_trans : (a b c : F) → f64.le a b ≡ true → f64.le b c ≡ true → f64.le a c ≡ true
  pub le_of_lt : (a b : F) → f64.lt a b ≡ true → f64.le a b ≡ true
  pub lt_asym : (a b : F) → f64.lt a b ≡ true → f64.le b a ≡ false
  pub le_of_not_lt :
      (a b : F)
      → f64.is_finite a ≡ true
      → f64.is_finite b ≡ true
      → f64.lt a b ≡ false
      → f64.le b a ≡ true

module _ {F : Type 0} (f64 : Arith F) where
  -- Points of one length, each coordinate at most the other.
  abbrev pub Below : List F → List F → Type 0
  Below [] [] = Unit {0}
  Below (x ∷ xs) (y ∷ ys) = (f64.le x y ≡ true) × Below xs ys
  Below [] (y ∷ ys) = ⊥
  Below (x ∷ xs) [] = ⊥

  pub from_point_lem :
      (dim : ℕ) (p : List F) (b : BoundingBox F)
      → from_point f64 dim p ≡ ok b
      → record { min = p; max = p } ≡ b
  unfolding from_point
  from_point_lem dim p b h = elim (Bool-cases (dim == 0)) [
    | inl e ↦ absurd (cc (rw e at h))
    | inr e ↦ elim (Bool-cases (length p == dim)) [
      | inl d ↦ cc (rw (e, d) at h)
      | inr d ↦ absurd (cc (rw (e, d) at h))
    ]
  ]

  abbrev pub Finite : List F → Type 0
  Finite [] = Unit {0}
  Finite (x ∷ xs) = (f64.is_finite x ≡ true) × Finite xs

  pub Finite-of_ensure : (xs : List F) → ensure_finite f64.is_finite xs ≡ ok tt → Finite xs
  unfolding ensure_finite
  Finite-of_ensure [] h = tt
  Finite-of_ensure (x ∷ xs) h = elim (Bool-cases (f64.is_finite x)) [
    | inl e ↦ (e, Finite-of_ensure xs (rw e at h))
    | inr e ↦ absurd (cc (rw e at h))
  ]

  pub lower-Finite : (ms vs : List F) → Finite ms → Finite vs → Finite (lower f64 ms vs)
  unfolding lower
  lower-Finite [] vs h k = tt
  lower-Finite (m ∷ ms) [] h k = h
  lower-Finite (m ∷ ms) (v ∷ vs) h k = (
    elim (Bool-cases (f64.lt v m)) [ inl e ↦ rw e k.0 | inr e ↦ rw e h.0 ],
    lower-Finite ms vs h.1 k.1,
  )

  pub raise-Finite : (ms vs : List F) → Finite ms → Finite vs → Finite (raise f64 ms vs)
  unfolding raise
  raise-Finite [] vs h k = tt
  raise-Finite (m ∷ ms) [] h k = h
  raise-Finite (m ∷ ms) (v ∷ vs) h k = (
    elim (Bool-cases (f64.lt m v)) [ inl e ↦ rw e k.0 | inr e ↦ rw e h.0 ],
    raise-Finite ms vs h.1 k.1,
  )

  abbrev pub Within : BoundingBox F → List F → Type 0
  Within b p = Below b.min p × Below p b.max

  pub length-lower : (ms vs : List F) → length (lower f64 ms vs) ≡ length ms
  unfolding lower
  length-lower [] vs = refl
  length-lower (m ∷ ms) [] = refl
  length-lower (m ∷ ms) (v ∷ vs) = ap suc (length-lower ms vs)

  pub length-raise : (ms vs : List F) → length (raise f64 ms vs) ≡ length ms
  unfolding raise
  length-raise [] vs = refl
  length-raise (m ∷ ms) [] = refl
  length-raise (m ∷ ms) (v ∷ vs) = ap suc (length-raise ms vs)

  module _ (o : Ordered f64) where
    pub Below-refl : (xs : List F) → Finite xs → Below xs xs
    Below-refl [] h = tt
    Below-refl (x ∷ xs) h = (o.le_refl x h.0, Below-refl xs h.1)

    pub Below-coord :
        (xs ys : List F) (d : ℕ) → Below xs ys → f64.le (coord f64 xs d) (coord f64 ys d) ≡ true
    Below-coord [] [] d h = o.le_refl f64.zero o.finite_zero
    Below-coord [] (y ∷ ys) d h = absurd h
    Below-coord (x ∷ xs) [] d h = absurd h
    Below-coord (x ∷ xs) (y ∷ ys) zero h = h.0
    Below-coord (x ∷ xs) (y ∷ ys) (suc d) h = Below-coord xs ys d h.1

    lower-Below : (ms vs qs : List F) → Below ms qs → Below (lower f64 ms vs) qs
    unfolding lower
    lower-Below [] vs qs h = h
    lower-Below (m ∷ ms) [] qs h = h
    lower-Below (m ∷ ms) (v ∷ vs) [] h = absurd h
    lower-Below (m ∷ ms) (v ∷ vs) (q ∷ qs) h = (
      elim (Bool-cases (f64.lt v m)) [
        | inl e ↦ rw e (o.le_trans v m q (o.le_of_lt v m e) h.0)
        | inr e ↦ rw e h.0
      ],
      lower-Below ms vs qs h.1,
    )

    lower-Below_new :
        (ms vs : List F)
        → Finite ms
        → Finite vs
        → length ms ≡ length vs
        → Below (lower f64 ms vs) vs
    unfolding lower
    lower-Below_new [] [] f g h = tt
    lower-Below_new [] (v ∷ vs) f g h = absurd (omega (arith, h))
    lower-Below_new (m ∷ ms) [] f g h = absurd (omega (arith, h))
    lower-Below_new (m ∷ ms) (v ∷ vs) f g h = (
      elim (Bool-cases (f64.lt v m)) [
        | inl e ↦ rw e (o.le_refl v g.0)
        | inr e ↦ rw e (o.le_of_not_lt v m g.0 f.0 e)
      ],
      lower-Below_new ms vs f.1 g.1 (omega (arith, h)),
    )

    raise-Below : (ms vs qs : List F) → Below qs ms → Below qs (raise f64 ms vs)
    unfolding raise
    raise-Below [] vs qs h = h
    raise-Below (m ∷ ms) [] qs h = h
    raise-Below (m ∷ ms) (v ∷ vs) [] h = absurd h
    raise-Below (m ∷ ms) (v ∷ vs) (q ∷ qs) h = (
      elim (Bool-cases (f64.lt m v)) [
        | inl e ↦ rw e (o.le_trans q m v h.0 (o.le_of_lt m v e))
        | inr e ↦ rw e h.0
      ],
      raise-Below ms vs qs h.1,
    )

    raise-Below_new :
        (ms vs : List F)
        → Finite ms
        → Finite vs
        → length ms ≡ length vs
        → Below vs (raise f64 ms vs)
    unfolding raise
    raise-Below_new [] [] f g h = tt
    raise-Below_new [] (v ∷ vs) f g h = absurd (omega (arith, h))
    raise-Below_new (m ∷ ms) [] f g h = absurd (omega (arith, h))
    raise-Below_new (m ∷ ms) (v ∷ vs) f g h = (
      elim (Bool-cases (f64.lt m v)) [
        | inl e ↦ rw e (o.le_refl v g.0)
        | inr e ↦ rw e (o.le_of_not_lt m v f.0 g.0 e)
      ],
      raise-Below_new ms vs f.1 g.1 (omega (arith, h)),
    )

    -- An extended box has the points that were in it, and the point it was extended by.
    pub extended-Within :
        (b : BoundingBox F) (point : List F)
        → ((p : List F) → Within b p → Within (extended f64 b point) p)
          × (Finite b.min
              → Finite b.max
              → Finite point
              → length b.min ≡ length point
              → length b.max ≡ length point
              → Within (extended f64 b point) point)
    extended-Within b point = (
      λ p (l, r). (lower-Below b.min point p l, raise-Below b.max point p r),
      λ mins maxs news e f.
          (lower-Below_new b.min point mins news e, raise-Below_new b.max point maxs news f),
    )
