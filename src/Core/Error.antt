-- ===== src/Core/Error.antt =====
-- The error type of the crate, core/src/error.rs, and the result monad of its operations.
-- The text of a message is left out: a variant that holds only a text has no argument here.
use anomstream.Prelude.{ℕ, ◌≡◌, refl, inl, inr, ◌⊎◌}

pub data RcfError : Type 0 where
  dimension_mismatch : (expected got : ℕ) → RcfError
  invalid_config : RcfError
  empty_forest : RcfError
  empty_bounding_box : RcfError
  nan_value : RcfError
  out_of_bounds : (index len : ℕ) → RcfError
  serialization_failed : RcfError
  deserialization_failed : RcfError
  incompatible_version : (found expected : ℕ) → RcfError

pub data RcfResult {ℓ} (A : Type ℓ) : Type ℓ where
  ok : A → RcfResult A
  err : RcfError → RcfResult A

infixl 5 ◌>>=◌ ◌>>◌
-- The operator `?` of the source.
abbrev pub ◌>>=◌ {ℓ κ} : {T : Type ℓ} {S : Type κ} → RcfResult T → (T → RcfResult S) → RcfResult S
err why >>= next = err why
ok v >>= next = next v

pub result_cases {ℓ} :
    {A : Type ℓ} (r : RcfResult A) → ((v : A) × (r ≡ ok v)) ⊎ ((e : RcfError) × (r ≡ err e))
result_cases (ok v) = inl (v, refl)
result_cases (err e) = inr (e, refl)

-- What stands behind a successful chain.
pub >>=-eq-ok {ℓ κ} :
    {T : Type ℓ} {S : Type κ} (first : RcfResult T) (next : T → RcfResult S) {w : S}
    → (first >>= next) ≡ ok w
    → (v : T) × (first ≡ ok v) × (next v ≡ ok w)
>>=-eq-ok (err why) next fits = cc
>>=-eq-ok (ok v) next fits = (v, refl, fits)

-- `?` on a result without a value.
abbrev pub ◌>>◌ {κ} : {S : Type κ} → RcfResult (Unit {0}) → RcfResult S → RcfResult S
check >> rest = check >>= λ _. rest
