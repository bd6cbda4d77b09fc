-- ===== src/Hotpath/Striped/Sums.antt =====
-- Sums over the stripes.
use anomstream.Prelude.{
  ℕ, zero, suc, ◌+◌, ◌*◌, ◌%◌, ◌^◌, ◌≤◌, ◌<◌, ◌≡◌, ◌≢◌, refl, Bool, true, false, List, [], ◌∷◌,
  length, get_or, set, if◌then◌else◌, arith,
}
use anomstream.Word.{wrapping_add64}
use anomstream.Hotpath.Striped.{
  StripedPair, PaddedPair, Slot, pass, stop, at, with_at, zeros, sum_from, total, batch_size,
}

-- The events on a slot, and those since each stripe's last full batch.
unfoldable pub sum : Slot → List PaddedPair → ℕ
sum slot [] = 0
sum slot (p ∷ stripes) = at slot p + sum slot stripes

unfoldable pub residue : Slot → List PaddedPair → ℕ
residue slot [] = 0
residue slot (p ∷ stripes) = at slot p % batch_size + residue slot stripes

-- What the sink has been given for a slot.
abbrev pub same_slot : Slot → Slot → Bool
same_slot pass pass = true
same_slot stop stop = true
same_slot _ _ = false

unfoldable pub units : Slot → List (Slot × ℕ) → ℕ
units slot [] = 0
units slot ((s, n) ∷ sent) = (if same_slot slot s then n else 0) + units slot sent

sum_from-eq :
    (slot : Slot) (stripes : List PaddedPair) (acc : ℕ)
    → acc < 2 ^ 64
    → sum_from slot acc stripes ≡ (acc + sum slot stripes) % 2 ^ 64
unfolding sum_from sum
sum_from-eq slot [] acc h = omega arith
sum_from-eq slot (p ∷ stripes) acc h =
    omega (arith, sum_from-eq slot stripes (wrapping_add64 acc (at slot p)) (omega arith))

-- Below 2^64 events the total is the exact number of them.
pub total-eq-sum :
    (slot : Slot) (c : StripedPair)
    → sum slot c.stripes < 2 ^ 64
    → total slot c ≡ sum slot c.stripes
unfolding total
total-eq-sum slot c h = omega (arith, sum_from-eq slot c.stripes 0 (omega arith))

pub residue-le :
    (slot : Slot) (stripes : List PaddedPair) → residue slot stripes ≤ length stripes * 63
unfolding residue
residue-le slot [] = omega arith
residue-le slot (p ∷ stripes) = omega (arith, residue-le slot stripes)

pub at-with_at : (slot : Slot) (n : ℕ) (p : PaddedPair) → at slot (with_at slot n p) ≡ n
at-with_at pass n p = refl
at-with_at stop n p = refl

pub at-with_at_ne :
    (slot other : Slot) (n : ℕ) (p : PaddedPair)
    → same_slot other slot ≡ false
    → at other (with_at slot n p) ≡ at other p
at-with_at_ne pass pass n p h = cc
at-with_at_ne pass stop n p h = refl
at-with_at_ne stop pass n p h = refl
at-with_at_ne stop stop n p h = cc

pub sum-set :
    (slot : Slot) (stripes : List PaddedPair) (i : ℕ) (q : PaddedPair)
    → i < length stripes
    → sum slot (set stripes i q) + at slot (get_or stripes i zeros) ≡ sum slot stripes + at slot q
unfolding sum
sum-set slot [] i q h = absurd (omega arith)
sum-set slot (p ∷ stripes) zero q h = omega arith
sum-set slot (p ∷ stripes) (suc i) q h = omega (arith, sum-set slot stripes i q (omega arith))

pub residue-set :
    (slot : Slot) (stripes : List PaddedPair) (i : ℕ) (q : PaddedPair)
    → i < length stripes
    → residue slot (set stripes i q) + at slot (get_or stripes i zeros) % batch_size
      ≡ residue slot stripes + at slot q % batch_size
unfolding residue
residue-set slot [] i q h = absurd (omega arith)
residue-set slot (p ∷ stripes) zero q h = omega arith
residue-set slot (p ∷ stripes) (suc i) q h =
    omega (arith, residue-set slot stripes i q (omega arith))

pub at-le-sum :
    (slot : Slot) (stripes : List PaddedPair) (i : ℕ)
    → at slot (get_or stripes i zeros) ≤ sum slot stripes
unfolding sum
at-le-sum pass [] i = omega arith
at-le-sum stop [] i = omega arith
at-le-sum slot (p ∷ stripes) zero = omega arith
at-le-sum slot (p ∷ stripes) (suc i) = omega (arith, at-le-sum slot stripes i)

abbrev pub bumped : ℕ → Slot → StripedPair → StripedPair
bumped stripe slot c =
    let p = get_or c.stripes stripe zeros in
    record c { stripes = set c.stripes stripe (with_at slot (wrapping_add64 (at slot p) 1) p) }

pub sum-bumped :
    (stripe : ℕ) (slot : Slot) (c : StripedPair)
    → stripe < length c.stripes
    → sum slot c.stripes + 1 < 2 ^ 64
    → sum slot (bumped stripe slot c).stripes ≡ sum slot c.stripes + 1
sum-bumped stripe slot c h w =
    let p = get_or c.stripes stripe zeros in
    let next = wrapping_add64 (at slot p) 1 in
    omega (
      arith,
      sum-set slot c.stripes stripe (with_at slot next p) h,
      at-with_at slot next p,
      at-le-sum slot c.stripes stripe,
    )

pub residue-bumped :
    (stripe : ℕ) (slot : Slot) (c : StripedPair)
    → stripe < length c.stripes
    → sum slot c.stripes + 1 < 2 ^ 64
    → wrapping_add64 (at slot (get_or c.stripes stripe zeros)) 1 % batch_size ≢ 0
    → residue slot (bumped stripe slot c).stripes ≡ residue slot c.stripes + 1
residue-bumped stripe slot c h w ne =
    let p = get_or c.stripes stripe zeros in
    let next = wrapping_add64 (at slot p) 1 in
    omega (
      arith,
      residue-set slot c.stripes stripe (with_at slot next p) h,
      at-with_at slot next p,
      at-le-sum slot c.stripes stripe,
    )
