-- ===== src/Hotpath/Sampler/Stride.antt =====
-- The decisions of `accept_stride` of hotpath/src/lib.rs over a run of offers.
use native.Mathlib.Nat.{div-add-mod', mod-lt, div-eq_of_lt-le, add-zero, div-eq_of_lt}
use anomstream.Prelude.{
  ℕ, suc, ◌+◌, ◌-◌, ◌*◌, ◌/◌, ◌%◌, ◌^◌, ◌<◌, ◌≡◌, refl, false, List, [], ◌∷◌, length, leb, ◌==◌,
  if◌then◌else◌, arith, Bool-cases, inl, inr, ◌∙◌, ap,
}
use anomstream.Hotpath.Striped.{StripedPair, pass, stop, stripe_count}
use anomstream.Hotpath.Striped.Sums.{sum, total-eq-sum}
use anomstream.Hotpath.Striped.Ledger.{IsLedger}
use anomstream.Hotpath.Striped.Exact.{count_any, fresh-IsLedger}
use anomstream.Hotpath.Sampler.{UpdateSampler, new, accept_stride, accepted_total, rejected_total}

-- How many of the numbers below `c` are multiples of `n`.
abbrev pub ceil_div : ℕ → ℕ → ℕ
ceil_div c n = (c + n - 1) / n

ceil_div-suc : (c n : ℕ) → 0 < n → ceil_div (c + 1) n ≡ ceil_div c n + (if c % n == 0 then 1 else 0)
ceil_div-suc c n h = elim (Bool-cases (c % n == 0)) [
  | inl e ↦
      let zero_rest : c % n ≡ 0 = ground arith in
      rw e (
        omega (
          arith,
          up,
          div-eq_of_lt-le {k = c / n} n {m = c + n - 1} (omega (arith, split))
              (omega (arith, split, zero_rest)),
        ))
  | inr e ↦
      let some_rest : 0 < c % n = ground arith in
      rw e (
        omega (
          arith,
          up,
          div-eq_of_lt-le {k = c / n + 1} n {m = c + n - 1} (omega (arith, split, some_rest))
              (omega (arith, split, below)),
        ))
]
  where
    split : c / n * n + c % n ≡ c
    split = div-add-mod' c n

    below : c % n < n
    below = mod-lt c h

    up : ceil_div (c + 1) n ≡ c / n + 1
    up =
        div-eq_of_lt-le {k = c / n + 1} n {m = c + 1 + n - 1} (omega (arith, split))
          (omega (arith, split, below))

-- Both invariants of the counters.
abbrev pub IsKept : StripedPair → Type 0
IsKept c = IsLedger pass c × IsLedger stop c

-- Offers one after the other, each by a thread of some stripe.
pub offer : List ℕ → UpdateSampler → UpdateSampler
offer [] s = s
offer (stripe ∷ stripes) s = offer stripes (accept_stride stripe s).1

abbrev pub AllBelow16 : List ℕ → Type 0
AllBelow16 [] = Unit {0}
AllBelow16 (i ∷ stripes) = (i < stripe_count) × AllBelow16 stripes

-- One offer counts as one event, on the slot of its decision.
accept_stride-Counted :
    (stripe : ℕ) (s : UpdateSampler)
    → stripe < stripe_count
    → IsKept s.counts
    → 1 < s.keep_every_n
    → s.counter + 1 < 2 ^ 64
    → sum pass s.counts.stripes + sum stop s.counts.stripes + 1 < 2 ^ 64
    → let t = (accept_stride stripe s).1 in
      IsKept t.counts
      × (t.keep_every_n ≡ s.keep_every_n)
      × (t.counter ≡ s.counter + 1)
      × (sum pass t.counts.stripes
          ≡ sum pass s.counts.stripes + (if s.counter % s.keep_every_n == 0 then 1 else 0))
      × (sum pass t.counts.stripes + sum stop t.counts.stripes
          ≡ sum pass s.counts.stripes + sum stop s.counts.stripes + 1)
unfolding accept_stride
accept_stride-Counted stripe s h k n w b =
    let skip : leb s.keep_every_n 1 ≡ false = ground arith in
    elim (Bool-cases (s.counter % s.keep_every_n == 0)) [
      | inl e ↦
          let (on, one) = count_any stripe pass pass s.counts h k.0 (omega arith) in
          let (off, same) = count_any stripe pass stop s.counts h k.1 (omega arith) in
          rw (skip, e) ((on, off), refl, omega arith, one, omega (arith, one, same))
      | inr e ↦
          let (off, one) = count_any stripe stop stop s.counts h k.1 (omega arith) in
          let (on, same) = count_any stripe stop pass s.counts h k.0 (omega arith) in
          rw (skip, e) ((on, off), refl, omega arith, same, omega (arith, one, same))
    ]

shift : (c m : ℕ) → c + 1 + m ≡ c + suc m
shift c m = omega arith

offer-Counted :
    (stripes : List ℕ) (s : UpdateSampler)
    → AllBelow16 stripes
    → IsKept s.counts
    → 1 < s.keep_every_n
    → s.counter + length stripes < 2 ^ 64
    → sum pass s.counts.stripes + sum stop s.counts.stripes + length stripes < 2 ^ 64
    → (n : ℕ) → s.keep_every_n ≡ n
    → let t = offer stripes s in
      (sum pass t.counts.stripes + ceil_div s.counter n
        ≡ sum pass s.counts.stripes + ceil_div (s.counter + length stripes) n)
      × (sum pass t.counts.stripes + sum stop t.counts.stripes
          ≡ sum pass s.counts.stripes + sum stop s.counts.stripes + length stripes)
unfolding offer
offer-Counted [] s h k p w b n same =
    (omega (arith, ap (λ (c : ℕ). ceil_div c n) (add-zero s.counter)), omega arith)
offer-Counted (i ∷ stripes) s h k p w b n same =
    let t = (accept_stride i s).1 in
    let (k', same', next, one, both) =
      accept_stride-Counted i s h.0 k p (omega arith) (omega arith) in
    let (rest, all) =
      offer-Counted stripes t h.1 k' (omega (arith, same')) (omega (arith, next))
        (omega (arith, both)) n (same' ∙ same) in
    (
      omega (
        arith,
        rest,
        one,
        ap {B = ℕ} (λ (m : ℕ). if s.counter % m == 0 then 1 else 0) same,
        ap (λ (c : ℕ). ceil_div c n) next,
        ap (λ (c : ℕ). ceil_div (c + length stripes) n) next,
        ap (λ (c : ℕ). ceil_div c n) (shift s.counter (length stripes)),
        ceil_div-suc s.counter n (omega (arith, same)),
      ),
      omega (arith, all, both),
    )

-- Of `m` offers, fewer than 2^64, by threads of stripes below 16, to a fresh unkeyed sampler
-- that keeps one in `n`, with `n` above 1, `accept_stride` accepts `m / n` rounded up, and the
-- two totals are together `m`.
pub offer_totals :
    (n : ℕ) (stripes : List ℕ)
    → 1 < n
    → AllBelow16 stripes
    → length stripes < 2 ^ 64
    → let s = offer stripes (new n) in
      (accepted_total s ≡ ceil_div (length stripes) n)
      × (accepted_total s + rejected_total s ≡ length stripes)
unfolding new accepted_total rejected_total
offer_totals n stripes p h w =
    let (l, none_pass) = fresh-IsLedger pass in
    let (l', none_stop) = fresh-IsLedger stop in
    let s = offer stripes (new n) in
    let (accepted, all) =
      offer-Counted stripes (new n) h (l, l') p (omega arith) (omega (arith, none_pass, none_stop))
        n refl in
    let first : ceil_div 0 n ≡ 0 = div-eq_of_lt (omega arith) in
    let start : ceil_div (0 + length stripes) n ≡ ceil_div (length stripes) n =
      ap (λ (c : ℕ). ceil_div c n) (omega arith) in
    let passes = total-eq-sum pass s.counts (omega (arith, all, none_pass, none_stop)) in
    let stops = total-eq-sum stop s.counts (omega (arith, all, none_pass, none_stop)) in
    (
      omega (arith, passes, accepted, first, start, none_pass),
      omega (arith, passes, stops, all, none_pass, none_stop),
    )
