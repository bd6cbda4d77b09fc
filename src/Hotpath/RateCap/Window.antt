-- ===== src/Hotpath/RateCap/Window.antt =====
-- Calls of `check_and_record` one after the other: what a bucket admits in a window.
use anomstream.Prelude.{
  ℕ, zero, suc, ◌+◌, ◌^◌, ◌≤◌, ◌<◌, ◌≡◌, refl, Bool, false, List, length, get_or, set, replicate,
  ltb, ◌==◌, if◌then◌else◌, arith, Bool-cases, inl, inr, ◌∙◌, sym, length-set, length-replicate,
  get_or-set, ==_iff,
}
use anomstream.Word.{wrapping_add32, wrapping_sub32, saturating_add64}
use anomstream.Hotpath.RateCap.{
  new, build, PrefixRateCap, bucket_count, open_at, roll, bucket_of, admit, check_and_record,
}

abbrev pub load : PrefixRateCap → ℕ → ℕ
load r b = get_or r.buckets b 0

-- 256 buckets, none above the cap, which is a `u32` and not 0.
pub record IsBounded (r : PrefixRateCap) : Type 0 where
  pub wide : length r.buckets ≡ bucket_count
  pub enabled : 0 < r.cap_per_window
  pub word : r.cap_per_window < 2 ^ 32
  pub within : (b : ℕ) → load r b ≤ r.cap_per_window

-- What one call does to a limiter whose window is open: `r` before, `r'` after.
pub record Tried (r r' : PrefixRateCap) (idx : ℕ) (admitted : Bool) : Type 0 where
  pub bounded : IsBounded r'
  pub verdict : admitted ≡ ltb (load r idx) r.cap_per_window
  pub loads :
      (b : ℕ)
      → load r' b ≡ (if idx == b then (if admitted then load r b + 1 else load r b) else load r b)
  pub same_window : r'.window_start_ms ≡ r.window_start_ms
  pub same_length : r'.window_ms ≡ r.window_ms
  pub same_cap : r'.cap_per_window ≡ r.cap_per_window
  pub same_key : r'.bucket_key ≡ r.bucket_key

module _ (idx : ℕ) (r : PrefixRateCap) (v : IsBounded r) (h : idx < bucket_count) where
  abbrev taken : List ℕ
  taken = set r.buckets idx (wrapping_add32 (load r idx) 1)

  abbrev put_back : List ℕ
  put_back = set taken idx (wrapping_sub32 (get_or taken idx 0) 1)

  loads-taken :
      (b : ℕ)
      → load r idx < r.cap_per_window
      → get_or taken b 0 ≡ (if idx == b then load r b + 1 else load r b)
  loads-taken b p = ground (
    arith,
    get_or-set r.buckets idx b (wrapping_add32 (load r idx) 1) 0 (omega (arith, v.wide)),
    v.word,
    ==_iff idx b,
  )

  loads-put_back : (b : ℕ) → get_or put_back b 0 ≡ load r b
  loads-put_back b = ground (
    arith,
    get_or-set taken idx b (wrapping_sub32 (get_or taken idx 0) 1) 0
        (omega (arith, v.wide, length-set r.buckets idx (wrapping_add32 (load r idx) 1))),
    get_or-set r.buckets idx b (wrapping_add32 (load r idx) 1) 0 (omega (arith, v.wide)),
    get_or-set r.buckets idx idx (wrapping_add32 (load r idx) 1) 0 (omega (arith, v.wide)),
    v.word,
    v.within idx,
    ==_iff idx b,
  )

admit-Tried :
    (stripe idx : ℕ) (r : PrefixRateCap)
    → IsBounded r
    → idx < bucket_count
    → Tried r (admit stripe idx r).1 idx (admit stripe idx r).0
unfolding admit
admit-Tried stripe idx r v h = elim (Bool-cases (ltb (load r idx) r.cap_per_window)) [
  | inl e ↦ rw e (record {
    bounded = record {
      wide = length-set r.buckets idx _ ∙ v.wide;
      enabled = v.enabled;
      word = v.word;
      within = λ b. ground (arith, loads-taken idx r v h b, v.within b, ==_iff idx b);
    };
    verdict = sym e;
    loads = λ b. loads-taken idx r v h b (ground arith);
    same_window = refl;
    same_length = refl;
    same_cap = refl;
    same_key = refl;
  })
  | inr e ↦ rw e (record {
    bounded = record {
      wide = length-set (taken idx r v h) idx _ ∙ length-set r.buckets idx _ ∙ v.wide;
      enabled = v.enabled;
      word = v.word;
      within = λ b. omega (arith, loads-put_back idx r v h b, v.within b);
    };
    verdict = sym e;
    loads = λ b. ground (arith, loads-put_back idx r v h b);
    same_window = refl;
    same_length = refl;
    same_cap = refl;
    same_key = refl;
  })
]

get_or-replicate : (n b : ℕ) → get_or {A = ℕ} (replicate n 0) b 0 ≡ 0
get_or-replicate zero b = refl
get_or-replicate (suc n) zero = refl
get_or-replicate (suc n) (suc b) = get_or-replicate n b

-- A new limiter.
pub new-IsBounded :
    (cap_per_window window_ms : ℕ)
    → 0 < cap_per_window
    → cap_per_window < 2 ^ 32
    → IsBounded (new cap_per_window window_ms)
unfolding new build
new-IsBounded c w h q = record {
  wide = length-replicate {A = ℕ} bucket_count 0;
  enabled = h;
  word = q;
  within = λ b. omega (arith, get_or-replicate bucket_count b);
}

-- In a bounded limiter, with 256 buckets none of which is above a positive cap, a roll leaves an
-- open window and its buckets as they are, and replaces a closed one by a window that starts now
-- with empty buckets; the limiter stays bounded and its cap stays.
pub roll_lem :
    (now : ℕ) (r : PrefixRateCap)
    → IsBounded r
    → IsBounded (roll now r)
      × ((b : ℕ) → load (roll now r) b ≡ (if open_at now r then load r b else 0))
      × ((roll now r).window_start_ms ≡ (if open_at now r then r.window_start_ms else now))
      × ((roll now r).cap_per_window ≡ r.cap_per_window)
unfolding roll
roll_lem now r v = elim (Bool-cases (open_at now r)) [
  | inl e ↦ rw e (v, λ b. refl, refl, refl)
  | inr e ↦ rw e (
    record {
      wide = length-replicate {A = ℕ} bucket_count 0;
      enabled = v.enabled;
      word = v.word;
      within = λ b. omega (arith, get_or-replicate bucket_count b);
    },
    λ b. get_or-replicate bucket_count b,
    refl,
    refl,
  )
]

-- After the roll, the call on the bucket.
pub check_and_record-Tried :
    (stripe prefix_hash now_ms : ℕ) (r : PrefixRateCap)
    → IsBounded r
    → let rolled = roll (saturating_add64 now_ms 1) r in
      let (admitted, r') = check_and_record stripe prefix_hash now_ms r in
      Tried rolled r' (bucket_of rolled prefix_hash) admitted
unfolding check_and_record
check_and_record-Tried stripe prefix_hash now_ms r v =
    let on : (r.cap_per_window == 0) ≡ false = ground (arith, v.enabled) in
    let (v', loads, start, same) = roll_lem (saturating_add64 now_ms 1) r v in
    rw on (
      admit-Tried stripe (bucket_of (roll (saturating_add64 now_ms 1) r) prefix_hash)
        (roll (saturating_add64 now_ms 1) r) v' (omega arith))
