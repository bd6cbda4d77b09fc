-- ===== src/Hotpath/RateCap/Called.antt =====
-- One call of `check_and_record` of hotpath/src/lib.rs, whatever the state of the window.
use anomstream.Prelude.{
  ℕ, ◌+◌, ◌-◌, ◌%◌, ◌≡◌, refl, Bool, false, ltb, ◌&&◌, ◌==◌, if◌then◌else◌, arith, Bool-cases, inl,
  inr, ◌∙◌, ap,
}
use anomstream.Word.{saturating_add64}
use anomstream.Hotpath.Striped.{Slot, pass, stop}
use anomstream.Hotpath.Striped
use anomstream.Hotpath.Sampler.{keyed_mix}
use anomstream.Hotpath.RateCap.{PrefixRateCap, roll, admit, check_and_record, bucket_of, open_at}
use anomstream.Hotpath.RateCap.Window.{load, IsBounded, roll_lem, check_and_record-Tried}

-- Whether a window was opened and the clock, shifted by one, is still in it.
abbrev pub lasts : ℕ → PrefixRateCap → Bool
lasts now_ms r =
    ltb 0 r.window_start_ms && ltb (saturating_add64 now_ms 1 - r.window_start_ms) r.window_ms

-- What the window leaves of a bucket.
abbrev pub left_in : ℕ → PrefixRateCap → ℕ → ℕ
left_in now_ms r b = if lasts now_ms r then load r b else 0

-- A call on the limiter `r`, which leaves `r'`.
pub record Called (stripe prefix_hash now_ms : ℕ) (r r' : PrefixRateCap) (admitted : Bool)
    : Type 0 where
  pub bounded : IsBounded r'
  pub verdict :
      admitted ≡ ltb (left_in now_ms r (keyed_mix r.bucket_key prefix_hash % 256)) r.cap_per_window
  pub loads :
      (b : ℕ)
      → load r' b
        ≡ left_in now_ms r b
          + (if keyed_mix r.bucket_key prefix_hash % 256 == b
              then (if admitted then 1 else 0)
              else 0)
  pub window :
      r'.window_start_ms ≡ (if lasts now_ms r then r.window_start_ms else saturating_add64 now_ms 1)
  pub counted : r'.counts ≡ Striped.count stripe (if admitted then pass else stop) r.counts
  pub same_length : r'.window_ms ≡ r.window_ms
  pub same_cap : r'.cap_per_window ≡ r.cap_per_window
  pub same_key : r'.bucket_key ≡ r.bucket_key

roll_rest :
    (now : ℕ) (r : PrefixRateCap)
    → ((roll now r).counts ≡ r.counts)
      × ((roll now r).window_ms ≡ r.window_ms)
      × ((roll now r).bucket_key ≡ r.bucket_key)
unfolding roll
roll_rest now r = elim (Bool-cases (open_at now r)) [
  | inl e ↦ rw e (refl, refl, refl)
  | inr e ↦ rw e (refl, refl, refl)
]

counts-admit :
    (stripe idx : ℕ) (r : PrefixRateCap)
    → (admit stripe idx r).1.counts
      ≡ Striped.count stripe (if (admit stripe idx r).0 then pass else stop) r.counts
unfolding admit
counts-admit stripe idx r = elim (Bool-cases (ltb (load r idx) r.cap_per_window)) [
  | inl e ↦ rw e refl
  | inr e ↦ rw e refl
]

counts-check_and_record :
    (stripe prefix_hash now_ms : ℕ) (r : PrefixRateCap)
    → IsBounded r
    → (check_and_record stripe prefix_hash now_ms r).1.counts
      ≡ Striped.count stripe
          (if (check_and_record stripe prefix_hash now_ms r).0 then pass else stop)
          r.counts
unfolding check_and_record
counts-check_and_record stripe prefix_hash now_ms r v =
    let on : (r.cap_per_window == 0) ≡ false = ground (arith, v.enabled) in
    let rolled = roll (saturating_add64 now_ms 1) r in
    rw on (
      counts-admit stripe (bucket_of rolled prefix_hash) rolled
      ∙ ap
          (λ c.
            Striped.count stripe
              (if (admit stripe (bucket_of rolled prefix_hash) rolled).0 then pass else stop) c)
          (roll_rest (saturating_add64 now_ms 1) r).0)

lasts-open_at :
    (now_ms : ℕ) (r : PrefixRateCap) → open_at (saturating_add64 now_ms 1) r ≡ lasts now_ms r
lasts-open_at now_ms r = ground arith

-- In a bounded limiter, with 256 buckets none of which is above a positive cap, a call admits
-- exactly if the bucket of the prefix, by the keyed hash modulo 256, is below the cap; it counts as
-- 0 if no window is open at the clock shifted by one. An admission adds one to that bucket; every
-- other bucket is as before, or 0 if no window was open. In that case the window starts now, and
-- else where it did. The counters get one event of the verdict's kind; the limiter stays bounded,
-- and its cap, length of window and key stay.
pub check_and_record-Called :
    (stripe prefix_hash now_ms : ℕ) (r : PrefixRateCap)
    → IsBounded r
    → Called stripe prefix_hash now_ms r
        (check_and_record stripe prefix_hash now_ms r).1
        (check_and_record stripe prefix_hash now_ms r).0
check_and_record-Called stripe prefix_hash now_ms r v =
    let tried = check_and_record-Tried stripe prefix_hash now_ms r v in
    let (v', rolled_loads, start, cap) = roll_lem (saturating_add64 now_ms 1) r v in
    let (counts, length', key) = roll_rest (saturating_add64 now_ms 1) r in
    let same = lasts-open_at now_ms r in
    let bucket : bucket_of (roll (saturating_add64 now_ms 1) r) prefix_hash
        ≡ keyed_mix r.bucket_key prefix_hash % 256 =
      ap (λ k. keyed_mix k prefix_hash % 256) key in
    let rolled : (b : ℕ) → load (roll (saturating_add64 now_ms 1) r) b ≡ left_in now_ms r b =
      λ b. rolled_loads b ∙ rw same refl in
    record {
      bounded = tried.bounded;
      verdict =
          tried.verdict ∙ rw (bucket, rolled (keyed_mix r.bucket_key prefix_hash % 256), cap) refl;
      loads = λ b. ground (arith, tried.loads b, bucket, rolled b);
      window = tried.same_window ∙ start ∙ rw same refl;
      counted = counts-check_and_record stripe prefix_hash now_ms r v;
      same_length = tried.same_length ∙ length';
      same_cap = tried.same_cap ∙ cap;
      same_key = tried.same_key ∙ key;
    }
