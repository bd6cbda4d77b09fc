-- ===== src/Hotpath/RateCap/Total.antt =====
-- A whole window of calls.
use anomstream.Prelude.{
  ℕ, ◌+◌, ◌-◌, ◌%◌, ◌<◌, ◌≡◌, List, [], ◌∷◌, Option, ◌==◌, if◌then◌else◌, arith, min, ap, subst,
  ==_iff,
}
use anomstream.Word.{saturating_add64}
use anomstream.Hotpath.Sampler.{keyed_mix}
use anomstream.Hotpath.RateCap.{PrefixRateCap, roll, bucket_of, bucket_count, check_and_record}
use anomstream.Hotpath.RateCap.Window.{load, IsBounded, Tried, check_and_record-Tried}

-- A call: its thread's stripe, the hash of the prefix and the clock.
abbrev pub Calls : Type 0
Calls = List (ℕ × ℕ × ℕ)

-- Every call falls in the window that opened at `start` and lasts `len`.
abbrev pub InWindow : ℕ → ℕ → Calls → Type 0
InWindow start len [] = Unit {0}
InWindow start len ((stripe, h, now) ∷ calls) =
    (0 < start) × (saturating_add64 now 1 - start < len) × InWindow start len calls

-- How many of the calls go to bucket `b`, and how many of those are admitted.
pub offered : Option (ℕ × ℕ) → ℕ → Calls → ℕ
offered key b [] = 0
offered key b ((stripe, h, now) ∷ calls) =
    (if keyed_mix key h % bucket_count == b then 1 else 0) + offered key b calls

pub admitted : ℕ → Calls → PrefixRateCap → ℕ
admitted b [] r = 0
admitted b ((stripe, h, now) ∷ calls) r =
    let (ok, r') = check_and_record stripe h now r in
    (if bucket_of r h == b then (if ok then 1 else 0) else 0) + admitted b calls r'

roll_open :
    (now : ℕ) (r : PrefixRateCap)
    → 0 < r.window_start_ms
    → now - r.window_start_ms < r.window_ms
    → roll now r ≡ r
unfolding roll
roll_open now r p q = ground arith

check-open :
    (stripe h now : ℕ) (r : PrefixRateCap)
    → IsBounded r
    → 0 < r.window_start_ms
    → saturating_add64 now 1 - r.window_start_ms < r.window_ms
    → Tried r
        (check_and_record stripe h now r).1
        (bucket_of r h)
        (check_and_record stripe h now r).0
check-open stripe h now r v p q =
    subst
      (λ (t : PrefixRateCap).
        Tried t (check_and_record stripe h now r).1 (bucket_of t h)
          (check_and_record stripe h now r).0)
      (roll_open (saturating_add64 now 1) r p q) (check_and_record-Tried stripe h now r v)

-- In a bounded limiter, over calls that all fall in the window that is open, the number of
-- admissions on a bucket is the smaller of the calls to that bucket and of what was left of its
-- cap.
pub admitted-eq-min :
    (b : ℕ) (calls : Calls) (r : PrefixRateCap)
    → IsBounded r
    → InWindow r.window_start_ms r.window_ms calls
    → admitted b calls r ≡ min (offered r.bucket_key b calls) (r.cap_per_window - load r b)
unfolding admitted offered
admitted-eq-min b [] r v w = omega arith
admitted-eq-min b ((stripe, h, now) ∷ calls) r v w =
    let tried = check-open stripe h now r v w.0 w.1 in
    let r' = (check_and_record stripe h now r).1 in
    let rest =
      admitted-eq-min b calls r' tried.bounded (rw (tried.same_window, tried.same_length) w.2) in
    ground (
      arith,
      rest,
      ap (λ (k : Option (ℕ × ℕ)). offered k b calls) tried.same_key,
      tried.verdict,
      tried.loads b,
      tried.same_cap,
      v.within b,
      ==_iff (bucket_of r h) b,
    )
