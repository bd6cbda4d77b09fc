-- ===== src/Hotpath/RateCap.antt =====
-- `PrefixRateCap` of hotpath/src/lib.rs: at most so many admissions for each bucket of prefixes in a
-- time window. This file has one call at a time; `Race` has a bucket under interleaved calls.
pub mod Window
pub mod Called
pub mod Total
pub mod Race
mod Tests
use anomstream.Prelude.{
  ℕ, ◌+◌, ◌-◌, ◌%◌, Bool, true, false, not, ◌&&◌, List, Option, none, some, get_or, set, replicate,
  ltb, ◌==◌, if◌then◌else◌,
}
use anomstream.Word.{wrapping_add32, wrapping_sub32, saturating_add64}
use anomstream.Hotpath.Striped
use anomstream.Hotpath.Striped.{StripedPair, pass, stop}
use anomstream.Hotpath.Sampler.{keyed_mix}

-- `BUCKETS`
abbrev pub bucket_count : ℕ
bucket_count = 256

pub record PrefixRateCap : Type 0 where
  pub buckets : List ℕ
  pub window_start_ms : ℕ
  pub window_ms : ℕ
  pub cap_per_window : ℕ
  pub bucket_key : Option (ℕ × ℕ)
  pub counts : StripedPair

pub build : ℕ → ℕ → Option (ℕ × ℕ) → PrefixRateCap
build cap_per_window window_ms bucket_key = record {
  buckets = replicate bucket_count 0;
  window_start_ms = 0;
  window_ms = window_ms;
  cap_per_window = cap_per_window;
  bucket_key = bucket_key;
  counts = Striped.fresh;
}

-- The arguments are `NonZero`; `disabled` passes 0 for the cap.
pub new : ℕ → ℕ → PrefixRateCap
unfolding build
new cap_per_window window_ms = build cap_per_window window_ms none

pub new_keyed_with_seeds : ℕ → ℕ → ℕ → ℕ → PrefixRateCap
unfolding build
new_keyed_with_seeds cap_per_window window_ms k0 k1 = build cap_per_window window_ms (some (k0, k1))

pub disabled : ℕ → PrefixRateCap
unfolding build
disabled window_ms = build 0 window_ms none

-- `start != 0 && now.saturating_sub(start) < window_ms`
abbrev pub open_at : ℕ → PrefixRateCap → Bool
open_at now r = not (r.window_start_ms == 0) && ltb (now - r.window_start_ms) r.window_ms

-- The loop at the head of `check_and_record`, with no other writer: the window is open, or the
-- exchange installs `now` and the buckets are zeroed.
pub roll : ℕ → PrefixRateCap → PrefixRateCap
roll now r =
    if open_at now r
    then r
    else record r { window_start_ms = now; buckets = replicate bucket_count 0 }

-- `(mixed as usize) & (BUCKETS - 1)`
abbrev pub bucket_of : PrefixRateCap → ℕ → ℕ
bucket_of r prefix_hash = keyed_mix r.bucket_key prefix_hash % bucket_count

abbrev pub tally : ℕ → Bool → PrefixRateCap → PrefixRateCap
tally stripe ok r = record r { counts = Striped.count stripe (if ok then pass else stop) r.counts }

-- `fetch_add`, the test, and `fetch_sub` where it fails.
pub admit : ℕ → ℕ → PrefixRateCap → Bool × PrefixRateCap
admit stripe idx r =
    let prior = get_or r.buckets idx 0 in
    let buckets' = set r.buckets idx (wrapping_add32 prior 1) in
    if ltb prior r.cap_per_window
    then (true, tally stripe true (record r { buckets = buckets' }))
    else (
      false,
      tally stripe false
          (record r { buckets = set buckets' idx (wrapping_sub32 (get_or buckets' idx 0) 1) }),
    )

pub check_and_record : ℕ → ℕ → ℕ → PrefixRateCap → Bool × PrefixRateCap
unfolding roll admit
check_and_record stripe prefix_hash now_ms r =
    if r.cap_per_window == 0
    then (true, tally stripe true r)
    else let r' = roll (saturating_add64 now_ms 1) r in admit stripe (bucket_of r' prefix_hash) r'

pub flush_metrics : PrefixRateCap → PrefixRateCap
flush_metrics r = record r { counts = Striped.flush stop (Striped.flush pass r.counts) }

pub admitted_total : PrefixRateCap → ℕ
admitted_total r = Striped.total pass r.counts

pub capped_total : PrefixRateCap → ℕ
capped_total r = Striped.total stop r.counts
