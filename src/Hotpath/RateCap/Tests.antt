-- ===== src/Hotpath/RateCap/Tests.antt =====
-- The limiter on small runs.
use anomstream.Prelude.{◌+◌, ◌-◌, ◌≤◌, ◌^◌, ◌≡◌, refl, [], ◌∷◌, none, min, set, replicate, arith}
use anomstream.Hotpath.Striped
use anomstream.Hotpath.RateCap.{PrefixRateCap, new, build, bucket_count, roll, check_and_record}
use anomstream.Hotpath.RateCap.Window.{IsBounded, load, new-IsBounded, roll_lem}
use anomstream.Hotpath.RateCap.Called.{Called, check_and_record-Called}
use anomstream.Hotpath.RateCap.Total.{Calls, admitted, offered, admitted-eq-min}
use anomstream.Hotpath.RateCap.Race.{
  Bucket, Reach, Runs, here, next, pass, undo, outside, refused, move, debt, zeroed,
  admitted-le-cap, late_undo,
}

-- At most two for each bucket in 1000 ms.
abbrev two : PrefixRateCap
two = new 2 1000

two-IsBounded : IsBounded two
two-IsBounded = new-IsBounded 2 1000 (omega arith) (omega arith)

check_and_record-Called_example :
    Called 0 300 6 two (check_and_record 0 300 6 two).1 (check_and_record 0 300 6 two).0
check_and_record-Called_example = check_and_record-Called 0 300 6 two two-IsBounded

abbrev opened : PrefixRateCap
opened = record {
  buckets = replicate bucket_count 0;
  window_start_ms = 7;
  window_ms = 1000;
  cap_per_window = 2;
  bucket_key = none;
  counts = Striped.fresh;
}

opened-roll : roll 7 two ≡ opened
unfolding roll new build
opened-roll = refl

opened-IsBounded : IsBounded opened
unfolding roll new build
opened-IsBounded = (roll_lem 7 two two-IsBounded).0

-- Three calls on bucket 44 and one on bucket 45.
abbrev four_calls : Calls
four_calls = (0, 300, 6) ∷ (1, 44, 9) ∷ (0, 45, 9) ∷ (2, 300, 500) ∷ []

admitted-eq-min_example :
    admitted 44 four_calls opened ≡ min (offered none 44 four_calls) (2 - load opened 44)
admitted-eq-min_example = admitted-eq-min 44 four_calls opened opened-IsBounded (
  omega arith,
  omega arith,
  (omega arith, omega arith, (omega arith, omega arith, (omega arith, omega arith, tt))),
)

-- Thread 0 was refused at the cap of 2 and has not undone its increment when the window rolls.
abbrev late : Bucket
late = record { cell = 3; pc = move (λ _. outside) 0 refused; admitted = 2 }

-- In the new window its `fetch_sub` frees a place, and thread 1 has three calls admitted.
three :
    Reach 2 2
      (record late { cell = 0; admitted = 0 })
      (record { cell = 2; pc = move (move (λ _. outside) 0 refused) 0 outside; admitted = 3 })
three =
    next
      (next (next (next here (pass 1 (omega arith) refl (omega arith))) (undo 0 (omega arith) refl))
        (pass 1 (omega arith) refl (omega arith)))
      (pass 1 (omega arith) refl (omega arith))

admitted-le-cap_example : 3 ≤ 2 + debt 2 late
admitted-le-cap_example = admitted-le-cap 2 2 {before = late} (omega arith) zeroed three

late_undo_example : (s : Bucket) × Runs 3 2 s × (s.cell ≡ 2 ^ 32 - 1) × (s.admitted ≡ 0)
late_undo_example = late_undo 3 2 (omega arith) (omega arith)

abbrev stuck : PrefixRateCap
stuck = record opened { buckets = set opened.buckets 1 (2 ^ 32 - 1) }
