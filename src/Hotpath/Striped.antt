-- ===== src/Hotpath/Striped.antt =====
-- `StripedPair` of hotpath/src/lib.rs: two lifetime counters spread over stripes, and what of them
-- the metrics sink has been told. Calls run one at a time.
pub mod Sums
pub mod Ledger
pub mod Exact
mod Tests
use anomstream.Prelude.{
  ℕ, ◌+◌, ◌-◌, ◌%◌, Bool, true, false, List, [], ◌∷◌, get_or, set, replicate, ltb, ◌==◌,
  if◌then◌else◌,
}
use anomstream.Word.{wrapping_add64}

-- `METRICS_BATCH_SIZE`
abbrev pub batch_size : ℕ
batch_size = 64

-- `STRIPES`
abbrev pub stripe_count : ℕ
stripe_count = 16

-- `stripe_index` on a thread's first call: its stripe, and the next state of the static counter.
pub stripe_index : ℕ → ℕ × ℕ
stripe_index next = (next % stripe_count, wrapping_add64 next 1)

pub data Slot : Type 0 where
  pass stop : Slot

-- `counts[slot]` for the two slots
pub record PaddedPair : Type 0 where
  pub passes : ℕ
  pub stops : ℕ

abbrev pub zeros : PaddedPair
zeros = record { passes = 0; stops = 0 }

abbrev pub at : Slot → PaddedPair → ℕ
at pass p = p.passes
at stop p = p.stops

abbrev pub with_at : Slot → ℕ → PaddedPair → PaddedPair
with_at pass n p = record p { passes = n }
with_at stop n p = record p { stops = n }

-- The pair with its sink: `sent` is what `inc_counter` has been given, newest call first. Each slot
-- has a metric of its own, so the slot stands for its name.
pub record StripedPair : Type 0 where
  pub stripes : List PaddedPair
  pub flushed : PaddedPair
  pub sent : List (Slot × ℕ)

-- `StripedPair::default()`
abbrev pub fresh : StripedPair
fresh = record { stripes = replicate stripe_count zeros; flushed = zeros; sent = [] }

pub sum_from : Slot → ℕ → List PaddedPair → ℕ
sum_from slot acc [] = acc
sum_from slot acc (p ∷ stripes) = sum_from slot (wrapping_add64 acc (at slot p)) stripes

pub total : Slot → StripedPair → ℕ
unfolding sum_from
total slot c = sum_from slot 0 c.stripes

-- With no other writer the exchange of the loop ends it: an exchange that fails for no reason sees
-- the same `prev` again.
pub flush : Slot → StripedPair → StripedPair
unfolding total
flush slot c =
    let now = total slot c in
    let prev = at slot c.flushed in
    if ltb prev now
    then record c { flushed = with_at slot now c.flushed; sent = (slot, now - prev) ∷ c.sent }
    else c

-- The method `record`, called by a thread whose stripe is `stripe`.
pub count : ℕ → Slot → StripedPair → StripedPair
count stripe slot c =
    let p = get_or c.stripes stripe zeros in
    let next = wrapping_add64 (at slot p) 1 in
    let c' = record c { stripes = set c.stripes stripe (with_at slot next p) } in
    if next % batch_size == 0 then flush slot c' else c'
