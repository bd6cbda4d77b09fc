-- ===== src/Hotpath/Striped/Ledger.antt =====
-- The invariant of the counters of hotpath/src/lib.rs: what was counted, what was sent, what is left.
use anomstream.Prelude.{
  ℕ, ◌+◌, ◌%◌, ◌^◌, ◌≤◌, ◌<◌, ◌≡◌, false, length, get_or, ◌==◌, arith, length-set, Bool-cases, inl,
  inr, ap, ◌∙◌,
}
use anomstream.Word.{wrapping_add64}
use anomstream.Hotpath.Striped.{
  StripedPair, Slot, pass, stop, at, zeros, flush, count, batch_size, stripe_count,
}
use anomstream.Hotpath.Striped.Sums.{
  sum, residue, units, same_slot, total-eq-sum, bumped, sum-bumped, residue-bumped,
}

-- The invariant of one slot.
pub record IsLedger (slot : Slot) (c : StripedPair) : Type 0 where
  pub wide : length c.stripes ≡ stripe_count
  pub told : units slot c.sent ≡ at slot c.flushed
  pub ahead : at slot c.flushed ≤ sum slot c.stripes
  pub behind : sum slot c.stripes ≤ at slot c.flushed + residue slot c.stripes

-- A flush sends exactly what was unsent, whatever that was.
pub flush_all :
    (slot : Slot) (c : StripedPair)
    → length c.stripes ≡ stripe_count
    → units slot c.sent ≡ at slot c.flushed
    → at slot c.flushed ≤ sum slot c.stripes
    → sum slot c.stripes < 2 ^ 64
    → IsLedger slot (flush slot c)
      × (units slot (flush slot c).sent ≡ sum slot c.stripes)
      × ((flush slot c).stripes ≡ c.stripes)
unfolding flush units
flush_all pass c wide told ahead h = ground (arith, total-eq-sum pass c h)
flush_all stop c wide told ahead h = ground (arith, total-eq-sum stop c h)

-- A flush of one slot is nothing to the other.
pub flush-IsLedger_ne :
    (slot other : Slot) (c : StripedPair)
    → same_slot other slot ≡ false
    → IsLedger other c
    → IsLedger other (flush slot c) × ((flush slot c).stripes ≡ c.stripes)
unfolding flush units
flush-IsLedger_ne pass pass c e l = cc
flush-IsLedger_ne pass stop c e l = ground arith
flush-IsLedger_ne stop pass c e l = ground arith
flush-IsLedger_ne stop stop c e l = cc

abbrev pub next_of : ℕ → Slot → StripedPair → ℕ
next_of stripe slot c = wrapping_add64 (at slot (get_or c.stripes stripe zeros)) 1

pub count-Counted :
    (stripe : ℕ) (slot : Slot) (c : StripedPair)
    → stripe < stripe_count
    → IsLedger slot c
    → sum slot c.stripes + 1 < 2 ^ 64
    → IsLedger slot (count stripe slot c)
      × (sum slot (count stripe slot c).stripes ≡ sum slot c.stripes + 1)
unfolding count
count-Counted stripe slot c h l w = elim (Bool-cases (next_of stripe slot c % batch_size == 0)) [
  | inl e ↦ rw e (
      let (l', all, same) =
        flush_all slot c' wide l.told (omega (arith, one_more, l.ahead))
          (omega (arith, one_more, w)) in
      (l', ap (sum slot) same ∙ one_more))
  | inr e ↦ rw e (
    record {
      wide = wide;
      told = l.told;
      ahead = omega (arith, one_more, l.ahead);
      behind =
          omega (arith, one_more, l.behind, residue-bumped stripe slot c below w (ground arith));
    },
    one_more,
  )
]
  where
    c' : StripedPair
    c' = bumped stripe slot c

    below : stripe < length c.stripes
    below = omega (arith, l.wide)

    wide : length c'.stripes ≡ stripe_count
    wide = length-set c.stripes stripe _ ∙ l.wide

    one_more : sum slot c'.stripes ≡ sum slot c.stripes + 1
    one_more = sum-bumped stripe slot c below w
