-- ===== src/Hotpath/Striped/Tests.antt =====
-- The striped counters on small runs.
use anomstream.Prelude.{
  ℕ, ◌+◌, ◌≤◌, ◌<◌, ◌^◌, ◌≡◌, refl, List, [], ◌∷◌, set, arith, replicate, ◌++◌,
}
use anomstream.Hotpath.Striped.{StripedPair, Slot, pass, stop, fresh, total, flush, count}
use anomstream.Hotpath.Striped.Sums.{sum, residue, units}
use anomstream.Hotpath.Striped.Ledger.{IsLedger}
use anomstream.Hotpath.Striped.Exact.{run, run_exact, events_on}

abbrev events : List (ℕ × Slot)
events = (3, pass) ∷ (4, stop) ∷ (3, pass) ∷ []

two_events : events_on pass events ≡ 2
unfolding events_on
two_events = omega arith

run_exact_example :
    (total pass (run events fresh) ≡ events_on pass events)
    × (units pass (run events fresh).sent ≤ total pass (run events fresh))
    × (total pass (run events fresh) ≤ units pass (run events fresh).sent + 1008)
run_exact_example =
    run_exact events pass (omega arith, (omega arith, (omega arith, tt)))
      (omega (arith, two_events))

-- 63 events on each of two stripes: none is sent.
abbrev two_stripes : List (ℕ × Slot)
two_stripes = replicate 63 (0, pass) ++ replicate 63 (1, pass)

two_stripes_total : total pass (run two_stripes fresh) ≡ 126
unfolding run count total
two_stripes_total = refl

two_stripes_sent : (run two_stripes fresh).sent ≡ []
unfolding run count total
two_stripes_sent = refl

-- Five events on stripe 0, none of them sent.
abbrev five : StripedPair
five = record fresh { stripes = set fresh.stripes 0 (record { passes = 5; stops = 0 }) }

five-IsLedger : IsLedger pass five
unfolding sum residue units
five-IsLedger = record { wide = refl; told = refl; ahead = omega arith; behind = omega arith }

five_small : sum pass five.stripes < 2 ^ 64
unfolding sum
five_small = omega arith

-- The sink is given the five.
five_sent : (flush pass five).sent ≡ (pass, 5) ∷ []
unfolding flush
five_sent = refl
