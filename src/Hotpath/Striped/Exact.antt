-- ===== src/Hotpath/Striped/Exact.antt =====
-- The counters of hotpath/src/lib.rs over a whole run.
use anomstream.Prelude.{
  ℕ, ◌+◌, ◌%◌, ◌^◌, ◌≤◌, ◌<◌, ◌≡◌, refl, true, false, List, [], ◌∷◌, get_or, ◌==◌, if◌then◌else◌,
  arith, length-set, Bool-cases, inl, inr, ap, ◌∙◌,
}
use anomstream.Hotpath.Striped.{
  StripedPair, PaddedPair, Slot, pass, stop, at, with_at, zeros, fresh, total, count, batch_size,
  stripe_count,
}
use anomstream.Hotpath.Striped.Sums.{
  sum, residue, units, same_slot, bumped, total-eq-sum, residue-le, at-with_at_ne, sum-set,
  residue-set,
}
use anomstream.Hotpath.Striped.Ledger.{IsLedger, flush-IsLedger_ne, count-Counted, next_of}

-- An event on one slot leaves the other slot's invariant and number alone.
count_other :
    (stripe : ℕ) (slot other : Slot) (c : StripedPair)
    → same_slot other slot ≡ false
    → stripe < stripe_count
    → IsLedger other c
    → IsLedger other (count stripe slot c)
      × (sum other (count stripe slot c).stripes ≡ sum other c.stripes)
unfolding count
count_other stripe slot other c ne h l =
    elim (Bool-cases (next_of stripe slot c % batch_size == 0)) [
      | inl e ↦ rw e (
          let (k, same) = flush-IsLedger_ne slot other c' ne kept in
          (k, ap (sum other) same ∙ same_sum))
      | inr e ↦ rw e (kept, same_sum)
    ]
  where
    c' : StripedPair
    c' = bumped stripe slot c

    q : PaddedPair
    q = with_at slot (next_of stripe slot c) (get_or c.stripes stripe zeros)

    untouched : at other q ≡ at other (get_or c.stripes stripe zeros)
    untouched = at-with_at_ne slot other (next_of stripe slot c) (get_or c.stripes stripe zeros) ne

    same_sum : sum other c'.stripes ≡ sum other c.stripes
    same_sum = omega (arith, sum-set other c.stripes stripe q (omega (arith, l.wide)), untouched)

    same_residue : residue other c'.stripes ≡ residue other c.stripes
    same_residue =
        omega (arith, residue-set other c.stripes stripe q (omega (arith, l.wide)), untouched)

    kept : IsLedger other c'
    kept = record {
      wide = length-set c.stripes stripe q ∙ l.wide;
      told = l.told;
      ahead = omega (arith, l.ahead, same_sum);
      behind = omega (arith, l.behind, same_sum, same_residue);
    }

same_slot-eq : (a b : Slot) → same_slot a b ≡ true → a ≡ b
same_slot-eq pass pass e = refl
same_slot-eq pass stop e = cc
same_slot-eq stop pass e = cc
same_slot-eq stop stop e = refl

-- One event, seen from either slot.
pub count_any :
    (stripe : ℕ) (s slot : Slot) (c : StripedPair)
    → stripe < stripe_count
    → IsLedger slot c
    → sum slot c.stripes + (if same_slot slot s then 1 else 0) < 2 ^ 64
    → IsLedger slot (count stripe s c)
      × (sum slot (count stripe s c).stripes
          ≡ sum slot c.stripes + (if same_slot slot s then 1 else 0))
count_any stripe s slot c h l w = elim (Bool-cases (same_slot slot s)) [
  | inl e ↦ rw (e, ← same_slot-eq slot s e) (count-Counted stripe slot c h l (rw e at w))
  | inr e ↦ let (k, same) = count_other stripe s slot c e h l in (k, rw e (omega (arith, same)))
]

-- Calls of `record`, each by a thread of some stripe.
unfoldable pub run : List (ℕ × Slot) → StripedPair → StripedPair
run [] c = c
run ((stripe, slot) ∷ events) c = run events (count stripe slot c)

unfoldable pub events_on : Slot → List (ℕ × Slot) → ℕ
events_on slot [] = 0
events_on slot ((stripe, s) ∷ events) = (if same_slot slot s then 1 else 0) + events_on slot events

abbrev pub AllStripes : List (ℕ × Slot) → Type 0
AllStripes [] = Unit {0}
AllStripes ((stripe, s) ∷ events) = (stripe < stripe_count) × AllStripes events

run-IsLedger :
    (events : List (ℕ × Slot)) (slot : Slot) (c : StripedPair)
    → AllStripes events
    → IsLedger slot c
    → sum slot c.stripes + events_on slot events < 2 ^ 64
    → IsLedger slot (run events c)
      × (sum slot (run events c).stripes ≡ sum slot c.stripes + events_on slot events)
unfolding run events_on
run-IsLedger [] slot c h l w = (l, omega arith)
run-IsLedger ((stripe, s) ∷ events) slot c h l w =
    let (k, one) = count_any stripe s slot c h.0 l (omega arith) in
    let (l', rest) = run-IsLedger events slot (count stripe s c) h.1 k (omega (arith, one)) in
    (l', omega (arith, one, rest))

pub fresh-IsLedger : (slot : Slot) → IsLedger slot fresh × (sum slot fresh.stripes ≡ 0)
unfolding units sum residue
fresh-IsLedger pass = ground arith
fresh-IsLedger stop = ground arith

-- From the start, over any run of events by threads of stripes below 16, with fewer than 2^64 on
-- a slot: the total of the slot is the number of its events, the sink was never given more than
-- that, and it lacks at most 1008, which is 63 for each stripe.
pub run_exact :
    (events : List (ℕ × Slot)) (slot : Slot)
    → AllStripes events
    → events_on slot events < 2 ^ 64
    → (total slot (run events fresh) ≡ events_on slot events)
      × (units slot (run events fresh).sent ≤ total slot (run events fresh))
      × (total slot (run events fresh) ≤ units slot (run events fresh).sent + 1008)
run_exact events slot h w =
    let (l, none_yet) = fresh-IsLedger slot in
    let (l', exact) = run-IsLedger events slot fresh h l (omega (arith, none_yet)) in
    let same : total slot (run events fresh) ≡ sum slot (run events fresh).stripes =
      total-eq-sum slot (run events fresh) (omega (arith, exact, none_yet)) in
    (
      omega (arith, same, exact, none_yet),
      omega (arith, same, l'.told, l'.ahead),
      omega (arith, same, l'.told, l'.behind, l'.wide, residue-le slot (run events fresh).stripes),
    )
