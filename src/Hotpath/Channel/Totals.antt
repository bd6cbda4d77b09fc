-- ===== src/Hotpath/Channel/Totals.antt =====
-- The bound of the update queue and its counters over any run of offers and drains.
use anomstream.Prelude.{
  ℕ, suc, ◌+◌, ◌≤◌, ◌<◌, ◌^◌, ◌≡◌, refl, Bool, true, List, [], ◌∷◌, length, if◌then◌else◌, arith,
  Bool-cases, inl, inr, ◌∙◌, subst, dec_lt, ◌⊎◌, length-append,
}
use anomstream.Core.Error.{ok, err, invalid_config}
use anomstream.Hotpath.Striped.{Slot, pass, stop, stripe_count}
use anomstream.Hotpath.Striped
use anomstream.Hotpath.Striped.Sums.{sum, total-eq-sum}
use anomstream.Hotpath.Striped.Ledger.{IsLedger}
use anomstream.Hotpath.Striped.Exact.{count_any, fresh-IsLedger}
use anomstream.Hotpath.Channel.{
  Channel, has_room, try_enqueue, try_drain, try_update_channel, max_channel_capacity,
  enqueued_total, dropped_total,
}
use anomstream.Hotpath.Channel.Fifo.{Act, offer, drain, play, accepted}

module _ {P : Type 0} where
  unfoldable pub offers : List (Act P) → ℕ
  offers [] = 0
  offers (offer stripe p ∷ acts) = suc (offers acts)
  offers (drain ∷ acts) = offers acts

  abbrev pub OwnStripes : List (Act P) → Type 0
  OwnStripes [] = Unit {0}
  OwnStripes (offer stripe p ∷ acts) = (stripe < stripe_count) × OwnStripes acts
  OwnStripes (drain ∷ acts) = OwnStripes acts

  -- Bounded, with both counters in order: `given` points taken of `offered`.
  pub record IsTallied (c : Channel P) (given offered : ℕ) : Type 0 where
    pub bounded : length c.queue ≤ c.capacity
    pub passes : IsLedger pass c.counts
    pub stops : IsLedger stop c.counts
    pub taken : sum pass c.counts.stripes ≡ given
    pub refused : sum stop c.counts.stripes + given ≡ offered

  enqueue-IsTallied :
      (stripe : ℕ) (p : P) (c : Channel P) (g o : ℕ)
      → stripe < stripe_count
      → o + 1 < 2 ^ 64
      → IsTallied c g o
      → IsTallied
          (try_enqueue stripe p c).1
          (if (try_enqueue stripe p c).0 then g + 1 else g)
          (o + 1)
  unfolding try_enqueue
  enqueue-IsTallied stripe p c g o h w t = elim (Bool-cases (has_room c)) [
    | inl e ↦
        let (k, one) =
          count_any stripe pass pass c.counts h t.passes (omega (arith, t.taken, t.refused)) in
        let (k', same) = count_any stripe pass stop c.counts h t.stops (omega (arith, t.refused)) in
        rw e (record {
          bounded = ground (arith, e, length-append c.queue (p ∷ []));
          passes = k;
          stops = k';
          taken = omega (arith, one, t.taken);
          refused = omega (arith, same, t.refused);
        })
    | inr e ↦
        let (k, same) =
          count_any stripe stop pass c.counts h t.passes (omega (arith, t.taken, t.refused)) in
        let (k', one) = count_any stripe stop stop c.counts h t.stops (omega (arith, t.refused)) in
        rw e (record {
          bounded = t.bounded;
          passes = k;
          stops = k';
          taken = omega (arith, same, t.taken);
          refused = omega (arith, one, t.refused);
        })
  ]

  drained-IsTallied :
      (c : Channel P) (g o : ℕ) → IsTallied c g o → IsTallied (record c { queue = [] }) g o
  drained-IsTallied c g o t = record {
    bounded = omega arith;
    passes = t.passes;
    stops = t.stops;
    taken = t.taken;
    refused = t.refused;
  }

  recount : {c : Channel P} {g g' o o' : ℕ} → g ≡ g' → o ≡ o' → IsTallied c g o → IsTallied c g' o'
  recount e e' t = record {
    bounded = t.bounded;
    passes = t.passes;
    stops = t.stops;
    taken = t.taken ∙ e;
    refused = omega (arith, t.refused, e, e');
  }

  play-IsTallied :
      (fine : P → Bool) (acts : List (Act P)) (c : Channel P) (log : List P) (g o : ℕ)
      → OwnStripes acts
      → o + offers acts < 2 ^ 64
      → IsTallied c g o
      → IsTallied (play fine acts c log).1 (g + length (accepted fine acts c)) (o + offers acts)
  unfolding play accepted try_drain offers
  play-IsTallied fine [] c log g o h w t = recount (omega arith) (omega arith) t
  play-IsTallied fine (offer stripe p ∷ acts) c log g o h w t =
      let (took, c') = try_enqueue stripe p c in
      recount (ground arith) (omega arith) (
        play-IsTallied fine acts c' log (if took then g + 1 else g) (o + 1) h.1 (omega arith)
          (enqueue-IsTallied stripe p c g o h.0 (omega arith) t))
  play-IsTallied fine (drain ∷ acts) c log g o h w t =
      play-IsTallied fine acts (record c { queue = [] }) _ g o h w (drained-IsTallied c g o t)

  abbrev fresh_channel : ℕ → Channel P
  fresh_channel capacity = record {
    queue = [];
    capacity = capacity;
    connected = true;
    counts = Striped.fresh;
  }

  fresh_channel-IsTallied : (capacity : ℕ) → IsTallied (fresh_channel capacity) 0 0
  fresh_channel-IsTallied capacity =
      let (p, none_yet) = fresh-IsLedger pass in
      let (q, none_lost) = fresh-IsLedger stop in
      record {
        bounded = omega arith;
        passes = p;
        stops = q;
        taken = none_yet;
        refused = omega (arith, none_lost);
      }

  -- The constructor fails only on a capacity of 0 or above 2^20, and otherwise gives an empty
  -- queue of that capacity whose counters are at 0.
  pub try_update_channel_lem :
      (capacity : ℕ)
      → ((try_update_channel {P = P} capacity ≡ err invalid_config)
          × ((capacity ≡ 0) ⊎ (max_channel_capacity < capacity)))
        ⊎ ((c : Channel P) × (try_update_channel capacity ≡ ok c)
            × (c.capacity ≡ capacity)
            × (c.queue ≡ [])
            × IsTallied c 0 0)
  unfolding try_update_channel
  try_update_channel_lem capacity = elim (dec_lt 0 capacity) [
    | no p ↦ inl (ground arith, inl (omega arith))
    | yes p ↦ elim (dec_lt max_channel_capacity capacity) [
      | yes q ↦ inl (ground arith, inr q)
      | no q ↦
          inr (fresh_channel capacity, ground arith, refl, refl, fresh_channel-IsTallied capacity)
    ]
  ]

  fresh-IsTallied :
      (capacity : ℕ) (c : Channel P) → try_update_channel capacity ≡ ok c → IsTallied c 0 0
  fresh-IsTallied capacity c e = elim (try_update_channel_lem capacity) [
    | inl (refused, _) ↦ cc
    | inr (c', made, _, _, t) ↦ let same : c' ≡ c = cc in subst (λ x. IsTallied x 0 0) same t
  ]

  -- From a new channel, over any run of fewer than 2^64 offers, by threads of stripes below 16,
  -- and of drains: the queue is no longer than the capacity, `enqueued_total` is the number of
  -- accepted offers, and it and `dropped_total` are together the number of offers.
  pub play_totals :
      (capacity : ℕ) (c : Channel P) (fine : P → Bool) (acts : List (Act P)) (log : List P)
      → try_update_channel capacity ≡ ok c
      → OwnStripes acts
      → offers acts < 2 ^ 64
      → (length (play fine acts c log).1.queue ≤ (play fine acts c log).1.capacity)
        × (enqueued_total (play fine acts c log).1 ≡ length (accepted fine acts c))
        × (enqueued_total (play fine acts c log).1 + dropped_total (play fine acts c log).1
            ≡ offers acts)
  unfolding enqueued_total dropped_total
  play_totals capacity c fine acts log e h w =
      let t = play-IsTallied fine acts c log 0 0 h (omega arith) (fresh-IsTallied capacity c e) in
      let c' = (play fine acts c log).1 in
      let all = total-eq-sum pass c'.counts (omega (arith, t.taken, t.refused)) in
      let none_ = total-eq-sum stop c'.counts (omega (arith, t.refused)) in
      (t.bounded, omega (arith, all, t.taken), omega (arith, all, none_, t.taken, t.refused))
