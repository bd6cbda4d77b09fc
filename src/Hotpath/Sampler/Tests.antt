-- ===== src/Hotpath/Sampler/Tests.antt =====
-- The sampler on small runs.
use anomstream.Prelude.{◌+◌, ◌≡◌, refl, [], ◌∷◌, arith}
use anomstream.Hotpath.SipHash.{siphash_u64, absorb, rounds, sip_round}
use anomstream.Hotpath.Sampler.{
  new, new_keyed_with_seeds, accept_hash, accepted_total, rejected_total,
}
use anomstream.Hotpath.Sampler.Stride.{offer, offer_totals, ceil_div}
use anomstream.Hotpath.Sampler.Flow.{by_stride, by_hash, flushing, play, accept_hash-play}

-- Five offers, kept one in two: three are accepted.
offer_totals_example :
    (accepted_total (offer (0 ∷ 1 ∷ 2 ∷ 0 ∷ 1 ∷ []) (new 2)) ≡ ceil_div 5 2)
    × (accepted_total (offer (0 ∷ 1 ∷ 2 ∷ 0 ∷ 1 ∷ []) (new 2))
          + rejected_total (offer (0 ∷ 1 ∷ 2 ∷ 0 ∷ 1 ∷ []) (new 2))
        ≡ 5)
offer_totals_example =
    offer_totals 2 (0 ∷ 1 ∷ 2 ∷ 0 ∷ 1 ∷ []) (omega arith)
      (omega arith, (omega arith, (omega arith, (omega arith, (omega arith, tt))))) (omega arith)

accept_hash-play_example :
    (accept_hash 3 77
      (play (by_stride 1 ∷ by_hash 2 8 ∷ flushing ∷ []) (new_keyed_with_seeds 4 1 2))).0
    ≡ (accept_hash 9 77 (new_keyed_with_seeds 4 1 2)).0
accept_hash-play_example =
    accept_hash-play (by_stride 1 ∷ by_hash 2 8 ∷ flushing ∷ []) (new_keyed_with_seeds 4 1 2) 3 9 77

-- The vector of SipHash-2-4 for the key 00 .. 0f and the message 00 .. 07.
siphash24_vector :
    siphash_u64 2 4 0x0706_0504_0302_0100 0x0f0e_0d0c_0b0a_0908 0x0706_0504_0302_0100
    ≡ 0x93f5_f579_9a93_2462
unfolding siphash_u64 absorb rounds sip_round
siphash24_vector = refl
