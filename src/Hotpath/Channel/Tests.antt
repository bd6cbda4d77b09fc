-- ===== src/Hotpath/Channel/Tests.antt =====
-- The update queue on small runs, with numbers for points.
use anomstream.Prelude.{
  ℕ, ◌+◌, ◌≤◌, ◌≡◌, refl, Bool, true, List, [], ◌∷◌, ◌++◌, length, ◌==◌, arith,
}
use anomstream.Core.Error.{ok}
use anomstream.Hotpath.Striped
use anomstream.Hotpath.Channel.{
  Channel, try_update_channel, try_enqueue, try_drain, drain_from, enqueued_total, dropped_total,
}
use anomstream.Hotpath.Channel.Fifo.{Act, offer, drain, play, accepted, play_in_order}
use anomstream.Hotpath.Channel.Totals.{offers, play_totals}

abbrev fine : ℕ → Bool
fine p = p == 5

abbrev channel : Channel ℕ
channel = record { queue = []; capacity = 1; connected = true; counts = Striped.fresh }

abbrev acts : List (Act ℕ)
acts = offer 0 5 ∷ offer 1 6 ∷ drain ∷ offer 0 7 ∷ []

channel_new : try_update_channel 1 ≡ ok channel
unfolding try_update_channel
channel_new = refl

play_in_order_example :
    (play fine acts channel []).0 ++ (play fine acts channel []).1.queue
    ≡ accepted fine acts channel
play_in_order_example = play_in_order fine acts channel []

-- The second offer finds the queue full.
accepted-acts : accepted fine acts channel ≡ 5 ∷ 7 ∷ []
unfolding accepted try_enqueue try_drain drain_from
accepted-acts = refl

three_offers : offers acts ≡ 3
unfolding offers
three_offers = refl

play_totals_example :
    (length (play fine acts channel []).1.queue ≤ (play fine acts channel []).1.capacity)
    × (enqueued_total (play fine acts channel []).1 ≡ length (accepted fine acts channel))
    × (enqueued_total (play fine acts channel []).1 + dropped_total (play fine acts channel []).1
        ≡ offers acts)
play_totals_example =
    play_totals 1 channel fine acts [] channel_new (omega arith, (omega arith, (omega arith, tt)))
      (omega (arith, three_offers))
