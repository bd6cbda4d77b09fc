-- ===== src/Hotpath/Channel.antt =====
-- The update queue of hotpath/src/lib.rs: `UpdateProducer`, `UpdateConsumer` and the constructors of
-- the channel. The standard library's `sync_channel` is a FIFO of bounded length; points are of any
-- type.
pub mod Fifo
pub mod Totals
mod Tests
use anomstream.Prelude.{
  ℕ, suc, ◌+◌, ◌^◌, Bool, true, false, ◌&&◌, List, [], ◌∷◌, ◌++◌, length, Option, none, some, ltb,
  ◌==◌, if◌then◌else◌,
}
use anomstream.Core.Error.{RcfResult, ok, err, invalid_config}
use anomstream.Hotpath.Striped
use anomstream.Hotpath.Striped.{StripedPair, pass, stop}

-- `MAX_CHANNEL_CAPACITY`
abbrev pub max_channel_capacity : ℕ
max_channel_capacity = 2 ^ 20

-- Both ends over one queue: producers share `counts`; `connected` says that the consumer lives.
pub record Channel (P : Type 0) : Type 0 where
  pub queue : List P
  pub capacity : ℕ
  pub connected : Bool
  pub counts : StripedPair

module _ {P : Type 0} where
  -- `try_update_channel_with_sink`
  pub try_update_channel : ℕ → RcfResult (Channel P)
  try_update_channel capacity =
      if capacity == 0
      then err invalid_config
      else if ltb max_channel_capacity capacity
      then err invalid_config
      else ok (record { queue = []; capacity = capacity; connected = true; counts = Striped.fresh })

  -- `SyncSender::try_send` succeeds if the receiver lives and there is room.
  abbrev pub has_room : Channel P → Bool
  has_room c = c.connected && ltb (length c.queue) c.capacity

  pub try_enqueue : ℕ → P → Channel P → Bool × Channel P
  try_enqueue stripe point c =
      if has_room c
      then (
        true,
        record c { queue = c.queue ++ (point ∷ []); counts = Striped.count stripe pass c.counts },
      )
      else (false, record c { counts = Striped.count stripe stop c.counts })

  -- The loop of `try_drain`; `sink` is the closure with the state that it captures, and answers
  -- whether its result is `Ok`.
  pub drain_from : {S : Type 0} → (S → P → Bool × S) → List P → S → ℕ → ℕ → (ℕ × ℕ) × S
  drain_from sink [] s ingested errors = ((ingested, errors), s)
  drain_from sink (p ∷ queue) s ingested errors =
      let (fine, s') = sink s p in
      drain_from sink queue s' (if fine then ingested + 1 else ingested)
        (if fine then errors else errors + 1)

  pub try_drain : {S : Type 0} → (S → P → Bool × S) → Channel P → S → (ℕ × ℕ) × S × Channel P
  unfolding drain_from
  try_drain sink c s =
      let (counted, s') = drain_from sink c.queue s 0 0 in (counted, s', record c { queue = [] })

  -- `recv` with a point in the queue; without one it waits, or answers `None` once the producers are
  -- gone.
  pub recv : Channel P → Option (P × Channel P)
  recv c = first c.queue
    where
      first : List P → Option (P × Channel P)
      first [] = none
      first (p ∷ queue) = some (p, record c { queue = queue })

  -- `UpdateProducer::flush_metrics`
  pub flush_metrics : Channel P → Channel P
  flush_metrics c = record c { counts = Striped.flush stop (Striped.flush pass c.counts) }

  pub enqueued_total : Channel P → ℕ
  enqueued_total c = Striped.total pass c.counts

  pub dropped_total : Channel P → ℕ
  dropped_total c = Striped.total stop c.counts
