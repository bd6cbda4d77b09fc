-- ===== src/Hotpath/Sampler.antt =====
-- `UpdateSampler` of hotpath/src/lib.rs: which offers go on to the update queue.
pub mod Stride
pub mod Flow
mod Tests
use anomstream.Prelude.{
  ℕ, ◌+◌, ◌%◌, Bool, true, false, Option, none, some, leb, ◌==◌, if◌then◌else◌,
}
use anomstream.Word.{wrapping_add64}
use anomstream.Hotpath.Striped
use anomstream.Hotpath.Striped.{StripedPair, pass, stop}
use anomstream.Hotpath.SipHash.{siphash13_u64}

pub record UpdateSampler : Type 0 where
  pub keep_every_n : ℕ
  pub counter : ℕ
  pub counts : StripedPair
  pub mix_key : Option (ℕ × ℕ)

pub new : ℕ → UpdateSampler
new keep_every_n = record {
  keep_every_n = keep_every_n;
  counter = 0;
  counts = Striped.fresh;
  mix_key = none;
}

pub new_keyed_with_seeds : ℕ → ℕ → ℕ → UpdateSampler
new_keyed_with_seeds keep_every_n k1 k2 = record {
  keep_every_n = keep_every_n;
  counter = 0;
  counts = Striped.fresh;
  mix_key = some (k1, k2);
}

abbrev pub keyed_mix : Option (ℕ × ℕ) → ℕ → ℕ
keyed_mix (some (k0, k1)) h = siphash13_u64 k0 k1 h
keyed_mix none h = h

-- The count that goes with a decision.
abbrev pub decide : ℕ → Bool → UpdateSampler → UpdateSampler
decide stripe ok s = record s { counts = Striped.count stripe (if ok then pass else stop) s.counts }

-- A call by a thread whose stripe is `stripe`; so for the others.
pub accept_stride : ℕ → UpdateSampler → Bool × UpdateSampler
accept_stride stripe s =
    if leb s.keep_every_n 1
    then (true, decide stripe true s)
    else let ok = s.counter % s.keep_every_n == 0 in
      (ok, decide stripe ok (record s { counter = wrapping_add64 s.counter 1 }))

pub accept_hash : ℕ → ℕ → UpdateSampler → Bool × UpdateSampler
accept_hash stripe flow_hash s =
    if leb s.keep_every_n 1
    then (true, decide stripe true s)
    else let ok = keyed_mix s.mix_key flow_hash % s.keep_every_n == 0 in (ok, decide stripe ok s)

pub accepted_total : UpdateSampler → ℕ
accepted_total s = Striped.total pass s.counts

pub rejected_total : UpdateSampler → ℕ
rejected_total s = Striped.total stop s.counts

pub flush_metrics : UpdateSampler → UpdateSampler
flush_metrics s = record s { counts = Striped.flush stop (Striped.flush pass s.counts) }
