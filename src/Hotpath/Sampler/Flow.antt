-- ===== src/Hotpath/Sampler/Flow.antt =====
-- The decisions of `accept_hash` of hotpath/src/lib.rs over a run.
use anomstream.Prelude.{
  ℕ, ◌%◌, ◌≡◌, refl, Bool, true, List, [], ◌∷◌, leb, ◌==◌, if◌then◌else◌, arith, ◌∙◌, sym,
}
use anomstream.Hotpath.Sampler.{UpdateSampler, accept_stride, accept_hash, keyed_mix, flush_metrics}

-- What a program does with a sampler, each call by a thread of some stripe.
pub data Call : Type 0 where
  by_stride : (stripe : ℕ) → Call
  by_hash : (stripe flow_hash : ℕ) → Call
  flushing : Call

pub play : List Call → UpdateSampler → UpdateSampler
play [] s = s
play (by_stride i ∷ calls) s = play calls (accept_stride i s).1
play (by_hash i h ∷ calls) s = play calls (accept_hash i h s).1
play (flushing ∷ calls) s = play calls (flush_metrics s)

-- The decision on a flow.
abbrev verdict : UpdateSampler → ℕ → Bool
verdict s h = if leb s.keep_every_n 1 then true else keyed_mix s.mix_key h % s.keep_every_n == 0

accept_hash-verdict : (i h : ℕ) (s : UpdateSampler) → (accept_hash i h s).0 ≡ verdict s h
unfolding accept_hash
accept_hash-verdict i h s = ground arith

verdict-play :
    (calls : List Call) (s : UpdateSampler) (h : ℕ) → verdict (play calls s) h ≡ verdict s h
unfolding play accept_stride accept_hash flush_metrics
verdict-play [] s h = refl
verdict-play (by_stride i ∷ calls) s h = verdict-play calls (accept_stride i s).1 h ∙ ground arith
verdict-play (by_hash i k ∷ calls) s h = verdict-play calls (accept_hash i k s).1 h ∙ ground arith
verdict-play (flushing ∷ calls) s h = verdict-play calls (flush_metrics s) h

-- Whatever calls a sampler has had in between, `accept_hash` gives a flow the same decision
-- before and after them, for threads of any stripes.
pub accept_hash-play :
    (calls : List Call) (s : UpdateSampler) (i j h : ℕ)
    → (accept_hash i h (play calls s)).0 ≡ (accept_hash j h s).0
accept_hash-play calls s i j h =
    accept_hash-verdict i h (play calls s)
    ∙ verdict-play calls s h
    ∙ sym (accept_hash-verdict j h s)
