-- ===== src/Hotpath/Channel/Fifo.antt =====
-- The update queue of hotpath/src/lib.rs over any run of offers and drains: its points and their order.
use anomstream.Prelude.{
  ℕ, suc, ◌+◌, ◌<◌, ◌≡◌, refl, Bool, true, false, List, [], ◌∷◌, ◌++◌, if◌then◌else◌, Bool-cases,
  inl, inr, ◌∙◌, sym, ap,
}
use mathlib.Core.List.{append_assoc, append-nil}
use anomstream.Hotpath.Striped.{stripe_count}
use anomstream.Hotpath.Channel.{Channel, has_room, try_enqueue, drain_from, try_drain}

pub trues : List Bool → ℕ
trues [] = 0
trues (b ∷ bs) = let rest = trues bs in if b then suc rest else rest

-- The queue under use: offers by producers of some stripe, and drains by the consumer.
pub data Act (P : Type 0) : Type 0 where
  offer : (stripe : ℕ) → P → Act P
  drain : Act P

module _ {P : Type 0} where
  -- The sink run over a list of points: what it answered, and its state.
  pub outcomes : {S : Type 0} → (S → P → Bool × S) → List P → S → List Bool × S
  outcomes sink [] s = ([], s)
  outcomes sink (p ∷ queue) s =
      let (fine, s') = sink s p in let (rest, t) = outcomes sink queue s' in (fine ∷ rest, t)

  -- A sink that keeps each point and answers `fine` of it.
  abbrev pub keep : (P → Bool) → List P → P → Bool × List P
  keep fine log p = (fine p, log ++ (p ∷ []))

  unfoldable pub play : (P → Bool) → List (Act P) → Channel P → List P → List P × Channel P
  play fine [] c log = (log, c)
  play fine (offer stripe p ∷ acts) c log = play fine acts (try_enqueue stripe p c).1 log
  play fine (drain ∷ acts) c log =
      let (_, log', c') = try_drain (keep fine) c log in play fine acts c' log'

  -- The points whose offer was answered with `true`, in order.
  unfoldable pub accepted : (P → Bool) → List (Act P) → Channel P → List P
  accepted fine [] c = []
  accepted fine (offer stripe p ∷ acts) c =
      let (ok, c') = try_enqueue stripe p c in
      let rest = accepted fine acts c' in if ok then p ∷ rest else rest
  accepted fine (drain ∷ acts) c =
      let (_, _, c') = try_drain (keep fine) c [] in accepted fine acts c'

  pub offers : List (Act P) → ℕ
  offers [] = 0
  offers (offer stripe p ∷ acts) = suc (offers acts)
  offers (drain ∷ acts) = offers acts

  abbrev pub OwnStripes : List (Act P) → Type 0
  OwnStripes [] = Unit {0}
  OwnStripes (offer stripe p ∷ acts) = (stripe < stripe_count) × OwnStripes acts
  OwnStripes (drain ∷ acts) = OwnStripes acts

  kept :
      (fine : P → Bool) (queue log : List P) (i e : ℕ)
      → (drain_from (keep fine) queue log i e).1 ≡ log ++ queue
  unfolding drain_from
  kept fine [] log i e = sym (append-nil log)
  kept fine (p ∷ queue) log i e =
      kept fine queue (log ++ (p ∷ [])) (if fine p then i + 1 else i) (if fine p then e else e + 1)
      ∙ append_assoc log (p ∷ []) queue

  pub queue-try_enqueue :
      (stripe : ℕ) (p : P) (c : Channel P)
      → (try_enqueue stripe p c).1.queue
        ≡ c.queue ++ (if (try_enqueue stripe p c).0 then p ∷ [] else [])
  unfolding try_enqueue
  queue-try_enqueue stripe p c = elim (Bool-cases (has_room c)) [
    | inl h ↦ rw h refl
    | inr h ↦ rw h (sym (append-nil c.queue))
  ]

  join :
      (ok : Bool) (log queue rest : List P) (p : P)
      → (log ++ (queue ++ (if ok then p ∷ [] else []))) ++ rest
        ≡ (log ++ queue) ++ (if ok then p ∷ rest else rest)
  join true log queue rest p =
      ap (λ r. r ++ rest) (sym (append_assoc log queue (p ∷ [])))
      ∙ append_assoc (log ++ queue) (p ∷ []) rest
  join false log queue rest p = ap (λ r. (log ++ r) ++ rest) (append-nil queue)

  -- Over any run of offers and drains, the points that the sink was given, then those still
  -- queued, are the points given and queued before the run, then those whose offer was accepted,
  -- in the order of the offers.
  pub play_in_order :
      (fine : P → Bool) (acts : List (Act P)) (c : Channel P) (log : List P)
      → (play fine acts c log).0 ++ (play fine acts c log).1.queue
        ≡ (log ++ c.queue) ++ accepted fine acts c
  unfolding play accepted try_drain
  play_in_order fine [] c log = sym (append-nil (log ++ c.queue))
  play_in_order fine (offer stripe p ∷ acts) c log =
      let (ok, c') = try_enqueue stripe p c in
      play_in_order fine acts c' log
      ∙ ap (λ q. (log ++ q) ++ accepted fine acts c') (queue-try_enqueue stripe p c)
      ∙ join ok log c.queue (accepted fine acts c') p
  play_in_order fine (drain ∷ acts) c log =
      let rest = accepted fine acts (record c { queue = [] }) in
      play_in_order fine acts (record c { queue = [] }) (drain_from (keep fine) c.queue log 0 0).1
      ∙ ap (λ r. (r ++ []) ++ rest) (kept fine c.queue log 0 0)
      ∙ ap (λ r. r ++ rest) (append-nil (log ++ c.queue))
