-- ===== src/Core/SpaceSaving/Streams.antt =====
-- The table after a whole stream of observations.
use anomstream.Prelude.{
  ℕ, ◌+◌, ◌*◌, ◌≤◌, ◌<◌, ◌^◌, ◌≡◌, ◌∙◌, refl, subst, Bool, true, List, [], ◌∷◌, none, some, length,
  if◌then◌else◌, arith,
}
use anomstream.Core.Error.{ok}
use anomstream.Core.SpaceSaving.{SpaceSaving, new, observe_weighted, estimate}
use anomstream.Core.SpaceSaving.Table.{HeavyHitterEntry, mass, find, Distinct}
use anomstream.Core.SpaceSaving.Bounds.{IsTracked, with_seen, observe_weighted-IsTracked, share_lem}

-- The weight of the whole stream, and that of one key in it.
unfoldable pub weight_of_all : {K : Type 0} → List (K × ℕ) → ℕ
weight_of_all [] = 0
weight_of_all ((key, weight) ∷ stream) = weight + weight_of_all stream

pub weight_of : {K : Type 0} → (K → K → Bool) → K → List (K × ℕ) → ℕ
weight_of eq k [] = 0
weight_of eq k ((key, weight) ∷ stream) = (if eq key k then weight else 0) + weight_of eq k stream

-- What the documentation of the table promises of a key `k` of true weight `seen`.
pub record IsReported {K : Type 0} (eq : K → K → Bool) (s : SpaceSaving K) (k : K) (seen : ℕ)
    : Type 0 where
  pub over : (e : HeavyHitterEntry) → estimate eq s k ≡ some e → seen ≤ e.estimate
  pub under : (e : HeavyHitterEntry) → estimate eq s k ≡ some e → e.estimate ≤ seen + e.error
  pub share : estimate eq s k ≡ none → seen * s.capacity ≤ s.total

module _ {K : Type 0} (eq : K → K → Bool)
    (order : List (K × HeavyHitterEntry) → List (K × HeavyHitterEntry)) where
  -- Observations one after the other.
  pub observe_all : List (K × ℕ) → SpaceSaving K → SpaceSaving K
  observe_all [] s = s
  observe_all ((key, weight) ∷ stream) s =
      observe_all stream (observe_weighted eq order key weight s)

module _ {K : Type 0} (eq : K → K → Bool) (sound : (a b : K) → eq a b ≡ true → a ≡ b)
    (self : (a : K) → eq a a ≡ true)
    (order : List (K × HeavyHitterEntry) → List (K × HeavyHitterEntry))
    (iterates : (t : List (K × HeavyHitterEntry))
      → Distinct eq t
      → Distinct eq (order t) × ((k : K) → find eq k (order t) ≡ find eq k t)) where
  recount :
      {seen seen' : K → ℕ} {s : SpaceSaving K}
      → ((k : K) → seen k ≡ seen' k)
      → IsTracked eq seen s
      → IsTracked eq seen' s
  recount same t = record {
    positive = t.positive;
    distinct = t.distinct;
    bounded = t.bounded;
    sum = t.sum;
    over = λ k e f. omega (arith, t.over k e f, same k);
    under = λ k e f. omega (arith, t.under k e f, same k);
    floor = λ k j e f g. omega (arith, t.floor k j e f g, same k);
    spare = λ k f g. omega (arith, t.spare k f g, same k);
  }

  total_lem :
      (key : K) (w : ℕ) (s : SpaceSaving K)
      → s.total + w < 2 ^ 64
      → ((observe_weighted eq order key w s).total ≡ s.total + w)
        × ((observe_weighted eq order key w s).capacity ≡ s.capacity)
  unfolding observe_weighted
  total_lem key w s b = ground arith

  fresh_table : ℕ → SpaceSaving K
  fresh_table capacity = record { counts = []; capacity = capacity; total = 0 }

  fresh_table-IsTracked :
      (capacity : ℕ) → 0 < capacity → IsTracked eq (λ _. 0) (fresh_table capacity)
  unfolding fresh_table find mass
  fresh_table-IsTracked capacity p = record {
    positive = p;
    distinct = tt;
    bounded = omega arith;
    sum = refl;
    over = λ k e f. cc;
    under = λ k e f. cc;
    floor = λ k j e f g. cc;
    spare = λ k f g. refl;
  }

  new-IsTracked :
      (capacity : ℕ) (s : SpaceSaving K)
      → new capacity ≡ ok s
      → IsTracked eq (λ _. 0) s × (s.total ≡ 0) × (s.capacity ≡ capacity)
  unfolding new fresh_table
  new-IsTracked capacity s e =
      let same : (fresh_table capacity ≡ s) × (0 < capacity) = ground (arith, e) in
      subst (λ t. IsTracked eq (λ _. 0) t × (t.total ≡ 0) × (t.capacity ≡ capacity)) same.0
        (fresh_table-IsTracked capacity same.1, refl, refl)

  observe_all-IsTracked :
      (stream : List (K × ℕ)) (seen : K → ℕ) (s : SpaceSaving K)
      → s.total + weight_of_all stream < 2 ^ 64
      → IsTracked eq seen s
      → IsTracked eq (λ k. seen k + weight_of eq k stream) (observe_all eq order stream s)
        × ((observe_all eq order stream s).total ≡ s.total + weight_of_all stream)
        × ((observe_all eq order stream s).capacity ≡ s.capacity)
  unfolding observe_all weight_of weight_of_all
  observe_all-IsTracked [] seen s b t = (recount (λ k. omega arith) t, omega arith, refl)
  observe_all-IsTracked ((key, w) ∷ stream) seen s b t =
      let s' = observe_weighted eq order key w s in
      let (more, same) = total_lem key w s (omega arith) in
      let t' =
        observe_weighted-IsTracked eq sound self order iterates seen s key w (omega arith) t in
      let (t'', all, kept) =
        observe_all-IsTracked stream (with_seen eq seen key w) s' (omega (arith, more)) t' in
      (recount (λ k. omega arith) t'', omega (arith, all, more), kept ∙ same)

  -- With a sound and reflexive test of keys, and whatever the order in which the table is
  -- iterated as long as that visits every entry once: after any stream of a weight below 2^64
  -- into a new table, the weight of a key that has an entry is at most its estimate and at least
  -- its estimate less its error, and the weight of a key that has none, times the capacity, is
  -- at most the weight of the stream. The total is the weight of the stream, and the table has
  -- no more entries than its capacity.
  pub observe_all-IsReported :
      (capacity : ℕ) (s : SpaceSaving K) (stream : List (K × ℕ)) (k : K)
      → new capacity ≡ ok s
      → weight_of_all stream < 2 ^ 64
      → IsReported eq (observe_all eq order stream s) k (weight_of eq k stream)
        × ((observe_all eq order stream s).total ≡ weight_of_all stream)
        × ((observe_all eq order stream s).capacity ≡ capacity)
        × (length (observe_all eq order stream s).counts ≤ capacity)
  unfolding new estimate
  observe_all-IsReported capacity s stream k e b =
      let (start, none_yet, same) = new-IsTracked capacity s e in
      let (t, all, kept) =
        observe_all-IsTracked stream (λ _. 0) s (omega (arith, none_yet)) start in
      let exact : weight_of eq k stream ≡ 0 + weight_of eq k stream = omega arith in
      (
        record {
          over = λ d f. omega (arith, t.over k d f);
          under = λ d f. omega (arith, t.under k d f);
          share = λ f. rw exact (
              share_lem eq sound self (λ j. 0 + weight_of eq j stream)
                (observe_all eq order stream s) k t f);
        },
        omega (arith, all, none_yet),
        kept ∙ same,
        omega (arith, t.bounded, kept, same),
      )
