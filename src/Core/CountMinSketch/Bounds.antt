-- ===== src/Core/CountMinSketch/Bounds.antt =====
-- The estimates of a sketch against the true counts.
use anomstream.Prelude.{
  ℕ, zero, suc, ◌+◌, ◌-◌, ◌^◌, ◌≤◌, ◌<◌, ◌≡◌, ◌∙◌, sym, refl, ap, subst, min, Bool, true, List, [],
  ◌∷◌, length, get_or, set, replicate, length-set, length-replicate, get_or-set, if◌then◌else◌,
  ◌==◌, ◌||◌, ltb, arith, Bool-cases, inl, inr, ℕ_discrete,
}
use anomstream.Word.{saturating_add64}
use anomstream.Core.Error.{ok}
use anomstream.Core.CountMinSketch.{
  CountMinSketch, max_width, max_depth, new, hash_to_col, bump, increment, cells, least, estimate,
  seeds_from,
}

-- A stream of increments.
pub increment_all : {K : Type 0} → (ℕ → K → ℕ → ℕ) → List (K × ℕ) → CountMinSketch → CountMinSketch
increment_all hash [] s = s
increment_all hash ((key, count) ∷ more) s = increment_all hash more (increment hash key count s)

-- The true count of a key in a stream.
pub true_count : {K : Type 0} → (K → K → Bool) → List (K × ℕ) → K → ℕ
true_count same_key [] k = 0
true_count same_key ((key, count) ∷ more) k =
    (if same_key key k then count else 0) + true_count same_key more k

-- The sum of the counts of a stream.
pub sum_counts : {K : Type 0} → List (K × ℕ) → ℕ
sum_counts [] = 0
sum_counts ((key, count) ∷ more) = count + sum_counts more

module _ {K : Type 0} (hash : ℕ → K → ℕ → ℕ) (same_key : K → K → Bool)
    (eq_of_same_key : (a b : K) → same_key a b ≡ true → a ≡ b) where
  -- In every row the counter of a key is at least its count, as far as a counter goes, and every counter
  -- is at most the total.
  abbrev Counts : ℕ → (K → ℕ) → ℕ → List (List ℕ) → List (ℕ × ℕ) → Type 0
  Counts width truth total (row ∷ rows) (seed ∷ seeds) =
      (length row ≡ width)
      × ((k : K) → min (truth k) (2 ^ 64 - 1) ≤ get_or row (hash_to_col hash width seed k) 0)
      × ((j : ℕ) → get_or row j 0 ≤ total)
      × Counts width truth total rows seeds
  Counts width truth total [] [] = Unit {0}
  Counts width truth total _ _ = ⊥

  cell_low :
      (row : List ℕ) (at : K → ℕ) (key k : K) (t count : ℕ)
      → at key < length row
      → min t (2 ^ 64 - 1) ≤ get_or row (at k) 0
      → min (t + (if same_key key k then count else 0)) (2 ^ 64 - 1)
        ≤ get_or (set row (at key) (saturating_add64 (get_or row (at key) 0) count)) (at k) 0
  cell_low row at key k t count inside h =
      rw (get_or-set row (at key) (at k) (saturating_add64 (get_or row (at key) 0) count) 0 inside)
        (elim (Bool-cases (same_key key k)) [
          | inl e ↦
              let same = eq_of_same_key key k e in
              ground (arith, e, h, ap at same, ap (λ x. get_or row (at x) 0) same)
          | inr e ↦ elim (ℕ_discrete (at key) (at k)) [
            | yes d ↦ ground (arith, e, h, d, ap (λ x. get_or row x 0) d)
            | no d ↦ ground (arith, e, h, d)
          ]
        ])

  bump-Counts :
      (width : ℕ) (truth : K → ℕ) (total : ℕ) (key : K) (count : ℕ) (rows : List (List ℕ))
      (seeds : List (ℕ × ℕ))
      → 0 < width
      → total ≤ 2 ^ 64 - 1
      → Counts width truth total rows seeds
      → Counts width
          (λ k. truth k + (if same_key key k then count else 0))
          (saturating_add64 total count)
          (bump hash width key count rows seeds)
          seeds
  unfolding bump
  bump-Counts width truth total key count [] [] pos small h = tt
  bump-Counts width truth total key count [] (seed ∷ seeds) pos small h = absurd h
  bump-Counts width truth total key count (row ∷ rows) [] pos small h = absurd h
  bump-Counts width truth total key count (row ∷ rows) (seed ∷ seeds) pos small
        (len, low, high, rest) =
      let col = hash_to_col hash width seed key in
      let v = saturating_add64 (get_or row col 0) count in
      let inside : col < length row = subst (λ n. col < n) (sym len) (omega (arith, pos)) in
      (
        length-set row col v ∙ len,
        λ k. cell_low row (hash_to_col hash width seed) key k (truth k) count inside (low k),
        λ j. rw (get_or-set row col j v 0 inside) (ground (arith, high j, high col, small)),
        bump-Counts width truth total key count rows seeds pos small rest,
      )

  cells-Counts :
      (width : ℕ) (truth : K → ℕ) (total : ℕ) (k : K) (rows : List (List ℕ)) (seeds : List (ℕ × ℕ))
      → Counts width truth total rows seeds
      → (least (cells hash width k rows seeds) ≤ total)
        × (0 < length rows → min (truth k) (2 ^ 64 - 1) ≤ least (cells hash width k rows seeds))
  unfolding cells least
  cells-Counts width truth total k [] [] h = (omega arith, λ p. absurd (omega (arith, p)))
  cells-Counts width truth total k [] (seed ∷ seeds) h = absurd h
  cells-Counts width truth total k (row ∷ rows) [] h = absurd h
  cells-Counts width truth total k (row ∷ []) (seed ∷ []) (len, low, high, rest) =
      (high _, λ p. low k)
  cells-Counts width truth total k (row ∷ []) (seed ∷ t ∷ seeds) (len, low, high, rest) =
      absurd rest
  cells-Counts width truth total k (row ∷ other ∷ rows) (seed ∷ []) (len, low, high, rest) =
      absurd rest
  cells-Counts width truth total k (row ∷ other ∷ rows) (seed ∷ t ∷ seeds) (len, low, high, rest) =
      let (most, at_least) = cells-Counts width truth total k (other ∷ rows) (t ∷ seeds) rest in
      let mine = high (hash_to_col hash width seed k) in
      (omega (arith, most, mine), λ p. omega (arith, low k, at_least (omega arith)))

  -- A sketch that has seen a stream.
  record Saw (s : CountMinSketch) (truth : K → ℕ) (sum : ℕ) : Type 0 where
    pub rows : 0 < length s.table
    pub wide : 0 < s.width
    pub total : s.total ≡ min sum (2 ^ 64 - 1)
    pub counts : Counts s.width truth s.total s.table s.seeds

  length-bump :
      (width : ℕ) (key : K) (count : ℕ) (rows : List (List ℕ)) (seeds : List (ℕ × ℕ))
      → length (bump hash width key count rows seeds) ≡ length rows
  unfolding bump
  length-bump width key count [] seeds = refl
  length-bump width key count (row ∷ rows) [] = refl
  length-bump width key count (row ∷ rows) (seed ∷ seeds) =
      ap suc (length-bump width key count rows seeds)

  Counts-cong :
      (width : ℕ) (f g : K → ℕ) (total : ℕ) (rows : List (List ℕ)) (seeds : List (ℕ × ℕ))
      → ((k : K) → f k ≡ g k)
      → Counts width f total rows seeds
      → Counts width g total rows seeds
  Counts-cong width f g total [] [] e h = tt
  Counts-cong width f g total [] (seed ∷ seeds) e h = absurd h
  Counts-cong width f g total (row ∷ rows) [] e h = absurd h
  Counts-cong width f g total (row ∷ rows) (seed ∷ seeds) e (len, low, high, rest) =
      (len, λ k. omega (arith, low k, e k), high, Counts-cong width f g total rows seeds e rest)

  Saw-increment_all :
      (stream : List (K × ℕ)) (s : CountMinSketch) (truth : K → ℕ) (sum : ℕ)
      → Saw s truth sum
      → Saw
          (increment_all hash stream s)
          (λ k. truth k + true_count same_key stream k)
          (sum + sum_counts stream)
  unfolding increment_all true_count sum_counts increment
  Saw-increment_all [] s truth sum h = record {
    rows = h.rows;
    wide = h.wide;
    total = omega (arith, h.total);
    counts =
        Counts-cong s.width truth (λ k. truth k + 0) s.total s.table s.seeds (λ k. omega arith)
          h.counts;
  }
  Saw-increment_all ((key, count) ∷ more) s truth sum h =
      let s' = increment hash key count s in
      let ih =
        Saw-increment_all more s' (λ k. truth k + (if same_key key k then count else 0))
          (sum + count)
          (record {
            rows = omega (arith, h.rows, length-bump s.width key count s.table s.seeds);
            wide = h.wide;
            total = omega (arith, h.total);
            counts =
                bump-Counts s.width truth s.total key count s.table s.seeds h.wide
                  (omega (arith, h.total)) h.counts;
          }) in
      let t = increment_all hash more s' in
      record {
        rows = ih.rows;
        wide = ih.wide;
        total = omega (arith, ih.total);
        counts = Counts-cong t.width _ _ t.total t.table t.seeds (λ k. omega arith) ih.counts;
      }

  get_or-replicate : (n j : ℕ) → Path ℕ (get_or (replicate n 0) j 0) 0
  get_or-replicate zero j = refl
  get_or-replicate (suc n) zero = refl
  get_or-replicate (suc n) (suc j) = get_or-replicate n j

  fresh-Counts :
      (width i n : ℕ) → Counts width (λ k. 0) 0 (replicate n (replicate width 0)) (seeds_from i n)
  fresh-Counts width i zero = tt
  fresh-Counts width i (suc n) = (
    length-replicate width 0,
    λ k. omega arith,
    λ j. omega (arith, get_or-replicate width j),
    fresh-Counts width (i + 1) n,
  )

  new_ok :
      (width depth : ℕ) (s : CountMinSketch)
      → new width depth ≡ ok s
      → (0 < width)
        × (0 < depth)
        × (record {
          table = replicate depth (replicate width 0);
          seeds = seeds_from 0 depth;
          width = width;
          depth = depth;
          total = 0;
        }
            ≡ s)
  unfolding new
  new_ok width depth s e = elim (Bool-cases (width == 0 || ltb max_width width)) [
    | inl a ↦ absurd (cc (rw a at e))
    | inr a ↦ elim (Bool-cases (depth == 0 || ltb max_depth depth)) [
      | inl b ↦ absurd (cc (rw (a, b) at e))
      | inr b ↦ (ground (arith, a), ground (arith, b), cc (rw (a, b) at e))
    ]
  ]

  -- Let tests of keys for equality be right. After any stream of increments of a new sketch, the
  -- estimate of a key is at least its true count and at most the sum of all counts, the two cut off at
  -- the largest `u64`, and `total` is that sum, cut off.
  pub estimate-bounds :
      (width depth : ℕ) (s : CountMinSketch) (stream : List (K × ℕ)) (k : K)
      → new width depth ≡ ok s
      → let t = increment_all hash stream s in
        (min (true_count same_key stream k) (2 ^ 64 - 1) ≤ estimate hash t k)
        × (estimate hash t k ≤ t.total)
        × (t.total ≡ min (sum_counts stream) (2 ^ 64 - 1))
  unfolding estimate
  estimate-bounds width depth s stream k e =
      let (wide, deep, made) = new_ok width depth s e in
      let start : Saw s (λ k. 0) 0 =
        subst (λ x. Saw x (λ k. 0) 0) made
          (record {
            rows =
                omega
                  (arith, deep, length-replicate {A = List ℕ} depth (replicate {A = ℕ} width 0));
            wide = wide;
            total = refl;
            counts = fresh-Counts width 0 depth;
          }) in
      let seen = Saw-increment_all stream s (λ k. 0) 0 start in
      let t = increment_all hash stream s in
      let (most, at_least) =
        cells-Counts t.width (λ k. 0 + true_count same_key stream k) t.total k t.table t.seeds
          seen.counts in
      (omega (arith, at_least seen.rows), most, omega (arith, seen.total))
