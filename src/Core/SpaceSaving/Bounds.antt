-- ===== src/Core/SpaceSaving/Bounds.antt =====
-- What the table knows of the keys that it has been given.
use native.Mathlib.Nat.{mul-suc}
use anomstream.Prelude.{
  ℕ, ◌+◌, ◌*◌, ◌≤◌, ◌<◌, ◌^◌, ◌≡◌, ◌∙◌, sym, inl, inr, refl, ap, subst, dec_lt, Bool, true, List,
  [], ◌∷◌, none, some, length, ◌==◌, Bool-cases, Option-cases, if◌then◌else◌, arith,
}
use anomstream.Core.SpaceSaving.{SpaceSaving, observe_weighted}
use anomstream.Core.SpaceSaving.Table.{
  HeavyHitterEntry, mass, find, put, remove, Distinct, find-put, find-remove, mass-put, mass-remove,
  length-put, Distinct-put, Distinct-remove,
}
use anomstream.Core.SpaceSaving.Least.{find_min_lem}

-- `seen` is the weight that each key has been given.
pub record IsTracked {K : Type 0} (eq : K → K → Bool) (seen : K → ℕ) (s : SpaceSaving K)
    : Type 0 where
  pub positive : 0 < s.capacity
  pub distinct : Distinct eq s.counts
  pub bounded : length s.counts ≤ s.capacity
  pub sum : mass s.counts ≡ s.total
  pub over : (k : K) (e : HeavyHitterEntry) → find eq k s.counts ≡ some e → seen k ≤ e.estimate
  pub under :
      (k : K) (e : HeavyHitterEntry) → find eq k s.counts ≡ some e → e.estimate ≤ seen k + e.error
  pub floor :
      (k j : K) (e : HeavyHitterEntry)
      → find eq k s.counts ≡ none
      → find eq j s.counts ≡ some e
      → seen k ≤ e.estimate
  pub spare : (k : K) → find eq k s.counts ≡ none → length s.counts < s.capacity → seen k ≡ 0

-- The weights after one more observation.
abbrev pub with_seen : {K : Type 0} → (K → K → Bool) → (K → ℕ) → K → ℕ → K → ℕ
with_seen eq seen key weight k = seen k + (if eq key k then weight else 0)

module _ {K : Type 0} (eq : K → K → Bool) (sound : (a b : K) → eq a b ≡ true → a ≡ b)
    (self : (a : K) → eq a a ≡ true) where
  seen_alike : (seen : K → ℕ) (a b : K) → eq a b ≡ true → seen a ≡ seen b
  seen_alike seen a b h = ap seen (sound a b h)

  find_alike :
      (a b : K) (t : List (K × HeavyHitterEntry)) → eq a b ≡ true → find eq a t ≡ find eq b t
  find_alike a b t h = ap (λ x. find eq x t) (sound a b h)

  mass-le :
      (k : K) (e : HeavyHitterEntry) (t : List (K × HeavyHitterEntry))
      → find eq k t ≡ some e
      → e.estimate ≤ mass t
  mass-le k e t h = omega (arith, (mass-remove eq sound self k e t h).0)

  some_entry :
      (t : List (K × HeavyHitterEntry))
      → 0 < length t
      → (k : K) × (e : HeavyHitterEntry) × (find eq k t ≡ some e)
  unfolding find
  some_entry [] h = absurd (omega arith)
  some_entry ((k, e) ∷ t) h = (k, e, rw (self k) refl)

  nothing :
      (k : K) (e : HeavyHitterEntry) (t : List (K × HeavyHitterEntry))
      → find eq k t ≡ find eq k []
      → find eq k t ≡ some e
      → ⊥
  unfolding find
  nothing k e t h g = cc

  mass-ge :
      (n : ℕ) (t : List (K × HeavyHitterEntry))
      → Distinct eq t
      → ((j : K) (e : HeavyHitterEntry) → find eq j t ≡ some e → n ≤ e.estimate)
      → n * length t ≤ mass t
  unfolding find mass
  mass-ge n [] h f = omega arith
  mass-ge n ((k, e) ∷ t) h f =
      let first : n ≤ e.estimate = f k e (rw (self k) refl) in
      let rest = mass-ge n t h.1 (λ j d at. f j d (ground (arith, at, h.0, find_alike k j t))) in
      omega (arith, first, rest, mul-suc n (length t))

  -- A key that is not in the table has no more than an equal share of the total.
  pub share_lem :
      (seen : K → ℕ) (s : SpaceSaving K) (k : K)
      → IsTracked eq seen s
      → find eq k s.counts ≡ none
      → seen k * s.capacity ≤ s.total
  share_lem seen s k t h = elim (dec_lt (length s.counts) s.capacity) [
    | yes room ↦ rw (t.spare k h room) (omega arith)
    | no full ↦
        let all = mass-ge (seen k) s.counts t.distinct (λ j e at. t.floor k j e h at) in
        let same : length s.counts ≡ s.capacity = omega (arith, t.bounded, full) in
        rw (← same) (omega (arith, all, t.sum))
  ]

  -- Nothing is added.
  idle :
      (seen : K → ℕ) (s : SpaceSaving K) (key : K) (w : ℕ)
      → IsTracked eq seen s
      → w ≡ 0
      → IsTracked eq (with_seen eq seen key w) s
  idle seen s key w t z = record {
    positive = t.positive;
    distinct = t.distinct;
    bounded = t.bounded;
    sum = t.sum;
    over = λ k e f. ground (arith, t.over k e f);
    under = λ k e f. ground (arith, t.under k e f);
    floor = λ k j e f g. ground (arith, t.floor k j e f g);
    spare = λ k f g. ground (arith, t.spare k f g);
  }

  -- The key has an entry, which grows.
  raise :
      (seen : K → ℕ) (s : SpaceSaving K) (key : K) (w : ℕ) (c : HeavyHitterEntry)
      → s.total + w < 2 ^ 64
      → IsTracked eq seen s
      → find eq key s.counts ≡ some c
      → IsTracked eq (with_seen eq seen key w) (record s {
        counts = put eq key (record c { estimate = c.estimate + w }) s.counts;
        total = s.total + w;
      })
  raise seen s key w c b t h = record {
    positive = t.positive;
    distinct = Distinct-put eq sound self key new s.counts t.distinct;
    bounded = omega (arith, t.bounded, length-put eq sound self key new s.counts);
    sum = omega (arith, t.sum, mass-put eq sound self key new c s.counts h);
    over = λ k e f. ground (arith, looked k, f, t.over key c h, t.over k e, seen_alike seen key k);
    under =
        λ k e f. ground (arith, looked k, f, t.under key c h, t.under k e, seen_alike seen key k);
    floor = λ k j e f g. ground (arith, looked k, looked j, f, g, t.floor k key c, t.floor k j e);
    spare =
        λ k f g. ground (arith, looked k, f, t.spare k, length-put eq sound self key new s.counts);
  }
    where
      new : HeavyHitterEntry
      new = record c { estimate = c.estimate + w }

      looked :
          (k : K)
          → find eq k (put eq key new s.counts)
            ≡ (if eq key k then some new else find eq k s.counts)
      looked k = find-put eq sound self key k new c s.counts h

  -- The key takes a free place.
  insert :
      (seen : K → ℕ) (s : SpaceSaving K) (key : K) (w : ℕ)
      → IsTracked eq seen s
      → find eq key s.counts ≡ none
      → length s.counts < s.capacity
      → IsTracked eq (with_seen eq seen key w) (record s {
        counts = (key, record { estimate = w; error = 0 }) ∷ s.counts;
        total = s.total + w;
      })
  unfolding find mass
  insert seen s key w t h room = record {
    positive = t.positive;
    distinct = (h, t.distinct);
    bounded = omega arith;
    sum = omega (arith, t.sum);
    over = λ k e f. ground (arith, f, t.over k e, t.spare key h room, seen_alike seen key k);
    under = λ k e f. ground (arith, f, t.under k e, t.spare key h room, seen_alike seen key k);
    floor = λ k j e f g. ground (arith, f, t.spare k);
    spare = λ k f g. ground (arith, f, t.spare k);
  }

  -- The key takes the place of the least entry.
  replace :
      (seen : K → ℕ) (s : SpaceSaving K) (key m : K) (w : ℕ) (d : HeavyHitterEntry)
      → IsTracked eq seen s
      → find eq key s.counts ≡ none
      → s.capacity ≤ length s.counts
      → find eq m s.counts ≡ some d
      → ((j : K) (e : HeavyHitterEntry) → find eq j s.counts ≡ some e → d.estimate ≤ e.estimate)
      → IsTracked eq (with_seen eq seen key w) (record s {
        counts =
            (key, record { estimate = d.estimate + w; error = d.estimate }) ∷ remove eq m s.counts;
        total = s.total + w;
      })
  unfolding find mass
  replace seen s key m w d t h full found least = record {
    positive = t.positive;
    distinct =
        (looked key ∙ ground (arith, h), Distinct-remove eq sound self m s.counts t.distinct);
    bounded = omega (arith, t.bounded, left.1);
    sum = omega (arith, t.sum, left.0);
    over = λ k e f.
        ground (arith, f, looked k, t.over k e, t.floor key m d h found, seen_alike seen key k);
    under = λ k e f. ground (arith, f, looked k, t.under k e, seen_alike seen key k);
    floor = λ k j e f g. ground (
      arith,
      f,
      g,
      looked k,
      looked j,
      t.over m d found,
      t.floor k m d,
      least j e,
      seen_alike seen m k,
    );
    spare = λ k f g. absurd (omega (arith, left.1, t.bounded));
  }
    where
      looked :
          (k : K) → find eq k (remove eq m s.counts) ≡ (if eq m k then none else find eq k s.counts)
      looked k = find-remove eq sound self m k s.counts t.distinct

      left :
          (mass (remove eq m s.counts) + d.estimate ≡ mass s.counts)
          × (length (remove eq m s.counts) + 1 ≡ length s.counts)
      left = mass-remove eq sound self m d s.counts found

  module _ (order : List (K × HeavyHitterEntry) → List (K × HeavyHitterEntry))
      (iterates : (t : List (K × HeavyHitterEntry))
        → Distinct eq t
        → Distinct eq (order t) × ((k : K) → find eq k (order t) ≡ find eq k t)) where
    -- With a sound and reflexive test of keys, and whatever the order in which the table is
    -- iterated as long as that visits every entry once, `observe_weighted` keeps the invariant
    -- of the table, with the weight added to what the key was given, as long as the total stays
    -- below 2^64.
    pub observe_weighted-IsTracked :
        (seen : K → ℕ) (s : SpaceSaving K) (key : K) (weight : ℕ)
        → s.total + weight < 2 ^ 64
        → IsTracked eq seen s
        → IsTracked eq (with_seen eq seen key weight) (observe_weighted eq order key weight s)
    unfolding observe_weighted
    observe_weighted-IsTracked seen s key w b t = elim (Bool-cases (w == 0)) [
      | inl z ↦ rw z (idle seen s key w t (ground arith))
      | inr z ↦ elim (Option-cases (find eq key s.counts)) [
        | inr (c, h) ↦
            let small = mass-le key c s.counts h in
            subst (IsTracked eq (with_seen eq seen key w)) (ground (arith, z, h, small, t.sum, b))
              (raise seen s key w c b t h)
        | inl h ↦ elim (dec_lt (length s.counts) s.capacity) [
          | yes room ↦
              subst (IsTracked eq (with_seen eq seen key w)) (ground (arith, z, h, room, b))
                (insert seen s key w t h room)
          | no full ↦
              elim (find_min_lem eq sound self (order s.counts) (iterates s.counts t.distinct).0) [
                | inl (empty, _) ↦
                    let (k, e, at) = some_entry s.counts (omega (arith, t.positive, full)) in
                    absurd (
                      nothing k e (order s.counts) (ap (find eq k) empty)
                        ((iterates s.counts t.distinct).1 k ∙ at))
                | inr (m, d, picked, found, least) ↦
                    let looked = (iterates s.counts t.distinct).1 in
                    let at = sym (looked m) ∙ found in
                    let small = mass-le m d s.counts at in
                    subst (IsTracked eq (with_seen eq seen key w))
                      (ground (arith, z, h, full, picked, small, t.sum, b))
                      (replace seen s key m w d t h (omega (arith, full)) at
                        (λ j e f. least j e (looked j ∙ f)))
              ]
        ]
      ]
    ]
