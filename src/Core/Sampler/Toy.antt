-- ===== src/Core/Sampler/Toy.antt =====
-- A heap that is a list, and natural numbers in the place of `f64`, for examples of
-- core/src/sampler/reservoir.rs.
use anomstream.Prelude.{
  ℕ, ◌+◌, ◌%◌, ◌≡◌, refl, inl, inr, Bool-cases, Option-cases, List, [], ◌∷◌, Option, none, some,
  ltb, false, ◌*◌, subst, sym, if◌then◌else◌, arith,
}
use mathlib.Core.List.Permᴰ
use mathlib.Core.List.{Permᴰ}
use mathlib.Core.Option
use anomstream.Core.Domain.Naturals.{nat}
use anomstream.Core.Sampler.{WeightedEntry, SamplerArith, BinaryHeap}
use anomstream.Core.Sampler.Heap.{IsOrder, NotAbove, IsHeap, IsWeighed}

abbrev pub toy : SamplerArith ℕ
toy = record { f64 = nat; one = 7; min_positive = 1; ln = λ n. n; neg = λ n. n }

abbrev pub toy_draw : ℕ → ℕ × ℕ
toy_draw r = (r * 5 % 7, r + 1)

abbrev Entry : Type 0
Entry = WeightedEntry ℕ

abbrev better : Entry → Option (Entry × List Entry) → Option (Entry × List Entry)
better e none = some (e, [])
better e (some (m, rest)) = if ltb e.weight m.weight then some (m, e ∷ rest) else some (e, m ∷ rest)

unfoldable pub extract : List Entry → Option (Entry × List Entry)
extract [] = none
extract (e ∷ es) = better e (extract es)

abbrev pub list_heap : BinaryHeap ℕ
list_heap = record {
  Heap = List Entry;
  empty = [];
  entries = λ es. es;
  push = λ e es. e ∷ es;
  peek = λ es. Option.map (λ p. p.0) (extract es);
  pop = extract;
}

abbrev pub AnyNumber : ℕ → Type 0
AnyNumber w = Unit {0}

pub ltb-IsOrder : IsOrder ltb AnyNumber
ltb-IsOrder = record {
  lt_trans = λ x y z _ _ _ h k. ground (arith, h, k);
  lt_split = λ x y z _ _ _ h. elim (Bool-cases (ltb x y)) [
    | inl e ↦ inl e
    | inr e ↦ inr (ground (arith, h, e))
  ];
  lt_irrefl = λ x. ground arith;
}

extract-none : (es : List Entry) → extract es ≡ none → es ≡ []
unfolding extract
extract-none [] h = refl
extract-none (e ∷ es) h = elim (Option-cases (extract es)) [
  | inl n ↦ absurd (cc (rw n at h))
  | inr ((m, rest), s) ↦ elim (Bool-cases (ltb e.weight m.weight)) [
    | inl l ↦ absurd (cc (rw (s, l) at h))
    | inr g ↦ absurd (cc (rw (s, g) at h))
  ]
]

NotAbove-higher :
    (v w : ℕ) (es : List Entry) → ltb v w ≡ false → NotAbove ltb w es → NotAbove ltb v es
NotAbove-higher v w [] h k = tt
NotAbove-higher v w (e ∷ es) h k = (ground (arith, h, k.0), NotAbove-higher v w es h k.1)

abbrev Taken : List Entry → Option (Entry × List Entry) → Type 0
Taken es none = Unit {0}
Taken es (some (top, rest)) = Permᴰ es (top ∷ rest) × NotAbove ltb top.weight rest

extract-Taken : (es : List Entry) → Taken es (extract es)
unfolding extract
extract-Taken [] = tt
extract-Taken (e ∷ es) = elim (Option-cases (extract es)) [
  | inl n ↦ rw n (
      subst (λ ds. Permᴰ (e ∷ ds) (e ∷ []) × Unit {0}) (sym (extract-none es n))
        (Permᴰ.refl (e ∷ []), tt))
  | inr ((m, others), s) ↦
      let ih : Taken es (some (m, others)) = subst (Taken es) s (extract-Taken es) in
      elim (Bool-cases (ltb e.weight m.weight)) [
        | inl l ↦
            rw (s, l)
              (Permᴰ.trans (Permᴰ.cons refl ih.0) (Permᴰ.swap refl refl), (ground (arith, l), ih.1))
        | inr g ↦
            rw (s, g) (Permᴰ.cons refl ih.0, (g, NotAbove-higher e.weight m.weight others g ih.1))
      ]
]

pub list_heap-IsHeap : IsHeap list_heap ltb AnyNumber
list_heap-IsHeap = record {
  entries_empty = refl;
  entries_push = λ e es. Permᴰ.refl (e ∷ es);
  peek-pop = λ es. refl;
  pop_none = extract-none;
  pop_some = λ es rest top _ h. subst (Taken es) h (extract-Taken es);
}

pub toy-IsWeighed : IsWeighed toy list_heap toy_draw AnyNumber
toy-IsWeighed = record {
  draw_from_zero = λ rng. ground arith;
  draw_below_one = λ rng. ground arith;
  number = λ s u _ _ _ _. tt;
}
