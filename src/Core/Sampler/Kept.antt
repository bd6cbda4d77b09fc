-- ===== src/Core/Sampler/Kept.antt =====
-- One offer to the sampler of core/src/sampler/reservoir.rs: what stays and what goes.
use anomstream.Prelude.{
  ℕ, ◌+◌, ◌≤◌, ◌<◌, ◌≡◌, refl, ap, ◌∙◌, inl, inr, Bool-cases, Option-cases, true, false, List, [],
  ◌∷◌, ◌++◌, map, some, length, ltb, arith, All, All-perm, count, count-perm, length-perm, same,
}
use mathlib.Core.List.Permᴰ
use mathlib.Core.List.{Permᴰ}
use anomstream.Core.Sampler.{
  SamplerOp, inserted, replaced, rejected, WeightedEntry, SamplerArith, BinaryHeap,
  ReservoirSampler, iter_indices, offer, bad_decay,
}
use anomstream.Core.Sampler.Heap.{IsOrder, NotAbove, Numbers, IsHeap}

count_cons : (i j : ℕ) (js : List ℕ) → count i (j ∷ js) ≡ same j i + count i js
unfolding count
count_cons i j js = refl

-- What an answer adds to the indices of the reservoir, and what it takes away.
abbrev pub came : SamplerOp → ℕ → ℕ → ℕ
came inserted j i = same j i
came (replaced k) j i = same j i
came rejected j i = 0

abbrev pub gone : SamplerOp → ℕ → ℕ
gone inserted i = 0
gone (replaced k) i = same k i
gone rejected i = 0

module _ {F R : Type 0} (a : SamplerArith F) {b : BinaryHeap F} (draw : R → F × R)
    (IsNumber : F → Type 0) where
  -- The reservoir holds the least of all the candidates that it took or dropped.
  pub record IsReservoir (s : ReservoirSampler b) (dropped : List (WeightedEntry F)) : Type 0 where
    pub positive : 0 < s.capacity
    pub decay_ok : bad_decay a s.time_decay ≡ false
    pub held : length (b.entries s.heap) ≤ s.capacity
    pub full : 0 < length dropped → length (b.entries s.heap) ≡ s.capacity
    pub kept_numbers : Numbers IsNumber (b.entries s.heap)
    pub dropped_numbers : Numbers IsNumber dropped
    pub least : All (λ d. NotAbove a.f64.lt d.weight (b.entries s.heap)) dropped

  -- After an offer: no panic, every candidate kept or dropped as before but for the new one, and the
  -- indices changed as the answer says.
  pub record Offered (s : ReservoirSampler b) (dropped : List (WeightedEntry F))
      (e : WeightedEntry F) : Type 0 where
    pub op : SamplerOp
    pub after : ReservoirSampler b
    pub dropped' : List (WeightedEntry F)
    pub ran : offer a draw s e ≡ some (op, after)
    pub kept : Permᴰ (b.entries after.heap ++ dropped') (e ∷ (b.entries s.heap ++ dropped))
    pub IsReservoir-after : IsReservoir after dropped'
    pub indices :
        (i : ℕ)
        → gone op i + count i (iter_indices a after)
          ≡ came op e.point_idx i + count i (iter_indices a s)
    pub gone-le : (i : ℕ) → gone op i ≤ count i (iter_indices a s)
    pub rest_kept : after ≡ record s { heap = after.heap }

  module _ (order : IsOrder a.f64.lt IsNumber) (heap : IsHeap b a.f64.lt IsNumber) where
    -- Both pushes, as the reservoir sees them.
    push_count :
        (e : WeightedEntry F) (h : b.Heap) (i : ℕ)
        → count i (map (λ x. x.point_idx) (b.entries (b.push e h)))
          ≡ same e.point_idx i + count i (map (λ x. x.point_idx) (b.entries h))
    unfolding count
    push_count e h i = count-perm i (Permᴰ.map (λ x. x.point_idx) (heap.entries_push e h))

    offer_room :
        (s : ReservoirSampler b) (dropped : List (WeightedEntry F)) (e : WeightedEntry F)
        → IsReservoir s dropped
        → IsNumber e.weight
        → ltb (length (b.entries s.heap)) s.capacity ≡ true
        → IsReservoir (record s { heap = b.push e s.heap }) []
    offer_room s dropped e r number room = record {
      positive = r.positive;
      decay_ok = r.decay_ok;
      held = ground (arith, length-perm (heap.entries_push e s.heap), room);
      full = λ h. absurd (omega arith);
      kept_numbers = All-perm _ (Permᴰ.symm (heap.entries_push e s.heap)) (number, r.kept_numbers);
      dropped_numbers = tt;
      least = tt;
    }

    not_lt :
        (x y z : F)
        → IsNumber x
        → IsNumber y
        → IsNumber z
        → a.f64.lt y z ≡ true
        → a.f64.lt x z ≡ false
        → a.f64.lt x y ≡ false
    not_lt x y z nx ny nz yz xz = elim (Bool-cases (a.f64.lt x y)) [
      | inl xy ↦ absurd (cc (order.lt_trans x y z nx ny nz xy yz))
      | inr no' ↦ no'
    ]

    NotAbove-greatest :
        (x top : F) (es : List (WeightedEntry F))
        → IsNumber x
        → IsNumber top
        → Numbers IsNumber es
        → a.f64.lt x top ≡ false
        → NotAbove a.f64.lt top es
        → NotAbove a.f64.lt x es
    NotAbove-greatest x top [] nx nt ns h k = tt
    NotAbove-greatest x top (e ∷ es) nx nt ns h k = (
      elim (Bool-cases (a.f64.lt x e.weight)) [
        | inl lt ↦ elim (order.lt_split x top e.weight nx nt ns.0 lt) [
          | inl before ↦ absurd (cc)
          | inr after ↦ absurd (cc (k.0))
        ]
        | inr no' ↦ no'
      ],
      NotAbove-greatest x top es nx nt ns.1 h k.1,
    )

    module _ (s : ReservoirSampler b) (e top : WeightedEntry F) (rest : b.Heap)
        (number : IsNumber e.weight) (popped : b.pop s.heap ≡ some (top, rest))
        (no_room : ltb (length (b.entries s.heap)) s.capacity ≡ false) where
      module _ (ns : Numbers IsNumber (b.entries s.heap)) where
        taken : Permᴰ (b.entries s.heap) (top ∷ b.entries rest)
        taken = (heap.pop_some s.heap rest top ns popped).0

        least_kept :
            a.f64.lt e.weight top.weight ≡ true
            → (dropped : List (WeightedEntry F)) → Numbers IsNumber dropped
            → All (λ d. NotAbove a.f64.lt d.weight (b.entries s.heap)) dropped
            → All (λ d. NotAbove a.f64.lt d.weight (b.entries (b.push e rest))) dropped
        least_kept lt [] nd h = tt
        least_kept lt (d ∷ dropped) nd h =
            let parts = All-perm _ taken h.0 in
            let numbers = All-perm _ taken ns in
            (
              All-perm _ (Permᴰ.symm (heap.entries_push e rest))
                  (not_lt d.weight e.weight top.weight nd.0 number numbers.0 lt parts.0, parts.1),
              least_kept lt dropped nd.1 h.1,
            )

      offer_displace :
          (dropped : List (WeightedEntry F))
          → IsReservoir s dropped
          → a.f64.lt e.weight top.weight ≡ true
          → IsReservoir (record s { heap = b.push e rest }) (top ∷ dropped)
      offer_displace dropped r lt =
          let numbers = All-perm _ (taken r.kept_numbers) r.kept_numbers in
          record {
            positive = r.positive;
            decay_ok = r.decay_ok;
            held = ground (
              arith,
              r.held,
              length-perm (heap.entries_push e rest),
              length-perm (taken r.kept_numbers),
            );
            full = λ _. ground (
              arith,
              no_room,
              r.held,
              length-perm (heap.entries_push e rest),
              length-perm (taken r.kept_numbers),
            );
            kept_numbers = All-perm _ (Permᴰ.symm (heap.entries_push e rest)) (number, numbers.1);
            dropped_numbers = (numbers.0, r.dropped_numbers);
            least = (
              All-perm _ (Permᴰ.symm (heap.entries_push e rest)) (
                not_lt top.weight e.weight top.weight numbers.0 number numbers.0 lt
                    (order.lt_irrefl top.weight),
                (heap.pop_some s.heap rest top r.kept_numbers popped).1,
              ),
              least_kept r.kept_numbers lt dropped r.dropped_numbers r.least,
            );
          }

      offer_refuse :
          (dropped : List (WeightedEntry F))
          → IsReservoir s dropped
          → a.f64.lt e.weight top.weight ≡ false
          → IsReservoir s (e ∷ dropped)
      offer_refuse dropped r not_lt' =
          let numbers = All-perm _ (taken r.kept_numbers) r.kept_numbers in
          record {
            positive = r.positive;
            decay_ok = r.decay_ok;
            held = r.held;
            full = λ _. ground (arith, no_room, r.held);
            kept_numbers = r.kept_numbers;
            dropped_numbers = (number, r.dropped_numbers);
            least = (
              All-perm _ (Permᴰ.symm (taken r.kept_numbers)) (
                not_lt',
                NotAbove-greatest e.weight top.weight (b.entries rest) number numbers.0 numbers.1
                    not_lt' (heap.pop_some s.heap rest top r.kept_numbers popped).1,
              ),
              r.least,
            );
          }

    Offered-room :
        (s : ReservoirSampler b) (dropped : List (WeightedEntry F)) (e : WeightedEntry F)
        → IsReservoir s dropped
        → IsNumber e.weight
        → ltb (length (b.entries s.heap)) s.capacity ≡ true
        → Offered s dropped e
    unfolding offer
    Offered-room s [] e r number room = record {
      op = inserted;
      after = record s { heap = b.push e s.heap };
      dropped' = [];
      ran = rw room refl;
      kept = Permᴰ.append_right [] (heap.entries_push e s.heap);
      IsReservoir-after = offer_room s [] e r number room;
      indices = λ i. omega (arith, push_count e s.heap i);
      gone-le = λ i. omega arith;
      rest_kept = refl;
    }
    Offered-room s (d ∷ dropped) e r number room =
        absurd (ground (arith, room, r.full (omega arith)))

    module _ (s : ReservoirSampler b) (dropped : List (WeightedEntry F)) (e top : WeightedEntry F)
        (rest : b.Heap) (r : IsReservoir s dropped) (number : IsNumber e.weight)
        (popped : b.pop s.heap ≡ some (top, rest))
        (no_room : ltb (length (b.entries s.heap)) s.capacity ≡ false) where
      peeked : b.peek s.heap ≡ some top
      peeked = heap.peek-pop s.heap ∙ rw popped refl

      whole : Permᴰ (b.entries s.heap) (top ∷ b.entries rest)
      whole = taken s e top rest number popped no_room r.kept_numbers

      Offered-displace : a.f64.lt e.weight top.weight ≡ true → Offered s dropped e
      unfolding offer
      Offered-displace lt = record {
        op = replaced top.point_idx;
        after = record s { heap = b.push e rest };
        dropped' = top ∷ dropped;
        ran = rw (no_room, peeked, popped, lt) refl;
        kept = Permᴰ.trans (Permᴰ.append_right (top ∷ dropped) (heap.entries_push e rest)) (
            Permᴰ.cons refl (
              Permᴰ.trans (Permᴰ.middle top (b.entries rest) dropped)
                (Permᴰ.append_right dropped (Permᴰ.symm whole))));
        IsReservoir-after = offer_displace s e top rest number popped no_room dropped r lt;
        indices = λ i. omega (
          arith,
          push_count e rest i,
          count-perm i (Permᴰ.map (λ x. x.point_idx) whole),
          count_cons i top.point_idx (map (λ x. x.point_idx) (b.entries rest)),
        );
        gone-le = λ i. omega (
          arith,
          count-perm i (Permᴰ.map (λ x. x.point_idx) whole),
          count_cons i top.point_idx (map (λ x. x.point_idx) (b.entries rest)),
        );
        rest_kept = refl;
      }

      Offered-refuse : a.f64.lt e.weight top.weight ≡ false → Offered s dropped e
      unfolding offer
      Offered-refuse not_lt' = record {
        op = rejected;
        after = s;
        dropped' = e ∷ dropped;
        ran = rw (no_room, peeked, not_lt') refl;
        kept = Permᴰ.middle e (b.entries s.heap) dropped;
        IsReservoir-after = offer_refuse s e top rest number popped no_room dropped r not_lt';
        indices = λ i. refl;
        gone-le = λ i. omega arith;
        rest_kept = refl;
      }

    -- Every branch of an offer.
    pub offer-Offered :
        (s : ReservoirSampler b) (dropped : List (WeightedEntry F)) (e : WeightedEntry F)
        → IsReservoir s dropped
        → IsNumber e.weight
        → Offered s dropped e
    offer-Offered s dropped e r number =
        elim (Bool-cases (ltb (length (b.entries s.heap)) s.capacity)) [
          | inl room ↦ Offered-room s dropped e r number room
          | inr no_room ↦ elim (Option-cases (b.pop s.heap)) [
            | inl nothing ↦
                absurd
                  (ground (arith, no_room, r.positive, ap length (heap.pop_none s.heap nothing)))
            | inr ((top, rest), popped) ↦ elim (Bool-cases (a.f64.lt e.weight top.weight)) [
              | inl lt ↦ Offered-displace s dropped e top rest r number popped no_room lt
              | inr ge ↦ Offered-refuse s dropped e top rest r number popped no_room ge
            ]
          ]
        ]
