-- ===== src/Core/Tree/RandomCutTree/GrowSorted.antt =====
-- Cuts that part the points and boxes that hold them.
use anomstream.Prelude.{
  ℕ, ◌≡◌, ◌∙◌, sym, refl, subst, Bool, true, false, List, Option, some, length, if◌then◌else◌,
  arith, Bool-cases, inl, inr, ◌⊎◌, ◌&&◌, ◌||◌,
}
use anomstream.Core.Error.{ok}
use anomstream.Core.Domain.{Cut, BoundingBox}
use anomstream.Core.Domain.Arith.{Arith, coord}
use anomstream.Core.Domain.Boxes.{left_of, extended}
use anomstream.Core.Domain.Boxes.Order.{
  from_point_lem, Ordered, Within, Finite, Below-refl, Below-coord, extended-Within, length-lower,
  length-raise, lower-Finite, raise-Finite,
}
use anomstream.Core.Tree.RandomCutTree.{isolates_point}
use anomstream.Core.Tree.RandomCutTree.Grow.{Tree, leaf, split, Grown, tree_box, beside, grow}
use anomstream.Core.Tree.RandomCutTree.GrowCases.{grow-induction}

module _ {F : Type 0} (f64 : Arith F) (dim : ℕ) (points : ℕ → Option (List F)) where
  -- Every leaf has a point of the dimension with finite coordinates, and `Q` holds of it.
  abbrev pub All : (List F → Type 0) → Tree F → Type 0
  All Q (leaf i m) = (p : List F) × (points i ≡ some p) × (length p ≡ dim) × Finite f64 p × Q p
  All Q (split cut b l r) = All Q l × All Q r

  pub record Parted (cut : Cut F) (b : BoundingBox F) (l r : Tree F) : Type 0 where
    pub size : (length b.min ≡ dim) × (length b.max ≡ dim)
    pub finite : Finite f64 b.min × Finite f64 b.max
    pub inside : All (Within f64 b) l × All (Within f64 b) r
    pub left : All (λ p. left_of f64 cut p ≡ true) l
    pub right : All (λ p. left_of f64 cut p ≡ false) r

  -- Every cut has the points of its left side on the left of it and those of its right side not, and
  -- every box has the points below it inside.
  abbrev pub IsSorted : Tree F → Type 0
  IsSorted (leaf i m) = All (λ p. Unit {0}) (leaf i m)
  IsSorted (split cut b l r) = Parted cut b l r × IsSorted l × IsSorted r

  All-map : {Q S : List F → Type 0} (t : Tree F) → ((p : List F) → Q p → S p) → All Q t → All S t
  All-map (leaf i m) f (p, e, l, n, q) = (p, e, l, n, f p q)
  All-map (split cut b l r) f (h, k) = (All-map l f h, All-map r f k)

  module _ (o : Ordered f64) where
    or-cases : {a b : Bool} → a || b ≡ true → (a ≡ true) ⊎ (b ≡ true)
    or-cases h = ground (arith, h)

    and-cases : {a b : Bool} → a && b ≡ true → (a ≡ true) × (b ≡ true)
    and-cases h = ground (arith, h)

    box-Within :
        {R : Type 0} (draw : R → F × R) (idx : ℕ) (point : List F) (t : Tree F) (b : BoundingBox F)
        → IsSorted t
        → tree_box f64 draw dim points idx point t ≡ ok b
        → (length b.min ≡ dim)
          × (length b.max ≡ dim)
          × Finite f64 b.min
          × Finite f64 b.max
          × All (Within f64 b) t
    box-Within draw idx point (leaf i m) b (p, e, l, n, _) h =
        let fit = λ (b : BoundingBox F).
          (length b.min ≡ dim)
          × (length b.max ≡ dim)
          × Finite f64 b.min
          × Finite f64 b.max
          × All (Within f64 b) (leaf i m) in
        subst fit (from_point_lem f64 dim p b (rw e at h))
          (l, l, n, n, (p, e, l, n, (Below-refl f64 o p n, Below-refl f64 o p n)))
    box-Within draw idx point (split cut c l r) b (h, _, _) e =
        let fit = λ (b : BoundingBox F).
          (length b.min ≡ dim)
          × (length b.max ≡ dim)
          × Finite f64 b.min
          × Finite f64 b.max
          × All (Within f64 b) (split cut c l r) in
        subst fit (cc e) (h.size.0, h.size.1, h.finite.0, h.finite.1, h.inside)

    -- A cut that isolates a point from a box has it on one side and what is inside on the other.
    isolates_point_lem :
        (cut : Cut F) (point : List F) (b : BoundingBox F)
        → isolates_point f64 dim cut point b ≡ true
        → ((left_of f64 cut point ≡ true)
            × ((q : List F) → Within f64 b q → left_of f64 cut q ≡ false))
          ⊎ ((left_of f64 cut point ≡ false)
              × ((q : List F) → Within f64 b q → left_of f64 cut q ≡ true))
    unfolding isolates_point left_of
    isolates_point_lem cut point b h =
        let d = cut.dim in
        let p = coord f64 point d in
        let v = cut.value in
        let mn = coord f64 b.min d in
        let mx = coord f64 b.max d in
        elim (or-cases h) [
          | inl k ↦
              let (below, over) = and-cases k in
              inl (
                below,
                λ q w. not_le_over v mn (coord f64 q d) over (Below-coord f64 o b.min q d w.0),
              )
          | inr k ↦
              let (below, over) = and-cases k in
              inr (
                o.lt_asym v p over,
                λ q w. o.le_trans (coord f64 q d) mx v (Below-coord f64 o q b.max d w.1) below,
              )
        ]
      where
        not_le_over : (v m q : F) → f64.lt v m ≡ true → f64.le m q ≡ true → f64.le q v ≡ false
        not_le_over v m q h k = elim (Bool-cases (f64.le q v)) [
          | inl e ↦ absurd (cc (o.lt_asym v m h, o.le_trans m q v k e))
          | inr e ↦ e
        ]

    module _ (point : List F) (fits : length point ≡ dim) (finite : Finite f64 point) where
      abbrev Boxed : BoundingBox F → Type 0
      Boxed b = (length b.min ≡ dim) × (length b.max ≡ dim) × Finite f64 b.min × Finite f64 b.max

      widened :
          (is_new : Bool) (b : BoundingBox F)
          → Boxed b
          → let b' = if is_new then extended f64 b point else b in
            Boxed b'
            × ((p : List F) → Within f64 b p → Within f64 b' p)
            × (is_new ≡ true → Within f64 b' point)
      widened false b h = (h, λ p w. w, λ e. absurd (cc e))
      widened true b (mins, maxs, fmin, fmax) =
          let (old, new) = extended-Within f64 o b point in
          (
            (
              length-lower f64 b.min point ∙ mins,
              length-raise f64 b.max point ∙ maxs,
              lower-Finite f64 b.min point fmin finite,
              raise-Finite f64 b.max point fmax finite,
            ),
            old,
            λ e. new fmin fmax finite (mins ∙ sym fits) (maxs ∙ sym fits),
          )

      -- What `l` may become.
      abbrev Kept : Tree F → Tree F → Bool → Type 1
      Kept t t' is_new = (Q : List F → Type 0) → All Q t → (is_new ≡ true → Q point) → All Q t'

      Parted-left :
          (cut : Cut F) (b : BoundingBox F) (l l' r : Tree F) (is_new : Bool)
          → left_of f64 cut point ≡ true
          → Kept l l' is_new
          → Parted cut b l r
          → Parted cut (if is_new then extended f64 b point else b) l' r
      Parted-left cut b l l' r is_new side kept h =
          let (boxed, old, new) = widened is_new b (h.size.0, h.size.1, h.finite.0, h.finite.1) in
          record {
            size = (boxed.0, boxed.1);
            finite = (boxed.2, boxed.3);
            inside = (
              kept (Within f64 (if is_new then extended f64 b point else b))
                  (All-map l old h.inside.0) new,
              All-map r old h.inside.1,
            );
            left = kept (λ p. left_of f64 cut p ≡ true) h.left (λ _. side);
            right = h.right;
          }

      Parted-right :
          (cut : Cut F) (b : BoundingBox F) (l r r' : Tree F) (is_new : Bool)
          → left_of f64 cut point ≡ false
          → Kept r r' is_new
          → Parted cut b l r
          → Parted cut (if is_new then extended f64 b point else b) l r'
      Parted-right cut b l r r' is_new side kept h =
          let (boxed, old, new) = widened is_new b (h.size.0, h.size.1, h.finite.0, h.finite.1) in
          record {
            size = (boxed.0, boxed.1);
            finite = (boxed.2, boxed.3);
            inside = (
              All-map l old h.inside.0,
              kept (Within f64 (if is_new then extended f64 b point else b))
                  (All-map r old h.inside.1) new,
            );
            left = h.left;
            right = kept (λ p. left_of f64 cut p ≡ false) h.right (λ _. side);
          }

      beside-IsSorted :
          {R : Type 0} (draw : R → F × R) (idx : ℕ) (t : Tree F) (b : BoundingBox F) (cut : Cut F)
          → points idx ≡ some point
          → tree_box f64 draw dim points idx point t ≡ ok b
          → isolates_point f64 dim cut point b ≡ true
          → IsSorted t
          → IsSorted (beside f64 draw dim points idx point cut (extended f64 b point) t)
            × Kept t (beside f64 draw dim points idx point cut (extended f64 b point) t) true
      beside-IsSorted draw idx t b cut known e i h =
          let (mins, maxs, fmin, fmax, inside) = box-Within draw idx point t b h e in
          let (boxed, old, new) = widened true b (mins, maxs, fmin, fmax) in
          elim (isolates_point_lem cut point b i) [
            | inl (side, others) ↦ rw side (
              (
                record {
                  size = (boxed.0, boxed.1);
                  finite = (boxed.2, boxed.3);
                  inside = ((point, known, fits, finite, new refl), All-map t old inside);
                  left = (point, known, fits, finite, side);
                  right = All-map t others inside;
                },
                (point, known, fits, finite, tt),
                h,
              ),
              λ Q a n. ((point, known, fits, finite, n refl), a),
            )
            | inr (side, others) ↦ rw side (
              (
                record {
                  size = (boxed.0, boxed.1);
                  finite = (boxed.2, boxed.3);
                  inside = (All-map t old inside, (point, known, fits, finite, new refl));
                  left = All-map t others inside;
                  right = (point, known, fits, finite, side);
                },
                h,
                (point, known, fits, finite, tt),
              ),
              λ Q a n. (a, (point, known, fits, finite, n refl)),
            )
          ]

      -- An insertion into a sorted tree gives a sorted tree, and has no point but the old ones and,
      -- if a leaf was made, the new one.
      pub IsSorted-grow :
          {R : Type 0} (draw : R → F × R) (idx : ℕ)
          → points idx ≡ some point
          → (t : Tree F) (rng : R) (g : Grown F R) → grow f64 draw dim points idx point t rng ≡ ok g
          → IsSorted t
          → IsSorted g.0 × Kept t g.0 g.1
      IsSorted-grow {R} draw idx known =
          grow-induction f64 draw dim points idx point
            (λ t g. IsSorted t → IsSorted g.0 × Kept t g.0 g.1) (λ i m rng h. (h, λ Q a new. a))
            (λ t b cut rng rng' e d i h. beside-IsSorted draw idx t b cut known e i h)
            (λ cut b l r g side ih (h, sl, sr).
              let (sorted, kept) = ih sl in
              (
                (Parted-left cut b l g.0 r g.1 side kept h, sorted, sr),
                λ Q (al, ar) new. (kept Q al new, ar),
              ))
            (λ cut b l r g side ih (h, sl, sr).
              let (sorted, kept) = ih sr in
              (
                (Parted-right cut b l r g.0 g.1 side kept h, sl, sorted),
                λ Q (al, ar) new. (al, kept Q ar new),
              ))
