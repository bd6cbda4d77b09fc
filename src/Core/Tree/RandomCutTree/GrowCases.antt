-- ===== src/Core/Tree/RandomCutTree/GrowCases.antt =====
-- The cases of a tree that took a point in.
use anomstream.Prelude.{
  ℕ, ◌+◌, ◌≡◌, sym, subst, true, false, List, Option, if◌then◌else◌, Bool-cases, inl, inr, ◌⊎◌,
}
use anomstream.Core.Error.{RcfResult, ok, >>=-eq-ok, result_cases}
use anomstream.Core.Domain.{Cut, BoundingBox}
use anomstream.Core.Domain.Arith.{Arith}
use anomstream.Core.Domain.Boxes.{left_of, extended, augmented_range_sum, augmented_random_cut}
use anomstream.Core.Tree.RandomCutTree.{isolates_point}
use anomstream.Core.Tree.RandomCutTree.Grow.{
  Tree, leaf, split, Grown, tree_box, coincide, beside, cut_or, grow,
}

module _ {F R : Type 0} (f64 : Arith F) (draw : R → F × R) (dim : ℕ) (points : ℕ → Option (List F))
    (idx : ℕ) (point : List F) where
  -- A point on a leaf, one cut from the tree, or one that goes further down.
  pub cut_or-cases :
      (t : Tree F) (below : R → RcfResult (Grown F R)) (rng : R) (g : Grown F R)
      → cut_or f64 draw dim points idx point t below rng ≡ ok g
      → ((b : BoundingBox F) × (tree_box f64 draw dim points idx point t ≡ ok b)
          × (f64.le (augmented_range_sum f64 b point) f64.zero ≡ true)
          × (coincide f64 draw dim points idx point t rng ≡ ok g))
        ⊎ (((b : BoundingBox F) × (cut : Cut F) × (rng' : R) × (tree_box f64 draw dim points idx
                  point t
                ≡ ok b)
              × (augmented_random_cut f64 draw dim b point rng ≡ ok (cut, rng'))
              × (isolates_point f64 dim cut point b ≡ true)
              × (g ≡ (
                beside f64 draw dim points idx point cut (extended f64 b point) t,
                true,
                rng',
              )))
            ⊎ ((rng' : R) × (below rng' ≡ ok g)))
  cut_or-cases t below rng g e = elim (result_cases (tree_box f64 draw dim points idx point t)) [
    | inr (why, q) ↦ absurd (cc (rw q at e))
    | inl (b, q) ↦
        let e1 = rw q at e in
        elim (Bool-cases (f64.le (augmented_range_sum f64 b point) f64.zero)) [
          | inl s ↦ inl (b, q, s, rw s at e1)
          | inr s ↦
              let e2 = rw s at e1 in
              elim (result_cases (augmented_random_cut f64 draw dim b point rng)) [
                | inr (why, p) ↦ absurd (cc (rw p at e2))
                | inl ((cut, rng'), p) ↦
                    let e3 = rw p at e2 in
                    elim (Bool-cases (isolates_point f64 dim cut point b)) [
                      | inl i ↦ inr (inl (b, cut, rng', q, p, i, cc (rw i at e3)))
                      | inr i ↦ inr (inr (rng', rw i at e3))
                    ]
              ]
        ]
  ]

  module _ {ℓ} (P : Tree F → Grown F R → Type ℓ)
      (on_leaf : (i m : ℕ) (rng : R) → P (leaf i m) (leaf i (m + 1), false, rng))
      (apart : (t : Tree F) (b : BoundingBox F) (cut : Cut F) (rng rng' : R)
        → tree_box f64 draw dim points idx point t ≡ ok b
        → augmented_random_cut f64 draw dim b point rng ≡ ok (cut, rng')
        → isolates_point f64 dim cut point b ≡ true
        → P t (beside f64 draw dim points idx point cut (extended f64 b point) t, true, rng'))
      (on_left : (cut : Cut F) (b : BoundingBox F) (l r : Tree F) (g : Grown F R)
        → left_of f64 cut point ≡ true
        → P l g
        → P (split cut b l r) (split cut (if g.1 then extended f64 b point else b) g.0 r, g.1, g.2))
      (on_right : (cut : Cut F) (b : BoundingBox F) (l r : Tree F) (g : Grown F R)
        → left_of f64 cut point ≡ false
        → P r g
        → P
            (split cut b l r)
            (split cut (if g.1 then extended f64 b point else b) l g.0, g.1, g.2)) where
    pub grow-induction :
        (t : Tree F) (rng : R) (g : Grown F R)
        → grow f64 draw dim points idx point t rng ≡ ok g
        → P t g
    unfolding grow
    grow-induction (leaf i m) rng g e = elim (cut_or-cases (leaf i m) _ rng g e) [
      | inl (b, q, s, p) ↦ subst (P (leaf i m)) (cc p) (on_leaf i m rng)
      | inr (inl (b, cut, rng', q, p, i', d)) ↦
          subst (P (leaf i m)) (sym d) (apart (leaf i m) b cut rng rng' q p i')
      | inr (inr (rng', p)) ↦ absurd (cc p)
    ]
    grow-induction (split cut b l r) rng g e = elim (cut_or-cases (split cut b l r) _ rng g e) [
      | inl (b', q, s, p) ↦ absurd (cc p)
      | inr (inl (b', cut', rng', q, p, i', d)) ↦
          subst (P (split cut b l r)) (sym d) (apart (split cut b l r) b' cut' rng rng' q p i')
      | inr (inr (rng', p)) ↦ elim (Bool-cases (left_of f64 cut point)) [
        | inl s ↦
            let (v, ran, same) = >>=-eq-ok _ _ (rw s at p) in
            subst (P (split cut b l r)) (cc same)
              (on_left cut b l r v s (grow-induction l rng' v ran))
        | inr s ↦
            let (v, ran, same) = >>=-eq-ok _ _ (rw s at p) in
            subst (P (split cut b l r)) (cc same)
              (on_right cut b l r v s (grow-induction r rng' v ran))
      ]
    ]
