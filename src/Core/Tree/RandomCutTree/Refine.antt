-- ===== src/Core/Tree/RandomCutTree/Refine.antt =====
-- `insert_at` on an arena does to the tree that the arena holds what `grow` does to a tree.
use anomstream.Prelude.{
  ℕ, zero, suc, ◌+◌, ◌<◌, ◌^◌, ◌≡◌, ◌∙◌, refl, ap, subst, Bool-cases, inl, inr, ◌⊎◌, Bool, true,
  false, Option, List, length, if◌then◌else◌, arith,
}
use anomstream.Core.Error.{RcfError, RcfResult, ok, err, invalid_config, ◌>>=◌, result_cases}
use anomstream.Core.Domain.{Cut, BoundingBox}
use anomstream.Core.Domain.Arith.{Arith}
use anomstream.Core.Domain.Boxes.{
  left_of, extended, extend, augmented_range_sum, augmented_random_cut,
}
use anomstream.Core.Tree.Node.{NodeRef, InternalData, internal_view}
use anomstream.Core.Tree.NodeStore.{NodeStore, view}
use anomstream.Core.Tree.NodeStore.Views.{kind_of_internal}
use anomstream.Core.Tree.RandomCutTree.{
  same_ref, RandomCutTree, absorb_duplicate, isolates_point, bbox_of, splice_new_internal,
}
use anomstream.Core.Tree.RandomCutTree.Insert.{insert_at, descend_or_split}
use anomstream.Core.Tree.RandomCutTree.Shape.{
  Shape, tip, fork, Around, under, top, mass, height, mass_at, Tips, above, depth, weight, reboxed,
}
use anomstream.Core.Tree.RandomCutTree.Holds.{Holds, joined}
use anomstream.Core.Tree.RandomCutTree.Sits.{Sits, Mapped, absorb_duplicate_lem}
use anomstream.Core.Tree.RandomCutTree.Splice.{HasRoom, spliced, splice_new_internal_lem}
use anomstream.Core.Tree.RandomCutTree.Relink.{forked, relink_lem, Sits-down, Sits-up}
use anomstream.Core.Tree.RandomCutTree.Grow.{
  erase, Grown, tree_box, coincide, beside, with_child, cut_or, grow,
}

module _ {F R : Type 0} (f64 : Arith F) (draw : R → F × R) (dim : ℕ) (points : ℕ → Option (List F))
    (climb_fuel idx : ℕ) (point : List F) (fits : length point ≡ dim) where
  -- What is around the tree afterwards: the boxes above take the point in when a leaf was made.
  abbrev pub around : Bool → Around F → Around F
  around is_new c = if is_new then reboxed (λ b. extended f64 b point) c else c

  -- The point `idx` is one more in the leaf `n`.
  pub record OneMore (t t' : Shape F) (i : ℕ) (n : NodeRef) : Type 1 where
    pub heavier : (k : NodeRef) → mass_at t' k ≡ mass_at t k + (if same_ref n k then 1 else 0)
    pub tips : (Q : NodeRef → ℕ → Type 0) → Tips Q t → Q n i → Tips Q t'

  -- The arena operation fails as the tree operation does, or both succeed and the object holds the
  -- tree that the tree operation gives, in the same place, the index pointing to a leaf of it.
  abbrev pub Refines :
      RandomCutTree F
      → Around F
      → Shape F
      → RcfResult (NodeRef × RandomCutTree F × R)
      → RcfResult (Grown F R)
      → Type 1
  Refines tree c t run grown =
      ((e : RcfError) × (grown ≡ err e) × (run ≡ err e))
      ⊎ ((n : NodeRef) × (t' : Shape F) × (is_new : Bool) × (rng' : R) × (tree' : RandomCutTree F)
          × (grown ≡ ok (erase t', is_new, rng'))
          × (run ≡ ok (top t', tree', rng'))
          × Sits tree' (around is_new c) t'
          × Mapped tree tree' idx n
          × OneMore t t' idx n)

  bbox_of_lem :
      (s : NodeStore F) (p : Option NodeRef) (t : Shape F)
      → Holds s p t
      → bbox_of f64 dim points s (top t) ≡ tree_box f64 draw dim points idx point (erase t)
  unfolding bbox_of erase
  bbox_of_lem s p (tip n i m) h = rw h.1 refl
  bbox_of_lem s p (fork n cut bbox l r) h = rw h.1 refl

  absorb-Refines :
      (tree : RandomCutTree F) (c : Around F) (t : Shape F) (rng : R)
      → depth c < climb_fuel
      → Sits tree c t
      → weight c (mass t) + 1 < 2 ^ 64
      → Refines tree c t
          (absorb_duplicate climb_fuel (top t) idx tree >>= λ (m, t'). ok (m, t', rng))
          (coincide f64 draw dim points idx point (erase t) rng)
  unfolding erase mass mass_at absorb_duplicate
  absorb-Refines tree c (tip n i m) rng b h small =
      let (tree', ran, sits, mapped) = absorb_duplicate_lem tree c climb_fuel n i m idx b h small in
      inr (
        n,
        tip n i (m + 1),
        false,
        rng,
        tree',
        refl,
        rw ran refl,
        sits,
        mapped,
        record { heavier = λ k. ground arith; tips = λ Q h new. h },
      )
  absorb-Refines tree c (fork n cut bbox l r) rng b h small =
      inl (invalid_config, refl, rw (kind_of_internal tree.store n _ h.inner.1).0 refl)

  erase-spliced :
      (side : Bool) (q n : NodeRef) (cut : Cut F) (bbox : BoundingBox F) (t : Shape F)
      → left_of f64 cut point ≡ side
      → (beside f64 draw dim points idx point cut bbox (erase t)
          ≡ erase (spliced side q n idx cut bbox t))
        × OneMore t (spliced side q n idx cut bbox t) idx n
  unfolding erase mass_at
  erase-spliced true q n cut bbox t e =
      (rw e refl, record { heavier = λ k. omega arith; tips = λ Q h new. (new, h) })
  erase-spliced false q n cut bbox t e =
      (rw e refl, record { heavier = λ k. omega arith; tips = λ Q h new. (h, new) })

  splice-Refines :
      (tree : RandomCutTree F) (c : Around F) (t : Shape F) (cut : Cut F) (b : BoundingBox F)
      (rng : R)
      → depth c < climb_fuel
      → Sits tree c t
      → HasRoom tree.store
      → weight c (mass t) + 1 < 2 ^ 64
      → Refines tree c t
          (extend f64 dim b point >>= λ bbox.
            splice_new_internal f64 dim climb_fuel (top t) idx point cut bbox tree >>= λ (m, t').
            ok (m, t', rng))
          (ok
            (beside f64 draw dim points idx point cut (extended f64 b point) (erase t), true, rng))
  unfolding extend
  splice-Refines tree c t cut b rng enough h room small =
      let bbox = extended f64 b point in
      let (n, q, tree', ran, sits, mapped) =
        splice_new_internal_lem f64 dim point fits tree c t climb_fuel idx cut bbox enough h room
          small in
      let side = left_of f64 cut point in
      let reaches : extend f64 dim b point ≡ ok (extended f64 b point) = ground (arith, fits) in
      let (same, more) = erase-spliced side q n cut bbox t refl in
      inr (
        n,
        spliced side q n idx cut bbox t,
        true,
        rng,
        tree',
        ap (λ x. ok (x, true, rng)) same,
        rw (reaches, ran) refl,
        sits,
        mapped,
        more,
      )

  -- One node of the descent: `below` is what the tree operation does when the cut does not isolate the
  -- point.
  step-Refines :
      (tree : RandomCutTree F) (c : Around F) (t : Shape F) (fuel : ℕ) (rng : R)
      (below : R → RcfResult (Grown F R))
      → depth c < climb_fuel
      → Sits tree c t
      → HasRoom tree.store
      → weight c (mass t) + 1 < 2 ^ 64
      → ((rng' : R)
          → Refines tree c t
              (view tree.store (top t)
                >>= descend_or_split f64 draw dim points climb_fuel
                    (λ next. insert_at f64 draw dim points climb_fuel fuel next idx point tree rng')
                    (top t)
                    point)
              (below rng'))
      → Refines tree c t
          (insert_at f64 draw dim points climb_fuel (suc fuel) (top t) idx point tree rng)
          (cut_or f64 draw dim points idx point (erase t) below rng)
  unfolding insert_at
  step-Refines tree c t fuel rng below enough h room small rest =
      let box = bbox_of_lem tree.store (above c) t h.inner in
      elim (result_cases (tree_box f64 draw dim points idx point (erase t))) [
        | inr (e, q) ↦ inl (e, rw q refl, rw (box, q) refl)
        | inl (b, q) ↦ elim (Bool-cases (f64.le (augmented_range_sum f64 b point) f64.zero)) [
          | inl s ↦ rw (box, q, s) (absorb-Refines tree c t rng enough h small)
          | inr s ↦ elim (result_cases (augmented_random_cut f64 draw dim b point rng)) [
            | inr (e, p) ↦ inl (e, rw (q, s, p) refl, rw (box, q, s, p) refl)
            | inl ((cut, rng'), p) ↦ elim (Bool-cases (isolates_point f64 dim cut point b)) [
              | inl i ↦
                  rw (box, q, s, p, i) (splice-Refines tree c t cut b rng' enough h room small)
              | inr i ↦ rw (box, q, s, p, i) (rest rng')
            ]
          ]
        ]
      ]

  around_under :
      (is_new side : Bool) (n : NodeRef) (cut : Cut F) (bbox : BoundingBox F) (other : Shape F)
      (c : Around F)
      → around is_new (under side n cut bbox other c)
        ≡ under side n cut
            (if is_new then extended f64 bbox point else bbox)
            other
            (around is_new c)
  unfolding reboxed
  around_under true side n cut bbox other c = refl
  around_under false side n cut bbox other c = refl

  with_child-forked :
      (side : Bool) (n : NodeRef) (cut : Cut F) (bbox : BoundingBox F) (other t t' : Shape F)
      (is_new : Bool) (rng : R)
      → left_of f64 cut point ≡ side
      → with_child f64 draw dim points idx point cut bbox
          (if side then erase t else erase other)
          (if side then erase other else erase t)
          (erase t', is_new, rng)
        ≡ (
          erase (forked side n cut (if is_new then extended f64 bbox point else bbox) t' other),
          is_new,
          rng,
        )
  unfolding erase
  with_child-forked true n cut bbox other t t' is_new rng e = rw e refl
  with_child-forked false n cut bbox other t t' is_new rng e = rw e refl

  of_forked :
      (side : Bool) (n : NodeRef) (cut : Cut F) (bbox : BoundingBox F) (t other : Shape F)
      → top (forked side n cut bbox t other) ≡ n
  of_forked true n cut bbox t other = refl
  of_forked false n cut bbox t other = refl

  forked-OneMore :
      (side : Bool) (n : NodeRef) (cut : Cut F) (b b' : BoundingBox F) (t t' other : Shape F)
      (k : NodeRef)
      → OneMore t t' idx k
      → OneMore (forked side n cut b t other) (forked side n cut b' t' other) idx k
  unfolding mass_at
  forked-OneMore true n cut b b' t t' other k more = record {
    heavier = λ j. omega (arith, more.heavier j);
    tips = λ Q h new. (more.tips Q h.0 new, h.1);
  }
  forked-OneMore false n cut b b' t t' other k more = record {
    heavier = λ j. omega (arith, more.heavier j);
    tips = λ Q h new. (h.0, more.tips Q h.1 new);
  }

  -- Below a node, into the child on the side of the cut.
  descend-Refines :
      (tree : RandomCutTree F) (c : Around F) (side : Bool) (n : NodeRef) (cut : Cut F)
      (bbox : BoundingBox F) (t other : Shape F) (i : InternalData F)
      (recur : NodeRef → RcfResult (NodeRef × RandomCutTree F × R)) (below : RcfResult (Grown F R))
      → i.cut ≡ cut
      → left_of f64 cut point ≡ side
      → (if side then i.left else i.right) ≡ top t
      → (if side then i.right else i.left) ≡ top other
      → Refines tree (under side n cut bbox other c) t (recur (top t)) below
      → Refines tree c
          (forked side n cut bbox t other)
          (descend_or_split f64 draw dim points climb_fuel recur n point (internal_view i))
          (below >>= λ g. ok (
            with_child f64 draw dim points idx point cut bbox
              (if side then erase t else erase other)
              (if side then erase other else erase t)
              g))
  descend-Refines tree c side n cut bbox t other i recur below k e near far (inl (why, g, r)) =
      inl (why, rw g refl, rw (ap (λ x. left_of f64 x point) k ∙ e, ap recur near ∙ r) refl)
  descend-Refines tree c side n cut bbox t other i recur below k e near far
        (inr (m, t', is_new, rng', tree', g, r, sits, mapped, more)) =
      let box = if is_new then extended f64 bbox point else bbox in
      let sits' = subst (λ a. Sits tree' a t') (around_under is_new side n cut bbox other c) sits in
      let (s', ran, again) =
        relink_lem tree' (around is_new c) side n cut box t' other i far sits' in
      inr (
        m,
        forked side n cut box t' other,
        is_new,
        rng',
        record tree' { store = s' },
        rw g (ap ok (with_child-forked side n cut bbox other t t' is_new rng' e)),
        rw
            (
              ap (λ x. left_of f64 x point) k ∙ e,
              ap recur near ∙ r,
              ran,
              of_forked side n cut box t' other,
            )
            refl,
        Sits-up (record tree' { store = s' }) (around is_new c) side n cut box t' other again,
        record { entries = mapped.entries; distinct = mapped.distinct; leaf = mapped.leaf },
        forked-OneMore side n cut bbox box t t' other m more,
      )

  -- With fuel for the height and for the loops to the root, and with room and no overflow of the mass.
  pub insert_at-Refines :
      (t : Shape F) (tree : RandomCutTree F) (c : Around F) (fuel : ℕ) (rng : R)
      → height t < fuel
      → depth c + height t < climb_fuel
      → Sits tree c t
      → HasRoom tree.store
      → weight c (mass t) + 1 < 2 ^ 64
      → Refines tree c t
          (insert_at f64 draw dim points climb_fuel fuel (top t) idx point tree rng)
          (grow f64 draw dim points idx point (erase t) rng)
  unfolding grow erase height mass depth weight
  insert_at-Refines t tree c zero rng b enough h room small = absurd (omega (arith, b))
  insert_at-Refines (tip n i m) tree c (suc fuel) rng b enough h room small =
      step-Refines tree c (tip n i m) fuel rng (λ rng'. err invalid_config) (omega (arith, enough))
        h room small (λ rng'. inl (invalid_config, refl, rw h.inner.1 refl))
  insert_at-Refines (fork n cut bbox l r) tree c (suc fuel) rng b enough h room small =
      let next = λ (rng' : R) (k : NodeRef).
        insert_at f64 draw dim points climb_fuel fuel k idx point tree rng' in
      let below = λ (rng' : R).
        if left_of f64 cut point
        then grow f64 draw dim points idx point (erase l) rng'
        else grow f64 draw dim points idx point (erase r) rng' in
      step-Refines tree c (fork n cut bbox l r) fuel rng
        (λ rng'. below rng' >>= λ g.
          ok (with_child f64 draw dim points idx point cut bbox (erase l) (erase r) g))
        (omega (arith, enough)) h room small
        (λ rng'. rw h.inner.1 (elim (Bool-cases (left_of f64 cut point)) [
          | inl e ↦
              descend-Refines tree c true n cut bbox l r (joined (above c) cut bbox l r) (next rng')
                (below rng') refl e refl refl
                (rw e (
                  insert_at-Refines l tree (under true n cut bbox r c) fuel rng' (omega (arith, b))
                    (omega (arith, enough)) (Sits-down tree c true n cut bbox l r h) room small))
          | inr e ↦
              descend-Refines tree c false n cut bbox r l (joined (above c) cut bbox l r)
                (next rng') (below rng') refl e refl refl
                (rw e (
                  insert_at-Refines r tree (under false n cut bbox l c) fuel rng' (omega (arith, b))
                    (omega (arith, enough)) (Sits-down tree c false n cut bbox r l h) room
                    (subst (λ m. weight c m + 1 < 2 ^ 64) (omega arith) small)))
        ]))
