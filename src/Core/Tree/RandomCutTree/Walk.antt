-- ===== src/Core/Tree/RandomCutTree/Walk.antt =====
-- Walks that change nothing: `max_depth` and `codisp_stateless` of core/src/tree/random_cut_tree.rs.
-- `fuel` bounds the walk.
use anomstream.Prelude.{
  ℕ, zero, suc, ◌+◌, ◌<◌, ◌≡◌, ◌∙◌, refl, ap, max, true, false, List, [], ◌∷◌, ◌⊎◌, sym, All,
  Option, none, some, length, ltb, ◌==◌, if◌then◌else◌, arith, Bool-cases, inl, inr,
}
use anomstream.Core.Error.{RcfResult, ok, err, invalid_config, empty_forest, ◌>>=◌, ◌>>◌}
use anomstream.Core.Domain.{ensure_dim, ensure_finite}
use anomstream.Core.Domain.Arith.{Arith}
use anomstream.Core.Domain.Boxes.{left_of}
use anomstream.Core.Tree.Node.{NodeRef, NodeView, view_mass}
use anomstream.Core.Tree.NodeStore.{NodeStore, view}
use anomstream.Core.Tree.RandomCutTree.{RandomCutTree}
use anomstream.Core.Tree.RandomCutTree.Shape.{Shape, tip, fork, top, height, root_of, mass}
use anomstream.Core.Tree.RandomCutTree.Holds.{Holds}
use anomstream.Core.Tree.RandomCutTree.Sits.{top-view}
use anomstream.Core.Tree.RandomCutTree.Grow.{Tree, leaf, split, erase, size}
use anomstream.Core.Tree.RandomCutTree.GrowSize.{size-erase}
use anomstream.Core.Tree.RandomCutTree.Whole.{IsTree}

abbrev unwrap_or_zero : RcfResult ℕ → ℕ
unwrap_or_zero (ok n) = n
unwrap_or_zero (err e) = 0

-- A value stands in a list.
abbrev pub Among : {F : Type 0} → F → List F → Type 0
Among d [] = ⊥
Among d (x ∷ xs) = (d ≡ x) ⊎ Among d xs

module _ {F : Type 0} where
  -- `subtree_depth`, with its calls on the children as an argument
  abbrev depth_under : (NodeRef → RcfResult ℕ) → ℕ → NodeView F → RcfResult ℕ
  depth_under recur depth (NodeView.leaf_view l) = ok depth
  depth_under recur depth (NodeView.internal_view i) = do
    l ← recur i.left
    r ← recur i.right
    ok (max l r)

  subtree_depth : ℕ → NodeStore F → NodeRef → ℕ → RcfResult ℕ
  subtree_depth zero s n depth = err invalid_config
  subtree_depth (suc fuel) s n depth =
      view s n >>= depth_under (λ child. subtree_depth fuel s child (depth + 1)) depth

  abbrev max_depth_from : ℕ → RandomCutTree F → Option NodeRef → Option ℕ
  max_depth_from fuel t none = none
  max_depth_from fuel t (some root) = some (unwrap_or_zero (subtree_depth fuel t.store root 0))

  pub max_depth : ℕ → RandomCutTree F → Option ℕ
  unfolding subtree_depth
  max_depth fuel t = max_depth_from fuel t t.root

  subtree_depth_lem :
      (t : Shape F) (fuel : ℕ) (s : NodeStore F) (p : Option NodeRef) (depth : ℕ)
      → height t < fuel
      → Holds s p t
      → subtree_depth fuel s (top t) depth ≡ ok (depth + height t)
  unfolding subtree_depth height
  subtree_depth_lem t zero s p depth b h = absurd (omega (arith, b))
  subtree_depth_lem (tip n i m) (suc fuel) s p depth b (w, v) = rw v (ap ok (omega arith))
  subtree_depth_lem (fork n cut bbox l r) (suc fuel) s p depth b (w, v, hl, hr) =
      rw
        (
          v,
          subtree_depth_lem l fuel s (some n) (depth + 1) (omega (arith, b)) hl,
          subtree_depth_lem r fuel s (some n) (depth + 1) (omega (arith, b)) hr,
        )
        (ap ok (omega arith))

  module _ (f64 : Arith F) (dim : ℕ) (point : List F) where
    -- The larger of the ratio of the two masses and what was there.
    abbrev larger_disp : F → ℕ → ℕ → F
    larger_disp max_disp next_mass sibling_mass =
        let disp = f64.div (f64.of_u64 sibling_mass) (f64.of_u64 next_mass) in
        if ltb 0 next_mass then if f64.lt max_disp disp then disp else max_disp else max_disp

    -- One round of the loop of `codisp_stateless`, with the next as an argument
    abbrev codisp_under : (NodeRef → F → RcfResult F) → NodeStore F → F → NodeView F → RcfResult F
    codisp_under next s max_disp (NodeView.leaf_view l) = ok max_disp
    codisp_under next s max_disp (NodeView.internal_view i) = do
      let go_left = left_of f64 i.cut point
      a ← view s (if go_left then i.left else i.right)
      b ← view s (if go_left then i.right else i.left)
      next (if go_left then i.left else i.right) (larger_disp max_disp (view_mass a) (view_mass b))

    codisp_from : ℕ → NodeStore F → NodeRef → F → RcfResult F
    codisp_from zero s n max_disp = err invalid_config
    codisp_from (suc fuel) s n max_disp =
        view s n >>= codisp_under (λ m d. codisp_from fuel s m d) s max_disp

    abbrev codisp_root : ℕ → RandomCutTree F → Option NodeRef → RcfResult F
    codisp_root fuel t none = err empty_forest
    codisp_root fuel t (some root) = codisp_from fuel t.store root f64.zero

    pub codisp_stateless : ℕ → RandomCutTree F → RcfResult F
    unfolding codisp_from
    codisp_stateless fuel t = do
      ensure_dim point dim
      ensure_finite f64.is_finite point
      codisp_root fuel t t.root

    abbrev with_ratio : ℕ → ℕ → List F → List F
    with_ratio own beside ds =
        if ltb 0 own then f64.div (f64.of_u64 beside) (f64.of_u64 own) ∷ ds else ds

    -- For each subtree below the root on the path of the cuts, unless its mass is 0: the mass of its
    -- sibling divided by its own.
    unfoldable pub ratios : Tree F → List F
    ratios (leaf i m) = []
    ratios (split cut bbox l r) =
        if left_of f64 cut point
        then with_ratio (size l) (size r) (ratios l)
        else with_ratio (size r) (size l) (ratios r)

    -- A value that is 0 or one of a list, and below neither 0 nor any of the list.
    pub record IsGreatest (ds : List F) (d : F) : Type 0 where
      pub among : (d ≡ f64.zero) ⊎ Among d ds
      pub above_zero : f64.lt d f64.zero ≡ false
      pub above : All (λ x. f64.lt d x ≡ false) ds

    raised : List F → F → F
    raised [] acc = acc
    raised (d ∷ ds) acc = raised ds (if f64.lt acc d then d else acc)

    round_lem :
        (own beside : ℕ) (ds : List F) (acc : F)
        → raised (with_ratio own beside ds) acc ≡ raised ds (larger_disp acc own beside)
    unfolding raised
    round_lem own beside ds acc = elim (Bool-cases (ltb 0 own)) [
      | inl e ↦ rw e refl
      | inr e ↦ rw e refl
    ]

    codisp_from_lem :
        (t : Shape F) (fuel : ℕ) (s : NodeStore F) (p : Option NodeRef) (acc : F)
        → height t < fuel
        → Holds s p t
        → codisp_from fuel s (top t) acc ≡ ok (raised (ratios (erase t)) acc)
    unfolding codisp_from height ratios raised erase
    codisp_from_lem t zero s p acc b h = absurd (omega (arith, b))
    codisp_from_lem (tip n i m) (suc fuel) s p acc b (w, v) = rw v refl
    codisp_from_lem (fork n cut bbox l r) (suc fuel) s p acc b (w, v, hl, hr) =
        let (_, lv, _, lm) = top-view s (some n) l hl in
        let (_, rv, _, rm) = top-view s (some n) r hr in
        elim (Bool-cases (left_of f64 cut point)) [
          | inl e ↦
              rw (v, e, lv, rv, lm, rm, size-erase l, size-erase r)
                (codisp_from_lem l fuel s (some n) _ (omega (arith, b)) hl
                  ∙ ap ok (sym (round_lem (mass l) (mass r) (ratios (erase l)) acc)))
          | inr e ↦
              rw (v, e, lv, rv, lm, rm, size-erase l, size-erase r)
                (codisp_from_lem r fuel s (some n) _ (omega (arith, b)) hr
                  ∙ ap ok (sym (round_lem (mass r) (mass l) (ratios (erase r)) acc)))
        ]

    module _ (trans : (x y z : F) → f64.lt x y ≡ true → f64.lt y z ≡ true → f64.lt x z ≡ true)
        (irrefl : (x : F) → f64.lt x x ≡ false) where
      -- What is not above a value is not above a greater one.
      not_below : (acc d x : F) → f64.lt acc d ≡ true → f64.lt acc x ≡ false → f64.lt d x ≡ false
      not_below acc d x h k = elim (Bool-cases (f64.lt d x)) [
        | inl e ↦ absurd (cc (trans acc d x h e))
        | inr e ↦ e
      ]

      raised-Among : (ds : List F) (acc v : F) → v ≡ raised ds acc → (v ≡ acc) ⊎ Among v ds
      unfolding raised
      raised-Among [] acc v h = inl h
      raised-Among (d ∷ ds) acc v h = elim (Bool-cases (f64.lt acc d)) [
        | inl e ↦ inr (raised-Among ds d v (h ∙ rw e refl))
        | inr e ↦ elim (raised-Among ds acc v (h ∙ rw e refl)) [
          | inl same ↦ inl same
          | inr later ↦ inr (inr later)
        ]
      ]

      raised_above :
          (ds : List F) (acc v x : F)
          → v ≡ raised ds acc
          → f64.lt acc x ≡ false
          → f64.lt v x ≡ false
      unfolding raised
      raised_above [] acc v x h k = ap (λ u. f64.lt u x) h ∙ k
      raised_above (d ∷ ds) acc v x h k = elim (Bool-cases (f64.lt acc d)) [
        | inl e ↦ raised_above ds d v x (h ∙ rw e refl) (not_below acc d x e k)
        | inr e ↦ raised_above ds acc v x (h ∙ rw e refl) k
      ]

      raised_above_all :
          (ds : List F) (acc v : F) → v ≡ raised ds acc → All (λ x. f64.lt v x ≡ false) ds
      unfolding raised
      raised_above_all [] acc v h = tt
      raised_above_all (d ∷ ds) acc v h = elim (Bool-cases (f64.lt acc d)) [
        | inl e ↦
            let same : v ≡ raised ds d = h ∙ rw e refl in
            (raised_above ds d v d same (irrefl d), raised_above_all ds d v same)
        | inr e ↦
            let same : v ≡ raised ds acc = h ∙ rw e refl in
            (raised_above ds acc v d same e, raised_above_all ds acc v same)
      ]

      -- Let `<` be transitive and irreflexive, the object hold a tree in order (`IsTree`), and the
      -- fuel exceed the height. Then `max_depth` is the height, and `codisp_stateless` of a finite
      -- point of the dimension succeeds with the greatest of 0 and the ratios of the mass of sibling
      -- and subtree along the path that the cuts of the tree give the point: it is 0 or one of them,
      -- and less than none.
      pub codisp_stateless-IsTree :
          (tree : RandomCutTree F) (t : Shape F) (fuel : ℕ)
          → IsTree tree t
          → height t < fuel
          → length point ≡ dim
          → ensure_finite f64.is_finite point ≡ ok tt
          → (max_depth fuel tree ≡ some (height t))
            × (d : F) × (codisp_stateless fuel tree ≡ ok d)
            × IsGreatest (ratios (erase t)) d
      unfolding max_depth codisp_stateless ensure_dim root_of
      codisp_stateless-IsTree tree t fuel h b fits finite =
          let same_length : (length point == dim) ≡ true = ground (arith, fits) in
          let d = raised (ratios (erase t)) f64.zero in
          (
            ap (max_depth_from fuel tree) h.sits.rooted
                ∙ rw (subtree_depth_lem t fuel tree.store none 0 b h.sits.inner)
                    (ap some (omega arith)),
            d,
            rw (same_length, finite)
                (ap (codisp_root fuel tree) h.sits.rooted
                  ∙ codisp_from_lem t fuel tree.store none f64.zero b h.sits.inner),
            record {
              among = raised-Among (ratios (erase t)) f64.zero d refl;
              above_zero =
                  raised_above (ratios (erase t)) f64.zero d f64.zero refl (irrefl f64.zero);
              above = raised_above_all (ratios (erase t)) f64.zero d refl;
            },
          )
