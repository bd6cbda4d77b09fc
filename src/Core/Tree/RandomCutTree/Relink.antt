-- ===== src/Core/Tree/RandomCutTree/Relink.antt =====
-- Going down into a child of a held tree and back up: the end of `descend_or_split`.
use anomstream.Prelude.{
  ℕ, ◌<◌, ◌^◌, ◌≡◌, ◌∙◌, sym, refl, ap, subst, Bool-cases, inl, inr, Bool, true, false, Option,
  some, if◌then◌else◌, arith,
}
use anomstream.Core.Error.{RcfResult, ok}
use anomstream.Core.Domain.{Cut, BoundingBox}
use anomstream.Core.Tree.Node.{NodeRef, InternalData, NodeView, internal_view}
use anomstream.Core.Tree.NodeStore.{NodeStore, view, with_parent}
use anomstream.Core.Tree.NodeStore.Layout.{Layout}
use anomstream.Core.Tree.NodeStore.Update.{Written, set_internal-Written, set_parent-Written}
use anomstream.Core.Tree.RandomCutTree.{RandomCutTree, same_ref}
use anomstream.Core.Tree.RandomCutTree.Insert.{relink}
use anomstream.Core.Tree.RandomCutTree.Shape.{
  Shape, tip, fork, Around, under, top, mass, uses, uses_around, above, root_of,
}
use anomstream.Core.Tree.RandomCutTree.Holds.{
  HoldsAround, entry, same_ref_self, eq_of_same_ref, Holds-eq, HoldsAround-eq,
}
use anomstream.Core.Tree.RandomCutTree.Sits.{Sits, view_of, top-view}

module _ {F : Type 0} where
  -- Every record looks as before.
  abbrev Same : NodeStore F → NodeStore F → Type 0
  Same s s' = Layout s' × ((k : NodeRef) → k.raw < 2 ^ 32 → view s' k ≡ view s k)

  -- A record written over itself.
  Written-Same :
      (s s' : NodeStore F) (n : NodeRef) {v : NodeView F}
      → view s n ≡ ok v
      → Written s s' n v
      → Same s s'
  Written-Same s s' n e wr = (
    wr.layout,
    λ k w. elim (Bool-cases (same_ref k n)) [
      | inl d ↦
          let same = eq_of_same_ref k n d in
          ap (view s') same ∙ wr.holds ∙ sym e ∙ ap (view s) (sym same)
      | inr d ↦
          wr.frame k w
            (λ same. absurd (ground (arith, d, ap (λ x. same_ref x n) same, same_ref_self n)))
    ],
  )

  Sits-Same :
      (tree : RandomCutTree F) (s' : NodeStore F) (c : Around F) (t : Shape F)
      → Same tree.store s'
      → Sits tree c t
      → Sits (record tree { store = s' }) c t
  Sits-Same tree s' c t (w, same) h = record {
    rooted = h.rooted;
    layout = w;
    inner = Holds-eq tree.store s' (above c) t (λ k kw u. same k kw) h.inner;
    outer = HoldsAround-eq tree.store s' c (top t) (mass t) (λ k kw u. same k kw) h.outer;
    once = h.once;
  }

  -- A tree whose child on one side is `t`.
  abbrev pub forked : Bool → NodeRef → Cut F → BoundingBox F → Shape F → Shape F → Shape F
  forked true n cut bbox t other = fork n cut bbox t other
  forked false n cut bbox t other = fork n cut bbox other t

  pub Sits-down :
      (tree : RandomCutTree F) (c : Around F) (side : Bool) (n : NodeRef) (cut : Cut F)
      (bbox : BoundingBox F) (t other : Shape F)
      → Sits tree c (forked side n cut bbox t other)
      → Sits tree (under side n cut bbox other c) t
  unfolding uses uses_around mass root_of
  Sits-down tree c true n cut bbox t other h = record {
    rooted = h.rooted;
    layout = h.layout;
    inner = h.inner.2;
    outer = (h.inner.0, h.inner.1, h.inner.3, h.outer);
    once = λ k. omega (arith, h.once k);
  }
  Sits-down tree c false n cut bbox t other h = record {
    rooted = h.rooted;
    layout = h.layout;
    inner = h.inner.3;
    outer =
        (h.inner.0, h.inner.1, h.inner.2, subst (HoldsAround tree.store c n) (omega arith) h.outer);
    once = λ k. omega (arith, h.once k);
  }

  pub Sits-up :
      (tree : RandomCutTree F) (c : Around F) (side : Bool) (n : NodeRef) (cut : Cut F)
      (bbox : BoundingBox F) (t other : Shape F)
      → Sits tree (under side n cut bbox other c) t
      → Sits tree c (forked side n cut bbox t other)
  unfolding uses uses_around mass root_of
  Sits-up tree c true n cut bbox t other h = record {
    rooted = h.rooted;
    layout = h.layout;
    inner = (h.outer.0, h.outer.1, h.inner, h.outer.2);
    outer = h.outer.3;
    once = λ k. omega (arith, h.once k);
  }
  Sits-up tree c false n cut bbox t other h = record {
    rooted = h.rooted;
    layout = h.layout;
    inner = (h.outer.0, h.outer.1, h.outer.2, h.inner);
    outer = subst (HoldsAround tree.store c n) (omega arith) h.outer.3;
    once = λ k. omega (arith, h.once k);
  }

  -- `relink` finds the slot of the child right already.
  pub relink_lem :
      (tree : RandomCutTree F) (c : Around F) (side : Bool) (n : NodeRef) (cut : Cut F)
      (bbox : BoundingBox F) (t other : Shape F) (i : InternalData F)
      → (if side then i.right else i.left) ≡ top other
      → Sits tree (under side n cut bbox other c) t
      → (s' : NodeStore F) × (relink n i side (top t) tree ≡ ok (record tree { store = s' }))
        × Sits (record tree { store = s' }) (under side n cut bbox other c) t
  relink_lem tree c side n cut bbox t other i e h =
      let old = if side then i.left else i.right in
      let (tw, tv, _, _) = top-view tree.store (some n) t h.inner in
      let (_, (s1, ran1, wr1), _) =
        set_internal-Written tree.store n bbox (if side then top t else i.left)
          (if side then i.right else top t) cut h.layout h.outer.0 h.outer.1 in
      let d1 =
        Written-Same tree.store s1 n
          (h.outer.1 ∙ sides side (above c) cut bbox (mass t) t other i e) wr1 in
      let (s2, ran2, wr2) =
        set_parent-Written s1 (top t) (some n) wr1.layout tw (d1.1 (top t) tw ∙ tv) in
      let d2 = Written-Same s1 s2 (top t) (d1.1 (top t) tw ∙ tv ∙ own_parent t) wr2 in
      elim (Bool-cases (same_ref (top t) old)) [
        | inl q ↦ (tree.store, rw q refl, h)
        | inr q ↦ (
          s2,
          rw (q, ran1, ran2) refl,
          Sits-Same tree s2 (under side n cut bbox other c) t (d2.0, λ k kw. d2.1 k kw ∙ d1.1 k kw)
              h,
        )
      ]
    where
      sides :
          (side : Bool) (p : Option NodeRef) (cut : Cut F) (bbox : BoundingBox F) (m : ℕ)
          (t other : Shape F) (i : InternalData F)
          → (if side then i.right else i.left) ≡ top other
          → Path
              (RcfResult (NodeView F))
              (ok (internal_view (entry side p cut bbox (top t) m other)))
              (ok (
                internal_view (record (entry side p cut bbox (top t) m other) {
                  left = if side then top t else i.left;
                  right = if side then i.right else top t;
                })))
      sides true p cut bbox m t other i e =
          ap
            (λ x. ok (internal_view (record (entry true p cut bbox (top t) m other) { right = x })))
            (sym e)
      sides false p cut bbox m t other i e =
          ap
            (λ x. ok (internal_view (record (entry false p cut bbox (top t) m other) { left = x })))
            (sym e)

      own_parent :
          (t : Shape F)
          → Path
              (RcfResult (NodeView F))
              (ok (view_of (some n) t))
              (ok (with_parent (some n) (view_of (some n) t)))
      own_parent (tip k i m) = refl
      own_parent (fork k cut bbox l r) = refl
