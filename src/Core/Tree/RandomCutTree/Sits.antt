-- ===== src/Core/Tree/RandomCutTree/Sits.antt =====
-- When a tree object holds a tree at a place, and what a step of an insertion does to it.
use anomstream.Prelude.{
  ℕ, ◌+◌, ◌≤◌, ◌<◌, ◌^◌, ◌≡◌, ◌∙◌, refl, ap, subst, Bool-cases, inl, inr, Bool, true, false, Option,
  some, if◌then◌else◌, arith,
}
use anomstream.Core.Error.{ok}
use anomstream.Core.Domain.{Cut, BoundingBox}
use anomstream.Core.Tree.Node.{
  NodeRef, NodeView, internal_view, leaf_view, is_leaf, view_mass, view_parent,
}
use anomstream.Core.Tree.NodeStore.{NodeStore, view, with_parent, set_internal_children}
use anomstream.Core.Tree.NodeStore.Layout.{Layout}
use anomstream.Core.Tree.NodeStore.Views.{kind_of_leaf, parent-view}
use anomstream.Core.Tree.NodeStore.Update.{Written, set_internal-Written}
use anomstream.Core.Tree.RandomCutTree.{
  RandomCutTree, same_ref, leaf_index_set, absorb_duplicate, plus_one, replace_in_parent, new_child,
}
use anomstream.Core.Tree.RandomCutTree.Shape.{
  Shape, tip, fork, Around, whole, under, top, mass, uses, uses_around, above, spine, depth, weight,
  root_of,
}
use anomstream.Core.Tree.RandomCutTree.Holds.{
  Holds, HoldsAround, joined, entry, same_ref_self, eq_of_same_ref, uses-top, Holds-Frame,
  HoldsAround-Frame,
}
use anomstream.Core.Tree.RandomCutTree.Climb.{spine-le, weight-le}
use anomstream.Core.Tree.RandomCutTree.Bodies.{change_mass-Written, climb-plus_one}

module _ {F : Type 0} where
  -- The object holds `t` in the open place of `c`, no node stands twice, and the parents, masses and
  -- children in the arena are those of the whole.
  pub record Sits (tree : RandomCutTree F) (c : Around F) (t : Shape F) : Type 0 where
    pub rooted : tree.root ≡ some (root_of c (top t))
    pub layout : Layout tree.store
    pub inner : Holds tree.store (above c) t
    pub outer : HoldsAround tree.store c (top t) (mass t)
    pub once : (k : NodeRef) → uses t k + uses_around c k ≤ 1

  -- The reverse index is as `leaf_index_set` leaves it.
  pub record Mapped (tree tree' : RandomCutTree F) (idx : ℕ) (n : NodeRef) : Type 0 where
    pub entries : tree'.leaf_index ≡ (leaf_index_set idx n tree).leaf_index
    pub distinct : tree'.distinct_count ≡ (leaf_index_set idx n tree).distinct_count
    pub leaf : is_leaf n ≡ true

  -- The record of the top of a tree that is held under the parent `p`.
  abbrev pub view_of : Option NodeRef → Shape F → NodeView F
  view_of p (tip n i m) = leaf_view (record { point_idx = i; parent = p; mass = m })
  view_of p (fork n cut bbox l r) = internal_view (joined p cut bbox l r)

  pub top-view :
      (s : NodeStore F) (p : Option NodeRef) (t : Shape F)
      → Holds s p t
      → ((top t).raw < 2 ^ 32)
        × (view s (top t) ≡ ok (view_of p t))
        × (view_parent (view_of p t) ≡ p)
        × (view_mass (view_of p t) ≡ mass t)
  unfolding mass
  top-view s p (tip n i m) (w, v) = (w, v, refl, refl)
  top-view s p (fork n cut bbox l r) (w, v, hl, hr) = (w, v, refl, refl)

  -- The tree with another parent above its top.
  pub Holds-with_parent :
      (s s' : NodeStore F) (p q : Option NodeRef) (t : Shape F)
      → ((k : NodeRef) → uses t k ≤ 1)
      → Holds s p t
      → Written s s' (top t) (with_parent q (view_of p t))
      → Holds s' q t
  unfolding uses
  Holds-with_parent s s' p q (tip n i m) u (w, e) wr = (w, wr.holds)
  Holds-with_parent s s' p q (fork n cut bbox l r) u (w, e, hl, hr) wr = (
    w,
    wr.holds,
    Holds-Frame s s' (some n) l n wr.frame (ground (arith, u n, same_ref_self n)) hl,
    Holds-Frame s s' (some n) r n wr.frame (ground (arith, u n, same_ref_self n)) hr,
  )

  pub top_ne : (t : Shape F) (n : NodeRef) → uses t n ≡ 0 → same_ref (top t) n ≡ false
  top_ne t n z = elim (Bool-cases (same_ref (top t) n)) [
    | inl e ↦ absurd (omega (arith, z, uses-top t, ap (uses t) (eq_of_same_ref (top t) n e)))
    | inr e ↦ e
  ]

  new_child-entry :
      (side : Bool) (s : NodeStore F) (p : Option NodeRef) (cut : Cut F) (bbox : BoundingBox F)
      (j n q : NodeRef) (m : ℕ) (other : Shape F)
      → uses other n ≡ 0
      → new_child s j n q (internal_view (entry side p cut bbox n m other))
        ≡ set_internal_children s j (if side then q else top other) (if side then top other else q)
  new_child-entry true s p cut bbox j n q m other z = rw (same_ref_self n) refl
  new_child-entry false s p cut bbox j n q m other z = rw (top_ne other n z, same_ref_self n) refl

  -- The open place given to another node.
  pub replace_in_parent_lem :
      (tree : RandomCutTree F) (c : Around F) (n q : NodeRef) (m : ℕ)
      → tree.root ≡ some (root_of c n)
      → Layout tree.store
      → HoldsAround tree.store c n m
      → ((k : NodeRef) → uses_around c k ≤ 1)
      → uses_around c n ≡ 0
      → (tree' : RandomCutTree F) × (replace_in_parent tree (above c) n q ≡ ok tree')
        × (tree'.root ≡ some (root_of c q))
        × Layout tree'.store
        × HoldsAround tree'.store c q m
        × ((k : NodeRef) → k.raw < 2 ^ 32 → spine c k ≡ 0 → view tree'.store k ≡ view tree.store k)
        × (tree'.leaf_index ≡ tree.leaf_index)
        × (tree'.distinct_count ≡ tree.distinct_count)
  unfolding replace_in_parent root_of uses_around spine
  replace_in_parent_lem tree whole n q m e w h u z =
      (record tree { root = some q }, refl, refl, w, tt, λ k kw s. refl, refl, refl)
  replace_in_parent_lem tree (under side j cut bbox other up) n q m e w (jw, jv, ho, hu) u z =
      let l = if side then q else top other in
      let r = if side then top other else q in
      let (_, (s', ran, wr), _) = set_internal-Written tree.store j bbox l r cut w jw jv in
      let here : uses other j + uses_around up j ≡ 0 = ground (arith, u j, same_ref_self j) in
      (
        record tree { store = s' },
        rw
            (
              jv,
              new_child-entry side tree.store (above up) cut bbox j n q m other (omega (arith, z)),
              ran,
            )
            refl,
        e,
        wr.layout,
        (
          jw,
          wr.holds,
          Holds-Frame tree.store s' (some j) other j wr.frame (omega (arith, here)) ho,
          HoldsAround-Frame tree.store s' up j (m + mass other) j wr.frame (omega (arith, here)) hu,
        ),
        λ k kw f.
            wr.frame k kw
              (λ same. absurd (ground (arith, f, same_ref_self j, ap (same_ref j) same))),
        refl,
        refl,
      )

  -- `absorb_duplicate` at a leaf adds one to its mass and to those above it.
  pub absorb_duplicate_lem :
      (tree : RandomCutTree F) (c : Around F) (fuel : ℕ) (n : NodeRef) (i m idx : ℕ)
      → depth c < fuel
      → Sits tree c (tip n i m)
      → weight c m + 1 < 2 ^ 64
      → (tree' : RandomCutTree F) × (absorb_duplicate fuel n idx tree ≡ ok (n, tree'))
        × Sits tree' c (tip n i (m + 1))
        × Mapped tree tree' idx n
  unfolding absorb_duplicate leaf_index_set uses mass
  absorb_duplicate_lem tree c fuel n i m idx b h q =
      let here : uses_around c n ≡ 0 = ground (arith, h.once n, same_ref_self n) in
      let (s1, ran1, wr) = change_mass-Written plus_one tree.store n h.layout h.inner.0 h.inner.1 in
      let outer1 = HoldsAround-Frame tree.store s1 c n m n wr.frame here h.outer in
      let (s2, ran2, w2, outer2, same) =
        climb-plus_one c fuel s1 n m b wr.layout q (λ k. omega (arith, h.once k)) outer1 in
      let one : plus_one m ≡ m + 1 = omega (arith, weight-le c m) in
      (
        leaf_index_set idx n (record tree { store = s2 }),
        rw ((kind_of_leaf tree.store n _ h.inner.1).0, ran1, parent-view s1 n wr.holds, ran2) refl,
        record {
          rooted = h.rooted;
          layout = w2;
          inner = (
            h.inner.0,
            same n h.inner.0 (omega (arith, spine-le c n, here))
                ∙ wr.holds
                ∙ ap (λ x. ok (leaf_view (record { point_idx = i; parent = above c; mass = x })))
                    one,
          );
          outer = subst (HoldsAround s2 c n) one outer2;
          once = h.once;
        },
        record {
          entries = refl;
          distinct = refl;
          leaf = (kind_of_leaf tree.store n _ h.inner.1).0;
        },
      )
