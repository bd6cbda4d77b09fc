-- ===== src/Core/Tree/RandomCutTree/Splice.antt =====
-- A new leaf beside the tree in the open place: `splice_new_internal`.
use anomstream.Prelude.{
  ℕ, ◌+◌, ◌≤◌, ◌<◌, ◌^◌, ◌≡◌, ◌≢◌, ◌∙◌, sym, refl, ap, subst, Bool-cases, inl, inr, Bool, true,
  false, List, Option, none, some, length, if◌then◌else◌, arith,
}
use anomstream.Core.Error.{ok}
use anomstream.Core.Domain.{Cut, BoundingBox}
use anomstream.Core.Domain.Arith.{Arith}
use anomstream.Core.Domain.Boxes.{left_of, extended}
use anomstream.Core.Tree.Node.{NodeRef, internal_view, view_mass, view_parent}
use anomstream.Core.Tree.NodeStore.{
  NodeStore, view, add_leaf, add_internal, live_leaf_count, live_internal_count, set_parent,
}
use anomstream.Core.Tree.NodeStore.Layout.{Layout}
use anomstream.Core.Tree.NodeStore.Views.{kind_of_leaf, parent-view}
use anomstream.Core.Tree.NodeStore.AddLeaf.{add_leaf_lem, add_leaf_other}
use anomstream.Core.Tree.NodeStore.AddInternal.{add_internal_lem}
use anomstream.Core.Tree.NodeStore.Update.{set_parent-Written}
use anomstream.Core.Tree.RandomCutTree.{
  RandomCutTree, same_ref, leaf_index_set, splice_new_internal, update_ancestors_after_insert,
  plus_one,
}
use anomstream.Core.Tree.RandomCutTree.Shape.{
  Shape, tip, fork, Around, top, mass, uses, uses_around, above, spine, depth, weight, reboxed,
  above-reboxed, reboxed_same,
}
use anomstream.Core.Tree.RandomCutTree.Holds.{
  Holds, HoldsAround, eq_of_same_ref, uses-top, Holds-Frame, HoldsAround-Frame, Holds-eq,
  Holds-fresh, HoldsAround-fresh,
}
use anomstream.Core.Tree.RandomCutTree.Climb.{spine-le, weight-le}
use anomstream.Core.Tree.RandomCutTree.Bodies.{climb-add_point}
use anomstream.Core.Tree.RandomCutTree.Sits.{
  Sits, Mapped, view_of, top-view, Holds-with_parent, replace_in_parent_lem,
}

-- Two new references beside those of a tree and of what is around it.
once_more :
    (f g : NodeRef → ℕ) (q leaf : NodeRef)
    → ((k : NodeRef) → f k + g k ≤ 1)
    → (f q ≡ 0) × (g q ≡ 0)
    → (f leaf ≡ 0) × (g leaf ≡ 0)
    → q ≢ leaf
    → (k : NodeRef)
    → (if same_ref q k then 1 else 0) + ((if same_ref leaf k then 1 else 0) + f k) + g k ≤ 1
once_more f g q leaf u (fq, gq) (fl, gl) apart k = elim (Bool-cases (same_ref q k)) [
  | inl e ↦ elim (Bool-cases (same_ref leaf k)) [
    | inl d ↦ absurd (apart (eq_of_same_ref q k e ∙ sym (eq_of_same_ref leaf k d)))
    | inr d ↦
        rw (e, d) (omega (arith, fq, gq, ap f (eq_of_same_ref q k e), ap g (eq_of_same_ref q k e)))
  ]
  | inr e ↦ elim (Bool-cases (same_ref leaf k)) [
    | inl d ↦
        rw (e, d)
          (omega (arith, fl, gl, ap f (eq_of_same_ref leaf k d), ap g (eq_of_same_ref leaf k d)))
    | inr d ↦ rw (e, d) (omega (arith, u k))
  ]
]

module _ {F : Type 0} where
  -- Room for one more leaf and one more node above it.
  pub record HasRoom (s : NodeStore F) : Type 0 where
    pub leaf : live_leaf_count s < s.capacity
    pub internal : live_internal_count s < s.capacity

  -- The spliced tree: the new leaf on its side of the cut.
  abbrev pub spliced : Bool → NodeRef → NodeRef → ℕ → Cut F → BoundingBox F → Shape F → Shape F
  spliced goes_left q leaf idx cut bbox t =
      fork q cut bbox (if goes_left then tip leaf idx 1 else t)
        (if goes_left then t else tip leaf idx 1)

  -- The arena after the leaf and the node above it are made and linked to each other and to the tree,
  -- with the open place not yet given to the new node.
  record Linked (s s' : NodeStore F) (c : Around F) (t : Shape F) (goes_left : Bool)
      (leaf q : NodeRef) (idx : ℕ) (cut : Cut F) (bbox : BoundingBox F) : Type 0 where
    pub layout : Layout s'
    pub tree : Holds s' (some q) t
    pub new_leaf : Holds s' (some q) (tip leaf idx 1)
    pub word : q.raw < 2 ^ 32
    pub node :
        view s' q
        ≡ ok (
            internal_view (record {
              cut = cut;
              bbox = bbox;
              left = if goes_left then leaf else top t;
              right = if goes_left then top t else leaf;
              parent = above c;
              mass = plus_one (mass t);
            }))
    pub outer : HoldsAround s' c (top t) (mass t)
    pub leaf_unused : (uses t leaf ≡ 0) × (uses_around c leaf ≡ 0)
    pub node_unused : (uses t q ≡ 0) × (uses_around c q ≡ 0)
    pub apart : q ≢ leaf

  link_lem :
      (s : NodeStore F) (c : Around F) (t : Shape F) (goes_left : Bool) (idx : ℕ) (cut : Cut F)
      (bbox : BoundingBox F)
      → Layout s
      → Holds s (above c) t
      → HoldsAround s c (top t) (mass t)
      → ((k : NodeRef) → uses t k + uses_around c k ≤ 1)
      → HasRoom s
      → (leaf : NodeRef) × (q : NodeRef) × (s1 : NodeStore F) × (s2 : NodeStore F) × (s3 : NodeStore
          F)
        × (s4 : NodeStore F) × (add_leaf s idx none 1 ≡ ok (leaf, s1))
        × (view s1 (top t) ≡ ok (view_of (above c) t))
        × (add_internal s1 cut bbox
              (if goes_left then leaf else top t)
              (if goes_left then top t else leaf)
              (above c)
              (plus_one (mass t))
            ≡ ok (q, s2))
        × (set_parent s2 leaf (some q) ≡ ok s3)
        × (set_parent s3 (top t) (some q) ≡ ok s4)
        × Linked s s4 c t goes_left leaf q idx cut bbox
  link_lem s c t goes_left idx cut bbox w h o u room = elim (add_leaf_lem s idx none 1 w) [
    | inl (_, full) ↦ absurd (omega (arith, full, room.leaf))
    | inr (leaf, s1, ran1, _, a1, _) ↦
        let (same_free, same_cap) = add_leaf_other s idx none 1 ran1 in
        let n = top t in
        let z1 = Holds-fresh s (above c) t leaf h a1.fresh in
        let y1 = HoldsAround-fresh s c n (mass t) leaf o a1.fresh in
        let h1 = Holds-Frame s s1 (above c) t leaf a1.frame z1 h in
        let o1 = HoldsAround-Frame s s1 c n (mass t) leaf a1.frame y1 o in
        elim (add_internal_lem s1 cut bbox (if goes_left then leaf else n)
          (if goes_left then n else leaf) (above c) (plus_one (mass t)) a1.layout) [
            | inl (_, full) ↦ absurd (omega (arith, full, room.internal, same_free, same_cap))
            | inr (q, s2, ran2, _, a2, _) ↦
                let z2 = Holds-fresh s1 (above c) t q h1 a2.fresh in
                let y2 = HoldsAround-fresh s1 c n (mass t) q o1 a2.fresh in
                let h2 = Holds-Frame s1 s2 (above c) t q a2.frame z2 h1 in
                let o2 = HoldsAround-Frame s1 s2 c n (mass t) q a2.frame y2 o1 in
                let apart : q ≢ leaf = λ e. absurd (cc (ap (view s1) e, a1.holds, a2.fresh)) in
                let v2 = a2.frame leaf a1.word (λ e. apart (sym e)) ∙ a1.holds in
                let (s3, ran3, wr3) = set_parent-Written s2 leaf (some q) a2.layout a1.word v2 in
                let h3 = Holds-Frame s2 s3 (above c) t leaf wr3.frame z1 h2 in
                let o3 = HoldsAround-Frame s2 s3 c n (mass t) leaf wr3.frame y1 o2 in
                let (nw, nv, _, _) = top-view s3 (above c) t h3 in
                let (s4, ran4, wr4) = set_parent-Written s3 n (some q) wr3.layout nw nv in
                let zn : uses_around c n ≡ 0 = omega (arith, u n, uses-top t) in
                let from_top : (k : NodeRef) → uses t k ≡ 0 → k ≢ n =
                  λ k z e. absurd (omega (arith, z, uses-top t, ap (uses t) e)) in
                (
                  leaf,
                  q,
                  s1,
                  s2,
                  s3,
                  s4,
                  ran1,
                  (top-view s1 (above c) t h1).1,
                  ran2,
                  ran3,
                  ran4,
                  record {
                    layout = wr4.layout;
                    tree =
                        Holds-with_parent s3 s4 (above c) (some q) t (λ k. omega (arith, u k)) h3
                          wr4;
                    new_leaf = (a1.word, wr4.frame leaf a1.word (from_top leaf z1) ∙ wr3.holds);
                    word = a2.word;
                    node =
                        wr4.frame q a2.word (from_top q z2) ∙ wr3.frame q a2.word apart ∙ a2.holds;
                    outer = HoldsAround-Frame s3 s4 c n (mass t) n wr4.frame zn o3;
                    leaf_unused = (z1, y1);
                    node_unused = (z2, y2);
                    apart = apart;
                  },
                )
          ]
  ]

  view_of_reads :
      (p : Option NodeRef) (t : Shape F)
      → (view_parent (view_of p t) ≡ p) × (view_mass (view_of p t) ≡ mass t)
  unfolding mass
  view_of_reads p (tip n i m) = (refl, refl)
  view_of_reads p (fork n cut bbox l r) = (refl, refl)

  either_side :
      (s : NodeStore F) (c : Around F) (t : Shape F) (goes_left : Bool) (leaf q : NodeRef) (idx : ℕ)
      (cut : Cut F) (bbox : BoundingBox F)
      → mass t + 1 < 2 ^ 64
      → (q.raw < 2 ^ 32)
        × (view s q
            ≡ ok (
                internal_view (record {
                  cut = cut;
                  bbox = bbox;
                  left = if goes_left then leaf else top t;
                  right = if goes_left then top t else leaf;
                  parent = above c;
                  mass = plus_one (mass t);
                })))
      → Holds s (some q) (tip leaf idx 1)
      → Holds s (some q) t
      → ((k : NodeRef)
          → (if same_ref q k then 1 else 0)
              + ((if same_ref leaf k then 1 else 0) + uses t k)
              + uses_around c k
            ≤ 1)
      → Holds s (above c) (spliced goes_left q leaf idx cut bbox t)
        × (plus_one (mass t) ≡ mass (spliced goes_left q leaf idx cut bbox t))
        × ((k : NodeRef) → uses (spliced goes_left q leaf idx cut bbox t) k + uses_around c k ≤ 1)
  unfolding mass uses
  either_side s c t true leaf q idx cut bbox small (w, v) new_leaf tree used = (
    (
      w,
      rw v (
          ap
            (λ m. ok (
              internal_view (record {
                cut = cut;
                bbox = bbox;
                left = leaf;
                right = top t;
                parent = above c;
                mass = m;
              })))
            (omega arith)),
      new_leaf,
      tree,
    ),
    omega arith,
    λ k. used k,
  )
  either_side s c t false leaf q idx cut bbox small (w, v) new_leaf tree used = (
    (
      w,
      rw v (
          ap
            (λ m. ok (
              internal_view (record {
                cut = cut;
                bbox = bbox;
                left = top t;
                right = leaf;
                parent = above c;
                mass = m;
              })))
            (omega arith)),
      tree,
      new_leaf,
    ),
    omega arith,
    λ k. omega (arith, used k),
  )

  -- The new leaf and the tree hang under the new node once the loop to the root is through.
  spliced_lem :
      (s s' s6 : NodeStore F) (c : Around F) (t : Shape F) (goes_left : Bool) (leaf q : NodeRef)
      (idx : ℕ) (cut : Cut F) (bbox : BoundingBox F)
      → ((k : NodeRef) → uses t k + uses_around c k ≤ 1)
      → mass t + 1 < 2 ^ 64
      → Linked s s' c t goes_left leaf q idx cut bbox
      → ((k : NodeRef) → k.raw < 2 ^ 32 → spine c k ≡ 0 → view s6 k ≡ view s' k)
      → Holds s6 (above c) (spliced goes_left q leaf idx cut bbox t)
        × (plus_one (mass t) ≡ mass (spliced goes_left q leaf idx cut bbox t))
        × ((k : NodeRef) → uses (spliced goes_left q leaf idx cut bbox t) k + uses_around c k ≤ 1)
  unfolding mass uses
  spliced_lem s s' s6 c t goes_left leaf q idx cut bbox once small l same =
      let off : (k : NodeRef) → uses_around c k ≡ 0 → spine c k ≡ 0 =
        λ k z. omega (arith, spine-le c k, z) in
      let leaf6 : Holds s6 (some q) (tip leaf idx 1) =
        (l.new_leaf.0, same leaf l.new_leaf.0 (off leaf l.leaf_unused.1) ∙ l.new_leaf.1) in
      let tree6 : Holds s6 (some q) t =
        Holds-eq s' s6 (some q) t (λ k kw u. same k kw (omega (arith, spine-le c k, once k, u)))
          l.tree in
      let node6 = same q l.word (off q l.node_unused.1) ∙ l.node in
      let used : (k : NodeRef)
          → (if same_ref q k then 1 else 0)
              + ((if same_ref leaf k then 1 else 0) + uses t k)
              + uses_around c k
            ≤ 1 =
        λ k. once_more (uses t) (uses_around c) q leaf once l.node_unused l.leaf_unused l.apart k in
      either_side s6 c t goes_left leaf q idx cut bbox small (l.word, node6) leaf6 tree6 used

  module _ (f64 : Arith F) (dim : ℕ) (point : List F) (fits : length point ≡ dim) where
    -- `splice_new_internal` puts a new node in the open place, over the tree that was there and a new
    -- leaf of mass 1, and adds the point to the boxes above.
    pub splice_new_internal_lem :
        (tree : RandomCutTree F) (c : Around F) (t : Shape F) (fuel idx : ℕ) (cut : Cut F)
        (bbox : BoundingBox F)
        → depth c < fuel
        → Sits tree c t
        → HasRoom tree.store
        → weight c (mass t) + 1 < 2 ^ 64
        → (leaf : NodeRef) × (q : NodeRef) × (tree' : RandomCutTree F) × (splice_new_internal f64
              dim fuel
              (top t)
              idx
              point
              cut
              bbox
              tree
            ≡ ok (q, tree'))
          × Sits tree'
              (reboxed (λ b. extended f64 b point) c)
              (spliced (left_of f64 cut point) q leaf idx cut bbox t)
          × Mapped tree tree' idx leaf
    unfolding splice_new_internal update_ancestors_after_insert leaf_index_set mass uses
    splice_new_internal_lem tree c t fuel idx cut bbox b h room small =
        let goes_left = left_of f64 cut point in
        let n = top t in
        let (leaf, q, s1, s2, s3, s4, ran1, nv, ran2, ran3, ran4, l) =
          link_lem tree.store c t goes_left idx cut bbox h.layout h.inner h.outer h.once room in
        let t1 = leaf_index_set idx leaf (record tree { store = s1 }) in
        let zn : uses_around c n ≡ 0 = omega (arith, h.once n, uses-top t) in
        let (t2, ran5, rooted, w5, o5, same5, entries, distinct) =
          replace_in_parent_lem (record t1 { store = s4 }) c n q (mass t) h.rooted l.layout l.outer
            (λ k. omega (arith, h.once k)) zn in
        let (s6, ran6, w6, o6, same6) =
          climb-add_point f64 dim point fits c fuel t2.store q (mass t) b w5 small
            (λ k. omega (arith, h.once k)) o5 in
        let (inner, heavier, once) =
          spliced_lem tree.store s4 s6 c t goes_left leaf q idx cut bbox h.once
            (omega (arith, small, weight-le c (mass t))) l
            (λ k kw z. same6 k kw z ∙ same5 k kw z) in
        let read = view_of_reads (above c) t in
        let boxes = reboxed_same (λ b. extended f64 b point) c in
        (
          leaf,
          q,
          record t2 { store = s6 },
          rw (ran1, parent-view s1 n nv, nv, read.0, read.1, ran2, ran3, ran4, ran5, ran6) refl,
          record {
            rooted = rooted ∙ ap some (sym (boxes.1 q));
            layout = w6;
            inner =
                subst (λ a. Holds s6 a (spliced goes_left q leaf idx cut bbox t))
                  (sym (above-reboxed (λ b. extended f64 b point) c)) inner;
            outer = subst (HoldsAround s6 (reboxed (λ b. extended f64 b point) c) q) heavier o6;
            once = λ k. omega (arith, once k, boxes.0 k);
          },
          record {
            entries = entries;
            distinct = distinct;
            leaf = (kind_of_leaf s4 leaf _ l.new_leaf.1).0;
          },
        )
