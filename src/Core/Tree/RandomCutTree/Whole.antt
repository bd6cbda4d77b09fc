-- ===== src/Core/Tree/RandomCutTree/Whole.antt =====
-- The whole tree object: `new` and `add`.
use anomstream.Prelude.{
  ℕ, ◌+◌, ◌<◌, ◌^◌, ◌≡◌, ◌≢◌, ◌∙◌, sym, refl, ap, inl, inr, ◌⊎◌, Bool, true, false, Option, none,
  some, List, length, if◌then◌else◌, arith, Option-cases, Bool-cases, [], ◌∷◌, ◌==◌, subst,
}
use anomstream.Core.Error.{RcfError, ok, err, dimension_mismatch, invalid_config, nan_value}
use anomstream.Core.Domain.{ensure_dim, ensure_finite}
use anomstream.Core.Domain.Arith.{Arith}
use anomstream.Core.Domain.Boxes.{extended}
use anomstream.Core.Slab.{lives, slot}
use anomstream.Core.Tree.Node.{NodeRef}
use anomstream.Core.Tree.NodeStore.Layout.{Layout}
use anomstream.Core.Tree.NodeStore.AddLeaf.{add_leaf_lem}
use anomstream.Core.Tree.RandomCutTree.{
  RandomCutTree, same_ref, leaf_index_get, leaf_index_set, leaf_index_contains,
}
use anomstream.Core.Tree.RandomCutTree.Insert.{add, add_under}
use anomstream.Core.Tree.RandomCutTree.Shape.{
  Shape, tip, whole, mass, height, mass_at, Tips, Tips-map, uses, uses_around, root_of, reboxed,
  weight, depth,
}
use anomstream.Core.Tree.RandomCutTree.Sits.{Sits, Mapped}
use anomstream.Core.Tree.RandomCutTree.Splice.{HasRoom}
use anomstream.Core.Tree.RandomCutTree.Index.{mapped, leaf_index_set_lem}
use anomstream.Core.Tree.RandomCutTree.Refine.{insert_at-Refines}
use anomstream.Core.Tree.RandomCutTree.Grow.{erase, grow}
use anomstream.Core.Tree.RandomCutTree.GrowSize.{size-erase, size-grow}

not_finite :
    {F : Type 0} (is_finite : F → Bool) (xs : List F) (e : RcfError)
    → ensure_finite is_finite xs ≡ err e
    → e ≡ nan_value
unfolding ensure_finite
not_finite f [] e h = absurd (cc h)
not_finite f (x ∷ xs) e h = elim (Bool-cases (f x)) [
  | inl q ↦ not_finite f xs e (rw q at h)
  | inr q ↦ cc (rw q at h)
]

module _ {F : Type 0} where
  -- The object holds the tree and nothing above it. The count of points is that of the entries of the
  -- reverse index and the mass of the tree, a leaf has as many entries as its mass, and its own point
  -- is one of them.
  pub record IsTree (tree : RandomCutTree F) (t : Shape F) : Type 0 where
    pub sits : Sits tree whole t
    pub counted : tree.distinct_count ≡ lives tree.leaf_index
    pub weighed : tree.distinct_count ≡ mass t
    pub entries : (k : NodeRef) → mapped tree.leaf_index k ≡ mass_at t k
    pub resolved : Tips (λ n i. leaf_index_get tree i ≡ some n) t

  pub record IsEmpty (tree : RandomCutTree F) : Type 0 where
    pub rooted : tree.root ≡ none
    pub layout : Layout tree.store
    pub counted : (tree.distinct_count ≡ 0) × (lives tree.leaf_index ≡ 0)
    pub leaves : (j : ℕ) → leaf_index_get tree j ≡ none
    pub entries : (k : NodeRef) → mapped tree.leaf_index k ≡ 0

  -- One new entry in the index.
  abbrev pub Entered : RandomCutTree F → RandomCutTree F → ℕ → Type 0
  Entered tree tree' idx =
      ((n : NodeRef) × (leaf_index_get tree' idx ≡ some n))
      × ((j : ℕ) → idx ≢ j → leaf_index_get tree' j ≡ leaf_index_get tree j)

  indexed :
      (tree tree' : RandomCutTree F) (m : ℕ) (weight : NodeRef → ℕ) (t' : Shape F) (idx : ℕ)
      (n : NodeRef)
      → tree.distinct_count ≡ lives tree.leaf_index
      → tree.distinct_count ≡ m
      → ((k : NodeRef) → mapped tree.leaf_index k ≡ weight k)
      → leaf_index_get tree idx ≡ none
      → Sits tree' whole t'
      → Mapped tree tree' idx n
      → ((k : NodeRef) → mass_at t' k ≡ weight k + (if same_ref n k then 1 else 0))
      → mass t' ≡ m + 1
      → (((k : NodeRef) (i : ℕ) → leaf_index_get tree i ≡ some k → leaf_index_get tree' i ≡ some k)
          → leaf_index_get tree' idx ≡ some n
          → Tips (λ k i. leaf_index_get tree' i ≡ some k) t')
      → IsTree tree' t' × Entered tree tree' idx
  unfolding leaf_index_get
  indexed tree tree' w weight t' idx n counted weighed entries e sits m heavier one resolved =
      let (here, there, count, live, names) = leaf_index_set_lem tree idx n e in
      let same : (j : ℕ) → leaf_index_get tree' j ≡ leaf_index_get (leaf_index_set idx n tree) j =
        λ j. ap (λ xs. slot xs j) m.entries in
      let other : (k : NodeRef) (i : ℕ)
          → leaf_index_get tree i ≡ some k
          → leaf_index_get tree' i ≡ some k =
        λ k i q. same i ∙ there i (λ d. absurd (cc (e, q, ap (leaf_index_get tree) d))) ∙ q in
      (
        record {
          sits = sits;
          counted = omega (arith, m.distinct, count, counted, live, ap lives m.entries);
          weighed = omega (arith, m.distinct, count, weighed, one);
          entries =
              λ k. ap (λ xs. mapped xs k) m.entries ∙ names k ∙ omega (arith, entries k, heavier k);
          resolved = resolved other (same idx ∙ here);
        },
        ((n, same idx ∙ here), λ j d. same j ∙ there j d),
      )

  module _ {R : Type 0} (f64 : Arith F) (draw : R → F × R) (dim : ℕ) (points : ℕ → Option (List F))
      (climb_fuel idx : ℕ) (point : List F) where
    -- `add` gives an error, whatever the tree, for a point of another length, for one with a
    -- coordinate that is not finite, and for an index that is in the tree.
    pub add-rejects :
        (tree : RandomCutTree F) (fuel : ℕ) (rng : R)
        → (length point ≢ dim
            → add f64 draw dim points climb_fuel fuel idx point tree rng
              ≡ err (dimension_mismatch dim (length point)))
          × (length point ≡ dim
              → (e : RcfError) → ensure_finite f64.is_finite point ≡ err e
              → add f64 draw dim points climb_fuel fuel idx point tree rng ≡ err nan_value)
          × (length point ≡ dim
              → ensure_finite f64.is_finite point ≡ ok tt
              → leaf_index_get tree idx ≢ none
              → add f64 draw dim points climb_fuel fuel idx point tree rng ≡ err invalid_config)
    unfolding add ensure_dim leaf_index_contains leaf_index_get
    add-rejects tree fuel rng = (
      λ ne. ground (arith, ne),
      λ e why f. rw (same_length e, f) (ap err (not_finite f64.is_finite point why f)),
      λ e f g.
          rw (same_length e, f)
            (elim (Option-cases (leaf_index_get tree idx)) [
              | inl q ↦ absurd (g q)
              | inr (n, q) ↦ rw q refl
            ]),
    )
      where
        same_length : length point ≡ dim → (length point == dim) ≡ true
        same_length e = ground (arith, e)

    accepted :
        (tree : RandomCutTree F) (fuel : ℕ) (rng : R)
        → length point ≡ dim
        → ensure_finite f64.is_finite point ≡ ok tt
        → leaf_index_get tree idx ≡ none
        → add f64 draw dim points climb_fuel fuel idx point tree rng
          ≡ add_under f64 draw dim points climb_fuel fuel idx point tree rng tree.root
    unfolding add ensure_dim leaf_index_contains leaf_index_get
    accepted tree fuel rng fits finite e =
        let same_length : (length point == dim) ≡ true = ground (arith, fits) in
        rw (same_length, finite, e) refl

    -- The first point of an empty tree is its only leaf.
    pub add-IsTree_first :
        (tree : RandomCutTree F) (fuel : ℕ) (rng : R)
        → IsEmpty tree
        → HasRoom tree.store
        → length point ≡ dim
        → ensure_finite f64.is_finite point ≡ ok tt
        → (tree' : RandomCutTree F) × (n : NodeRef) × (add f64 draw dim points climb_fuel fuel idx
              point tree rng
            ≡ ok (tree', rng))
          × IsTree tree' (tip n idx 1)
          × Entered tree tree' idx
    unfolding uses mass mass_at root_of uses_around leaf_index_set
    add-IsTree_first tree fuel rng h room fits finite =
        elim (add_leaf_lem tree.store idx none 1 h.layout) [
          | inl (_, full) ↦ absurd (omega (arith, full, room.leaf))
          | inr (n, s, ran, kind, a, _) ↦
              let tree' = record (leaf_index_set idx n (record tree { store = s })) {
                root = some n;
              } in
              let (is_tree, entered) =
                indexed tree tree' 0 (λ _. 0) (tip n idx 1) idx n (h.counted.0 ∙ sym h.counted.1)
                  h.counted.0 h.entries (h.leaves idx)
                  (record {
                    rooted = refl;
                    layout = a.layout;
                    inner = (a.word, a.holds);
                    outer = tt;
                    once = λ k. ground arith;
                  })
                  (record { entries = refl; distinct = refl; leaf = kind }) (λ k. omega arith) refl
                  (λ old new. new) in
              (
                tree',
                n,
                rw (accepted tree fuel rng fits finite (h.leaves idx), h.rooted, ran) refl,
                is_tree,
                entered,
              )
        ]

    -- Let the object hold a tree, with the index, the counts and the masses in order (`IsTree`), the
    -- arena have room for a leaf and a node, the fuel exceed the height, the mass not overflow, the
    -- point be finite and of the dimension, and the index be new. Then `add` fails with the error of
    -- `grow` on the tree without references, or both succeed: the object holds the tree that `grow`
    -- gives, again in order, the generator is the same, and the index has one entry more.
    pub add-IsTree :
        (tree : RandomCutTree F) (t : Shape F) (fuel : ℕ) (rng : R)
        → height t < fuel
        → height t < climb_fuel
        → IsTree tree t
        → HasRoom tree.store
        → mass t + 1 < 2 ^ 64
        → length point ≡ dim
        → ensure_finite f64.is_finite point ≡ ok tt
        → leaf_index_get tree idx ≡ none
        → ((e : RcfError) × (grow f64 draw dim points idx point (erase t) rng ≡ err e)
            × (add f64 draw dim points climb_fuel fuel idx point tree rng ≡ err e))
          ⊎ ((t' : Shape F) × (is_new : Bool) × (rng' : R) × (tree' : RandomCutTree F) × (grow f64
                  draw dim points idx point
                  (erase t)
                  rng
                ≡ ok (erase t', is_new, rng'))
              × (add f64 draw dim points climb_fuel fuel idx point tree rng ≡ ok (tree', rng'))
              × IsTree tree' t'
              × Entered tree tree' idx)
    unfolding weight depth reboxed root_of
    add-IsTree tree t fuel rng b b' h room small fits finite e =
        let run =
          accepted tree fuel rng fits finite e
          ∙ ap (add_under f64 draw dim points climb_fuel fuel idx point tree rng) h.sits.rooted in
        elim (insert_at-Refines f64 draw dim points climb_fuel idx point fits t tree whole fuel rng
          b (omega (arith, b')) h.sits room small) [
            | inl (why, g, r) ↦ inl (why, g, run ∙ rw r refl)
            | inr (n, t', is_new, rng', tree', g, r, sits, mapped, more) ↦
                let (is_tree, entered) =
                  indexed tree tree' (mass t) (mass_at t) t' idx n h.counted h.weighed h.entries e
                    (subst (λ c. Sits tree' c t') (still is_new) sits) mapped more.heavier
                    (omega (
                      arith,
                      size-erase t,
                      size-erase t',
                      size-grow f64 draw dim points idx point (erase t) rng _ g,
                    ))
                    (λ old new.
                      more.tips (λ k i. leaf_index_get tree' i ≡ some k) (Tips-map t old h.resolved)
                        new) in
                inr (t', is_new, rng', tree', g, run ∙ rw r refl, is_tree, entered)
          ]
      where
        still :
            (is_new : Bool)
            → (if is_new then reboxed (λ b. extended f64 b point) whole else whole) ≡ whole
        still true = refl
        still false = refl
