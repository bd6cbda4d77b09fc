-- ===== src/Core/Tree/RandomCutTree/Shrink.antt =====
-- `delete_with_survivors` on the whole tree object.
use anomstream.Prelude.{
  ℕ, ◌+◌, ◌-◌, ◌≤◌, ◌<◌, ◌^◌, ◌≡◌, ◌≢◌, ◌∙◌, sym, refl, ap, subst, List, Option, some, none,
  if◌then◌else◌, arith, ltb, Bool-cases, inl, inr, ◌⊎◌, Option-cases,
}
use anomstream.Core.Error.{ok, err, invalid_config}
use anomstream.Core.Domain.Arith.{Arith}
use anomstream.Core.Slab.{slot, lives}
use anomstream.Core.Tree.Node.{NodeRef}
use anomstream.Core.Tree.NodeStore.Views.{parent-view}
use anomstream.Core.Tree.NodeStore.Release.{delete-Released}
use anomstream.Core.Tree.RandomCutTree.{
  RandomCutTree, same_ref, leaf_index_get, leaf_index_clear, minus_one,
}
use anomstream.Core.Tree.RandomCutTree.Delete.{remove_leaf, drop_copy, delete_with_survivors}
use anomstream.Core.Tree.RandomCutTree.Shape.{
  Shape, tip, Around, whole, under, mass, mass_at, Tips, Tips-map, height, uses, uses_around, depth,
  weight, root_of,
}
use anomstream.Core.Tree.RandomCutTree.Holds.{same_ref_self, HoldsAround-Frame}
use anomstream.Core.Tree.RandomCutTree.Climb.{weight-le}
use anomstream.Core.Tree.RandomCutTree.Sits.{Sits}
use anomstream.Core.Tree.RandomCutTree.Plug.{
  plug, mass_around, TipsAround, TipsAround-map, TipsAround-used, mass-plug, mass_at-plug,
  Tips-plug, Sits-plug, locate, mass_around-zero, weight-add,
}
use anomstream.Core.Tree.RandomCutTree.Index.{mapped, mapped-le, some_inj}
use anomstream.Core.Tree.RandomCutTree.Heir.{
  leaf_index_clear_lem, leaf_index_clear_eq, root-leaf_index_clear,
}
use anomstream.Core.Tree.RandomCutTree.Lighter.{HasBox, box_at, rebuilt, rebuilt_same}
use anomstream.Core.Tree.RandomCutTree.Removed.{
  Cleared, drop_copy_lem, remove_leaf_lem_last, close_gap_lem,
}
use anomstream.Core.Tree.RandomCutTree.Whole.{IsTree, IsEmpty}

module _ {F : Type 0} where
  -- One entry of the index gone.
  abbrev pub Left : RandomCutTree F → RandomCutTree F → ℕ → Type 0
  Left tree tree' idx =
      (leaf_index_get tree' idx ≡ none)
      × ((j : ℕ) → idx ≢ j → leaf_index_get tree' j ≡ leaf_index_get tree j)

  -- A tree with one point less, or none if the point was the only one.
  abbrev pub Lighter : RandomCutTree F → Shape F → Type 0
  Lighter tree' t =
      (IsEmpty tree' × (mass t ≡ 1)) ⊎ ((t' : Shape F) × IsTree tree' t' × (mass t' + 1 ≡ mass t))

  left :
      (tree tree' : RandomCutTree F) (idx : ℕ) (n : NodeRef)
      → leaf_index_get tree idx ≡ some n
      → Cleared tree tree' idx
      → Left tree tree' idx
        × (tree'.distinct_count ≡ tree.distinct_count - 1)
        × (lives tree'.leaf_index + 1 ≡ lives tree.leaf_index)
        × ((k : NodeRef)
            → mapped tree'.leaf_index k + (if same_ref n k then 1 else 0)
              ≡ mapped tree.leaf_index k)
  unfolding leaf_index_get
  left tree tree' idx n e c =
      let (gone, others, count, live, names) = leaf_index_clear_lem tree idx n e in
      let same : (j : ℕ) → leaf_index_get tree' j ≡ leaf_index_get (leaf_index_clear idx tree) j =
        λ j. ap (λ xs. slot xs j) c.entries in
      (
        (same idx ∙ gone, λ j ne. same j ∙ others j ne),
        c.distinct ∙ count,
        ap (λ xs. lives xs + 1) c.entries ∙ live,
        λ k. ap (λ xs. mapped xs k + (if same_ref n k then 1 else 0)) c.entries ∙ names k,
      )

  -- The other leaves of the tree keep their points.
  kept :
      (tree tree' : RandomCutTree F) (idx : ℕ) (n : NodeRef) (c : Around F)
      → leaf_index_get tree idx ≡ some n
      → Left tree tree' idx
      → uses_around c n ≡ 0
      → TipsAround (λ k i. leaf_index_get tree i ≡ some k) c
      → TipsAround (λ k i. leaf_index_get tree' i ≡ some k) c
  kept tree tree' idx n c e (gone, others) z h =
      TipsAround-map c
        (λ k i (q, u).
          others i (λ d. absurd (
            omega (
              arith,
              u,
              z,
              ap (uses_around c) (some_inj (sym e ∙ ap (leaf_index_get tree) d ∙ q)),
            )))
          ∙ q)
        (TipsAround-used (λ k i. leaf_index_get tree i ≡ some k) c h)

  -- The whole from its place.
  shrunk :
      (tree tree' : RandomCutTree F) (t t' : Shape F) (idx : ℕ) (n : NodeRef)
      → IsTree tree t
      → leaf_index_get tree idx ≡ some n
      → Cleared tree tree' idx
      → Sits tree' whole t'
      → mass t' + 1 ≡ mass t
      → ((k : NodeRef) → mass_at t' k + (if same_ref n k then 1 else 0) ≡ mass_at t k)
      → Tips (λ k i. leaf_index_get tree' i ≡ some k) t'
      → Lighter tree' t × Left tree tree' idx
  shrunk tree tree' t t' idx n h e c sits one at resolved =
      let (gone, count, live, names) = left tree tree' idx n e c in
      (
        inr (
          t',
          record {
            sits = sits;
            counted = omega (arith, count, live, h.counted);
            weighed = omega (arith, count, h.weighed, one);
            entries = λ k. omega (arith, names k, at k, h.entries k);
            resolved = resolved;
          },
          one,
        ),
        gone,
      )

  -- What is known of the place of a leaf, from the whole.
  record Place (tree : RandomCutTree F) (t : Shape F) (c : Around F) (n : NodeRef) (i m : ℕ)
      : Type 0 where
    pub sits : Sits tree c (tip n i m)
    pub weighed : mass t ≡ weight c m
    pub at : (k : NodeRef) → mass_at t k ≡ (if same_ref n k then m else 0) + mass_around c k
    pub away : uses_around c n ≡ 0
    pub here : mapped tree.leaf_index n ≡ m
    pub own : leaf_index_get tree i ≡ some n
    pub others : TipsAround (λ k j. leaf_index_get tree j ≡ some k) c

  place :
      (tree : RandomCutTree F) (t : Shape F) (c : Around F) (n : NodeRef) (i m : ℕ)
      → IsTree tree t
      → Sits tree c (tip n i m)
      → plug c (tip n i m) ≡ t
      → Place tree t c n i m
  unfolding mass mass_at uses
  place tree t c n i m h sits same =
      let away : uses_around c n ≡ 0 = ground (arith, sits.once n, same_ref_self n) in
      let at : (k : NodeRef) → mass_at t k ≡ (if same_ref n k then m else 0) + mass_around c k =
        λ k. ap (λ x. mass_at x k) (sym same) ∙ mass_at-plug c (tip n i m) k in
      let (own, others) =
        (Tips-plug (λ k j. leaf_index_get tree j ≡ some k) c (tip n i m)).0
          (subst (Tips (λ k j. leaf_index_get tree j ≡ some k)) (sym same) h.resolved) in
      record {
        sits = sits;
        weighed = ap mass (sym same) ∙ mass-plug c (tip n i m);
        at = at;
        away = away;
        here = ground (arith, h.entries n, at n, same_ref_self n, mass_around-zero c n away);
        own = own;
        others = others;
      }

  drop_copy-Lighter :
      (survivors : List ℕ) (idx fuel : ℕ) (tree : RandomCutTree F) (t : Shape F) (c : Around F)
      (n : NodeRef) (i m : ℕ)
      → depth c < fuel
      → IsTree tree t
      → Place tree t c n i m
      → 2 ≤ m
      → mass t < 2 ^ 64
      → leaf_index_get tree idx ≡ some n
      → (tree' : RandomCutTree F) × (drop_copy fuel survivors idx n m tree ≡ ok tree')
        × Lighter tree' t
        × Left tree tree' idx
  unfolding mass mass_at
  drop_copy-Lighter survivors idx fuel tree t c n i m b h p two small e =
      let (i', tree', ran, sits, cleared, good) =
        drop_copy_lem survivors idx tree c fuel n i m b p.sits two (omega (arith, small, p.weighed))
          e p.own (omega (arith, two, p.here)) in
      let t' : Shape F = tip n i' (minus_one m) in
      let low : m < 2 ^ 64 = omega (arith, small, p.weighed, weight-le c m) in
      let one : minus_one m + 1 ≡ m = omega (arith, two, low) in
      let (lighter, gone) =
        shrunk tree tree' t (plug c t') idx n h e cleared (Sits-plug tree' c t' sits)
          (omega
            (arith, mass-plug c t', weight-add c (minus_one m) 1, p.weighed, ap (weight c) one))
          (λ k. ground (arith, mass_at-plug c t' k, p.at k, one))
          ((Tips-plug (λ k j. leaf_index_get tree' j ≡ some k) c t').1 good
            (kept tree tree' idx n c e (left tree tree' idx n e cleared).0 p.away p.others)) in
      (tree', ran, lighter, gone)

  module _ (f64 : Arith F) (dim : ℕ) (points : ℕ → Option (List F)) where
    remove_leaf-Lighter :
        (idx fuel : ℕ) (tree : RandomCutTree F) (t : Shape F) (c : Around F) (n : NodeRef) (i : ℕ)
        → depth c < fuel
        → IsTree tree t
        → Place tree t c n i 1
        → mass t < 2 ^ 64
        → TipsAround (HasBox f64 dim points) c
        → leaf_index_get tree idx ≡ some n
        → (tree' : RandomCutTree F) × (remove_leaf f64 dim points fuel idx n tree ≡ ok tree')
          × Lighter tree' t
          × Left tree tree' idx
    unfolding depth weight mass_around leaf_index_get remove_leaf root_of uses_around uses mass
    remove_leaf-Lighter idx fuel tree t whole n i b h p small known e =
        let (tree', ran, root, layout, cleared) =
          remove_leaf_lem_last f64 dim points tree fuel idx n i 1 p.sits in
        let (gone, count, live, names) = left tree tree' idx n e cleared in
        (
          tree',
          ran,
          inl (
            record {
              rooted = root;
              layout = layout;
              counted = (
                omega (arith, count, h.weighed, p.weighed),
                omega (arith, live, h.counted, h.weighed, p.weighed),
              );
              leaves = λ j. elim (Option-cases (leaf_index_get tree' j)) [
                | inl q ↦ q
                | inr (k, q) ↦
                    absurd (
                      omega (arith, mapped-le tree'.leaf_index j k q, names k, h.entries k, p.at k))
              ];
              entries = λ k. omega (arith, names k, h.entries k, p.at k);
            },
            p.weighed,
          ),
          gone,
        )
    remove_leaf-Lighter idx fuel tree t (under side q cut bbox other up) n i b h p small known e =
        let (s1, ran1, gone) =
          delete-Released tree.store n p.sits.layout p.sits.inner.0 p.sits.inner.1 in
        let t1 = record (leaf_index_clear idx tree) { store = s1 } in
        let (tree', ran, sits, entries, distinct) =
          close_gap_lem f64 dim points t1 side q cut bbox other up fuel n (omega (arith, b))
            (root-leaf_index_clear tree idx ∙ p.sits.rooted) gone.layout (λ k. p.sits.once k)
            (HoldsAround-Frame tree.store s1 (under side q cut bbox other up) n 1 n gone.frame
              p.away p.sits.outer)
            (omega (arith, small, p.weighed)) known in
        let cleared : Cleared tree tree' idx = record { entries = entries; distinct = distinct } in
        let again = rebuilt f64 dim points up (box_at f64 dim points other) in
        let (_, _, mass_all, at, tips) =
          rebuilt_same f64 dim points up (box_at f64 dim points other) in
        let others =
          kept tree tree' idx n (under side q cut bbox other up) e
            (left tree tree' idx n e cleared).0 p.away p.others in
        let (lighter, left_out) =
          shrunk tree tree' t (plug again other) idx n h e cleared
            (Sits-plug tree' again other sits)
            (omega (
              arith,
              mass-plug again other,
              mass_all (mass other),
              weight-add up (mass other) 1,
              p.weighed,
              ap (weight up) (one_more (mass other)),
            ))
            (λ k. omega (arith, mass_at-plug again other k, at k, p.at k))
            ((Tips-plug (λ k j. leaf_index_get tree' j ≡ some k) again other).1 others.0
              (tips (λ k j. leaf_index_get tree' j ≡ some k) others.1)) in
        (
          tree',
          rw (parent-view tree.store n p.sits.inner.1, ran1, leaf_index_clear_eq tree s1 idx) ran,
          lighter,
          left_out,
        )
      where
        one_more : (x : ℕ) → 1 + x ≡ x + 1
        one_more x = omega arith

    -- Let the object hold a tree in order (`IsTree`), the accessor give every indexed point, the fuel
    -- exceed the height, and the index be mapped to a leaf. Then `delete_with_survivors` succeeds,
    -- whatever the survivors are: the entry is gone and no other, and the object holds a tree of one
    -- mass less, in order, or, if the mass was 1, no tree and no entry.
    pub delete-Lighter :
        (survivors : List ℕ) (idx fuel : ℕ) (tree : RandomCutTree F) (t : Shape F) (n : NodeRef)
        → height t < fuel
        → IsTree tree t
        → ((j : ℕ) (k : NodeRef) → leaf_index_get tree j ≡ some k → HasBox f64 dim points k j)
        → mass t < 2 ^ 64
        → leaf_index_get tree idx ≡ some n
        → (tree' : RandomCutTree F) × (delete_with_survivors f64 dim points fuel survivors idx tree
            ≡ ok tree')
          × Lighter tree' t
          × Left tree tree' idx
    unfolding delete_with_survivors leaf_index_get depth plug
    delete-Lighter survivors idx fuel tree t n b h known small e =
        let (c, i, m, sits, same, deep) =
          locate tree t whole n (omega (arith, h.entries n, mapped-le tree.leaf_index idx n e))
            h.sits in
        let boxed = Tips-map t (λ k j q. known j k q) h.resolved in
        let p = place tree t c n i m h sits same in
        elim (Bool-cases (ltb 1 m)) [
          | inl q ↦
              let (tree', ran, lighter, gone) =
                drop_copy-Lighter survivors idx fuel tree t c n i m (omega (arith, b, deep)) h p
                  (ground (arith, q)) small e in
              (tree', rw (e, sits.inner.1, q) ran, lighter, gone)
          | inr q ↦
              let one : m ≡ 1 = ground (arith, q, p.here, mapped-le tree.leaf_index idx n e) in
              let (tree', ran, lighter, gone) =
                remove_leaf-Lighter idx fuel tree t c n i (omega (arith, b, deep)) h
                  (subst (Place tree t c n i) one p) small
                  ((Tips-plug (HasBox f64 dim points) c (tip n i m)).0
                    (subst (Tips (HasBox f64 dim points)) (sym same) boxed)).1
                  e in
              (tree', rw (e, sits.inner.1, q) ran, lighter, gone)
        ]

    -- An index that is not in the tree.
    pub delete-err :
        (survivors : List ℕ) (idx fuel : ℕ) (tree : RandomCutTree F)
        → leaf_index_get tree idx ≡ none
        → delete_with_survivors f64 dim points fuel survivors idx tree ≡ err invalid_config
    unfolding delete_with_survivors
    delete-err survivors idx fuel tree e = rw e refl
