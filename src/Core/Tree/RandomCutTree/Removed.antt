-- ===== src/Core/Tree/RandomCutTree/Removed.antt =====
-- What a removal does at the place of its leaf.
use anomstream.Prelude.{
  ℕ, ◌+◌, ◌≤◌, ◌<◌, ◌^◌, ◌≡◌, ◌≢◌, ◌∙◌, sym, refl, ap, subst, Bool, true, false, List, Option, some,
  none, if◌then◌else◌, arith, ◌==◌, Bool-cases, inl, inr,
}
use anomstream.Core.Error.{ok}
use anomstream.Core.Domain.{Cut, BoundingBox}
use anomstream.Core.Domain.Arith.{Arith}
use anomstream.Core.Tree.Node.{NodeRef, NodeView, internal_view}
use anomstream.Core.Tree.NodeStore.{NodeStore, view, parent, set_parent, delete}
use anomstream.Core.Tree.NodeStore.Layout.{Layout}
use anomstream.Core.Tree.NodeStore.Views.{parent-view}
use anomstream.Core.Tree.NodeStore.Release.{delete-Released}
use anomstream.Core.Tree.NodeStore.Update.{
  set_parent-Written, set_mass-Written, update_leaf-Written,
}
use anomstream.Core.Tree.RandomCutTree.{
  RandomCutTree, same_ref, leaf_index_get, leaf_index_clear, minus_one, replace_in_parent, climb,
}
use anomstream.Core.Tree.RandomCutTree.Delete.{
  drop_copy, bequeath, child_beside, close_gap, remove_leaf, recompute,
}
use anomstream.Core.Tree.RandomCutTree.Shape.{
  Shape, tip, Around, whole, under, top, mass, uses, uses_around, above, spine, depth, weight,
  root_of,
}
use anomstream.Core.Tree.RandomCutTree.Holds.{
  Holds, HoldsAround, entry, same_ref_self, Holds-Frame, HoldsAround-Frame, Holds-eq, uses-top,
}
use anomstream.Core.Tree.RandomCutTree.Climb.{spine-le, weight-le}
use anomstream.Core.Tree.RandomCutTree.Sits.{
  Sits, top-view, top_ne, Holds-with_parent, replace_in_parent_lem,
}
use anomstream.Core.Tree.RandomCutTree.Plug.{TipsAround}
use anomstream.Core.Tree.RandomCutTree.Index.{mapped}
use anomstream.Core.Tree.RandomCutTree.Heir.{
  root-leaf_index_clear, heir_of_lem, leaf_index_clear_lem, leaf_index_clear_eq,
}
use anomstream.Core.Tree.RandomCutTree.Lighter.{
  climb-minus_one, HasBox, box_at, rebuilt, above-rebuilt, rebuilt_same, bbox_of-held,
  climb-recompute,
}

module _ {F : Type 0} where
  -- The index is the one that `leaf_index_clear` leaves.
  pub record Cleared (tree tree' : RandomCutTree F) (idx : ℕ) : Type 0 where
    pub entries : tree'.leaf_index ≡ (leaf_index_clear idx tree).leaf_index
    pub distinct : tree'.distinct_count ≡ (leaf_index_clear idx tree).distinct_count

  -- The leaf keeps its point, or moves to another that is mapped to it.
  bequeath_lem :
      (survivors : List ℕ) (idx : ℕ) (t : RandomCutTree F) (c : Around F) (n : NodeRef) (i m : ℕ)
      → Sits t c (tip n i m)
      → leaf_index_get t idx ≡ none
      → (idx ≢ i → leaf_index_get t i ≡ some n)
      → 1 ≤ mapped t.leaf_index n
      → (i' : ℕ) × (s' : NodeStore F) × (bequeath survivors idx n t ≡ ok (record t { store = s' }))
        × Sits (record t { store = s' }) c (tip n i' m)
        × (leaf_index_get t i' ≡ some n)
  unfolding uses mass
  bequeath_lem survivors idx t c n i m h gone kept more =
      let (heir, found, good) = heir_of_lem survivors idx n t more in
      let (read, (s', ran, wr)) =
        update_leaf-Written t.store n (λ d. record d { point_idx = heir }) h.layout h.inner.0
          h.inner.1 in
      elim (Bool-cases (i == idx)) [
        | inl e ↦ (
          heir,
          s',
          rw (read, e, found, ran) refl,
          record {
            rooted = h.rooted;
            layout = wr.layout;
            inner = (h.inner.0, wr.holds);
            outer =
                HoldsAround-Frame t.store s' c n m n wr.frame
                  (ground (arith, h.once n, same_ref_self n)) h.outer;
            once = h.once;
          },
          good,
        )
        | inr e ↦ (i, t.store, rw (read, e) refl, h, kept (λ d. absurd (ground (arith, e, d))))
      ]

  -- A leaf of more than one point stays, one lighter, at a point that is mapped to it.
  pub drop_copy_lem :
      (survivors : List ℕ) (idx : ℕ) (tree : RandomCutTree F) (c : Around F) (fuel : ℕ)
      (n : NodeRef) (i m : ℕ)
      → depth c < fuel
      → Sits tree c (tip n i m)
      → 2 ≤ m
      → weight c m < 2 ^ 64
      → leaf_index_get tree idx ≡ some n
      → leaf_index_get tree i ≡ some n
      → 2 ≤ mapped tree.leaf_index n
      → (i' : ℕ) × (tree' : RandomCutTree F) × (drop_copy fuel survivors idx n m tree ≡ ok tree')
        × Sits tree' c (tip n i' (minus_one m))
        × Cleared tree tree' idx
        × (leaf_index_get tree' i' ≡ some n)
  unfolding drop_copy uses mass leaf_index_get
  drop_copy_lem survivors idx tree c fuel n i m b h two small mapped_here own more =
      let here : uses_around c n ≡ 0 = ground (arith, h.once n, same_ref_self n) in
      let (s1, ran1, wr) =
        set_mass-Written tree.store n (minus_one m) h.layout h.inner.0 h.inner.1 in
      let outer1 = HoldsAround-Frame tree.store s1 c n m n wr.frame here h.outer in
      let (s2, ran2, w2, outer2, same) =
        climb-minus_one c fuel s1 n m b wr.layout (omega (arith, two)) small
          (λ k. omega (arith, h.once k)) outer1 in
      let cleared = leaf_index_clear_eq tree s2 idx in
      let t2 = record (leaf_index_clear idx tree) { store = s2 } in
      let (gone, others, _, _, fewer) = leaf_index_clear_lem tree idx n mapped_here in
      let sits : Sits t2 c (tip n i (minus_one m)) = record {
        rooted = root-leaf_index_clear tree idx ∙ h.rooted;
        layout = w2;
        inner = (h.inner.0, same n h.inner.0 (omega (arith, spine-le c n, here)) ∙ wr.holds);
        outer = outer2;
        once = h.once;
      } in
      let (i', s', ran, sits', good) =
        bequeath_lem survivors idx t2 c n i (minus_one m) sits gone (λ ne. others i ne ∙ own)
          (ground (arith, fewer n, more, same_ref_self n)) in
      (
        i',
        record t2 { store = s' },
        rw (ran1, parent-view s1 n wr.holds, ran2, cleared) ran,
        sits',
        record { entries = refl; distinct = refl },
        good,
      )

  child_beside_lem :
      (side : Bool) (a : Option NodeRef) (cut : Cut F) (bbox : BoundingBox F) (n : NodeRef) (m : ℕ)
      (other : Shape F)
      → uses other n ≡ 0
      → child_beside n (internal_view (entry side a cut bbox n m other)) ≡ ok (top other)
  child_beside_lem true a cut bbox n m other z = rw (same_ref_self n) refl
  child_beside_lem false a cut bbox n m other z = rw (top_ne other n z) refl

  -- The last leaf of a tree goes, and the tree with it.
  pub remove_leaf_lem_last :
      (f64 : Arith F) (dim : ℕ) (points : ℕ → Option (List F)) (tree : RandomCutTree F)
      (fuel idx : ℕ) (n : NodeRef) (i m : ℕ)
      → Sits tree whole (tip n i m)
      → (tree' : RandomCutTree F) × (remove_leaf f64 dim points fuel idx n tree ≡ ok tree')
        × (tree'.root ≡ none)
        × Layout tree'.store
        × Cleared tree tree' idx
  unfolding remove_leaf
  remove_leaf_lem_last f64 dim points tree fuel idx n i m h =
      let (s1, ran1, gone) = delete-Released tree.store n h.layout h.inner.0 h.inner.1 in
      (
        record (leaf_index_clear idx tree) { store = s1; root = none },
        rw (parent-view tree.store n h.inner.1, ran1, leaf_index_clear_eq tree s1 idx) refl,
        refl,
        gone.layout,
        record { entries = refl; distinct = refl },
      )

  module _ (f64 : Arith F) (dim : ℕ) (points : ℕ → Option (List F)) where
    -- The steps of `close_gap` one after the other.
    close_gap_run :
        (t t4 : RandomCutTree F) (s2 s3 s5 : NodeStore F) (fuel : ℕ) (p n q : NodeRef)
        (g : Option NodeRef) (v : NodeView F)
        → view t.store p ≡ ok v
        → child_beside n v ≡ ok q
        → parent t.store p ≡ ok g
        → set_parent t.store q g ≡ ok s2
        → delete s2 p ≡ ok s3
        → replace_in_parent (record t { store = s3 }) g p q ≡ ok t4
        → climb (recompute f64 dim points) fuel t4.store g ≡ ok s5
        → close_gap f64 dim points fuel p n t ≡ ok (record t4 { store = s5 })
    unfolding close_gap
    close_gap_run t t4 s2 s3 s5 fuel p n q g v e1 e2 e3 e4 e5 e6 e7 =
        rw (e1, e2, e3, e4, e5, e6, e7) refl

    -- The tree beside the leaf is in the place of the node above both.
    pub close_gap_lem :
        (t : RandomCutTree F) (side : Bool) (p : NodeRef) (cut : Cut F) (bbox : BoundingBox F)
        (other : Shape F) (up : Around F) (fuel : ℕ) (n : NodeRef)
        → depth up < fuel
        → t.root ≡ some (root_of up p)
        → Layout t.store
        → ((k : NodeRef)
            → (if same_ref n k then 1 else 0) + uses_around (under side p cut bbox other up) k ≤ 1)
        → HoldsAround t.store (under side p cut bbox other up) n 1
        → weight up (1 + mass other) < 2 ^ 64
        → TipsAround (HasBox f64 dim points) (under side p cut bbox other up)
        → (tree' : RandomCutTree F) × (close_gap f64 dim points fuel p n t ≡ ok tree')
          × Sits tree' (rebuilt f64 dim points up (box_at f64 dim points other)) other
          × (tree'.leaf_index ≡ t.leaf_index)
          × (tree'.distinct_count ≡ t.distinct_count)
    unfolding close_gap uses_around
    close_gap_lem t side p cut bbox other up fuel n b rooted w once (pw, pv, ho, hu) small
          (known, rest) =
        let q = top other in
        let zn : uses other n ≡ 0 = ground (arith, once n, same_ref_self n) in
        let zp : uses other p + uses_around up p ≡ 0 = ground (arith, once p, same_ref_self p) in
        let zq : uses_around up q ≡ 0 = omega (arith, once q, uses-top other) in
        let (qw, qv, _, _) = top-view t.store (some p) other ho in
        let (s2, ran2, wr) = set_parent-Written t.store q (above up) w qw qv in
        let held =
          Holds-with_parent t.store s2 (some p) (above up) other (λ k. omega (arith, once k)) ho
            wr in
        let apart : p ≢ q = λ e. absurd (omega (arith, zp, uses-top other, ap (uses other) e)) in
        let (s3, ran3, gone) = delete-Released s2 p wr.layout pw (wr.frame p pw apart ∙ pv) in
        let held3 = Holds-Frame s2 s3 (above up) other p gone.frame (omega (arith, zp)) held in
        let outer2 = HoldsAround-Frame t.store s2 up p (1 + mass other) q wr.frame zq hu in
        let outer3 =
          HoldsAround-Frame s2 s3 up p (1 + mass other) p gone.frame (omega (arith, zp)) outer2 in
        let (t4, ran4, rooted4, w4, outer4, same4, entries, distinct) =
          replace_in_parent_lem (record t { store = s3 }) up p q (1 + mass other) rooted gone.layout
            outer3 (λ k. omega (arith, once k)) (omega (arith, zp)) in
        let again = rebuilt_same f64 dim points up (box_at f64 dim points other) in
        let off : (k : NodeRef) → 1 ≤ uses other k → spine up k ≡ 0 =
          λ k u. omega (arith, spine-le up k, once k, u) in
        let held4 = Holds-eq s3 t4.store (above up) other (λ k kw u. same4 k kw (off k u)) held3 in
        let (s5, ran5, w5, outer5, same5) =
          climb-recompute f64 dim points up fuel t4.store q (1 + mass other)
            (box_at f64 dim points other) b w4 (omega arith) small (λ k. omega (arith, once k)) zq
            outer4 rest (qw, bbox_of-held f64 dim points t4.store (above up) other held4 known) in
        let held5 = Holds-eq t4.store s5 (above up) other (λ k kw u. same5 k kw (off k u)) held4 in
        (
          record t4 { store = s5 },
          close_gap_run t t4 s2 s3 s5 fuel p n q (above up) _ pv
              (child_beside_lem side (above up) cut bbox n 1 other zn) (parent-view t.store p pv)
              ran2 ran3 ran4 ran5,
          record {
            rooted = rooted4 ∙ ap some (sym (again.1 q));
            layout = w5;
            inner =
                subst (λ a. Holds s5 a other)
                  (sym (above-rebuilt f64 dim points up (box_at f64 dim points other))) held5;
            outer =
                subst (HoldsAround s5 (rebuilt f64 dim points up (box_at f64 dim points other)) q)
                  (omega (arith, small, weight-le up (1 + mass other))) outer5;
            once = λ k. omega (arith, again.0 k, once k);
          },
          entries,
          distinct,
        )
