-- ===== src/Core/Tree/RandomCutTree/Lighter.antt =====
-- The loops towards the root of a removal.
use anomstream.Prelude.{
  ℕ, zero, suc, ◌+◌, ◌≤◌, ◌<◌, ◌^◌, ◌≡◌, ◌≢◌, ◌∙◌, sym, refl, ap, subst, Bool, true, false, List,
  [], Option, some, none, if◌then◌else◌, arith,
}
use anomstream.Core.Error.{RcfResult, ok}
use anomstream.Core.Domain.{Cut, BoundingBox}
use anomstream.Core.Domain.Arith.{Arith}
use anomstream.Core.Domain.Boxes.{merged, from_point}
use anomstream.Core.Tree.Node.{NodeRef, InternalData, NodeView, internal_view}
use anomstream.Core.Tree.NodeStore.{NodeStore, view}
use anomstream.Core.Tree.NodeStore.Layout.{Layout}
use anomstream.Core.Tree.NodeStore.Views.{parent-view, kind_of_internal}
use anomstream.Core.Tree.NodeStore.Update.{Written, set_internal-Written}
use anomstream.Core.Tree.RandomCutTree.{same_ref, climb, change_mass, minus_one, bbox_of}
use anomstream.Core.Tree.RandomCutTree.Delete.{recompute, compute_internal_bbox}
use anomstream.Core.Tree.RandomCutTree.Shape.{
  Shape, tip, fork, Around, whole, under, top, mass, uses, uses_around, above, root_of, spine,
  depth, weight, reboxed_id, Tips,
}
use anomstream.Core.Tree.RandomCutTree.Holds.{
  Holds, HoldsAround, entry, same_ref_self, Holds-Frame, HoldsAround-Frame, Holds-eq,
}
use anomstream.Core.Tree.RandomCutTree.Climb.{climb_lem, spine-le, weight-le}
use anomstream.Core.Tree.RandomCutTree.Bodies.{change_mass-Written}
use anomstream.Core.Tree.RandomCutTree.Plug.{TipsAround, mass_around}

minus_one-shift :
    (bound x y : ℕ)
    → bound < 2 ^ 64
    → 1 ≤ x
    → x + y ≤ bound
    → (minus_one (x + y) ≡ minus_one x + y) × (minus_one (y + x) ≡ y + minus_one x)
minus_one-shift bound x y h p q = (omega arith, omega arith)

module _ {F : Type 0} where
  pub climb-minus_one :
      (c : Around F) (fuel : ℕ) (s : NodeStore F) (n : NodeRef) (m : ℕ)
      → depth c < fuel
      → Layout s
      → 1 ≤ m
      → weight c m < 2 ^ 64
      → ((k : NodeRef) → uses_around c k ≤ 1)
      → HoldsAround s c n m
      → (s' : NodeStore F) × (climb (change_mass minus_one) fuel s (above c) ≡ ok s')
        × Layout s'
        × HoldsAround s' c n (minus_one m)
        × ((k : NodeRef) → k.raw < 2 ^ 32 → spine c k ≡ 0 → view s' k ≡ view s k)
  climb-minus_one c fuel s n m b w p q u h =
      let (s', ran, w', h', same) =
        climb_lem minus_one (λ x. x) (λ x. 1 ≤ x) (weight c m) (λ x y p. omega (arith, p))
          (λ x y p r. minus_one-shift (weight c m) x y q p r) (change_mass minus_one)
          (λ t j d l jw e. change_mass-Written minus_one t j l jw e) c fuel s n m b w p
          (omega arith) u h in
      (s', ran, w', subst (λ a. HoldsAround s' a n (minus_one m)) (reboxed_id c) h', same)

  module _ (f64 : Arith F) (dim : ℕ) (points : ℕ → Option (List F)) where
    -- The point of an index can be boxed.
    abbrev pub HasBox : NodeRef → ℕ → Type 0
    HasBox n i =
        (p : List F) × (points i ≡ some p)
        × (from_point f64 dim p ≡ ok (record { min = p; max = p }))

    abbrev at_point : Option (List F) → BoundingBox F
    at_point none = record { min = []; max = [] }
    at_point (some p) = record { min = p; max = p }

    abbrev pub box_at : Shape F → BoundingBox F
    box_at (tip n i m) = at_point (points i)
    box_at (fork n cut bbox l r) = bbox

    -- The boxes above, made again from the box of the open place.
    pub rebuilt : Around F → BoundingBox F → Around F
    rebuilt whole b = whole
    rebuilt (under side n cut bbox other up) b =
        let b' = if side then merged f64 b (box_at other) else merged f64 (box_at other) b in
        under side n cut b' other (rebuilt up b')

    pub above-rebuilt : (c : Around F) (b : BoundingBox F) → above (rebuilt c b) ≡ above c
    unfolding rebuilt
    above-rebuilt whole b = refl
    above-rebuilt (under side n cut bbox other up) b = refl

    -- The boxes are nothing to references, masses and points.
    pub rebuilt_same :
        (c : Around F) (b : BoundingBox F)
        → ((k : NodeRef) → uses_around (rebuilt c b) k ≡ uses_around c k)
          × ((n : NodeRef) → root_of (rebuilt c b) n ≡ root_of c n)
          × ((m : ℕ) → weight (rebuilt c b) m ≡ weight c m)
          × ((k : NodeRef) → mass_around (rebuilt c b) k ≡ mass_around c k)
          × ((Q : NodeRef → ℕ → Type 0) → TipsAround Q c → TipsAround Q (rebuilt c b))
    unfolding rebuilt uses_around root_of weight mass_around
    rebuilt_same whole b = (λ k. refl, λ n. refl, λ m. refl, λ k. refl, λ Q h. h)
    rebuilt_same (under side n cut bbox other up) b =
        let (used, top_most, mass_all, at, tips) =
          rebuilt_same up
            (if side then merged f64 b (box_at other) else merged f64 (box_at other) b) in
        (
          λ k. omega (arith, used k),
          λ m. top_most n,
          λ m. mass_all (m + mass other),
          λ k. omega (arith, at k),
          λ Q h. (h.0, tips Q h.1),
        )

    pub bbox_of-held :
        (s : NodeStore F) (p : Option NodeRef) (t : Shape F)
        → Holds s p t
        → Tips HasBox t
        → bbox_of f64 dim points s (top t) ≡ ok (box_at t)
    unfolding bbox_of
    bbox_of-held s p (tip n i m) h (x, known, boxed) = rw (h.1, known, boxed) refl
    bbox_of-held s p (fork n cut bbox l r) h k = rw h.1 refl

    -- A node under which the loop begins, with its box.
    abbrev pub Boxed : NodeStore F → NodeRef → BoundingBox F → Type 0
    Boxed s n b = (n.raw < 2 ^ 32) × (bbox_of f64 dim points s n ≡ ok b)

    Boxed-eq :
        (s s' : NodeStore F) (n : NodeRef) (b : BoundingBox F)
        → view s' n ≡ view s n
        → Boxed s n b
        → Boxed s' n b
    unfolding bbox_of
    Boxed-eq s s' n b e (w, h) = (w, rw e h)

    bbox_of-internal :
        (s : NodeStore F) (n : NodeRef) {d : InternalData F}
        → view s n ≡ ok (internal_view d)
        → bbox_of f64 dim points s n ≡ ok d.bbox
    unfolding bbox_of
    bbox_of-internal s n e = rw e refl

    -- A node above the open place without its parent's share of the record.
    abbrev lightened :
        Bool → Option NodeRef → Cut F → BoundingBox F → NodeRef → ℕ → Shape F → InternalData F
    lightened side a cut b n m other = record (entry side a cut b n m other) {
      mass = minus_one (if side then m + mass other else mass other + m);
    }

    lightened-eq :
        (side : Bool) (a : Option NodeRef) (cut : Cut F) (b : BoundingBox F) (n : NodeRef) (m : ℕ)
        (other : Shape F)
        → 1 ≤ m
        → m + mass other < 2 ^ 64
        → Path
            (RcfResult (NodeView F))
            (ok (internal_view (lightened side a cut b n m other)))
            (ok (internal_view (entry side a cut b n (minus_one m) other)))
    lightened-eq true a cut b n m other p q =
        ap (λ x. ok (internal_view (record (entry true a cut b n m other) { mass = x })))
          (minus_one-shift (m + mass other) m (mass other) q p (omega arith)).0
    lightened-eq false a cut b n m other p q =
        ap (λ x. ok (internal_view (record (entry false a cut b n m other) { mass = x })))
          (minus_one-shift (m + mass other) m (mass other) q p (omega arith)).1

    abbrev joint : Bool → BoundingBox F → Shape F → BoundingBox F
    joint side b other = if side then merged f64 b (box_at other) else merged f64 (box_at other) b

    compute-joint :
        (s : NodeStore F) (side : Bool) (a : Option NodeRef) (j n : NodeRef) (cut : Cut F)
        (bbox b : BoundingBox F) (m : ℕ) (other : Shape F)
        → view s j ≡ ok (internal_view (lightened side a cut bbox n m other))
        → bbox_of f64 dim points s n ≡ ok b
        → bbox_of f64 dim points s (top other) ≡ ok (box_at other)
        → compute_internal_bbox f64 dim points s j ≡ ok (joint side b other)
    unfolding compute_internal_bbox
    compute-joint s true a j n cut bbox b m other v e f = rw (v, e, f) refl
    compute-joint s false a j n cut bbox b m other v e f = rw (v, e, f) refl

    -- One round at a node above the open place.
    recompute-Written :
        (s : NodeStore F) (side : Bool) (a : Option NodeRef) (j n : NodeRef) (cut : Cut F)
        (bbox b : BoundingBox F) (m : ℕ) (other : Shape F)
        → Layout s
        → j.raw < 2 ^ 32
        → view s j ≡ ok (internal_view (entry side a cut bbox n m other))
        → Holds s (some j) other
        → Tips HasBox other
        → n ≢ j
        → uses other j ≡ 0
        → Boxed s n b
        → 1 ≤ m
        → m + mass other < 2 ^ 64
        → (s' : NodeStore F) × (recompute f64 dim points s j ≡ ok s')
          × Written s s' j
              (internal_view (entry side a cut (joint side b other) n (minus_one m) other))
    unfolding recompute
    recompute-Written s side a j n cut bbox b m other w jw jv ho known ne z box p q =
        let (s1, ran1, wr1) = change_mass-Written minus_one s j w jw jv in
        let (_, boxed) = Boxed-eq s s1 n b (wr1.frame n box.0 ne) box in
        let held =
          bbox_of-held s1 (some j) other (Holds-Frame s s1 (some j) other j wr1.frame z ho) known in
        let made = compute-joint s1 side a j n cut bbox b m other wr1.holds boxed held in
        let ((s2, ran2, wr2), _, _) =
          set_internal-Written s1 j (joint side b other) n n cut wr1.layout jw wr1.holds in
        (
          s2,
          rw ((kind_of_internal s j _ jv).0, ran1, made) ran2,
          record {
            layout = wr2.layout;
            holds = wr2.holds ∙ lightened-eq side a cut (joint side b other) n m other p q;
            frame = λ k kw ne. wr2.frame k kw ne ∙ wr1.frame k kw ne;
            count = wr2.count ∙ wr1.count;
          },
        )

    -- `recompute_ancestors`: the nodes above have one point less and the boxes of what they hold.
    pub climb-recompute :
        (c : Around F) (fuel : ℕ) (s : NodeStore F) (n : NodeRef) (m : ℕ) (b : BoundingBox F)
        → depth c < fuel
        → Layout s
        → 1 ≤ m
        → weight c m < 2 ^ 64
        → ((k : NodeRef) → uses_around c k ≤ 1)
        → uses_around c n ≡ 0
        → HoldsAround s c n m
        → TipsAround HasBox c
        → Boxed s n b
        → (s' : NodeStore F) × (climb (recompute f64 dim points) fuel s (above c) ≡ ok s')
          × Layout s'
          × HoldsAround s' (rebuilt c b) n (minus_one m)
          × ((k : NodeRef) → k.raw < 2 ^ 32 → spine c k ≡ 0 → view s' k ≡ view s k)
    unfolding climb rebuilt spine depth weight uses_around
    climb-recompute c zero s n m b d w p q u z h known box = absurd (omega arith)
    climb-recompute whole (suc fuel) s n m b d w p q u z h known box =
        (s, refl, w, tt, λ k kw z. refl)
    climb-recompute (under side j cut bbox other up) (suc fuel) s n m b d w p q u z (jw, jv, ho, hu)
          (known, rest) box =
        let mo = mass other in
        let b' = joint side b other in
        let low : m + mo < 2 ^ 64 = omega (arith, q, weight-le up (m + mo)) in
        let here : uses other j + uses_around up j ≡ 0 = ground (arith, u j, same_ref_self j) in
        let apart : n ≢ j = λ e. absurd (ground (arith, z, same_ref_self j, ap (same_ref j) e)) in
        let (s1, ran, wr) =
          recompute-Written s side (above up) j n cut bbox b m other w jw jv ho known apart
            (omega (arith, here)) box p low in
        let ho1 = Holds-Frame s s1 (some j) other j wr.frame (omega (arith, here)) ho in
        let hu1 = HoldsAround-Frame s s1 up j (m + mo) j wr.frame (omega (arith, here)) hu in
        let (s2, ran2, w2, hu2, same) =
          climb-recompute up fuel s1 j (m + mo) b' (omega (arith, d)) wr.layout (omega (arith, p)) q
            (λ k. ground (arith, u k)) (omega (arith, here)) hu1 rest
            (jw, bbox_of-internal s1 j wr.holds) in
        (
          s2,
          rw (ran, parent-view s1 j wr.holds) ran2,
          w2,
          (
            jw,
            same j jw (omega (arith, spine-le up j, here))
                ∙ wr.holds
                ∙ ap (λ a. ok (internal_view (entry side a cut b' n (minus_one m) other)))
                    (sym (above-rebuilt up b')),
            Holds-eq s1 s2 (some j) other
                (λ k kw uk. same k kw (ground (arith, spine-le up k, u k))) ho1,
            subst (HoldsAround s2 (rebuilt up b') j)
                (minus_one-shift (m + mo) m mo low p (omega arith)).0 hu2,
          ),
          λ k kw z.
              same k kw (ground (arith, z))
              ∙ wr.frame k kw (λ e. absurd (ground (arith, z, same_ref_self j, ap (same_ref j) e))),
        )
