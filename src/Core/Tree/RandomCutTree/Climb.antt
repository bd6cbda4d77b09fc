-- ===== src/Core/Tree/RandomCutTree/Climb.antt =====
-- A loop towards the root changes every node above the open place, and no other.
use anomstream.Prelude.{
  ℕ, zero, suc, ◌+◌, ◌≤◌, ◌<◌, ◌^◌, ◌≡◌, ◌∙◌, sym, refl, ap, subst, Bool, true, false, Option, some,
  if◌then◌else◌, arith,
}
use anomstream.Core.Error.{RcfResult, ok}
use anomstream.Core.Domain.{Cut, BoundingBox}
use anomstream.Core.Tree.Node.{NodeRef, InternalData, internal_view}
use anomstream.Core.Tree.NodeStore.{NodeStore, view}
use anomstream.Core.Tree.NodeStore.Views.{parent-view}
use anomstream.Core.Tree.NodeStore.Layout.{Layout}
use anomstream.Core.Tree.NodeStore.Update.{Written}
use anomstream.Core.Tree.RandomCutTree.{same_ref, climb}
use anomstream.Core.Tree.RandomCutTree.Shape.{
  Shape, Around, whole, under, mass, uses, uses_around, above, above-reboxed, spine, depth, weight,
  reboxed,
}
use anomstream.Core.Tree.RandomCutTree.Holds.{
  HoldsAround, entry, same_ref_self, Holds-Frame, HoldsAround-Frame, Holds-eq,
}

module _ {F : Type 0} where
  pub spine-le : (c : Around F) (k : NodeRef) → spine c k ≤ uses_around c k
  unfolding spine uses_around
  spine-le whole k = omega arith
  spine-le (under side n cut bbox other up) k = omega (arith, spine-le up k)

  pub weight-le : (c : Around F) (m : ℕ) → m ≤ weight c m
  unfolding weight
  weight-le whole m = omega arith
  weight-le (under side n cut bbox other up) m = omega (arith, weight-le up (m + mass other))

  module _ (f : ℕ → ℕ) (g : BoundingBox F → BoundingBox F) (P : ℕ → Type 0) (bound : ℕ)
      (more : (x y : ℕ) → P x → P (x + y))
      (shift : (x y : ℕ) → P x → x + y ≤ bound → (f (x + y) ≡ f x + y) × (f (y + x) ≡ y + f x))
      (body : NodeStore F → NodeRef → RcfResult (NodeStore F))
      (writes : (s : NodeStore F) (n : NodeRef) (d : InternalData F)
        → Layout s
        → n.raw < 2 ^ 32
        → view s n ≡ ok (internal_view d)
        → (s' : NodeStore F) × (body s n ≡ ok s')
          × Written s s' n (internal_view (record d { mass = f d.mass; bbox = g d.bbox }))) where
    entry_shift :
        (side : Bool) (a : Option NodeRef) (cut : Cut F) (bbox : BoundingBox F) (n : NodeRef)
        (m : ℕ) (other : Shape F)
        → P m
        → m + mass other ≤ bound
        → record (entry side a cut bbox n m other) {
          mass = f (if side then m + mass other else mass other + m);
          bbox = g bbox;
        }
          ≡ entry side a cut (g bbox) n (f m) other
    entry_shift true a cut bbox n m other p q =
        ap (λ k. record (entry true a cut (g bbox) n (f m) other) { mass = k })
          (shift m (mass other) p q).0
    entry_shift false a cut bbox n m other p q =
        ap (λ k. record (entry false a cut (g bbox) n (f m) other) { mass = k })
          (shift m (mass other) p q).1

    -- With more fuel than there are nodes above, the loop succeeds: the arena then holds the nodes
    -- above with their masses and boxes changed, for the new mass in the open place, and every node
    -- that is not above looks as before.
    pub climb_lem :
        (c : Around F) (fuel : ℕ) (s : NodeStore F) (n : NodeRef) (m : ℕ)
        → depth c < fuel
        → Layout s
        → P m
        → weight c m ≤ bound
        → ((k : NodeRef) → uses_around c k ≤ 1)
        → HoldsAround s c n m
        → (s' : NodeStore F) × (climb body fuel s (above c) ≡ ok s')
          × Layout s'
          × HoldsAround s' (reboxed g c) n (f m)
          × ((k : NodeRef) → k.raw < 2 ^ 32 → spine c k ≡ 0 → view s' k ≡ view s k)
    unfolding climb reboxed spine depth weight uses_around
    climb_lem c zero s n m b w p q u h = absurd (omega arith)
    climb_lem whole (suc fuel) s n m b w p q u h = (s, refl, w, tt, λ k kw z. refl)
    climb_lem (under side j cut bbox other up) (suc fuel) s n m b w p q u (jw, jv, ho, hu) =
        let mo = mass other in
        let low : m + mo ≤ bound = omega (arith, q, weight-le up (m + mo)) in
        let here : uses other j + uses_around up j ≡ 0 = ground (arith, u j, same_ref_self j) in
        let (s1, ran, wr) = writes s j (entry side (above up) cut bbox n m other) w jw jv in
        let v1 =
          wr.holds
          ∙ ap (λ d. ok (internal_view d)) (entry_shift side (above up) cut bbox n m other p low) in
        let ho1 = Holds-Frame s s1 (some j) other j wr.frame (omega (arith, here)) ho in
        let hu1 = HoldsAround-Frame s s1 up j (m + mo) j wr.frame (omega (arith, here)) hu in
        let (s2, ran2, w2, hu2, same) =
          climb_lem up fuel s1 j (m + mo) (omega (arith, b)) wr.layout (more m mo p) q
            (λ k. ground (arith, u k)) hu1 in
        (
          s2,
          rw (ran, parent-view s1 j v1) ran2,
          w2,
          (
            jw,
            same j jw (omega (arith, spine-le up j, here))
                ∙ v1
                ∙ ap (λ a. ok (internal_view (entry side a cut (g bbox) n (f m) other)))
                    (sym (above-reboxed g up)),
            Holds-eq s1 s2 (some j) other
                (λ k kw uk. same k kw (ground (arith, spine-le up k, u k))) ho1,
            subst (HoldsAround s2 (reboxed g up) j) (shift m mo p low).0 hu2,
          ),
          λ k kw z.
              same k kw (ground (arith, z))
              ∙ wr.frame k kw (λ e. absurd (ground (arith, z, same_ref_self j, ap (same_ref j) e))),
        )
