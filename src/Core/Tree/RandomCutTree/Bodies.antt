-- ===== src/Core/Tree/RandomCutTree/Bodies.antt =====
-- What the loops towards the root do to one node, and the whole loops of an insertion.
use anomstream.Prelude.{ℕ, ◌+◌, ◌≤◌, ◌<◌, ◌^◌, ◌≡◌, subst, List, length, arith}
use anomstream.Core.Error.{ok}
use anomstream.Core.Domain.Arith.{Arith}
use anomstream.Core.Domain.Boxes.{extend, extended}
use anomstream.Core.Tree.Node.{NodeRef, InternalData, NodeView, internal_view, view_mass}
use anomstream.Core.Tree.NodeStore.{NodeStore, view, with_mass}
use anomstream.Core.Tree.NodeStore.Layout.{Layout}
use anomstream.Core.Tree.NodeStore.Update.{Written, set_mass-Written, put_internal_view-Written}
use anomstream.Core.Tree.RandomCutTree.{climb, change_mass, plus_one, add_point}
use anomstream.Core.Tree.RandomCutTree.Shape.{
  Around, above, depth, weight, uses_around, spine, reboxed, reboxed_id,
}
use anomstream.Core.Tree.RandomCutTree.Holds.{HoldsAround}
use anomstream.Core.Tree.RandomCutTree.Climb.{climb_lem}

plus_one-shift :
    (bound x y : ℕ)
    → bound + 1 < 2 ^ 64
    → x + y ≤ bound
    → (plus_one (x + y) ≡ plus_one x + y) × (plus_one (y + x) ≡ y + plus_one x)
plus_one-shift bound x y h q = (omega arith, omega arith)

module _ {F : Type 0} where
  pub change_mass-Written :
      (f : ℕ → ℕ) (s : NodeStore F) (n : NodeRef) {v : NodeView F}
      → Layout s
      → n.raw < 2 ^ 32
      → view s n ≡ ok v
      → (s' : NodeStore F) × (change_mass f s n ≡ ok s')
        × (Written s s' n (with_mass (f (view_mass v)) v))
  unfolding change_mass
  change_mass-Written f s n {v} w hn e =
      let (s', ran, wr) = set_mass-Written s n (f (view_mass v)) w hn e in (s', rw e ran, wr)

  -- The loop of `absorb_duplicate`.
  pub climb-plus_one :
      (c : Around F) (fuel : ℕ) (s : NodeStore F) (n : NodeRef) (m : ℕ)
      → depth c < fuel
      → Layout s
      → weight c m + 1 < 2 ^ 64
      → ((k : NodeRef) → uses_around c k ≤ 1)
      → HoldsAround s c n m
      → (s' : NodeStore F) × (climb (change_mass plus_one) fuel s (above c) ≡ ok s')
        × Layout s'
        × HoldsAround s' c n (plus_one m)
        × ((k : NodeRef) → k.raw < 2 ^ 32 → spine c k ≡ 0 → view s' k ≡ view s k)
  climb-plus_one c fuel s n m b w q u h =
      let (s', ran, w', h', same) =
        climb_lem plus_one (λ x. x) (λ _. Unit {0}) (weight c m) (λ x y p. tt)
          (λ x y p r. plus_one-shift (weight c m) x y q r) (change_mass plus_one)
          (λ t j d l jw e. change_mass-Written plus_one t j l jw e) c fuel s n m b w tt
          (omega arith) u h in
      (s', ran, w', subst (λ a. HoldsAround s' a n (plus_one m)) (reboxed_id c) h', same)

  module _ (f64 : Arith F) (dim : ℕ) (point : List F) (fits : length point ≡ dim) where
    add_point-Written :
        (s : NodeStore F) (n : NodeRef) (d : InternalData F)
        → Layout s
        → n.raw < 2 ^ 32
        → view s n ≡ ok (internal_view d)
        → (s' : NodeStore F) × (add_point f64 dim point s n ≡ ok s')
          × Written s s' n (
              internal_view (record d { mass = plus_one d.mass; bbox = extended f64 d.bbox point }))
    unfolding add_point extend
    add_point-Written s n d w hn e =
        let (s', ran, wr) =
          put_internal_view-Written s n
            (record d { mass = plus_one d.mass; bbox = extended f64 d.bbox point }) w hn e in
        (s', rw e (ground (arith, fits, ran)), wr)

    -- `update_ancestors_after_insert`
    pub climb-add_point :
        (c : Around F) (fuel : ℕ) (s : NodeStore F) (n : NodeRef) (m : ℕ)
        → depth c < fuel
        → Layout s
        → weight c m + 1 < 2 ^ 64
        → ((k : NodeRef) → uses_around c k ≤ 1)
        → HoldsAround s c n m
        → (s' : NodeStore F) × (climb (add_point f64 dim point) fuel s (above c) ≡ ok s')
          × Layout s'
          × HoldsAround s' (reboxed (λ b. extended f64 b point) c) n (plus_one m)
          × ((k : NodeRef) → k.raw < 2 ^ 32 → spine c k ≡ 0 → view s' k ≡ view s k)
    climb-add_point c fuel s n m b w q u h =
        climb_lem plus_one (λ x. extended f64 x point) (λ _. Unit {0}) (weight c m) (λ x y p. tt)
          (λ x y p r. plus_one-shift (weight c m) x y q r) (add_point f64 dim point)
          add_point-Written c fuel s n m b w tt (omega arith) u h
