-- ===== src/Core/Tree/RandomCutTree/Holds.antt =====
-- When an arena holds a tree, and what leaves that alone.
use anomstream.Prelude.{
  ℕ, ◌+◌, ◌≤◌, ◌<◌, ◌^◌, ◌≡◌, ◌≢◌, ◌∙◌, sym, ap, dec_lt, Bool-cases, inl, inr, Bool, true, Option,
  some, if◌then◌else◌, arith, ==_refl,
}
use anomstream.Core.Error.{RcfError, ok, err}
use anomstream.Core.Domain.{Cut, BoundingBox}
use anomstream.Core.Tree.Node.{NodeRef, InternalData, NodeView, internal_view, leaf_view}
use anomstream.Core.Tree.NodeStore.{NodeStore, view}
use anomstream.Core.Tree.NodeStore.Added.{Frame}
use anomstream.Core.Tree.RandomCutTree.{same_ref}
use anomstream.Core.Tree.RandomCutTree.Shape.{
  Shape, tip, fork, Around, whole, under, top, mass, uses, uses_around, above,
}

pub same_ref_self : (n : NodeRef) → same_ref n n ≡ true
same_ref_self n = ==_refl n.raw

pub eq_of_same_ref : (m n : NodeRef) → same_ref m n ≡ true → m ≡ n
eq_of_same_ref m n h = ground arith

module _ {F : Type 0} where
  -- The record of a fork, and that of a node above an open place, which holds `n` with mass `m`.
  abbrev pub joined : Option NodeRef → Cut F → BoundingBox F → Shape F → Shape F → InternalData F
  joined p cut bbox l r = record {
    cut = cut;
    bbox = bbox;
    left = top l;
    right = top r;
    parent = p;
    mass = mass l + mass r;
  }

  abbrev pub entry :
      Bool → Option NodeRef → Cut F → BoundingBox F → NodeRef → ℕ → Shape F → InternalData F
  entry side p cut bbox n m other = record {
    cut = cut;
    bbox = bbox;
    left = if side then n else top other;
    right = if side then top other else n;
    parent = p;
    mass = if side then m + mass other else mass other + m;
  }

  -- The arena holds the tree, its top node under the parent `p`.
  abbrev pub Holds : NodeStore F → Option NodeRef → Shape F → Type 0
  Holds s p (tip n i m) =
      (n.raw < 2 ^ 32)
      × (view s n ≡ ok (leaf_view (record { point_idx = i; parent = p; mass = m })))
  Holds s p (fork n cut bbox l r) =
      (n.raw < 2 ^ 32)
      × (view s n ≡ ok (internal_view (joined p cut bbox l r)))
      × Holds s (some n) l
      × Holds s (some n) r

  -- The arena holds what is around an open place, in which stands `n` with mass `m`.
  abbrev pub HoldsAround : NodeStore F → Around F → NodeRef → ℕ → Type 0
  HoldsAround s whole n m = Unit {0}
  HoldsAround s (under side k cut bbox other up) n m =
      (k.raw < 2 ^ 32)
      × (view s k ≡ ok (internal_view (entry side (above up) cut bbox n m other)))
      × Holds s (some k) other
      × HoldsAround s up k (m + mass other)

  pub uses-top : (t : Shape F) → 1 ≤ uses t (top t)
  unfolding uses
  uses-top (tip n i m) = ground (arith, same_ref_self n)
  uses-top (fork n cut bbox l r) = ground (arith, same_ref_self n)

  -- A node that a held tree uses is live.
  pub Holds-live :
      (s : NodeStore F) (p : Option NodeRef) (t : Shape F) (k : NodeRef)
      → Holds s p t
      → 1 ≤ uses t k
      → (v : NodeView F) × (view s k ≡ ok v)
  unfolding uses
  Holds-live s p (tip n i m) k (w, v) u =
      (_, ap (view s) (sym (eq_of_same_ref n k (ground arith))) ∙ v)
  Holds-live s p (fork n cut bbox l r) k (w, v, hl, hr) u = elim (Bool-cases (same_ref n k)) [
    | inl e ↦ (_, ap (view s) (sym (eq_of_same_ref n k e)) ∙ v)
    | inr e ↦ elim (dec_lt 0 (uses l k)) [
      | yes q ↦ Holds-live s (some n) l k hl q
      | no q ↦ Holds-live s (some n) r k hr (ground (arith, e))
    ]
  ]

  pub HoldsAround-live :
      (s : NodeStore F) (c : Around F) (n : NodeRef) (m : ℕ) (k : NodeRef)
      → HoldsAround s c n m
      → 1 ≤ uses_around c k
      → (v : NodeView F) × (view s k ≡ ok v)
  unfolding uses_around
  HoldsAround-live s whole n m k h u = absurd (omega arith)
  HoldsAround-live s (under side j cut bbox other up) n m k (w, v, ho, hu) u =
      elim (Bool-cases (same_ref j k)) [
        | inl e ↦ (_, ap (view s) (sym (eq_of_same_ref j k e)) ∙ v)
        | inr e ↦ elim (dec_lt 0 (uses other k)) [
          | yes q ↦ Holds-live s (some j) other k ho q
          | no q ↦ HoldsAround-live s up j (m + mass other) k hu (ground (arith, e))
        ]
      ]

  -- A node without a record is used nowhere.
  pub Holds-fresh :
      (s : NodeStore F) (p : Option NodeRef) (t : Shape F) (k : NodeRef) {e : RcfError}
      → Holds s p t
      → view s k ≡ err e
      → uses t k ≡ 0
  Holds-fresh s p t k h f = elim (dec_lt 0 (uses t k)) [
    | yes u ↦ let (v, g) = Holds-live s p t k h u in absurd (cc (f, g))
    | no u ↦ omega arith
  ]

  pub HoldsAround-fresh :
      (s : NodeStore F) (c : Around F) (n : NodeRef) (m : ℕ) (k : NodeRef) {e : RcfError}
      → HoldsAround s c n m
      → view s k ≡ err e
      → uses_around c k ≡ 0
  HoldsAround-fresh s c n m k h f = elim (dec_lt 0 (uses_around c k)) [
    | yes u ↦ let (v, g) = HoldsAround-live s c n m k h u in absurd (cc (f, g))
    | no u ↦ omega arith
  ]

  -- A tree is held as long as its nodes look the same.
  pub Holds-eq :
      (s s' : NodeStore F) (p : Option NodeRef) (t : Shape F)
      → ((k : NodeRef) → k.raw < 2 ^ 32 → 1 ≤ uses t k → view s' k ≡ view s k)
      → Holds s p t
      → Holds s' p t
  unfolding uses
  Holds-eq s s' p (tip n i m) f (w, v) = (w, f n w (ground (arith, same_ref_self n)) ∙ v)
  Holds-eq s s' p (fork n cut bbox l r) f (w, v, hl, hr) = (
    w,
    f n w (ground (arith, same_ref_self n)) ∙ v,
    Holds-eq s s' (some n) l (λ k kw u. f k kw (omega (arith, u))) hl,
    Holds-eq s s' (some n) r (λ k kw u. f k kw (omega (arith, u))) hr,
  )

  pub HoldsAround-eq :
      (s s' : NodeStore F) (c : Around F) (n : NodeRef) (m : ℕ)
      → ((k : NodeRef) → k.raw < 2 ^ 32 → 1 ≤ uses_around c k → view s' k ≡ view s k)
      → HoldsAround s c n m
      → HoldsAround s' c n m
  unfolding uses_around
  HoldsAround-eq s s' whole n m f h = tt
  HoldsAround-eq s s' (under side j cut bbox other up) n m f (w, v, ho, hu) = (
    w,
    f j w (ground (arith, same_ref_self j)) ∙ v,
    Holds-eq s s' (some j) other (λ k kw u. f k kw (omega (arith, u))) ho,
    HoldsAround-eq s s' up j (m + mass other) (λ k kw u. f k kw (omega (arith, u))) hu,
  )

  -- A node used here is not one that is used nowhere here.
  pub uses_ne : (t : Shape F) (k n : NodeRef) → 1 ≤ uses t k → uses t n ≡ 0 → k ≢ n
  uses_ne t k n u z e = absurd (omega (arith, u, z, ap (uses t) e))

  pub uses_around_ne :
      (c : Around F) (k n : NodeRef) → 1 ≤ uses_around c k → uses_around c n ≡ 0 → k ≢ n
  uses_around_ne c k n u z e = absurd (omega (arith, u, z, ap (uses_around c) e))

  pub Holds-Frame :
      (s s' : NodeStore F) (p : Option NodeRef) (t : Shape F) (n : NodeRef)
      → Frame s s' n
      → uses t n ≡ 0
      → Holds s p t
      → Holds s' p t
  Holds-Frame s s' p t n f z = Holds-eq s s' p t (λ k w u. f k w (uses_ne t k n u z))

  pub HoldsAround-Frame :
      (s s' : NodeStore F) (c : Around F) (j : NodeRef) (m : ℕ) (n : NodeRef)
      → Frame s s' n
      → uses_around c n ≡ 0
      → HoldsAround s c j m
      → HoldsAround s' c j m
  HoldsAround-Frame s s' c j m n f z =
      HoldsAround-eq s s' c j m (λ k w u. f k w (uses_around_ne c k n u z))
