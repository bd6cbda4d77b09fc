-- ===== src/Core/Tree/RandomCutTree/Plug.antt =====
-- A tree in its open place, as one tree; and the place of a leaf.
use anomstream.Prelude.{ℕ, ◌+◌, ◌≤◌, ◌≡◌, ◌∙◌, sym, refl, ap, subst, true, false, arith, dec_lt}
use anomstream.Core.Tree.Node.{NodeRef}
use anomstream.Core.Tree.RandomCutTree.{RandomCutTree}
use anomstream.Core.Tree.RandomCutTree.Shape.{
  Shape, Tips-map, uses, uses_around, tip, fork, Around, whole, under, mass, mass_at, Tips, height,
  depth, weight,
}
use anomstream.Core.Tree.RandomCutTree.Holds.{eq_of_same_ref, same_ref_self}
use anomstream.Core.Tree.RandomCutTree.Sits.{Sits}
use anomstream.Core.Tree.RandomCutTree.Relink.{forked, Sits-down, Sits-up}

module _ {F : Type 0} where
  unfoldable pub plug : Around F → Shape F → Shape F
  plug whole t = t
  plug (under side n cut bbox other up) t = plug up (forked side n cut bbox t other)

  -- The mass of the leaves that a reference names, outside the open place.
  unfoldable pub mass_around : Around F → NodeRef → ℕ
  mass_around whole k = 0
  mass_around (under side n cut bbox other up) k = mass_at other k + mass_around up k

  abbrev pub TipsAround : (NodeRef → ℕ → Type 0) → Around F → Type 0
  TipsAround Q whole = Unit {0}
  TipsAround Q (under side n cut bbox other up) = Tips Q other × TipsAround Q up

  pub mass-plug : (c : Around F) (t : Shape F) → mass (plug c t) ≡ weight c (mass t)
  unfolding plug mass weight
  mass-plug whole t = refl
  mass-plug (under true n cut bbox other up) t = mass-plug up (fork n cut bbox t other)
  mass-plug (under false n cut bbox other up) t =
      mass-plug up (fork n cut bbox other t) ∙ ap (weight up) (omega arith)

  pub mass_at-plug :
      (c : Around F) (t : Shape F) (k : NodeRef)
      → mass_at (plug c t) k ≡ mass_at t k + mass_around c k
  unfolding plug mass_at mass_around
  mass_at-plug whole t k = omega arith
  mass_at-plug (under true n cut bbox other up) t k =
      omega (arith, mass_at-plug up (fork n cut bbox t other) k)
  mass_at-plug (under false n cut bbox other up) t k =
      omega (arith, mass_at-plug up (fork n cut bbox other t) k)

  pub Tips-plug :
      (Q : NodeRef → ℕ → Type 0) (c : Around F) (t : Shape F)
      → (Tips Q (plug c t) → Tips Q t × TipsAround Q c)
        × (Tips Q t → TipsAround Q c → Tips Q (plug c t))
  unfolding plug
  Tips-plug Q whole t = (λ h. (h, tt), λ h _. h)
  Tips-plug Q (under true n cut bbox other up) t =
      let (to, of) = Tips-plug Q up (fork n cut bbox t other) in
      (λ h. let (a, b) = to h in (a.0, (a.1, b)), λ h g. of (h, g.0) g.1)
  Tips-plug Q (under false n cut bbox other up) t =
      let (to, of) = Tips-plug Q up (fork n cut bbox other t) in
      (λ h. let (a, b) = to h in (a.1, (a.0, b)), λ h g. of (g.0, h) g.1)

  pub Sits-plug :
      (tree : RandomCutTree F) (c : Around F) (t : Shape F)
      → Sits tree c t
      → Sits tree whole (plug c t)
  unfolding plug
  Sits-plug tree whole t h = h
  Sits-plug tree (under side n cut bbox other up) t h =
      Sits-plug tree up (forked side n cut bbox t other) (Sits-up tree up side n cut bbox t other h)

  -- A leaf with mass has a place, no deeper than the tree is high.
  pub locate :
      (tree : RandomCutTree F) (t : Shape F) (c : Around F) (n : NodeRef)
      → 1 ≤ mass_at t n
      → Sits tree c t
      → (c' : Around F) × (i : ℕ) × (m : ℕ) × Sits tree c' (tip n i m)
        × (plug c' (tip n i m) ≡ plug c t)
        × (depth c' ≤ depth c + height t)
  unfolding plug mass_at depth height
  locate tree (tip k i m) c n le h =
      let same = eq_of_same_ref k n (ground (arith, le)) in
      (
        c,
        i,
        m,
        subst (λ x. Sits tree c (tip x i m)) same h,
        ap (λ x. plug c (tip x i m)) (sym same),
        omega arith,
      )
  locate tree (fork k cut bbox l r) c n le h = elim (dec_lt 0 (mass_at l n)) [
    | yes q ↦
        let (c', i, m, sits, same, deep) =
          locate tree l (under true k cut bbox r c) n q (Sits-down tree c true k cut bbox l r h) in
        (c', i, m, sits, same, omega (arith, deep))
    | no q ↦
        let (c', i, m, sits, same, deep) =
          locate tree r (under false k cut bbox l c) n (omega (arith, le, q))
            (Sits-down tree c false k cut bbox r l h) in
        (c', i, m, sits, same, omega (arith, deep))
  ]

  pub TipsAround-map :
      {Q S : NodeRef → ℕ → Type 0} (c : Around F)
      → ((n : NodeRef) (i : ℕ) → Q n i → S n i)
      → TipsAround Q c
      → TipsAround S c
  TipsAround-map whole f h = tt
  TipsAround-map (under side n cut bbox other up) f (h, k) =
      (Tips-map other f h, TipsAround-map up f k)

  -- Leaves are among the nodes used.
  Tips-used :
      (Q : NodeRef → ℕ → Type 0) (t : Shape F) → Tips Q t → Tips (λ k i. Q k i × (1 ≤ uses t k)) t
  unfolding uses
  Tips-used Q (tip n i m) h = (h, ground (arith, same_ref_self n))
  Tips-used Q (fork n cut bbox l r) (h, k) = (
    Tips-map l (λ j i (q, u). (q, omega (arith, u))) (Tips-used Q l h),
    Tips-map r (λ j i (q, u). (q, omega (arith, u))) (Tips-used Q r k),
  )

  pub TipsAround-used :
      (Q : NodeRef → ℕ → Type 0) (c : Around F)
      → TipsAround Q c
      → TipsAround (λ k i. Q k i × (1 ≤ uses_around c k)) c
  unfolding uses_around
  TipsAround-used Q whole h = tt
  TipsAround-used Q (under side n cut bbox other up) (h, k) = (
    Tips-map other (λ j i (q, u). (q, omega (arith, u))) (Tips-used Q other h),
    TipsAround-map up (λ j i (q, u). (q, omega (arith, u))) (TipsAround-used Q up k),
  )

  mass_at-zero : (t : Shape F) (k : NodeRef) → uses t k ≡ 0 → mass_at t k ≡ 0
  unfolding uses mass_at
  mass_at-zero (tip n i m) k z = ground (arith, z)
  mass_at-zero (fork n cut bbox l r) k z =
      omega (arith, mass_at-zero l k (omega (arith, z)), mass_at-zero r k (omega (arith, z)))

  pub mass_around-zero : (c : Around F) (k : NodeRef) → uses_around c k ≡ 0 → mass_around c k ≡ 0
  unfolding uses_around mass_around
  mass_around-zero whole k z = refl
  mass_around-zero (under side n cut bbox other up) k z =
      omega
        (arith, mass_at-zero other k (omega (arith, z)), mass_around-zero up k (omega (arith, z)))

  pub weight-add : (c : Around F) (x y : ℕ) → weight c (x + y) ≡ weight c x + y
  unfolding weight
  weight-add whole x y = refl
  weight-add (under side n cut bbox other up) x y =
      ap (weight up) (omega arith) ∙ weight-add up (x + mass other) y
