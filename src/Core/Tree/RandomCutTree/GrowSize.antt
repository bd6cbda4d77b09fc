-- ===== src/Core/Tree/RandomCutTree/GrowSize.antt =====
-- The mass of a tree that took a point in.
use anomstream.Prelude.{ℕ, ◌+◌, ◌≡◌, ◌≤◌, refl, List, Option, arith}
use anomstream.Core.Error.{ok}
use anomstream.Core.Domain.Arith.{Arith}
use anomstream.Core.Tree.RandomCutTree.Shape.{Shape, tip, fork, mass, height}
use anomstream.Core.Tree.RandomCutTree.GrowCases.{grow-induction}
use anomstream.Core.Tree.RandomCutTree.Grow.{Tree, erase, size, tall, Grown, grow}

pub size-erase : {F : Type 0} (t : Shape F) → size (erase t) ≡ mass t
unfolding size erase mass
size-erase (tip n i m) = refl
size-erase (fork n cut bbox l r) = omega (arith, size-erase l, size-erase r)

pub tall-erase : {F : Type 0} (t : Shape F) → tall (erase t) ≡ height t
unfolding tall erase height
tall-erase (tip n i m) = refl
tall-erase (fork n cut bbox l r) = omega (arith, tall-erase l, tall-erase r)

module _ {F R : Type 0} (f64 : Arith F) (draw : R → F × R) (dim : ℕ) (points : ℕ → Option (List F))
    (idx : ℕ) (point : List F) where
  -- One more point is one more in the mass.
  pub size-grow :
      (t : Tree F) (rng : R) (g : Grown F R)
      → grow f64 draw dim points idx point t rng ≡ ok g
      → size g.0 ≡ size t + 1
  unfolding size
  size-grow =
      grow-induction f64 draw dim points idx point (λ t g. size g.0 ≡ size t + 1) (λ i m rng. refl)
        (λ t b cut rng rng' q p i. ground arith) (λ cut b l r g s e. omega (arith, e))
        (λ cut b l r g s e. omega (arith, e))

  -- A tree grows by one level at most.
  pub tall-grow :
      (t : Tree F) (rng : R) (g : Grown F R)
      → grow f64 draw dim points idx point t rng ≡ ok g
      → tall g.0 ≤ tall t + 1
  unfolding tall
  tall-grow =
      grow-induction f64 draw dim points idx point (λ t g. tall g.0 ≤ tall t + 1)
        (λ i m rng. omega arith) (λ t b cut rng rng' q p i. ground arith)
        (λ cut b l r g s e. omega (arith, e)) (λ cut b l r g s e. omega (arith, e))
