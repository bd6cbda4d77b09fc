-- ===== src/Core/Tree/RandomCutTree/Shape.antt =====
-- Trees of nodes, and a tree with one place left open: what an arena holds from a node down, and from
-- it up to the root.
use anomstream.Prelude.{
  ℕ, suc, ◌+◌, ◌≡◌, refl, ap, arith, Bool, Option, none, some, if◌then◌else◌, max,
}
use anomstream.Core.Domain.{Cut, BoundingBox}
use anomstream.Core.Tree.Node.{NodeRef}
use anomstream.Core.Tree.RandomCutTree.{same_ref}

pub data Shape (F : Type 0) : Type 0 where
  tip : (n : NodeRef) (point_idx mass : ℕ) → Shape F
  fork : (n : NodeRef) (cut : Cut F) (bbox : BoundingBox F) (l r : Shape F) → Shape F

-- From the open place to the root: for each node whether the place is on its left, the node and its
-- other child.
pub data Around (F : Type 0) : Type 0 where
  whole : Around F
  under :
      (on_left : Bool) (n : NodeRef) (cut : Cut F) (bbox : BoundingBox F) (other : Shape F)
      (up : Around F)
      → Around F

module _ {F : Type 0} where
  abbrev pub top : Shape F → NodeRef
  top (tip n i m) = n
  top (fork n cut bbox l r) = n

  unfoldable pub mass : Shape F → ℕ
  mass (tip n i m) = m
  mass (fork n cut bbox l r) = mass l + mass r

  unfoldable pub height : Shape F → ℕ
  height (tip n i m) = 0
  height (fork n cut bbox l r) = suc (max (height l) (height r))

  -- How often a reference stands in a tree.
  unfoldable pub uses : Shape F → NodeRef → ℕ
  uses (tip n i m) k = if same_ref n k then 1 else 0
  uses (fork n cut bbox l r) k = (if same_ref n k then 1 else 0) + (uses l k + uses r k)

  -- The mass of the leaves that a reference names.
  unfoldable pub mass_at : Shape F → NodeRef → ℕ
  mass_at (tip n i m) k = if same_ref n k then m else 0
  mass_at (fork n cut bbox l r) k = mass_at l k + mass_at r k

  -- `Q` holds of the reference and the point of every leaf.
  abbrev pub Tips : (NodeRef → ℕ → Type 0) → Shape F → Type 0
  Tips Q (tip n i m) = Q n i
  Tips Q (fork n cut bbox l r) = Tips Q l × Tips Q r

  pub Tips-map :
      {Q S : NodeRef → ℕ → Type 0} (t : Shape F)
      → ((n : NodeRef) (i : ℕ) → Q n i → S n i)
      → Tips Q t
      → Tips S t
  Tips-map (tip n i m) f h = f n i h
  Tips-map (fork n cut bbox l r) f (h, k) = (Tips-map l f h, Tips-map r f k)

  abbrev pub above : Around F → Option NodeRef
  above whole = none
  above (under side n cut bbox other up) = some n

  unfoldable pub root_of : Around F → NodeRef → NodeRef
  root_of whole n = n
  root_of (under side m cut bbox other up) n = root_of up m

  unfoldable pub depth : Around F → ℕ
  depth whole = 0
  depth (under side n cut bbox other up) = suc (depth up)

  -- The mass of the whole, with `m` in the open place.
  unfoldable pub weight : Around F → ℕ → ℕ
  weight whole m = m
  weight (under side n cut bbox other up) m = weight up (m + mass other)

  -- The nodes between the open place and the root.
  unfoldable pub spine : Around F → NodeRef → ℕ
  spine whole k = 0
  spine (under side n cut bbox other up) k = (if same_ref n k then 1 else 0) + spine up k

  unfoldable pub uses_around : Around F → NodeRef → ℕ
  uses_around whole k = 0
  uses_around (under side n cut bbox other up) k =
      (if same_ref n k then 1 else 0) + (uses other k + uses_around up k)

  -- The boxes of the nodes above changed.
  unfoldable pub reboxed : (BoundingBox F → BoundingBox F) → Around F → Around F
  reboxed g whole = whole
  reboxed g (under side n cut bbox other up) = under side n cut (g bbox) other (reboxed g up)

  pub above-reboxed :
      (g : BoundingBox F → BoundingBox F) (c : Around F) → above (reboxed g c) ≡ above c
  unfolding reboxed
  above-reboxed g whole = refl
  above-reboxed g (under side n cut bbox other up) = refl

  pub reboxed_id : (c : Around F) → reboxed (λ b. b) c ≡ c
  unfolding reboxed
  reboxed_id whole = refl
  reboxed_id (under side n cut bbox other up) = ap (under side n cut bbox other) (reboxed_id up)

  -- The boxes are nothing to references and masses.
  pub reboxed_same :
      (g : BoundingBox F → BoundingBox F) (c : Around F)
      → ((k : NodeRef) → uses_around (reboxed g c) k ≡ uses_around c k)
        × ((n : NodeRef) → root_of (reboxed g c) n ≡ root_of c n)
        × ((m : ℕ) → weight (reboxed g c) m ≡ weight c m)
        × (depth (reboxed g c) ≡ depth c)
  unfolding reboxed uses_around root_of weight depth
  reboxed_same g whole = (λ k. refl, λ n. refl, λ m. refl, refl)
  reboxed_same g (under side n cut bbox other up) =
      let (used, top_most, mass_all, deep) = reboxed_same g up in
      (λ k. omega (arith, used k), λ m. top_most n, λ m. mass_all (m + mass other), ap suc deep)
