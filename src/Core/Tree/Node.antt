-- ===== src/Core/Tree/Node.antt =====
-- Node references and node records: core/src/tree/node.rs.
use anomstream.Prelude.{ℕ, ◌+◌, ◌-◌, ◌/◌, ◌%◌, ◌^◌, ◌<◌, ◌≡◌, Bool, not, Option, arith, ◌==◌}
use anomstream.Core.Domain.{Cut, BoundingBox}

-- A `u32`: the top bit marks a leaf, the others are an index into the arena of its kind.
pub record NodeRef : Type 0 where
  pub raw : ℕ

abbrev pub leaf_bit : ℕ
leaf_bit = 2 ^ 31

-- `!LEAF_BIT` on 32 bits; also `MAX_INDEX`
abbrev pub index_mask : ℕ
index_mask = 2 ^ 31 - 1

abbrev pub internal : ℕ → NodeRef
internal idx = record { raw = idx }

-- `idx | LEAF_BIT`
abbrev pub leaf : ℕ → NodeRef
leaf idx = record { raw = idx % 2 ^ 31 + leaf_bit }

-- `self.0 & LEAF_BIT != 0`
abbrev pub is_leaf : NodeRef → Bool
is_leaf n = n.raw / 2 ^ 31 % 2 == 1

abbrev pub is_internal : NodeRef → Bool
is_internal n = not (is_leaf n)

-- `self.0 & INDEX_MASK`
abbrev pub index : NodeRef → ℕ
index n = n.raw % 2 ^ 31

pub record InternalData (F : Type 0) : Type 0 where
  pub cut : Cut F
  pub bbox : BoundingBox F
  pub left : NodeRef
  pub right : NodeRef
  pub parent : Option NodeRef
  pub mass : ℕ

pub record LeafData : Type 0 where
  pub point_idx : ℕ
  pub parent : Option NodeRef
  pub mass : ℕ

-- `NodeView`, with the record itself for the reference to it.
pub data NodeView (F : Type 0) : Type 0 where
  internal_view : InternalData F → NodeView F
  leaf_view : LeafData → NodeView F

module _ {F : Type 0} where
  abbrev pub view_mass : NodeView F → ℕ
  view_mass (NodeView.internal_view i) = i.mass
  view_mass (NodeView.leaf_view l) = l.mass

  abbrev pub view_parent : NodeView F → Option NodeRef
  view_parent (NodeView.internal_view i) = i.parent
  view_parent (NodeView.leaf_view l) = l.parent

-- Two words name the same node exactly if they agree in the leaf bit and in the index.
pub eq_of_parts :
    (m n : NodeRef)
    → m.raw < 2 ^ 32
    → n.raw < 2 ^ 32
    → is_leaf m ≡ is_leaf n
    → index m ≡ index n
    → m ≡ n
eq_of_parts m n hm hn e i = ground arith
