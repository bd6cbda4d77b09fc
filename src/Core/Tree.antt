-- ===== src/Core/Tree.antt =====
-- The tree of one forest member: core/src/tree.
pub mod Node
pub mod NodeStore
pub mod RandomCutTree
