-- ===== src/Core/Forest.antt =====
-- The storage that the trees of a forest share, and the forest: core/src/forest.
pub mod PointStore
pub mod Timestamps
pub mod RandomCutForest
