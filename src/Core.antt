-- ===== src/Core.antt =====
-- The crate `anomstream-core` (core/src).
pub mod Error
pub mod Sampler
pub mod Slab
pub mod Domain
pub mod Tree
pub mod Forest
pub mod SpaceSaving
pub mod CountMinSketch
