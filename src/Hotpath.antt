-- ===== src/Hotpath.antt =====
-- The crate `anomstream-hotpath` (hotpath/src/lib.rs): the ingress between a classifier that runs at
-- line rate and the thread that updates the forest.
pub mod Striped
pub mod SipHash
pub mod Sampler
pub mod RateCap
pub mod Channel
