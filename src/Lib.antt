-- ===== src/Lib.antt =====
-- A verification library of anomstream, a streaming anomaly detector: the random cut forest of `core`
-- with its trees, its samplers and the stores under them, the heavy-hitter table and the count-min
-- sketch of `core`, the ingress path of `hotpath`, and the audit chains of `triage`.
--
-- The parts and their files, with the code that they translate:
--
--   Core/Tree/Node, Core/Tree/NodeStore   core/src/tree/node.rs, core/src/tree/node_store.rs
--     `NodeRef`, the node records and the arena `NodeStore` with every operation of its own name.
--     Writes through `internal_mut`, `leaf_mut` and `view_mut` are `update_internal`, `update_leaf` and
--     `update_view`, which take the change as a function. `Layout` is the arena's invariant.
--   Core/Tree/RandomCutTree   core/src/tree/random_cut_tree.rs: `new`, the reverse index and the helpers of
--     the operations. RandomCutTree/Insert has `add`, `insert_at` and `descend_or_split`,
--     RandomCutTree/Delete has `delete_with_survivors` (`delete` is that without survivors), cut
--     into a function for each of its branches. The children Shape, Holds, Sits and Plug say
--     when the arena holds a tree (`Shape`), whole or in an open place (`Around`); Climb is the
--     loop towards the root, once for all its bodies; Grow is insertion on trees without
--     references, which Refine compares with `insert_at`; Whole, Shrink and Sound are about the
--     whole object; Walk has `max_depth` and `codisp_stateless`.
--   Core/Slab   what the arena and the point store share: a `Vec` of optional values with a stack of
--     free indices. Core/Slab/Check is `check_free_list` of core/src/tree/node_store.rs.
--   Core/Forest/PointStore   core/src/forest/point_store.rs
--     The refcounted points that the trees of a forest share. PointStore/Race has `incr_ref` and
--     `decr_ref` as steps of many threads on one atomic count.
--   Core/Sampler   core/src/sampler/reservoir.rs
--     The weighted reservoir, over the standard library's `BinaryHeap` as a record of operations
--     (`BinaryHeap`) whose documented behaviour is the record `IsHeap` of Sampler/Heap. `accept`
--     is cut into the warmup gate and the draws (`candidate`) and what the heap makes of a
--     weighed candidate (`offer`).
--   Core/Forest/RandomCutForest   core/src/forest/random_cut_forest.rs, with the settings of
--     core/src/config.rs that it reads; Core/Forest/Timestamps is the `BTreeMap` of timestamps.
--     Each slot of the forest is a tree, a sampler and a generator; an update asks the sampler
--     of each slot, changes its tree and counts its references in the shared point store, which
--     frees what no tree holds. Config builds a forest, Insertion has the updates and Deletion
--     the retractions. Holders says who holds which point, Failures which
--     tree stopped an operation and after which calls, Step, Walk and Freeing follow one
--     slot, the walk over all and the frees of an update; Update, Retract and Built are about
--     `insert_point`, `delete` and `from_config`, Purge and Matching about `delete_before` and
--     `delete_by_value`.
--   Core/Domain, Core/Error   core/src/domain/point.rs, the structs of core/src/domain/cut.rs and
--     core/src/domain/bounding_box.rs, and core/src/error.rs. Core/Domain/Boxes has the methods
--     of cuts and boxes that the tree calls, and Core/Domain/Arith the operations of `f64` and
--     `f64x4` that they use.
--   Core/SpaceSaving   core/src/space_saving.rs
--     The table of heavy hitters. Keys are of any type with a test for equality; the `HashMap` is an
--     association list, and the order in which it is iterated is a parameter.
--   Core/CountMinSketch   core/src/count_min_sketch.rs
--     The count-min sketch. What `DefaultHasher` gives is a parameter.
--   Hotpath/Striped   `StripedPair` of hotpath/src/lib.rs: counters over 16 stripes, whose sums go to
--     the metrics sink in batches; the sampler, the queue and the limiter each keep one.
--   Hotpath/SipHash, Hotpath/Sampler   `siphash_u64` and `UpdateSampler` of hotpath/src/lib.rs
--   Hotpath/Channel   `UpdateProducer` and `UpdateConsumer` of hotpath/src/lib.rs, over one queue
--   Hotpath/RateCap   `PrefixRateCap` of hotpath/src/lib.rs. RateCap/Race has the accesses to one
--     bucket by many threads.
--   Triage/AuditChain   triage/src/audit_chain.rs
--     AuditChain/Payloads has `PayloadChain` and `verify_payload_chain`, AuditChain/Records
--     `AuditChain` and `verify_chain`. Bytes are naturals, keys and tags lists of them.
--     HMAC-SHA256, the comparison of tags and the encoding of records are parameters (`Crypto`,
--     `encode`).
--   Word   machine words with their wrap-around.
--   Prelude   the names, tests and lemmas on lists and sums that the parts share.
--
-- How the code is modelled. A number is a natural; a word of w bits wraps by `% 2 ^ w` where the
-- source wraps. A method that changes its object returns the new object, and fallible ones an
-- `RcfResult`; the texts of messages are left out, so an error is its variant and its numbers. `f64`
-- is a type `F` with its operations (`Arith`), both parameters; where a theorem needs the order of
-- finite `f64`, it is a named hypothesis (`Ordered`, and `IsOrder` for the weights of the sampler,
-- of which `IsWeighed` says for which draws they are numbers and not NaN). A draw from the generator
-- is a function of its state, and the point store that a tree looks points up in is a function from
-- indices. A free stack, a `Vec` with its top at the end, is a list with its top in front. The
-- metrics sink is the list of the increments that it was given. A thread is the stripe that
-- `stripe_index` gave it. Outside the Race files an operation runs by itself, so an exchange of the
-- source succeeds or fails for no reason; the loop of `decr_ref` takes the number of such failures
-- and no fuel. In the tree, the descent of `insert_at` and the loops towards the root take fuel and
-- give an error without it; more fuel than the tree is high is enough, and the theorems say so.
-- Every other loop runs over a list. An operation of the tree that fails gives the error alone: what
-- it had changed before it failed is not modelled. The same holds for the forest. Where the source
-- can panic (an `expect`), the sampler and the forest return `none`, and `Run` is a result of either
-- kind. The seed of the forest is left out: the generator of each tree is a parameter.
--
-- In the Race files a thread is a program counter, a step is one atomic access, and a run is any
-- sequence of steps. The order of accesses to different atomics is not modelled there: each Race file
-- has one cell.
--
-- Not modelled: floating-point arithmetic and what rests on it (scores, statistics, the
-- probabilities of cuts), the feature `packed-cut`, `traverse` and the restore check of the tree,
-- the queries of the forest, its restore check, its metrics and its walk over the trees in parallel,
-- the other sketches, pools, persistence, and the triage crate but for the audit chains. The sizes
-- of `Vec` allocations are bounded by memory only, so indices into them are naturals without a
-- bound.
pub mod Core
pub mod Hotpath
pub mod Prelude
pub mod Triage
pub mod Word
