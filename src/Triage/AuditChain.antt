-- ===== src/Triage/AuditChain.antt =====
-- The tamper-evident audit chains of triage/src/audit_chain.rs: what the two kinds share. HMAC-SHA256,
-- the comparison of tags in constant time and the encoding of records are code of other crates, so they
-- are parameters. Keys and tags are lists of bytes.
pub mod Payloads
pub mod Records
pub mod Encoded
pub mod Exact
pub mod Tamper
mod Tests
use anomstream.Prelude.{
  ℕ, zero, suc, ◌+◌, ◌/◌, ◌%◌, ◌^◌, Bool, List, [], ◌∷◌, Option, none, some, length, replicate, ltb,
  if◌then◌else◌,
}
use anomstream.Core.Error.{RcfResult, ok, err, invalid_config, ◌>>=◌, ◌>>◌}

-- The crates `hmac`, `sha2` and `subtle`, as far as the chains call them.
pub record Crypto : Type 1 where
  pub Mac : Type 0
  pub new_from_slice : List ℕ → Option Mac
  pub update : Mac → List ℕ → Mac
  pub finalize : Mac → List ℕ
  pub ct_eq : List ℕ → List ℕ → Bool

abbrev pub tag_len : ℕ
tag_len = 32

abbrev pub genesis_prev : List ℕ
genesis_prev = replicate tag_len 0

abbrev pub min_key_len : ℕ
min_key_len = 32

-- `to_le_bytes` of a word of `n` bytes
unfoldable pub le_bytes : ℕ → ℕ → List ℕ
le_bytes zero w = []
le_bytes (suc n) w = w % 256 ∷ le_bytes n (w / 256)

-- `checked_add(1)` of a `u64`, where an overflow is an error.
abbrev pub checked_next : ℕ → RcfResult ℕ
checked_next seq = if ltb (seq + 1) (2 ^ 64) then ok (seq + 1) else err invalid_config

-- Both functions that build a chain and both that verify one refuse a short key.
abbrev pub check_key : List ℕ → RcfResult (Unit {0})
check_key key = if ltb (length key) min_key_len then err invalid_config else ok tt

pub record PayloadChainEntry : Type 0 where
  pub seq : ℕ
  pub prev_tag : List ℕ
  pub tag : List ℕ

module _ (c : Crypto) where
  open c use {Mac, new_from_slice, update, finalize}

  unfoldable pub keyed_mac : List ℕ → RcfResult Mac
  keyed_mac key = elim (new_from_slice key) [ none ↦ err invalid_config | some mac ↦ ok mac ]

  unfoldable pub tag_over_body : Mac → ℕ → List ℕ → List ℕ → List ℕ
  tag_over_body mac seq prev_tag body =
      finalize (update (update (update mac (le_bytes 8 seq)) prev_tag) body)
