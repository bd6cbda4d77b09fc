-- ===== src/Triage/AuditChain/Records.antt =====
-- `AuditChain` and `verify_chain` of triage/src/audit_chain.rs, over records of any type. `encode` is
-- `postcard::to_allocvec`.
use anomstream.Prelude.{
  ℕ, ◌+◌, ◌^◌, not, List, [], ◌∷◌, length, ltb, ◌==◌, if◌then◌else◌, Option, none, some,
}
use anomstream.Core.Error.{RcfResult, ok, err, invalid_config, ◌>>=◌, ◌>>◌}
use anomstream.Triage.AuditChain.{
  Crypto, genesis_prev, checked_next, check_key, keyed_mac, tag_over_body,
}

pub record AuditChainEntry (R : Type 0) : Type 0 where
  pub alert : R
  pub seq : ℕ
  pub prev_tag : List ℕ
  pub tag : List ℕ

pub record AuditChain (c : Crypto) : Type 0 where
  pub mac : c.Mac
  pub key_len : ℕ
  pub seq : ℕ
  pub prev_tag : List ℕ

module _ (c : Crypto) where
  pub with_genesis : List ℕ → List ℕ → ℕ → RcfResult (AuditChain c)
  with_genesis key genesis seq = do
    check_key key
    mac ← keyed_mac c key
    ok (record { mac = mac; key_len = length key; seq = seq; prev_tag = genesis })

  pub new : List ℕ → RcfResult (AuditChain c)
  new key = with_genesis key genesis_prev 0

module _ (c : Crypto) {R : Type 0} (encode : R → Option (List ℕ)) where
  open c use {Mac, ct_eq}

  unfoldable pub compute_tag : Mac → ℕ → List ℕ → R → RcfResult (List ℕ)
  compute_tag mac seq prev_tag alert = elim (encode alert) [
    | none ↦ err invalid_config
    | some body ↦ ok (tag_over_body c mac seq prev_tag body)
  ]

  unfoldable pub append : AuditChain c → R → RcfResult (AuditChainEntry R × AuditChain c)
  append chain alert = do
    tag ← compute_tag chain.mac chain.seq chain.prev_tag alert
    next ← checked_next chain.seq
    ok (
      record { alert = alert; seq = chain.seq; prev_tag = chain.prev_tag; tag = tag },
      record chain { seq = next; prev_tag = tag },
    )

  -- The loop of `verify_chain`.
  unfoldable pub verify_from : Mac → List ℕ → ℕ → List (AuditChainEntry R) → RcfResult (Unit {0})
  verify_from mac prev seq [] = ok tt
  verify_from mac prev seq (entry ∷ rest) =
      let next = verify_from mac entry.tag (seq + 1) rest in
      if not (entry.seq == seq)
      then err invalid_config
      else if not (ct_eq entry.prev_tag prev)
      then err invalid_config
      else (do
        recomputed ← compute_tag mac entry.seq entry.prev_tag entry.alert
        (if not (ct_eq recomputed entry.tag)
            then err invalid_config
            else if ltb (seq + 1) (2 ^ 64)
            then next
            else err invalid_config))

  unfoldable pub verify_chain : List (AuditChainEntry R) → List ℕ → List ℕ → RcfResult (Unit {0})
  verify_chain [] key genesis = check_key key
  verify_chain (first ∷ rest) key genesis = do
    check_key key
    mac ← keyed_mac c key
    verify_from mac genesis first.seq (first ∷ rest)
