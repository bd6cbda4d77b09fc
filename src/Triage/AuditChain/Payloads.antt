-- ===== src/Triage/AuditChain/Payloads.antt =====
-- `PayloadChain` and `verify_payload_chain` of triage/src/audit_chain.rs.
use anomstream.Prelude.{ℕ, ◌+◌, ◌^◌, not, List, [], ◌∷◌, length, ltb, ◌==◌, if◌then◌else◌}
use anomstream.Core.Error.{RcfResult, ok, err, invalid_config, ◌>>=◌, ◌>>◌}
use anomstream.Triage.AuditChain.{
  Crypto, genesis_prev, checked_next, check_key, PayloadChainEntry, keyed_mac, tag_over_body,
}

pub record PayloadChain (c : Crypto) : Type 0 where
  pub mac : c.Mac
  pub key_len : ℕ
  pub seq : ℕ
  pub prev_tag : List ℕ

module _ (c : Crypto) where
  open c use {Mac, ct_eq}

  unfoldable pub with_genesis : List ℕ → List ℕ → ℕ → RcfResult (PayloadChain c)
  with_genesis key genesis seq = do
    check_key key
    mac ← keyed_mac c key
    ok (record { mac = mac; key_len = length key; seq = seq; prev_tag = genesis })

  pub new : List ℕ → RcfResult (PayloadChain c)
  new key = with_genesis key genesis_prev 0

  -- After an overflow of the sequence the chain is as before.
  unfoldable pub append : PayloadChain c → List ℕ → RcfResult (PayloadChainEntry × PayloadChain c)
  append chain payload = do
    let tag = tag_over_body c chain.mac chain.seq chain.prev_tag payload
    next ← checked_next chain.seq
    ok (
      record { seq = chain.seq; prev_tag = chain.prev_tag; tag = tag },
      record chain { seq = next; prev_tag = tag },
    )

  -- The loop of `verify_payload_chain`.
  unfoldable pub verify_from :
      Mac → List ℕ → ℕ → List (List ℕ × PayloadChainEntry) → RcfResult (Unit {0})
  verify_from mac prev seq [] = ok tt
  verify_from mac prev seq ((payload, entry) ∷ rest) =
      let next = verify_from mac entry.tag (seq + 1) rest in
      if not (entry.seq == seq)
      then err invalid_config
      else if not (ct_eq entry.prev_tag prev)
      then err invalid_config
      else if not (ct_eq (tag_over_body c mac entry.seq entry.prev_tag payload) entry.tag)
      then err invalid_config
      else if ltb (seq + 1) (2 ^ 64)
      then next
      else err invalid_config

  unfoldable pub verify_payload_chain :
      List (List ℕ × PayloadChainEntry) → List ℕ → List ℕ → RcfResult (Unit {0})
  verify_payload_chain [] key genesis = check_key key
  verify_payload_chain ((payload, first) ∷ rest) key genesis = do
    check_key key
    mac ← keyed_mac c key
    verify_from mac genesis first.seq ((payload, first) ∷ rest)
