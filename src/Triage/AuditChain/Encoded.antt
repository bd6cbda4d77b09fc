-- ===== src/Triage/AuditChain/Encoded.antt =====
-- Chains of records beside chains of their encodings: `verify_chain` and `verify_payload_chain` of
-- triage/src/audit_chain.rs.
use anomstream.Prelude.{
  ℕ, ◌+◌, ◌≡◌, refl, ◌∙◌, ◌⊎◌, inl, inr, Option-cases, List, [], ◌∷◌, Option, none, some, arith,
  Bool-cases, ltb, length,
}
use anomstream.Core.Error.{RcfResult, ok, err, invalid_config}
use anomstream.Triage.AuditChain.{Crypto, PayloadChainEntry, check_key, min_key_len, keyed_mac}
use anomstream.Triage.AuditChain.Payloads
use anomstream.Triage.AuditChain.Payloads.{verify_payload_chain}
use anomstream.Triage.AuditChain.Records
use anomstream.Triage.AuditChain.Records.{AuditChainEntry, compute_tag, verify_chain}

module _ (c : Crypto) {R : Type 0} (encode : R → Option (List ℕ)) where
  abbrev linkage : AuditChainEntry R → PayloadChainEntry
  linkage e = record { seq = e.seq; prev_tag = e.prev_tag; tag = e.tag }

  abbrev put_first :
      List ℕ × PayloadChainEntry
      → Option (List (List ℕ × PayloadChainEntry))
      → Option (List (List ℕ × PayloadChainEntry))
  put_first e none = none
  put_first e (some rest) = some (e ∷ rest)

  abbrev with_body :
      AuditChainEntry R
      → Option (List ℕ)
      → Option (List (List ℕ × PayloadChainEntry))
      → Option (List (List ℕ × PayloadChainEntry))
  with_body e none rest = none
  with_body e (some body) rest = put_first (body, linkage e) rest

  -- The stored records as payloads with the same numbers and tags, if every record encodes.
  unfoldable pub encoded : List (AuditChainEntry R) → Option (List (List ℕ × PayloadChainEntry))
  encoded [] = some []
  encoded (e ∷ rest) = with_body e (encode e.alert) (encoded rest)

  abbrev pub all_encoded :
      (List (List ℕ × PayloadChainEntry) → RcfResult (Unit {0}))
      → Option (List (List ℕ × PayloadChainEntry))
      → RcfResult (Unit {0})
  all_encoded verify none = err invalid_config
  all_encoded verify (some payloads) = verify payloads

  verify_from-encoded :
      (mac : c.Mac) (prev : List ℕ) (seq : ℕ) (entries : List (AuditChainEntry R))
      → Records.verify_from c encode mac prev seq entries
        ≡ all_encoded (Payloads.verify_from c mac prev seq) (encoded entries)
  unfolding encoded Records.verify_from Payloads.verify_from compute_tag
  verify_from-encoded mac prev seq [] = refl
  verify_from-encoded mac prev seq (e ∷ rest) =
      let later = verify_from-encoded mac e.tag (seq + 1) rest in
      elim (Option-cases (encode e.alert)) [
        | inl n ↦ rw n (ground arith)
        | inr (body, b) ↦ elim (Option-cases (encoded rest)) [
          | inl n ↦ rw (b, n) (ground (arith, later, n))
          | inr (payloads, p) ↦ rw (b, p) (ground (arith, later, p))
        ]
      ]

  keyed_mac_cases :
      (key : List ℕ)
      → (keyed_mac c key ≡ err invalid_config) ⊎ ((mac : c.Mac) × (keyed_mac c key ≡ ok mac))
  unfolding keyed_mac
  keyed_mac_cases key = elim (Option-cases (c.new_from_slice key)) [
    | inl n ↦ inl (rw (n, keyed_mac) refl)
    | inr (mac, e) ↦ inr (mac, rw (e, keyed_mac) refl)
  ]

  -- Both verifiers, after the key and the state are accepted.
  verify_accepted :
      (e : AuditChainEntry R) (rest : List (AuditChainEntry R)) (key genesis : List ℕ) (mac : c.Mac)
      → check_key key ≡ ok tt
      → keyed_mac c key ≡ ok mac
      → Records.verify_from c encode mac genesis e.seq (e ∷ rest)
        ≡ all_encoded (λ payloads. verify_payload_chain c payloads key genesis) (encoded (e ∷ rest))
  unfolding encoded verify_payload_chain
  verify_accepted e rest key genesis mac h k =
      verify_from-encoded mac genesis e.seq (e ∷ rest) ∙ elim (Option-cases (encode e.alert)) [
        | inl n ↦ rw n refl
        | inr (body, b) ↦ elim (Option-cases (encoded rest)) [
          | inl n ↦ rw (b, n) refl
          | inr (payloads, p) ↦ rw (b, p, h, k) refl
        ]
      ]

  -- Where the key is refused, so is every chain.
  verify_refused :
      (e : AuditChainEntry R) (rest : List (AuditChainEntry R)) (key genesis : List ℕ)
      → (check_key key ≡ err invalid_config)
        ⊎ ((check_key key ≡ ok tt) × (keyed_mac c key ≡ err invalid_config))
      → err invalid_config
        ≡ all_encoded (λ payloads. verify_payload_chain c payloads key genesis) (encoded (e ∷ rest))
  unfolding encoded verify_payload_chain
  verify_refused e rest key genesis why = elim (Option-cases (encode e.alert)) [
    | inl n ↦ rw n refl
    | inr (body, b) ↦ elim (Option-cases (encoded rest)) [
      | inl n ↦ rw (b, n) refl
      | inr (payloads, p) ↦
          rw (b, p) (elim why [ inl short ↦ rw short refl | inr bad ↦ rw (bad.0, bad.1) refl ])
    ]
  ]

  -- `verify_chain` on records gives what `verify_payload_chain` gives on their encodings, and an
  -- error if a record does not encode.
  pub verify_chain-encoded :
      (entries : List (AuditChainEntry R)) (key genesis : List ℕ)
      → verify_chain c encode entries key genesis
        ≡ all_encoded (λ payloads. verify_payload_chain c payloads key genesis) (encoded entries)
  unfolding encoded verify_chain verify_payload_chain
  verify_chain-encoded [] key genesis = refl
  verify_chain-encoded (e ∷ rest) key genesis = elim (Bool-cases (ltb (length key) min_key_len)) [
    | inl short ↦ rw short (verify_refused e rest key genesis (inl (rw short refl)))
    | inr long ↦ elim (keyed_mac_cases key) [
      | inl bad ↦ rw (long, bad) (verify_refused e rest key genesis (inr (rw long refl, bad)))
      | inr (mac, good) ↦
          rw (long, good) (verify_accepted e rest key genesis mac (rw long refl) good)
    ]
  ]
