-- ===== src/Triage/AuditChain/Tests.antt =====
-- Runs of the audit chains of triage/src/audit_chain.rs over a toy code, and the theorems on them.
use anomstream.Prelude.{
  ℕ, ◌+◌, ◌%◌, ◌≡◌, ◌≢◌, ◌↔◌, ◌⊎◌, refl, Bool, true, false, ◌&&◌, List, [], ◌∷◌, ◌++◌, Option, none,
  some, map, replicate, ◌==◌, if◌then◌else◌, ltb, arith, ◌*◌,
}
use mathlib.Core.List.{append_assoc}
use anomstream.Core.Error.{ok, err, invalid_config, ◌>>=◌}
use anomstream.Triage.AuditChain.{
  Crypto, PayloadChainEntry, genesis_prev, keyed_mac, tag_over_body, le_bytes,
}
use anomstream.Triage.AuditChain.Payloads.{
  PayloadChain, with_genesis, append, verify_from, verify_payload_chain,
}
use anomstream.Triage.AuditChain.Exact.{
  Compares, IsChain, append_all, verify_payload_chain-exact, verify_payload_chain-append_all,
}
use anomstream.Triage.AuditChain.Tamper.{
  Collision, last_tag, verify_payload_chain-cut, verify_payload_chain-last_tag,
}
use anomstream.Triage.AuditChain.Records.{AuditChainEntry, verify_chain}
use anomstream.Triage.AuditChain.Encoded.{all_encoded, encoded, verify_chain-encoded}

abbrev same_bytes : List ℕ → List ℕ → Bool
same_bytes [] [] = true
same_bytes [] (b ∷ bs) = false
same_bytes (a ∷ as') [] = false
same_bytes (a ∷ as') (b ∷ bs) = a == b && same_bytes as' bs

abbrev total : List ℕ → ℕ
total [] = 0
total (b ∷ bs) = (b + 3 * total bs) % 256

-- Not a secure code: 32 bytes that repeat a checksum.
abbrev toy : Crypto
toy = record {
  Mac = List ℕ;
  new_from_slice = λ key. some key;
  update = λ mac bytes. mac ++ bytes;
  finalize = λ mac. replicate 32 (total mac);
  ct_eq = same_bytes;
}

same_bytes-Compares : Compares toy
same_bytes-Compares [] [] = ((λ _. refl), λ _. refl)
same_bytes-Compares [] (b ∷ bs) = ((λ h. cc), λ h. cc)
same_bytes-Compares (a ∷ as') [] = ((λ h. cc), λ h. cc)
same_bytes-Compares (a ∷ as') (b ∷ bs) = (
  (λ h. ground (arith, same_bytes-Compares as' bs)),
  λ h. ground (arith, same_bytes-Compares as' bs),
)

abbrev key : List ℕ
key = replicate 32 7

abbrev payloads : List (List ℕ)
payloads = (1 ∷ []) ∷ (2 ∷ 2 ∷ []) ∷ (3 ∷ []) ∷ []

abbrev tagged : ℕ → List ℕ → List ℕ → List ℕ × PayloadChainEntry
tagged seq prev payload =
    (payload, record { seq = seq; prev_tag = prev; tag = tag_over_body toy key seq prev payload })

abbrev first : List ℕ × PayloadChainEntry
first = tagged 5 genesis_prev (1 ∷ [])

abbrev second : List ℕ × PayloadChainEntry
second = tagged 6 first.1.tag (2 ∷ 2 ∷ [])

abbrev third : List ℕ × PayloadChainEntry
third = tagged 7 second.1.tag (3 ∷ [])

abbrev stored : List (List ℕ × PayloadChainEntry)
stored = first ∷ second ∷ third ∷ []

keyed : keyed_mac toy key ≡ ok key
unfolding keyed_mac
keyed = refl

stored_verifies : verify_payload_chain toy stored key genesis_prev ≡ ok tt
unfolding verify_payload_chain verify_from keyed_mac tag_over_body le_bytes
stored_verifies = refl

-- An edited payload is refused.
edited_refused :
    verify_payload_chain toy (first ∷ ((9 ∷ []), second.1) ∷ third ∷ []) key genesis_prev
    ≡ err invalid_config
unfolding verify_payload_chain verify_from keyed_mac tag_over_body le_bytes
edited_refused = refl

appended :
    (with_genesis toy key genesis_prev 5 >>= λ chain. append_all toy chain payloads)
    ≡ ok (stored, record { mac = key; key_len = 32; seq = 8; prev_tag = third.1.tag })
unfolding with_genesis append_all append keyed_mac tag_over_body le_bytes
appended = refl

verify_payload_chain-exact_example :
    (verify_payload_chain toy stored key genesis_prev ≡ ok tt)
    ↔ IsChain toy key genesis_prev 5 stored
verify_payload_chain-exact_example =
    verify_payload_chain-exact toy same_bytes-Compares key genesis_prev keyed (omega arith) stored

verify_payload_chain-append_all_example :
    (entries : List (List ℕ × PayloadChainEntry)) × (last : PayloadChain toy) × ((with_genesis toy
          key genesis_prev 5
        >>= λ chain. append_all toy chain payloads)
      ≡ ok (entries, last))
    × (map (λ e. e.0) entries ≡ payloads)
    × (verify_payload_chain toy entries key genesis_prev ≡ ok tt)
verify_payload_chain-append_all_example =
    verify_payload_chain-append_all toy key genesis_prev 5 payloads same_bytes-Compares keyed
      (omega arith) (omega arith)

verify_payload_chain-cut_example :
    verify_payload_chain toy (first ∷ third ∷ []) key genesis_prev ≢ ok tt
verify_payload_chain-cut_example =
    verify_payload_chain-cut toy same_bytes-Compares key genesis_prev keyed (omega arith) first
      third [] (second ∷ []) [] (omega arith) stored_verifies

appends : (mac a b : List ℕ) → (mac ++ a) ++ b ≡ mac ++ (a ++ b)
appends = append_assoc

-- The toy code gives this payload the tag of the third.
abbrev forged : List (List ℕ × PayloadChainEntry)
forged = first ∷ second ∷ tagged 7 second.1.tag (0 ∷ 1 ∷ []) ∷ []

forged_verifies : verify_payload_chain toy forged key genesis_prev ≡ ok tt
unfolding verify_payload_chain verify_from keyed_mac tag_over_body le_bytes
forged_verifies = refl

same_last_tag : last_tag stored ≡ last_tag forged
unfolding tag_over_body le_bytes
same_last_tag = refl

verify_payload_chain-last_tag_example : (stored ≡ forged) ⊎ Collision toy key stored forged
verify_payload_chain-last_tag_example =
    verify_payload_chain-last_tag toy appends (λ mac. refl) same_bytes-Compares key genesis_prev
      keyed (omega arith) stored forged stored_verifies forged_verifies refl refl same_last_tag

-- Records that are numbers, and encode as one byte.
abbrev one_byte : ℕ → Option (List ℕ)
one_byte n = if ltb n 256 then some (n ∷ []) else none

abbrev alerts : List (AuditChainEntry ℕ)
alerts = record { alert = 1; seq = 5; prev_tag = genesis_prev; tag = first.1.tag } ∷ []

verify_chain-encoded_example :
    verify_chain toy one_byte alerts key genesis_prev
    ≡ all_encoded toy one_byte
        (λ p. verify_payload_chain toy p key genesis_prev)
        (encoded toy one_byte alerts)
verify_chain-encoded_example = verify_chain-encoded toy one_byte alerts key genesis_prev
