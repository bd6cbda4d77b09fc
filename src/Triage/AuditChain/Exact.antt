-- ===== src/Triage/AuditChain/Exact.antt =====
-- What is a payload chain, beside `verify_payload_chain` and `append` of triage/src/audit_chain.rs.
use anomstream.Prelude.{
  ℕ, ◌+◌, ◌^◌, ◌≤◌, ◌<◌, ◌≡◌, refl, ◌↔◌, true, List, [], ◌∷◌, length, arith, map, ap, sym, subst,
}
use anomstream.Core.Error.{RcfResult, ok, ◌>>=◌}
use anomstream.Triage.AuditChain.{Crypto, min_key_len, PayloadChainEntry, keyed_mac, tag_over_body}
use anomstream.Triage.AuditChain.Payloads.{
  PayloadChain, with_genesis, append, verify_from, verify_payload_chain,
}

-- The sequence number that the verifier starts from.
abbrev pub start : List (List ℕ × PayloadChainEntry) → ℕ
start [] = 0
start ((payload, first) ∷ rest) = first.seq

-- The documented meaning of `ct_eq`.
abbrev pub Compares : Crypto → Type 0
Compares c = (a b : List ℕ) → (c.ct_eq a b ≡ true) ↔ (a ≡ b)

module _ (c : Crypto) where
  -- Entries numbered from `seq`, each linked to the tag before it and tagged over its payload.
  abbrev pub IsChain : c.Mac → List ℕ → ℕ → List (List ℕ × PayloadChainEntry) → Type 0
  IsChain mac prev seq [] = Unit {0}
  IsChain mac prev seq ((payload, entry) ∷ rest) =
      (entry.seq ≡ seq)
      × (entry.prev_tag ≡ prev)
      × (entry.tag ≡ tag_over_body c mac seq prev payload)
      × (seq + 1 < 2 ^ 64)
      × IsChain mac entry.tag (seq + 1) rest

  unfoldable pub append_all :
      PayloadChain c
      → List (List ℕ)
      → RcfResult (List (List ℕ × PayloadChainEntry) × PayloadChain c)
  append_all chain [] = ok ([], chain)
  append_all chain (payload ∷ payloads) = do
    (entry, chain') ← append c chain payload
    (entries, chain'') ← append_all chain' payloads
    ok ((payload, entry) ∷ entries, chain'')

  module _ (compares : Compares c) where
    pub verify_from_sound :
        (mac : c.Mac) (prev : List ℕ) (seq : ℕ) (entries : List (List ℕ × PayloadChainEntry))
        → verify_from c mac prev seq entries ≡ ok tt
        → IsChain mac prev seq entries
    unfolding verify_from
    verify_from_sound mac prev seq [] h = tt
    verify_from_sound mac prev seq ((payload, entry) ∷ rest) h = ground (
      arith,
      compares entry.prev_tag prev,
      compares (tag_over_body c mac entry.seq entry.prev_tag payload) entry.tag,
      verify_from_sound mac entry.tag (seq + 1) rest,
    )

    verify_from_complete :
        (mac : c.Mac) (prev : List ℕ) (seq : ℕ) (entries : List (List ℕ × PayloadChainEntry))
        → IsChain mac prev seq entries
        → verify_from c mac prev seq entries ≡ ok tt
    unfolding verify_from
    verify_from_complete mac prev seq [] h = refl
    verify_from_complete mac prev seq ((payload, entry) ∷ rest) h = ground (
      arith,
      h,
      compares entry.prev_tag prev,
      compares (tag_over_body c mac entry.seq entry.prev_tag payload) entry.tag,
      verify_from_complete mac entry.tag (seq + 1) rest,
    )

    module _ (key genesis : List ℕ) {mac : c.Mac} (keyed : keyed_mac c key ≡ ok mac)
        (long : min_key_len ≤ length key) where
      -- Let `ct_eq` compare bytes, and the key be long enough and accepted. `verify_payload_chain`
      -- succeeds exactly when the entries are numbered in steps of one from the number of the
      -- first, all below 2^64 - 1, each names the tag of the entry before it (the first the
      -- genesis tag), and each tag is that of its number, its link and its payload.
      pub verify_payload_chain-exact :
          (entries : List (List ℕ × PayloadChainEntry))
          → (verify_payload_chain c entries key genesis ≡ ok tt)
            ↔ IsChain mac genesis (start entries) entries
      unfolding verify_payload_chain
      verify_payload_chain-exact [] = ((λ _. tt), λ _. ground arith)
      verify_payload_chain-exact ((payload, first) ∷ rest) = (
        λ h.
            verify_from_sound mac genesis first.seq ((payload, first) ∷ rest)
              (ground (arith, keyed, h)),
        λ h.
            ground (
              arith,
              keyed,
              verify_from_complete mac genesis first.seq ((payload, first) ∷ rest) h,
            ),
      )

  abbrev tag_of : PayloadChain c → List ℕ → List ℕ
  tag_of chain payload = tag_over_body c chain.mac chain.seq chain.prev_tag payload

  append_all-IsChain :
      (chain : PayloadChain c) (payloads : List (List ℕ))
      → chain.seq + length payloads < 2 ^ 64
      → (entries : List (List ℕ × PayloadChainEntry)) × (last : PayloadChain c) × (append_all chain
            payloads
          ≡ ok (entries, last))
        × (map (λ e. e.0) entries ≡ payloads)
        × IsChain chain.mac chain.prev_tag chain.seq entries
  unfolding append_all append
  append_all-IsChain chain [] h = ([], chain, refl, refl, tt)
  append_all-IsChain chain (payload ∷ payloads) h =
      let (entries, last, ran, kept, linked) =
        append_all-IsChain (record chain { seq = chain.seq + 1; prev_tag = tag_of chain payload })
          payloads (omega arith) in
      (
        (payload, record { seq = chain.seq; prev_tag = chain.prev_tag; tag = tag_of chain payload })
            ∷ entries,
        last,
        ground (arith, ran),
        ap (λ ps. payload ∷ ps) kept,
        (refl, refl, refl, omega arith, linked),
      )

  IsChain-start :
      (mac : c.Mac) (prev : List ℕ) (seq : ℕ) (entries : List (List ℕ × PayloadChainEntry))
      → IsChain mac prev seq entries
      → IsChain mac prev (start entries) entries
  IsChain-start mac prev seq [] h = tt
  IsChain-start mac prev seq (e ∷ rest) h = subst (λ n. IsChain mac prev n (e ∷ rest)) (sym h.0) h

  -- Let `ct_eq` compare bytes, the key be long enough and accepted, and the sequence not reach
  -- 2^64 - 1. A chain that `with_genesis` builds appends every payload, and
  -- `verify_payload_chain` accepts the payloads with the entries that this gave.
  pub verify_payload_chain-append_all :
      (key genesis : List ℕ) (seq : ℕ) (payloads : List (List ℕ)) {mac : c.Mac}
      → Compares c
      → keyed_mac c key ≡ ok mac
      → min_key_len ≤ length key
      → seq + length payloads < 2 ^ 64
      → (entries : List (List ℕ × PayloadChainEntry)) × (last : PayloadChain c) × ((with_genesis c
              key genesis seq
            >>= λ chain. append_all chain payloads)
          ≡ ok (entries, last))
        × (map (λ e. e.0) entries ≡ payloads)
        × (verify_payload_chain c entries key genesis ≡ ok tt)
  unfolding with_genesis
  verify_payload_chain-append_all key genesis seq payloads {mac} compares keyed long room =
      let (entries, last, ran, kept, linked) =
        append_all-IsChain
          (record { mac = mac; key_len = length key; seq = seq; prev_tag = genesis }) payloads
          room in
      (
        entries,
        last,
        ground (arith, keyed, ran),
        kept,
        (verify_payload_chain-exact compares key genesis keyed long entries).1
            (IsChain-start mac genesis seq entries linked),
      )
