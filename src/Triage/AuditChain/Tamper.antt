-- ===== src/Triage/AuditChain/Tamper.antt =====
-- Edits of a stored payload chain, beside `verify_payload_chain` of triage/src/audit_chain.rs.
use anomstream.Prelude.{
  ℕ, ◌+◌, ◌≤◌, ◌<◌, ◌≡◌, ◌≢◌, ◌↔◌, ◌⊎◌, inl, inr, refl, sym, ap, subst, ◌∙◌, List, [], ◌∷◌, ◌++◌,
  length, arith, ℕ_discrete,
}
use mathlib.Core.List.{append_cancel_left, append_assoc}
use anomstream.Core.Error.{ok}
use anomstream.Triage.AuditChain.{
  Crypto, min_key_len, PayloadChainEntry, keyed_mac, tag_over_body, le_bytes, tag_len,
}
use anomstream.Triage.AuditChain.Payloads.{verify_payload_chain}
use anomstream.Triage.AuditChain.Exact.{start, Compares, IsChain, verify_payload_chain-exact}

abbrev pub Stored : Type 0
Stored = List (List ℕ × PayloadChainEntry)

-- The tag of the last entry.
abbrev pub last_tag : Stored → List ℕ
last_tag [] = []
last_tag ((payload, entry) ∷ []) = entry.tag
last_tag (e ∷ d ∷ rest) = last_tag (d ∷ rest)

List-discrete : Discrete (List ℕ)
List-discrete = hlevel ℕ_discrete

append_inj :
    (xs ys us vs : List ℕ) → length xs ≡ length ys → xs ++ us ≡ ys ++ vs → (xs ≡ ys) × (us ≡ vs)
append_inj [] [] us vs l h = (refl, h)
append_inj [] (y ∷ ys) us vs l h = absurd (omega arith)
append_inj (x ∷ xs) [] us vs l h = absurd (omega arith)
append_inj (x ∷ xs) (y ∷ ys) us vs l h =
    let (e, f) = append_inj xs ys us vs (omega arith) (cc) in (cc, f)

module _ (c : Crypto) where
  IsChain-drop :
      (mac : c.Mac) (prev : List ℕ) (seq : ℕ) (xs ys : Stored)
      → IsChain c mac prev seq (xs ++ ys)
      → (link : List ℕ) × IsChain c mac link (seq + length xs) ys
  IsChain-drop mac prev seq [] ys h = (prev, subst (λ n. IsChain c mac prev n ys) (omega arith) h)
  IsChain-drop mac prev seq ((payload, entry) ∷ xs) ys h =
      let (link, rest) = IsChain-drop mac entry.tag (seq + 1) xs ys h.4 in
      (link, subst (λ n. IsChain c mac link n ys) (omega arith) rest)

  module _ (compares : Compares c) (key genesis : List ℕ) {mac : c.Mac}
      (keyed : keyed_mac c key ≡ ok mac) (long : min_key_len ≤ length key) where
    -- Let `ct_eq` compare bytes, and the key be long enough and accepted. If a stored chain
    -- verifies, it no longer verifies after entries between its first and its last are deleted.
    pub verify_payload_chain-cut :
        (first last : List ℕ × PayloadChainEntry) (before cut after : Stored)
        → 0 < length cut
        → verify_payload_chain c ((first ∷ before) ++ (cut ++ (last ∷ after))) key genesis ≡ ok tt
        → verify_payload_chain c ((first ∷ before) ++ (last ∷ after)) key genesis ≢ ok tt
    verify_payload_chain-cut first last before cut after some_cut whole rest =
        let xs = first ∷ before in
        let (link, full) =
          IsChain-drop mac genesis first.1.seq xs (cut ++ (last ∷ after))
            ((exact (xs ++ (cut ++ (last ∷ after)))).0 whole) in
        let (link', far) =
          IsChain-drop mac link (first.1.seq + length xs) cut (last ∷ after) full in
        let (link'', near) =
          IsChain-drop mac genesis first.1.seq xs (last ∷ after)
            ((exact (xs ++ (last ∷ after))).0 rest) in
        omega (arith, far.0, near.0)
      where
        exact :
            (entries : Stored)
            → (verify_payload_chain c entries key genesis ≡ ok tt)
              ↔ IsChain c mac genesis (start entries) entries
        exact = verify_payload_chain-exact c compares key genesis keyed long

  -- What the tag of a stored entry authenticates.
  abbrev pub message : List ℕ × PayloadChainEntry → List ℕ
  message (payload, entry) = le_bytes 8 entry.seq ++ (entry.prev_tag ++ payload)

  -- At one position of the two chains the messages differ and have one tag under the key.
  abbrev pub Collision : c.Mac → Stored → Stored → Type 0
  Collision mac [] ys = ⊥
  Collision mac (x ∷ xs) [] = ⊥
  Collision mac (x ∷ xs) (y ∷ ys) =
      ((message x ≢ message y)
        × (c.finalize (c.update mac (message x)) ≡ c.finalize (c.update mac (message y))))
      ⊎ Collision mac xs ys

  module _
      (fed : (mac : c.Mac) (a b : List ℕ) → c.update (c.update mac a) b ≡ c.update mac (a ++ b))
      (sized : (mac : c.Mac) → length (c.finalize mac) ≡ tag_len) where
    tag_over_body_lem :
        (mac : c.Mac) (seq : ℕ) (prev payload : List ℕ)
        → tag_over_body c mac seq prev payload
          ≡ c.finalize (c.update mac (le_bytes 8 seq ++ (prev ++ payload)))
    unfolding tag_over_body
    tag_over_body_lem mac seq prev payload = ap c.finalize (
        ap (λ m. c.update m payload) (fed mac (le_bytes 8 seq) prev)
        ∙ fed mac (le_bytes 8 seq ++ prev) payload
        ∙ ap (c.update mac) (append_assoc (le_bytes 8 seq) prev payload))

    -- Equal tags at one number come from one link and one payload, or the messages collide.
    same_message :
        (mac : c.Mac) (seq : ℕ) (prev prev' payload payload' : List ℕ)
        → length prev ≡ length prev'
        → tag_over_body c mac seq prev payload ≡ tag_over_body c mac seq prev' payload'
        → ((prev ≡ prev') × (payload ≡ payload'))
          ⊎ ((le_bytes 8 seq ++ (prev ++ payload) ≢ le_bytes 8 seq ++ (prev' ++ payload'))
              × (c.finalize (c.update mac (le_bytes 8 seq ++ (prev ++ payload)))
                  ≡ c.finalize (c.update mac (le_bytes 8 seq ++ (prev' ++ payload')))))
    same_message mac seq prev prev' payload payload' lens h =
        elim (List-discrete (le_bytes 8 seq ++ (prev ++ payload))
          (le_bytes 8 seq ++ (prev' ++ payload'))) [
            | yes e ↦ inl (
                append_inj prev prev' payload payload' lens
                  (append_cancel_left (le_bytes 8 seq) _ _ e))
            | no d ↦ inr (
              d,
              sym (tag_over_body_lem mac seq prev payload)
                  ∙ h
                  ∙ tag_over_body_lem mac seq prev' payload',
            )
          ]

    -- The same of two entries with the number and the links of their chains.
    same_entry :
        (mac : c.Mac) (seq : ℕ) (prev prev' : List ℕ) (x y : List ℕ × PayloadChainEntry)
        → length prev ≡ length prev'
        → (x.1.seq ≡ seq) × (x.1.prev_tag ≡ prev)
        → (y.1.seq ≡ seq) × (y.1.prev_tag ≡ prev')
        → tag_over_body c mac seq prev x.0 ≡ tag_over_body c mac seq prev' y.0
        → ((prev ≡ prev') × (x.0 ≡ y.0))
          ⊎ ((message x ≢ message y)
              × (c.finalize (c.update mac (message x)) ≡ c.finalize (c.update mac (message y))))
    same_entry mac seq prev prev' (p, e) (q, d) lens h k same_tag =
        elim (same_message mac seq prev prev' p q lens same_tag) [
          | inl both ↦ inl both
          | inr bad ↦ inr (
              subst
                (λ (u : List ℕ).
                  (u ≢ message (q, d))
                  × (c.finalize (c.update mac u) ≡ c.finalize (c.update mac (message (q, d)))))
                (ap (λ n. le_bytes 8 n ++ (prev ++ p)) (sym h.0)
                  ∙ ap (λ l. le_bytes 8 e.seq ++ (l ++ p)) (sym h.1))
                (subst
                  (λ (u : List ℕ).
                    (le_bytes 8 seq ++ (prev ++ p) ≢ u)
                    × (c.finalize (c.update mac (le_bytes 8 seq ++ (prev ++ p)))
                        ≡ c.finalize (c.update mac u)))
                  (ap (λ n. le_bytes 8 n ++ (prev' ++ q)) (sym k.0)
                    ∙ ap (λ l. le_bytes 8 d.seq ++ (l ++ q)) (sym k.1))
                  bad))
        ]

    tag_len_lem :
        (mac : c.Mac) (seq : ℕ) (prev payload tag : List ℕ)
        → tag ≡ tag_over_body c mac seq prev payload
        → length tag ≡ tag_len
    unfolding tag_over_body
    tag_len_lem mac seq prev payload tag h =
        ap length h ∙ sized (c.update (c.update (c.update mac (le_bytes 8 seq)) prev) payload)

    same_history :
        (mac : c.Mac) (seq : ℕ) (prev prev' : List ℕ) (xs ys : Stored)
        → length prev ≡ length prev'
        → IsChain c mac prev seq xs
        → IsChain c mac prev' seq ys
        → length xs ≡ length ys
        → 0 < length xs
        → last_tag xs ≡ last_tag ys
        → ((prev ≡ prev') × (xs ≡ ys)) ⊎ Collision mac xs ys
    same_history mac seq prev prev' [] ys lens h k l pos last = absurd (omega arith)
    same_history mac seq prev prev' (x ∷ xs) [] lens h k l pos last = absurd (omega arith)
    same_history mac seq prev prev' (x ∷ []) (y ∷ z ∷ ys) lens h k l pos last = absurd (omega arith)
    same_history mac seq prev prev' (x ∷ z ∷ xs) (y ∷ []) lens h k l pos last = absurd (omega arith)
    same_history mac seq prev prev' ((p, e) ∷ []) ((q, d) ∷ []) lens h k l pos last =
        elim (same_entry mac seq prev prev' (p, e) (q, d) lens (h.0, h.1) (k.0, k.1)
          (sym h.2 ∙ last ∙ k.2)) [
            | inl both ↦ inl (both.0, ground (arith, both, h, k))
            | inr bad ↦ inr (inl bad)
          ]
    same_history mac seq prev prev' ((p, e) ∷ x ∷ xs) ((q, d) ∷ y ∷ ys) lens h k l pos last =
        elim (same_history mac (seq + 1) e.tag d.tag (x ∷ xs) (y ∷ ys)
          (tag_len_lem mac seq prev p e.tag h.2 ∙ sym (tag_len_lem mac seq prev' q d.tag k.2)) h.4
          k.4 (omega arith) (omega arith) last) [
            | inl later ↦
                elim (same_entry mac seq prev prev' (p, e) (q, d) lens (h.0, h.1) (k.0, k.1)
                  (sym h.2 ∙ later.0 ∙ k.2)) [
                    | inl both ↦ inl (both.0, ground (arith, both, later, h, k))
                    | inr bad ↦ inr (inl bad)
                  ]
            | inr bad ↦ inr (inr bad)
          ]

    module _ (compares : Compares c) (key genesis : List ℕ) {mac : c.Mac}
        (keyed : keyed_mac c key ≡ ok mac) (long : min_key_len ≤ length key) where
      -- Let `ct_eq` compare bytes, an update of the HMAC state append, every tag have 32 bytes, and
      -- the key be long enough and accepted. If two stored chains of one length verify from the
      -- same genesis tag, start at the same number and end in the same tag, then they are equal in
      -- every payload and entry, or at one position of both the messages under the tag (number, link and
      -- payload) differ and have one tag (`Collision`).
      pub verify_payload_chain-last_tag :
          (xs ys : Stored)
          → verify_payload_chain c xs key genesis ≡ ok tt
          → verify_payload_chain c ys key genesis ≡ ok tt
          → length xs ≡ length ys
          → start xs ≡ start ys
          → last_tag xs ≡ last_tag ys
          → (xs ≡ ys) ⊎ Collision mac xs ys
      verify_payload_chain-last_tag [] [] h k l s t = inl refl
      verify_payload_chain-last_tag [] (y ∷ ys) h k l s t = absurd (omega arith)
      verify_payload_chain-last_tag (x ∷ xs) [] h k l s t = absurd (omega arith)
      verify_payload_chain-last_tag (x ∷ xs) (y ∷ ys) h k l s t =
          elim (same_history mac x.1.seq genesis genesis (x ∷ xs) (y ∷ ys) refl
            ((verify_payload_chain-exact c compares key genesis keyed long (x ∷ xs)).0 h)
            (subst (λ n. IsChain c mac genesis n (y ∷ ys)) (sym s)
              ((verify_payload_chain-exact c compares key genesis keyed long (y ∷ ys)).0 k))
            l (omega arith) t) [ inl both ↦ inl both.1 | inr bad ↦ inr bad ]
