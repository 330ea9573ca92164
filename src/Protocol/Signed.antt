-- ===== src/Protocol/Signed.antt =====
-- What a signature over the canonical texts of protocol.rs pins down.
use doc_link.Base.Strings.{has_char, append_sep_inj, append_inj, append_sep_inj_right}
use doc_link.Base.Decimal.{to_decimal, to_decimal_inj, has_char-to_decimal}
use doc_link.Protocol.{
  lit, PairRequest, PairDecision, newline, ◌⏎◌, canonical_request_string, canonical_decision_string,
}
use doc_link.Base.{Text, ◌≡◌, false, ◌∷◌}
use doc_link.Base.{ℕ, refl, append_assoc, arith}
use doc_link.Base.{sym, ◌∙◌}

-- One line.
abbrev pub IsLine : Text → Type 0
IsLine s = has_char newline s ≡ false

after_inj : (p a b : Text) → p ⏎ a ≡ p ⏎ b → a ≡ b
after_inj p a b e = let t = append_inj p (newline ∷ a) (newline ∷ b) e in ground (arith, t)

-- Four texts, of which all but the second are single lines.
fields_inj :
    (a a' b b' c c' d d' : Text)
    → IsLine a
    → IsLine a'
    → IsLine c
    → IsLine c'
    → IsLine d
    → IsLine d'
    → a ⏎ b ⏎ c ⏎ d ≡ a' ⏎ b' ⏎ c' ⏎ d'
    → (a ≡ a') × (b ≡ b') × (c ≡ c') × (d ≡ d')
fields_inj a a' b b' c c' d d' ha ha' hc hc' hd hd' e =
    let (ea, r) = append_sep_inj newline a a' _ _ ha ha' e in
    let (s, ed) = append_sep_inj_right newline (b ⏎ c) (b' ⏎ c') d d' hd hd' (
      append_assoc b (newline ∷ c) (newline ∷ d)
      ∙ r
      ∙ sym (append_assoc b' (newline ∷ c') (newline ∷ d'))) in
    let (eb, ec) = append_sep_inj_right newline b b' c c' hc hc' s in (ea, eb, ec, ed)

decimal-IsLine : (n : ℕ) → IsLine (to_decimal n)
decimal-IsLine n = has_char-to_decimal newline n refl

-- The signed text of a pair request determines its id, name, key and duration, provided that id and
-- key hold no line break (the name may).
pub canonical_request_string_inj :
    (r r' : PairRequest)
    → IsLine r.node_id
    → IsLine r'.node_id
    → IsLine r.pubkey_hex
    → IsLine r'.pubkey_hex
    → canonical_request_string r ≡ canonical_request_string r'
    → (r.node_id ≡ r'.node_id)
      × (r.name ≡ r'.name)
      × (r.pubkey_hex ≡ r'.pubkey_hex)
      × (r.requested_duration_secs ≡ r'.requested_duration_secs)
unfolding canonical_request_string
canonical_request_string_inj r r' hn hn' hp hp' e =
    let (a, b, c, d) =
      fields_inj r.node_id r'.node_id r.name r'.name r.pubkey_hex r'.pubkey_hex _ _ hn hn' hp hp'
        (decimal-IsLine r.requested_duration_secs) (decimal-IsLine r'.requested_duration_secs)
        (after_inj (lit "doclink-pair-v1") _ _ e) in
    (a, b, c, to_decimal_inj _ _ d)

-- The signed text of a decision determines the addressee, the decision, the duration and the key,
-- provided that addressee and key hold no line break (the decision may).
pub canonical_decision_string_inj :
    (d d' : PairDecision)
    → IsLine d.requester_node_id
    → IsLine d'.requester_node_id
    → IsLine d.pubkey_hex
    → IsLine d'.pubkey_hex
    → canonical_decision_string d ≡ canonical_decision_string d'
    → (d.requester_node_id ≡ d'.requester_node_id)
      × (d.decision ≡ d'.decision)
      × (d.duration_secs ≡ d'.duration_secs)
      × (d.pubkey_hex ≡ d'.pubkey_hex)
unfolding canonical_decision_string
canonical_decision_string_inj d d' hn hn' hp hp' e =
    let (a, b, c, k) =
      fields_inj d.requester_node_id d'.requester_node_id d.decision d'.decision
        (to_decimal d.duration_secs) (to_decimal d'.duration_secs) d.pubkey_hex d'.pubkey_hex hn hn'
        (decimal-IsLine d.duration_secs) (decimal-IsLine d'.duration_secs) hp hp'
        (after_inj (lit "doclink-decision-v1") _ _ e) in
    (a, b, to_decimal_inj _ _ c, k)
