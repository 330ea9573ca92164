-- ===== src/LocalGuard/Loopback.antt =====
-- Which authorities the guard of the admin plane lets through.
use doc_link.LocalGuard.{
  without_prefix, before_path, without_dot, authority_allowed, source_allowed, local_only_guard,
}
use doc_link.Protocol.{lit}
use doc_link.Base.Map.{Map, lookup}
use doc_link.Base.Strings.{trim, to_ascii_lowercase, strip_prefix, rsplit_once}
use doc_link.Base.Split.{rsplit_once-split, strip_prefix-split}
use doc_link.Base.Decimal.{to_decimal}
use doc_link.Base.{Bool-cases, Option-cases, ◌==◌, Text, beq-eq, ℕ, ◌≡◌, refl}
use doc_link.Base.{ap, ◌∙◌, ◌⊎◌, inl, inr, true, ◌||◌, Option, none, some, [], ◌∷◌, ◌++◌}
use doc_link.Base.{append_assoc, arith, text_eq, nat_eq}

without_prefix-split : (p s : Text) → (s ≡ p ++ without_prefix p s) ⊎ (s ≡ without_prefix p s)
unfolding without_prefix
without_prefix-split p s = elim (Option-cases (strip_prefix s p)) [
  | inl e ↦ rw (e, without_prefix) (inr refl)
  | inr (r, e) ↦ rw (e, without_prefix) (inl (strip_prefix-split s p r e))
]

-- A rest that starts a path, a query or a fragment, or is empty.
abbrev pub IsTail : Text → Type 0
IsTail [] = Unit
IsTail (c ∷ s) = (c ≡ b'/') ⊎ (c ≡ b'?') ⊎ (c ≡ b'#')

delimiter :
    (c : ℕ) → (c == b'/' || c == b'?' || c == b'#') ≡ true → (c ≡ b'/') ⊎ (c ≡ b'?') ⊎ (c ≡ b'#')
delimiter c h = grind arith

before_path-split : (s : Text) → (tail : Text) × (s ≡ before_path s ++ tail) × IsTail tail
unfolding before_path
before_path-split [] = ([], refl, tt)
before_path-split (c ∷ s) = elim (Bool-cases (c == b'/' || c == b'?' || c == b'#')) [
  | inl e ↦ rw e (c ∷ s, refl, delimiter c e)
  | inr e ↦ rw e (let (tail, k, t) = before_path-split s in (tail, ap (λ u. c ∷ u) k, t))
]

without_dot-split : (s : Text) → (s ≡ without_dot s) ⊎ (s ≡ without_dot s ++ (b'.' ∷ []))
unfolding without_dot
without_dot-split [] = inl refl
without_dot-split (c ∷ []) = elim (Bool-cases (c == b'.')) [
  | inl e ↦ rw e (inr (rw (beq-eq c b'.' e) refl))
  | inr e ↦ rw e (inl refl)
]
without_dot-split (c ∷ d ∷ s) = elim (without_dot-split (d ∷ s)) [
  | inl e ↦ inl (ap (λ u. c ∷ u) e)
  | inr e ↦ inr (ap (λ u. c ∷ u) e)
]

-- The loopback names, with or without a dot behind them.
abbrev pub IsLoopback : Text → Type 0
IsLoopback host =
    (host ≡ lit "127.0.0.1")
    ⊎ (host ≡ lit "127.0.0.1.")
    ⊎ (host ≡ lit "localhost")
    ⊎ (host ≡ lit "localhost.")

-- The schemes that may stand in front.
abbrev pub IsScheme : Text → Type 0
IsScheme s = (s ≡ []) ⊎ (s ≡ lit "http://") ⊎ (s ≡ lit "https://") ⊎ (s ≡ lit "http://https://")

-- An authority that names a loopback host and the port, in any case of its letters.
abbrev pub NamesLoopback : Text → ℕ → Type 0
NamesLoopback authority port =
    (scheme host tail : Text) × IsScheme scheme
    × IsLoopback host
    × IsTail tail
    × (to_ascii_lowercase (trim authority) ≡ scheme ++ (host ++ (b':' ∷ (to_decimal port ++ tail))))

without_dot-IsLoopback :
    (host : Text)
    → (without_dot host == lit "127.0.0.1" || without_dot host == lit "localhost") ≡ true
    → IsLoopback host
unfolding lit
without_dot-IsLoopback host h = elim (Bool-cases (without_dot host == lit "127.0.0.1")) [
  | inl e ↦
      let named = beq-eq (without_dot host) (lit "127.0.0.1") e in
      elim (without_dot-split host) [
        | inl k ↦ inl (k ∙ named)
        | inr k ↦ inr (inl (k ∙ ap (λ u. u ++ (b'.' ∷ [])) named))
      ]
  | inr e ↦
      let named = beq-eq (without_dot host) (lit "localhost") (ground (arith, e, h)) in
      elim (without_dot-split host) [
        | inl k ↦ inr (inr (inl (k ∙ named)))
        | inr k ↦ inr (inr (inr (k ∙ ap (λ u. u ++ (b'.' ∷ [])) named)))
      ]
]

schemes :
    (s : Text)
    → (scheme : Text) × IsScheme scheme
      × (s ≡ scheme ++ without_prefix (lit "https://") (without_prefix (lit "http://") s))
unfolding lit without_prefix
schemes s =
    let t = without_prefix (lit "http://") s in
    let u = without_prefix (lit "https://") t in
    elim (without_prefix-split (lit "http://") s) [
      | inl e ↦ elim (without_prefix-split (lit "https://") t) [
        | inl k ↦ (lit "http://https://", inr (inr (inr refl)), e ∙ ap (λ v. lit "http://" ++ v) k)
        | inr k ↦ (lit "http://", inr (inl refl), e ∙ ap (λ v. lit "http://" ++ v) k)
      ]
      | inr e ↦ elim (without_prefix-split (lit "https://") t) [
        | inl k ↦ (lit "https://", inr (inr (inl refl)), e ∙ k)
        | inr k ↦ ([], inl refl, e ∙ k)
      ]
    ]

authority_allowed-NamesLoopback :
    (authority : Text) (port : ℕ)
    → authority_allowed authority port ≡ true
    → NamesLoopback authority port
unfolding authority_allowed
authority_allowed-NamesLoopback authority port =
    let lowered = to_ascii_lowercase (trim authority) in
    let rest = without_prefix (lit "https://") (without_prefix (lit "http://") lowered) in
    elim (Option-cases (rsplit_once b':' (before_path rest))) [
      | inl e ↦ rw (e, authority_allowed) λ h. absurd (cc)
      | inr ((host, digits), e) ↦
          rw (e, authority_allowed)
            λ h.
              let (scheme, is_scheme, front) = schemes lowered in
              let (tail, cut, is_tail) = before_path-split rest in
              let named = (rsplit_once-split b':' (before_path rest) host digits e).0 in
              let same : digits ≡ to_decimal port =
                beq-eq digits (to_decimal port) (ground arith) in
              let whole : rest ≡ host ++ (b':' ∷ (to_decimal port ++ tail)) =
                cut
                ∙ (ap (λ u. u ++ tail) (named ∙ ap (λ u. host ++ (b':' ∷ u)) same)
                    ∙ append_assoc host (b':' ∷ to_decimal port) tail) in
              (
                scheme,
                host,
                tail,
                is_scheme,
                without_dot-IsLoopback host (ground arith),
                is_tail,
                front ∙ ap (λ u. scheme ++ u) whole,
              )
    ]

source-checked :
    (header : Option Text) (value : Text) (port : ℕ)
    → source_allowed header port ≡ true
    → header ≡ some value
    → authority_allowed value port ≡ true
unfolding source_allowed
source-checked none value port h e = absurd (cc)
source-checked (some v) value port h e =
    let allowed : authority_allowed v port ≡ true = ground arith in
    let same : v ≡ value = cc in rw same at allowed

guard-headers :
    (headers : Map Text Text) (port : ℕ) (name value : Text)
    → local_only_guard headers port ≡ true
    → (name ≡ lit "host") ⊎ (name ≡ lit "origin") ⊎ (name ≡ lit "referer")
    → lookup name headers ≡ some value
    → authority_allowed value port ≡ true
unfolding local_only_guard
guard-headers headers port name value h (inl e) there_is =
    let host_is : lookup (lit "host") headers ≡ some value = rw e at there_is in ground arith
guard-headers headers port name value h (inr (inl e)) there_is =
    source-checked (lookup (lit "origin") headers) value port (ground arith) (rw e at there_is)
guard-headers headers port name value h (inr (inr e)) there_is =
    source-checked (lookup (lit "referer") headers) value port (ground arith) (rw e at there_is)

-- A request passes the guard only if each of its headers Host, Origin and Referer that is there
-- names a loopback host and the port of the admin plane, behind at most a scheme and in front of at
-- most a path, a query or a fragment.
pub local_only_guard-NamesLoopback :
    (headers : Map Text Text) (port : ℕ) (name value : Text)
    → local_only_guard headers port ≡ true
    → (name ≡ lit "host") ⊎ (name ≡ lit "origin") ⊎ (name ≡ lit "referer")
    → lookup name headers ≡ some value
    → NamesLoopback value port
local_only_guard-NamesLoopback headers port name value h named there_is =
    authority_allowed-NamesLoopback value port
      (guard-headers headers port name value h named there_is)
