-- ===== src/Auth/Keys/Laws.antt =====
-- What the authentication of src/auth.rs accepts.
use engram_mcp.Common.{
  ℕ, ◌/◌, ◌%◌, ◌<◌, ◌≡◌, ◌≢◌, ◌⊎◌, refl, ap, inl, inr, true, false, none, some, [], ◌∷◌, ◌++◌, Text,
  text, any, All, is_whitespace, split_once, eq_ignore_ascii_case, ok, arith, Bool-cases,
  Option-cases, Result-cases, sym, ◌∙◌, eq-append_of_split_once,
}
use engram_mcp.Utf8.{as_bytes}
use engram_mcp.Auth.Access.{tech, private}
use engram_mcp.OAuth.Crates.{Crypto, constant_time_equal, constant_time_equal_iff}
use engram_mcp.OAuth.Tokens.{authenticate_bearer}
use engram_mcp.OAuth.Tokens.Bearer.{IsAccepted, authenticate_bearer-IsAccepted}
use engram_mcp.Auth.Keys.{
  key_a, key_b, AuthSubject, Bearer, Authenticator, Headers, hex_digit, hex_prefix,
  authenticate_key, authenticate_api_key_headers, token_refused, authenticate_authorization,
  authenticate_headers,
}

module _ (crypto : Crypto) (auth : Authenticator) where
  open auth.api_keys use {key_a_bytes, key_b_bytes}

  -- A header that names one of the two keys.
  pub data ByKey (headers : Headers) (subject : AuthSubject) : Type 0 where
    first_key :
        (bytes value : Text)
        → headers.x_api_key ≡ some bytes
        → headers.to_str bytes ≡ some value
        → as_bytes value ≡ key_a_bytes
        → subject ≡ record { credential_id = key_a; scope = tech }
        → ByKey headers subject
    second_key :
        (bytes value : Text)
        → headers.x_api_key ≡ some bytes
        → headers.to_str bytes ≡ some value
        → as_bytes value ≡ key_b_bytes
        → key_a_bytes ≢ key_b_bytes
        → subject ≡ record { credential_id = key_b; scope = private }
        → ByKey headers subject

  -- A header with a token that the bearer authenticator accepts with the same access.
  pub record ByToken (now : ℕ) (headers : Headers) (subject : AuthSubject) : Type 0 where
    pub bytes : Text
    pub authorization : headers.authorization ≡ some bytes
    pub scheme : Text
    pub token : Text
    pub printed : headers.to_str bytes ≡ some (scheme ++ b' ' ∷ token)
    pub scheme_of : eq_ignore_ascii_case scheme (text "Bearer") ≡ true
    pub one_word : any is_whitespace token ≡ false
    pub bearer : Bearer
    pub enabled : auth.oauth ≡ some bearer
    pub accepted : IsAccepted bearer.server bearer.store now token subject.scope

  pub authenticate_key-cases :
      (candidate : Text) (subject : AuthSubject)
      → authenticate_key crypto auth candidate ≡ ok subject
      → ((as_bytes candidate ≡ key_a_bytes)
          × (subject ≡ record { credential_id = key_a; scope = tech }))
        ⊎ ((as_bytes candidate ≡ key_b_bytes)
            × (as_bytes candidate ≢ key_a_bytes)
            × (subject ≡ record { credential_id = key_b; scope = private }))
  unfolding authenticate_key
  authenticate_key-cases candidate subject h =
      elim (Bool-cases (constant_time_equal crypto.subtle (as_bytes candidate) key_a_bytes)) [
        | inl e ↦ inl ((constant_time_equal_iff crypto.subtle _ _).0 e, ground (arith, e, h))
        | inr e ↦
            elim (Bool-cases (constant_time_equal crypto.subtle (as_bytes candidate) key_b_bytes)) [
              | inl f ↦ inr (
                (constant_time_equal_iff crypto.subtle _ _).0 f,
                (λ k. ground (
                  arith,
                  k,
                  e,
                  constant_time_equal_iff crypto.subtle (as_bytes candidate) key_a_bytes,
                )),
                ground (arith, e, f, h),
              )
              | inr f ↦ absurd (ground (arith, e, f, h))
            ]
      ]

  authenticate_api_key_headers-ByKey :
      (headers : Headers) (subject : AuthSubject)
      → authenticate_api_key_headers crypto auth headers ≡ ok subject
      → ByKey headers subject
  unfolding authenticate_api_key_headers
  authenticate_api_key_headers-ByKey headers subject h = elim (Option-cases headers.x_api_key) [
    | inl e ↦ absurd (ground (arith, e, h))
    | inr (bytes, e) ↦ elim (Option-cases (headers.to_str bytes)) [
      | inl f ↦ absurd (ground (arith, e, f, h))
      | inr (value, f) ↦ elim (authenticate_key-cases value subject (ground (arith, e, f, h))) [
        | inl (k, s) ↦ first_key bytes value e f k s
        | inr (k, n, s) ↦ second_key bytes value e f k (λ x. n (k ∙ sym x)) s
      ]
    ]
  ]

  authenticate_authorization-ByToken :
      (now : ℕ) (headers : Headers) (bytes : Text) (subject : AuthSubject)
      → headers.authorization ≡ some bytes
      → authenticate_authorization crypto auth now headers bytes ≡ ok subject
      → ByToken now headers subject
  unfolding authenticate_authorization token_refused
  authenticate_authorization-ByToken now headers bytes subject at h =
      elim (Option-cases (headers.to_str bytes)) [
        | inl e ↦ absurd (ground (arith, e, h))
        | inr (value, e) ↦ elim (Option-cases (split_once b' ' value)) [
          | inl f ↦ absurd (ground (arith, e, f, h))
          | inr (parts, f) ↦ elim (Option-cases auth.oauth) [
            | inl g ↦ absurd (ground (arith, e, f, g, h))
            | inr (bearer, g) ↦
                elim (Result-cases (authenticate_bearer bearer.server bearer.store now parts.1)) [
                  | inr (x, k) ↦ absurd (ground (arith, e, f, g, k, h))
                  | inl (identity, k) ↦
                      let same : subject.scope ≡ identity.scope = ground (arith, e, f, g, k, h) in
                      record {
                        bytes = bytes;
                        authorization = at;
                        scheme = parts.0;
                        token = parts.1;
                        printed =
                            e ∙ ap some (eq-append_of_split_once b' ' value parts.0 parts.1 f);
                        scheme_of = ground (arith, e, f, h);
                        one_word = ground (arith, e, f, h);
                        bearer = bearer;
                        enabled = g;
                        accepted = rw same (
                            authenticate_bearer-IsAccepted bearer.server bearer.store now parts.1
                              identity k);
                      }
                ]
          ]
        ]
      ]

  -- A request is authenticated only by an Authorization header with the scheme Bearer and one
  -- word that the token authenticator accepts for the same access, or, when it has no
  -- Authorization header, by one of the two keys: the first for the tech scope, the second, when
  -- it differs, for the private scope.
  pub authenticate_headers-cases :
      (now : ℕ) (headers : Headers) (subject : AuthSubject)
      → authenticate_headers crypto auth now headers ≡ ok subject
      → ByToken now headers subject ⊎ ((headers.authorization ≡ none) × ByKey headers subject)
  unfolding authenticate_headers
  authenticate_headers-cases now headers subject h = elim (Option-cases headers.authorization) [
    | inl e ↦ inr (e, authenticate_api_key_headers-ByKey headers subject (ground (arith, e, h)))
    | inr (bytes, e) ↦
        inl (authenticate_authorization-ByToken now headers bytes subject e (ground (arith, e, h)))
  ]

hex_digit-inj : (m n : ℕ) → m < 16 → n < 16 → hex_digit m ≡ hex_digit n → m ≡ n
hex_digit-inj m n h k e = ground (arith, h, k, e)

byte_of_digits :
    (m n : ℕ)
    → m < 256
    → n < 256
    → hex_digit (m / 16) ≡ hex_digit (n / 16)
    → hex_digit (m % 16) ≡ hex_digit (n % 16)
    → m ≡ n
byte_of_digits m n h k e f =
    let high = hex_digit-inj (m / 16) (n / 16) (omega (arith, h)) (omega (arith, k)) e in
    let low = hex_digit-inj (m % 16) (n % 16) (omega arith) (omega arith) f in
    omega (arith, high, low)

cons-inj : {a b : ℕ} {s t : Text} → a ∷ s ≡ b ∷ t → (a ≡ b) × (s ≡ t)
cons-inj h = (cc, cc)

pub hex_prefix-inj :
    (s t : Text) → All (λ b. b < 256) s → All (λ b. b < 256) t → hex_prefix s ≡ hex_prefix t → s ≡ t
unfolding hex_prefix
hex_prefix-inj [] [] h k e = refl
hex_prefix-inj [] (b ∷ t) h k e = cc
hex_prefix-inj (a ∷ s) [] h k e = cc
hex_prefix-inj (a ∷ s) (b ∷ t) h k e =
    let (high, e₁) = cons-inj e in
    let (low, e₂) = cons-inj e₁ in
    let head = byte_of_digits a b h.0 k.0 high low in let tail = hex_prefix-inj s t h.1 k.1 e₂ in cc
