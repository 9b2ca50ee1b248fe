-- ===== src/OAuth/Tokens/Issue.antt =====
-- Tokens that were issued: what they claim, and that the access token authenticates its holder.
use engram_mcp.Common.{
  ℕ, ◌≤◌, ◌<◌, ◌≡◌, inl, inr, ap, sym, ◌∙◌, true, false, Option, none, some, ◌++◌, Text, text,
  text_eq, text_eq_iff, text_eq_refl, byte_len, starts_with-append, is_empty, if◌then◌else◌, ok,
  arith, Result-cases,
}
use mathlib.Core.Path.{subst, subst₂}
use engram_mcp.HashMap
use engram_mcp.HashMap.{text_key}
use engram_mcp.OAuth.Scopes
use engram_mcp.OAuth.Scopes.{ScopeGrant}
use engram_mcp.OAuth.Signing.{
  saturating_add, access_token_label, token_hash, audit_fingerprint, sign, random_value,
  refresh_token_id_hash,
}
use engram_mcp.OAuth.Signing.Laws.{verify_token-append}
use engram_mcp.OAuth.Families.{RefreshTokenStore, Outcome, is_live, create_family, is_active}
use engram_mcp.OAuth.Families.Rotation.{family_of, create_family-ok}
use engram_mcp.OAuth.Tokens.{
  max_form_value_length, access_token_prefix, RefreshTokenClaims, TokenResponse, Server, PairInputs,
  access_claims, claims_refused, authenticate_bearer, issue_access_token, refresh_claims,
  sign_refresh_token, complete_pair, prepare_token_pair, store_family, issue_token_pair,
}
use engram_mcp.OAuth.Tokens.Bearer.{verify_issued}

module _ (server : Server) where
  open server use {crypto, settings}
  open settings use {resource, signing_key, access_token_ttl_seconds, refresh_token_ttl_seconds}

  -- The token is a signed record of these claims.
  pub record IsAccessToken (scopes : ScopeGrant) (family_id : Text) (issued_at : ℕ) (token : Text)
      : Type 0 where
    pub token_id : Text
    pub signed : Text
    pub token_is : token ≡ access_token_prefix ++ signed
    pub signature :
        sign crypto signing_key server.access_json access_token_label
          (access_claims server family_id token_id scopes resource issued_at)
        ≡ ok signed
    pub valid_scopes : Scopes.is_valid scopes ≡ true
    pub has_family : is_empty family_id ≡ false

  pub issue_access_token-IsAccessToken :
      (scopes : ScopeGrant) (resource' family_id : Text) (issued_at : ℕ) (bytes : Option Text)
      (token : Text) (ttl : ℕ)
      → issue_access_token server scopes resource' family_id issued_at bytes ≡ ok (token, ttl)
      → IsAccessToken scopes family_id issued_at token
        × (ttl ≡ access_token_ttl_seconds)
        × (resource' ≡ resource)
  unfolding issue_access_token random_value access_claims
  issue_access_token-IsAccessToken scopes resource' family_id issued_at none token ttl h =
      absurd (ground arith)
  issue_access_token-IsAccessToken scopes resource' family_id issued_at (some b) token ttl h =
      let token_id = text "ati_" ++ crypto.encode b in
      let claims = access_claims server family_id token_id scopes resource' issued_at in
      elim (Result-cases (sign crypto signing_key server.access_json access_token_label claims)) [
        | inl (signed, signature) ↦
            let same : resource' ≡ resource = ground (arith, text_eq_iff resource' resource) in
            (
              record {
                token_id = token_id;
                signed = signed;
                token_is = ground arith;
                signature = rw (← same) signature;
                valid_scopes = ground arith;
                has_family = ground arith;
              },
              ground arith,
              same,
            )
        | inr (e, failed) ↦ absurd (ground arith)
      ]

  -- At a time when it has not expired and its family is active, such a token is accepted, for the
  -- access of the scopes that it was issued with.
  IsAccessToken-authenticates :
      (scopes : ScopeGrant) (family_id : Text) (issued_at : ℕ) (token : Text)
      (store : RefreshTokenStore) (now : ℕ)
      → IsAccessToken scopes family_id issued_at token
      → byte_len token ≤ max_form_value_length
      → now < saturating_add issued_at access_token_ttl_seconds
      → is_active family_id now store ≡ true
      → authenticate_bearer server store now token
        ≡ ok (record {
          scope = Scopes.access_scope scopes;
          credential_fingerprint =
              audit_fingerprint crypto signing_key (token_hash crypto signing_key token);
        })
  unfolding access_claims claims_refused
  IsAccessToken-authenticates scopes family_id issued_at token store now t short early active =
      verify_issued server store now token
        (access_claims server family_id t.token_id scopes resource issued_at) short
        (rw t.token_is (starts_with-append access_token_prefix t.signed))
        (rw t.token_is (
          verify_token-append crypto signing_key server.access_json access_token_prefix
            access_token_label t.signed _ t.signature))
        (ground (arith, t.valid_scopes, t.has_family, text_eq_refl resource)) active

  -- What a successful `prepare_token_pair` has made.
  pub record IsPrepared (scopes : ScopeGrant) (client_id : Text) (inputs : PairInputs)
      (claims : RefreshTokenClaims) (response : TokenResponse) : Type 0 where
    pub access : IsAccessToken scopes claims.family_id inputs.access_issued_at response.access_token
    pub claims_are :
        claims
        ≡ refresh_claims server claims.family_id claims.token_id client_id scopes resource
            inputs.issued_at
    pub refresh : sign_refresh_token server claims ≡ ok response.refresh_token
    pub scope_is : response.scope ≡ Scopes.as_string scopes
    pub expires_in_is : response.expires_in ≡ access_token_ttl_seconds

  complete_pair-IsPrepared :
      (scopes : ScopeGrant) (resource' client_id : Text) (inputs : PairInputs)
      (family_id token_id : Text) (access : Text × ℕ) (claims : RefreshTokenClaims)
      (response : TokenResponse)
      → issue_access_token server scopes resource' family_id inputs.access_issued_at
          inputs.access_bytes
        ≡ ok access
      → complete_pair server scopes resource' client_id inputs.issued_at family_id token_id access
        ≡ ok (claims, response)
      → IsPrepared scopes client_id inputs claims response
  unfolding complete_pair refresh_claims
  complete_pair-IsPrepared scopes resource' client_id inputs family_id token_id (access_token, ttl)
        claims response issued h =
      let (token, ttl_is, same) =
        issue_access_token-IsAccessToken scopes resource' family_id inputs.access_issued_at
          inputs.access_bytes access_token ttl issued in
      let c =
        refresh_claims server family_id token_id client_id scopes resource' inputs.issued_at in
      elim (Result-cases (sign_refresh_token server c)) [
        | inr (e, failed) ↦ absurd (ground arith)
        | inl (refresh_token, signed) ↦
            let is_claims : c ≡ claims = ground arith in
            let is_family : family_id ≡ claims.family_id =
              ap (λ (r : RefreshTokenClaims). r.family_id) is_claims in
            let is_access : access_token ≡ response.access_token = ground arith in
            record {
              access =
                  subst₂ (λ f t. IsAccessToken scopes f inputs.access_issued_at t) is_family
                    is_access token;
              claims_are = ground arith;
              refresh =
                  ap (sign_refresh_token server) (sym is_claims) ∙ signed ∙ ap ok (ground arith);
              scope_is = ground arith;
              expires_in_is = ground arith;
            }
      ]

  prepare_token_pair-IsPrepared :
      (scopes : ScopeGrant) (resource' client_id : Text) (inputs : PairInputs)
      (claims : RefreshTokenClaims) (response : TokenResponse)
      → prepare_token_pair server scopes resource' client_id inputs ≡ ok (claims, response)
      → IsPrepared scopes client_id inputs claims response
  unfolding prepare_token_pair refresh_claims
  prepare_token_pair-IsPrepared scopes resource' client_id inputs claims response h =
      elim (Result-cases (random_value crypto (text "rf_") inputs.family_bytes)) [
        | inr (e, failed) ↦ absurd (ground arith)
        | inl (family_id, family_drawn) ↦
            elim (Result-cases (
              issue_access_token server scopes resource' family_id inputs.access_issued_at
                inputs.access_bytes)) [
                  | inr (e, failed) ↦ absurd (ground arith)
                  | inl (access, issued) ↦
                      elim (Result-cases (random_value crypto (text "rti_") inputs.token_bytes)) [
                        | inr (e, failed) ↦ absurd (ground arith)
                        | inl (token_id, drawn) ↦
                            complete_pair-IsPrepared scopes resource' client_id inputs family_id
                              token_id access claims response issued (ground arith)
                      ]
                ]
      ]

  store_family-ok :
      (outcome : Outcome) (issued_at : ℕ) (claims : RefreshTokenClaims)
      (response response' : TokenResponse) (store s' : RefreshTokenStore)
      → store_family server outcome issued_at (claims, response) store ≡ (ok response', s')
      → (response ≡ response')
        × (create_family server.state_json outcome claims.family_id
              (refresh_token_id_hash crypto signing_key claims.token_id)
              claims.expires_at
              issued_at
              store
            ≡ (ok tt, s'))
  unfolding store_family
  store_family-ok outcome issued_at claims response response' store s' h = ground arith

  -- A pair that was issued: its access token and its refresh token are signed records of the scopes,
  -- and its family is stored with the hash of the refresh token's id.
  pub record IsIssued (scopes : ScopeGrant) (client_id : Text) (inputs : PairInputs)
      (store s' : RefreshTokenStore) (response : TokenResponse) : Type 0 where
    pub claims : RefreshTokenClaims
    pub prepared : IsPrepared scopes client_id inputs claims response
    pub stored :
        (k : Text)
        → family_of s' k ≡ (
            if text_eq claims.family_id k
            then some (record {
              active_token_hash = refresh_token_id_hash crypto signing_key claims.token_id;
              expires_at = claims.expires_at;
              revoked = false;
            })
            else HashMap.keep_if (is_live inputs.issued_at) (family_of store k))

  -- A pair that was issued consists of an access token and a refresh token that are signed
  -- records of the scopes and of one family, which is stored with the hash of the refresh token's
  -- id and its expiry, while the other families are only pruned of the expired.
  pub issue_token_pair-IsIssued :
      (scopes : ScopeGrant) (resource' client_id : Text) (inputs : PairInputs)
      (store s' : RefreshTokenStore) (response : TokenResponse)
      → issue_token_pair server scopes resource' client_id inputs store ≡ (ok response, s')
      → IsIssued scopes client_id inputs store s' response
  unfolding issue_token_pair
  issue_token_pair-IsIssued scopes resource' client_id inputs store s' response h =
      elim (Result-cases (prepare_token_pair server scopes resource' client_id inputs)) [
        | inr (e, failed) ↦ absurd (ground arith)
        | inl ((claims, response'), prepared) ↦
            let (same, created) =
              store_family-ok inputs.outcome inputs.issued_at claims response' response store s'
                (ground arith) in
            record {
              claims = claims;
              prepared = subst (IsPrepared scopes client_id inputs claims) same (
                  prepare_token_pair-IsPrepared scopes resource' client_id inputs claims response'
                    prepared);
              stored =
                  create_family-ok server.state_json inputs.outcome claims.family_id _
                    claims.expires_at inputs.issued_at store s' created;
            }
      ]

  -- The access token of a pair that was issued authenticates its holder, for the access of the
  -- granted scopes, while neither it nor its family has expired, if it has at most 8192 bytes.
  pub authenticate_bearer-issue_token_pair :
      (scopes : ScopeGrant) (resource' client_id : Text) (inputs : PairInputs)
      (store s' : RefreshTokenStore) (response : TokenResponse) (now : ℕ)
      → issue_token_pair server scopes resource' client_id inputs store ≡ (ok response, s')
      → byte_len response.access_token ≤ max_form_value_length
      → now < saturating_add inputs.access_issued_at access_token_ttl_seconds
      → now < saturating_add inputs.issued_at refresh_token_ttl_seconds
      → authenticate_bearer server s' now response.access_token
        ≡ ok (record {
          scope = Scopes.access_scope scopes;
          credential_fingerprint =
              audit_fingerprint crypto signing_key
                (token_hash crypto signing_key response.access_token);
        })
  unfolding is_active is_live refresh_claims
  authenticate_bearer-issue_token_pair scopes resource' client_id inputs store s' response now h
        short early live =
      let i = issue_token_pair-IsIssued scopes resource' client_id inputs store s' response h in
      IsAccessToken-authenticates scopes i.claims.family_id inputs.access_issued_at
        response.access_token s' now i.prepared.access short early
        (ground (
          arith,
          i.stored i.claims.family_id,
          text_eq_refl i.claims.family_id,
          ap (λ (c : RefreshTokenClaims). c.expires_at) i.prepared.claims_are,
        ))
