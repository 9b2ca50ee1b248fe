-- ===== src/OAuth/Tokens.antt =====
-- Access and refresh tokens of src/oauth.rs: `OAuthBearerAuthenticator`. What the clock, the random
-- generator and the disk give to one call are arguments of it, one for each place that asks.
pub mod Bearer
pub mod Issue
use engram_mcp.Common.{
  ℕ, ◌+◌, ◌≤◌, Bool, true, false, not, ◌&&◌, ◌||◌, Option, none, some, ◌++◌, Text, text, text_eq,
  byte_len, starts_with, is_empty, ltb, leb, ◌==◌, if◌then◌else◌, Result, ok, err, ◌>>=◌, ◌>>◌,
  reject_if, map_err,
}
use engram_mcp.Auth.Access.{AccessScope}
use engram_mcp.HashMap.{HashMap, text_key}
use engram_mcp.OAuth.Error.{OAuthError, invalid_grant, invalid_target}
use engram_mcp.OAuth.Crates.{Json, Crypto}
use engram_mcp.OAuth.Scopes
use engram_mcp.OAuth.Scopes.{ScopeGrant}
use engram_mcp.OAuth.Signing.{
  saturating_add, access_token_label, refresh_token_label, token_hash, refresh_token_id_hash,
  client_binding, audit_fingerprint, sign, verify_token, random_value,
}
use engram_mcp.OAuth.Families.{
  RefreshTokenState, RefreshTokenStore, Outcome, create_family, is_active,
}

abbrev pub max_form_value_length : ℕ
max_form_value_length = 8192

abbrev pub access_token_prefix : Text
access_token_prefix = text "at_"

abbrev pub refresh_token_prefix : Text
refresh_token_prefix = text "rt_"

abbrev pub token_claims_version : ℕ
token_claims_version = 1

-- The settings of `OAuthState`, which do not change.
pub record OAuthSettings : Type 0 where
  pub issuer : Text
  pub resource : Text
  pub owner_secret : Text
  pub signing_key : Text
  pub access_token_ttl_seconds : ℕ
  pub authorization_code_ttl_seconds : ℕ
  pub refresh_token_ttl_seconds : ℕ

pub record AccessTokenClaims : Type 0 where
  pub version : ℕ
  pub token_id : Text
  pub family_id : Text
  pub scopes : ScopeGrant
  pub audience : Text
  pub issued_at : ℕ
  pub expires_at : ℕ

pub record RefreshTokenClaims : Type 0 where
  pub version : ℕ
  pub family_id : Text
  pub token_id : Text
  pub client_binding : Text
  pub scopes : ScopeGrant
  pub audience : Text
  pub issued_at : ℕ
  pub expires_at : ℕ

pub record OAuthIdentity : Type 0 where
  pub scope : AccessScope
  pub credential_fingerprint : Text

pub record TokenResponse : Type 0 where
  pub access_token : Text
  pub refresh_token : Text
  pub token_type : Text
  pub expires_in : ℕ
  pub scope : Text

-- The crates and the settings that the server was started with.
pub record Server : Type 0 where
  pub crypto : Crypto
  pub settings : OAuthSettings
  pub access_json : Json AccessTokenClaims
  pub refresh_json : Json RefreshTokenClaims
  pub state_json : Json RefreshTokenState

-- What `issue_token_pair` reads from its environment.
pub record PairInputs : Type 0 where
  pub issued_at : ℕ
  pub family_bytes : Option Text
  pub access_issued_at : ℕ
  pub access_bytes : Option Text
  pub token_bytes : Option Text
  pub outcome : Outcome

module _ (server : Server) where
  open server use {crypto, settings}
  open settings use {resource, signing_key, access_token_ttl_seconds, refresh_token_ttl_seconds}

  -- The conditions under which `authenticate_bearer` refuses verified claims.
  unfoldable pub claims_refused : ℕ → AccessTokenClaims → Bool
  claims_refused now claims =
      not (claims.version == token_claims_version)
      || not (Scopes.is_valid claims.scopes)
      || is_empty claims.family_id
      || not (text_eq claims.audience resource)
      || leb claims.expires_at now

  unfoldable pub authenticate_bearer :
      RefreshTokenStore → (now : ℕ) (token : Text) → Result OAuthError OAuthIdentity
  authenticate_bearer store now token = do
    reject_if
        (ltb max_form_value_length (byte_len token) || not (starts_with access_token_prefix token))
        invalid_grant
    claims ←
        map_err
          (verify_token crypto signing_key server.access_json access_token_prefix access_token_label
            token)
          invalid_grant
    reject_if (claims_refused now claims) invalid_grant
    reject_if (not (is_active claims.family_id now store)) invalid_grant
    ok (record {
      scope = Scopes.access_scope claims.scopes;
      credential_fingerprint =
          audit_fingerprint crypto signing_key (token_hash crypto signing_key token);
    })

  -- The claims of an access token that is given out at a time.
  unfoldable pub access_claims :
      (family_id token_id : Text)
      → ScopeGrant
      → (audience : Text) (issued_at : ℕ) → AccessTokenClaims
  access_claims family_id token_id scopes audience issued_at = record {
    version = token_claims_version;
    token_id = token_id;
    family_id = family_id;
    scopes = scopes;
    audience = audience;
    issued_at = issued_at;
    expires_at = saturating_add issued_at access_token_ttl_seconds;
  }

  unfoldable pub issue_access_token :
      ScopeGrant
      → (resource' family_id : Text) (issued_at : ℕ) (bytes : Option Text)
      → Result OAuthError (Text × ℕ)
  issue_access_token scopes resource' family_id issued_at bytes = do
    reject_if
        (not (text_eq resource' resource) || not (Scopes.is_valid scopes) || is_empty family_id)
        invalid_target
    token_id ← random_value crypto (text "ati_") bytes
    signed ←
        sign crypto signing_key server.access_json access_token_label
          (access_claims family_id token_id scopes resource' issued_at)
    ok (access_token_prefix ++ signed, access_token_ttl_seconds)

  -- The claims of a refresh token that is given out at a time.
  unfoldable pub refresh_claims :
      (family_id token_id client_id : Text)
      → ScopeGrant
      → (audience : Text) (issued_at : ℕ) → RefreshTokenClaims
  refresh_claims family_id token_id client_id scopes audience issued_at = record {
    version = token_claims_version;
    family_id = family_id;
    token_id = token_id;
    client_binding = client_binding crypto signing_key client_id;
    scopes = scopes;
    audience = audience;
    issued_at = issued_at;
    expires_at = saturating_add issued_at refresh_token_ttl_seconds;
  }

  unfoldable pub sign_refresh_token : RefreshTokenClaims → Result OAuthError Text
  sign_refresh_token claims = do
    signed ← sign crypto signing_key server.refresh_json refresh_token_label claims
    ok (refresh_token_prefix ++ signed)

  -- The refresh token of a pair, and the response.
  unfoldable pub complete_pair :
      ScopeGrant
      → (resource' client_id : Text) (issued_at : ℕ) (family_id token_id : Text) → Text × ℕ
      → Result OAuthError (RefreshTokenClaims × TokenResponse)
  complete_pair scopes resource' client_id issued_at family_id token_id (access_token, expires_in) =
      do
        let claims = refresh_claims family_id token_id client_id scopes resource' issued_at
        refresh_token ← sign_refresh_token claims
        ok (
          claims,
          record {
            access_token = access_token;
            refresh_token = refresh_token;
            token_type = text "Bearer";
            expires_in = expires_in;
            scope = Scopes.as_string scopes;
          },
        )

  -- All of `issue_token_pair` before the family is stored.
  unfoldable pub prepare_token_pair :
      ScopeGrant
      → (resource' client_id : Text) → PairInputs
      → Result OAuthError (RefreshTokenClaims × TokenResponse)
  prepare_token_pair scopes resource' client_id inputs = do
    family_id ← random_value crypto (text "rf_") inputs.family_bytes
    access ←
        issue_access_token scopes resource' family_id inputs.access_issued_at inputs.access_bytes
    token_id ← random_value crypto (text "rti_") inputs.token_bytes
    complete_pair scopes resource' client_id inputs.issued_at family_id token_id access

  unfoldable pub store_family :
      Outcome
      → (issued_at : ℕ) → RefreshTokenClaims × TokenResponse
      → RefreshTokenStore
      → Result OAuthError TokenResponse × RefreshTokenStore
  store_family outcome issued_at (claims, response) store =
      let (done, store') =
        create_family server.state_json outcome claims.family_id
          (refresh_token_id_hash crypto signing_key claims.token_id) claims.expires_at issued_at
          store in
      (done >> ok response, store')

  unfoldable pub issue_token_pair :
      ScopeGrant
      → (resource' client_id : Text) → PairInputs
      → RefreshTokenStore
      → Result OAuthError TokenResponse × RefreshTokenStore
  issue_token_pair scopes resource' client_id inputs store =
      elim (prepare_token_pair scopes resource' client_id inputs) [
        | err e ↦ (err e, store)
        | ok pair ↦ store_family inputs.outcome inputs.issued_at pair store
      ]
