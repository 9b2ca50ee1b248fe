-- ===== src/OAuth/Exchange.antt =====
-- The token endpoint of src/oauth.rs: `exchange_token`, for authorization codes and refresh tokens.
pub mod Codes
pub mod Prepare
pub mod Refresh
pub mod SingleUse
use engram_mcp.Common.{
  ℕ, Bool, true, false, not, ◌&&◌, ◌||◌, Option, none, some, ◌++◌, Text, text, text_eq, byte_len,
  ltb, leb, ◌==◌, if◌then◌else◌, Result, ok, err, ◌>>=◌, ◌>>◌, reject_if, ok_or, map_err,
}
use engram_mcp.HashMap
use engram_mcp.HashMap.{text_key}
use engram_mcp.OAuth.Error.{OAuthError, invalid_grant, invalid_scope}
use engram_mcp.OAuth.Crates.{Json, Crypto, constant_time_equal}
use engram_mcp.OAuth.Scopes
use engram_mcp.OAuth.Scopes.{ScopeGrant}
use engram_mcp.OAuth.Signing.{
  refresh_token_label, token_hash, client_binding, refresh_token_id_hash, verify_token,
  random_value,
}
use engram_mcp.OAuth.Families.{RefreshTokenStore, Outcome, rotate}
use engram_mcp.OAuth.Tokens.{
  OAuthSettings, Server, TokenResponse, RefreshTokenClaims, PairInputs, max_form_value_length,
  refresh_token_prefix, token_claims_version, issue_access_token, refresh_claims,
  sign_refresh_token, issue_token_pair,
}
use engram_mcp.OAuth.Clients.{RegisteredClient}
use engram_mcp.OAuth.TokenClient.{TokenRequest, authenticate_client}
use engram_mcp.OAuth.Pkce.{verify_pkce}
use engram_mcp.OAuth.Codes.{AuthorizationCode, OAuthState, Urls, Service}

-- A code, the redirect URI, the verifier and the client of a request that passed the first checks.
pub record CheckedCode : Type 0 where
  pub code : Text
  pub redirect_uri : Text
  pub verifier : Text
  pub client : RegisteredClient

-- What `exchange_refresh_token` reads from its environment.
pub record RefreshInputs : Type 0 where
  pub now : ℕ
  pub access_issued_at : ℕ
  pub access_bytes : Option Text
  pub token_bytes : Option Text
  pub outcome : Outcome

-- A refresh that was prepared: the family and the two token ids of `rotate`, and the response.
pub record Rotation : Type 0 where
  pub family_id : Text
  pub token_id : Text
  pub next_claims : RefreshTokenClaims
  pub response : TokenResponse

module _ (service : Service) where
  open service use {server, urls}
  open server use {crypto, settings}
  open settings use {resource, signing_key}

  -- What `exchange_authorization_code` takes from a request before the code is consumed.
  unfoldable pub check_code_request : TokenRequest → Option Text → Result OAuthError (CheckedCode)
  check_code_request request header = do
    code ← ok_or request.code invalid_grant
    redirect_uri ← ok_or request.redirect_uri invalid_grant
    verifier ← ok_or request.code_verifier invalid_grant
    reject_if
        (ltb max_form_value_length (byte_len code)
          || ltb 128 (byte_len verifier)
          || ltb max_form_value_length (byte_len redirect_uri)
          || not (text_eq request.resource resource))
        invalid_grant
    client ←
        authenticate_client crypto signing_key urls.parse_url service.client_json request header
    ok (record { code = code; redirect_uri = redirect_uri; verifier = verifier; client = client })

  -- The conditions under which a stored code is refused after it was consumed.
  unfoldable pub code_refused :
      AuthorizationCode → CheckedCode → (resource' : Text) (now : ℕ) → Bool
  code_refused stored checked resource' now =
      leb stored.expires_at now
      || not (text_eq stored.client_id checked.client.client_id)
      || not (text_eq stored.redirect_uri checked.redirect_uri)
      || not (text_eq stored.resource resource')
      || not (verify_pkce crypto checked.verifier stored.code_challenge)

  -- The code has been removed from the state that this starts in.
  unfoldable pub redeem :
      AuthorizationCode
      → CheckedCode
      → (resource' : Text) (now : ℕ) → PairInputs
      → OAuthState
      → Result OAuthError TokenResponse × OAuthState
  redeem stored checked resource' now inputs state =
      if code_refused stored checked resource' now
      then (err invalid_grant, state)
      else (let (response, store) =
            issue_token_pair server stored.scopes stored.resource checked.client.client_id inputs
              state.refresh_tokens in
          (response, record state { refresh_tokens = store }))

  unfoldable pub consume :
      CheckedCode
      → (resource' : Text) (now : ℕ) → PairInputs
      → OAuthState
      → Result OAuthError TokenResponse × OAuthState
  consume checked resource' now inputs state =
      let code_hash = token_hash crypto signing_key checked.code in
      elim (HashMap.get state.authorization_codes code_hash) [
        | none ↦ (err invalid_grant, state)
        | some stored ↦ redeem stored checked resource' now inputs (record state {
          authorization_codes = HashMap.remove state.authorization_codes code_hash;
        })
      ]

  unfoldable pub exchange_authorization_code :
      TokenRequest
      → Option Text
      → (now : ℕ) → PairInputs
      → OAuthState
      → Result OAuthError TokenResponse × OAuthState
  exchange_authorization_code request header now inputs state =
      elim (check_code_request request header) [
        | err e ↦ (err e, state)
        | ok checked ↦ consume checked request.resource now inputs state
      ]

  -- The conditions under which verified claims of a refresh token are refused.
  unfoldable pub refresh_refused : RefreshTokenClaims → RegisteredClient → (now : ℕ) → Bool
  refresh_refused claims client now =
      not (claims.version == token_claims_version)
      || not (Scopes.is_valid claims.scopes)
      || not (text_eq claims.audience resource)
      || leb claims.expires_at now
      || not (
          constant_time_equal crypto.subtle claims.client_binding
            (client_binding crypto signing_key client.client_id))

  -- The scopes that a refresh asks for, or all that it may have.
  unfoldable pub refresh_scopes : Option Text → ScopeGrant → Result OAuthError ScopeGrant
  refresh_scopes none granted = ok granted
  refresh_scopes (some scope) granted = Scopes.parse scope

  -- The new tokens, before the old one is replaced.
  unfoldable pub next_tokens :
      RefreshTokenClaims
      → RegisteredClient
      → ScopeGrant
      → RefreshInputs
      → Result OAuthError Rotation
  next_tokens claims client scopes inputs = do
    access ←
        issue_access_token server scopes resource claims.family_id inputs.access_issued_at
          inputs.access_bytes
    next_token_id ← random_value crypto (text "rti_") inputs.token_bytes
    let next_claims =
        refresh_claims server claims.family_id next_token_id client.client_id scopes resource
          inputs.now
    next_refresh_token ← sign_refresh_token server next_claims
    ok (record {
      family_id = claims.family_id;
      token_id = claims.token_id;
      next_claims = next_claims;
      response = record {
        access_token = access.0;
        refresh_token = next_refresh_token;
        token_type = text "Bearer";
        expires_in = access.1;
        scope = Scopes.as_string scopes;
      };
    })

  unfoldable pub check_claims :
      TokenRequest
      → RegisteredClient
      → RefreshTokenClaims
      → RefreshInputs
      → Result OAuthError Rotation
  check_claims request client claims inputs = do
    reject_if (refresh_refused claims client inputs.now) invalid_grant
    scopes ← refresh_scopes request.scope claims.scopes
    reject_if (not (Scopes.allows claims.scopes scopes)) invalid_scope
    next_tokens claims client scopes inputs

  -- All of `exchange_refresh_token` before the call of `rotate`.
  unfoldable pub prepare_refresh :
      TokenRequest → Option Text → RefreshInputs → Result OAuthError Rotation
  prepare_refresh request header inputs = do
    refresh_token ← ok_or request.refresh_token invalid_grant
    reject_if
        (ltb max_form_value_length (byte_len refresh_token)
          || not (text_eq request.resource resource))
        invalid_grant
    client ←
        authenticate_client crypto signing_key urls.parse_url service.client_json request header
    claims ←
        map_err
          (verify_token crypto signing_key server.refresh_json refresh_token_prefix
            refresh_token_label refresh_token)
          invalid_grant
    check_claims request client claims inputs

  unfoldable pub rotate_prepared :
      Rotation → RefreshInputs → OAuthState → Result OAuthError TokenResponse × OAuthState
  rotate_prepared r inputs state =
      let (done, store) =
        rotate server.state_json crypto.subtle inputs.outcome r.family_id
          (refresh_token_id_hash crypto signing_key r.token_id)
          (refresh_token_id_hash crypto signing_key r.next_claims.token_id) r.next_claims.expires_at
          inputs.now state.refresh_tokens in
      (done >> ok r.response, record state { refresh_tokens = store })

  unfoldable pub exchange_refresh_token :
      TokenRequest
      → Option Text
      → RefreshInputs
      → OAuthState
      → Result OAuthError TokenResponse × OAuthState
  exchange_refresh_token request header inputs state =
      elim (prepare_refresh request header inputs) [
        | err e ↦ (err e, state)
        | ok prepared ↦ rotate_prepared prepared inputs state
      ]

  unfoldable pub exchange_token :
      TokenRequest
      → Option Text
      → (now : ℕ) → PairInputs
      → RefreshInputs
      → OAuthState
      → Result OAuthError TokenResponse × OAuthState
  exchange_token request header now pair_inputs refresh_inputs state =
      if text_eq request.grant_type (text "authorization_code")
      then exchange_authorization_code request header now pair_inputs state
      else if text_eq request.grant_type (text "refresh_token")
      then exchange_refresh_token request header refresh_inputs state
      else (err invalid_grant, state)
