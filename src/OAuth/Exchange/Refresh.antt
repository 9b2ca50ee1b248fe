-- ===== src/OAuth/Exchange/Refresh.antt =====
-- Refresh tokens at the token endpoint: what a refresh proves, and what reuse of a token does.
use engram_mcp.Common.{
  none, ℕ, ◌<◌, ◌≡◌, inl, inr, true, false, Option, some, Text, text_eq, text_eq_iff, if◌then◌else◌,
  ok, Result-cases, arith,
}
use engram_mcp.HashMap.{text_key, keep_if}
use engram_mcp.OAuth.Crates.{constant_time_equal_iff}
use engram_mcp.OAuth.Scopes
use engram_mcp.OAuth.Scopes.{ScopeGrant}
use engram_mcp.OAuth.Signing.{
  refresh_token_label, client_binding, refresh_token_id_hash, verify_token,
}
use engram_mcp.OAuth.Families.{rotate, is_live}
use engram_mcp.OAuth.Families.Rotation.{family_of, IsPresented, rotate-IsPresented}
use engram_mcp.OAuth.Tokens.{
  TokenResponse, RefreshTokenClaims, refresh_token_prefix, refresh_claims, sign_refresh_token,
}
use engram_mcp.OAuth.Tokens.Issue.{IsAccessToken}
use engram_mcp.OAuth.Clients.{RegisteredClient}
use engram_mcp.OAuth.TokenClient.{TokenRequest}
use engram_mcp.OAuth.TokenClient.Laws.{IsAuthentic, authenticate_client-IsAuthentic}
use engram_mcp.OAuth.Codes.{OAuthState, Service}
use engram_mcp.OAuth.Exchange.{
  refresh_scopes, RefreshInputs, Rotation, refresh_refused, prepare_refresh, rotate_prepared,
  exchange_refresh_token,
}
use engram_mcp.OAuth.Exchange.Prepare.{next_tokens-ok, check_claims-ok, prepare_refresh-ok}

module _ (service : Service) where
  open service use {server, urls}
  open server use {crypto, settings}
  open settings use {resource, signing_key}

  -- What the answer to a refresh stands for: a token of this server for this client, of a family
  -- whose current token it was, and new tokens of the same family for scopes that it allows.
  pub record IsRefreshed (request : TokenRequest) (header : Option Text) (inputs : RefreshInputs)
      (state : OAuthState) (response : TokenResponse) (state' : OAuthState) : Type 0 where
    pub token : Text
    pub client : RegisteredClient
    pub claims : RefreshTokenClaims
    pub next_claims : RefreshTokenClaims
    pub scopes : ScopeGrant
    pub presented : request.refresh_token ≡ some token
    pub authentic :
        IsAuthentic crypto signing_key urls.parse_url service.client_json request header client
    pub verified :
        verify_token crypto signing_key server.refresh_json refresh_token_prefix refresh_token_label
          token
        ≡ ok claims
    pub unexpired : inputs.now < claims.expires_at
    pub for_resource : claims.audience ≡ resource
    pub bound : claims.client_binding ≡ client_binding crypto signing_key client.client_id
    pub asked : (scope : Text) → request.scope ≡ some scope → Scopes.parse scope ≡ ok scopes
    pub by_default : request.scope ≡ none → scopes ≡ claims.scopes
    pub allowed : Scopes.allows claims.scopes scopes ≡ true
    pub current :
        IsPresented state.refresh_tokens claims.family_id
          (refresh_token_id_hash crypto signing_key claims.token_id)
          inputs.now
    pub access :
        IsAccessToken server scopes claims.family_id inputs.access_issued_at response.access_token
    pub refresh : sign_refresh_token server next_claims ≡ ok response.refresh_token
    pub next_is :
        next_claims
        ≡ refresh_claims server claims.family_id next_claims.token_id client.client_id scopes
            resource inputs.now
    pub rotated :
        (k : Text)
        → family_of state'.refresh_tokens k ≡ (
            if text_eq claims.family_id k
            then some (record {
              active_token_hash = refresh_token_id_hash crypto signing_key next_claims.token_id;
              expires_at = next_claims.expires_at;
              revoked = false;
            })
            else keep_if (is_live inputs.now) (family_of state.refresh_tokens k))
    pub codes_kept : state'.authorization_codes ≡ state.authorization_codes

  rotate_prepared-ok :
      (r : Rotation) (inputs : RefreshInputs) (state state' : OAuthState) (response : TokenResponse)
      → rotate_prepared service r inputs state ≡ (ok response, state')
      → (rotate server.state_json crypto.subtle inputs.outcome r.family_id
            (refresh_token_id_hash crypto signing_key r.token_id)
            (refresh_token_id_hash crypto signing_key r.next_claims.token_id)
            r.next_claims.expires_at
            inputs.now
            state.refresh_tokens
          ≡ (ok tt, state'.refresh_tokens))
        × (response ≡ r.response)
        × (state'.authorization_codes ≡ state.authorization_codes)
  unfolding rotate_prepared
  rotate_prepared-ok r inputs state state' response h =
      elim (Result-cases
        (rotate server.state_json crypto.subtle inputs.outcome r.family_id
          (refresh_token_id_hash crypto signing_key r.token_id)
          (refresh_token_id_hash crypto signing_key r.next_claims.token_id) r.next_claims.expires_at
          inputs.now state.refresh_tokens).0) [
            | inr (e, he) ↦ absurd (ground arith)
            | inl (u, hu) ↦ (ground arith, ground arith, ground arith)
          ]

  refresh_refused-eq-false :
      (claims : RefreshTokenClaims) (client : RegisteredClient) (now : ℕ)
      → refresh_refused service claims client now ≡ false
      → (now < claims.expires_at)
        × (claims.audience ≡ resource)
        × (claims.client_binding ≡ client_binding crypto signing_key client.client_id)
  unfolding refresh_refused
  refresh_refused-eq-false claims client now h = ground (
    arith,
    text_eq_iff claims.audience resource,
    constant_time_equal_iff crypto.subtle claims.client_binding
        (client_binding crypto signing_key client.client_id),
  )

  refresh_scopes_lem :
      (asked : Option Text) (granted scopes : ScopeGrant)
      → refresh_scopes service asked granted ≡ ok scopes
      → ((scope : Text) → asked ≡ some scope → Scopes.parse scope ≡ ok scopes)
        × (asked ≡ none → scopes ≡ granted)
  unfolding refresh_scopes
  refresh_scopes_lem none granted scopes h = (λ scope e. cc, λ e. cc)
  refresh_scopes_lem (some s) granted scopes h =
      (λ scope e. let same : s ≡ scope = cc in rw (← same) h, λ e. cc)

  -- A refresh token is answered with tokens only if it carries this server's signature, has not
  -- expired, is for this resource and bound to the client that the request authenticates, and is
  -- the current token of a live family that is not revoked. The new tokens are of the same
  -- family, for scopes that the old ones allow, which are those that the request names, or all of
  -- the old ones when it names none; the family then has the new token as its current one, the
  -- other families are only pruned of the expired, and no authorization code changes.
  pub exchange_refresh_token-IsRefreshed :
      (request : TokenRequest) (header : Option Text) (inputs : RefreshInputs)
      (state state' : OAuthState) (response : TokenResponse)
      → exchange_refresh_token service request header inputs state ≡ (ok response, state')
      → IsRefreshed request header inputs state response state'
  unfolding exchange_refresh_token
  exchange_refresh_token-IsRefreshed request header inputs state state' response h =
      elim (Result-cases (prepare_refresh service request header inputs)) [
        | inr (e, he) ↦ absurd (ground arith)
        | inl (r, hr) ↦
            let (token, client, claims, ht, hres, hc, hv, hch) =
              prepare_refresh-ok service request header inputs r hr in
            let (accepted, (scopes, hs, allowed, hn)) =
              check_claims-ok service request client claims inputs r hch in
            let (family, id, next_is, refresh, scope_is, access) =
              next_tokens-ok service claims client scopes inputs r hn in
            let (turned, same_response, codes) =
              rotate_prepared-ok r inputs state state' response (ground arith) in
            let (unexpired, for_resource, bound) =
              refresh_refused-eq-false claims client inputs.now accepted in
            let (current, families) =
              rotate-IsPresented server.state_json crypto.subtle inputs.outcome r.family_id
                (refresh_token_id_hash crypto signing_key r.token_id)
                (refresh_token_id_hash crypto signing_key r.next_claims.token_id)
                r.next_claims.expires_at inputs.now state.refresh_tokens state'.refresh_tokens
                turned in
            record {
              token = token;
              client = client;
              claims = claims;
              next_claims = r.next_claims;
              scopes = scopes;
              presented = ht;
              authentic =
                  authenticate_client-IsAuthentic crypto signing_key urls.parse_url
                    service.client_json request header client hc;
              verified = hv;
              unexpired = unexpired;
              for_resource = for_resource;
              bound = bound;
              asked = (refresh_scopes_lem request.scope claims.scopes scopes hs).0;
              by_default = (refresh_scopes_lem request.scope claims.scopes scopes hs).1;
              allowed = allowed;
              current = rw (← family, ← id) current;
              access = rw same_response access;
              refresh = rw same_response refresh;
              next_is = next_is;
              rotated = rw (← family) families;
              codes_kept = codes;
            }
      ]
