-- ===== src/OAuth/Authorize.antt =====
-- The start of an authorization in src/oauth.rs: `begin_authorization`.
use engram_mcp.Common.{
  ℕ, ◌≡◌, ◌≤◌, ◌<◌, ◌⊎◌, All, length, refl, inl, inr, Bool, true, false, not, ◌||◌, Option, none,
  some, Text, text, text_eq, text_eq_iff, text_eq_refl, byte_len, is_empty, ltb, Result, ok, ◌>>=◌,
  ◌>>◌, reject_if, Result-cases, arith,
}
use engram_mcp.TextSet
use engram_mcp.OAuth.Error.{OAuthError, invalid_authorization_request, invalid_scope}
use engram_mcp.OAuth.Scopes
use engram_mcp.OAuth.Scopes.{ScopeGrant, scope_tech, scope_private}
use engram_mcp.OAuth.Scopes.Laws.{allows-contains}
use engram_mcp.OAuth.Signing.{saturating_add, approval_request_label, sign}
use engram_mcp.OAuth.Signing.Laws.{verify-sign}
use engram_mcp.OAuth.Tokens.{max_form_value_length}
use engram_mcp.OAuth.Clients.{RegisteredClient, max_client_id_length}
use engram_mcp.OAuth.Pkce.{valid_code_challenge, valid_code_challenge-ok, IsUrlSafe}
use engram_mcp.OAuth.Codes.{SignedApprovalRequest, ApprovalForm, Service, find_client, check_form}
use engram_mcp.OAuth.Page.{render_approval_page}

abbrev pub approval_request_ttl_seconds : ℕ
approval_request_ttl_seconds = 300

pub record AuthorizationQuery : Type 0 where
  pub response_type : Text
  pub client_id : Text
  pub redirect_uri : Text
  pub scope : Option Text
  pub state : Option Text
  pub resource : Text
  pub code_challenge : Text
  pub code_challenge_method : Text

unfoldable pub long_state : Option Text → Bool
long_state none = false
long_state (some state) = ltb 2048 (byte_len state)

-- The scopes that a query asks for, or all that the client may have.
unfoldable pub query_scopes : Option Text → ScopeGrant → Result OAuthError ScopeGrant
query_scopes none client_scopes = ok client_scopes
query_scopes (some scope) client_scopes = Scopes.parse scope

query_scopes-asked :
    (asked : Option Text) (all_scopes scopes : ScopeGrant)
    → query_scopes asked all_scopes ≡ ok scopes
    → (scope : Text) → asked ≡ some scope
    → Scopes.parse scope ≡ ok scopes
unfolding query_scopes
query_scopes-asked none all_scopes scopes h scope e = cc
query_scopes-asked (some s) all_scopes scopes h scope e = let same : s ≡ scope = cc in rw (← same) h

query_scopes-by_default :
    (asked : Option Text) (all_scopes scopes : ScopeGrant)
    → query_scopes asked all_scopes ≡ ok scopes
    → asked ≡ none
    → scopes ≡ all_scopes
unfolding query_scopes
query_scopes-by_default none all_scopes scopes h e = cc
query_scopes-by_default (some s) all_scopes scopes h e = cc

module _ (service : Service) where
  open service use {server}
  open server use {crypto, settings}
  open settings use {resource, signing_key}

  unfoldable pub validate_authorization_query : AuthorizationQuery → Result OAuthError (Unit {0})
  validate_authorization_query query =
      reject_if
        (not (text_eq query.response_type (text "code"))
          || is_empty query.client_id
          || ltb max_client_id_length (byte_len query.client_id)
          || ltb max_form_value_length (byte_len query.redirect_uri)
          || not (text_eq query.resource resource)
          || not (text_eq query.code_challenge_method (text "S256"))
          || not (valid_code_challenge query.code_challenge)
          || long_state query.state)
        invalid_authorization_request

  -- The request that the page will carry.
  unfoldable pub approval_request :
      AuthorizationQuery → ScopeGrant → (now : ℕ) → SignedApprovalRequest
  approval_request query scopes now = record {
    client_id = query.client_id;
    redirect_uri = query.redirect_uri;
    requested_scopes = scopes;
    state = query.state;
    resource = query.resource;
    code_challenge = query.code_challenge;
    expires_at = saturating_add now approval_request_ttl_seconds;
  }

  -- All of `begin_authorization` before the request is signed.
  unfoldable pub check_query :
      AuthorizationQuery → (now : ℕ) → Result OAuthError SignedApprovalRequest
  check_query query now = do
    validate_authorization_query query
    client ← find_client service query.client_id
    reject_if (not (TextSet.contains client.redirect_uris query.redirect_uri))
        invalid_authorization_request
    scopes ← query_scopes query.scope client.scopes
    reject_if (not (Scopes.allows client.scopes scopes)) invalid_scope
    ok (approval_request query scopes now)

  unfoldable pub begin_authorization : AuthorizationQuery → (now : ℕ) → Result OAuthError Text
  begin_authorization query now = do
    request ← check_query query now
    signed ← sign crypto signing_key service.approval_json approval_request_label request
    ok (render_approval_page signed request)

  -- What a page that was shown carries.
  pub record IsBegun (query : AuthorizationQuery) (now : ℕ) (shown : Text) : Type 0 where
    pub client : RegisteredClient
    pub scopes : ScopeGrant
    pub signed : Text
    pub request : SignedApprovalRequest
    pub request_is : request ≡ record {
      client_id = query.client_id;
      redirect_uri = query.redirect_uri;
      requested_scopes = scopes;
      state = query.state;
      resource = resource;
      code_challenge = query.code_challenge;
      expires_at = saturating_add now 300;
    }
    pub registered : find_client service query.client_id ≡ ok client
    pub redirect : TextSet.contains client.redirect_uris query.redirect_uri ≡ true
    pub asked : (scope : Text) → query.scope ≡ some scope → Scopes.parse scope ≡ ok scopes
    pub by_default : query.scope ≡ none → scopes ≡ client.scopes
    pub allowed :
        (s : Text)
        → TextSet.contains scopes.scopes s ≡ true
        → (TextSet.contains client.scopes.scopes s ≡ true)
          ⊎ ((s ≡ scope_tech) × (TextSet.contains client.scopes.scopes scope_private ≡ true))
    pub for_resource : query.resource ≡ resource
    pub pkce : query.code_challenge_method ≡ text "S256"
    pub challenge : (length query.code_challenge ≡ 43) × All IsUrlSafe query.code_challenge
    pub signature :
        sign crypto signing_key service.approval_json approval_request_label request ≡ ok signed
    pub page : shown ≡ render_approval_page signed request

  approval_request_lem :
      (query : AuthorizationQuery) (scopes : ScopeGrant) (now : ℕ)
      → query.resource ≡ resource
      → approval_request query scopes now ≡ record {
        client_id = query.client_id;
        redirect_uri = query.redirect_uri;
        requested_scopes = scopes;
        state = query.state;
        resource = resource;
        code_challenge = query.code_challenge;
        expires_at = saturating_add now 300;
      }
  unfolding approval_request
  approval_request_lem query scopes now h = rw h refl

  -- An approval page is shown only for a registered client, one of its redirect URIs, this
  -- server's resource, an S256 challenge of 43 URL-safe characters, and scopes that the client
  -- has, or the tech scope beside the private one; they are those that the query names, or all of
  -- the client's when it names none. The page is rendered from the request that is signed into
  -- it, which has the query's client, redirect URI, state and challenge, those scopes, and an
  -- expiry 300 seconds later.
  pub begin_authorization-IsBegun :
      (query : AuthorizationQuery) (now : ℕ) (shown : Text)
      → begin_authorization query now ≡ ok shown
      → IsBegun query now shown
  unfolding begin_authorization check_query validate_authorization_query
  begin_authorization-IsBegun query now shown h =
      elim (Result-cases (find_client service query.client_id)) [
        | inr (e, he) ↦ absurd (ground arith)
        | inl (client, hc) ↦ elim (Result-cases (query_scopes query.scope client.scopes)) [
          | inr (e, he) ↦ absurd (ground arith)
          | inl (scopes, hq) ↦
              elim (Result-cases (
                sign crypto signing_key service.approval_json approval_request_label
                  (approval_request query scopes now))) [
                    | inr (e, he) ↦ absurd (ground arith)
                    | inl (signed, hs) ↦
                        let target : query.resource ≡ resource =
                          ground (arith, text_eq_iff query.resource resource) in
                        record {
                          client = client;
                          scopes = scopes;
                          signed = signed;
                          request = approval_request query scopes now;
                          request_is = approval_request_lem query scopes now target;
                          registered = hc;
                          redirect = ground arith;
                          asked = query_scopes-asked query.scope client.scopes scopes hq;
                          by_default = query_scopes-by_default query.scope client.scopes scopes hq;
                          allowed = λ s. allows-contains client.scopes scopes s (ground arith);
                          for_resource = target;
                          pkce =
                              ground (arith, text_eq_iff query.code_challenge_method (text "S256"));
                          challenge = valid_code_challenge-ok query.code_challenge (ground arith);
                          signature = hs;
                          page = ground arith;
                        }
                  ]
        ]
      ]

  check_query-ok :
      (query : AuthorizationQuery) (now : ℕ) (request : SignedApprovalRequest)
      → check_query query now ≡ ok request
      → (client : RegisteredClient) × (find_client service request.client_id ≡ ok client)
        × (TextSet.contains client.redirect_uris request.redirect_uri ≡ true)
        × (Scopes.allows client.scopes request.requested_scopes ≡ true)
        × (request.resource ≡ resource)
        × (request.expires_at ≡ saturating_add now approval_request_ttl_seconds)
  unfolding check_query validate_authorization_query approval_request
  check_query-ok query now request h = elim (Result-cases (find_client service query.client_id)) [
    | inr (e, he) ↦ absurd (ground arith)
    | inl (client, hc) ↦ elim (Result-cases (query_scopes query.scope client.scopes)) [
      | inr (e, he) ↦ absurd (ground arith)
      | inl (scopes, hq) ↦ (
        client,
        ground arith,
        ground arith,
        ground arith,
        ground (arith, text_eq_iff query.resource resource),
        ground arith,
      )
    ]
  ]

  -- The request that an authorization query led to, signed into the form that is sent back before
  -- it expires, with a form, a secret and a scope within their length limits, passes the checks
  -- of the approval with the same request and its registered client.
  pub check_form-check_query :
      (query : AuthorizationQuery) (now now' : ℕ) (request : SignedApprovalRequest)
      (form : ApprovalForm)
      → check_query query now ≡ ok request
      → sign crypto signing_key service.approval_json approval_request_label request
        ≡ ok form.request
      → byte_len form.request ≤ max_form_value_length
      → byte_len form.owner_secret ≤ max_form_value_length
      → byte_len form.scope ≤ 256
      → now' < saturating_add now approval_request_ttl_seconds
      → (client : RegisteredClient) × (find_client service request.client_id ≡ ok client)
        × (check_form service form now' ≡ ok (request, client))
  unfolding check_form
  check_form-check_query query now now' request form h signed short secret scope fresh =
      let (client, found, redirect, allowed, target, expiry) = check_query-ok query now request h in
      (
        client,
        found,
        ground (
          arith,
          verify-sign crypto signing_key service.approval_json approval_request_label form.request
              request signed,
          text_eq_refl resource,
        ),
      )
