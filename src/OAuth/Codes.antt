-- ===== src/OAuth/Codes.antt =====
-- The approval of an authorization request in src/oauth.rs: `complete_authorization`. The readings
-- of the clock and the random bytes are arguments of a call, one for each place that asks.
pub mod Approve
use engram_mcp.Common.{
  ℕ, Bool, true, false, not, ◌&&◌, ◌||◌, Option, none, some, List, [], ◌∷◌, ◌++◌, Text, text,
  text_eq, byte_len, ltb, leb, if◌then◌else◌, Result, ok, err, ◌>>=◌, ◌>>◌, reject_if, ok_or,
  map_err,
}
use engram_mcp.HashMap
use engram_mcp.HashMap.{HashMap, text_key}
use engram_mcp.TextSet
use engram_mcp.OAuth.Error.{
  OAuthError, invalid_authorization_request, invalid_grant, invalid_request, invalid_owner,
  invalid_scope,
}
use engram_mcp.OAuth.Crates.{Json, Crypto, constant_time_equal}
use engram_mcp.OAuth.Scopes
use engram_mcp.OAuth.Scopes.{ScopeGrant}
use engram_mcp.OAuth.Signing.{
  saturating_add, approval_request_label, token_hash, verify, random_value,
}
use engram_mcp.OAuth.Families.{RefreshTokenStore}
use engram_mcp.OAuth.Tokens.{
  OAuthSettings, Server, TokenResponse, PairInputs, max_form_value_length, issue_token_pair,
}
use engram_mcp.OAuth.Clients.{Url, ClientIdPayload, RegisteredClient, client_from_id}
use engram_mcp.OAuth.TokenClient.{TokenRequest, authenticate_client}
use engram_mcp.OAuth.Pkce.{verify_pkce}

pub record SignedApprovalRequest : Type 0 where
  pub client_id : Text
  pub redirect_uri : Text
  pub requested_scopes : ScopeGrant
  pub state : Option Text
  pub resource : Text
  pub code_challenge : Text
  pub expires_at : ℕ

pub record AuthorizationCode : Type 0 where
  pub client_id : Text
  pub redirect_uri : Text
  pub scopes : ScopeGrant
  pub resource : Text
  pub code_challenge : Text
  pub expires_at : ℕ

pub record ApprovalForm : Type 0 where
  pub request : Text
  pub owner_secret : Text
  pub decision : Text
  pub scope : Text

pub data AuthorizationRedirect : Type 0 where
  approved denied : Text → AuthorizationRedirect

-- What of `OAuthState` changes.
pub record OAuthState : Type 0 where
  pub authorization_codes : HashMap Text AuthorizationCode
  pub refresh_tokens : RefreshTokenStore

-- The crate `url`: parsing, and the URL with pairs appended to its query.
pub record Urls : Type 0 where
  pub parse_url : Text → Option Url
  pub with_pairs : Url → List (Text × Text) → Text

-- What the service uses beside the bearer authenticator.
pub record Service : Type 0 where
  pub server : Server
  pub urls : Urls
  pub client_json : Json ClientIdPayload
  pub approval_json : Json SignedApprovalRequest

-- What `complete_authorization` reads from its environment: the clock at the check, for each record
-- that may be dropped, and for the new record, and the random bytes of the code.
pub record ApprovalInputs : Type 0 where
  pub checked_at : ℕ
  pub dropped_at : AuthorizationCode → ℕ
  pub approved_at : ℕ
  pub code_bytes : Option Text

abbrev pub optional_pair : Text → Option Text → List (Text × Text)
optional_pair name none = []
optional_pair name (some value) = (name, value) ∷ []

module _ (service : Service) where
  open service use {server, urls}
  open server use {crypto, settings}
  open settings use {issuer, resource, owner_secret, signing_key, authorization_code_ttl_seconds}

  unfoldable pub find_client : Text → Result OAuthError RegisteredClient
  find_client client_id =
      client_from_id crypto signing_key urls.parse_url service.client_json client_id

  unfoldable pub redirect_url :
      (redirect_uri : Text) (state code error : Option Text) → Result OAuthError Text
  redirect_url redirect_uri state code error = do
    url ← ok_or (urls.parse_url redirect_uri) invalid_authorization_request
    ok (
        urls.with_pairs url (
          (text "iss", issuer)
          ∷ (optional_pair (text "state") state
              ++ (optional_pair (text "code") code ++ optional_pair (text "error") error))))

  -- The checks of `complete_authorization` up to the decision.
  unfoldable pub check_form :
      ApprovalForm → (now : ℕ) → Result OAuthError (SignedApprovalRequest × RegisteredClient)
  check_form form now = do
    reject_if
        (ltb max_form_value_length (byte_len form.request)
          || ltb max_form_value_length (byte_len form.owner_secret)
          || ltb 256 (byte_len form.scope))
        invalid_request
    request ← verify crypto signing_key service.approval_json approval_request_label form.request
    reject_if (leb request.expires_at now) invalid_request
    client ← find_client request.client_id
    reject_if
        (not (TextSet.contains client.redirect_uris request.redirect_uri)
          || not (Scopes.allows client.scopes request.requested_scopes)
          || not (text_eq request.resource resource))
        invalid_authorization_request
    ok (request, client)

  -- The owner's secret and the scopes of an approval.
  unfoldable pub granted_scopes :
      ApprovalForm → SignedApprovalRequest → RegisteredClient → Result OAuthError ScopeGrant
  granted_scopes form request client = do
    reject_if
        (not (text_eq form.decision (text "approve"))
          || not (constant_time_equal crypto.subtle form.owner_secret owner_secret))
        invalid_owner
    granted ← Scopes.parse form.scope
    reject_if
        (not (Scopes.is_subset_of granted request.requested_scopes)
          || not (Scopes.allows client.scopes granted))
        invalid_scope
    ok granted

  unfoldable pub code_record : SignedApprovalRequest → ScopeGrant → ℕ → AuthorizationCode
  code_record request granted now = record {
    client_id = request.client_id;
    redirect_uri = request.redirect_uri;
    scopes = granted;
    resource = request.resource;
    code_challenge = request.code_challenge;
    expires_at = saturating_add now authorization_code_ttl_seconds;
  }

  unfoldable pub store_code :
      (AuthorizationCode → ℕ) → Text → AuthorizationCode → OAuthState → OAuthState
  store_code dropped_at code_hash code state = record state {
    authorization_codes =
        HashMap.insert
          (HashMap.retain (λ (r : AuthorizationCode). ltb (dropped_at r) r.expires_at)
            state.authorization_codes)
          code_hash code;
  }

  -- The code that an approval gives out, and its record.
  unfoldable pub grant_code :
      ApprovalForm
      → ApprovalInputs
      → SignedApprovalRequest × RegisteredClient
      → Result OAuthError (Text × AuthorizationCode)
  grant_code form inputs (request, client) = do
    granted ← granted_scopes form request client
    code ← random_value crypto (text "ac_") inputs.code_bytes
    ok (code, code_record request granted inputs.approved_at)

  unfoldable pub approve :
      ApprovalForm
      → ApprovalInputs
      → SignedApprovalRequest × RegisteredClient
      → OAuthState
      → Result OAuthError AuthorizationRedirect × OAuthState
  approve form inputs checked state = elim (grant_code form inputs checked) [
    | err e ↦ (err e, state)
    | ok (code, code_of) ↦ (
      redirect_url checked.0.redirect_uri checked.0.state (some code) none >>= λ location.
          ok (approved location),
      store_code inputs.dropped_at (token_hash crypto signing_key code) code_of state,
    )
  ]

  unfoldable pub decide :
      ApprovalForm
      → ApprovalInputs
      → SignedApprovalRequest × RegisteredClient
      → OAuthState
      → Result OAuthError AuthorizationRedirect × OAuthState
  decide form inputs checked state =
      if text_eq form.decision (text "deny")
      then (
        redirect_url checked.0.redirect_uri checked.0.state none (some (text "access_denied"))
            >>= λ location. ok (denied location),
        state,
      )
      else approve form inputs checked state

  unfoldable pub complete_authorization :
      ApprovalForm
      → ApprovalInputs
      → OAuthState
      → Result OAuthError AuthorizationRedirect × OAuthState
  complete_authorization form inputs state = elim (check_form form inputs.checked_at) [
    | err e ↦ (err e, state)
    | ok checked ↦ decide form inputs checked state
  ]
