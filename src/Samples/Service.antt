-- ===== src/Samples/Service.antt =====
-- A server, a registered client and a story: the owner approves a request, the client redeems the
-- code and refreshes its tokens.
use engram_mcp.Common.{Option, none, some, List, [], ◌∷◌, ◌++◌, Text, text, Result, ok, err}
use engram_mcp.HashMap
use engram_mcp.HashMap.{text_key}
use engram_mcp.OAuth.Error.{OAuthError}
use engram_mcp.OAuth.Scopes.{ScopeGrant, scope_tech, scope_private}
use engram_mcp.OAuth.Families.{RefreshTokenStore, default_state, Outcome, create_family, rotate}
use engram_mcp.OAuth.Tokens.{
  OAuthSettings, TokenResponse, PairInputs, OAuthIdentity, authenticate_bearer, issue_token_pair,
}
use engram_mcp.OAuth.Signing.{sign, verify, approval_request_label}
use engram_mcp.OAuth.Clients.{Url, RegistrationRequest, RegistrationResponse, register_client}
use engram_mcp.OAuth.TokenClient.{TokenRequest}
use engram_mcp.OAuth.Codes.{
  SignedApprovalRequest, ApprovalForm, OAuthState, Service, ApprovalInputs, complete_authorization,
}
use engram_mcp.OAuth.Authorize.{AuthorizationQuery}
use engram_mcp.OAuth.Exchange.{RefreshInputs, exchange_authorization_code, exchange_refresh_token}
use engram_mcp.Samples.Codec.{json_of}
use engram_mcp.Samples.Crates.{
  crypto, access_codec, refresh_codec, state_codec, client_codec, approval_codec,
}

abbrev pub settings : OAuthSettings
settings = record {
  issuer = text "https://e.example";
  resource = text "https://e.example/mcp";
  owner_secret = text "open sesame";
  signing_key = text "key";
  access_token_ttl_seconds = 600;
  authorization_code_ttl_seconds = 60;
  refresh_token_ttl_seconds = 86_400;
}

-- Every text is an https URL with a host, as far as these examples go.
abbrev pub parse_url : Text → Option Url
parse_url t = some (record {
  serialization = t;
  scheme = text "https";
  username = [];
  password = none;
  host_str = some (text "c.example");
  fragment = none;
})

abbrev with_pairs : Url → List (Text × Text) → Text
with_pairs url [] = url.serialization
with_pairs url ((k, v) ∷ ps) = with_pairs url ps ++ (k ++ v)

abbrev pub service : Service
service = record {
  server = record {
    crypto = crypto;
    settings = settings;
    access_json = json_of access_codec;
    refresh_json = json_of refresh_codec;
    state_json = json_of state_codec;
  };
  urls = record { parse_url = parse_url; with_pairs = with_pairs };
  client_json = json_of client_codec;
  approval_json = json_of approval_codec;
}

abbrev pub registration : RegistrationRequest
registration = record {
  redirect_uris = text "https://c.example/cb" ∷ [];
  grant_types = [];
  response_types = [];
  token_endpoint_auth_method = none;
  scope = some (text "kb:tech kb:private");
  application_type = none;
}

-- The texts of a result, or none for an error.
abbrev pub text_of {ℓ} : {A : Type ℓ} → (A → Text) → Result OAuthError A → Text
text_of f (ok a) = f a
text_of f (err e) = []

abbrev pub registered : Result OAuthError RegistrationResponse
registered =
    register_client crypto settings.signing_key parse_url service.client_json registration 10

abbrev pub client_id : Text
client_id = text_of (λ (r : RegistrationResponse). r.client_id) registered

-- Forty-three digits, and the challenge made from them.
abbrev pub verifier : Text
verifier = text "2222222222222222222222222222222222222222222"

abbrev pub approval : SignedApprovalRequest
approval = record {
  client_id = client_id;
  redirect_uri = text "https://c.example/cb";
  requested_scopes = record { scopes = scope_private ∷ scope_tech ∷ [] };
  state = none;
  resource = settings.resource;
  code_challenge = crypto.encode (crypto.sha256 verifier);
  expires_at = 300;
}

abbrev pub approval_signed : Result OAuthError Text
approval_signed =
    sign crypto settings.signing_key service.approval_json approval_request_label approval

abbrev pub form : ApprovalForm
form = record {
  request = text_of (λ t. t) approval_signed;
  owner_secret = text "open sesame";
  decision = text "approve";
  scope = text "kb:tech kb:private";
}

abbrev pub approval_inputs : ApprovalInputs
approval_inputs = record {
  checked_at = 15;
  dropped_at = λ r. 15;
  approved_at = 15;
  code_bytes = some (7 ∷ 8 ∷ 9 ∷ []);
}

abbrev pub initial : OAuthState
initial = record {
  authorization_codes = HashMap.empty;
  refresh_tokens = record {
    state = default_state;
    disk = record { state_file = none; temporary = none };
  };
}

abbrev pub approved_state : OAuthState
approved_state = (complete_authorization service form approval_inputs initial).1

-- The code of the approval, from its random bytes.
abbrev pub code : Text
code = text "ac_" ++ crypto.encode (7 ∷ 8 ∷ 9 ∷ [])

abbrev pub code_request : TokenRequest
code_request = record {
  grant_type = text "authorization_code";
  code = some code;
  redirect_uri = some (text "https://c.example/cb");
  client_id = some client_id;
  client_secret = none;
  code_verifier = some verifier;
  refresh_token = none;
  scope = none;
  resource = settings.resource;
}

abbrev pub pair_inputs : PairInputs
pair_inputs = record {
  issued_at = 20;
  family_bytes = some (1 ∷ []);
  access_issued_at = 20;
  access_bytes = some (2 ∷ []);
  token_bytes = some (3 ∷ []);
  outcome = Outcome.succeeds;
}

abbrev pub redeemed : Result OAuthError TokenResponse × OAuthState
redeemed = exchange_authorization_code service code_request none 20 pair_inputs approved_state

abbrev pub refresh_request : TokenRequest
refresh_request = record {
  grant_type = text "refresh_token";
  code = none;
  redirect_uri = none;
  client_id = some client_id;
  client_secret = none;
  code_verifier = none;
  refresh_token = some (text_of (λ (r : TokenResponse). r.refresh_token) redeemed.0);
  scope = some (text "kb:tech");
  resource = settings.resource;
}

abbrev pub refresh_inputs : RefreshInputs
refresh_inputs = record {
  now = 30;
  access_issued_at = 30;
  access_bytes = some (4 ∷ []);
  token_bytes = some (5 ∷ []);
  outcome = Outcome.succeeds;
}

abbrev pub refreshed : Result OAuthError TokenResponse × OAuthState
refreshed = exchange_refresh_token service refresh_request none refresh_inputs redeemed.1

abbrev pub access_token : Text
access_token = text_of (λ (r : TokenResponse). r.access_token) redeemed.0

abbrev pub authenticated : Result OAuthError OAuthIdentity
authenticated = authenticate_bearer service.server redeemed.1.refresh_tokens 40 access_token

-- One family: created, rotated, and then presented with its first token again.
abbrev pub created : Result OAuthError (Unit {0}) × RefreshTokenStore
created =
    create_family service.server.state_json Outcome.succeeds (text "rf_1") (text "first") 100 10
      initial.refresh_tokens

abbrev pub rotated : Result OAuthError (Unit {0}) × RefreshTokenStore
rotated =
    rotate service.server.state_json crypto.subtle Outcome.succeeds (text "rf_1") (text "first")
      (text "second") 200 20 created.1

abbrev pub reused : Result OAuthError (Unit {0}) × RefreshTokenStore
reused =
    rotate service.server.state_json crypto.subtle Outcome.succeeds (text "rf_1") (text "first")
      (text "third") 300 30 rotated.1

abbrev pub both_scopes : ScopeGrant
both_scopes = record { scopes = scope_private ∷ scope_tech ∷ [] }

abbrev pub tech_only : ScopeGrant
tech_only = record { scopes = scope_tech ∷ [] }

abbrev pub private_only : ScopeGrant
private_only = record { scopes = scope_private ∷ [] }

abbrev pub issued : Result OAuthError TokenResponse × RefreshTokenStore
issued =
    issue_token_pair service.server both_scopes settings.resource client_id pair_inputs
      initial.refresh_tokens

abbrev pub approval_verified : Result OAuthError SignedApprovalRequest
approval_verified =
    verify crypto settings.signing_key service.approval_json approval_request_label form.request

-- At the second 0 this query is the request of the story.
abbrev pub query : AuthorizationQuery
query = record {
  response_type = text "code";
  client_id = client_id;
  redirect_uri = text "https://c.example/cb";
  scope = none;
  state = none;
  resource = settings.resource;
  code_challenge = crypto.encode (crypto.sha256 verifier);
  code_challenge_method = text "S256";
}
