-- ===== src/OAuth/Clients.antt =====
-- Dynamic client registration and client authentication of src/oauth.rs.
pub mod Registration
use engram_mcp.Common.{
  ℕ, ◌+◌, Bool, true, false, not, ◌&&◌, ◌||◌, Option, none, some, List, [], ◌∷◌, ◌++◌, Text, text,
  text_eq, byte_len, strip_prefix, split_once, is_empty, length, all, any, eq_ignore_ascii_case,
  ltb, ◌==◌, if◌then◌else◌, Result, ok, err, ◌>>=◌, ◌>>◌, reject_if, ok_or, map_err,
}
use engram_mcp.TextSet
use engram_mcp.TextSet.{TextSet}
use engram_mcp.Utf8.{from_utf8}
use engram_mcp.OAuth.Error.{OAuthError, invalid_client}
use engram_mcp.OAuth.Crates.{Json, Crypto, constant_time_equal}
use engram_mcp.OAuth.Scopes
use engram_mcp.OAuth.Scopes.{ScopeGrant}
use engram_mcp.OAuth.Signing.{dynamic_client_label, client_secret, sign, verify}

abbrev pub max_redirect_uris : ℕ
max_redirect_uris = 8

abbrev pub max_client_id_length : ℕ
max_client_id_length = 8192

-- What the crate `url` finds in a URL.
pub record Url : Type 0 where
  pub serialization : Text
  pub scheme : Text
  pub username : Text
  pub password : Option Text
  pub host_str : Option Text
  pub fragment : Option Text

pub data ClientAuthenticationMethod : Type 0 where
  public client_secret_post client_secret_basic : ClientAuthenticationMethod

unfoldable pub method_or : Option Text → Text
method_or none = text "none"
method_or (some value) = value

-- `ClientAuthenticationMethod::parse`; `public` is the source's `None`.
unfoldable pub parse_method : Option Text → Result OAuthError ClientAuthenticationMethod
parse_method value =
    if text_eq (method_or value) (text "none")
    then ok public
    else if text_eq (method_or value) (text "client_secret_post")
    then ok client_secret_post
    else if text_eq (method_or value) (text "client_secret_basic")
    then ok client_secret_basic
    else err invalid_client

unfoldable pub method_as_str : ClientAuthenticationMethod → Text
method_as_str public = text "none"
method_as_str client_secret_post = text "client_secret_post"
method_as_str client_secret_basic = text "client_secret_basic"

pub record RegistrationRequest : Type 0 where
  pub redirect_uris : List Text
  pub grant_types : List Text
  pub response_types : List Text
  pub token_endpoint_auth_method : Option Text
  pub scope : Option Text
  pub application_type : Option Text

pub record RegistrationResponse : Type 0 where
  pub client_id : Text
  pub client_id_issued_at : ℕ
  pub client_secret : Option Text
  pub client_secret_expires_at : Option ℕ
  pub redirect_uris : List Text
  pub grant_types : List Text
  pub response_types : List Text
  pub token_endpoint_auth_method : Text
  pub scope : Text

pub record ClientIdPayload : Type 0 where
  pub version : ℕ
  pub redirect_uris : List Text
  pub token_endpoint_auth_method : ClientAuthenticationMethod
  pub scopes : ScopeGrant
  pub issued_at : ℕ

pub record RegisteredClient : Type 0 where
  pub client_id : Text
  pub redirect_uris : TextSet
  pub token_endpoint_auth_method : ClientAuthenticationMethod
  pub scopes : ScopeGrant

abbrev is_some {ℓ} : {A : Type ℓ} → Option A → Bool
is_some none = false
is_some (some a) = true

unfoldable pub is_local_host : Option Text → Bool
is_local_host none = false
is_local_host (some host) =
    text_eq host (text "localhost") || text_eq host (text "127.0.0.1") || text_eq host (text "::1")

module _ (parse_url : Text → Option Url) where
  unfoldable pub check_url : Url → Text → Result OAuthError (Unit {0})
  check_url uri application_type =
      if is_some uri.fragment || not (is_empty uri.username) || is_some uri.password
      then err invalid_client
      else if text_eq uri.scheme (text "https") && is_some uri.host_str
      then ok tt
      else if text_eq application_type (text "native")
          && text_eq uri.scheme (text "http")
          && is_local_host uri.host_str
      then ok tt
      else err invalid_client

  unfoldable pub validate_redirect_uri : Text → Text → Result OAuthError (Unit {0})
  validate_redirect_uri value application_type = do
    reject_if (ltb 2048 (byte_len value)) invalid_client
    uri ← ok_or (parse_url value) invalid_client
    check_url uri application_type

  -- `or_else`.
  unfoldable pub validate_either : Text → Result OAuthError (Unit {0})
  validate_either value = elim (validate_redirect_uri value (text "native")) [
    | ok u ↦ ok u
    | err e ↦ validate_redirect_uri value (text "web")
  ]

-- The redirect URIs that all pass a check, collected into a set.
unfoldable pub collect_uris :
    (Text → Result OAuthError (Unit {0})) → List Text → Result OAuthError TextSet
collect_uris check [] = ok []
collect_uris check (uri ∷ uris) = do
  check uri
  rest ← collect_uris check uris
  ok (TextSet.insert uri rest)

unfoldable pub grant_types_refused : List Text → Bool
grant_types_refused grants =
    not (is_empty grants)
    && (not (any (λ grant. text_eq grant (text "authorization_code")) grants)
        || any
            (λ grant.
              not (text_eq grant (text "authorization_code"))
              && not (text_eq grant (text "refresh_token")))
            grants)

unfoldable pub response_types_refused : List Text → Bool
response_types_refused [] = false
response_types_refused (r ∷ []) = not (text_eq r (text "code"))
response_types_refused (r ∷ r' ∷ rs) = true

unfoldable pub application_type_or : Option Text → Text
application_type_or none = text "web"
application_type_or (some value) = value

unfoldable pub registered_scopes : Option Text → ScopeGrant
registered_scopes none = Scopes.default_for_new_client
registered_scopes (some value) = Scopes.parse_lenient value

module _ (crypto : Crypto) (signing_key : Text) (parse_url : Text → Option Url)
    (json : Json ClientIdPayload) where
  unfoldable pub secret_for : ClientAuthenticationMethod → Text → Option Text
  secret_for public client_id = none
  secret_for client_secret_post client_id = some (client_secret crypto signing_key client_id)
  secret_for client_secret_basic client_id = some (client_secret crypto signing_key client_id)

  unfoldable pub secret_expiry : ClientAuthenticationMethod → Option ℕ
  secret_expiry public = none
  secret_expiry client_secret_post = some 0
  secret_expiry client_secret_basic = some 0

  unfoldable pub registration_response :
      Text → TextSet → ClientAuthenticationMethod → ScopeGrant → ℕ → RegistrationResponse
  registration_response client_id redirect_uris method scopes issued_at = record {
    client_id = client_id;
    client_id_issued_at = issued_at;
    client_secret = secret_for method client_id;
    client_secret_expires_at = secret_expiry method;
    redirect_uris = redirect_uris;
    grant_types = text "authorization_code" ∷ text "refresh_token" ∷ [];
    response_types = text "code" ∷ [];
    token_endpoint_auth_method = method_as_str method;
    scope = Scopes.as_string scopes;
  }

  unfoldable pub register_client :
      RegistrationRequest → (now : ℕ) → Result OAuthError RegistrationResponse
  register_client request now = do
    reject_if
        (is_empty request.redirect_uris || ltb max_redirect_uris (length request.redirect_uris))
        invalid_client
    reject_if (grant_types_refused request.grant_types) invalid_client
    reject_if (response_types_refused request.response_types) invalid_client
    method ← parse_method request.token_endpoint_auth_method
    let application_type = application_type_or request.application_type
    reject_if
        (not (text_eq application_type (text "web"))
          && not (text_eq application_type (text "native")))
        invalid_client
    redirect_uris ←
        collect_uris (λ uri. validate_redirect_uri parse_url uri application_type)
          request.redirect_uris
    reject_if (not (length redirect_uris == length request.redirect_uris)) invalid_client
    let scopes = registered_scopes request.scope
    signed ← sign crypto signing_key json dynamic_client_label (record {
      version = 1;
      redirect_uris = redirect_uris;
      token_endpoint_auth_method = method;
      scopes = scopes;
      issued_at = now;
    })
    ok (registration_response (text "dcr." ++ signed) redirect_uris method scopes now)

  -- The checks of `client_from_id` on a payload whose signature holds.
  unfoldable pub client_of_payload : Text → ClientIdPayload → Result OAuthError RegisteredClient
  client_of_payload client_id payload = do
    reject_if
        (not (payload.version == 1)
          || is_empty payload.redirect_uris
          || ltb max_redirect_uris (length payload.redirect_uris))
        invalid_client
    redirect_uris ← collect_uris (validate_either parse_url) payload.redirect_uris
    reject_if (not (length redirect_uris == length payload.redirect_uris)) invalid_client
    ok (record {
      client_id = client_id;
      redirect_uris = redirect_uris;
      token_endpoint_auth_method = payload.token_endpoint_auth_method;
      scopes = payload.scopes;
    })

  unfoldable pub client_from_id : Text → Result OAuthError RegisteredClient
  client_from_id client_id = do
    reject_if (ltb max_client_id_length (byte_len client_id)) invalid_client
    encoded ← ok_or (strip_prefix (text "dcr.") client_id) invalid_client
    payload ← map_err (verify crypto signing_key json dynamic_client_label encoded) invalid_client
    client_of_payload client_id payload
