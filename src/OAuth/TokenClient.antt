-- ===== src/OAuth/TokenClient.antt =====
-- How a client proves who it is at the token endpoint of src/oauth.rs: `TokenRequest`,
-- `parse_basic_credentials` and `authenticate_client`.
pub mod Laws
use engram_mcp.Common.{
  ℕ, Bool, true, false, not, ◌&&◌, ◌||◌, Option, none, some, Text, text, split_once, is_empty,
  eq_ignore_ascii_case, if◌then◌else◌, Result, ok, err, ◌>>=◌, ◌>>◌, reject_if, ok_or,
}
use engram_mcp.Utf8.{from_utf8}
use engram_mcp.OAuth.Error.{OAuthError, invalid_client}
use engram_mcp.OAuth.Crates.{Json, Crypto, constant_time_equal}
use engram_mcp.OAuth.Signing.{client_secret}
use engram_mcp.OAuth.Clients.{
  Url, ClientAuthenticationMethod, public, client_secret_post, client_secret_basic, ClientIdPayload,
  RegisteredClient, client_from_id,
}

pub record TokenRequest : Type 0 where
  pub grant_type : Text
  pub code : Option Text
  pub redirect_uri : Option Text
  pub client_id : Option Text
  pub client_secret : Option Text
  pub code_verifier : Option Text
  pub refresh_token : Option Text
  pub scope : Option Text
  pub resource : Text

abbrev pub is_some {ℓ} : {A : Type ℓ} → Option A → Bool
is_some none = false
is_some (some a) = true

-- `or_else` on the two decoders of base64.
unfoldable pub decode_either : Crypto → Text → Option Text
decode_either crypto encoded = elim (crypto.decode encoded) [
  | some bytes ↦ some bytes
  | none ↦ crypto.standard_decode encoded
]

unfoldable pub credentials_of : Text × Text → Result OAuthError (Text × Text)
credentials_of (client_id, secret) =
    if is_empty client_id || is_empty secret then err invalid_client else ok (client_id, secret)

unfoldable pub decode_credentials : Crypto → Text × Text → Result OAuthError (Text × Text)
decode_credentials crypto (scheme, encoded) = do
  reject_if (not (eq_ignore_ascii_case scheme (text "Basic")) || is_empty encoded) invalid_client
  bytes ← ok_or (decode_either crypto encoded) invalid_client
  decoded ← ok_or (from_utf8 bytes) invalid_client
  parts ← ok_or (split_once b':' decoded) invalid_client
  credentials_of parts

unfoldable pub parse_basic_credentials : Crypto → Text → Result OAuthError (Text × Text)
parse_basic_credentials crypto value = do
  parts ← ok_or (split_once b' ' value) invalid_client
  decode_credentials crypto parts

-- `authorization_header.map(parse_basic_credentials).transpose()`.
unfoldable pub basic_of : Crypto → Option Text → Result OAuthError (Option (Text × Text))
basic_of crypto none = ok none
basic_of crypto (some header) = do
  credentials ← parse_basic_credentials crypto header
  ok (some credentials)

-- The client identifier of the header, or else of the form.
unfoldable pub presented_id : Option (Text × Text) → Option Text → Option Text
presented_id none client_id = client_id
presented_id (some (id, secret)) client_id = some id

unfoldable pub basic_secret : Option (Text × Text) → Option Text
basic_secret none = none
basic_secret (some (id, secret)) = some secret

module _ (crypto : Crypto) (signing_key : Text) (parse_url : Text → Option Url)
    (json : Json ClientIdPayload) where
  unfoldable pub check_secret : Text → Option Text → Result OAuthError (Unit {0})
  check_secret client_id none = err invalid_client
  check_secret client_id (some secret) =
      reject_if
        (not
          (constant_time_equal crypto.subtle secret (client_secret crypto signing_key client_id)))
        invalid_client

  -- The match on the method of the client.
  unfoldable pub check_method :
      ClientAuthenticationMethod
      → Text
      → Option (Text × Text)
      → Option Text
      → Result OAuthError (Unit {0})
  check_method public client_id basic secret =
      reject_if (is_some basic || is_some secret) invalid_client
  check_method client_secret_post client_id basic secret = do
    reject_if (is_some basic) invalid_client
    check_secret client_id secret
  check_method client_secret_basic client_id basic secret =
      check_secret client_id (basic_secret basic)

  unfoldable pub authenticate_with :
      TokenRequest → Option (Text × Text) → Result OAuthError RegisteredClient
  authenticate_with request basic = do
    reject_if (is_some basic && (is_some request.client_id || is_some request.client_secret))
        invalid_client
    client_id ← ok_or (presented_id basic request.client_id) invalid_client
    client ← client_from_id crypto signing_key parse_url json client_id
    check_method client.token_endpoint_auth_method client_id basic request.client_secret
    ok client

  unfoldable pub authenticate_client :
      TokenRequest → Option Text → Result OAuthError RegisteredClient
  authenticate_client request authorization_header = do
    basic ← basic_of crypto authorization_header
    authenticate_with request basic
