-- ===== src/Auth/Keys.antt =====
-- `Authenticator` of src/auth.rs: API keys and bearer tokens.
pub mod Laws
use engram_mcp.Common.{
  ℕ, ◌+◌, ◌/◌, ◌%◌, Bool, true, false, not, ◌||◌, Option, none, some, List, [], ◌∷◌, ◌++◌, Text,
  text, take, any, is_empty, is_whitespace, split_once, eq_ignore_ascii_case, ltb, if◌then◌else◌,
  Result, ok, err, ◌>>=◌, ◌>>◌, reject_if, ok_or, map_err,
}
use engram_mcp.Utf8.{as_bytes}
use engram_mcp.Auth.Access.{AccessScope, tech, private}
use engram_mcp.OAuth.Error.{OAuthError}
use engram_mcp.OAuth.Crates.{Crypto, constant_time_equal}
use engram_mcp.OAuth.Families.{RefreshTokenStore}
use engram_mcp.OAuth.Tokens.{Server, OAuthIdentity, authenticate_bearer}

-- The eight bytes of `o_auth` identify an issued token.
pub data CredentialId : Type 0 where
  key_a key_b : CredentialId
  o_auth : (fingerprint : Text) → CredentialId

pub record AuthSubject : Type 0 where
  pub credential_id : CredentialId
  pub scope : AccessScope

pub data AuthError : Type 0 where
  missing invalid : AuthError

pub record ApiKeyAuthenticator : Type 0 where
  pub key_a_bytes : Text
  pub key_b_bytes : Text
  pub fingerprint_a : Text
  pub fingerprint_b : Text

-- `OAuthBearerAuthenticator` as it stands at a call.
pub record Bearer : Type 0 where
  pub server : Server
  pub store : RefreshTokenStore

pub record Authenticator : Type 0 where
  pub api_keys : ApiKeyAuthenticator
  pub oauth : Option Bearer

-- The values of the two headers that are read, as bytes, and `HeaderValue::to_str` of the crate
-- `http`.
pub record Headers : Type 0 where
  pub authorization : Option Text
  pub x_api_key : Option Text
  pub to_str : Text → Option Text

-- `{byte:02x}`.
abbrev pub hex_digit : ℕ → ℕ
hex_digit n = if ltb n 10 then b'0' + n else 87 + n

unfoldable pub hex_prefix : (bytes : Text) → Text
hex_prefix [] = []
hex_prefix (byte ∷ bytes) = hex_digit (byte / 16) ∷ hex_digit (byte % 16) ∷ hex_prefix bytes

abbrev pub audit_salt_label : Text
audit_salt_label = text "engram-mcp/audit-salt/v1"

module _ (crypto : Crypto) where
  unfoldable pub derive_audit_salt : Text → Text
  derive_audit_salt key = crypto.hmac_sha256 key (as_bytes audit_salt_label)

  unfoldable pub fingerprint : (audit_salt credential : Text) → Text
  fingerprint audit_salt credential = hex_prefix (take 8 (crypto.hmac_sha256 audit_salt credential))

  -- `Authenticator::new` and `Authenticator::with_oauth`.
  unfoldable pub new : (first second : Text) → Authenticator
  new first second =
      let audit_salt = derive_audit_salt first in
      record {
        api_keys = record {
          key_a_bytes = first;
          key_b_bytes = second;
          fingerprint_a = fingerprint audit_salt first;
          fingerprint_b = fingerprint audit_salt second;
        };
        oauth = none;
      }

  unfoldable pub with_oauth : (first second : Text) → Bearer → Authenticator
  with_oauth first second oauth = record (new first second) { oauth = some oauth }

  unfoldable pub authenticate_key :
      Authenticator → (candidate : Text) → Result AuthError AuthSubject
  authenticate_key auth candidate =
      if constant_time_equal crypto.subtle (as_bytes candidate) auth.api_keys.key_a_bytes
      then ok (record { credential_id = key_a; scope = tech })
      else if constant_time_equal crypto.subtle (as_bytes candidate) auth.api_keys.key_b_bytes
      then ok (record { credential_id = key_b; scope = private })
      else err invalid

  unfoldable pub authenticate_api_key_headers :
      Authenticator → Headers → Result AuthError AuthSubject
  authenticate_api_key_headers auth headers = do
    bytes ← ok_or headers.x_api_key missing
    value ← ok_or (headers.to_str bytes) invalid
    authenticate_key auth value

  unfoldable pub token_refused : (scheme token : Text) → Bool
  token_refused scheme token =
      not (eq_ignore_ascii_case scheme (text "Bearer")) || is_empty token || any is_whitespace token

  unfoldable pub authenticate_authorization :
      Authenticator → (now : ℕ) → Headers → (bytes : Text) → Result AuthError AuthSubject
  authenticate_authorization auth now headers bytes = do
    value ← ok_or (headers.to_str bytes) invalid
    parts ← ok_or (split_once b' ' value) invalid
    reject_if (token_refused parts.0 parts.1) invalid
    bearer ← ok_or auth.oauth invalid
    identity ← map_err (authenticate_bearer bearer.server bearer.store now parts.1) invalid
    ok (record { credential_id = o_auth identity.credential_fingerprint; scope = identity.scope })

  unfoldable pub authenticate_headers :
      Authenticator → (now : ℕ) → Headers → Result AuthError AuthSubject
  authenticate_headers auth now headers = elim headers.authorization [
    | none ↦ authenticate_api_key_headers auth headers
    | some bytes ↦ authenticate_authorization auth now headers bytes
  ]

-- `Authenticator::fingerprint`: what the audit log names a credential by.
unfoldable pub credential_fingerprint : Authenticator → CredentialId → Text
credential_fingerprint auth key_a = auth.api_keys.fingerprint_a
credential_fingerprint auth key_b = auth.api_keys.fingerprint_b
credential_fingerprint auth (o_auth fingerprint) = hex_prefix fingerprint
