-- ===== src/OAuth/Signing.antt =====
-- Keyed digests and signed values of src/oauth.rs.
pub mod Laws
use engram_mcp.Common.{
  ℕ, zero, ◌-◌, ◌+◌, ◌^◌, ◌≡◌, Bool, true, false, not, ◌&&◌, ◌||◌, Option, none, some, List, [],
  ◌∷◌, ◌++◌, Text, text, length, split_once, strip_prefix, ◌==◌, if◌then◌else◌, Result, ok, err,
  ◌>>=◌, ok_or, map_err, take, min,
}
use engram_mcp.Utf8.{as_bytes}
use engram_mcp.OAuth.Error.{OAuthError, invalid_request, entropy, internal}
use engram_mcp.OAuth.Crates.{Subtle, Json, Crypto}

-- `u64::saturating_add`.
unfoldable pub saturating_add : ℕ → ℕ → ℕ
saturating_add a b = min (a + b) (2 ^ 64 - 1)

-- The labels under which the server signs and hashes.
abbrev pub access_token_label : Text
access_token_label = text "engram-mcp/oauth/access-token/v1"

abbrev pub refresh_token_label : Text
refresh_token_label = text "engram-mcp/oauth/refresh-token/v1"

abbrev pub approval_request_label : Text
approval_request_label = text "engram-mcp/oauth/approval-request/v1"

abbrev pub dynamic_client_label : Text
dynamic_client_label = text "engram-mcp/oauth/dynamic-client/v1"

abbrev pub client_secret_label : Text
client_secret_label = text "engram-mcp/oauth/dynamic-client-secret/v1"

abbrev pub token_hash_label : Text
token_hash_label = text "engram-mcp/oauth/token-hash/v1"

abbrev pub token_id_label : Text
token_id_label = text "engram-mcp/oauth/refresh-token-id-hash/v1"

abbrev pub client_binding_label : Text
client_binding_label = text "engram-mcp/oauth/refresh-client-binding/v1"

abbrev pub fingerprint_label : Text
fingerprint_label = text "engram-mcp/oauth/audit-fingerprint/v1"

-- What `mac` feeds to the digest: the label, a zero byte and the value.
unfoldable pub mac_message : (label value : Text) → Text
mac_message label value = label ++ 0 ∷ value

module _ (crypto : Crypto) (signing_key : Text) where
  -- The label is ASCII, and the value is given as bytes.
  unfoldable pub mac : (label value : Text) → Text
  mac label value = crypto.hmac_sha256 signing_key (mac_message label value)

  unfoldable pub token_hash : Text → Text
  token_hash token = mac token_hash_label (as_bytes token)

  unfoldable pub refresh_token_id_hash : Text → Text
  refresh_token_id_hash token_id = crypto.encode (mac token_id_label (as_bytes token_id))

  unfoldable pub client_binding : Text → Text
  client_binding client_id = crypto.encode (mac client_binding_label (as_bytes client_id))

  unfoldable pub audit_fingerprint : Text → Text
  audit_fingerprint hash = take 8 (mac fingerprint_label hash)

  unfoldable pub client_secret : Text → Text
  client_secret client_id =
      text "dcs_" ++ crypto.encode (mac client_secret_label (as_bytes client_id))

  module _ {ℓ} {T : Type ℓ} (json : Json T) where
    unfoldable pub sign : Text → T → Result OAuthError Text
    sign label value = do
      payload ← ok_or (json.to_vec value) internal
      ok (crypto.encode payload ++ b'.' ∷ crypto.encode (mac label payload))

    -- The comparison of a decoded signature, and the reading of the payload.
    unfoldable pub check_signature : (label payload signature : Text) → Result OAuthError T
    check_signature label payload signature =
        let expected = mac label payload in
        if not (length signature == length expected) || not (crypto.subtle.ct_eq signature expected)
        then err invalid_request
        else ok_or (json.from_slice payload) invalid_request

    unfoldable pub verify_parts : Text → Text × Text → Result OAuthError T
    verify_parts label (encoded_payload, encoded_signature) = do
      payload ← ok_or (crypto.decode encoded_payload) invalid_request
      signature ← ok_or (crypto.decode encoded_signature) invalid_request
      check_signature label payload signature

    unfoldable pub verify : Text → Text → Result OAuthError T
    verify label value = do
      parts ← ok_or (split_once b'.' value) invalid_request
      verify_parts label parts

    unfoldable pub verify_token : (prefix label token : Text) → Result OAuthError T
    verify_token prefix label token = do
      signed ← ok_or (strip_prefix prefix token) invalid_request
      verify label signed

-- `random_value`, from the 32 bytes that the system gives, if it gives any.
unfoldable pub random_value : Crypto → Text → Option Text → Result OAuthError Text
random_value crypto prefix none = err entropy
random_value crypto prefix (some bytes) = ok (prefix ++ crypto.encode bytes)
