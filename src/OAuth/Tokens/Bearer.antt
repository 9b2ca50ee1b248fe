-- ===== src/OAuth/Tokens/Bearer.antt =====
-- Who is authenticated by a bearer token, and that a token that was issued authenticates its holder.
use engram_mcp.Common.{
  ℕ, ◌≤◌, ◌<◌, ◌≡◌, inl, inr, true, false, Text, text_eq_iff, byte_len, starts_with, Result, ok,
  err, map_err, arith, Result-cases,
}
use engram_mcp.Auth.Access.{AccessScope}
use engram_mcp.HashMap.{text_key}
use engram_mcp.OAuth.Error.{OAuthError}
use engram_mcp.OAuth.Scopes
use engram_mcp.OAuth.Scopes.{ScopeGrant}
use engram_mcp.OAuth.Signing.{access_token_label, token_hash, audit_fingerprint, verify_token}
use engram_mcp.OAuth.Families.{RefreshTokenStore, is_active}
use engram_mcp.OAuth.Tokens.{
  max_form_value_length, access_token_prefix, token_claims_version, AccessTokenClaims,
  OAuthIdentity, Server, claims_refused, authenticate_bearer,
}

pub map_err-eq-ok {ℓ} :
    {A : Type ℓ} (r : Result OAuthError A) (e : OAuthError) {a : A} → map_err r e ≡ ok a → r ≡ ok a
map_err-eq-ok (ok b) e h = cc
map_err-eq-ok (err d) e h = cc

module _ (server : Server) where
  open server use {crypto, settings}
  open settings use {resource, signing_key}

  -- What is known of a token that is accepted: it was signed by the server's key under the access
  -- label, its claims are for this resource and have not expired, and its family is active.
  pub record IsAccepted (store : RefreshTokenStore) (now : ℕ) (token : Text) (scope : AccessScope)
      : Type 0 where
    pub claims : AccessTokenClaims
    pub length_ok : byte_len token ≤ max_form_value_length
    pub signed :
        verify_token crypto signing_key server.access_json access_token_prefix access_token_label
          token
        ≡ ok claims
    pub version : claims.version ≡ token_claims_version
    pub valid_scopes : Scopes.is_valid claims.scopes ≡ true
    pub audience : claims.audience ≡ resource
    pub unexpired : now < claims.expires_at
    pub family_active : is_active claims.family_id now store ≡ true
    pub scope_is : scope ≡ Scopes.access_scope claims.scopes

  claims_accepted :
      (now : ℕ) (claims : AccessTokenClaims)
      → claims_refused server now claims ≡ false
      → (claims.version ≡ token_claims_version)
        × (Scopes.is_valid claims.scopes ≡ true)
        × (claims.audience ≡ resource)
        × (now < claims.expires_at)
  unfolding claims_refused
  claims_accepted now claims h = ground (arith, text_eq_iff claims.audience resource)

  -- A bearer token is accepted only if it has at most 8192 bytes, carries this server's signature
  -- under the access label over claims of the current version, with valid scopes, for this
  -- resource and not expired, and its family is active; the access that it gives is that of its
  -- scopes.
  pub authenticate_bearer-IsAccepted :
      (store : RefreshTokenStore) (now : ℕ) (token : Text) (identity : OAuthIdentity)
      → authenticate_bearer server store now token ≡ ok identity
      → IsAccepted store now token identity.scope
  unfolding authenticate_bearer
  authenticate_bearer-IsAccepted store now token identity h =
      elim (Result-cases (
        verify_token crypto signing_key server.access_json access_token_prefix access_token_label
          token)) [
            | inl (claims, verified) ↦
                let accepted : claims_refused server now claims ≡ false = ground arith in
                let (version, valid, audience, unexpired) = claims_accepted now claims accepted in
                record {
                  claims = claims;
                  length_ok = ground arith;
                  signed = verified;
                  version = version;
                  valid_scopes = valid;
                  audience = audience;
                  unexpired = unexpired;
                  family_active = ground arith;
                  scope_is = ground arith;
                }
            | inr (e, failed) ↦ absurd (ground arith)
          ]

  pub verify_issued :
      (store : RefreshTokenStore) (now : ℕ) (token : Text) (claims : AccessTokenClaims)
      → byte_len token ≤ max_form_value_length
      → starts_with access_token_prefix token ≡ true
      → verify_token crypto signing_key server.access_json access_token_prefix access_token_label
          token
        ≡ ok claims
      → claims_refused server now claims ≡ false
      → is_active claims.family_id now store ≡ true
      → authenticate_bearer server store now token
        ≡ ok (record {
          scope = Scopes.access_scope claims.scopes;
          credential_fingerprint =
              audit_fingerprint crypto signing_key (token_hash crypto signing_key token);
        })
  unfolding authenticate_bearer
  verify_issued store now token claims short prefixed verified accepted active = ground arith
