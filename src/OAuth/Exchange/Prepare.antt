-- ===== src/OAuth/Exchange/Prepare.antt =====
-- The preparation of a refresh: prepare_refresh, check_claims and next_tokens.
use engram_mcp.Common.{
  ℕ, ◌≡◌, inl, inr, ap, sym, ◌∙◌, true, false, Option, some, Text, text, text_eq_iff, ok,
  Result-cases, Option-cases, Bool-cases, arith,
}
use engram_mcp.HashMap.{text_key}
use engram_mcp.OAuth.Scopes
use engram_mcp.OAuth.Scopes.{ScopeGrant}
use engram_mcp.OAuth.Signing.{refresh_token_label, verify_token, random_value}
use engram_mcp.OAuth.Tokens.{
  RefreshTokenClaims, refresh_token_prefix, issue_access_token, refresh_claims, sign_refresh_token,
}
use engram_mcp.OAuth.Tokens.Issue.{IsAccessToken, issue_access_token-IsAccessToken}
use engram_mcp.OAuth.Clients.{RegisteredClient}
use engram_mcp.OAuth.TokenClient.{TokenRequest, authenticate_client}
use engram_mcp.OAuth.Codes.{Service}
use engram_mcp.OAuth.Exchange.{
  RefreshInputs, Rotation, refresh_refused, refresh_scopes, next_tokens, check_claims,
  prepare_refresh,
}

module _ (service : Service) where
  open service use {server, urls}
  open server use {crypto, settings}
  open settings use {resource, signing_key}

  refresh_claims_own_id :
      (claims : RefreshTokenClaims) (family_id id client_id audience : Text) (scopes : ScopeGrant)
      (now : ℕ)
      → claims ≡ refresh_claims server family_id id client_id scopes audience now
      → claims ≡ refresh_claims server family_id claims.token_id client_id scopes audience now
  unfolding refresh_claims
  refresh_claims_own_id claims family_id id client_id audience scopes now h =
      h
      ∙ ap (λ (i : Text). refresh_claims server family_id i client_id scopes audience now)
          (sym (ap (λ (c : RefreshTokenClaims). c.token_id) h))

  pub next_tokens-ok :
      (claims : RefreshTokenClaims) (client : RegisteredClient) (scopes : ScopeGrant)
      (inputs : RefreshInputs) (r : Rotation)
      → next_tokens service claims client scopes inputs ≡ ok r
      → (r.family_id ≡ claims.family_id)
        × (r.token_id ≡ claims.token_id)
        × (r.next_claims
            ≡ refresh_claims server claims.family_id r.next_claims.token_id client.client_id scopes
                resource inputs.now)
        × (sign_refresh_token server r.next_claims ≡ ok r.response.refresh_token)
        × (r.response.scope ≡ Scopes.as_string scopes)
        × IsAccessToken server scopes claims.family_id inputs.access_issued_at
            r.response.access_token
  unfolding next_tokens
  next_tokens-ok claims client scopes inputs r h =
      elim (Result-cases (
        issue_access_token server scopes resource claims.family_id inputs.access_issued_at
          inputs.access_bytes)) [
            | inr (e, he) ↦ absurd (ground arith)
            | inl ((access, ttl), ha) ↦
                elim (Result-cases (random_value crypto (text "rti_") inputs.token_bytes)) [
                  | inr (e, he) ↦ absurd (ground arith)
                  | inl (id, hi) ↦
                      let next =
                        refresh_claims server claims.family_id id client.client_id scopes resource
                          inputs.now in
                      elim (Result-cases (sign_refresh_token server next)) [
                        | inr (e, he) ↦ absurd (ground arith)
                        | inl (signed, hs) ↦
                            let made =
                              issue_access_token-IsAccessToken server scopes resource
                                claims.family_id inputs.access_issued_at inputs.access_bytes access
                                ttl ha in
                            let same_claims : r.next_claims ≡ next = ground arith in
                            let same_access : r.response.access_token ≡ access = ground arith in
                            (
                              ground arith,
                              ground arith,
                              refresh_claims_own_id r.next_claims claims.family_id id
                                  client.client_id resource scopes inputs.now same_claims,
                              ground arith,
                              ground arith,
                              rw same_access made.0,
                            )
                      ]
                ]
          ]

  pub check_claims-ok :
      (request : TokenRequest) (client : RegisteredClient) (claims : RefreshTokenClaims)
      (inputs : RefreshInputs) (r : Rotation)
      → check_claims service request client claims inputs ≡ ok r
      → (refresh_refused service claims client inputs.now ≡ false)
        × ((scopes : ScopeGrant) × (refresh_scopes service request.scope claims.scopes ≡ ok scopes)
            × (Scopes.allows claims.scopes scopes ≡ true)
            × (next_tokens service claims client scopes inputs ≡ ok r))
  unfolding check_claims
  check_claims-ok request client claims inputs r h =
      elim (Bool-cases (refresh_refused service claims client inputs.now)) [
        | inl refused ↦ absurd (ground arith)
        | inr accepted ↦ elim (Result-cases (refresh_scopes service request.scope claims.scopes)) [
          | inr (e, he) ↦ absurd (ground arith)
          | inl (scopes, hs) ↦ elim (Bool-cases (Scopes.allows claims.scopes scopes)) [
            | inr no' ↦ absurd (ground arith)
            | inl yes' ↦ (accepted, (scopes, hs, yes', ground arith))
          ]
        ]
      ]

  pub prepare_refresh-ok :
      (request : TokenRequest) (header : Option Text) (inputs : RefreshInputs) (r : Rotation)
      → prepare_refresh service request header inputs ≡ ok r
      → (token : Text) × (client : RegisteredClient) × (claims : RefreshTokenClaims)
        × (request.refresh_token ≡ some token)
        × (request.resource ≡ resource)
        × (authenticate_client crypto signing_key urls.parse_url service.client_json request header
            ≡ ok client)
        × (verify_token crypto signing_key server.refresh_json refresh_token_prefix
              refresh_token_label token
            ≡ ok claims)
        × (check_claims service request client claims inputs ≡ ok r)
  unfolding prepare_refresh
  prepare_refresh-ok request header inputs r h = elim (Option-cases request.refresh_token) [
    | inl none_token ↦ absurd (ground arith)
    | inr (token, ht) ↦
        elim (Result-cases (
          authenticate_client crypto signing_key urls.parse_url service.client_json request
            header)) [
              | inr (e, he) ↦ absurd (ground arith)
              | inl (client, hc) ↦
                  elim (Result-cases (
                    verify_token crypto signing_key server.refresh_json refresh_token_prefix
                      refresh_token_label token)) [
                        | inr (e, he) ↦ absurd (ground arith)
                        | inl (claims, hv) ↦ (
                          token,
                          client,
                          claims,
                          ht,
                          ground (arith, text_eq_iff request.resource resource),
                          hc,
                          hv,
                          ground arith,
                        )
                      ]
            ]
  ]
