-- ===== src/OAuth/Exchange/Codes.antt =====
-- Authorization codes at the token endpoint: what a redeemed code proves, and that it is used once.
use engram_mcp.Utf8.{as_bytes}
use engram_mcp.Common.{
  ℕ, ◌≤◌, All, length, ◌<◌, ◌≡◌, inl, inr, ap, sym, ◌∙◌, true, false, Option, none, some, Text,
  text_eq_iff, text_eq_refl, ok, Result-cases, Option-cases, Bool-cases, arith,
}
use engram_mcp.HashMap
use engram_mcp.HashMap.{text_key}
use engram_mcp.OAuth.Signing.{token_hash}
use engram_mcp.OAuth.Tokens.{TokenResponse, PairInputs, issue_token_pair}
use engram_mcp.OAuth.TokenClient.{TokenRequest, authenticate_client}
use engram_mcp.OAuth.TokenClient.Laws.{IsAuthentic, authenticate_client-IsAuthentic}
use engram_mcp.OAuth.Pkce.{IsUnreserved, verify_pkce, verify_pkce_iff}
use engram_mcp.OAuth.Codes.{AuthorizationCode, OAuthState, Service}
use engram_mcp.OAuth.Exchange.{
  CheckedCode, check_code_request, code_refused, redeem, consume, exchange_authorization_code,
}

module _ (service : Service) where
  open service use {server, urls}
  open server use {crypto, settings}
  open settings use {resource, signing_key}

  pub check_code_request-ok :
      (request : TokenRequest) (header : Option Text) (checked : CheckedCode)
      → check_code_request service request header ≡ ok checked
      → (request.code ≡ some checked.code)
        × (request.redirect_uri ≡ some checked.redirect_uri)
        × (request.code_verifier ≡ some checked.verifier)
        × (request.resource ≡ resource)
        × (authenticate_client crypto signing_key urls.parse_url service.client_json request header
            ≡ ok checked.client)
  unfolding check_code_request
  check_code_request-ok request header checked h = elim (Option-cases request.code) [
    | inl none_code ↦ ground arith
    | inr (code, some_code) ↦ elim (Option-cases request.redirect_uri) [
      | inl none_uri ↦ ground arith
      | inr (uri, some_uri) ↦ elim (Option-cases request.code_verifier) [
        | inl none_verifier ↦ ground arith
        | inr (verifier, some_verifier) ↦
            elim (Result-cases (
              authenticate_client crypto signing_key urls.parse_url service.client_json request
                header)) [
                  | inl (client, hc) ↦ ground (arith, text_eq_iff request.resource resource)
                  | inr (e, he) ↦ ground arith
                ]
      ]
    ]
  ]

  pub redeem-codes :
      (stored : AuthorizationCode) (checked : CheckedCode) (resource' : Text) (now : ℕ)
      (inputs : PairInputs) (state : OAuthState)
      → (redeem service stored checked resource' now inputs state).1.authorization_codes
        ≡ state.authorization_codes
  unfolding redeem
  redeem-codes stored checked resource' now inputs state = ground arith

  -- What a redeemed code stands for: a stored record that is fresh and bound to this client and
  -- redirect, a proof of possession, and the tokens that were issued for its scopes.
  pub record IsRedeemed (request : TokenRequest) (header : Option Text) (now : ℕ)
      (inputs : PairInputs) (state : OAuthState) (response : TokenResponse) (state' : OAuthState)
      : Type 0 where
    pub checked : CheckedCode
    pub stored : AuthorizationCode
    pub presented : request.code ≡ some checked.code
    pub known :
        HashMap.get state.authorization_codes (token_hash crypto signing_key checked.code)
        ≡ some stored
    pub fresh : now < stored.expires_at
    pub client :
        IsAuthentic crypto signing_key urls.parse_url service.client_json request header
          checked.client
    pub same_client : stored.client_id ≡ checked.client.client_id
    pub same_redirect : request.redirect_uri ≡ some stored.redirect_uri
    pub same_resource : stored.resource ≡ resource
    pub verifier_sent : request.code_verifier ≡ some checked.verifier
    pub well_formed :
        (43 ≤ length checked.verifier)
        × (length checked.verifier ≤ 128)
        × All IsUnreserved checked.verifier
    pub possession :
        stored.code_challenge ≡ crypto.encode (crypto.sha256 (as_bytes checked.verifier))
    pub issued :
        issue_token_pair server stored.scopes stored.resource checked.client.client_id inputs
          state.refresh_tokens
        ≡ (ok response, state'.refresh_tokens)

  code_refused-eq-false :
      (stored : AuthorizationCode) (checked : CheckedCode) (resource' : Text) (now : ℕ)
      → code_refused service stored checked resource' now ≡ false
      → (now < stored.expires_at)
        × (stored.client_id ≡ checked.client.client_id)
        × (stored.redirect_uri ≡ checked.redirect_uri)
        × (stored.resource ≡ resource')
        × (verify_pkce crypto checked.verifier stored.code_challenge ≡ true)
  unfolding code_refused
  code_refused-eq-false stored checked resource' now h = ground (
    arith,
    text_eq_iff stored.client_id checked.client.client_id,
    text_eq_iff stored.redirect_uri checked.redirect_uri,
    text_eq_iff stored.resource resource',
  )

  redeem-ok :
      (stored : AuthorizationCode) (checked : CheckedCode) (resource' : Text) (now : ℕ)
      (inputs : PairInputs) (state state' : OAuthState) (response : TokenResponse)
      → redeem service stored checked resource' now inputs state ≡ (ok response, state')
      → (code_refused service stored checked resource' now ≡ false)
        × (issue_token_pair server stored.scopes stored.resource checked.client.client_id inputs
              state.refresh_tokens
            ≡ (ok response, state'.refresh_tokens))
  unfolding redeem
  redeem-ok stored checked resource' now inputs state state' response h =
      elim (Bool-cases (code_refused service stored checked resource' now)) [
        | inl refused ↦ absurd (ground arith)
        | inr accepted ↦ (accepted, ground arith)
      ]

  -- A code is answered with tokens only if its hash was stored and has not expired, the request
  -- is authentic for the client of the stored record and names its redirect URI and this server's
  -- resource, and the verifier is well formed and makes the stored challenge; the tokens are
  -- those issued for the stored scopes.
  pub exchange_authorization_code-IsRedeemed :
      (request : TokenRequest) (header : Option Text) (now : ℕ) (inputs : PairInputs)
      (state state' : OAuthState) (response : TokenResponse)
      → exchange_authorization_code service request header now inputs state ≡ (ok response, state')
      → IsRedeemed request header now inputs state response state'
  unfolding exchange_authorization_code consume
  exchange_authorization_code-IsRedeemed request header now inputs state state' response h =
      elim (Result-cases (check_code_request service request header)) [
        | inr (e, he) ↦ absurd (ground arith)
        | inl (checked, hc) ↦
            elim (Option-cases (
              HashMap.get state.authorization_codes (token_hash crypto signing_key checked.code))) [
                | inl missing ↦ absurd (ground arith)
                | inr (stored, known) ↦
                    let taken =
                      HashMap.remove state.authorization_codes
                        (token_hash crypto signing_key checked.code) in
                    let redeemed =
                      redeem-ok stored checked request.resource now inputs
                        (record state { authorization_codes = taken }) state' response
                        (ground arith) in
                    let facts = check_code_request-ok request header checked hc in
                    let kept =
                      code_refused-eq-false stored checked request.resource now redeemed.0 in
                    let pkce =
                      (verify_pkce_iff crypto checked.verifier stored.code_challenge).0 kept.4 in
                    record {
                      checked = checked;
                      stored = stored;
                      presented = facts.0;
                      known = known;
                      fresh = kept.0;
                      client =
                          authenticate_client-IsAuthentic crypto signing_key urls.parse_url
                            service.client_json request header checked.client facts.4;
                      same_client = kept.1;
                      same_redirect = facts.1 ∙ ap some (sym kept.2);
                      same_resource = kept.3 ∙ facts.3;
                      verifier_sent = facts.2;
                      well_formed = (pkce.0, pkce.1, pkce.2);
                      possession = pkce.3;
                      issued = redeemed.1;
                    }
              ]
      ]

  -- A code that was looked up is not stored any more, whatever the answer was.
  pub exchange_authorization_code-removes :
      (request : TokenRequest) (header : Option Text) (now : ℕ) (inputs : PairInputs)
      (state : OAuthState) (checked : CheckedCode)
      → check_code_request service request header ≡ ok checked
      → HashMap.get
          (exchange_authorization_code service request header now inputs
            state).1.authorization_codes
          (token_hash crypto signing_key checked.code)
        ≡ none
  unfolding exchange_authorization_code consume
  exchange_authorization_code-removes request header now inputs state checked h =
      elim (Option-cases
        (HashMap.get state.authorization_codes (token_hash crypto signing_key checked.code))) [
          | inl missing ↦ ground arith
          | inr (stored, known) ↦ ground (
            arith,
            redeem-codes stored checked request.resource now inputs (record state {
              authorization_codes =
                  HashMap.remove state.authorization_codes
                    (token_hash crypto signing_key checked.code);
            }),
            HashMap.get-remove state.authorization_codes
                (token_hash crypto signing_key checked.code)
                (token_hash crypto signing_key checked.code),
            text_eq_refl (token_hash crypto signing_key checked.code),
          )
        ]
