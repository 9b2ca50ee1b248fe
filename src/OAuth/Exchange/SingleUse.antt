-- ===== src/OAuth/Exchange/SingleUse.antt =====
-- An authorization code gives tokens once, whatever the server does between two uses of it.
use engram_mcp.Common.{
  ℕ, ◌≡◌, ◌≢◌, inl, inr, Option, none, some, Text, text, ok, err, Result-cases, Option-cases, arith,
}
use engram_mcp.HashMap
use engram_mcp.HashMap.{text_key}
use engram_mcp.OAuth.Error.{OAuthError}
use engram_mcp.OAuth.Signing.{token_hash, random_value}
use engram_mcp.OAuth.Tokens.{TokenResponse, PairInputs}
use engram_mcp.OAuth.TokenClient.{TokenRequest}
use engram_mcp.OAuth.Codes.{
  ApprovalForm, OAuthState, Service, ApprovalInputs, complete_authorization,
}
use engram_mcp.OAuth.Codes.Approve.{complete_authorization-IsApproved}
use engram_mcp.OAuth.Exchange.{
  RefreshInputs, check_code_request, consume, exchange_authorization_code, prepare_refresh,
  rotate_prepared, exchange_refresh_token, exchange_token,
}
use engram_mcp.OAuth.Exchange.Codes.{
  redeem-codes, exchange_authorization_code-IsRedeemed, exchange_authorization_code-removes,
  check_code_request-ok,
}

module _ (service : Service) where
  open service use {server}
  open server use {crypto, settings}
  open settings use {signing_key}

  -- A submitted form or a token request, as the server handles it, where an approval does not draw
  -- the code `used` again.
  pub data Step (used : Text) : OAuthState → OAuthState → Type 0 where
    completion :
        (form : ApprovalForm) (inputs : ApprovalInputs) (state : OAuthState)
        → ((code : Text)
            → random_value crypto (text "ac_") inputs.code_bytes ≡ ok code
            → token_hash crypto signing_key used ≢ token_hash crypto signing_key code)
        → Step used state (complete_authorization service form inputs state).1
    token :
        (request : TokenRequest) (header : Option Text) (now : ℕ) (pair_inputs : PairInputs)
        (refresh_inputs : RefreshInputs) (state : OAuthState)
        → Step used state
            (exchange_token service request header now pair_inputs refresh_inputs state).1

  pub data Steps (used : Text) : OAuthState → OAuthState → Type 0 where
    done : (state : OAuthState) → Steps used state state
    next : (s s' s'' : OAuthState) → Step used s s' → Steps used s' s'' → Steps used s s''

  abbrev pub IsSpent : Text → OAuthState → Type 0
  IsSpent used state =
      HashMap.get state.authorization_codes (token_hash crypto signing_key used) ≡ none

  exchange_authorization_code-IsSpent :
      (used : Text) (request : TokenRequest) (header : Option Text) (now : ℕ) (inputs : PairInputs)
      (state : OAuthState)
      → IsSpent used state
      → IsSpent used (exchange_authorization_code service request header now inputs state).1
  unfolding exchange_authorization_code consume
  exchange_authorization_code-IsSpent used request header now inputs state h =
      elim (Result-cases (check_code_request service request header)) [
        | inr (e, he) ↦ ground arith
        | inl (checked, hc) ↦
            let code_hash = token_hash crypto signing_key checked.code in
            elim (Option-cases (HashMap.get state.authorization_codes code_hash)) [
              | inl missing ↦ ground arith
              | inr (stored, known) ↦ ground (
                arith,
                redeem-codes service stored checked request.resource now inputs (record state {
                  authorization_codes = HashMap.remove state.authorization_codes code_hash;
                }),
                HashMap.get-remove state.authorization_codes code_hash
                    (token_hash crypto signing_key used),
              )
            ]
      ]

  exchange_refresh_token-codes :
      (request : TokenRequest) (header : Option Text) (inputs : RefreshInputs) (state : OAuthState)
      → (exchange_refresh_token service request header inputs state).1.authorization_codes
        ≡ state.authorization_codes
  unfolding exchange_refresh_token rotate_prepared
  exchange_refresh_token-codes request header inputs state =
      elim (Result-cases (prepare_refresh service request header inputs)) [
        | inr (e, he) ↦ ground arith
        | inl (r, hr) ↦ ground arith
      ]

  Step-IsSpent :
      (used : Text) (s s' : OAuthState) → Step used s s' → IsSpent used s → IsSpent used s'
  unfolding exchange_token
  Step-IsSpent used _ _ (completion form inputs s other) h =
      let after = (complete_authorization service form inputs s).1 in
      elim (Option-cases
        (HashMap.get after.authorization_codes (token_hash crypto signing_key used))) [
          | inl missing ↦ missing
          | inr (stored, found) ↦
              elim (complete_authorization-IsApproved service form inputs s
                (token_hash crypto signing_key used) stored found) [
                  | inl before ↦ absurd (ground (arith, h))
                  | inr approval ↦ absurd (other approval.code approval.random approval.key_is)
                ]
        ]
  Step-IsSpent used _ _ (token request header now pair_inputs refresh_inputs s) h = ground (
    arith,
    exchange_authorization_code-IsSpent used request header now pair_inputs s h,
    exchange_refresh_token-codes request header refresh_inputs s,
  )

  Steps-IsSpent :
      (used : Text) (s s' : OAuthState) → Steps used s s' → IsSpent used s → IsSpent used s'
  Steps-IsSpent used _ _ (done s) h = h
  Steps-IsSpent used _ _ (next s s' s'' step rest) h =
      Steps-IsSpent used s' s'' rest (Step-IsSpent used s s' step h)

  spent_refused :
      (used : Text) (request : TokenRequest) (header : Option Text) (now : ℕ) (inputs : PairInputs)
      (s s' : OAuthState) (response : TokenResponse)
      → IsSpent used s
      → request.code ≡ some used
      → exchange_authorization_code service request header now inputs s ≢ (ok response, s')
  spent_refused used request header now inputs s s' response h same answer =
      let i =
        exchange_authorization_code-IsRedeemed service request header now inputs s s' response
          answer in
      ground (arith, h, i.presented, i.known)

  -- Once an authorization code was answered with tokens, and after any further forms and token
  -- requests, however they are answered, none of which draws a random code with the same hash, no
  -- request with that code is answered with tokens.
  pub exchange_authorization_code-once :
      (used : Text) (request request' : TokenRequest) (header header' : Option Text) (now now' : ℕ)
      (inputs inputs' : PairInputs) (s₀ s₁ s₂ s₃ : OAuthState) (response response' : TokenResponse)
      → request.code ≡ some used
      → request'.code ≡ some used
      → exchange_authorization_code service request header now inputs s₀ ≡ (ok response, s₁)
      → Steps used s₁ s₂
      → exchange_authorization_code service request' header' now' inputs' s₂ ≢ (ok response', s₃)
  unfolding exchange_authorization_code
  exchange_authorization_code-once used request request' header header' now now' inputs inputs' s₀
        s₁ s₂ s₃ response response' h h' first steps =
      elim (Result-cases (check_code_request service request header)) [
        | inr (e, he) ↦ absurd (refused e he)
        | inl (checked, hc) ↦
            let removed =
              exchange_authorization_code-removes service request header now inputs s₀ checked hc in
            let facts = check_code_request-ok service request header checked hc in
            let spent : IsSpent used s₁ = ground (arith, removed, facts.0, first) in
            spent_refused used request' header' now' inputs' s₂ s₃ response'
              (Steps-IsSpent used s₁ s₂ steps spent) h'
      ]
    where
      refused : (e : OAuthError) → check_code_request service request header ≡ err e → ⊥
      refused e he = ground arith
