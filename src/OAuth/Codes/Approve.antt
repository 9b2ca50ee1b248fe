-- ===== src/OAuth/Codes/Approve.antt =====
-- Which codes `complete_authorization` stores: those that the owner approved, and no others.
use engram_mcp.Common.{
  ℕ, ◌<◌, ◌≡◌, ◌⊎◌, inl, inr, sym, true, some, Text, text, text_eq, text_eq_iff, ltb, if◌then◌else◌,
  ok, Result-cases, Bool-cases, arith,
}
use engram_mcp.HashMap
use engram_mcp.HashMap.{text_key, keep_if}
use engram_mcp.TextSet
use engram_mcp.OAuth.Crates.{constant_time_equal_iff}
use engram_mcp.OAuth.Scopes
use engram_mcp.OAuth.Scopes.{ScopeGrant}
use engram_mcp.OAuth.Signing.{approval_request_label, token_hash, verify, random_value}
use engram_mcp.OAuth.Clients.{RegisteredClient}
use engram_mcp.OAuth.Codes.{
  SignedApprovalRequest, AuthorizationCode, ApprovalForm, OAuthState, Service, ApprovalInputs,
  find_client, check_form, granted_scopes, code_record, store_code, grant_code, approve, decide,
  complete_authorization,
}

module _ (service : Service) where
  open service use {server, urls}
  open server use {crypto, settings}
  open settings use {resource, owner_secret, signing_key}

  -- The owner approved a request that this server had signed, for a registered client and redirect,
  -- and granted no more than what was asked for and what the client may have.
  pub record IsApproved (form : ApprovalForm) (inputs : ApprovalInputs) (key : Text)
      (stored : AuthorizationCode) : Type 0 where
    pub request : SignedApprovalRequest
    pub client : RegisteredClient
    pub granted : ScopeGrant
    pub code : Text
    pub signed :
        verify crypto signing_key service.approval_json approval_request_label form.request
        ≡ ok request
    pub unexpired : inputs.checked_at < request.expires_at
    pub registered : find_client service request.client_id ≡ ok client
    pub redirect : TextSet.contains client.redirect_uris request.redirect_uri ≡ true
    pub for_resource : request.resource ≡ resource
    pub decision : form.decision ≡ text "approve"
    pub owner : form.owner_secret ≡ owner_secret
    pub parsed : Scopes.parse form.scope ≡ ok granted
    pub requested : Scopes.is_subset_of granted request.requested_scopes ≡ true
    pub allowed : Scopes.allows client.scopes granted ≡ true
    pub random : random_value crypto (text "ac_") inputs.code_bytes ≡ ok code
    pub key_is : key ≡ token_hash crypto signing_key code
    pub stored_is : stored ≡ code_record service request granted inputs.approved_at

  check_form-ok :
      (form : ApprovalForm) (now : ℕ) (request : SignedApprovalRequest) (client : RegisteredClient)
      → check_form service form now ≡ ok (request, client)
      → (verify crypto signing_key service.approval_json approval_request_label form.request
          ≡ ok request)
        × (now < request.expires_at)
        × (find_client service request.client_id ≡ ok client)
        × (TextSet.contains client.redirect_uris request.redirect_uri ≡ true)
        × (request.resource ≡ resource)
  unfolding check_form
  check_form-ok form now request client h =
      elim (Result-cases
        (verify crypto signing_key service.approval_json approval_request_label form.request)) [
          | inr (e, he) ↦ absurd (ground arith)
          | inl (r, hr) ↦ elim (Result-cases (find_client service r.client_id)) [
            | inr (e, he) ↦ absurd (ground arith)
            | inl (c, hc) ↦ ground (arith, text_eq_iff r.resource resource)
          ]
        ]

  granted_scopes-ok :
      (form : ApprovalForm) (request : SignedApprovalRequest) (client : RegisteredClient)
      (granted : ScopeGrant)
      → granted_scopes service form request client ≡ ok granted
      → (form.decision ≡ text "approve")
        × (form.owner_secret ≡ owner_secret)
        × (Scopes.parse form.scope ≡ ok granted)
        × (Scopes.is_subset_of granted request.requested_scopes ≡ true)
        × (Scopes.allows client.scopes granted ≡ true)
  unfolding granted_scopes
  granted_scopes-ok form request client granted h = elim (Result-cases (Scopes.parse form.scope)) [
    | inr (e, he) ↦ absurd (ground arith)
    | inl (g, hg) ↦ ground (
      arith,
      text_eq_iff form.decision (text "approve"),
      constant_time_equal_iff crypto.subtle form.owner_secret owner_secret,
    )
  ]

  get-store_code :
      (dropped_at : AuthorizationCode → ℕ) (key k : Text) (code : AuthorizationCode)
      (state : OAuthState)
      → HashMap.get (store_code service dropped_at key code state).authorization_codes k ≡ (
          if text_eq key k
          then some code
          else keep_if
              (λ (r : AuthorizationCode). ltb (dropped_at r) r.expires_at)
              (HashMap.get state.authorization_codes k))
  unfolding store_code
  get-store_code dropped_at key k code state =
      let live = λ (r : AuthorizationCode). ltb (dropped_at r) r.expires_at in
      ground (
        arith,
        HashMap.get-insert (HashMap.retain live state.authorization_codes) key k code,
        HashMap.get-retain live state.authorization_codes k,
      )

  -- However a submitted form is answered, an authorization code that is stored after it was
  -- stored before with the same record, or the form approved it with the owner's secret and a
  -- request of this server's signature that had not expired, for a registered client and one of
  -- its redirect URIs, and the granted scopes are among those requested and those that the client
  -- may have.
  pub complete_authorization-IsApproved :
      (form : ApprovalForm) (inputs : ApprovalInputs) (state : OAuthState) (key : Text)
      (stored : AuthorizationCode)
      → HashMap.get (complete_authorization service form inputs state).1.authorization_codes key
        ≡ some stored
      → (HashMap.get state.authorization_codes key ≡ some stored)
        ⊎ IsApproved form inputs key stored
  unfolding complete_authorization decide approve grant_code
  complete_authorization-IsApproved form inputs state key stored h =
      elim (Result-cases (check_form service form inputs.checked_at)) [
        | inr (e, he) ↦ inl (ground arith)
        | inl ((request, client), checked) ↦
            elim (Bool-cases (text_eq form.decision (text "deny"))) [
              | inl denied ↦ inl (ground arith)
              | inr other ↦ elim (Result-cases (granted_scopes service form request client)) [
                | inr (e, he) ↦ inl (ground arith)
                | inl (granted, hg) ↦
                    elim (Result-cases (random_value crypto (text "ac_") inputs.code_bytes)) [
                      | inr (e, he) ↦ inl (ground arith)
                      | inl (code, hr) ↦
                          let code_hash = token_hash crypto signing_key code in
                          let code_of = code_record service request granted inputs.approved_at in
                          let after =
                            get-store_code inputs.dropped_at code_hash key code_of state in
                          elim (Bool-cases (text_eq code_hash key)) [
                            | inr old ↦ inl (ground (arith, after))
                            | inl new ↦
                                let facts =
                                  check_form-ok form inputs.checked_at request client checked in
                                let owned = granted_scopes-ok form request client granted hg in
                                inr (record {
                                  request = request;
                                  client = client;
                                  granted = granted;
                                  code = code;
                                  signed = facts.0;
                                  unexpired = facts.1;
                                  registered = facts.2;
                                  redirect = facts.3;
                                  for_resource = facts.4;
                                  decision = owned.0;
                                  owner = owned.1;
                                  parsed = owned.2;
                                  requested = owned.3;
                                  allowed = owned.4;
                                  random = hr;
                                  key_is = sym ((text_eq_iff code_hash key).0 new);
                                  stored_is = ground (arith, after);
                                })
                          ]
                    ]
              ]
            ]
      ]
