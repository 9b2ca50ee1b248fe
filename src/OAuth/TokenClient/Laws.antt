-- ===== src/OAuth/TokenClient/Laws.antt =====
-- What a successful client authentication has established.
use engram_mcp.Common.{
  ◌≡◌, inl, inr, ap, ◌∙◌, Option, none, some, Text, ok, Result-cases, Option-cases, arith,
}
use engram_mcp.OAuth.Crates.{Json, Crypto, constant_time_equal_iff}
use engram_mcp.OAuth.Signing.{client_secret}
use engram_mcp.OAuth.Clients.{
  Url, ClientAuthenticationMethod, public, client_secret_post, client_secret_basic, ClientIdPayload,
  RegisteredClient, client_from_id,
}
use engram_mcp.OAuth.TokenClient.{
  TokenRequest, basic_of, presented_id, basic_secret, check_secret, check_method, authenticate_with,
  authenticate_client,
}

module _ (crypto : Crypto) (signing_key : Text) (parse_url : Text → Option Url)
    (json : Json ClientIdPayload) where
  -- The secret that a method of authentication calls for: none at all, the one of the form with no
  -- header, or the one of the header.
  abbrev pub Proves :
      ClientAuthenticationMethod → Text → Option (Text × Text) → Option Text → Type 0
  Proves public client_id basic secret = (basic ≡ none) × (secret ≡ none)
  Proves client_secret_post client_id basic secret =
      (basic ≡ none) × (secret ≡ some (client_secret crypto signing_key client_id))
  Proves client_secret_basic client_id basic secret =
      basic ≡ some (client_id, client_secret crypto signing_key client_id)

  check_secret-ok :
      (client_id : Text) (secret : Option Text)
      → check_secret crypto signing_key parse_url json client_id secret ≡ ok tt
      → secret ≡ some (client_secret crypto signing_key client_id)
  unfolding check_secret
  check_secret-ok client_id none h = cc
  check_secret-ok client_id (some s) h =
      ground (
        arith,
        constant_time_equal_iff crypto.subtle s (client_secret crypto signing_key client_id),
      )

  check_method-Proves :
      (method : ClientAuthenticationMethod) (client_id : Text) (basic : Option (Text × Text))
      (form_id secret : Option Text)
      → presented_id basic form_id ≡ some client_id
      → check_method crypto signing_key parse_url json method client_id basic secret ≡ ok tt
      → Proves method client_id basic secret
  unfolding check_method presented_id basic_secret
  check_method-Proves public client_id basic form_id secret p h = ground arith
  check_method-Proves client_secret_post client_id basic form_id secret p h =
      ground (arith, check_secret-ok client_id secret)
  check_method-Proves client_secret_basic client_id none form_id secret p h =
      absurd (ground (arith, check_secret-ok client_id none))
  check_method-Proves client_secret_basic client_id (some (id, s)) form_id secret p h =
      ground (arith, check_secret-ok client_id (some s))

  -- The client is the one whose signed identifier was presented, and the request proves it in the
  -- way that it was registered with.
  pub record IsAuthentic (request : TokenRequest) (header : Option Text) (client : RegisteredClient)
      : Type 0 where
    pub basic : Option (Text × Text)
    pub client_id : Text
    pub header_read : basic_of crypto header ≡ ok basic
    pub presented : presented_id basic request.client_id ≡ some client_id
    pub registered : client_from_id crypto signing_key parse_url json client_id ≡ ok client
    pub proves : Proves client.token_endpoint_auth_method client_id basic request.client_secret

  -- A client is authenticated only if its signed identifier was presented in the header or the
  -- form, and the request proves it in the way that it was registered with: a public client sends
  -- neither a header nor a secret, a posting one sends its secret in the form and no header, a
  -- basic one sends both in the header.
  pub authenticate_client-IsAuthentic :
      (request : TokenRequest) (header : Option Text) (client : RegisteredClient)
      → authenticate_client crypto signing_key parse_url json request header ≡ ok client
      → IsAuthentic request header client
  unfolding authenticate_client authenticate_with
  authenticate_client-IsAuthentic request header client h =
      elim (Result-cases (basic_of crypto header)) [
        | inr (e, failed) ↦ absurd (ground arith)
        | inl (basic, read) ↦ elim (Option-cases (presented_id basic request.client_id)) [
          | inl missing ↦ absurd (ground arith)
          | inr (client_id, presented) ↦
              elim (Result-cases (client_from_id crypto signing_key parse_url json client_id)) [
                | inr (e, failed) ↦ absurd (ground arith)
                | inl (found, registered) ↦
                    let same : found ≡ client = ground arith in
                    record {
                      basic = basic;
                      client_id = client_id;
                      header_read = read;
                      presented = presented;
                      registered = registered ∙ ap ok same;
                      proves =
                          check_method-Proves client.token_endpoint_auth_method client_id basic
                            request.client_id request.client_secret presented (ground arith);
                    }
              ]
        ]
      ]
