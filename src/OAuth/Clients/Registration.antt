-- ===== src/OAuth/Clients/Registration.antt =====
-- A registered client is recognised by its identifier, with the redirect URIs and the scopes that
-- it was registered with.
use engram_mcp.Common.{
  ℕ, ◌≤◌, ◌≡◌, refl, ap, sym, ◌∙◌, inl, inr, Bool, true, false, not, ◌&&◌, Option, List, [], ◌∷◌,
  ◌++◌, Text, text, text_eq, text_eq_iff, byte_len, strip_prefix, strip_prefix-append, is_empty,
  length, all, Result, ok, err, Result-cases, arith,
}
use engram_mcp.TextSet
use engram_mcp.TextSet.{TextSet, all-contains, all_of_contains, contains-from_list}
use engram_mcp.TextSet.Sorted.{from_list-IsSorted, from_list_of_IsSorted}
use engram_mcp.OAuth.Error.{OAuthError}
use engram_mcp.OAuth.Crates.{Json, Crypto}
use engram_mcp.OAuth.Signing.{dynamic_client_label, sign}
use engram_mcp.OAuth.Signing.Laws.{verify-sign}
use engram_mcp.OAuth.Clients.{
  max_redirect_uris, max_client_id_length, Url, ClientAuthenticationMethod, parse_method,
  RegistrationRequest, RegistrationResponse, ClientIdPayload, RegisteredClient,
  validate_redirect_uri, validate_either, collect_uris, application_type_or, registered_scopes,
  registration_response, register_client, client_of_payload, client_from_id,
}

abbrev pub is_ok : Result OAuthError (Unit {0}) → Bool
is_ok (ok u) = true
is_ok (err e) = false

module _ (check : Text → Result OAuthError (Unit {0})) where
  pub collect_uris-ok :
      (uris : List Text) (set : TextSet)
      → collect_uris check uris ≡ ok set
      → (set ≡ TextSet.from_list uris) × (all (λ u. is_ok (check u)) uris ≡ true)
  unfolding collect_uris TextSet.from_list
  collect_uris-ok [] set h = ground arith
  collect_uris-ok (u ∷ us) set h = elim (Result-cases (check u)) [
    | inr (e, failed) ↦ absurd (ground arith)
    | inl (v, passed) ↦ elim (Result-cases (collect_uris check us)) [
      | inr (e, failed) ↦ absurd (ground arith)
      | inl (rest, collected) ↦
          let (same, valid) = collect_uris-ok us rest collected in ground arith
    ]
  ]

  pub collect_uris_of_all :
      (uris : List Text)
      → all (λ u. is_ok (check u)) uris ≡ true
      → collect_uris check uris ≡ ok (TextSet.from_list uris)
  unfolding collect_uris TextSet.from_list
  collect_uris_of_all [] h = refl
  collect_uris_of_all (u ∷ us) h = ground (arith, collect_uris_of_all us)

module _ (parse_url : Text → Option Url) where
  -- What passes as a redirect URI of a web or a native application passes when it is read back.
  validate_either_of :
      (uri application_type : Text)
      → not (text_eq application_type (text "web"))
          && not (text_eq application_type (text "native"))
        ≡ false
      → is_ok (validate_redirect_uri parse_url uri application_type) ≡ true
      → is_ok (validate_either parse_url uri) ≡ true
  unfolding validate_either
  validate_either_of uri application_type h k = ground (
    arith,
    text_eq_iff application_type (text "web"),
    text_eq_iff application_type (text "native"),
  )

  -- The set that was collected at the registration is collected again from itself.
  recollect :
      (uris : List Text) (set : TextSet) (application_type : Text)
      → not (text_eq application_type (text "web"))
          && not (text_eq application_type (text "native"))
        ≡ false
      → collect_uris (λ uri. validate_redirect_uri parse_url uri application_type) uris ≡ ok set
      → collect_uris (validate_either parse_url) set ≡ ok set
  recollect uris set application_type h k =
      let (same, valid) = collect_uris-ok _ uris set k in
      let kept : all (λ u. is_ok (validate_either parse_url u)) set ≡ true =
        all_of_contains _ set (λ t c. validate_either_of t application_type h (
          all-contains _ uris t valid
            (sym (contains-from_list uris t) ∙ ap (λ s. TextSet.contains s t) (sym same) ∙ c))) in
      collect_uris_of_all (validate_either parse_url) set kept
      ∙ ap ok (
          ap TextSet.from_list same
          ∙ from_list_of_IsSorted (TextSet.from_list uris) (from_list-IsSorted uris)
          ∙ sym same)

-- What a successful registration has checked and signed.
module _ (crypto : Crypto) (signing_key : Text) (parse_url : Text → Option Url)
    (json : Json ClientIdPayload) where
  record IsRegistered (request : RegistrationRequest) (now : ℕ) (response : RegistrationResponse)
      : Type 0 where
    set : TextSet
    method : ClientAuthenticationMethod
    signed : Text
    method_is : parse_method request.token_endpoint_auth_method ≡ ok method
    application :
        not (text_eq (application_type_or request.application_type) (text "web"))
          && not (text_eq (application_type_or request.application_type) (text "native"))
        ≡ false
    collected :
        collect_uris
          (λ uri.
            validate_redirect_uri parse_url uri (application_type_or request.application_type))
          request.redirect_uris
        ≡ ok set
    count : length set ≡ length request.redirect_uris
    nonempty : is_empty request.redirect_uris ≡ false
    bounded : length request.redirect_uris ≤ max_redirect_uris
    signature :
        sign crypto signing_key json dynamic_client_label (record {
          version = 1;
          redirect_uris = set;
          token_endpoint_auth_method = method;
          scopes = registered_scopes request.scope;
          issued_at = now;
        })
        ≡ ok signed
    response_is :
        response
        ≡ registration_response crypto signing_key parse_url json
            (text "dcr." ++ signed)
            set
            method
            (registered_scopes request.scope)
            now

  register_client-IsRegistered :
      (request : RegistrationRequest) (now : ℕ) (response : RegistrationResponse)
      → register_client crypto signing_key parse_url json request now ≡ ok response
      → IsRegistered request now response
  unfolding register_client
  register_client-IsRegistered request now response h =
      let application_type = application_type_or request.application_type in
      elim (Result-cases (parse_method request.token_endpoint_auth_method)) [
        | inr (e, failed) ↦ absurd (ground arith)
        | inl (method, parsed) ↦
            elim (Result-cases (
              collect_uris (λ uri. validate_redirect_uri parse_url uri application_type)
                request.redirect_uris)) [
                  | inr (e, failed) ↦ absurd (ground arith)
                  | inl (set, collected) ↦
                      elim (Result-cases (
                        sign crypto signing_key json dynamic_client_label (record {
                          version = 1;
                          redirect_uris = set;
                          token_endpoint_auth_method = method;
                          scopes = registered_scopes request.scope;
                          issued_at = now;
                        }))) [
                          | inr (e, failed) ↦ absurd (ground arith)
                          | inl (signed, signature) ↦ record {
                            set = set;
                            method = method;
                            signed = signed;
                            method_is = parsed;
                            application = ground arith;
                            collected = collected;
                            count = ground arith;
                            nonempty = ground arith;
                            bounded = ground arith;
                            signature = signature;
                            response_is = ground arith;
                          }
                        ]
                ]
      ]

  set_is_not_empty :
      (uris set : List Text)
      → is_empty uris ≡ false
      → length set ≡ length uris
      → is_empty set ≡ false
  set_is_not_empty [] set h e = ground arith
  set_is_not_empty (u ∷ us) [] h e = absurd (omega arith)
  set_is_not_empty (u ∷ us) (v ∷ vs) h e = refl

  client_of_signed :
      (client_id : Text) (set : TextSet) (payload : ClientIdPayload)
      → payload.version ≡ 1
      → payload.redirect_uris ≡ set
      → is_empty set ≡ false
      → length set ≤ max_redirect_uris
      → collect_uris (validate_either parse_url) set ≡ ok set
      → client_of_payload crypto signing_key parse_url json client_id payload
        ≡ ok (record {
          client_id = client_id;
          redirect_uris = set;
          token_endpoint_auth_method = payload.token_endpoint_auth_method;
          scopes = payload.scopes;
        })
  unfolding client_of_payload
  client_of_signed client_id set payload v e n b c = ground arith

  client_from_id_of_signed :
      (client_id signed : Text) (payload : ClientIdPayload) (client : RegisteredClient)
      → client_id ≡ text "dcr." ++ signed
      → byte_len client_id ≤ max_client_id_length
      → sign crypto signing_key json dynamic_client_label payload ≡ ok signed
      → client_of_payload crypto signing_key parse_url json client_id payload ≡ ok client
      → client_from_id crypto signing_key parse_url json client_id ≡ ok client
  unfolding client_from_id
  client_from_id_of_signed client_id signed payload client e short s k = ground (
    arith,
    ap (strip_prefix (text "dcr.")) e ∙ strip_prefix-append (text "dcr.") signed,
    verify-sign crypto signing_key json dynamic_client_label signed payload s,
  )

  -- A client that was registered is recognised by its identifier, if that has at most 8192 bytes,
  -- with its redirect URIs as a set, its authentication method and its scopes.
  pub client_from_id-register_client :
      (request : RegistrationRequest) (now : ℕ) (response : RegistrationResponse)
      → register_client crypto signing_key parse_url json request now ≡ ok response
      → byte_len response.client_id ≤ max_client_id_length
      → (client : RegisteredClient) × (client_from_id crypto signing_key parse_url json
            response.client_id
          ≡ ok client)
        × (client.client_id ≡ response.client_id)
        × (client.redirect_uris ≡ TextSet.from_list request.redirect_uris)
        × (parse_method request.token_endpoint_auth_method ≡ ok client.token_endpoint_auth_method)
        × (client.scopes ≡ registered_scopes request.scope)
  unfolding registration_response
  client_from_id-register_client request now response h short =
      let r = register_client-IsRegistered request now response h in
      let payload : ClientIdPayload = record {
        version = 1;
        redirect_uris = r.set;
        token_endpoint_auth_method = r.method;
        scopes = registered_scopes request.scope;
        issued_at = now;
      } in
      (
        record {
          client_id = response.client_id;
          redirect_uris = r.set;
          token_endpoint_auth_method = r.method;
          scopes = registered_scopes request.scope;
        },
        client_from_id_of_signed response.client_id r.signed payload _
            (ap (λ (s : RegistrationResponse). s.client_id) r.response_is) short r.signature
            (client_of_signed response.client_id r.set payload refl refl
              (set_is_not_empty request.redirect_uris r.set r.nonempty r.count)
              (omega (arith, r.count, r.bounded))
              (recollect parse_url request.redirect_uris r.set _ r.application r.collected)),
        refl,
        (collect_uris-ok _ request.redirect_uris r.set r.collected).0,
        r.method_is,
        refl,
      )
