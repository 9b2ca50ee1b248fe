-- ===== src/Samples/TokenExamples.antt =====
-- The theorems on scopes, signatures, tokens and clients at the story of the sample server.
use engram_mcp.Utf8.{as_bytes}
use engram_mcp.Common.{◌≡◌, ◌≤◌, ◌↔◌, ap, true, none, text, ok, byte_len, length, All, arith}
use engram_mcp.TextSet
use engram_mcp.OAuth.Scopes
use engram_mcp.OAuth.Scopes.{scope_private, scope_tech}
use engram_mcp.OAuth.Scopes.Laws.{parse-as_string}
use engram_mcp.OAuth.Signing.{verify, approval_request_label, token_hash, audit_fingerprint}
use engram_mcp.OAuth.Signing.Laws.{verify-sign, IsSigned, verify-IsSigned}
use engram_mcp.OAuth.Tokens.{TokenResponse, authenticate_bearer}
use engram_mcp.OAuth.Tokens.Bearer.{IsAccepted, authenticate_bearer-IsAccepted}
use engram_mcp.OAuth.Tokens.Issue.{
  IsIssued, issue_token_pair-IsIssued, authenticate_bearer-issue_token_pair,
}
use engram_mcp.OAuth.Clients.{
  RegisteredClient, RegistrationResponse, client_from_id, parse_method, registered_scopes,
}
use engram_mcp.OAuth.Clients.Registration.{client_from_id-register_client}
use engram_mcp.OAuth.TokenClient.{authenticate_client}
use engram_mcp.OAuth.TokenClient.Laws.{IsAuthentic, authenticate_client-IsAuthentic}
use engram_mcp.OAuth.Pkce.{IsUnreserved, verify_pkce, verify_pkce_iff}
use engram_mcp.Samples.Crates.{crypto}
use engram_mcp.Samples.Service.{
  settings, service, parse_url, client_id, registration, registered, approval, approval_signed,
  approval_verified, form, verifier, code_request, pair_inputs, initial, redeemed, access_token,
  authenticated, both_scopes, issued, text_of,
}
use engram_mcp.Samples.Runs.{answer, answer_and_state, story}

short_id : byte_len (answer registered story.registered_runs).0.client_id ≤ 8192
short_id = ground (
  arith,
  story.short_client_id,
  ap (text_of (λ (r : RegistrationResponse). r.client_id))
      (answer registered story.registered_runs).1,
)

short_response : byte_len (answer_and_state issued story.issued_runs).0.access_token ≤ 8192
short_response = ground (
  arith,
  story.issued_short,
  ap (λ p. text_of (λ (r : TokenResponse). r.access_token) p.0)
      (answer_and_state issued story.issued_runs).1,
)

parse-as_string_example : Scopes.parse (Scopes.as_string both_scopes) ≡ ok both_scopes
parse-as_string_example = parse-as_string (text "kb:tech kb:private") both_scopes story.parsed

verify-sign_example :
    verify crypto settings.signing_key service.approval_json approval_request_label
      (answer approval_signed story.approval_signed_runs).0
    ≡ ok approval
verify-sign_example =
    verify-sign crypto settings.signing_key service.approval_json approval_request_label
      (answer approval_signed story.approval_signed_runs).0 approval
      (answer approval_signed story.approval_signed_runs).1

verify-IsSigned_example :
    IsSigned crypto settings.signing_key service.approval_json approval_request_label form.request
      (answer approval_verified story.approval_verified_runs).0
verify-IsSigned_example =
    verify-IsSigned crypto settings.signing_key service.approval_json approval_request_label
      form.request (answer approval_verified story.approval_verified_runs).0
      (answer approval_verified story.approval_verified_runs).1

verify_pkce_iff_example :
    (verify_pkce crypto verifier (crypto.encode (crypto.sha256 (as_bytes verifier))) ≡ true) ↔ (
      (43 ≤ length verifier)
      × (length verifier ≤ 128)
      × All IsUnreserved verifier
      × (crypto.encode (crypto.sha256 (as_bytes verifier))
          ≡ crypto.encode (crypto.sha256 (as_bytes verifier))))
verify_pkce_iff_example =
    verify_pkce_iff crypto verifier (crypto.encode (crypto.sha256 (as_bytes verifier)))

authenticate_client-IsAuthentic_example :
    IsAuthentic crypto settings.signing_key parse_url service.client_json code_request none
      (answer
        (authenticate_client crypto settings.signing_key parse_url service.client_json code_request
          none)
        story.client_runs).0
authenticate_client-IsAuthentic_example =
    authenticate_client-IsAuthentic crypto settings.signing_key parse_url service.client_json
      code_request none
      (answer
        (authenticate_client crypto settings.signing_key parse_url service.client_json code_request
          none)
        story.client_runs).0
      (answer
        (authenticate_client crypto settings.signing_key parse_url service.client_json code_request
          none)
        story.client_runs).1

client_from_id-register_client_example :
    (client : RegisteredClient) × (client_from_id crypto settings.signing_key parse_url
        service.client_json
        (answer registered story.registered_runs).0.client_id
      ≡ ok client)
    × (client.client_id ≡ (answer registered story.registered_runs).0.client_id)
    × (client.redirect_uris ≡ TextSet.from_list registration.redirect_uris)
    × (parse_method registration.token_endpoint_auth_method ≡ ok client.token_endpoint_auth_method)
    × (client.scopes ≡ registered_scopes registration.scope)
client_from_id-register_client_example =
    client_from_id-register_client crypto settings.signing_key parse_url service.client_json
      registration 10 (answer registered story.registered_runs).0
      (answer registered story.registered_runs).1 short_id

authenticate_bearer-IsAccepted_example :
    IsAccepted service.server redeemed.1.refresh_tokens 40 access_token
      (answer authenticated story.bearer_runs).0.scope
authenticate_bearer-IsAccepted_example =
    authenticate_bearer-IsAccepted service.server redeemed.1.refresh_tokens 40 access_token
      (answer authenticated story.bearer_runs).0 (answer authenticated story.bearer_runs).1

abbrev response : TokenResponse
response = (answer_and_state issued story.issued_runs).0

issue_token_pair-IsIssued_example :
    IsIssued service.server both_scopes client_id pair_inputs initial.refresh_tokens issued.1
      response
issue_token_pair-IsIssued_example =
    issue_token_pair-IsIssued service.server both_scopes settings.resource client_id pair_inputs
      initial.refresh_tokens issued.1 response (answer_and_state issued story.issued_runs).1

authenticate_bearer-issue_token_pair_example :
    authenticate_bearer service.server issued.1 40 response.access_token
    ≡ ok (record {
      scope = Scopes.access_scope both_scopes;
      credential_fingerprint =
          audit_fingerprint crypto settings.signing_key
            (token_hash crypto settings.signing_key response.access_token);
    })
authenticate_bearer-issue_token_pair_example =
    authenticate_bearer-issue_token_pair service.server both_scopes settings.resource client_id
      pair_inputs initial.refresh_tokens issued.1 response 40
      (answer_and_state issued story.issued_runs).1 short_response
      (ground (arith, story.access_fresh)) (ground (arith, story.refresh_fresh))
