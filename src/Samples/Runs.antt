-- ===== src/Samples/Runs.antt =====
-- The story of the sample server runs to its end.
use engram_mcp.Utf8.{as_bytes, encode_char}
use engram_mcp.Common.{
  len_utf8, byte_len, text_eq, has_char, strip_prefix, starts_with, split_once, is_whitespace,
  is_ascii_lowercase, is_ascii_digit, is_ascii_alphabetic, is_ascii_alphanumeric, words_from,
  split_whitespace,
}
use engram_mcp.TextSet
use engram_mcp.HashMap
use engram_mcp.OAuth.Scopes
use engram_mcp.OAuth.Crates.{constant_time_equal}
use engram_mcp.OAuth.Signing.{
  audit_fingerprint, saturating_add, mac_message, mac, token_hash, refresh_token_id_hash,
  client_binding, client_secret, sign, check_signature, verify_parts, verify, verify_token,
  random_value,
}
use engram_mcp.OAuth.Families.{
  default_state, is_live, prune, write_file, persist, commit, commit_if, create_family,
  rotate_found, rotate, is_active,
}
use engram_mcp.OAuth.Tokens.{
  claims_refused, authenticate_bearer, access_claims, issue_access_token, refresh_claims,
  sign_refresh_token, complete_pair, prepare_token_pair, store_family, issue_token_pair,
}
use engram_mcp.OAuth.Clients.{
  method_or, parse_method, is_local_host, check_url, validate_redirect_uri, validate_either,
  collect_uris, grant_types_refused, response_types_refused, application_type_or, registered_scopes,
  secret_for, secret_expiry, registration_response, register_client, client_of_payload,
  client_from_id, method_as_str,
}
use engram_mcp.OAuth.TokenClient.{
  basic_of, presented_id, basic_secret, check_secret, check_method, authenticate_with,
  authenticate_client,
}
use engram_mcp.OAuth.Pkce.{
  is_challenge_char, valid_code_challenge, is_verifier_char, valid_code_verifier, verify_pkce,
}
use engram_mcp.OAuth.Codes.{
  find_client, redirect_url, check_form, granted_scopes, code_record, store_code, grant_code,
  approve, decide, complete_authorization,
}
use engram_mcp.OAuth.Authorize.{
  long_state, query_scopes, validate_authorization_query, approval_request, check_query,
}
use engram_mcp.OAuth.Exchange.{
  check_code_request, code_refused, redeem, consume, exchange_authorization_code, refresh_refused,
  refresh_scopes, next_tokens, check_claims, prepare_refresh, rotate_prepared,
  exchange_refresh_token,
}
use engram_mcp.Common.{
  ◌≡◌, refl, Bool, true, false, Result, ok, err, Option, none, some, leb, ltb, text, arith,
}
use engram_mcp.Auth.Access.{private}
use engram_mcp.OAuth.Signing.{access_token_label}
use engram_mcp.OAuth.Tokens.{TokenResponse}
use engram_mcp.HashMap.{text_key}
use engram_mcp.OAuth.Error.{OAuthError, invalid_grant}
use engram_mcp.Samples.Crates.{crypto}
use engram_mcp.Samples.Service.{
  redeemed, refreshed, registered, approved_state, settings, service, query, approval, form,
  parse_url, issued, approval_verified, both_scopes, tech_only, private_only, text_of, pair_inputs,
  code, code_request, authenticated, approval_signed, created, rotated, reused, client_id,
}

abbrev pub is_ok {ℓ} : {A : Type ℓ} → Result OAuthError A → Bool
is_ok (ok a) = true
is_ok (err e) = false

abbrev pub is_some {ℓ} : {A : Type ℓ} → Option A → Bool
is_some none = false
is_some (some a) = true

-- The value of an answer that is not an error.
pub answer {ℓ} : {A : Type ℓ} (r : Result OAuthError A) → is_ok r ≡ true → (a : A) × (r ≡ ok a)
answer (ok a) h = (a, refl)
answer (err e) h = absurd (ground arith)

pub answer_and_state {ℓ κ} :
    {A : Type ℓ} {S : Type κ} (r : Result OAuthError A × S)
    → is_ok r.0 ≡ true
    → (a : A) × (r ≡ (ok a, r.1))
answer_and_state (ok a, s) h = (a, refl)
answer_and_state (err e, s) h = absurd (ground arith)

pub found {ℓ} : {A : Type ℓ} (o : Option A) → is_some o ≡ true → (a : A) × (o ≡ some a)
found none h = absurd (ground arith)
found (some a) h = (a, refl)

-- What each step of the story answers.
pub record Story : Type 0 where
  pub redeemed_runs : is_ok redeemed.0 ≡ true
  pub refreshed_runs : is_ok refreshed.0 ≡ true
  pub registered_runs : is_ok registered ≡ true
  pub approval_runs :
      is_some (
        HashMap.get approved_state.authorization_codes
          (token_hash crypto settings.signing_key code))
      ≡ true
  pub client_runs :
      is_ok (
        authenticate_client crypto settings.signing_key parse_url service.client_json code_request
          none)
      ≡ true
  pub bearer_runs : is_ok authenticated ≡ true
  pub approval_signed_runs : is_ok approval_signed ≡ true
  pub created_runs : is_ok created.0 ≡ true
  pub rotated_runs : is_ok rotated.0 ≡ true
  pub reused_runs : reused.0 ≡ err invalid_grant
  pub short_client_id : leb (byte_len client_id) 8192 ≡ true
  pub issued_runs : is_ok issued.0 ≡ true
  pub issued_short :
      leb (byte_len (text_of (λ (r : TokenResponse). r.access_token) issued.0)) 8192 ≡ true
  pub access_fresh :
      ltb 40 (saturating_add pair_inputs.access_issued_at settings.access_token_ttl_seconds) ≡ true
  pub refresh_fresh :
      ltb 40 (saturating_add pair_inputs.issued_at settings.refresh_token_ttl_seconds) ≡ true
  pub approval_verified_runs : is_ok approval_verified ≡ true
  pub query_runs : check_query service query 0 ≡ ok approval
  pub form_short : leb (byte_len (text_of (λ t. t) approval_signed)) 8192 ≡ true
  pub secret_short : leb (byte_len form.owner_secret) 8192 ≡ true
  pub scope_short : leb (byte_len form.scope) 256 ≡ true
  pub form_fresh : ltb 15 (saturating_add 0 300) ≡ true
  pub parsed : Scopes.parse (text "kb:tech kb:private") ≡ ok both_scopes
  pub both_allow_both : Scopes.allows both_scopes both_scopes ≡ true
  pub both_allow_private : Scopes.allows both_scopes private_only ≡ true
  pub private_allows_tech : Scopes.allows private_only tech_only ≡ true
  pub tech_subset : Scopes.is_subset_of tech_only both_scopes ≡ true
  pub private_access : Scopes.access_scope private_only ≡ private
  pub label_has_no_zero : has_char 0 access_token_label ≡ false

pub story : Story
unfolding as_bytes encode_char len_utf8 byte_len text_eq has_char strip_prefix starts_with
    split_once is_whitespace is_ascii_lowercase is_ascii_digit is_ascii_alphabetic
    is_ascii_alphanumeric words_from split_whitespace TextSet.text_lt TextSet.insert
    TextSet.from_list TextSet.contains TextSet.is_subset HashMap.empty HashMap.get
    HashMap.contains_key HashMap.remove HashMap.insert HashMap.retain HashMap.len
    Scopes.is_known_scope Scopes.filter_known Scopes.parse Scopes.parse_lenient
    Scopes.default_for_new_client Scopes.access_scope Scopes.allows_scope Scopes.allows
    Scopes.is_subset_of Scopes.is_valid Scopes.values Scopes.join_space Scopes.as_string
    constant_time_equal audit_fingerprint saturating_add mac_message mac token_hash
    refresh_token_id_hash client_binding client_secret sign check_signature verify_parts verify
    verify_token random_value default_state is_live prune write_file persist commit commit_if
    create_family rotate_found rotate is_active claims_refused authenticate_bearer access_claims
    issue_access_token refresh_claims sign_refresh_token complete_pair prepare_token_pair
    store_family issue_token_pair method_or parse_method is_local_host check_url
    validate_redirect_uri validate_either collect_uris grant_types_refused response_types_refused
    application_type_or registered_scopes secret_for secret_expiry registration_response
    register_client client_of_payload client_from_id method_as_str basic_of presented_id
    basic_secret check_secret check_method authenticate_with authenticate_client is_challenge_char
    valid_code_challenge is_verifier_char valid_code_verifier verify_pkce find_client redirect_url
    check_form granted_scopes code_record store_code grant_code approve decide
    complete_authorization long_state query_scopes validate_authorization_query approval_request
    check_query check_code_request code_refused redeem consume exchange_authorization_code
    refresh_refused refresh_scopes next_tokens check_claims prepare_refresh rotate_prepared
    exchange_refresh_token
story = record {
  redeemed_runs = refl;
  refreshed_runs = refl;
  registered_runs = refl;
  approval_runs = refl;
  client_runs = refl;
  bearer_runs = refl;
  approval_signed_runs = refl;
  created_runs = refl;
  rotated_runs = refl;
  reused_runs = refl;
  short_client_id = refl;
  issued_runs = refl;
  issued_short = refl;
  access_fresh = refl;
  refresh_fresh = refl;
  approval_verified_runs = refl;
  query_runs = refl;
  form_short = refl;
  secret_short = refl;
  scope_short = refl;
  form_fresh = refl;
  parsed = refl;
  both_allow_both = refl;
  both_allow_private = refl;
  private_allows_tech = refl;
  tech_subset = refl;
  private_access = refl;
  label_has_no_zero = refl;
}
