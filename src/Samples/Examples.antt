-- ===== src/Samples/Examples.antt =====
-- The theorems on src/oauth.rs at the story of the sample server.
use engram_mcp.Common.{
  text, true, has_char, byte_len, ap, arith, ◌≤◌, false, ◌≡◌, ◌≢◌, ◌⊎◌, refl, none, some, ok,
}
use engram_mcp.HashMap
use engram_mcp.HashMap.{text_key}
use engram_mcp.OAuth.Signing.{token_hash}
use engram_mcp.OAuth.Tokens.{TokenResponse}
use engram_mcp.OAuth.Families.{RefreshTokenStore}
use engram_mcp.OAuth.Exchange.{exchange_authorization_code, exchange_token}
use engram_mcp.OAuth.Exchange.SingleUse.{done, next, token, exchange_authorization_code-once}
use engram_mcp.OAuth.Exchange.Codes.{IsRedeemed, exchange_authorization_code-IsRedeemed}
use engram_mcp.OAuth.Exchange.Refresh.{IsRefreshed, exchange_refresh_token-IsRefreshed}
use engram_mcp.OAuth.Codes.Approve.{IsApproved, complete_authorization-IsApproved}
use engram_mcp.OAuth.Clients.{RegisteredClient}
use engram_mcp.OAuth.Codes.{ApprovalForm, find_client, check_form}
use engram_mcp.OAuth.Page.{escape_html, escape_html-has_char}
use engram_mcp.OAuth.Authorize.{
  begin_authorization, IsBegun, begin_authorization-IsBegun, check_form-check_query,
}
use engram_mcp.Samples.Crates.{crypto}
use engram_mcp.Samples.Service.{
  redeemed, refreshed, initial, approved_state, settings, service, query, approval, approval_signed,
  text_of, code, code_request, refresh_request, form, approval_inputs, pair_inputs, refresh_inputs,
}
use engram_mcp.Samples.Runs.{is_ok, answer, answer_and_state, found, story}

begun_runs : is_ok (begin_authorization service query 0) ≡ true
unfolding begin_authorization
begun_runs = ground (arith, story.query_runs, (answer approval_signed story.approval_signed_runs).1)

abbrev response : TokenResponse
response = (answer_and_state redeemed story.redeemed_runs).0

abbrev later_request : RefreshTokenStore
later_request = redeemed.1.refresh_tokens

exchange_authorization_code-IsRedeemed_example :
    IsRedeemed service code_request none 20 pair_inputs approved_state response redeemed.1
exchange_authorization_code-IsRedeemed_example =
    exchange_authorization_code-IsRedeemed service code_request none 20 pair_inputs approved_state
      redeemed.1 response (answer_and_state redeemed story.redeemed_runs).1

exchange_authorization_code-once_example :
    exchange_authorization_code service code_request none 25 pair_inputs
      (exchange_token service refresh_request none 22 pair_inputs refresh_inputs redeemed.1).1
    ≢ (ok response, redeemed.1)
exchange_authorization_code-once_example =
    exchange_authorization_code-once service code code_request code_request none none 20 25
      pair_inputs pair_inputs approved_state redeemed.1
      (exchange_token service refresh_request none 22 pair_inputs refresh_inputs redeemed.1).1
      redeemed.1 response response refl refl (answer_and_state redeemed story.redeemed_runs).1
      (next redeemed.1
        (exchange_token service refresh_request none 22 pair_inputs refresh_inputs redeemed.1).1
        (exchange_token service refresh_request none 22 pair_inputs refresh_inputs redeemed.1).1
        (token refresh_request none 22 pair_inputs refresh_inputs redeemed.1)
        (done
          (exchange_token service refresh_request none 22 pair_inputs refresh_inputs redeemed.1).1))

exchange_refresh_token-IsRefreshed_example :
    IsRefreshed service refresh_request none refresh_inputs redeemed.1
      (answer_and_state refreshed story.refreshed_runs).0
      refreshed.1
exchange_refresh_token-IsRefreshed_example =
    exchange_refresh_token-IsRefreshed service refresh_request none refresh_inputs redeemed.1
      refreshed.1 (answer_and_state refreshed story.refreshed_runs).0
      (answer_and_state refreshed story.refreshed_runs).1

complete_authorization-IsApproved_example :
    (HashMap.get initial.authorization_codes (token_hash crypto settings.signing_key code)
      ≡ some
          (found
            (HashMap.get approved_state.authorization_codes
              (token_hash crypto settings.signing_key code))
            story.approval_runs).0)
    ⊎ IsApproved service form approval_inputs
        (token_hash crypto settings.signing_key code)
        (found
          (HashMap.get approved_state.authorization_codes
            (token_hash crypto settings.signing_key code))
          story.approval_runs).0
complete_authorization-IsApproved_example =
    complete_authorization-IsApproved service form approval_inputs initial
      (token_hash crypto settings.signing_key code)
      (found
        (HashMap.get approved_state.authorization_codes
          (token_hash crypto settings.signing_key code))
        story.approval_runs).0
      (found
        (HashMap.get approved_state.authorization_codes
          (token_hash crypto settings.signing_key code))
        story.approval_runs).1

escape_html-has_char_example : has_char b'<' (escape_html (text "<a>")) ≡ false
escape_html-has_char_example = escape_html-has_char (text "<a>") b'<' refl

signed_short : byte_len (answer approval_signed story.approval_signed_runs).0 ≤ 8192
signed_short = ground (
  arith,
  story.form_short,
  ap (text_of (λ t. t)) (answer approval_signed story.approval_signed_runs).1,
)

-- The form as the page sends it back.
abbrev sent : ApprovalForm
sent = record form { request = (answer approval_signed story.approval_signed_runs).0 }

check_form-check_query_example :
    (client : RegisteredClient) × (find_client service approval.client_id ≡ ok client)
    × (check_form service sent 15 ≡ ok (approval, client))
check_form-check_query_example =
    check_form-check_query service query 0 15 approval sent story.query_runs
      (answer approval_signed story.approval_signed_runs).1 signed_short
      (ground (arith, story.secret_short)) (ground (arith, story.scope_short))
      (ground (arith, story.form_fresh))

begin_authorization-IsBegun_example :
    IsBegun service query 0 (answer (begin_authorization service query 0) begun_runs).0
begin_authorization-IsBegun_example =
    begin_authorization-IsBegun service query 0
      (answer (begin_authorization service query 0) begun_runs).0
      (answer (begin_authorization service query 0) begun_runs).1
