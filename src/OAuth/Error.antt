-- ===== src/OAuth/Error.antt =====
-- `OAuthError` of src/oauth.rs.
use engram_mcp.Common.{Text, text}

pub data OAuthError : Type 0 where
  invalid_configuration invalid_authorization_request invalid_client invalid_grant : OAuthError
  invalid_scope invalid_target invalid_request invalid_owner entropy internal : OAuthError

unfoldable pub error_code : OAuthError → Text
error_code invalid_authorization_request = text "invalid_request"
error_code invalid_request = text "invalid_request"
error_code invalid_client = text "invalid_client"
error_code invalid_grant = text "invalid_grant"
error_code invalid_scope = text "invalid_scope"
error_code invalid_target = text "invalid_target"
error_code invalid_owner = text "access_denied"
error_code invalid_configuration = text "server_error"
error_code entropy = text "server_error"
error_code internal = text "server_error"
