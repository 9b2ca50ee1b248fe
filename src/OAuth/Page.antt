-- ===== src/OAuth/Page.antt =====
-- The approval page of src/oauth.rs: `render_approval_page` and `escape_html`.
use engram_mcp.Common.{
  ℕ, ◌≡◌, refl, Bool, true, false, ◌||◌, List, [], ◌∷◌, ◌++◌, Text, text, has_char, ◌==◌,
  if◌then◌else◌, arith,
}
use engram_mcp.OAuth.Scopes
use engram_mcp.OAuth.Codes.{SignedApprovalRequest}

unfoldable pub escape_char : ℕ → Text
escape_char c =
    if c == b'&'
    then text "&amp;"
    else if c == b'<'
    then text "&lt;"
    else if c == b'>'
    then text "&gt;"
    else if c == b'"'
    then text "&quot;"
    else if c == 39
    then text "&#x27;"
    else c ∷ []

unfoldable pub escape_html : Text → Text
escape_html [] = []
escape_html (c ∷ value) = escape_char c ++ escape_html value

-- One choice of the scope; the first one is checked.
unfoldable pub scope_option : (checked : Text) (scope : Text) → Text
scope_option checked scope =
    text "<label><input type=\"radio\" name=\"scope\" value=\""
    ++ (escape_html scope
        ++ (text "\"" ++ (checked ++ (text "> " ++ (escape_html scope ++ text "</label>")))))

-- The choices after the first, each behind a line break.
unfoldable pub more_options : List Text → Text
more_options [] = []
more_options (scope ∷ scopes) = text "<br>" ++ (scope_option [] scope ++ more_options scopes)

unfoldable pub scope_options : List Text → Text
scope_options [] = []
scope_options (scope ∷ scopes) = scope_option (text " checked") scope ++ more_options scopes

-- The markup around the five values of the page.
unfoldable pub page : (client_id redirect_uri resource request options : Text) → Text
page client_id redirect_uri resource request options =
    text
      "<!doctype html><html lang=\"en\"><head><meta charset=\"utf-8\"><meta name=\"viewport\" content=\"width=device-width,initial-scale=1\"><title>Engram MCP authorization</title></head><body><main><h1>Authorize Engram MCP</h1><p>Client: <code>"
    ++ (client_id
        ++ (text "</code></p><p>Redirect URI: <code>"
            ++ (redirect_uri
                ++ (text "</code></p><p>Resource: <code>"
                    ++ (resource
                        ++ (text
                              "</code></p><form method=\"post\" action=\"/oauth/authorize\"><input type=\"hidden\" name=\"request\" value=\""
                            ++ (request
                                ++ (text
                                      "\"><label>Owner secret <input type=\"password\" name=\"owner_secret\" autocomplete=\"current-password\" required></label><fieldset><legend>Grant scope</legend>"
                                    ++ (options
                                        ++ text
                                            "</fieldset><button type=\"submit\" name=\"decision\" value=\"approve\">Approve</button><button type=\"submit\" name=\"decision\" value=\"deny\">Deny</button></form></main></body></html>")))))))))

unfoldable pub render_approval_page : Text → SignedApprovalRequest → Text
render_approval_page request approval =
    page (escape_html approval.client_id) (escape_html approval.redirect_uri)
      (escape_html approval.resource) (escape_html request)
      (scope_options (Scopes.values approval.requested_scopes))

-- The characters that end a text or an attribute of the page.
abbrev pub is_markup : ℕ → Bool
is_markup c = c == b'<' || c == b'>' || c == b'"' || c == 39

has_char-append : (c : ℕ) (s t : Text) → has_char c (s ++ t) ≡ (has_char c s || has_char c t)
unfolding has_char
has_char-append c [] t = refl
has_char-append c (d ∷ s) t = ground (arith, has_char-append c s t)

escape_char-has_char : (m c : ℕ) → is_markup m ≡ true → has_char m (escape_char c) ≡ false
unfolding escape_char has_char
escape_char-has_char m c h = ground arith

-- An escaped text holds no angle bracket, no double quote and no apostrophe.
pub escape_html-has_char :
    (value : Text) (m : ℕ) → is_markup m ≡ true → has_char m (escape_html value) ≡ false
unfolding escape_html has_char
escape_html-has_char [] m h = refl
escape_html-has_char (c ∷ value) m h = ground (
  arith,
  has_char-append m (escape_char c) (escape_html value),
  escape_char-has_char m c h,
  escape_html-has_char value m h,
)
