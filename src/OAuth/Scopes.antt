-- ===== src/OAuth/Scopes.antt =====
-- `ScopeGrant` of src/oauth.rs.
pub mod Laws
use engram_mcp.Common.{
  Bool, true, false, not, ◌&&◌, ◌||◌, Option, none, some, List, [], ◌∷◌, ◌++◌, Text, text, text_eq,
  byte_len, split_whitespace, ltb, if◌then◌else◌, Result, ok, err, all, any, is_empty,
}
use engram_mcp.TextSet
use engram_mcp.TextSet.{TextSet}
use engram_mcp.Auth.Access.{AccessScope, tech, private}
use engram_mcp.OAuth.Error.{OAuthError, invalid_scope}

abbrev pub scope_tech : Text
scope_tech = text "kb:tech"

abbrev pub scope_private : Text
scope_private = text "kb:private"

pub record ScopeGrant : Type 0 where
  pub scopes : TextSet

unfoldable pub is_known_scope : Text → Bool
is_known_scope scope = text_eq scope scope_tech || text_eq scope scope_private

unfoldable pub filter_known : List Text → List Text
filter_known [] = []
filter_known (s ∷ ss) = if is_known_scope s then s ∷ filter_known ss else filter_known ss

unfoldable pub parse : Text → Result OAuthError ScopeGrant
parse value =
    if ltb 256 (byte_len value)
    then err invalid_scope
    else (let scopes = TextSet.from_list (split_whitespace value) in
        if is_empty scopes || any (λ scope. not (is_known_scope scope)) scopes
        then err invalid_scope
        else ok (record { scopes = scopes }))

unfoldable pub default_for_new_client : ScopeGrant
default_for_new_client = record { scopes = TextSet.from_list (scope_tech ∷ scope_private ∷ []) }

unfoldable pub parse_lenient : Text → ScopeGrant
parse_lenient value =
    let scopes = TextSet.from_list (filter_known (split_whitespace value)) in
    if is_empty scopes then default_for_new_client else record { scopes = scopes }

unfoldable pub access_scope : ScopeGrant → AccessScope
access_scope grant = if TextSet.contains grant.scopes scope_private then private else tech

unfoldable pub allows_scope : ScopeGrant → Text → Bool
allows_scope grant scope =
    TextSet.contains grant.scopes scope
    || text_eq scope scope_tech && TextSet.contains grant.scopes scope_private

unfoldable pub allows : ScopeGrant → ScopeGrant → Bool
allows grant requested = all (allows_scope grant) requested.scopes

unfoldable pub is_subset_of : ScopeGrant → ScopeGrant → Bool
is_subset_of grant requested = TextSet.is_subset grant.scopes requested.scopes

unfoldable pub is_valid : ScopeGrant → Bool
is_valid grant = not (is_empty grant.scopes) && all is_known_scope grant.scopes

-- `values`: the known scopes that the grant holds, in a fixed order.
unfoldable pub values : ScopeGrant → List Text
values grant =
    let rest = if TextSet.contains grant.scopes scope_private then scope_private ∷ [] else [] in
    if TextSet.contains grant.scopes scope_tech then scope_tech ∷ rest else rest

unfoldable pub join_space : List Text → Text
join_space [] = []
join_space (s ∷ []) = s
join_space (s ∷ t ∷ ss) = s ++ text " " ++ join_space (t ∷ ss)

unfoldable pub as_string : ScopeGrant → Text
as_string grant = join_space (values grant)
