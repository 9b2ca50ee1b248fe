-- ===== src/Directories.antt =====
-- Which directories a scope may read: `ScopeDirectories` of src/config.rs, and `is_allowed` of
-- src/document.rs.
use engram_mcp.Common.{
  ◌≡◌, inl, inr, text_eq_iff, Bool, true, false, not, ◌&&◌, ◌||◌, none, some, [], ◌∷◌, Text, text,
  text_eq, byte_len, any, is_empty, has_char, starts_with_char, split_once, ltb, if◌then◌else◌,
  Result, ok, ◌>>◌, reject_if, arith, Bool-cases,
}
use engram_mcp.TextSet
use engram_mcp.TextSet.{TextSet}
use engram_mcp.Auth.Access.{AccessScope, tech, allows_private}

pub data ConfigError : Type 0 where
  missing empty invalid_scope_directories invalid_integer out_of_range weak_secret :
      (key : Text) → ConfigError
  invalid_kb_root duplicate_keys overlapping_scope_directories inbox_directory_in_scope
        invalid_bind_address missing_allowed_hosts invalid_oauth_issuer invalid_oauth_resource
        invalid_oauth_state_dir invalid_inbox_root :
      ConfigError

pub record ScopeDirectories : Type 0 where
  pub public : TextSet
  pub private_dirs : TextSet

abbrev pub inbox_id_prefix : Text
inbox_id_prefix = text "99_inbox"

-- A name without separators that does not begin with a dot is one normal component of a path, so
-- the test of the components that follows in the source is passed by every name that comes to it.
unfoldable pub is_safe_top_level_directory : Text → Bool
is_safe_top_level_directory value = not (
    is_empty value
    || ltb 128 (byte_len value)
    || starts_with_char b'.' value
    || has_char b'/' value
    || has_char 92 value
    || has_char 0 value
    || has_char b':' value)

unfoldable pub directories_refused : TextSet → Bool
directories_refused directories =
    is_empty directories || any (λ d. not (is_safe_top_level_directory d)) directories

-- `ScopeDirectories::new`.
unfoldable pub scope_directories :
    (public private_dirs : TextSet) → Result ConfigError ScopeDirectories
scope_directories public private_dirs = do
  reject_if (directories_refused public) (invalid_scope_directories (text "KB_PUBLIC_DIRS"))
  reject_if (directories_refused private_dirs) (invalid_scope_directories (text "KB_PRIVATE_DIRS"))
  reject_if (any (TextSet.contains private_dirs) public) overlapping_scope_directories
  reject_if
      (TextSet.contains public inbox_id_prefix || TextSet.contains private_dirs inbox_id_prefix)
      inbox_directory_in_scope
  ok (record { public = public; private_dirs = private_dirs })

unfoldable pub allows_public : ScopeDirectories → Text → Bool
allows_public directories directory = TextSet.contains directories.public directory

unfoldable pub allows_private_directory : ScopeDirectories → Text → Bool
allows_private_directory directories directory = TextSet.contains directories.private_dirs directory

-- `DocumentId::top_level` of an id that passed `parse`, whose components are all normal: what stands
-- before the first slash, or all of the id.
unfoldable pub top_level : Text → Text
top_level id = elim (split_once b'/' id) [ none ↦ id | some parts ↦ parts.0 ]

unfoldable pub is_allowed : ScopeDirectories → AccessScope → (id : Text) → Bool
is_allowed directories scope id =
    if text_eq id (text "INDEX.md")
    then true
    else if allows_public directories (top_level id)
    then true
    else allows_private scope && allows_private_directory directories (top_level id)

any-contains :
    (p : Text → Bool) (s : TextSet) (d : Text)
    → any p s ≡ false
    → TextSet.contains s d ≡ true
    → p d ≡ false
unfolding TextSet.contains
any-contains p [] d h k = ground arith
any-contains p (t ∷ s) d h k = ground (arith, any-contains p s d, text_eq_iff t d)

scope_directories-ok :
    (public private_dirs : TextSet) (directories : ScopeDirectories)
    → scope_directories public private_dirs ≡ ok directories
    → (directories.public ≡ public)
      × (directories.private_dirs ≡ private_dirs)
      × (any (TextSet.contains private_dirs) public ≡ false)
      × (TextSet.contains public inbox_id_prefix ≡ false)
      × (TextSet.contains private_dirs inbox_id_prefix ≡ false)
unfolding scope_directories
scope_directories-ok public private_dirs directories h = ground arith

-- With directories that the configuration accepts, no document of a private directory, the index
-- aside, is allowed to the tech scope.
pub is_allowed-tech :
    (public private_dirs : TextSet) (directories : ScopeDirectories) (id : Text)
    → scope_directories public private_dirs ≡ ok directories
    → text_eq id (text "INDEX.md") ≡ false
    → TextSet.contains private_dirs (top_level id) ≡ true
    → is_allowed directories tech id ≡ false
unfolding is_allowed allows_public allows_private
is_allowed-tech public private_dirs directories id h other mine =
    let (same, same', disjoint, outside, outside') =
      scope_directories-ok public private_dirs directories h in
    elim (Bool-cases (TextSet.contains public (top_level id))) [
      | inl shared ↦ absurd (
          ground (
            arith,
            mine,
            any-contains (TextSet.contains private_dirs) public (top_level id) disjoint shared,
          ))
      | inr apart ↦ ground (arith, same, apart, other)
    ]

-- With directories that the configuration accepts, no document of the inbox, the index aside, is
-- allowed to any scope.
pub is_allowed-inbox :
    (public private_dirs : TextSet) (directories : ScopeDirectories) (scope : AccessScope)
    (id : Text)
    → scope_directories public private_dirs ≡ ok directories
    → text_eq id (text "INDEX.md") ≡ false
    → top_level id ≡ inbox_id_prefix
    → is_allowed directories scope id ≡ false
unfolding is_allowed allows_public allows_private_directory
is_allowed-inbox public private_dirs directories scope id h other inbox =
    let (same, same', disjoint, outside, outside') =
      scope_directories-ok public private_dirs directories h in
    ground (arith, same, same', outside, outside', inbox, other)
