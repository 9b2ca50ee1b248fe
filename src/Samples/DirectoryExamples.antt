-- ===== src/Samples/DirectoryExamples.antt =====
-- The theorems on scope directories at the default directories.
use engram_mcp.Common.{
  ◌≡◌, refl, true, false, [], ◌∷◌, text, text_eq, byte_len, len_utf8, has_char, starts_with_char,
  split_once, ok,
}
use engram_mcp.TextSet
use engram_mcp.TextSet.{TextSet}
use engram_mcp.Auth.Access.{tech, private}
use engram_mcp.Directories.{
  ScopeDirectories, is_safe_top_level_directory, directories_refused, scope_directories, top_level,
  is_allowed, is_allowed-tech, is_allowed-inbox, inbox_id_prefix,
}

abbrev public_dirs : TextSet
public_dirs = text "10_tech" ∷ text "20_projects" ∷ []

abbrev private_dirs : TextSet
private_dirs = text "90_private" ∷ []

abbrev directories : ScopeDirectories
directories = record { public = public_dirs; private_dirs = private_dirs }

directories_run : scope_directories public_dirs private_dirs ≡ ok directories
unfolding scope_directories directories_refused is_safe_top_level_directory byte_len len_utf8
    has_char starts_with_char TextSet.contains text_eq
directories_run = refl

diary_is_private : TextSet.contains private_dirs (top_level (text "90_private/diary.md")) ≡ true
unfolding TextSet.contains top_level split_once text_eq
diary_is_private = refl

diary_is_no_index : text_eq (text "90_private/diary.md") (text "INDEX.md") ≡ false
unfolding text_eq
diary_is_no_index = refl

note_is_in_inbox : top_level (text "99_inbox/a.md") ≡ inbox_id_prefix
unfolding top_level split_once
note_is_in_inbox = refl

note_is_no_index : text_eq (text "99_inbox/a.md") (text "INDEX.md") ≡ false
unfolding text_eq
note_is_no_index = refl

is_allowed-tech_example : is_allowed directories tech (text "90_private/diary.md") ≡ false
is_allowed-tech_example =
    is_allowed-tech public_dirs private_dirs directories (text "90_private/diary.md")
      directories_run diary_is_no_index diary_is_private

is_allowed-inbox_example : is_allowed directories private (text "99_inbox/a.md") ≡ false
is_allowed-inbox_example =
    is_allowed-inbox public_dirs private_dirs directories private (text "99_inbox/a.md")
      directories_run note_is_no_index note_is_in_inbox
