-- ===== src/Documents/Id.antt =====
-- `DocumentId` of src/document.rs, with `std::path` on Unix as far as it is used.
pub mod Laws
use engram_mcp.Common.{
  ℕ, Bool, true, false, not, ◌||◌, ◌&&◌, Option, none, some, List, [], ◌∷◌, Text, text, text_eq,
  is_empty, has_char, starts_with_char, ends_with, byte_len, is_ascii_alphabetic, ltb, ◌==◌,
  if◌then◌else◌, all, Result, ok, err, ◌>>◌, reject_if,
}
use engram_mcp.Config.Values.{split}

pub data StoreError : Type 0 where
  not_found invalid_document_id invalid_utf8 invalid_query io : StoreError

-- The components of a path that does not begin with a slash.
pub data Component : Type 0 where
  normal : Text → Component
  cur_dir parent_dir : Component

abbrev component : Text → Component
component part = if text_eq part (text "..") then parent_dir else normal part

-- Empty parts and dots are left out, but for a dot at the start.
unfoldable pub later_components : List Text → List Component
later_components [] = []
later_components (part ∷ parts) =
    let rest = later_components parts in
    if is_empty part || text_eq part (text ".") then rest else component part ∷ rest

unfoldable pub components_of : List Text → List Component
components_of [] = []
components_of (part ∷ parts) =
    if text_eq part (text ".")
    then cur_dir ∷ later_components parts
    else later_components (part ∷ parts)

unfoldable pub components : Text → List Component
components path = components_of (split b'/' path)

-- `file_name`: the last component, when it is normal.
unfoldable pub file_name : List Component → Option Text
file_name [] = none
file_name (normal part ∷ []) = some part
file_name (_ ∷ []) = none
file_name (_ ∷ part ∷ parts) = file_name (part ∷ parts)

-- The test that `extension` is `md`: what stands before the dot is not empty.
unfoldable pub has_md_extension : Option Text → Bool
has_md_extension none = false
has_md_extension (some name) = ends_with (text ".md") name && not (text_eq name (text ".md"))

unfoldable pub is_drive : Text → Bool
is_drive (a ∷ b ∷ _) = is_ascii_alphabetic a && b == b':'
is_drive _ = false

unfoldable pub is_visible : Component → Bool
is_visible (normal segment) = not (starts_with_char b'.' segment)
is_visible _ = false

unfoldable pub id_refused : Text → Bool
id_refused value =
    is_empty value
    || ltb 512 (byte_len value)
    || has_char 0 value
    || starts_with_char b'/' value
    || starts_with_char 92 value
    || has_char 92 value
    || is_drive value

unfoldable pub parse : Text → Result StoreError Text
parse value = do
  reject_if (id_refused value) invalid_document_id
  reject_if (not (has_md_extension (file_name (components value)))) invalid_document_id
  reject_if (not (all is_visible (components value))) invalid_document_id
  ok value
