-- ===== src/Inbox/Render.antt =====
-- The stored file of a note in src/inbox.rs: `render_note`. The crate `serde_yaml` is a parameter.
pub mod Reader
use engram_mcp.Common.{
  contains_text, ◌≡◌, refl, Bool, false, ◌&&◌, ◌||◌, Option, none, some, [], ◌∷◌, ◌++◌, Text, text,
  is_empty, starts_with, ends_with_char, strip_prefix, ◌==◌, if◌then◌else◌, Result, ok, ◌>>=◌, ◌>>◌,
  reject_if, ok_or, arith,
}
use engram_mcp.Inbox.Checks.{InboxError, invalid_title}

pub record NoteFrontMatter : Type 0 where
  pub title : Text
  pub created : Text
  pub occurred : Option Text
  pub source : Text
  pub fingerprint : Text

abbrev pub note_source : Text
note_source = text "mcp:append_note"

-- `trim_end_matches('\n')`.
unfoldable pub trim_newlines : Text → Text
trim_newlines [] = []
trim_newlines (c ∷ s) =
    let rest = trim_newlines s in if is_empty rest && c == 10 then [] else c ∷ rest

-- `strip_prefix("---\n").unwrap_or(&front_matter)`.
unfoldable pub without_marker : Text → Text
without_marker t = elim (strip_prefix (b'-' ∷ b'-' ∷ b'-' ∷ 10 ∷ []) t) [
  | none ↦ t
  | some rest ↦ rest
]

-- A line break and three dashes: what ends the front matter.
abbrev pub closing : Text
closing = 10 ∷ b'-' ∷ b'-' ∷ b'-' ∷ []

unfoldable pub with_newline : Text → Text
with_newline note = if ends_with_char 10 note then note else note ++ 10 ∷ []

unfoldable pub assemble : (front_matter body : Text) → Text
assemble front_matter body =
    with_newline (b'-' ∷ b'-' ∷ b'-' ∷ 10 ∷ (front_matter ++ (closing ++ (10 ∷ 10 ∷ body))))

module _ (to_yaml : NoteFrontMatter → Option Text) where
  unfoldable pub render_note :
      (title created : Text) → Option Text → (fingerprint body : Text) → Result InboxError Text
  render_note title created occurred fingerprint body = do
    yaml ←
        ok_or
          (to_yaml (record {
            title = title;
            created = created;
            occurred = occurred;
            source = note_source;
            fingerprint = fingerprint;
          }))
          invalid_title
    let front_matter = trim_newlines (without_marker yaml)
    reject_if (contains_text closing front_matter) invalid_title
    ok (assemble front_matter body)
