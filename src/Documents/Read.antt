-- ===== src/Documents/Read.antt =====
-- The reading of documents in src/document.rs. The file system, `serde_yaml` and the walker of the
-- crate `ignore` are a parameter.
pub mod Limited
use engram_mcp.Common.{
  ℕ, zero, suc, ◌-◌, min, Bool, true, false, not, ◌||◌, ◌&&◌, Option, none, some, List, [], ◌∷◌,
  ◌++◌, Text, text, text_eq, is_empty, length, take, strip_prefix, ends_with, ltb, leb, ◌==◌,
  if◌then◌else◌, Result, ok, err, ◌>>=◌, ◌>>◌, reject_if, ok_or, map_err,
}
use engram_mcp.Utf8.{from_utf8}
use engram_mcp.TextSet
use engram_mcp.TextSet.{TextSet}
use engram_mcp.Auth.Access.{AccessScope, allows_private}
use engram_mcp.OAuth.Signing.{saturating_add}
use engram_mcp.Config.Values.{split, join}
use engram_mcp.Directories.{ScopeDirectories, is_allowed}
use engram_mcp.Documents.Id.{
  StoreError, not_found, invalid_utf8, io, components, file_name, has_md_extension, parse,
}

pub record DocumentMetadata : Type 0 where
  pub title : Text
  pub description : Text
  pub updated : Option Text

pub record FetchedDocument : Type 0 where
  pub id : Text
  pub contents : Text
  pub metadata : DocumentMetadata
  pub truncated : Bool

pub record FrontMatter : Type 0 where
  pub title : Option Text
  pub description : Option Text
  pub updated : Option Text

-- How the opening of a file fails, and what an open file is.
pub data Errno : Type 0 where
  noent notdir loop xdev other_errno : Errno

pub data Opened : Type 0 where
  fails : Errno → Opened
  no_metadata : Opened
  special : Opened
  regular : (contents : Option (List ℕ)) → Opened

-- What the walker finds below a directory: a failure, or a path below the root, its parts, with
-- whether it is a file.
pub data Walked : Type 0 where
  failed : Walked
  entry : (is_file : Bool) (parts : List Text) → Walked

pub record DocumentStore : Type 0 where
  pub directories : ScopeDirectories
  pub max_read_bytes : ℕ
  pub max_search_file_bytes : ℕ

-- The file system below the root, and `serde_yaml`.
pub record Disk : Type 0 where
  pub has_index : Bool
  pub exists : (directory : Text) → Bool
  pub walk : (directory : Text) → List Walked
  pub open_beneath : (id : Text) → Opened
  pub from_yaml : Text → Option FrontMatter

unfoldable pub map_open_error : Errno → StoreError
map_open_error noent = not_found
map_open_error notdir = not_found
map_open_error loop = not_found
map_open_error xdev = not_found
map_open_error other_errno = io

-- The bytes of the file, or none for an error of its reading.
unfoldable pub open_regular_file : Disk → (id : Text) → Result StoreError (Option (List ℕ))
open_regular_file disk id = elim (disk.open_beneath id) [
  | fails e ↦ err (map_open_error e)
  | no_metadata ↦ err io
  | special ↦ err not_found
  | regular contents ↦ ok contents
]

abbrev pub is_utf8 : List ℕ → Bool
is_utf8 bytes = elim (from_utf8 bytes) [ none ↦ false | some _ ↦ true ]

-- The loop that drops bytes from the end until the rest is UTF-8; `n` bytes are left.
unfoldable pub pop_invalid : (n : ℕ) → List ℕ → List ℕ
pop_invalid zero bytes = []
pop_invalid (suc n) bytes =
    let rest = pop_invalid n bytes in
    if is_utf8 (take (suc n) bytes) then take (suc n) bytes else rest

abbrev pub decoded : (truncated : Bool) → Option Text → Result StoreError (Text × Bool)
decoded truncated none = err invalid_utf8
decoded truncated (some contents) = ok (contents, truncated)

unfoldable pub decode_limited : (bytes : List ℕ) (max_bytes : ℕ) → Result StoreError (Text × Bool)
decode_limited bytes max_bytes =
    let truncated = ltb max_bytes (length bytes) in
    let kept = if truncated then pop_invalid max_bytes bytes else bytes in
    decoded truncated (from_utf8 kept)

unfoldable pub read_utf8_limited :
    (file : Option (List ℕ)) (max_bytes : ℕ) → Result StoreError (Text × Bool)
read_utf8_limited file max_bytes = do
  bytes ← ok_or file io
  decode_limited (take (saturating_add max_bytes 1) bytes) max_bytes

-- `str::find` of a text: what stands before its first place.
unfoldable pub before : (pattern : Text) → Text → Option Text
before pattern [] = if is_empty pattern then some [] else none
before pattern (c ∷ s) =
    let rest = before pattern s in
    elim (strip_prefix pattern (c ∷ s)) [
      | some _ ↦ some []
      | none ↦ elim rest [ none ↦ none | some prefix ↦ some (c ∷ prefix) ]
    ]

-- `file_stem` of a name with the extension `md`.
unfoldable pub file_stem : Text → Text
file_stem name = take (length name - 3) name

unfoldable pub fallback_title : (id : Text) → Text
fallback_title id = elim (file_name (components id)) [
  | none ↦ text "Untitled"
  | some name ↦ file_stem name
]

abbrev pub or_default : Option Text → Text → Text
or_default none default = default
or_default (some t) default = t

unfoldable pub front_matter : Disk → Text → Option FrontMatter
front_matter disk contents = elim (strip_prefix (b'-' ∷ b'-' ∷ b'-' ∷ 10 ∷ []) contents) [
  | none ↦ none
  | some rest ↦ elim (before (10 ∷ b'-' ∷ b'-' ∷ b'-' ∷ 10 ∷ []) rest) [
    | none ↦ none
    | some yaml ↦ disk.from_yaml yaml
  ]
]

unfoldable pub parse_metadata : Disk → (contents id : Text) → DocumentMetadata
parse_metadata disk contents id = elim (front_matter disk contents) [
  | none ↦ record { title = fallback_title id; description = []; updated = none }
  | some matter ↦ record {
    title = or_default matter.title (fallback_title id);
    description = or_default matter.description [];
    updated = matter.updated;
  }
]

module _ (store : DocumentStore) (disk : Disk) where
  unfoldable pub read_limited :
      AccessScope → (id : Text) (max_bytes : ℕ) → Result StoreError FetchedDocument
  read_limited scope id max_bytes = do
    reject_if (not (is_allowed store.directories scope id)) not_found
    file ← open_regular_file disk id
    result ← read_utf8_limited file max_bytes
    ok (record {
      id = id;
      contents = result.0;
      metadata = parse_metadata disk result.0 id;
      truncated = result.1;
    })

  unfoldable pub read : AccessScope → (id : Text) → Result StoreError FetchedDocument
  read scope id = read_limited scope id store.max_read_bytes

  unfoldable pub read_for_search : AccessScope → (id : Text) → Result StoreError FetchedDocument
  read_for_search scope id = read_limited scope id store.max_search_file_bytes

  unfoldable pub is_document : (is_file : Bool) (parts : List Text) → Bool
  is_document is_file parts =
      is_file && has_md_extension (file_name (components (join (text "/") parts)))

  -- The ids of the documents that a walk finds, on top of those found before.
  unfoldable pub walked_ids : List Walked → List Text → Result StoreError (List Text)
  walked_ids [] ids = ok ids
  walked_ids (failed ∷ rest) ids = err io
  walked_ids (entry is_file parts ∷ rest) ids = elim (is_document is_file parts) [
    | true ↦ parse (join (text "/") parts) >>= (λ id. walked_ids rest (id ∷ ids))
    | false ↦ walked_ids rest ids
  ]

  unfoldable pub walk_roots : (roots : List Text) → List Text → Result StoreError (List Text)
  walk_roots [] ids = ok ids
  walk_roots (top_level ∷ roots) ids = elim (disk.exists top_level) [
    | true ↦ walked_ids (disk.walk top_level) ids >>= walk_roots roots
    | false ↦ walk_roots roots ids
  ]

  unfoldable pub roots : AccessScope → List Text
  roots scope =
      if allows_private scope
      then store.directories.public ++ store.directories.private_dirs
      else store.directories.public

  -- Sorting and dropping equal neighbours gives the increasing list of the ids.
  unfoldable pub candidate_ids : AccessScope → Result StoreError TextSet
  candidate_ids scope = do
    index ← if disk.has_index then (parse (text "INDEX.md") >>= λ id. ok (id ∷ [])) else ok []
    ids ← walk_roots (roots scope) index
    ok (TextSet.from_list ids)
