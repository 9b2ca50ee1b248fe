-- ===== src/Inbox/Create.antt =====
-- The writing of a note in src/inbox.rs: `create_note`, `used_bytes` and `create_exclusive`, on the
-- directory they share with other programs. What the system calls answer is a parameter.
pub mod Store
pub mod Prepare
pub mod Writes
pub mod Quota
use engram_mcp.Common.{
  ℕ, zero, suc, ◌+◌, Bool, true, false, not, Option, none, some, List, [], ◌∷◌, ◌++◌, Text, text,
  byte_len, length, take, ltb, if◌then◌else◌, Result, ok, err, ◌>>=◌, ◌>>◌, reject_if,
}
use engram_mcp.HashMap.{HashMap, get, insert, text_key}
use engram_mcp.Utf8.{as_bytes}
use engram_mcp.OAuth.Signing.{saturating_add}
use engram_mcp.Directories.{inbox_id_prefix}
use engram_mcp.Inbox.Slug.{slug}
use engram_mcp.Inbox.Checks.{
  InboxError, invalid_file_name, quota_exceeded, name_exhausted, io, normalize_title, validate_body,
  validate_occurred, is_safe_file_name,
}
use engram_mcp.Inbox.Calendar.{SystemTime, unix_seconds}
use engram_mcp.Inbox.Names.{note_file_name, rfc3339_utc}
use engram_mcp.Inbox.Render.{NoteFrontMatter, render_note}
use mathlib.Core.Option

-- What a name in the inbox directory stands for: a regular file with its bytes, or anything else
-- (a directory, a symbolic link, a device).
pub data Entry : Type 0 where
  regular : (contents : List ℕ) → Entry
  other : Entry

abbrev pub Directory : Type 0
Directory = HashMap Text Entry

pub record InboxStore : Type 0 where
  pub max_note_bytes : ℕ
  pub max_total_bytes : ℕ

pub record CreatedNote : Type 0 where
  pub id : Text
  pub bytes : ℕ
  pub created : Text

-- The arguments of a call.
pub record Note : Type 0 where
  pub title : Text
  pub body : Text
  pub occurred : Option Text
  pub fingerprint : Text

abbrev pub max_name_attempts : ℕ
max_name_attempts = 64

-- How the write of an opened file ends: with all bytes on disk, with an error after some of them, or
-- with an error of `sync_all`.
pub data Write : Type 0 where
  written : Write
  write_fails : (after : ℕ) → Write
  sync_fails : Write

-- The answers of the system: what the scan of the directory saw (none for an error), at which
-- attempts an open fails for another reason than that the name is taken, and how the write ends.
pub record System : Type 0 where
  pub scan : Option Directory
  pub open_fails : (attempt : ℕ) → Bool
  pub write : Write

unfoldable pub sum_sizes : (total : ℕ) → List (Text × Entry) → ℕ
sum_sizes total [] = total
sum_sizes total ((_, regular contents) ∷ entries) =
    sum_sizes (saturating_add total (length contents)) entries
sum_sizes total ((_, other) ∷ entries) = sum_sizes total entries

unfoldable pub used_bytes : System → Result InboxError ℕ
used_bytes sys = elim sys.scan [ none ↦ err io | some dir ↦ ok (sum_sizes 0 dir.entries) ]

-- `openat2` with O_CREAT and O_EXCL: the directory with a new empty file, or none when the name is
-- taken by anything and that is the error. A name that is taken may fail with another error too.
unfoldable pub open_exclusive :
    (fails : Bool) → Directory → (name : Text) → Result InboxError (Option Directory)
open_exclusive fails dir name = elim (get dir name) [
  | some _ ↦ if fails then err io else ok none
  | none ↦ if fails then err io else ok (some (insert dir name (regular [])))
]

unfoldable pub create_exclusive :
    (fails : Bool) → Directory → (name : Text) → Result InboxError (Option Directory)
create_exclusive fails dir name = do
  reject_if (not (is_safe_file_name name)) invalid_file_name
  open_exclusive fails dir name

unfoldable pub write_note :
    Write → Directory → (name contents created : Text) → Directory × Result InboxError CreatedNote
write_note written dir name contents created = (
  insert dir name (regular (as_bytes contents)),
  ok (record {
    id = inbox_id_prefix ++ (b'/' ∷ name);
    bytes = byte_len contents;
    created = created;
  }),
)
write_note (write_fails after) dir name contents created =
    (insert dir name (regular (take after (as_bytes contents))), err io)
write_note sync_fails dir name contents created =
    (insert dir name (regular (as_bytes contents)), err io)

-- What is known before a file is opened.
pub record Prepared : Type 0 where
  pub names : (attempt : ℕ) → Text
  pub contents : Text
  pub created : Text

unfoldable pub attempts :
    System → Prepared → (left attempt : ℕ) → Directory → Directory × Result InboxError CreatedNote
attempts sys note zero attempt dir = (dir, err name_exhausted)
attempts sys note (suc left) attempt dir =
    elim (create_exclusive (sys.open_fails attempt) dir (note.names attempt)) [
      | err e ↦ (dir, err e)
      | ok none ↦ attempts sys note left (suc attempt) dir
      | ok (some opened) ↦
          write_note sys.write opened (note.names attempt) note.contents note.created
    ]

-- `occurred.map(validate_occurred).transpose()`.
unfoldable pub validate_optional : Option Text → Result InboxError (Option Text)
validate_optional none = ok none
validate_optional (some date) = validate_occurred date >>= λ date. ok (some date)

module _ (to_yaml : NoteFrontMatter → Option Text) (store : InboxStore) (sys : System) where
  unfoldable pub prepare : Note → SystemTime → Result InboxError Prepared
  prepare note now = do
    title ← normalize_title note.title
    validate_body note.body store.max_note_bytes
    occurred ← validate_optional note.occurred
    let seconds = unix_seconds now
    let created = rfc3339_utc seconds
    contents ← render_note to_yaml title created occurred note.fingerprint note.body
    used ← used_bytes sys
    reject_if (ltb store.max_total_bytes (saturating_add used (byte_len contents))) quota_exceeded
    ok (record {
      names = note_file_name seconds (slug title);
      contents = contents;
      created = created;
    })

  unfoldable pub create_note :
      Note → SystemTime → Directory → Directory × Result InboxError CreatedNote
  create_note note now dir = elim (prepare note now) [
    | err e ↦ (dir, err e)
    | ok prepared ↦ attempts sys prepared max_name_attempts 0 dir
  ]
