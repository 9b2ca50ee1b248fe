-- ===== src/Inbox/Create/Store.antt =====
-- What `create_note` of src/inbox.rs does to the directory.
use engram_mcp.Common.{
  ℕ, zero, suc, ◌+◌, ◌≤◌, ◌<◌, ◌≡◌, refl, inl, inr, Bool, true, false, none, some, List, [], Text,
  take, ok, err, ◌>>=◌, reject_if, arith, Bool-cases, Option-cases, ◌==◌, ==_iff,
}
use engram_mcp.HashMap.{get, insert, text_key}
use engram_mcp.Utf8.{as_bytes}
use engram_mcp.Inbox.Checks.{invalid_file_name, name_exhausted, io, is_safe_file_name}
use engram_mcp.Inbox.Create.{
  Entry, regular, Directory, Write, written, write_fails, sync_fails, System, open_exclusive,
  create_exclusive, write_note, Prepared, attempts,
}

-- How an attempt to open a new file can go.
data Attempt (fails : Bool) (dir : Directory) (name : Text) : Type 0 where
  unsafe :
      is_safe_file_name name ≡ false
      → create_exclusive fails dir name ≡ err invalid_file_name
      → Attempt fails dir name
  taken :
      (entry : Entry)
      → get dir name ≡ some entry
      → create_exclusive fails dir name ≡ ok none
      → Attempt fails dir name
  failed : fails ≡ true → create_exclusive fails dir name ≡ err io → Attempt fails dir name
  opened :
      get dir name ≡ none
      → is_safe_file_name name ≡ true
      → create_exclusive fails dir name ≡ ok (some (insert dir name (regular [])))
      → Attempt fails dir name

attempt : (fails : Bool) (dir : Directory) (name : Text) → Attempt fails dir name
unfolding create_exclusive open_exclusive
attempt fails dir name = elim (Bool-cases (is_safe_file_name name)) [
  | inr bad ↦ unsafe bad (rw (bad, reject_if) refl)
  | inl safe ↦ elim (Option-cases (get dir name)) [
    | inr (entry, e) ↦ elim (Bool-cases fails) [
      | inl f ↦ failed f (rw (safe, e, f, reject_if, open_exclusive, ◌>>=◌) refl)
      | inr f ↦ taken entry e (rw (safe, e, f, reject_if, open_exclusive, ◌>>=◌) refl)
    ]
    | inl e ↦ elim (Bool-cases fails) [
      | inl f ↦ failed f (rw (safe, e, f, reject_if, open_exclusive, ◌>>=◌) refl)
      | inr f ↦ opened e safe (rw (safe, e, f, reject_if, open_exclusive, ◌>>=◌) refl)
    ]
  ]
]

-- The bytes that a write leaves in the file.
abbrev pub left_by : Write → (contents : Text) → List ℕ
left_by written contents = as_bytes contents
left_by (write_fails after) contents = take after (as_bytes contents)
left_by sync_fails contents = as_bytes contents

pub write_note-directory :
    (w : Write) (dir : Directory) (name contents created : Text)
    → (write_note w dir name contents created).0 ≡ insert dir name (regular (left_by w contents))
unfolding write_note
write_note-directory written dir name contents created = refl
write_note-directory (write_fails after) dir name contents created = refl
write_note-directory sync_fails dir name contents created = refl

-- All names of these attempts stand for something.
abbrev pub Taken : Directory → (names : ℕ → Text) → (first last : ℕ) → Type 0
Taken dir names first last =
    (i : ℕ) → first ≤ i → i < last → (entry : Entry) × (get dir (names i) ≡ some entry)

-- What a run of attempts comes to: it ends at the first name that does not stand for anything, or
-- at one that is not safe.
pub data Outcome (sys : System) (note : Prepared) (left first : ℕ) (dir : Directory) : Type 0 where
  exhausted :
      Taken dir note.names first (first + left)
      → attempts sys note left first dir ≡ (dir, err name_exhausted)
      → Outcome sys note left first dir
  unsafe_at :
      (i : ℕ)
      → i < first + left
      → is_safe_file_name (note.names i) ≡ false
      → attempts sys note left first dir ≡ (dir, err invalid_file_name)
      → Outcome sys note left first dir
  open_fails_at :
      (i : ℕ)
      → sys.open_fails i ≡ true
      → attempts sys note left first dir ≡ (dir, err io)
      → Outcome sys note left first dir
  created_at :
      (i : ℕ)
      → first ≤ i
      → i < first + left
      → Taken dir note.names first i
      → get dir (note.names i) ≡ none
      → is_safe_file_name (note.names i) ≡ true
      → attempts sys note left first dir
        ≡ write_note sys.write
            (insert dir (note.names i) (regular []))
            (note.names i)
            note.contents
            note.created
      → Outcome sys note left first dir

Taken-none : (dir : Directory) (names : ℕ → Text) (i : ℕ) → Taken dir names i i
Taken-none dir names i j h k = absurd (omega (arith, h, k))

Taken-cons :
    (dir : Directory) (names : ℕ → Text) (first last : ℕ) (entry : Entry)
    → get dir (names first) ≡ some entry
    → Taken dir names (suc first) last
    → Taken dir names first last
Taken-cons dir names first last entry h rest i low high = elim (Bool-cases (i == first)) [
  | inl e ↦ rw ((==_iff i first).0 e) (entry, h)
  | inr e ↦ rest i (ground (arith, e, low)) high
]

pub attempts-Outcome :
    (sys : System) (note : Prepared) (left first : ℕ) (dir : Directory)
    → Outcome sys note left first dir
unfolding attempts
attempts-Outcome sys note zero i dir =
    exhausted (λ j low high. absurd (omega (arith, low, high))) refl
attempts-Outcome sys note (suc left) i dir = elim (attempt (sys.open_fails i) dir (note.names i)) [
  | unsafe bad e ↦ unsafe_at i (omega arith) bad (rw (e, attempts) refl)
  | failed f e ↦ open_fails_at i f (rw (e, attempts) refl)
  | opened free safe e ↦
      created_at i (omega arith) (omega arith) (Taken-none dir note.names i) free safe
        (rw (e, attempts) refl)
  | taken entry t e ↦ elim (attempts-Outcome sys note left (suc i) dir) [
    | exhausted all h ↦
        exhausted
          (λ j low high.
            Taken-cons dir note.names i (suc i + left) entry t all j low (omega (arith, high)))
          (rw (e, h, attempts) refl)
    | unsafe_at j a bad h ↦ unsafe_at j (omega (arith, a)) bad (rw (e, h, attempts) refl)
    | open_fails_at j f h ↦ open_fails_at j f (rw (e, h, attempts) refl)
    | created_at j a b before free safe h ↦
        created_at j (omega (arith, a)) (omega (arith, b))
          (Taken-cons dir note.names i j entry t before) free safe (rw (e, h, attempts) refl)
  ]
]
