-- ===== src/Inbox/Create/Writes.antt =====
-- What a caller of `create_note` of src/inbox.rs can rely on.
use engram_mcp.Common.{
  ℕ, ◌<◌, ◌≡◌, refl, ◌≢◌, inl, inr, true, false, Option, none, some, [], ◌∷◌, ◌++◌, Text, byte_len,
  ok, err, arith, Result-cases, text_eq_iff, text_eq_refl, ap, sym, ◌∙◌,
}
use engram_mcp.HashMap.{get, insert, get-insert, text_key}
use engram_mcp.Utf8.{as_bytes}
use engram_mcp.Inbox.Slug.{slug, slug-IsSlug}
use engram_mcp.Inbox.Checks.{invalid_file_name, is_safe_file_name}
use engram_mcp.Inbox.Calendar.{SystemTime}
use engram_mcp.Inbox.Names.Laws.{note_file_name-is_safe_file_name}
use engram_mcp.Inbox.Render.{NoteFrontMatter}
use engram_mcp.Directories.{inbox_id_prefix}
use engram_mcp.Inbox.Create.{
  Entry, regular, Directory, InboxStore, CreatedNote, Note, max_name_attempts, Write, written,
  write_fails, sync_fails, System, write_note, Prepared, attempts, prepare, create_note,
}
use engram_mcp.Inbox.Create.Store.{
  exhausted, unsafe_at, open_fails_at, created_at, Taken, attempts-Outcome, left_by,
  write_note-directory,
}
use engram_mcp.Inbox.Create.Prepare.{IsPrepared, prepare-IsPrepared, prepare-IsNamed}

insert-keeps :
    (dir : Directory) (name j : Text) (entry new : Entry)
    → get dir name ≡ none
    → get dir j ≡ some entry
    → get (insert dir name new) j ≡ some entry
insert-keeps dir name j entry new free h =
    ground (arith, get-insert dir name j new, text_eq_iff name j, free, h)

insert-differs :
    (dir : Directory) (name j : Text) (new : Entry)
    → name ≢ j
    → get (insert dir name new) j ≡ get dir j
insert-differs dir name j new h = ground (arith, get-insert dir name j new, text_eq_iff name j)

write_note-keeps :
    (w : Write) (dir : Directory) (name contents created j : Text) (entry : Entry)
    → get dir name ≡ none
    → get dir j ≡ some entry
    → get (write_note w (insert dir name (regular [])) name contents created).0 j ≡ some entry
write_note-keeps w dir name contents created j entry free h =
    let e = write_note-directory w (insert dir name (regular [])) name contents created in
    let d : name ≢ j = λ k. ground (arith, k, free, h) in
    rw
      (
        e,
        insert-differs (insert dir name (regular [])) name j (regular (left_by w contents)) d,
        insert-differs dir name j (regular []) d,
      )
      h

attempts-keeps :
    (sys : System) (note : Prepared) (left first : ℕ) (dir : Directory) (j : Text) (entry : Entry)
    → get dir j ≡ some entry
    → get (attempts sys note left first dir).0 j ≡ some entry
attempts-keeps sys note left first dir j entry h = elim (attempts-Outcome sys note left first dir) [
  | exhausted all e ↦ rw e h
  | unsafe_at i a bad e ↦ rw e h
  | open_fails_at i f e ↦ rw e h
  | created_at i a b before free safe e ↦
      rw e (write_note-keeps sys.write dir (note.names i) note.contents note.created j entry free h)
]

module _ (to_yaml : NoteFrontMatter → Option Text) (store : InboxStore) (sys : System) where
  -- Whatever is written and however create_note answers, each name that stood for something in
  -- the directory stands for the same thing after it.
  pub create_note-keeps :
      (note : Note) (now : SystemTime) (dir : Directory) (name : Text) (entry : Entry)
      → get dir name ≡ some entry
      → get (create_note to_yaml store sys note now dir).0 name ≡ some entry
  unfolding create_note
  create_note-keeps note now dir name entry h =
      elim (Result-cases (prepare to_yaml store sys note now)) [
        | inl (p, e) ↦
            rw (e, create_note) (attempts-keeps sys p max_name_attempts 0 dir name entry h)
        | inr (x, e) ↦ rw (e, create_note) h
      ]

-- The note is in a new file under its first free name, with exactly its contents.
pub record IsCreated (prepared : Prepared) (dir after : Directory) (note : CreatedNote)
    : Type 0 where
  pub attempt : ℕ
  pub within : attempt < max_name_attempts
  pub earlier : Taken dir prepared.names 0 attempt
  pub free : get dir (prepared.names attempt) ≡ none
  pub safe : is_safe_file_name (prepared.names attempt) ≡ true
  pub stored : get after (prepared.names attempt) ≡ some (regular (as_bytes prepared.contents))
  pub id_of : note.id ≡ inbox_id_prefix ++ (b'/' ∷ prepared.names attempt)
  pub bytes_of : note.bytes ≡ byte_len prepared.contents
  pub created_of : note.created ≡ prepared.created

write_note-ok :
    (w : Write) (dir after : Directory) (name contents created : Text) (note : CreatedNote)
    → write_note w dir name contents created ≡ (after, ok note)
    → (after ≡ insert dir name (regular (as_bytes contents)))
      × (note ≡ record {
        id = inbox_id_prefix ++ (b'/' ∷ name);
        bytes = byte_len contents;
        created = created;
      })
unfolding write_note
write_note-ok written dir after name contents created note h = (cc, cc)
write_note-ok (write_fails n) dir after name contents created note h = cc
write_note-ok sync_fails dir after name contents created note h = cc

attempts-IsCreated :
    (sys : System) (prepared : Prepared) (dir after : Directory) (note : CreatedNote)
    → attempts sys prepared max_name_attempts 0 dir ≡ (after, ok note)
    → IsCreated prepared dir after note
attempts-IsCreated sys p dir after note h = elim (attempts-Outcome sys p max_name_attempts 0 dir) [
  | exhausted all e ↦ cc
  | unsafe_at i a bad e ↦ cc
  | open_fails_at i f e ↦ cc
  | created_at i a b before free safe e ↦
      let (ha, hn) =
        write_note-ok sys.write (insert dir (p.names i) (regular [])) after (p.names i) p.contents
          p.created note (sym e ∙ h) in
      record {
        attempt = i;
        within = b;
        earlier = before;
        free = free;
        safe = safe;
        stored =
            rw
              (
                ha,
                get-insert (insert dir (p.names i) (regular [])) (p.names i) (p.names i)
                    (regular (as_bytes p.contents)),
                text_eq_refl (p.names i),
              )
              refl;
        id_of = rw hn refl;
        bytes_of = rw hn refl;
        created_of = rw hn refl;
      }
]

write_note-invalid_file_name :
    (w : Write) (dir : Directory) (name contents created : Text)
    → (write_note w dir name contents created).1 ≢ err invalid_file_name
unfolding write_note
write_note-invalid_file_name written dir name contents created h = cc
write_note-invalid_file_name (write_fails n) dir name contents created h = cc
write_note-invalid_file_name sync_fails dir name contents created h = cc

attempts-invalid_file_name :
    (sys : System) (p : Prepared) (dir : Directory)
    → ((i : ℕ) → i < max_name_attempts → is_safe_file_name (p.names i) ≡ true)
    → (attempts sys p max_name_attempts 0 dir).1 ≢ err invalid_file_name
attempts-invalid_file_name sys p dir safe h =
    elim (attempts-Outcome sys p max_name_attempts 0 dir) [
      | exhausted all e ↦ cc
      | unsafe_at i a bad e ↦ ground (arith, safe i a, bad)
      | open_fails_at i f e ↦ cc
      | created_at i a b before free ok_name e ↦
          write_note-invalid_file_name sys.write (insert dir (p.names i) (regular [])) (p.names i)
            p.contents p.created (ap (λ r. r.1) (sym e) ∙ h)
    ]

-- The system opens every free name and writes every byte.
pub record IsWorking (sys : System) : Type 0 where
  pub opens : (i : ℕ) → sys.open_fails i ≡ false
  pub writes : sys.write ≡ written

attempts-ok :
    (sys : System) (p : Prepared) (dir : Directory) (i : ℕ)
    → IsWorking sys
    → ((i : ℕ) → i < max_name_attempts → is_safe_file_name (p.names i) ≡ true)
    → i < max_name_attempts
    → get dir (p.names i) ≡ none
    → (created : CreatedNote) × ((attempts sys p max_name_attempts 0 dir).1 ≡ ok created)
unfolding write_note
attempts-ok sys p dir i works safe h free = elim (attempts-Outcome sys p max_name_attempts 0 dir) [
  | exhausted all e ↦ let (entry, t) = all i (omega arith) h in absurd (ground (arith, t, free))
  | unsafe_at j a bad e ↦ absurd (ground (arith, safe j a, bad))
  | open_fails_at j f e ↦ absurd (ground (arith, works.opens j, f))
  | created_at j a b before free' ok_name e ↦ (
    record {
      id = inbox_id_prefix ++ (b'/' ∷ p.names j);
      bytes = byte_len p.contents;
      created = p.created;
    },
    ap (λ r. r.1) e ∙ rw (works.writes, write_note) refl,
  )
]

module _ (to_yaml : NoteFrontMatter → Option Text) (store : InboxStore) (sys : System) where
  -- When create_note answers with a note, its title, body and date passed the checks and it
  -- fitted the quota; it is in the directory with exactly its rendered contents, under the first
  -- of its 64 names that stood for nothing before, which is a safe file name, and the answer
  -- names it, its length and its time.
  pub create_note-IsCreated :
      (note : Note) (now : SystemTime) (dir after : Directory) (created : CreatedNote)
      → create_note to_yaml store sys note now dir ≡ (after, ok created)
      → (p : Prepared) × IsPrepared to_yaml store sys note now p × IsCreated p dir after created
  unfolding create_note
  create_note-IsCreated note now dir after created h =
      elim (Result-cases (prepare to_yaml store sys note now)) [
        | inl (p, e) ↦ (
          p,
          prepare-IsPrepared to_yaml store sys note now p e,
          attempts-IsCreated sys p dir after created (ground (arith, e, h)),
        )
        | inr (x, e) ↦ absurd (ground (arith, e, h))
      ]

  -- The names that are tried are safe.
  prepared-is_safe_file_name :
      (note : Note) (now : SystemTime) (p : Prepared) (i : ℕ)
      → prepare to_yaml store sys note now ≡ ok p
      → i < max_name_attempts
      → is_safe_file_name (p.names i) ≡ true
  prepared-is_safe_file_name note now p i h k =
      let q = prepare-IsPrepared to_yaml store sys note now p h in
      rw (q.names_of)
        (note_file_name-is_safe_file_name now (slug q.title) i (slug-IsSlug q.title) k)

  -- create_note never fails with the error of an unsafe file name: every name that it generates
  -- is safe.
  pub create_note-invalid_file_name :
      (note : Note) (now : SystemTime) (dir : Directory)
      → (create_note to_yaml store sys note now dir).1 ≢ err invalid_file_name
  unfolding create_note
  create_note-invalid_file_name note now dir =
      elim (Result-cases (prepare to_yaml store sys note now)) [
        | inr (x, e) ↦
            λ h. (prepare-IsNamed to_yaml store sys note now).named (ground (arith, e, h))
        | inl (p, e) ↦ λ h.
            attempts-invalid_file_name sys p dir (λ i. prepared-is_safe_file_name note now p i e)
              (ground (arith, e, h))
      ]

  -- When a note passed all checks, one of its 64 names stands for nothing, no name fails to open
  -- for another reason than that it is taken, and every byte is written, create_note answers with
  -- a note.
  pub create_note-liveness :
      (note : Note) (now : SystemTime) (dir : Directory) (p : Prepared) (i : ℕ)
      → IsWorking sys
      → prepare to_yaml store sys note now ≡ ok p
      → i < max_name_attempts
      → get dir (p.names i) ≡ none
      → (created : CreatedNote) × ((create_note to_yaml store sys note now dir).1 ≡ ok created)
  unfolding create_note
  create_note-liveness note now dir p i works e h free =
      let (created, k) =
        attempts-ok sys p dir i works (λ j. prepared-is_safe_file_name note now p j e) h free in
      (created, rw (e, create_note) k)
