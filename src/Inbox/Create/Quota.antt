-- ===== src/Inbox/Create/Quota.antt =====
-- The quota that `create_note` of src/inbox.rs keeps in the directory.
use engram_mcp.Common.{
  ℕ, zero, suc, ◌+◌, ◌-◌, ◌^◌, ◌≤◌, ◌<◌, ◌≡◌, refl, inl, inr, false, Option, none, some, List, [],
  ◌∷◌, Text, len_utf8, byte_len, length, length-append, take, ltb, ok, arith, Result-cases,
}
use engram_mcp.HashMap.{get, insert, entries-insert-insert, text_key}
use engram_mcp.Utf8.{as_bytes, encode_char}
use engram_mcp.OAuth.Signing.{saturating_add}
use engram_mcp.Inbox.Calendar.{SystemTime}
use engram_mcp.Inbox.Render.{NoteFrontMatter}
use engram_mcp.Inbox.Create.{
  Entry, regular, other, Directory, InboxStore, Note, Write, written, write_fails, sync_fails,
  System, sum_sizes, used_bytes, max_name_attempts, write_note, Prepared, attempts, prepare,
  create_note,
}
use engram_mcp.Inbox.Create.Store.{
  exhausted, unsafe_at, open_fails_at, created_at, attempts-Outcome, left_by, write_note-directory,
}
use engram_mcp.Inbox.Create.Prepare.{prepare-IsPrepared}

-- The bytes of the regular files.
unfoldable pub total : List (Text × Entry) → ℕ
total [] = 0
total ((_, regular contents) ∷ entries) = length contents + total entries
total ((_, other) ∷ entries) = total entries

sum_sizes-total :
    (t : ℕ) (entries : List (Text × Entry))
    → t ≤ 2 ^ 64 - 1
    → sum_sizes t entries ≡ saturating_add t (total entries)
unfolding sum_sizes total saturating_add
sum_sizes-total t [] h = omega (arith, h)
sum_sizes-total t ((_, regular contents) ∷ entries) h =
    omega (arith, sum_sizes-total (saturating_add t (length contents)) entries)
sum_sizes-total t ((_, other) ∷ entries) h = sum_sizes-total t entries h

length-take : (n : ℕ) (xs : List ℕ) → length (take n xs) ≤ length xs
length-take zero xs = omega arith
length-take (suc n) [] = omega arith
length-take (suc n) (x ∷ xs) = omega (arith, length-take n xs)

length-encode_char : (c : ℕ) → length (encode_char c) ≡ len_utf8 c
unfolding encode_char len_utf8
length-encode_char c = ground arith

length-as_bytes : (s : Text) → length (as_bytes s) ≡ byte_len s
unfolding as_bytes byte_len
length-as_bytes [] = refl
length-as_bytes (c ∷ s) =
    omega
      (arith, length-append (encode_char c) (as_bytes s), length-as_bytes s, length-encode_char c)

length-left_by : (w : Write) (contents : Text) → length (left_by w contents) ≤ byte_len contents
length-left_by written contents = omega (arith, length-as_bytes contents)
length-left_by (write_fails n) contents =
    omega (arith, length-as_bytes contents, length-take n (as_bytes contents))
length-left_by sync_fails contents = omega (arith, length-as_bytes contents)

total-write_note :
    (w : Write) (dir : Directory) (name contents created : Text)
    → get dir name ≡ none
    → total (write_note w (insert dir name (regular [])) name contents created).0.entries
      ≤ byte_len contents + total dir.entries
unfolding total
total-write_note w dir name contents created free =
    rw
      (
        write_note-directory w (insert dir name (regular [])) name contents created,
        entries-insert-insert dir name (regular []) (regular (left_by w contents)) free,
      )
      (omega (arith, length-left_by w contents))

total-attempts :
    (sys : System) (p : Prepared) (dir : Directory)
    → total (attempts sys p max_name_attempts 0 dir).0.entries
      ≤ byte_len p.contents + total dir.entries
total-attempts sys p dir = elim (attempts-Outcome sys p max_name_attempts 0 dir) [
  | exhausted all e ↦ rw e (omega arith)
  | unsafe_at i a bad e ↦ rw e (omega arith)
  | open_fails_at i f e ↦ rw e (omega arith)
  | created_at i a b before free safe e ↦
      rw e (total-write_note sys.write dir (p.names i) p.contents p.created free)
]

fits-total :
    (sys : System) (dir : Directory) (used size max : ℕ)
    → sys.scan ≡ some dir
    → used_bytes sys ≡ ok used
    → ltb max (saturating_add used size) ≡ false
    → max < 2 ^ 64 - 1
    → size + total dir.entries ≤ max
unfolding used_bytes saturating_add
fits-total sys dir used size max seen u fits bound =
    let e : sum_sizes 0 dir.entries ≡ used = ground (arith, seen, u) in
    ground (arith, fits, bound, e, sum_sizes-total 0 dir.entries)

module _ (to_yaml : NoteFrontMatter → Option Text) (store : InboxStore) (sys : System) where
  -- When the scan sees the directory as it is, a directory whose regular files are within the
  -- quota is so after create_note, however it answers and however much of the file is written, if
  -- the quota is below the largest 64-bit number.
  pub create_note-total :
      (note : Note) (now : SystemTime) (dir : Directory)
      → store.max_total_bytes < 2 ^ 64 - 1
      → sys.scan ≡ some dir
      → total dir.entries ≤ store.max_total_bytes
      → total (create_note to_yaml store sys note now dir).0.entries ≤ store.max_total_bytes
  unfolding create_note
  create_note-total note now dir bound seen h =
      elim (Result-cases (prepare to_yaml store sys note now)) [
        | inr (x, e) ↦ rw (e, create_note) h
        | inl (p, e) ↦
            let q = prepare-IsPrepared to_yaml store sys note now p e in
            rw (e, create_note)
              (omega (
                arith,
                total-attempts sys p dir,
                fits-total sys dir q.used (byte_len p.contents) store.max_total_bytes seen q.used_of
                    q.fits bound,
              ))
      ]
