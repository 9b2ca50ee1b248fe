-- ===== src/Samples/NoteExamples.antt =====
-- The theorems on the writing of notes in src/inbox.rs, at a note and a directory.
use engram_mcp.Inbox.Checks.{
  is_name_byte, month_and_day_ok, normalize_title, two_digits, validate_body, validate_occurred,
}
use engram_mcp.Common.{
  byte_len, contains_text, ends_with, ends_with_char, has_char, is_ascii_digit, is_ascii_lowercase,
  is_control, is_whitespace, len_utf8, starts_with, starts_with_char, strip_prefix, text_eq,
  to_ascii_lowercase, trim, trim_end, trim_start,
}
use engram_mcp.Inbox.Create.{
  attempts, create_exclusive, open_exclusive, sum_sizes, used_bytes, validate_optional, write_note,
}
use engram_mcp.Inbox.Render.{assemble, render_note, trim_newlines, with_newline, without_marker}
use engram_mcp.Common.Decimal.{decimal, digits, padded, padded_int}
use engram_mcp.Inbox.Calendar.{
  civil_from_days, civil_of_era, day_of, day_of_era_of, day_of_year_of, era_of, month_of,
  shifted_month_of, utc_parts, year_of_era_of,
}
use engram_mcp.Inbox.Names.{name_of_parts, print_date, rfc3339_utc, suffix_of, two}
use engram_mcp.Inbox.Slug.{is_slug_letter, or_fallback, pop_dashes, separated, slug_loop}
use engram_mcp.OAuth.Signing.{saturating_add}
use engram_mcp.Utf8.{encode_char}
use engram_mcp.Common.{
  ◌≡◌, ◌≢◌, ◌≤◌, refl, false, Option, none, some, [], ◌∷◌, ◌++◌, Text, text, ok, err, arith,
}
use engram_mcp.Common.Int.{pos}
use engram_mcp.HashMap
use engram_mcp.HashMap.{text_key}
use engram_mcp.Utf8.{as_bytes}
use engram_mcp.Inbox.Slug.{slug}
use engram_mcp.Inbox.Checks.{is_safe_file_name, invalid_file_name}
use engram_mcp.Inbox.Calendar.{SystemTime, since, unix_seconds}
use engram_mcp.Inbox.Names.{note_file_name}
use engram_mcp.Inbox.Render.{NoteFrontMatter}
use engram_mcp.Inbox.Create.{
  regular, other, Directory, InboxStore, Note, CreatedNote, System, written, Prepared, prepare,
  create_note,
}
use engram_mcp.Inbox.Create.Prepare.{IsPrepared}
use engram_mcp.Inbox.Create.Writes.{
  create_note-keeps, IsCreated, create_note-IsCreated, create_note-invalid_file_name,
  create_note-liveness,
}
use engram_mcp.Inbox.Render.{note_source}
use engram_mcp.Inbox.Render.Reader.{read_note, read_note-render_note}
use engram_mcp.Inbox.Calendar.Days.{as_civil, calendar, civil_from_days-calendar}
use engram_mcp.Inbox.Create.Quota.{total, create_note-total}

abbrev pub to_yaml : NoteFrontMatter → Option Text
to_yaml front = some (text "title: " ++ (front.title ++ 10 ∷ []))

abbrev pub store : InboxStore
store = record { max_note_bytes = 32_768; max_total_bytes = 8_388_608 }

abbrev note : Note
note = record {
  title = text " Hello ";
  body = text "First line.";
  occurred = some (text "2026-08-01");
  fingerprint = text "ab";
}

-- 2026-08-12 00:00:05.
abbrev pub now : SystemTime
now = since 1_786_492_805

abbrev pub first_name : Text
first_name = text "2026-08-12-000005-hello.md"

abbrev second_name : Text
second_name = text "2026-08-12-000005-hello-2.md"

-- The first name is taken by a symbolic link.
abbrev pub before : Directory
before = HashMap.insert HashMap.empty first_name other

abbrev contents : Text
contents =
    text "---"
    ++ (10
        ∷ (text "title: Hello"
            ++ (10 ∷ (text "---" ++ (10 ∷ 10 ∷ (text "First line." ++ 10 ∷ []))))))

abbrev pub sys : System
sys = record { scan = some before; open_fails = λ _. false; write = written }

abbrev created : CreatedNote
created = record {
  id = text "99_inbox/2026-08-12-000005-hello-2.md";
  bytes = 34;
  created = text "2026-08-12T00:00:05Z";
}

abbrev after : Directory
after =
    HashMap.insert (HashMap.insert before second_name (regular [])) second_name
      (regular (as_bytes contents))

created_run : create_note to_yaml store sys note now before ≡ (after, ok created)
unfolding create_note prepare normalize_title trim is_control validate_body has_char byte_len
    validate_optional validate_occurred is_ascii_digit month_and_day_ok two_digits render_note
    contains_text trim_newlines without_marker decimal digits padded padded_int ends_with
    ends_with_char is_ascii_lowercase is_whitespace len_utf8 starts_with starts_with_char
    strip_prefix text_eq to_ascii_lowercase trim_end trim_start HashMap.get HashMap.insert
    civil_from_days civil_of_era day_of day_of_era_of day_of_year_of era_of month_of
    shifted_month_of unix_seconds utc_parts year_of_era_of is_name_byte is_safe_file_name attempts
    create_exclusive open_exclusive sum_sizes used_bytes write_note name_of_parts note_file_name
    print_date rfc3339_utc suffix_of two assemble with_newline is_slug_letter or_fallback pop_dashes
    separated slug slug_loop saturating_add as_bytes encode_char HashMap.empty
created_run = refl

abbrev prepared : Prepared
prepared = record {
  names = note_file_name (unix_seconds now) (slug (text "Hello"));
  contents = contents;
  created = text "2026-08-12T00:00:05Z";
}

prepared_run : prepare to_yaml store sys note now ≡ ok prepared
unfolding create_note prepare normalize_title trim is_control validate_body has_char byte_len
    validate_optional validate_occurred is_ascii_digit month_and_day_ok two_digits render_note
    contains_text trim_newlines without_marker decimal digits padded padded_int ends_with
    ends_with_char is_ascii_lowercase is_whitespace len_utf8 starts_with starts_with_char
    strip_prefix text_eq to_ascii_lowercase trim_end trim_start HashMap.get HashMap.insert
    civil_from_days civil_of_era day_of day_of_era_of day_of_year_of era_of month_of
    shifted_month_of unix_seconds utc_parts year_of_era_of is_name_byte is_safe_file_name attempts
    create_exclusive open_exclusive sum_sizes used_bytes write_note name_of_parts note_file_name
    print_date rfc3339_utc suffix_of two assemble with_newline is_slug_letter or_fallback pop_dashes
    separated slug slug_loop saturating_add as_bytes encode_char HashMap.empty
prepared_run = refl

link_stands : HashMap.get before first_name ≡ some other
unfolding HashMap.get HashMap.insert HashMap.empty text_eq
link_stands = refl

second_is_free : HashMap.get before (prepared.names 1) ≡ none
unfolding HashMap.get HashMap.insert HashMap.empty text_eq is_ascii_digit decimal digits padded
    padded_int is_ascii_lowercase to_ascii_lowercase civil_from_days civil_of_era day_of
    day_of_era_of day_of_year_of era_of month_of shifted_month_of unix_seconds utc_parts
    year_of_era_of name_of_parts note_file_name print_date suffix_of two is_slug_letter or_fallback
    pop_dashes separated slug slug_loop byte_len
second_is_free = refl

total_before : total before.entries ≤ store.max_total_bytes
unfolding total HashMap.insert HashMap.empty
total_before = omega arith

create_note-IsCreated_example :
    (p : Prepared) × IsPrepared to_yaml store sys note now p × IsCreated p before after created
create_note-IsCreated_example =
    create_note-IsCreated to_yaml store sys note now before after created created_run

create_note-keeps_example :
    HashMap.get (create_note to_yaml store sys note now before).0 first_name ≡ some other
create_note-keeps_example =
    create_note-keeps to_yaml store sys note now before first_name other link_stands

create_note-total_example :
    total (create_note to_yaml store sys note now before).0.entries ≤ store.max_total_bytes
create_note-total_example =
    create_note-total to_yaml store sys note now before (omega arith) refl total_before

create_note-liveness_example :
    (made : CreatedNote) × ((create_note to_yaml store sys note now before).1 ≡ ok made)
create_note-liveness_example =
    create_note-liveness to_yaml store sys note now before prepared 1
      (record { opens = λ i. refl; writes = refl }) prepared_run (omega arith) second_is_free

create_note-invalid_file_name_example :
    (create_note to_yaml store sys note now before).1 ≢ err invalid_file_name
create_note-invalid_file_name_example =
    create_note-invalid_file_name to_yaml store sys note now before

rendered :
    render_note to_yaml
      (text "Hello")
      (text "2026-08-12T00:00:05Z")
      (some (text "2026-08-01"))
      (text "ab")
      (text "First line.")
    ≡ ok contents
unfolding render_note contains_text trim_newlines without_marker strip_prefix starts_with assemble
    with_newline ends_with_char
rendered = refl

read_note-render_note_example :
    (yaml : Text) × (to_yaml (record {
      title = text "Hello";
      created = text "2026-08-12T00:00:05Z";
      occurred = some (text "2026-08-01");
      source = note_source;
      fingerprint = text "ab";
    })
      ≡ some yaml)
    × (read_note contents
        ≡ some (trim_newlines (without_marker yaml), with_newline (10 ∷ 10 ∷ text "First line.")))
read_note-render_note_example =
    read_note-render_note to_yaml (text "Hello") (text "2026-08-12T00:00:05Z")
      (some (text "2026-08-01")) (text "ab") (text "First line.") contents rendered

civil_from_days-calendar_example : civil_from_days (pos 20_677) ≡ as_civil (calendar 20_677)
civil_from_days-calendar_example = civil_from_days-calendar 20_677
