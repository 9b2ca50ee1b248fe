-- ===== src/Inbox/Names.antt =====
-- The names of notes in src/inbox.rs: `note_file_name` and `rfc3339_utc`.
pub mod Laws
pub mod Parts
use engram_mcp.Common.{
  ℕ, suc, ◌+◌, Bool, true, false, List, [], ◌∷◌, ◌++◌, Text, text, ◌==◌, if◌then◌else◌,
}
use engram_mcp.Common.Int.{ℤ}
use engram_mcp.Common.Decimal.{decimal, padded, padded_int}
use engram_mcp.Inbox.Calendar.{Civil, UtcParts, utc_parts}

-- `{:02}`.
unfoldable pub two : ℕ → Text
two n = padded 2 (decimal n)

-- `{year:04}-{month:02}-{day:02}`.
unfoldable pub print_date : Civil → Text
print_date date = padded_int 4 date.year ++ (b'-' ∷ (two date.month ++ (b'-' ∷ two date.day)))

unfoldable pub suffix_of : (attempt : ℕ) → Text
suffix_of attempt = if attempt == 0 then [] else b'-' ∷ decimal (attempt + 1)

unfoldable pub name_of_parts : UtcParts → (slug : Text) (attempt : ℕ) → Text
name_of_parts parts slug attempt =
    print_date parts.date
    ++ (b'-'
        ∷ (two parts.hour
            ++ (two parts.minute
                ++ (two parts.second ++ (b'-' ∷ (slug ++ (suffix_of attempt ++ text ".md")))))))

unfoldable pub note_file_name : (seconds : ℤ) (slug : Text) (attempt : ℕ) → Text
note_file_name seconds slug attempt = name_of_parts (utc_parts seconds) slug attempt

unfoldable pub rfc3339_utc : (seconds : ℤ) → Text
rfc3339_utc seconds =
    let parts = utc_parts seconds in
    print_date parts.date
    ++ (b'T'
        ∷ (two parts.hour
            ++ (b':' ∷ (two parts.minute ++ (b':' ∷ (two parts.second ++ text "Z"))))))
