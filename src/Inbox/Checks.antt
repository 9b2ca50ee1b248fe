-- ===== src/Inbox/Checks.antt =====
-- What src/inbox.rs checks of a note's title, date and body, and of a file name: `normalize_title`,
-- `validate_occurred`, `validate_body`, `is_safe_file_name`.
use engram_mcp.Common.{
  ℕ, ◌+◌, ◌*◌, ◌-◌, ◌≤◌, ◌≡◌, ◌≢◌, refl, Bool, true, false, not, ◌&&◌, ◌||◌, [], ◌∷◌, Text, text,
  byte_len, all, any, length, is_empty, has_char, starts_with_char, ends_with, trim, is_control,
  is_ascii_lowercase, is_ascii_digit, leb, ltb, ◌==◌, Result, ok, err, ◌>>◌, reject_if, arith,
}

pub data InboxError : Type 0 where
  invalid_title invalid_body invalid_occurred note_too_large quota_exceeded name_exhausted
        unavailable invalid_file_name io :
      InboxError

abbrev pub max_title_chars : ℕ
max_title_chars = 200

unfoldable pub normalize_title : Text → Result InboxError Text
normalize_title title = do
  let trimmed = trim title
  reject_if (is_empty trimmed || ltb max_title_chars (length trimmed)) invalid_title
  reject_if (any is_control trimmed) invalid_title
  ok trimmed

unfoldable pub validate_body : (body : Text) (max_note_bytes : ℕ) → Result InboxError (Unit {0})
validate_body body max_note_bytes = do
  reject_if (is_empty (trim body) || has_char 0 body) invalid_body
  reject_if (ltb max_note_bytes (byte_len body)) note_too_large

-- Two digits as a number.
unfoldable pub two_digits : ℕ → ℕ → ℕ
two_digits c d = 10 * (c - b'0') + (d - b'0')

unfoldable pub month_and_day_ok : (month day : ℕ) → Bool
month_and_day_ok month day = leb 1 month && leb month 12 && leb 1 day && leb day 31

-- A text of ten bytes with digits and dashes where a date has them has ten code points.
unfoldable pub validate_occurred : Text → Result InboxError Text
validate_occurred (y₁ ∷ y₂ ∷ y₃ ∷ y₄ ∷ s₁ ∷ m₁ ∷ m₂ ∷ s₂ ∷ d₁ ∷ d₂ ∷ []) = do
  reject_if
      (not (
        s₁ == b'-'
        && s₂ == b'-'
        && all is_ascii_digit (y₁ ∷ y₂ ∷ y₃ ∷ y₄ ∷ m₁ ∷ m₂ ∷ d₁ ∷ d₂ ∷ [])))
      invalid_occurred
  reject_if (not (month_and_day_ok (two_digits m₁ m₂) (two_digits d₁ d₂))) invalid_occurred
  ok (y₁ ∷ y₂ ∷ y₃ ∷ y₄ ∷ s₁ ∷ m₁ ∷ m₂ ∷ s₂ ∷ d₁ ∷ d₂ ∷ [])
validate_occurred _ = err invalid_occurred

unfoldable pub is_name_byte : ℕ → Bool
is_name_byte c = is_ascii_lowercase c || is_ascii_digit c || c == b'-' || c == b'.'

-- A name of ASCII characters only has these as its bytes.
unfoldable pub is_safe_file_name : Text → Bool
is_safe_file_name name =
    not (is_empty name)
    && leb (byte_len name) 255
    && not (starts_with_char b'.' name)
    && all is_name_byte name
    && ends_with (text ".md") name

all_of_none : (p : ℕ → Bool) (s : Text) → any p s ≡ false → all (λ c. not (p c)) s ≡ true
all_of_none p [] h = refl
all_of_none p (c ∷ s) h = ground (arith, all_of_none p s)

-- A title that is accepted is stored trimmed, is not empty, has at most two hundred characters,
-- and none of them is a control character.
pub normalize_title-ok :
    (title result : Text)
    → normalize_title title ≡ ok result
    → (result ≡ trim title)
      × (is_empty result ≡ false)
      × (length result ≤ max_title_chars)
      × (all (λ c. not (is_control c)) result ≡ true)
unfolding normalize_title
normalize_title-ok title result h = ground (arith, all_of_none is_control (trim title))

all-has_char :
    (s : Text) (c : ℕ) → all is_name_byte s ≡ true → is_name_byte c ≡ false → has_char c s ≡ false
unfolding has_char
all-has_char [] c h k = refl
all-has_char (d ∷ s) c h k = ground (arith, all-has_char s c)

slash : is_name_byte b'/' ≡ false
unfolding is_name_byte is_ascii_lowercase is_ascii_digit
slash = refl

zero_byte : is_name_byte 0 ≡ false
unfolding is_name_byte is_ascii_lowercase is_ascii_digit
zero_byte = refl

-- A name that passes as a safe file name holds no slash and no zero byte, and is neither the
-- directory itself nor its parent.
pub is_safe_file_name-has_char :
    (name : Text)
    → is_safe_file_name name ≡ true
    → (has_char b'/' name ≡ false)
      × (has_char 0 name ≡ false)
      × (name ≢ text ".")
      × (name ≢ text "..")
unfolding is_safe_file_name starts_with_char
is_safe_file_name-has_char name h = (
  all-has_char name b'/' (ground (arith, h)) slash,
  all-has_char name 0 (ground (arith, h)) zero_byte,
  (λ e. ground (arith, e)),
  (λ e. ground (arith, e)),
)
