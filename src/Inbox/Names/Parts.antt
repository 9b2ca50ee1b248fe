-- ===== src/Inbox/Names/Parts.antt =====
-- The parts of a generated note name: digits, a slug, and what they start and end with.
use engram_mcp.Common.{
  ℕ, suc, ◌+◌, ◌^◌, ◌≤◌, ◌<◌, ◌≡◌, inl, inr, refl, true, false, [], ◌∷◌, ◌++◌, Text, text, ◌==◌,
  length, length-append, all, all-append, byte_len, len_utf8, is_empty, starts_with_char, ends_with,
  text_eq, is_ascii_digit, is_ascii_lowercase, Bool-cases, arith,
}
use engram_mcp.Common.Int.{ℤ, pos, negsuc, magnitude}
use engram_mcp.Common.Decimal.{
  decimal, padded, padded_int, length-decimal, decimal-all, padded-all, length-padded,
  length-padded-eq,
}
use engram_mcp.Inbox.Slug.{IsSlug, is_slug_char, is_slug_letter}
use engram_mcp.Inbox.Checks.{is_name_byte}
use engram_mcp.Inbox.Calendar.{UtcParts}
use engram_mcp.Inbox.Names.{two, print_date, suffix_of, name_of_parts}

-- A text of name bytes, with at most so many of them.
pub record IsPart (t : Text) (n : ℕ) : Type 0 where
  pub letters : all is_name_byte t ≡ true
  pub short : length t ≤ n

digit-name_byte : (c : ℕ) → is_ascii_digit c ≡ true → is_name_byte c ≡ true
unfolding is_name_byte
digit-name_byte c h = ground arith

digits-name_bytes : (t : Text) → all is_ascii_digit t ≡ true → all is_name_byte t ≡ true
digits-name_bytes [] h = refl
digits-name_bytes (c ∷ t) h = ground (arith, digit-name_byte c, digits-name_bytes t)

slug-name_bytes : (t : Text) → all is_slug_char t ≡ true → all is_name_byte t ≡ true
unfolding is_name_byte is_slug_char is_slug_letter is_ascii_digit is_ascii_lowercase
slug-name_bytes [] h = refl
slug-name_bytes (c ∷ t) h = ground (arith, slug-name_bytes t)

len_utf8-name_byte : (c : ℕ) → is_name_byte c ≡ true → len_utf8 c ≡ 1
unfolding len_utf8 is_name_byte is_ascii_digit is_ascii_lowercase
len_utf8-name_byte c h = ground arith

pub byte_len-name_bytes : (t : Text) → all is_name_byte t ≡ true → byte_len t ≡ length t
unfolding byte_len
byte_len-name_bytes [] h = refl
byte_len-name_bytes (c ∷ t) h = ground (arith, len_utf8-name_byte c, byte_len-name_bytes t)

IsPart-append : (s t : Text) (m n : ℕ) → IsPart s m → IsPart t n → IsPart (s ++ t) (m + n)
IsPart-append s t m n p q = record {
  letters = all-append is_name_byte s t p.letters q.letters;
  short = omega (arith, length-append s t, p.short, q.short);
}

dash-name_byte : is_name_byte b'-' ≡ true
unfolding is_name_byte is_ascii_digit is_ascii_lowercase
dash-name_byte = refl

IsPart-dash : (t : Text) (n : ℕ) → IsPart t n → IsPart (b'-' ∷ t) (suc n)
IsPart-dash t n p = record {
  letters = ground (arith, dash-name_byte, p.letters);
  short = omega (arith, p.short);
}

two-IsPart : (n : ℕ) → n < 100 → IsPart (two n) 2
unfolding two
two-IsPart n h = record {
  letters = digits-name_bytes _ (padded-all 2 (decimal n) (decimal-all n));
  short = omega (arith, length-padded-eq 2 (decimal n) (length-decimal 1 n h));
}

padded-IsPart : (w n : ℕ) → n < 10 ^ 13 → IsPart (padded w (decimal n)) (w + 13)
padded-IsPart w n h = record {
  letters = digits-name_bytes _ (padded-all w (decimal n) (decimal-all n));
  short = omega (arith, length-padded w (decimal n), length-decimal 12 n h);
}

int-IsPart : (z : ℤ) → magnitude z < 10 ^ 13 → IsPart (padded_int 4 z) 17
unfolding padded_int
int-IsPart (pos n) h = padded-IsPart 4 n h
int-IsPart (negsuc n) h = IsPart-dash _ 16 (padded-IsPart 3 (suc n) h)

-- Two digits are enough for the parts of a date and a time, and thirteen for the year.
pub record IsPrinted (p : UtcParts) : Type 0 where
  pub year : magnitude p.date.year < 10 ^ 13
  pub month : p.date.month < 100
  pub day : p.date.day < 100
  pub hour : p.hour < 100
  pub minute : p.minute < 100
  pub second : p.second < 100

print_date-IsPart : (p : UtcParts) → IsPrinted p → IsPart (print_date p.date) 23
unfolding print_date
print_date-IsPart p i = IsPart-append _ _ 17 6 (int-IsPart p.date.year i.year) (
    IsPart-dash _ 5 (
      IsPart-append _ _ 2 3 (two-IsPart p.date.month i.month)
        (IsPart-dash _ 2 (two-IsPart p.date.day i.day))))

suffix_of-IsPart : (attempt : ℕ) → attempt < 64 → IsPart (suffix_of attempt) 3
unfolding suffix_of
suffix_of-IsPart attempt h = elim (Bool-cases (attempt == 0)) [
  | inl first ↦ rw first (record { letters = refl; short = omega arith })
  | inr later ↦ rw later (
      IsPart-dash _ 2 (record {
        letters = digits-name_bytes _ (decimal-all (attempt + 1));
        short = length-decimal 1 (attempt + 1) (omega arith);
      }))
]

extension-IsPart : IsPart (text ".md") 3
unfolding is_name_byte is_ascii_digit is_ascii_lowercase
extension-IsPart = record { letters = refl; short = omega arith }

pub name_of_parts-IsPart :
    (p : UtcParts) (slug : Text) (attempt : ℕ)
    → IsPrinted p
    → IsSlug slug
    → attempt < 64
    → IsPart (name_of_parts p slug attempt) 77
unfolding name_of_parts
name_of_parts-IsPart p slug attempt i s h =
    let named : IsPart slug 40 = record {
      letters = slug-name_bytes slug s.letters;
      short = ground (arith, byte_len-name_bytes slug (slug-name_bytes slug s.letters), s.short);
    } in
    IsPart-append _ _ 23 54 (print_date-IsPart p i) (
      IsPart-dash _ 53 (
        IsPart-append _ _ 2 51 (two-IsPart p.hour i.hour) (
          IsPart-append _ _ 2 49 (two-IsPart p.minute i.minute) (
            IsPart-append _ _ 2 47 (two-IsPart p.second i.second) (
              IsPart-dash _ 46 (
                IsPart-append _ _ 40 6 named
                  (IsPart-append _ _ 3 3 (suffix_of-IsPart attempt h) extension-IsPart)))))))

ends_with-append : (t u s : Text) → ends_with t s ≡ true → ends_with t (u ++ s) ≡ true
unfolding ends_with
ends_with-append t [] s h = h
ends_with-append t (c ∷ u) s h = ground (arith, ends_with-append t u s h)

ends_with-cons : (t : Text) (c : ℕ) (s : Text) → ends_with t s ≡ true → ends_with t (c ∷ s) ≡ true
unfolding ends_with
ends_with-cons t c s h = ground (arith, h)

md-ends_with : ends_with (text ".md") (text ".md") ≡ true
unfolding ends_with text_eq
md-ends_with = refl

pub name_of_parts-ends_with :
    (p : UtcParts) (slug : Text) (attempt : ℕ)
    → ends_with (text ".md") (name_of_parts p slug attempt) ≡ true
unfolding name_of_parts
name_of_parts-ends_with p slug attempt =
    let md = text ".md" in
    ends_with-append md (print_date p.date) _ (
      ends_with-cons md b'-' _ (
        ends_with-append md (two p.hour) _ (
          ends_with-append md (two p.minute) _ (
            ends_with-append md (two p.second) _ (
              ends_with-cons md b'-' _ (
                ends_with-append md slug _
                  (ends_with-append md (suffix_of attempt) _ md-ends_with)))))))

-- A text of digits and then a dash begins with no dot.
starts-digits :
    (s t : Text)
    → all is_ascii_digit s ≡ true
    → (is_empty ((s ++ b'-' ∷ t)) ≡ false) × (starts_with_char b'.' (s ++ b'-' ∷ t) ≡ false)
unfolding starts_with_char is_ascii_digit
starts-digits [] t h = (refl, refl)
starts-digits (c ∷ s) t h = (refl, ground (arith, h))

starts-append :
    (s t : Text)
    → (is_empty s ≡ false) × (starts_with_char b'.' s ≡ false)
    → (is_empty (s ++ t) ≡ false) × (starts_with_char b'.' (s ++ t) ≡ false)
unfolding starts_with_char
starts-append [] t h = ground (arith, h)
starts-append (c ∷ s) t h = h

starts-int :
    (z : ℤ) (t : Text)
    → (is_empty (padded_int 4 z ++ b'-' ∷ t) ≡ false)
      × (starts_with_char b'.' (padded_int 4 z ++ b'-' ∷ t) ≡ false)
unfolding padded_int starts_with_char
starts-int (pos n) t =
    starts-digits (padded 4 (decimal n)) t (padded-all 4 (decimal n) (decimal-all n))
starts-int (negsuc n) t = (refl, refl)

pub name_of_parts-starts :
    (p : UtcParts) (slug : Text) (attempt : ℕ)
    → (is_empty (name_of_parts p slug attempt) ≡ false)
      × (starts_with_char b'.' (name_of_parts p slug attempt) ≡ false)
unfolding name_of_parts print_date
name_of_parts-starts p slug attempt = starts-append _ _ (starts-int p.date.year _)
