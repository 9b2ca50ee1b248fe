-- ===== src/Inbox/Slug.antt =====
-- `slug` of src/inbox.rs: the part of a note's file name that comes from its title.
use engram_mcp.Common.{
  ℕ, ◌≤◌, ◌≡◌, inl, inr, refl, Bool, true, false, not, ◌&&◌, ◌||◌, [], ◌∷◌, ◌++◌, Text, text,
  byte_len, len_utf8, all, all-append, byte_len-append, is_empty, starts_with_char, ends_with_char,
  to_ascii_lowercase, leb, ◌==◌, if◌then◌else◌, Bool-cases, arith,
}

abbrev pub max_slug_chars : ℕ
max_slug_chars = 40

abbrev pub fallback_slug : Text
fallback_slug = text "note"

unfoldable pub is_slug_letter : ℕ → Bool
is_slug_letter c = leb b'a' c && leb c b'z' || leb b'0' c && leb c b'9'

-- The dash that stands for what was left out before a letter.
unfoldable pub separated : Text → Bool → Text
separated slug separator = if separator && not (is_empty slug) then slug ++ b'-' ∷ [] else slug

-- The loop over the characters of the title.
unfoldable pub slug_loop : Text → (slug : Text) (separator : Bool) → Text
slug_loop [] slug separator = slug
slug_loop (c ∷ title) slug separator = elim (is_slug_letter (to_ascii_lowercase c)) [
  | false ↦ slug_loop title slug true
  | true ↦ elim (leb max_slug_chars (byte_len slug)) [
    | true ↦ slug
    | false ↦ elim (leb max_slug_chars (byte_len (separated slug separator))) [
      | true ↦ separated slug separator
      | false ↦ slug_loop title (separated slug separator ++ to_ascii_lowercase c ∷ []) false
    ]
  ]
]

-- `while slug.ends_with('-') { slug.pop(); }`.
unfoldable pub pop_dashes : Text → Text
pop_dashes [] = []
pop_dashes (c ∷ slug) =
    let rest = pop_dashes slug in if c == b'-' && is_empty rest then [] else c ∷ rest

unfoldable pub or_fallback : Text → Text
or_fallback [] = fallback_slug
or_fallback (c ∷ slug) = c ∷ slug

unfoldable pub slug : Text → Text
slug title = or_fallback (pop_dashes (slug_loop title [] false))

unfoldable pub is_slug_char : ℕ → Bool
is_slug_char c = is_slug_letter c || c == b'-'

-- Holds for what the loop has collected.
abbrev IsPart : Text → Type 0
IsPart s = (all is_slug_char s ≡ true) × (byte_len s ≤ 40) × (starts_with_char b'-' s ≡ false)

len_utf8-slug_char : (c : ℕ) → is_slug_char c ≡ true → len_utf8 c ≡ 1
unfolding is_slug_char is_slug_letter len_utf8
len_utf8-slug_char c h = ground arith

starts_with_char-append :
    (c d : ℕ) (s : Text)
    → starts_with_char c s ≡ false
    → (is_empty s ≡ true → (d == c) ≡ false)
    → starts_with_char c (s ++ d ∷ []) ≡ false
unfolding starts_with_char
starts_with_char-append c d [] h e = e refl
starts_with_char-append c d (x ∷ s) h e = h

-- One more character, where there is room.
IsPart-append :
    (s : Text) (c : ℕ)
    → IsPart s
    → is_slug_char c ≡ true
    → leb 40 (byte_len s) ≡ false
    → (is_empty s ≡ true → (c == b'-') ≡ false)
    → IsPart (s ++ c ∷ [])
unfolding byte_len
IsPart-append s c (letters, short, start) h room first = (
  all-append is_slug_char s (c ∷ []) letters (ground (arith, h)),
  ground (arith, byte_len-append s (c ∷ []), len_utf8-slug_char c h),
  starts_with_char-append b'-' c s start first,
)

dash_char : is_slug_char b'-' ≡ true
unfolding is_slug_char is_slug_letter
dash_char = refl

letter_char : (c : ℕ) → is_slug_letter c ≡ true → is_slug_char c ≡ true
unfolding is_slug_char
letter_char c h = ground arith

separated-IsPart :
    (s : Text) (b : Bool) → IsPart s → leb 40 (byte_len s) ≡ false → IsPart (separated s b)
unfolding separated
separated-IsPart s b p room = elim (Bool-cases (b && not (is_empty s))) [
  | inl dash ↦
      rw dash (IsPart-append s b'-' p dash_char room (λ e. absurd (ground (arith, e, dash))))
  | inr none' ↦ rw none' p
]

letter_not_dash : (c : ℕ) → is_slug_letter c ≡ true → (c == b'-') ≡ false
unfolding is_slug_letter
letter_not_dash c h = ground arith

slug_loop-IsPart : (title s : Text) (b : Bool) → IsPart s → IsPart (slug_loop title s b)
unfolding slug_loop
slug_loop-IsPart [] s b p = p
slug_loop-IsPart (c ∷ title) s b p = elim (Bool-cases (is_slug_letter (to_ascii_lowercase c))) [
  | inr other ↦ rw (other, slug_loop) (slug_loop-IsPart title s true p)
  | inl letter ↦ elim (Bool-cases (leb 40 (byte_len s))) [
    | inl full ↦ rw (letter, full, slug_loop) p
    | inr room ↦
        let q = separated-IsPart s b p room in
        elim (Bool-cases (leb 40 (byte_len (separated s b)))) [
          | inl full' ↦ rw (letter, room, full', slug_loop) q
          | inr room' ↦
              rw (letter, room, room', slug_loop)
                (slug_loop-IsPart title _ false (
                  IsPart-append (separated s b) (to_ascii_lowercase c) q (letter_char _ letter)
                    room' (λ e. letter_not_dash _ letter)))
        ]
  ]
]

ends_with_char-cons :
    (c : ℕ) (s : Text)
    → ends_with_char b'-' s ≡ false
    → ends_with_char b'-' (if c == b'-' && is_empty s then [] else c ∷ s) ≡ false
unfolding ends_with_char
ends_with_char-cons c [] h = ground arith
ends_with_char-cons c (d ∷ s) h = ground arith

ends_with_char-nil : ends_with_char b'-' [] ≡ false
unfolding ends_with_char
ends_with_char-nil = refl

pop_dashes-IsPart :
    (s : Text)
    → all is_slug_char s ≡ true
    → (all is_slug_char (pop_dashes s) ≡ true)
      × (byte_len (pop_dashes s) ≤ byte_len s)
      × (ends_with_char b'-' (pop_dashes s) ≡ false)
unfolding pop_dashes byte_len
pop_dashes-IsPart [] h = (refl, omega arith, ends_with_char-nil)
pop_dashes-IsPart (c ∷ s) h =
    let (letters, short, end) = pop_dashes-IsPart s (ground (arith, h)) in
    (ground (arith, h), ground arith, ends_with_char-cons c (pop_dashes s) end)

pop_dashes-starts_with_char :
    (s : Text) → starts_with_char b'-' s ≡ false → starts_with_char b'-' (pop_dashes s) ≡ false
unfolding pop_dashes starts_with_char
pop_dashes-starts_with_char [] h = refl
pop_dashes-starts_with_char (c ∷ s) h = ground arith

-- A nonempty name of at most forty lowercase letters, digits and inner dashes.
pub record IsSlug (s : Text) : Type 0 where
  pub nonempty : is_empty s ≡ false
  pub letters : all is_slug_char s ≡ true
  pub short : byte_len s ≤ max_slug_chars
  pub no_first_dash : starts_with_char b'-' s ≡ false
  pub no_last_dash : ends_with_char b'-' s ≡ false

or_fallback-IsSlug :
    (s : Text)
    → all is_slug_char s ≡ true
    → byte_len s ≤ 40
    → starts_with_char b'-' s ≡ false
    → ends_with_char b'-' s ≡ false
    → IsSlug (or_fallback s)
unfolding or_fallback is_slug_char is_slug_letter byte_len len_utf8 starts_with_char ends_with_char
or_fallback-IsSlug [] h₁ h₂ h₃ h₄ = record {
  nonempty = refl;
  letters = refl;
  short = ground arith;
  no_first_dash = refl;
  no_last_dash = refl;
}
or_fallback-IsSlug (c ∷ s) h₁ h₂ h₃ h₄ = record {
  nonempty = refl;
  letters = h₁;
  short = h₂;
  no_first_dash = h₃;
  no_last_dash = h₄;
}

empty-IsPart : IsPart []
unfolding byte_len starts_with_char
empty-IsPart = (refl, ground arith, refl)

-- Whatever its title, a note's slug is not empty, has at most forty bytes, and consists of
-- lowercase ASCII letters, digits and dashes, with no dash at either end.
pub slug-IsSlug : (title : Text) → IsSlug (slug title)
unfolding slug
slug-IsSlug title =
    let (letters, short, start) = slug_loop-IsPart title [] false empty-IsPart in
    let (letters', short', end) = pop_dashes-IsPart (slug_loop title [] false) letters in
    or_fallback-IsSlug (pop_dashes (slug_loop title [] false)) letters'
      (omega (arith, short, short')) (pop_dashes-starts_with_char (slug_loop title [] false) start)
      end
