-- ===== src/OAuth/Pkce.antt =====
-- PKCE of src/oauth.rs.
use engram_mcp.Utf8.{as_bytes}
use engram_mcp.Common.{
  ℕ, ◌≡◌, ◌≤◌, ◌⊎◌, ◌↔◌, refl, [], ◌∷◌, length, All, len_utf8, is_ascii_alphabetic, is_ascii_digit,
  Bool, true, false, not, ◌&&◌, ◌||◌, Text, all, leb, ◌==◌, if◌then◌else◌, is_ascii_alphanumeric,
  byte_len, arith,
}
use engram_mcp.OAuth.Crates.{Crypto, constant_time_equal, constant_time_equal_iff}

unfoldable pub is_challenge_char : ℕ → Bool
is_challenge_char c = is_ascii_alphanumeric c || c == b'-' || c == b'_'

unfoldable pub is_verifier_char : ℕ → Bool
is_verifier_char c = is_ascii_alphanumeric c || c == b'-' || c == b'_' || c == b'.' || c == b'~'

unfoldable pub valid_code_challenge : Text → Bool
valid_code_challenge value = byte_len value == 43 && all is_challenge_char value

unfoldable pub valid_code_verifier : Text → Bool
valid_code_verifier value =
    leb 43 (byte_len value) && leb (byte_len value) 128 && all is_verifier_char value

unfoldable pub verify_pkce : Crypto → (verifier challenge : Text) → Bool
verify_pkce crypto verifier challenge =
    if not (valid_code_verifier verifier)
    then false
    else constant_time_equal crypto.subtle (crypto.encode (crypto.sha256 (as_bytes verifier)))
        challenge

-- The unreserved characters of a URI: letters, digits, and - . _ ~
abbrev pub IsUnreserved : ℕ → Type 0
IsUnreserved c =
    ((b'A' ≤ c) × (c ≤ b'Z'))
    ⊎ ((b'a' ≤ c) × (c ≤ b'z'))
    ⊎ ((b'0' ≤ c) × (c ≤ b'9'))
    ⊎ (c ≡ b'-')
    ⊎ (c ≡ b'.')
    ⊎ (c ≡ b'_')
    ⊎ (c ≡ b'~')

is_verifier_char_iff : (c : ℕ) → (is_verifier_char c ≡ true) ↔ IsUnreserved c
unfolding is_verifier_char is_ascii_alphanumeric is_ascii_alphabetic is_ascii_digit
is_verifier_char_iff c = ground arith

all-is_verifier_char_iff : (t : Text) → (all is_verifier_char t ≡ true) ↔ All IsUnreserved t
all-is_verifier_char_iff [] = (λ h. tt, λ h. refl)
all-is_verifier_char_iff (c ∷ t) = (
  λ h. (
    (is_verifier_char_iff c).0 (ground (arith, h)),
    (all-is_verifier_char_iff t).0 (ground (arith, h)),
  ),
  λ h. ground (arith, (is_verifier_char_iff c).1 h.0, (all-is_verifier_char_iff t).1 h.1),
)

byte_len-IsUnreserved : (t : Text) → All IsUnreserved t → byte_len t ≡ length t
unfolding byte_len len_utf8
byte_len-IsUnreserved [] h = refl
byte_len-IsUnreserved (c ∷ t) h = ground (arith, h.0, byte_len-IsUnreserved t h.1)

valid_code_verifier_iff :
    (t : Text)
    → (valid_code_verifier t ≡ true) ↔ ((43 ≤ length t) × (length t ≤ 128) × All IsUnreserved t)
unfolding valid_code_verifier
valid_code_verifier_iff t = (
  λ h.
      let letters = (all-is_verifier_char_iff t).0 (ground (arith, h)) in
      let same = byte_len-IsUnreserved t letters in
      (ground (arith, h, same), ground (arith, h, same), letters),
  λ h. ground (arith, h.0, h.1, byte_len-IsUnreserved t h.2, (all-is_verifier_char_iff t).1 h.2),
)

-- The characters of base64 for URLs: letters, digits, and - _
abbrev pub IsUrlSafe : ℕ → Type 0
IsUrlSafe c =
    ((b'A' ≤ c) × (c ≤ b'Z'))
    ⊎ ((b'a' ≤ c) × (c ≤ b'z'))
    ⊎ ((b'0' ≤ c) × (c ≤ b'9'))
    ⊎ (c ≡ b'-')
    ⊎ (c ≡ b'_')

IsUrlSafe-is_challenge_char : (c : ℕ) → is_challenge_char c ≡ true → IsUrlSafe c × (len_utf8 c ≡ 1)
unfolding is_challenge_char is_ascii_alphanumeric is_ascii_alphabetic is_ascii_digit len_utf8
IsUrlSafe-is_challenge_char c h = (ground (arith, h), ground (arith, h))

all-is_challenge_char :
    (t : Text) → all is_challenge_char t ≡ true → All IsUrlSafe t × (byte_len t ≡ length t)
unfolding byte_len
all-is_challenge_char [] h = (tt, refl)
all-is_challenge_char (c ∷ t) h =
    let (letter, one_byte) = IsUrlSafe-is_challenge_char c (ground (arith, h)) in
    let (letters, same) = all-is_challenge_char t (ground (arith, h)) in
    ((letter, letters), omega (arith, one_byte, same))

-- A challenge that is well formed has 43 characters of that kind, as many as a digest of 32 bytes.
pub valid_code_challenge-ok :
    (t : Text) → valid_code_challenge t ≡ true → (length t ≡ 43) × All IsUrlSafe t
unfolding valid_code_challenge
valid_code_challenge-ok t h =
    let (letters, same) = all-is_challenge_char t (ground (arith, h)) in
    (ground (arith, h, same), letters)

-- The PKCE check passes exactly if the verifier has 43 to 128 characters, each a letter, a digit
-- or one of - . _ ~, and the challenge is the encoded digest of it.
pub verify_pkce_iff :
    (crypto : Crypto) (verifier challenge : Text)
    → (verify_pkce crypto verifier challenge ≡ true) ↔ (
        (43 ≤ length verifier)
        × (length verifier ≤ 128)
        × All IsUnreserved verifier
        × (challenge ≡ crypto.encode (crypto.sha256 (as_bytes verifier))))
unfolding verify_pkce
verify_pkce_iff crypto verifier challenge =
    let well_formed = valid_code_verifier_iff verifier in
    let same =
      constant_time_equal_iff crypto.subtle (crypto.encode (crypto.sha256 (as_bytes verifier)))
        challenge in
    (
      λ h.
          let (least, most, letters) = well_formed.0 (ground (arith, h)) in
          (least, most, letters, ground (arith, h, same)),
      λ h. ground (arith, well_formed.1 (h.0, h.1, h.2), same, h.3),
    )
