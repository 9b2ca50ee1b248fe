-- ===== src/OAuth/Crates.antt =====
-- What src/oauth.rs takes from other crates, as parameters with their documented behaviour. A byte
-- string is a list of numbers; `as_bytes` of a text is left to the functions that read it.
use engram_mcp.Common.{
  ◌≡◌, ◌↔◌, Bool, true, false, Option, some, Text, length, has_char, ◌&&◌, ◌==◌, arith,
}

-- The crate `subtle`: `ct_eq` of two byte slices.
pub record Subtle : Type 0 where
  pub ct_eq : Text → Text → Bool
  pub ct_eq_iff : (a b : Text) → (ct_eq a b ≡ true) ↔ (a ≡ b)

module _ (s : Subtle) where
  unfoldable pub constant_time_equal : Text → Text → Bool
  constant_time_equal left right = length left == length right && s.ct_eq left right

  pub constant_time_equal_iff : (a b : Text) → (constant_time_equal a b ≡ true) ↔ (a ≡ b)
  unfolding constant_time_equal
  constant_time_equal_iff a b = ground (arith, s.ct_eq_iff a b)

-- `serde_json` at one type: whatever is written is read back.
pub record Json {ℓ} (T : Type ℓ) : Type ℓ where
  pub to_vec : T → Option Text
  pub from_slice : Text → Option T
  pub round_trip : (v : T) (b : Text) → to_vec v ≡ some b → from_slice b ≡ some v

-- The crates `hmac` and `sha2` as functions, and `base64`: URL_SAFE_NO_PAD is decoded from what it
-- encodes, and its alphabet has no dot.
pub record Crypto : Type 0 where
  pub subtle : Subtle
  pub hmac_sha256 : (key message : Text) → Text
  pub sha256 : Text → Text
  pub encode : Text → Text
  pub decode : Text → Option Text
  pub standard_decode : Text → Option Text
  pub decode-encode : (b : Text) → decode (encode b) ≡ some b
  pub encode_no_dot : (b : Text) → has_char b'.' (encode b) ≡ false
