-- ===== src/OAuth/Signing/Laws.antt =====
-- Signed values are read back, and only values with the right digest are read.
use engram_mcp.Common.{
  ◌≡◌, ap, inl, inr, ◌∙◌, false, not, ◌||◌, Option, none, some, [], ◌∷◌, ◌++◌, Text, has_char,
  length, split_once, split_once-append, strip_prefix-append, ◌==◌, ok, >>=-eq-ok, ok_or, arith,
  Bool-cases,
}
use engram_mcp.OAuth.Error.{OAuthError, invalid_request, internal}
use engram_mcp.OAuth.Crates.{Json, Crypto}
use engram_mcp.OAuth.Signing.{
  mac_message, mac, sign, check_signature, verify_parts, verify, verify_token,
}

pub ok_or-eq-ok {ℓ} :
    {A : Type ℓ} (o : Option A) (e : OAuthError) {a : A} → ok_or o e ≡ ok a → o ≡ some a
ok_or-eq-ok none e h = cc
ok_or-eq-ok (some b) e h = cc

-- The digest separates its labels: two messages with labels that hold no zero byte are equal only
-- with equal labels and equal values.
pub mac_message_inj :
    (l l' v v' : Text)
    → has_char 0 l ≡ false
    → has_char 0 l' ≡ false
    → mac_message l v ≡ mac_message l' v'
    → (l ≡ l') × (v ≡ v')
unfolding mac_message has_char
mac_message_inj [] [] v v' h h' e = ground arith
mac_message_inj [] (d ∷ l') v v' h h' e = ground arith
mac_message_inj (c ∷ l) [] v v' h h' e = ground arith
mac_message_inj (c ∷ l) (d ∷ l') v v' h h' e = ground (arith, mac_message_inj l l' v v')

module _ {ℓ} {T : Type ℓ} (crypto : Crypto) (key : Text) (json : Json T) where
  check_signature-mac :
      (label payload : Text) (v : T)
      → json.from_slice payload ≡ some v
      → check_signature crypto key json label payload (mac crypto key label payload) ≡ ok v
  unfolding check_signature
  check_signature-mac label payload v read =
      ground (
        arith,
        crypto.subtle.ct_eq_iff (mac crypto key label payload) (mac crypto key label payload),
      )

  -- What was signed under a label is read back by a verification under the same label.
  pub verify-sign :
      (label s : Text) (v : T)
      → sign crypto key json label v ≡ ok s
      → verify crypto key json label s ≡ ok v
  unfolding sign verify verify_parts
  verify-sign label s v h =
      let (payload, written, signed) = >>=-eq-ok (ok_or (json.to_vec v) internal) _ h in
      let e = crypto.encode payload in
      let d = crypto.encode (mac crypto key label payload) in
      let same : s ≡ e ++ b'.' ∷ d = cc in
      rw
        (
          same,
          split_once-append b'.' e d (crypto.encode_no_dot payload),
          crypto.decode-encode payload,
          crypto.decode-encode (mac crypto key label payload),
        )
        (check_signature-mac label payload v
          (json.round_trip v payload (ok_or-eq-ok _ internal written)))

  check_signature-ok :
      (label payload signature : Text) (v : T)
      → check_signature crypto key json label payload signature ≡ ok v
      → (signature ≡ mac crypto key label payload) × (json.from_slice payload ≡ some v)
  unfolding check_signature
  check_signature-ok label payload signature v h =
      let expected = mac crypto key label payload in
      elim (Bool-cases (
        not (length signature == length expected)
        || not (crypto.subtle.ct_eq signature expected))) [
          | inl bad ↦ absurd (ground arith)
          | inr good ↦ (
            ground (arith, crypto.subtle.ct_eq_iff signature expected),
            ok_or-eq-ok _ invalid_request (rw good at h),
          )
        ]

  -- The text is a payload and a signature in base64, the signature is the digest of the payload
  -- under the label, and the value is read from the payload.
  pub record IsSigned (label s : Text) (v : T) : Type ℓ where
    pub parts : Text × Text
    pub payload : Text
    pub split : split_once b'.' s ≡ some parts
    pub decoded : crypto.decode parts.0 ≡ some payload
    pub signature : crypto.decode parts.1 ≡ some (mac crypto key label payload)
    pub read : json.from_slice payload ≡ some v

  -- A value is verified only if the text is split at its first dot in a payload and the digest of
  -- that payload under the label, and the payload reads as the value.
  pub verify-IsSigned :
      (label s : Text) (v : T) → verify crypto key json label s ≡ ok v → IsSigned label s v
  unfolding verify verify_parts
  verify-IsSigned label s v h =
      let (parts, split, h₁) = >>=-eq-ok _ _ h in
      let (payload, decoded, h₂) = >>=-eq-ok _ _ h₁ in
      let (signature, signed, h₃) = >>=-eq-ok _ _ h₂ in
      let (same, read) = check_signature-ok label payload signature v h₃ in
      record {
        parts = parts;
        payload = payload;
        split = ok_or-eq-ok _ invalid_request split;
        decoded = ok_or-eq-ok _ invalid_request decoded;
        signature = ok_or-eq-ok _ invalid_request signed ∙ ap some same;
        read = read;
      }

  pub verify_token-append :
      (prefix label s : Text) (v : T)
      → sign crypto key json label v ≡ ok s
      → verify_token crypto key json prefix label (prefix ++ s) ≡ ok v
  unfolding verify_token
  verify_token-append prefix label s v h =
      rw (strip_prefix-append prefix s) (verify-sign label s v h)
