-- ===== src/Documents/Read/Limited.antt =====
-- What a limited read of src/document.rs returns.
use engram_mcp.Common.{
  ℕ, zero, suc, ◌+◌, ◌-◌, ◌^◌, ◌≤◌, ◌<◌, ◌≡◌, ◌==◌, ==_iff, ◌≢◌, refl, ap, sym, ◌∙◌, inl, inr, min,
  Bool, true, false, none, some, List, [], ◌∷◌, Text, length, take, ltb, ok, err, arith, Bool-cases,
  Option-cases,
}
use engram_mcp.Utf8.{from_utf8, decode_from}
use engram_mcp.OAuth.Signing.{saturating_add}
use engram_mcp.Documents.Id.{StoreError, invalid_utf8}
use engram_mcp.Documents.Read.{is_utf8, pop_invalid, decoded, decode_limited, read_utf8_limited}

take-take : (m n : ℕ) (xs : List ℕ) → m ≤ n → take m (take n xs) ≡ take m xs
take-take zero n xs h = refl
take-take (suc m) zero xs h = absurd (omega (arith, h))
take-take (suc m) (suc n) [] h = refl
take-take (suc m) (suc n) (x ∷ xs) h = ap (λ l. x ∷ l) (take-take m n xs (omega (arith, h)))

take-all : (n : ℕ) (xs : List ℕ) → length xs ≤ n → take n xs ≡ xs
take-all zero [] h = refl
take-all zero (x ∷ xs) h = absurd (omega (arith, h))
take-all (suc n) [] h = refl
take-all (suc n) (x ∷ xs) h = ap (λ l. x ∷ l) (take-all n xs (omega (arith, h)))

length-take : (n : ℕ) (xs : List ℕ) → length (take n xs) ≡ min n (length xs)
length-take zero xs = omega arith
length-take (suc n) [] = omega arith
length-take (suc n) (x ∷ xs) = omega (arith, length-take n xs)

is_utf8-empty : is_utf8 [] ≡ true
unfolding from_utf8 decode_from
is_utf8-empty = refl

-- What is kept is the longest beginning, of at most `n` bytes, that is valid.
record IsLongest (n : ℕ) (bytes kept : List ℕ) : Type 0 where
  size : ℕ
  within : size ≤ n
  begins : kept ≡ take size bytes
  valid : is_utf8 kept ≡ true
  longest : (k : ℕ) → k ≤ n → is_utf8 (take k bytes) ≡ true → k ≤ size

true≢false : true ≢ false
true≢false h = cc

below-invalid :
    (n k : ℕ) (bytes : List ℕ)
    → is_utf8 (take (suc n) bytes) ≡ false
    → k ≤ suc n
    → is_utf8 (take k bytes) ≡ true
    → k ≤ n
below-invalid n k bytes e h v = elim (Bool-cases (k == suc n)) [
  | inr d ↦ ground (arith, d, h)
  | inl d ↦
      let same : k ≡ suc n = (==_iff k (suc n)).0 d in
      absurd (true≢false (sym v ∙ ap (λ i. is_utf8 (take i bytes)) same ∙ e))
]

pop_invalid-IsLongest : (n : ℕ) (bytes : List ℕ) → IsLongest n bytes (pop_invalid n bytes)
unfolding pop_invalid
pop_invalid-IsLongest zero bytes = record {
  size = 0;
  within = omega arith;
  begins = refl;
  valid = is_utf8-empty;
  longest = λ k h v. h;
}
pop_invalid-IsLongest (suc n) bytes = elim (Bool-cases (is_utf8 (take (suc n) bytes))) [
  | inl e ↦
      rw (e, pop_invalid)
        (record {
          size = suc n;
          within = omega arith;
          begins = refl;
          valid = e;
          longest = λ k h v. h;
        })
  | inr e ↦
      let ih = pop_invalid-IsLongest n bytes in
      rw (e, pop_invalid)
        (record {
          size = ih.size;
          within = omega (arith, ih.within);
          begins = ih.begins;
          valid = ih.valid;
          longest = λ k h v. ih.longest k (below-invalid n k bytes e h v) v;
        })
]

-- The text is that of the longest valid beginning of the file within the limit, which is all of the
-- file when that is within the limit.
pub record IsBeginning (file : List ℕ) (max_bytes : ℕ) (contents : Text) (truncated : Bool)
    : Type 0 where
  pub size : ℕ
  pub within : size ≤ max_bytes
  pub decodes : from_utf8 (take size file) ≡ some contents
  pub cut : truncated ≡ ltb max_bytes (length file)
  pub whole : truncated ≡ false → take size file ≡ file
  pub longest : (k : ℕ) → k ≤ max_bytes → is_utf8 (take k file) ≡ true → length (take k file) ≤ size

-- Taking one byte more than the limit shows whether there is more.
seen :
    (max_bytes : ℕ) (file : List ℕ)
    → max_bytes < 2 ^ 64 - 1
    → take (saturating_add max_bytes 1) file ≡ take (suc max_bytes) file
unfolding saturating_add
seen max_bytes file h =
    let e : min (max_bytes + 1) (2 ^ 64 - 1) ≡ suc max_bytes = omega (arith, h) in
    ap (λ n. take n file) e

pop_invalid-take :
    (n m : ℕ) (bytes : List ℕ) → n ≤ m → pop_invalid n (take m bytes) ≡ pop_invalid n bytes
unfolding pop_invalid
pop_invalid-take zero m bytes h = refl
pop_invalid-take (suc n) m bytes h =
    rw (take-take (suc n) m bytes h, pop_invalid-take n m bytes (omega (arith, h)), pop_invalid)
      refl

decode_limited-long :
    (max_bytes : ℕ) (bytes : List ℕ)
    → ltb max_bytes (length bytes) ≡ true
    → decode_limited bytes max_bytes ≡ decoded true (from_utf8 (pop_invalid max_bytes bytes))
unfolding decode_limited
decode_limited-long max_bytes bytes long = rw (long, decode_limited) refl

-- The limited read sees as much of the file as it needs.
read_utf8_limited-eq :
    (file : List ℕ) (max_bytes : ℕ)
    → max_bytes < 2 ^ 64 - 1
    → read_utf8_limited (some file) max_bytes ≡ decode_limited file max_bytes
unfolding read_utf8_limited
read_utf8_limited-eq file max_bytes b =
    ap (λ bytes. decode_limited bytes max_bytes) (seen max_bytes file b)
    ∙ elim (Bool-cases (ltb max_bytes (length file))) [
      | inr short ↦
          ap (λ bytes. decode_limited bytes max_bytes)
            (take-all (suc max_bytes) file (ground (arith, short)))
      | inl long ↦
          let still : ltb max_bytes (length (take (suc max_bytes) file)) ≡ true =
            ground (arith, long, length-take (suc max_bytes) file) in
          decode_limited-long max_bytes (take (suc max_bytes) file) still
          ∙ ap (λ kept. decoded true (from_utf8 kept))
              (pop_invalid-take max_bytes (suc max_bytes) file (omega arith))
          ∙ sym (decode_limited-long max_bytes file long)
    ]

-- A limited read that succeeds returns the decoding of the longest beginning of the file, within
-- the limit, that is UTF-8; it says that the text is truncated exactly if the file is longer than
-- the limit, and otherwise returns all of the file. The limit is below the largest 64-bit number.
pub read_utf8_limited-ok :
    (file : List ℕ) (max_bytes : ℕ) (contents : Text) (truncated : Bool)
    → max_bytes < 2 ^ 64 - 1
    → read_utf8_limited (some file) max_bytes ≡ ok (contents, truncated)
    → IsBeginning file max_bytes contents truncated
unfolding decode_limited
read_utf8_limited-ok file max_bytes contents truncated b h =
    let k : decode_limited file max_bytes ≡ ok (contents, truncated) =
      sym (read_utf8_limited-eq file max_bytes b) ∙ h in
    elim (Bool-cases (ltb max_bytes (length file))) [
      | inl long ↦
          let kept = pop_invalid-IsLongest max_bytes file in
          elim (Option-cases (from_utf8 (pop_invalid max_bytes file))) [
            | inl f ↦ absurd (ground (arith, long, f, k))
            | inr (t, f) ↦ record {
              size = kept.size;
              within = kept.within;
              decodes = ap from_utf8 (sym kept.begins) ∙ f ∙ ground (arith, long, f, k);
              cut = ground (arith, long, f, k);
              whole = λ w. absurd (ground (arith, long, f, k, w));
              longest = λ n m v. omega (arith, length-take n file, kept.longest n m v);
            }
          ]
      | inr short ↦ elim (Option-cases (from_utf8 file)) [
        | inl f ↦ absurd (ground (arith, short, f, k))
        | inr (t, f) ↦
            let all = take-all (length file) file (omega arith) in
            record {
              size = length file;
              within = ground (arith, short);
              decodes = ap from_utf8 all ∙ f ∙ ground (arith, short, f, k);
              cut = ground (arith, short, f, k);
              whole = λ w. all;
              longest = λ n m v. omega (arith, length-take n file);
            }
      ]
    ]

-- The read of a file fails only when the file is within the limit and is not UTF-8.
pub read_utf8_limited-err :
    (file : List ℕ) (max_bytes : ℕ) (e : StoreError)
    → max_bytes < 2 ^ 64 - 1
    → read_utf8_limited (some file) max_bytes ≡ err e
    → (e ≡ invalid_utf8) × (length file ≤ max_bytes) × (from_utf8 file ≡ none)
unfolding decode_limited
read_utf8_limited-err file max_bytes e b h =
    let k : decode_limited file max_bytes ≡ err e =
      sym (read_utf8_limited-eq file max_bytes b) ∙ h in
    elim (Bool-cases (ltb max_bytes (length file))) [
      | inl long ↦
          let kept = pop_invalid-IsLongest max_bytes file in
          elim (Option-cases (from_utf8 (pop_invalid max_bytes file))) [
            | inl f ↦ absurd (ground (arith, f, kept.valid))
            | inr (t, f) ↦ absurd (ground (arith, long, f, k))
          ]
      | inr short ↦ elim (Option-cases (from_utf8 file)) [
        | inl f ↦ (ground (arith, short, f, k), ground (arith, short), f)
        | inr (t, f) ↦ absurd (ground (arith, short, f, k))
      ]
    ]
