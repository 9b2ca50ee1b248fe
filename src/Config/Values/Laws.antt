-- ===== src/Config/Values/Laws.antt =====
-- Laws of the values that src/config.rs reads.
use engram_mcp.Common.{
  ℕ, zero, suc, ◌+◌, ◌-◌, ◌*◌, ◌/◌, ◌%◌, ◌≤◌, ◌<◌, ◌≡◌, ◌≢◌, refl, inl, inr, true, some, List, [],
  ◌∷◌, ◌++◌, Text, text, is_ascii_digit, trim, map, is_empty, all, ltb, ok, reject_if, arith,
  Bool-cases, Result-cases, >>=-eq-ok,
}
use engram_mcp.Common.Decimal.{digits, decimal, decimal-all}
use engram_mcp.TextSet
use engram_mcp.TextSet.{TextSet, contains-insert}
use engram_mcp.Directories.{invalid_scope_directories, is_safe_top_level_directory}
use engram_mcp.Config.Values.{
  Lookup, optional, insert_directories, parse_directory_set, parse_digits, parse_unsigned, parse_or,
  parse_in_range, split, value_or, join,
}

-- A value that is read is in its range.
pub parse_in_range-ok :
    (type_max : ℕ) (lookup : Lookup) (key : Text) (default min max n : ℕ)
    → parse_in_range type_max lookup key default min max ≡ ok n
    → (min ≤ n) × (n ≤ max)
unfolding parse_in_range
parse_in_range-ok type_max lookup key default min max n h =
    elim (Result-cases (parse_or type_max key default (optional lookup key))) [
      | inl (v, e) ↦ ground (arith, e, h)
      | inr (x, e) ↦ absurd (ground (arith, e, h))
    ]

parse_digits-append :
    (max acc v : ℕ) (s t : Text)
    → parse_digits max acc s ≡ some v
    → parse_digits max acc (s ++ t) ≡ parse_digits max v t
unfolding parse_digits
parse_digits-append max acc v [] t h = ground arith
parse_digits-append max acc v (c ∷ s) t h =
    ground (arith, parse_digits-append max (acc * 10 + (c - b'0')) v s t, h)

parse_digits-digits :
    (max fuel n : ℕ) → n < fuel → n ≤ max → parse_digits max 0 (digits fuel n) ≡ some n
unfolding parse_digits digits is_ascii_digit
parse_digits-digits max zero n h k = absurd (omega (arith, h))
parse_digits-digits max (suc fuel) n h k = elim (Bool-cases (ltb n 10)) [
  | inl small ↦ rw (small, digits) (ground (arith, small, k))
  | inr large ↦
      rw
        (
          large,
          digits,
          parse_digits-append max 0 (n / 10) (digits fuel (n / 10)) ((b'0' + n % 10) ∷ [])
              (parse_digits-digits max fuel (n / 10) (ground (arith, large, h)) (omega (arith, k))),
        )
        (ground (arith, large, k))
]

parse_unsigned-digits :
    (max : ℕ) (t : Text)
    → all is_ascii_digit t ≡ true
    → (v : ℕ) → parse_digits max 0 t ≡ some v
    → t ≢ []
    → parse_unsigned max t ≡ some v
unfolding parse_unsigned is_ascii_digit
parse_unsigned-digits max [] h v k e = absurd (e refl)
parse_unsigned-digits max (c ∷ []) h v k e = k
parse_unsigned-digits max (c ∷ d ∷ s) h v k e = ground (arith, h, k)

append-not-empty : (s : Text) (c : ℕ) → s ++ c ∷ [] ≢ []
append-not-empty [] c h = cc
append-not-empty (x ∷ s) c h = cc

decimal-not-empty : (n : ℕ) → decimal n ≢ []
unfolding decimal digits
decimal-not-empty n = elim (Bool-cases (ltb n 10)) [
  | inl small ↦ rw (small, digits) (λ h. cc)
  | inr large ↦ rw (large, digits) (append-not-empty (digits n (n / 10)) (b'0' + n % 10))
]

pub parse_unsigned-decimal : (max n : ℕ) → n ≤ max → parse_unsigned max (decimal n) ≡ some n
unfolding decimal
parse_unsigned-decimal max n h =
    parse_unsigned-digits max (decimal n) (decimal-all n) n
      (parse_digits-digits max (suc n) n (omega arith) h) (decimal-not-empty n)

all-insert :
    (d : Text) (ds : TextSet)
    → is_safe_top_level_directory d ≡ true
    → all is_safe_top_level_directory ds ≡ true
    → all is_safe_top_level_directory (TextSet.insert d ds) ≡ true
unfolding TextSet.insert
all-insert d [] h k = ground (arith, h)
all-insert d (e ∷ ds) h k = ground (arith, h, k, all-insert d ds h)

insert_directories-safe :
    (key : Text) (parts : List Text) (directories result : TextSet)
    → all is_safe_top_level_directory directories ≡ true
    → insert_directories key parts directories ≡ ok result
    → all is_safe_top_level_directory result ≡ true
unfolding insert_directories
insert_directories-safe key [] directories result h k = ground (arith, h, k)
insert_directories-safe key (p ∷ parts) directories result h k =
    elim (Bool-cases (is_safe_top_level_directory p)) [
      | inl safe ↦
          insert_directories-safe key parts (TextSet.insert p directories) result
            (all-insert p directories safe h) (ground (arith, safe, k))
      | inr bad ↦ absurd (ground (arith, bad, k))
    ]

pub parse_directory_set-safe :
    (lookup : Lookup) (key : Text) (default : List Text) (result : TextSet)
    → parse_directory_set lookup key default ≡ ok result
    → all is_safe_top_level_directory result ≡ true
unfolding parse_directory_set
parse_directory_set-safe lookup key default result h =
    let items = map trim (split b',' (value_or (optional lookup key) (join (text ",") default))) in
    let (found, e, k) = >>=-eq-ok (insert_directories key items []) _ h in
    let (_, _, same) = >>=-eq-ok (reject_if (is_empty found) (invalid_scope_directories key)) _ k in
    insert_directories-safe key items [] result refl (ground (arith, e, same))
