-- ===== src/Config/Values.antt =====
-- How src/config.rs reads the values of environment variables.
pub mod Laws
use engram_mcp.Common.{
  ℕ, ◌+◌, ◌-◌, ◌*◌, ◌^◌, Bool, true, false, not, ◌||◌, ◌&&◌, Option, none, some, List, [], ◌∷◌,
  ◌++◌, Text, text, is_empty, trim, is_ascii_digit, leb, ltb, ◌==◌, if◌then◌else◌, Result, ok, err,
  ◌>>=◌, ◌>>◌, reject_if, map, any,
}
use engram_mcp.TextSet
use engram_mcp.TextSet.{TextSet}
use engram_mcp.Directories.{
  ConfigError, missing, empty, invalid_scope_directories, invalid_integer, out_of_range,
  is_safe_top_level_directory,
}

abbrev pub Lookup : Type 0
Lookup = Text → Option Text

unfoldable pub required : Lookup → (key : Text) → Result ConfigError Text
required lookup key = elim (lookup key) [
  | none ↦ err (missing key)
  | some value ↦ if is_empty (trim value) then err (empty key) else ok value
]

unfoldable pub optional : Lookup → (key : Text) → Option Text
optional lookup key = elim (lookup key) [
  | none ↦ none
  | some value ↦ if is_empty (trim value) then none else some value
]

-- `str::split` by a character; there is always a first part.
abbrev pub cons_part : ℕ → List Text → List Text
cons_part c [] = (c ∷ []) ∷ []
cons_part c (part ∷ parts) = (c ∷ part) ∷ parts

unfoldable pub split : ℕ → Text → List Text
split c [] = [] ∷ []
split c (x ∷ s) = let rest = split c s in if x == c then [] ∷ rest else cons_part x rest

unfoldable pub non_empty : List Text → List Text
non_empty [] = []
non_empty (item ∷ items) = let rest = non_empty items in if is_empty item then rest else item ∷ rest

unfoldable pub parse_set : Text → TextSet
parse_set value = TextSet.from_list (non_empty (map trim (split b',' value)))

-- `default.join(",")`.
unfoldable pub join : (separator : Text) → List Text → Text
join separator [] = []
join separator (t ∷ []) = t
join separator (t ∷ u ∷ ts) = t ++ (separator ++ join separator (u ∷ ts))

unfoldable pub value_or : Option Text → Text → Text
value_or none default = default
value_or (some value) default = value

-- The loop of `parse_directory_set` over the parts of the value.
unfoldable pub insert_directories : (key : Text) → List Text → TextSet → Result ConfigError TextSet
insert_directories key [] directories = ok directories
insert_directories key (directory ∷ rest) directories =
    let inserted = insert_directories key rest (TextSet.insert directory directories) in
    if is_safe_top_level_directory directory then inserted else err (invalid_scope_directories key)

unfoldable pub parse_directory_set :
    Lookup → (key : Text) (default : List Text) → Result ConfigError TextSet
parse_directory_set lookup key default = do
  let value = value_or (optional lookup key) (join (text ",") default)
  directories ← insert_directories key (map trim (split b',' value)) []
  reject_if (is_empty directories) (invalid_scope_directories key)
  ok directories

-- `str::parse` to an unsigned integer of which `max` is the largest.
unfoldable pub parse_digits : (max acc : ℕ) → Text → Option ℕ
parse_digits max acc [] = some acc
parse_digits max acc (c ∷ s) =
    let v = acc * 10 + (c - b'0') in
    let rest = parse_digits max v s in if is_ascii_digit c && leb v max then rest else none

unfoldable pub parse_unsigned : (max : ℕ) → Text → Option ℕ
parse_unsigned max [] = none
parse_unsigned max (c ∷ []) = parse_digits max 0 (c ∷ [])
parse_unsigned max (c ∷ d ∷ s) =
    if c == b'+' then parse_digits max 0 (d ∷ s) else parse_digits max 0 (c ∷ d ∷ s)

unfoldable pub parse_or :
    (type_max : ℕ) (key : Text) (default : ℕ) → Option Text → Result ConfigError ℕ
parse_or type_max key default none = ok default
parse_or type_max key default (some value) = elim (parse_unsigned type_max value) [
  | none ↦ err (invalid_integer key)
  | some n ↦ ok n
]

unfoldable pub parse_in_range :
    (type_max : ℕ) → Lookup → (key : Text) (default min max : ℕ) → Result ConfigError ℕ
parse_in_range type_max lookup key default min max = do
  value ← parse_or type_max key default (optional lookup key)
  reject_if (not (leb min value && leb value max)) (out_of_range key)
  ok value

-- On the 64-bit platforms of the server.
unfoldable pub parse_usize : Lookup → (key : Text) (default min max : ℕ) → Result ConfigError ℕ
parse_usize = parse_in_range (2 ^ 64 - 1)

unfoldable pub parse_u32 : Lookup → (key : Text) (default min max : ℕ) → Result ConfigError ℕ
parse_u32 = parse_in_range (2 ^ 32 - 1)

unfoldable pub parse_u64 : Lookup → (key : Text) (default min max : ℕ) → Result ConfigError ℕ
parse_u64 = parse_in_range (2 ^ 64 - 1)
