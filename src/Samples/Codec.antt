-- ===== src/Samples/Codec.antt =====
-- Serializers that are read back, for the records that src/oauth.rs signs and stores.
use engram_mcp.Common.{
  ℕ, zero, suc, ◌≡◌, refl, ap, Option, none, some, List, [], ◌∷◌, ◌++◌, Text, length, arith,
}
use engram_mcp.OAuth.Crates.{Json}

pub record Codec {ℓ} (T : Type ℓ) : Type ℓ where
  pub write : T → Text
  pub read : Text → Option T
  pub read-write : (v : T) → read (write v) ≡ some v

abbrev pub json_of {ℓ} : {T : Type ℓ} → Codec T → Json T
json_of c = record {
  to_vec = λ v. some (c.write v);
  from_slice = c.read;
  round_trip = λ v b h. ground (arith, c.read-write v);
}

abbrev bind {ℓ κ} : {A : Type ℓ} {B : Type κ} → Option A → (A → Option B) → Option B
bind none f = none
bind (some a) f = f a

-- The first `n` of a list, and the rest.
abbrev split_at : ℕ → Text → Text × Text
split_at zero xs = ([], xs)
split_at (suc n) [] = ([], [])
split_at (suc n) (x ∷ xs) = (x ∷ (split_at n xs).0, (split_at n xs).1)

pub split_at-append : (xs ys : Text) → split_at (length xs) (xs ++ ys) ≡ (xs, ys)
split_at-append [] ys = refl
split_at-append (x ∷ xs) ys = rw (split_at-append xs ys) refl

abbrev pub text_codec : Codec Text
text_codec = record { write = λ t. t; read = λ t. some t; read-write = λ t. refl }

abbrev read_number : Text → Option ℕ
read_number [] = none
read_number (n ∷ t) = some n

abbrev pub number_codec : Codec ℕ
number_codec = record { write = λ n. n ∷ []; read = read_number; read-write = λ n. refl }

-- Another type with the same values.
abbrev pub via {ℓ κ} :
    {A : Type ℓ} {B : Type κ}
    → Codec A
    → (from : A → B) (to : B → A) → ((b : B) → from (to b) ≡ b)
    → Codec B
via c from to back = record {
  write = λ b. c.write (to b);
  read = λ t. bind (c.read t) (λ a. some (from a));
  read-write = λ b. rw (c.read-write (to b)) (ap some (back b));
}

-- The length of the first text, and both texts.
abbrev join : Text → Text → Text
join a b = length a ∷ (a ++ b)

abbrev divide : Text → Option (Text × Text)
divide [] = none
divide (n ∷ t) = some (split_at n t)

abbrev read_pair {ℓ κ} :
    {A : Type ℓ} {B : Type κ} → Codec A → Codec B → Option (Text × Text) → Option (A × B)
read_pair c d none = none
read_pair c d (some (s, t)) = bind (c.read s) (λ a. bind (d.read t) (λ b. some (a, b)))

infixr 5 ◌⊗◌
abbrev pub ◌⊗◌ {ℓ κ} : {A : Type ℓ} {B : Type κ} → Codec A → Codec B → Codec (A × B)
c ⊗ d = record {
  write = λ p. join (c.write p.0) (d.write p.1);
  read = λ t. read_pair c d (divide t);
  read-write = λ p.
      rw (split_at-append (c.write p.0) (d.write p.1), c.read-write p.0, d.read-write p.1) refl;
}

abbrev write_items {ℓ} : {A : Type ℓ} → Codec A → List A → Text
write_items c [] = []
write_items c (a ∷ rest) = join (c.write a) (write_items c rest)

abbrev read_items {ℓ} : {A : Type ℓ} → Codec A → ℕ → Text → Option (List A)
read_items c zero t = some []
read_items c (suc n) [] = none
read_items c (suc n) (k ∷ t) =
    bind (c.read (split_at k t).0)
      (λ a. bind (read_items c n (split_at k t).1) (λ rest. some (a ∷ rest)))

pub read_items-write_items {ℓ} :
    {A : Type ℓ} (c : Codec A) (rest : List A)
    → read_items c (length rest) (write_items c rest) ≡ some rest
read_items-write_items c [] = refl
read_items-write_items c (a ∷ rest) =
    rw
      (
        split_at-append (c.write a) (write_items c rest),
        c.read-write a,
        read_items-write_items c rest,
      )
      refl

abbrev read_list {ℓ} : {A : Type ℓ} → Codec A → Text → Option (List A)
read_list c [] = none
read_list c (n ∷ t) = read_items c n t

-- The number of items, and the items.
abbrev pub list_codec {ℓ} : {A : Type ℓ} → Codec A → Codec (List A)
list_codec c = record {
  write = λ rest. length rest ∷ write_items c rest;
  read = read_list c;
  read-write = read_items-write_items c;
}
