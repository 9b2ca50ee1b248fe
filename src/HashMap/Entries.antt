-- ===== src/HashMap/Entries.antt =====
-- The entries of a map as a list with distinct keys.
use engram_mcp.Common.{
  ◌≡◌, refl, ◌↔◌, Bool, true, Option, none, some, List, [], ◌∷◌, arith, if◌then◌else◌,
}

-- Equality of keys, as the program's `PartialEq` decides it.
pub record Eq {ℓ} (K : Type ℓ) : Type ℓ where
  pub beq : K → K → Bool
  pub beq_iff : (a b : K) → (beq a b ≡ true) ↔ (a ≡ b)

abbrev pub Assoc {ℓ κ} : Type ℓ → Type κ → Type (ℓ ⊔ κ)
Assoc K V = List (K × V)

-- What is left of a value when only those that pass a test are kept.
abbrev pub keep_if {κ} : {V : Type κ} → (V → Bool) → Option V → Option V
keep_if p none = none
keep_if p (some v) = if p v then some v else none

module _ {ℓ κ} {K : Type ℓ} ⦃e : Eq K⦄ {V : Type κ} where
  unfoldable pub get_entry : K → Assoc K V → Option V
  get_entry k [] = none
  get_entry k ((j, v) ∷ m) = if e.beq j k then some v else get_entry k m

  abbrev pub Distinct : Assoc K V → Type (ℓ ⊔ κ)
  Distinct [] = Unit
  Distinct ((k, v) ∷ m) = (get_entry k m ≡ none) × Distinct m

  unfoldable pub without : K → Assoc K V → Assoc K V
  without k [] = []
  without k ((j, v) ∷ m) = let rest = without k m in if e.beq j k then rest else (j, v) ∷ rest

  unfoldable pub keep : (V → Bool) → Assoc K V → Assoc K V
  keep p [] = []
  keep p ((j, v) ∷ m) = let rest = keep p m in if p v then (j, v) ∷ rest else rest

  pub get_entry-without :
      (k j : K) (m : Assoc K V)
      → get_entry j (without k m) ≡ (if e.beq k j then none else get_entry j m)
  unfolding get_entry without
  get_entry-without k j [] = ground arith
  get_entry-without k j ((i, v) ∷ m) =
      ground (arith, get_entry-without k j m, e.beq_iff i k, e.beq_iff i j, e.beq_iff k j)

  pub get_entry-without_self : (k : K) (m : Assoc K V) → get_entry k (without k m) ≡ none
  get_entry-without_self k m = ground (arith, get_entry-without k k m, e.beq_iff k k)

  pub get_entry-without-none :
      (k j : K) (m : Assoc K V) → get_entry j m ≡ none → get_entry j (without k m) ≡ none
  get_entry-without-none k j m h = ground (arith, get_entry-without k j m)

  pub get_entry-keep-none :
      (p : V → Bool) (k : K) (m : Assoc K V) → get_entry k m ≡ none → get_entry k (keep p m) ≡ none
  unfolding get_entry keep
  get_entry-keep-none p k [] h = refl
  get_entry-keep-none p k ((i, v) ∷ m) h = ground (arith, get_entry-keep-none p k m)

  pub get_entry-keep :
      (p : V → Bool) (k : K) (m : Assoc K V)
      → Distinct m
      → get_entry k (keep p m) ≡ keep_if p (get_entry k m)
  unfolding get_entry keep
  get_entry-keep p k [] d = refl
  get_entry-keep p k ((i, v) ∷ m) (fresh, d) =
      ground (arith, get_entry-keep p k m d, get_entry-keep-none p k m, e.beq_iff i k)

  pub Distinct-without : (k : K) (m : Assoc K V) → Distinct m → Distinct (without k m)
  unfolding without
  Distinct-without k [] d = tt
  Distinct-without k ((i, v) ∷ m) (fresh, d) =
      ground (arith, Distinct-without k m d, get_entry-without-none k i m fresh)

  pub Distinct-keep : (p : V → Bool) (m : Assoc K V) → Distinct m → Distinct (keep p m)
  unfolding keep
  Distinct-keep p [] d = tt
  Distinct-keep p ((i, v) ∷ m) (fresh, d) =
      ground (arith, Distinct-keep p m d, get_entry-keep-none p i m fresh)
