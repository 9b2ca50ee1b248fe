-- ===== src/HashMap.antt =====
-- `std::collections::HashMap`, of which the program uses `get`, `contains_key`, `insert`, `remove`,
-- `retain` and `len`. The program never depends on an order of the entries. The representation is
-- private: clients have the laws below.
mod Entries
use std.HLevel.{prop→path_p}
use Entries.{
  Assoc, Distinct, get_entry, without, keep, get_entry-without, get_entry-keep,
  get_entry-without_self, Distinct-without, Distinct-keep,
}
use engram_mcp.Common.{
  ℕ, ◌≡◌, refl, Bool, true, false, Option, none, some, List, [], ◌∷◌, arith, length, if◌then◌else◌,
  Text, text_eq, text_eq_iff,
}
pub use Entries.{Eq, keep_if}

pub record HashMap {ℓ κ} (K : Type ℓ) ⦃e : Eq K⦄ (V : Type κ) : Type (ℓ ⊔ κ) where
  pub entries : Assoc K V
  pub distinct : Distinct entries

-- Texts and byte strings as keys.
instance abbrev pub text_key : Eq Text
text_key = record { beq = text_eq; beq_iff = text_eq_iff }

module _ {ℓ κ} {K : Type ℓ} ⦃e : Eq K⦄ {V : Type κ} where
  unfoldable pub empty : HashMap K V
  empty = record { entries = []; distinct = tt }

  unfoldable pub get : HashMap K V → K → Option V
  unfolding get_entry
  get m k = get_entry k m.entries

  unfoldable pub contains_key : HashMap K V → K → Bool
  unfolding get
  contains_key m k = elim (get m k) [ none ↦ false | some _ ↦ true ]

  unfoldable pub remove : HashMap K V → K → HashMap K V
  unfolding without
  remove m k = record {
    entries = without k m.entries;
    distinct = Distinct-without k m.entries m.distinct;
  }

  unfoldable pub insert : HashMap K V → K → V → HashMap K V
  unfolding without get_entry
  insert m k v = record {
    entries = (k, v) ∷ without k m.entries;
    distinct = (get_entry-without_self k m.entries, Distinct-without k m.entries m.distinct);
  }

  unfoldable pub retain : (V → Bool) → HashMap K V → HashMap K V
  unfolding keep
  retain p m = record {
    entries = keep p m.entries;
    distinct = Distinct-keep p m.entries m.distinct;
  }

  unfoldable pub len : HashMap K V → ℕ
  len m = length m.entries

  pub get-remove :
      (m : HashMap K V) (k j : K) → get (remove m k) j ≡ (if e.beq k j then none else get m j)
  unfolding get remove
  get-remove m k j = get_entry-without k j m.entries

  pub get-insert :
      (m : HashMap K V) (k j : K) (v : V)
      → get (insert m k v) j ≡ (if e.beq k j then some v else get m j)
  unfolding get insert
  get-insert m k j v = ground (arith, get_entry-without k j m.entries)

  pub get-retain :
      (p : V → Bool) (m : HashMap K V) (k : K) → get (retain p m) k ≡ keep_if p (get m k)
  unfolding get retain
  get-retain p m k = get_entry-keep p k m.entries m.distinct

  pub get-empty : (k : K) → get empty k ≡ none
  unfolding get empty
  get-empty k = refl

module _ {ℓ κ} {K : Type ℓ} ⦃e : Eq K⦄ {V : Type κ} where
  -- `collect` from pairs, where the first of two equal keys stays.
  unfoldable pub from_list : List (K × V) → HashMap K V
  from_list [] = empty
  from_list ((k, v) ∷ m) = insert (from_list m) k v

  without-fresh : (k : K) (m : Assoc K V) → get_entry k m ≡ none → without k m ≡ m
  unfolding without get_entry
  without-fresh k [] h = refl
  without-fresh k ((j, v) ∷ m) h = ground (arith, without-fresh k m)

  entries-from_list : (m : Assoc K V) → Distinct m → (from_list m).entries ≡ m
  unfolding from_list insert empty
  entries-from_list [] d = refl
  entries-from_list ((k, v) ∷ m) (fresh, d) =
      rw (entries-from_list m d, without-fresh k m fresh) refl

  Distinct-IsProp : IsSet V → (m : Assoc K V) → IsProp (Distinct m)
  Distinct-IsProp s [] = hlevel
  Distinct-IsProp s ((k, v) ∷ m) = let rest = Distinct-IsProp s m in hlevel (s, rest)

  eq_of_entries : IsSet V → (m m' : HashMap K V) → m.entries ≡ m'.entries → m ≡ m'
  eq_of_entries s m m' h = λ i. record {
    entries = h i;
    distinct =
        prop→path_p (λ i. Distinct (h i)) (Distinct-IsProp s m'.entries) m.distinct m'.distinct i;
  }

  -- A map is read back from its entries.
  pub from_list-entries : IsSet V → (m : HashMap K V) → from_list m.entries ≡ m
  from_list-entries s m =
      eq_of_entries s (from_list m.entries) m (entries-from_list m.entries m.distinct)

  -- A new key goes before the entries, and writing it again replaces it there.
  pub entries-insert :
      (m : HashMap K V) (k : K) (v : V)
      → get m k ≡ none
      → (insert m k v).entries ≡ (k, v) ∷ m.entries
  unfolding insert get
  entries-insert m k v h = rw (without-fresh k m.entries h) refl

  pub entries-insert-insert :
      (m : HashMap K V) (k : K) (v w : V)
      → get m k ≡ none
      → (insert (insert m k v) k w).entries ≡ (k, w) ∷ m.entries
  unfolding insert get without
  entries-insert-insert m k v w h =
      ground
        (arith, without-fresh k m.entries h, e.beq_iff k k, without-fresh k (without k m.entries))
