-- ===== src/TextSet.antt =====
-- `std::collections::BTreeSet<String>`: an increasing list of texts. The order of `str` is that of
-- its code points, which is that of its bytes.
pub mod Sorted
use engram_mcp.Common.{
  ◌≡◌, refl, Bool, true, false, ◌||◌, ◌&&◌, List, [], ◌∷◌, arith, ltb, ◌==◌, if◌then◌else◌, Text,
  text_eq, text_eq_iff, all, any, is_empty,
}

abbrev pub TextSet : Type 0
TextSet = List Text

unfoldable pub text_lt : Text → Text → Bool
text_lt s [] = false
text_lt [] (y ∷ t) = true
text_lt (x ∷ s) (y ∷ t) = ltb x y || x == y && text_lt s t

unfoldable pub insert : Text → TextSet → TextSet
unfolding text_eq text_lt
insert s [] = s ∷ []
insert s (t ∷ ts) =
    if text_eq s t then t ∷ ts else if text_lt s t then s ∷ t ∷ ts else t ∷ insert s ts

-- `collect`.
unfoldable pub from_list : List Text → TextSet
unfolding insert
from_list [] = []
from_list (s ∷ ss) = insert s (from_list ss)

unfoldable pub contains : TextSet → Text → Bool
unfolding text_eq
contains [] s = false
contains (t ∷ ts) s = text_eq t s || contains ts s

unfoldable pub is_subset : TextSet → TextSet → Bool
unfolding contains
is_subset [] ts = true
is_subset (s ∷ ss) ts = contains ts s && is_subset ss ts

pub contains-insert :
    (s t : Text) (ts : TextSet) → contains (insert s ts) t ≡ (text_eq s t || contains ts t)
unfolding contains insert
contains-insert s t [] = refl
contains-insert s t (u ∷ ts) =
    ground (arith, contains-insert s t ts, text_eq_iff s u, text_eq_iff s t, text_eq_iff u t)

-- Collecting neither drops nor adds a text.
pub contains-from_list : (ss : List Text) (t : Text) → contains (from_list ss) t ≡ contains ss t
unfolding contains from_list
contains-from_list [] t = refl
contains-from_list (s ∷ ss) t =
    ground (arith, contains-insert s t (from_list ss), contains-from_list ss t)

-- A test of all members holds of each of them.
pub all-contains :
    (p : Text → Bool) (ss : TextSet) (t : Text)
    → all p ss ≡ true
    → contains ss t ≡ true
    → p t ≡ true
unfolding contains
all-contains p [] t h c = ground arith
all-contains p (s ∷ ss) t h c = ground (arith, all-contains p ss t, text_eq_iff s t)

-- A test that each member passes holds of all.
pub all_of_contains :
    (p : Text → Bool) (ss : TextSet)
    → ((t : Text) → contains ss t ≡ true → p t ≡ true)
    → all p ss ≡ true
unfolding contains
all_of_contains p [] h = refl
all_of_contains p (s ∷ ss) h =
    ground (arith, h s, text_eq_iff s s, all_of_contains p ss (λ t c. h t (ground arith)))

pub is_subset-contains :
    (ss ts : TextSet) (t : Text)
    → is_subset ss ts ≡ true
    → contains ss t ≡ true
    → contains ts t ≡ true
unfolding is_subset contains
is_subset-contains [] ts t h c = ground arith
is_subset-contains (s ∷ ss) ts t h c = ground (arith, is_subset-contains ss ts t, text_eq_iff s t)
