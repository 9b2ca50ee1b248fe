-- ===== src/TextSet/Sorted.antt =====
-- A set is kept in increasing order, so collecting it again gives it back.
use engram_mcp.Common.{
  ◌≡◌, refl, ap, ◌∙◌, true, false, List, [], ◌∷◌, arith, Text, text_eq, text_eq_iff,
}
use engram_mcp.TextSet.{TextSet, text_lt, insert, from_list}

text_lt_irrefl : (s : Text) → text_lt s s ≡ false
unfolding text_lt
text_lt_irrefl [] = refl
text_lt_irrefl (x ∷ s) = ground (arith, text_lt_irrefl s)

-- Of two texts one is the smaller, or they are equal.
text_lt_total : (s t : Text) → text_eq s t ≡ false → text_lt s t ≡ false → text_lt t s ≡ true
unfolding text_lt text_eq
text_lt_total [] [] h k = ground arith
text_lt_total [] (y ∷ t) h k = ground arith
text_lt_total (x ∷ s) [] h k = refl
text_lt_total (x ∷ s) (y ∷ t) h k = ground (arith, text_lt_total s t)

-- The head is smaller than the next member, and so on.
abbrev pub IsAbove : Text → TextSet → Type 0
IsAbove s [] = Unit
IsAbove s (t ∷ ts) = text_lt s t ≡ true

abbrev pub IsSorted : TextSet → Type 0
IsSorted [] = Unit
IsSorted (s ∷ ss) = IsAbove s ss × IsSorted ss

insert-IsAbove :
    (s t : Text) (ts : TextSet) → text_lt t s ≡ true → IsAbove t ts → IsAbove t (insert s ts)
unfolding insert
insert-IsAbove s t [] h k = h
insert-IsAbove s t (u ∷ ts) h k = ground arith

insert-IsSorted : (s : Text) (ts : TextSet) → IsSorted ts → IsSorted (insert s ts)
unfolding insert
insert-IsSorted s [] h = (tt, tt)
insert-IsSorted s (t ∷ ts) h =
    ground (arith, insert-IsSorted s ts h.1, insert-IsAbove s t ts, text_lt_total s t)

pub from_list-IsSorted : (ss : List Text) → IsSorted (from_list ss)
unfolding from_list
from_list-IsSorted [] = tt
from_list-IsSorted (s ∷ ss) = insert-IsSorted s (from_list ss) (from_list-IsSorted ss)

insert_of_IsAbove : (s : Text) (ss : TextSet) → IsAbove s ss → insert s ss ≡ s ∷ ss
unfolding insert
insert_of_IsAbove s [] h = refl
insert_of_IsAbove s (t ∷ ts) h = ground (arith, text_eq_iff s t, text_lt_irrefl s)

pub from_list_of_IsSorted : (ss : TextSet) → IsSorted ss → from_list ss ≡ ss
unfolding from_list
from_list_of_IsSorted [] h = refl
from_list_of_IsSorted (s ∷ ss) h =
    ap (insert s) (from_list_of_IsSorted ss h.1) ∙ insert_of_IsAbove s ss h.0
