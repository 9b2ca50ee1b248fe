-- ===== src/Documents/Search/Sorting.antt =====
-- The order of the answers of src/search.rs.
use engram_mcp.Common.{
  ℕ, ◌≡◌, ◌<◌, ◌⊎◌, ltb, refl, inl, inr, true, false, List, [], ◌∷◌, Text, All, arith, Bool-cases,
}
use mathlib.Core.List.{Perm}
use mathlib.Core.List.Perm
use engram_mcp.TextSet.{text_lt}
use engram_mcp.Documents.Search.{ScoredResult, goes_first, insert_result, sort_results}

-- The order of texts by their first different character.
pub data IsBefore : Text → Text → Type 0 where
  shorter : {c : ℕ} {t : Text} → IsBefore [] (c ∷ t)
  smaller : {c d : ℕ} {s t : Text} → c < d → IsBefore (c ∷ s) (d ∷ t)
  same_first : {c : ℕ} {s t : Text} → IsBefore s t → IsBefore (c ∷ s) (c ∷ t)

IsBefore-text_lt : {s t : Text} → IsBefore s t → text_lt s t ≡ true
unfolding text_lt
IsBefore-text_lt shorter = refl
IsBefore-text_lt (smaller h) = ground (arith, h)
IsBefore-text_lt (same_first h) = ground (arith, IsBefore-text_lt h)

-- A higher score, or the same score and an id that the other one's is not before.
abbrev pub ComesFirst : ScoredResult → ScoredResult → Type 0
ComesFirst r s = (s.score < r.score) ⊎ ((r.score ≡ s.score) × ¬ IsBefore s.result.id r.result.id)

-- Every answer comes before the one after it.
pub data IsRanked : List ScoredResult → Type 0 where
  none_left : IsRanked []
  last_one : (r : ScoredResult) → IsRanked (r ∷ [])
  before_next :
      {r s : ScoredResult} {rest : List ScoredResult}
      → ComesFirst r s
      → IsRanked (s ∷ rest)
      → IsRanked (r ∷ s ∷ rest)

-- The order of texts is total.
text_lt-asym : (s t : Text) → text_lt s t ≡ true → text_lt t s ≡ false
unfolding text_lt
text_lt-asym [] [] h = ground (arith, h)
text_lt-asym [] (y ∷ t) h = refl
text_lt-asym (x ∷ s) [] h = ground (arith, h)
text_lt-asym (x ∷ s) (y ∷ t) h = ground (arith, h, text_lt-asym s t)

goes_first-total : (r s : ScoredResult) → goes_first r s ≡ false → goes_first s r ≡ true
unfolding goes_first
goes_first-total r s h = ground (arith, h, text_lt-asym s.result.id r.result.id)

goes_first-ComesFirst : (r s : ScoredResult) → goes_first r s ≡ true → ComesFirst r s
unfolding goes_first
goes_first-ComesFirst r s h = elim (Bool-cases (ltb s.score r.score)) [
  | inl e ↦ inl (ground (arith, e))
  | inr e ↦ inr (ground (arith, e, h), λ before. ground (arith, e, h, IsBefore-text_lt before))
]

IsRanked-tail : {r : ScoredResult} {rest : List ScoredResult} → IsRanked (r ∷ rest) → IsRanked rest
IsRanked-tail (last_one r) = none_left
IsRanked-tail (before_next h k) = k

insert_result-cons-IsRanked :
    (r s : ScoredResult) (rest : List ScoredResult)
    → ComesFirst s r
    → IsRanked (s ∷ rest)
    → IsRanked (insert_result r rest)
    → IsRanked (s ∷ insert_result r rest)
unfolding insert_result
insert_result-cons-IsRanked r s [] h k i = before_next h i
insert_result-cons-IsRanked r s (t ∷ rest) h (before_next g k) i =
    elim (Bool-cases (goes_first r t)) [
      | inl e ↦ rw (e, insert_result) (before_next h (before_next (goes_first-ComesFirst r t e) k))
      | inr e ↦ rw (e, insert_result) (before_next g (rw (e, insert_result) at i))
    ]

insert_result-IsRanked :
    (r : ScoredResult) (rest : List ScoredResult) → IsRanked rest → IsRanked (insert_result r rest)
unfolding insert_result
insert_result-IsRanked r [] h = last_one r
insert_result-IsRanked r (s ∷ rest) h = elim (Bool-cases (goes_first r s)) [
  | inl e ↦ rw (e, insert_result) (before_next (goes_first-ComesFirst r s e) h)
  | inr e ↦
      rw (e, insert_result)
        (insert_result-cons-IsRanked r s rest (goes_first-ComesFirst s r (goes_first-total r s e)) h
          (insert_result-IsRanked r rest (IsRanked-tail h)))
]

pub sort_results-IsRanked : (rs : List ScoredResult) → IsRanked (sort_results rs)
unfolding sort_results
sort_results-IsRanked [] = none_left
sort_results-IsRanked (r ∷ rs) =
    insert_result-IsRanked r (sort_results rs) (sort_results-IsRanked rs)

insert_result-Perm :
    (r : ScoredResult) (rs : List ScoredResult) → Perm (insert_result r rs) (r ∷ rs)
unfolding insert_result
insert_result-Perm r [] = Perm.refl (r ∷ [])
insert_result-Perm r (s ∷ rest) = elim (Bool-cases (goes_first r s)) [
  | inl e ↦ rw (e, insert_result) (Perm.refl (r ∷ s ∷ rest))
  | inr e ↦
      rw (e, insert_result)
        (Perm.trans (Perm.cons s (insert_result-Perm r rest)) (Perm.swap r s rest))
]

-- The ranking has the same answers.
pub sort_results-Perm : (rs : List ScoredResult) → Perm (sort_results rs) rs
unfolding sort_results
sort_results-Perm [] = Perm.refl []
sort_results-Perm (r ∷ rs) =
    Perm.trans (insert_result-Perm r (sort_results rs)) (Perm.cons r (sort_results-Perm rs))

module _ (P : ScoredResult → Type 0) where
  insert_result-All :
      (r : ScoredResult) (rs : List ScoredResult) → P r → All P rs → All P (insert_result r rs)
  unfolding insert_result
  insert_result-All r [] p h = (p, h)
  insert_result-All r (s ∷ rs) p h = elim (Bool-cases (goes_first r s)) [
    | inl e ↦ rw (e, insert_result) (p, h)
    | inr e ↦ rw (e, insert_result) (h.0, insert_result-All r rs p h.1)
  ]

  pub sort_results-All : (rs : List ScoredResult) → All P rs → All P (sort_results rs)
  unfolding sort_results
  sort_results-All [] h = h
  sort_results-All (r ∷ rs) h = insert_result-All r (sort_results rs) h.0 (sort_results-All rs h.1)
