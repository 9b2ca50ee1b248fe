-- ===== src/Documents/Search/Terms.antt =====
-- What `score_document` of src/search.rs looks for: terms as parts of the fields of a document.
use engram_mcp.Common.{
  ℕ, ◌+◌, ◌*◌, ◌≡◌, ◌↔◌, ◌⊎◌, refl, ap, inl, inr, Bool, true, false, List, [], ◌∷◌, ◌++◌, Text, all,
  All, contains_text, starts_with, starts_with-append, arith, Bool-cases,
}
use engram_mcp.Documents.Read.{FetchedDocument}
use engram_mcp.Documents.Search.{Tools, points, term_score, fold_scores, matches}

-- The term is a part of the field.
abbrev pub OccursIn : (term field : Text) → Type 0
OccursIn term field = (before : Text) × (after : Text) × (field ≡ before ++ (term ++ after))

-- The term is a part of one of the four fields, in lower case.
abbrev pub FoundIn : Tools → FetchedDocument → (term : Text) → Type 0
FoundIn tools document term =
    OccursIn term (tools.to_lowercase document.id)
    ⊎ OccursIn term (tools.to_lowercase document.metadata.title)
    ⊎ OccursIn term (tools.to_lowercase document.metadata.description)
    ⊎ OccursIn term (tools.to_lowercase document.contents)

eq-append_of_starts_with :
    (term field : Text) → starts_with term field ≡ true → (after : Text) × (field ≡ term ++ after)
unfolding starts_with
eq-append_of_starts_with [] field h = (field, refl)
eq-append_of_starts_with (x ∷ term) [] h = absurd (ground (arith, h))
eq-append_of_starts_with (x ∷ term) (c ∷ field) h =
    let (after, same) = eq-append_of_starts_with term field (ground (arith, h)) in
    (after, ground (arith, h, same))

contains_text-OccursIn : (term field : Text) → contains_text term field ≡ true → OccursIn term field
unfolding contains_text
contains_text-OccursIn [] [] h = ([], [], refl)
contains_text-OccursIn (x ∷ term) [] h = absurd (ground (arith, h))
contains_text-OccursIn term (c ∷ field) h = elim (Bool-cases (starts_with term (c ∷ field))) [
  | inl e ↦ let (after, same) = eq-append_of_starts_with term (c ∷ field) e in ([], after, same)
  | inr e ↦
      let (before, after, same) = contains_text-OccursIn term field (ground (arith, e, h)) in
      (c ∷ before, after, ap (λ s. c ∷ s) same)
]

contains_text-append : (term after : Text) → contains_text term (term ++ after) ≡ true
unfolding contains_text
contains_text-append [] [] = refl
contains_text-append [] (c ∷ after) = ground (arith, starts_with-append [] (c ∷ after))
contains_text-append (t ∷ term) after = ground (arith, starts_with-append (t ∷ term) after)

contains_text-part :
    (before term after : Text) → contains_text term (before ++ (term ++ after)) ≡ true
unfolding contains_text
contains_text-part [] term after = contains_text-append term after
contains_text-part (c ∷ before) term after = ground (arith, contains_text-part before term after)

pub contains_text_iff :
    (term field : Text) → (contains_text term field ≡ true) ↔ OccursIn term field
contains_text_iff term field =
    (contains_text-OccursIn term field, λ o. rw (o.2) (contains_text-part o.0 term o.1))

matches_iff :
    (tools : Tools) (document : FetchedDocument) (term : Text)
    → (matches tools
          (tools.to_lowercase document.id)
          (tools.to_lowercase document.metadata.title)
          (tools.to_lowercase document.metadata.description)
          (tools.to_lowercase document.contents)
          term
        ≡ true)
      ↔ FoundIn tools document term
unfolding matches
matches_iff tools document term = ground (
  arith,
  contains_text_iff term (tools.to_lowercase document.id),
  contains_text_iff term (tools.to_lowercase document.metadata.title),
  contains_text_iff term (tools.to_lowercase document.metadata.description),
  contains_text_iff term (tools.to_lowercase document.contents),
)

-- `all` over the terms.
pub all-matches_iff :
    (tools : Tools) (document : FetchedDocument) (terms : List Text)
    → (all
          (matches tools
            (tools.to_lowercase document.id)
            (tools.to_lowercase document.metadata.title)
            (tools.to_lowercase document.metadata.description)
            (tools.to_lowercase document.contents))
          terms
        ≡ true)
      ↔ All (FoundIn tools document) terms
all-matches_iff tools document [] = (λ h. tt, λ h. refl)
all-matches_iff tools document (t ∷ terms) = (
  λ h. (
    (matches_iff tools document t).0 (ground (arith, h)),
    (all-matches_iff tools document terms).0 (ground (arith, h)),
  ),
  λ h.
      ground
        (arith, (matches_iff tools document t).1 h.0, (all-matches_iff tools document terms).1 h.1),
)

abbrev pub bit : Bool → ℕ
bit true = 1
bit false = 0

-- How many of the terms the field contains.
abbrev pub occurrences : (field : Text) → List Text → ℕ
occurrences field [] = 0
occurrences field (term ∷ terms) = bit (contains_text term field) + occurrences field terms

points_lem : (tools : Tools) (b : Bool) (n : ℕ) → points tools b n ≡ n * bit b
points_lem tools true n = omega arith
points_lem tools false n = omega arith

pub fold_scores_lem :
    (tools : Tools) (path title description contents : Text) (score : ℕ) (terms : List Text)
    → fold_scores tools path title description contents score terms
      ≡ score
        + 100 * occurrences path terms
        + 80 * occurrences title terms
        + 50 * occurrences description terms
        + 10 * occurrences contents terms
unfolding fold_scores term_score
fold_scores_lem tools path title description contents score [] = omega arith
fold_scores_lem tools path title description contents score (t ∷ terms) = omega (
  arith,
  points_lem tools (contains_text t path) 100,
  points_lem tools (contains_text t title) 80,
  points_lem tools (contains_text t description) 50,
  points_lem tools (contains_text t contents) 10,
  fold_scores_lem tools path title description contents
      (score + term_score tools path title description contents t) terms,
)
