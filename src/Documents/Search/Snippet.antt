-- ===== src/Documents/Search/Snippet.antt =====
-- The snippets of src/search.rs: which lines of a document they show.
use engram_mcp.Common.{
  ℕ, zero, suc, ◌+◌, ◌-◌, ◌≤◌, ◌<◌, ◌≡◌, inl, inr, Bool, some, List, [], ◌∷◌, Text, length, take,
  drop, get_elem?, min, none, true, false, refl, ap, sym, ◌∙◌, ◌⊎◌, ◌++◌, any, All, length-take,
  length-drop, take-append-drop, get_elem?-take, get_elem?-drop, any-get_elem?, contains_text, ltb,
  arith, Bool-cases, Option-cases,
}
use engram_mcp.Config.Values.{join}
use engram_mcp.Documents.Search.{Tools, lines, position, or_zero, cut, max_snippet_chars, snippet}

position-lt : (p : Text → Bool) (ls : List Text) (i : ℕ) → position p ls ≡ some i → i < length ls
unfolding position
position-lt p [] i h = cc
position-lt p (l ∷ ls) i h = elim (Bool-cases (p l)) [
  | inl e ↦ ground (arith, e, h)
  | inr e ↦ elim (Option-cases (position p ls)) [
    | inl f ↦ absurd (ground (arith, e, f, h))
    | inr (j, f) ↦ ground (arith, e, f, h, position-lt p ls j f)
  ]
]

position-bound : (p : Text → Bool) (ls : List Text) → or_zero (position p ls) ≤ length ls - 1
position-bound p ls = elim (Option-cases (position p ls)) [
  | inl e ↦ rw e (omega arith)
  | inr (i, e) ↦ rw e (omega (arith, position-lt p ls i e))
]

position-get :
    (p : Text → Bool) (ls : List Text) (i : ℕ)
    → position p ls ≡ some i
    → (line : Text) × (get_elem? ls i ≡ some line) × (p line ≡ true)
unfolding position
position-get p [] i h = cc
position-get p (l ∷ ls) i h = elim (Bool-cases (p l)) [
  | inl e ↦ let first : 0 ≡ i = ground (arith, e, h) in rw (← first) (l, refl, e)
  | inr e ↦ elim (Option-cases (position p ls)) [
    | inl f ↦ absurd (ground (arith, e, f, h))
    | inr (j, f) ↦
        let next : suc j ≡ i = ground (arith, e, f, h) in rw (← next) (position-get p ls j f)
  ]
]

position-none : (p : Text → Bool) (ls : List Text) → position p ls ≡ none → any p ls ≡ false
unfolding position
position-none p [] h = refl
position-none p (l ∷ ls) h = elim (Bool-cases (p l)) [
  | inl e ↦ absurd (ground (arith, e, h))
  | inr e ↦ elim (Option-cases (position p ls)) [
    | inl f ↦ ground (arith, e, position-none p ls f)
    | inr (j, f) ↦ absurd (ground (arith, e, f, h))
  ]
]

-- No line before the one that is found passes the test.
position-before :
    (p : Text → Bool) (ls : List Text) (n : ℕ)
    → n ≤ or_zero (position p ls)
    → All (λ line. p line ≡ false) (take n ls)
unfolding position
position-before p ls zero h = tt
position-before p [] (suc n) h = tt
position-before p (l ∷ ls) (suc n) h = elim (Bool-cases (p l)) [
  | inl e ↦ absurd (ground (arith, e, h))
  | inr e ↦ elim (Option-cases (position p ls)) [
    | inl f ↦ absurd (ground (arith, e, f, h))
    | inr (j, f) ↦ (e, position-before p ls n (ground (arith, e, f, h)))
  ]
]

-- The lines that are shown for a place, between those before and those after them.
record IsWindow (p : Text → Bool) (ls : List Text) (start count : ℕ) : Type 0 where
  parted : ls ≡ take start ls ++ (take count (drop start ls) ++ drop count (drop start ls))
  skipped : length (take start ls) ≡ start
  counted : length (take count (drop start ls)) ≡ count
  near : any p ls ≡ true → any p (take 3 (take count (drop start ls))) ≡ true

near_lem :
    (p : Text → Bool) (ls : List Text) (start count i : ℕ) (line : Text)
    → get_elem? ls i ≡ some line
    → p line ≡ true
    → start ≤ i
    → i - start < 3
    → i - start < count
    → any p (take 3 (take count (drop start ls))) ≡ true
near_lem p ls start count i line h passes from three within =
    any-get_elem? p (i - start) line (take 3 (take count (drop start ls)))
      (get_elem?-take 3 (i - start) (take count (drop start ls)) three
        ∙ get_elem?-take count (i - start) (drop start ls) within
        ∙ get_elem?-drop start i ls from
        ∙ h)
      passes

-- A line that is not found leaves nothing out.
missing_lem :
    (p : Text → Bool) (ls : List Text)
    → any p ls ≡ false
    → take (or_zero (position p ls) - 2) ls ≡ []
missing_lem p ls h = elim (Option-cases (position p ls)) [
  | inl e ↦ rw e refl
  | inr (i, e) ↦
      let (line, at_i, passes) = position-get p ls i e in
      absurd (ground (arith, h, any-get_elem? p i line ls at_i passes))
]

window :
    (p : Text → Bool) (ls : List Text)
    → let i = or_zero (position p ls) in IsWindow p ls (i - 2) (min (i + 3) (length ls) - (i - 2))
window p ls =
    let i = or_zero (position p ls) in
    let count = min (i + 3) (length ls) - (i - 2) in
    let at = position-bound p ls in
    record {
      parted = sym (
          ap (λ rest. take (i - 2) ls ++ rest) (take-append-drop count (drop (i - 2) ls))
          ∙ take-append-drop (i - 2) ls);
      skipped = omega (arith, at, length-take (i - 2) ls);
      counted = omega (arith, at, length-take count (drop (i - 2) ls), length-drop (i - 2) ls);
      near = λ h. elim (Option-cases (position p ls)) [
        | inl e ↦ absurd (ground (arith, position-none p ls e, h))
        | inr (j, e) ↦
            let (line, at_j, passes) = position-get p ls j e in
            let same : i ≡ j = ap or_zero e in
            near_lem p ls (i - 2) count j line at_j passes (omega (arith, same))
              (omega (arith, same)) (omega (arith, same, position-lt p ls j e))
      ];
    }

-- What is shown of the lines, and where it stands in them.
pub record IsSnippet (tools : Tools) (contents first_term shown : Text) (first last : ℕ)
    : Type 0 where
  pub before : List Text
  pub chosen : List Text
  pub after : List Text
  pub lines_are : lines contents ≡ before ++ (chosen ++ after)
  pub first_is : first ≡ length before + 1
  pub last_is : last ≡ length before + length chosen
  pub at_most : length chosen ≤ 5
  pub shown_is :
      ((length (join (10 ∷ []) chosen) ≤ 600) × (shown ≡ join (10 ∷ []) chosen))
      ⊎ ((600 < length (join (10 ∷ []) chosen))
          × (shown ≡ take 600 (join (10 ∷ []) chosen) ++ 0x2026 ∷ []))
  pub no_earlier : All (λ line. contains_text first_term (tools.to_lowercase line) ≡ false) before
  pub near :
      any (λ line. contains_text first_term (tools.to_lowercase line)) (lines contents) ≡ true
      → any (λ line. contains_text first_term (tools.to_lowercase line)) (take 3 chosen) ≡ true
  pub from_start :
      any (λ line. contains_text first_term (tools.to_lowercase line)) (lines contents) ≡ false
      → before ≡ []

cut-cases :
    (s : Text)
    → ((length s ≤ 600) × (cut s ≡ s)) ⊎ ((600 < length s) × (cut s ≡ take 600 s ++ 0x2026 ∷ []))
unfolding cut
cut-cases s = elim (Bool-cases (ltb max_snippet_chars (length s))) [
  | inl e ↦ inr (ground (arith, e), rw (e, cut) refl)
  | inr e ↦ inl (ground (arith, e), rw (e, cut) refl)
]

-- A snippet shows at most five consecutive lines of the document, those of the line numbers that
-- it gives, joined, and cut to 600 characters and an ellipsis when they are longer. No line
-- before them has the term; when a line of the document has it, one of the first three shown has
-- it, and when none has it, the snippet starts at the first line.
pub snippet-IsSnippet :
    (tools : Tools) (contents first_term : Text)
    → IsSnippet tools contents first_term
        (snippet tools contents first_term).0
        (snippet tools contents first_term).1
        (snippet tools contents first_term).2
unfolding snippet
snippet-IsSnippet tools contents first_term =
    let p : Text → Bool = λ line. contains_text first_term (tools.to_lowercase line) in
    let found = lines contents in
    let i = or_zero (position p found) in
    let count = min (i + 3) (length found) - (i - 2) in
    let w = window p found in
    let at = position-bound p found in
    record {
      before = take (i - 2) found;
      chosen = take count (drop (i - 2) found);
      after = drop count (drop (i - 2) found);
      lines_are = w.parted;
      first_is = omega (arith, w.skipped);
      last_is = omega (arith, at, w.skipped, w.counted);
      at_most = omega (arith, w.counted);
      shown_is = cut-cases (join (10 ∷ []) (take count (drop (i - 2) found)));
      no_earlier = position-before p found (i - 2) (omega arith);
      near = w.near;
      from_start = missing_lem p found;
    }
