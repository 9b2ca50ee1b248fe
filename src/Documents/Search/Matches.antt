-- ===== src/Documents/Search/Matches.antt =====
-- The documents that match a search of src/search.rs, and what is answered for each.
use engram_mcp.Common.{
  ℕ, get_elem?, ◌≡◌, ◌+◌, ◌*◌, refl, inl, inr, Bool, all, err, Option, none, some, List, [], ◌∷◌,
  Text, All, ok, arith, Bool-cases, Result-cases, on_ok, ok-inj,
}
use engram_mcp.Auth.Access.{AccessScope}
use engram_mcp.Documents.Read.{FetchedDocument, DocumentStore, Disk, read_for_search}
use engram_mcp.Documents.Id.{
  StoreError, not_found, invalid_document_id, invalid_utf8, invalid_query, io,
}
use engram_mcp.Documents.Search.Terms.{FoundIn, occurrences, all-matches_iff, fold_scores_lem}
use engram_mcp.Documents.Search.Snippet.{IsSnippet, snippet-IsSnippet}
use engram_mcp.Documents.Search.{
  matches, fold_scores, first_of, Tools, ScoredResult, scored, score_document, match_document,
  add_match, collect_matches,
}

-- What is answered for a document that has all terms.
pub record IsAnswer (tools : Tools) (terms : List Text) (document : FetchedDocument)
    (r : ScoredResult) : Type 0 where
  pub id_is : r.result.id ≡ document.id
  pub path_is : r.result.metadata.path ≡ document.id
  pub title_is : r.result.title ≡ document.metadata.title
  pub description_is : r.result.metadata.description ≡ document.metadata.description
  pub score_is :
      r.score
      ≡ 100 * occurrences (tools.to_lowercase document.id) terms
        + 80 * occurrences (tools.to_lowercase document.metadata.title) terms
        + 50 * occurrences (tools.to_lowercase document.metadata.description) terms
        + 10 * occurrences (tools.to_lowercase document.contents) terms
  pub snippet_is :
      (first : Text)
      → get_elem? terms 0 ≡ some first
      → IsSnippet tools document.contents first r.result.snippet r.result.metadata.line_start
          r.result.metadata.line_end

first_of_lem :
    (tools : Tools) (terms : List Text) (first : Text)
    → get_elem? terms 0 ≡ some first
    → first_of tools terms ≡ first
first_of_lem tools [] first h = cc
first_of_lem tools (t ∷ terms) first h = cc

module _ (tools : Tools) (store : DocumentStore) (disk : Disk) (scope : AccessScope)
    (terms : List Text) where
  -- The answers for the candidates: one for each that can be read and has all terms, in order.
  pub data Matched : (ids : List Text) → List ScoredResult → Type 0 where
    no_ids : Matched [] []
    unreadable :
        {id : Text} {ids : List Text} {rs : List ScoredResult}
        → read_for_search store disk scope id ≡ err not_found
        → Matched ids rs
        → Matched (id ∷ ids) rs
    unmatched :
        {id : Text} {ids : List Text} {rs : List ScoredResult} {document : FetchedDocument}
        → read_for_search store disk scope id ≡ ok document
        → ¬ All (FoundIn tools document) terms
        → Matched ids rs
        → Matched (id ∷ ids) rs
    answered :
        {id : Text} {ids : List Text} {rs : List ScoredResult} {document : FetchedDocument}
        {r : ScoredResult}
        → read_for_search store disk scope id ≡ ok document
        → All (FoundIn tools document) terms
        → IsAnswer tools terms document r
        → Matched ids rs
        → Matched (id ∷ ids) (r ∷ rs)

  abbrev found_in : FetchedDocument → Text → Bool
  found_in document =
      matches tools (tools.to_lowercase document.id) (tools.to_lowercase document.metadata.title)
        (tools.to_lowercase document.metadata.description) (tools.to_lowercase document.contents)

  abbrev score_of : FetchedDocument → ℕ
  score_of document =
      fold_scores tools (tools.to_lowercase document.id)
        (tools.to_lowercase document.metadata.title)
        (tools.to_lowercase document.metadata.description) (tools.to_lowercase document.contents) 0
        terms

  score_document-some :
      (document : FetchedDocument) (r : ScoredResult)
      → score_document tools terms document ≡ some r
      → All (FoundIn tools document) terms × IsAnswer tools terms document r
  unfolding score_document scored
  score_document-some document r h = elim (Bool-cases (all (found_in document) terms)) [
    | inr e ↦ absurd (ground (arith, e, h))
    | inl e ↦
        let same : scored tools terms document (score_of document) ≡ r = ground (arith, e, h) in
        (
          (all-matches_iff tools document terms).0 e,
          rw (← same) (record {
            id_is = refl;
            path_is = refl;
            title_is = refl;
            description_is = refl;
            score_is = omega (
              arith,
              fold_scores_lem tools (tools.to_lowercase document.id)
                  (tools.to_lowercase document.metadata.title)
                  (tools.to_lowercase document.metadata.description)
                  (tools.to_lowercase document.contents) 0 terms,
            );
            snippet_is = λ first h.
                rw (← (first_of_lem tools terms first h))
                  (snippet-IsSnippet tools document.contents (first_of tools terms));
          }),
        )
  ]

  score_document-none :
      (document : FetchedDocument)
      → score_document tools terms document ≡ none
      → ¬ All (FoundIn tools document) terms
  unfolding score_document
  score_document-none document h found =
      ground (arith, h, (all-matches_iff tools document terms).1 found)

  match_document-err :
      (id : Text) (e : StoreError) (found : Option ScoredResult)
      → read_for_search store disk scope id ≡ err e
      → match_document tools store disk scope terms id ≡ ok found
      → (e ≡ not_found) × (found ≡ none)
  unfolding match_document
  match_document-err id not_found found e h = (refl, ground (arith, e, h))
  match_document-err id invalid_document_id found e h = absurd (ground (arith, e, h))
  match_document-err id invalid_utf8 found e h = absurd (ground (arith, e, h))
  match_document-err id invalid_query found e h = absurd (ground (arith, e, h))
  match_document-err id io found e h = absurd (ground (arith, e, h))

  add_match-Matched :
      (id : Text) (ids : List Text) (rest : List ScoredResult) (found : Option ScoredResult)
      → match_document tools store disk scope terms id ≡ ok found
      → Matched ids rest
      → Matched (id ∷ ids) (add_match tools store disk found rest)
  unfolding match_document
  add_match-Matched id ids rest none h m =
      elim (Result-cases (read_for_search store disk scope id)) [
        | inl (document, e) ↦ unmatched e (score_document-none document (ground (arith, e, h))) m
        | inr (x, e) ↦
            let (same, _) = match_document-err id x none e h in unreadable (rw (← same) e) m
      ]
  add_match-Matched id ids rest (some r) h m =
      elim (Result-cases (read_for_search store disk scope id)) [
        | inl (document, e) ↦
            let (every, answer) = score_document-some document r (ground (arith, e, h)) in
            answered e every answer m
        | inr (x, e) ↦
            let (_, same) = match_document-err id x (some r) e h in absurd (ground (arith, same))
      ]

  pub collect_matches-Matched :
      (ids : List Text) (matched : List ScoredResult)
      → collect_matches tools store disk scope terms ids ≡ ok matched
      → Matched ids matched
  unfolding collect_matches
  collect_matches-Matched [] matched h = rw (← (ok-inj h)) no_ids
  collect_matches-Matched (id ∷ ids) matched h =
      on_ok (match_document tools store disk scope terms id) h (λ found e k.
        on_ok (collect_matches tools store disk scope terms ids) k (λ rest f l.
          rw (← (ok-inj l))
            (add_match-Matched id ids rest found e (collect_matches-Matched ids rest f))))
