-- ===== src/Documents/Search/Readable.antt =====
-- The documents that the answers of src/search.rs come from are ones that the scope may read.
use engram_mcp.Common.{
  ◌≡◌, refl, ap, ◌∙◌, inl, inr, true, Option, none, some, List, [], ◌∷◌, Text, All, ok, arith,
  Bool-cases, Result-cases, on_ok, ok-inj,
}
use engram_mcp.Auth.Access.{AccessScope}
use engram_mcp.Directories.{is_allowed}
use engram_mcp.Documents.Read.{
  FetchedDocument, DocumentStore, Disk, open_regular_file, read_utf8_limited, read_limited,
  read_for_search,
}
use engram_mcp.Documents.Search.{
  Tools, ScoredResult, scored, score_document, match_document, add_match, collect_matches,
}

module _ (tools : Tools) (store : DocumentStore) (disk : Disk) (scope : AccessScope) where
  -- The scope may read the document of the answer.
  abbrev pub Readable : ScoredResult → Type 0
  Readable r = is_allowed store.directories scope r.result.id ≡ true

  read_for_search-allowed :
      (id : Text) (document : FetchedDocument)
      → read_for_search store disk scope id ≡ ok document
      → is_allowed store.directories scope document.id ≡ true
  unfolding read_for_search read_limited
  read_for_search-allowed id document h =
      elim (Bool-cases (is_allowed store.directories scope id)) [
        | inr e ↦ absurd (ground (arith, e, h))
        | inl e ↦ elim (Result-cases (open_regular_file disk id)) [
          | inr (x, f) ↦ absurd (ground (arith, e, f, h))
          | inl (file, f) ↦
              elim (Result-cases (read_utf8_limited file store.max_search_file_bytes)) [
                | inr (x, g) ↦ absurd (ground (arith, e, f, g, h))
                | inl (contents, g) ↦
                    let same : document.id ≡ id = ground (arith, e, f, g, h) in rw same e
              ]
        ]
      ]

  score_document-id :
      (terms : List Text) (document : FetchedDocument) (r : ScoredResult)
      → score_document tools terms document ≡ some r
      → r.result.id ≡ document.id
  unfolding score_document scored
  score_document-id terms document r h = ground (arith, h)

  match_document-Readable :
      (terms : List Text) (id : Text) (r : ScoredResult)
      → match_document tools store disk scope terms id ≡ ok (some r)
      → Readable r
  unfolding match_document
  match_document-Readable terms id r h = elim (Result-cases (read_for_search store disk scope id)) [
    | inl (document, e) ↦
        let same : r.result.id ≡ document.id =
          score_document-id terms document r (ground (arith, e, h)) in
        rw same (read_for_search-allowed id document e)
    | inr (x, e) ↦ absurd (ground (arith, e, h))
  ]

  add_match-Readable :
      (found : Option ScoredResult) (rest : List ScoredResult)
      → ((r : ScoredResult) → found ≡ some r → Readable r)
      → All Readable rest
      → All Readable (add_match tools store disk found rest)
  add_match-Readable none rest h k = k
  add_match-Readable (some r) rest h k = (h r refl, k)

  pub collect_matches-Readable :
      (terms : List Text) (ids : List Text) (matched : List ScoredResult)
      → collect_matches tools store disk scope terms ids ≡ ok matched
      → All Readable matched
  unfolding collect_matches
  collect_matches-Readable terms [] matched h = rw (← (ok-inj h)) tt
  collect_matches-Readable terms (id ∷ ids) matched h =
      on_ok (match_document tools store disk scope terms id) h (λ found e k.
        on_ok (collect_matches tools store disk scope terms ids) k (λ rest f l. rw (← (ok-inj l)) (
          add_match-Readable found rest
            (λ r same. match_document-Readable terms id r (e ∙ ap ok same))
            (collect_matches-Readable terms ids rest f))))
