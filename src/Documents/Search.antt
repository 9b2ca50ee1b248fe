-- ===== src/Documents/Search.antt =====
-- The search of src/search.rs. `str::to_lowercase` and the size of a response that `serde_json` writes
-- are a parameter.
pub mod Snippet
pub mod Terms
pub mod Sorting
pub mod Filling
pub mod Readable
pub mod Scores
pub mod Matches
pub mod Ranking
use engram_mcp.Common.{
  ℕ, zero, suc, ◌+◌, ◌-◌, ◌*◌, min, Bool, true, false, not, ◌||◌, ◌&&◌, Option, none, some, List,
  [], ◌∷◌, ◌++◌, map, Text, text, text_eq, is_empty, length, take, drop, all, byte_len,
  contains_text, split_whitespace, ltb, leb, ◌==◌, if◌then◌else◌, Result, ok, err, ◌>>=◌, ◌>>◌,
  reject_if, ok_or,
}
use engram_mcp.TextSet.{text_lt}
use engram_mcp.Auth.Access.{AccessScope}
use engram_mcp.Config.Values.{split, join}
use engram_mcp.Documents.Id.{StoreError, not_found, invalid_query}
use engram_mcp.Documents.Read.{FetchedDocument, DocumentStore, Disk, read_for_search, candidate_ids}

pub record SearchMetadata : Type 0 where
  pub path : Text
  pub description : Text
  pub line_start : ℕ
  pub line_end : ℕ

pub record SearchResult : Type 0 where
  pub id : Text
  pub title : Text
  pub snippet : Text
  pub metadata : SearchMetadata

pub record SearchResponse : Type 0 where
  pub results : List SearchResult
  pub truncated : Bool

pub record ScoredResult : Type 0 where
  pub score : ℕ
  pub result : SearchResult

-- `to_lowercase`, and the length of the JSON text of a response.
pub record Tools : Type 0 where
  pub to_lowercase : Text → Text
  pub json_size : SearchResponse → Option ℕ

abbrev pub max_limit : ℕ
max_limit = 20

abbrev pub max_snippet_chars : ℕ
max_snippet_chars = 600

-- The default is `DEFAULT_LIMIT`.
abbrev pub limit_or_default : Option ℕ → ℕ
limit_or_default none = 10
limit_or_default (some n) = n

-- A line without the carriage return that ends it.
unfoldable pub strip_return : Text → Text
strip_return [] = []
strip_return (c ∷ []) = if c == 13 then [] else c ∷ []
strip_return (c ∷ d ∷ s) = c ∷ strip_return (d ∷ s)

-- `str::lines`: an empty last part is no line. A line that the text ends with keeps its return.
unfoldable pub lines_of : List Text → List Text
lines_of [] = []
lines_of (part ∷ []) = if is_empty part then [] else part ∷ []
lines_of (part ∷ next ∷ parts) = strip_return part ∷ lines_of (next ∷ parts)

unfoldable pub lines : Text → List Text
lines s = lines_of (split 10 s)

-- `position(..).unwrap_or(0)`; none while nothing is found.
unfoldable pub position : (Text → Bool) → List Text → Option ℕ
position p [] = none
position p (line ∷ rest) =
    let later = position p rest in
    if p line then some 0 else elim later [ none ↦ none | some i ↦ some (suc i) ]

abbrev pub or_zero : Option ℕ → ℕ
or_zero none = 0
or_zero (some i) = i

-- The cut of a long snippet ends with an ellipsis.
unfoldable pub cut : Text → Text
cut s = if ltb max_snippet_chars (length s) then take max_snippet_chars s ++ 0x2026 ∷ [] else s

module _ (tools : Tools) where
  open tools use {to_lowercase, json_size}

  unfoldable pub parse_terms : (query : Text) → Result StoreError (List Text)
  parse_terms query = do
    reject_if (ltb 256 (byte_len query)) invalid_query
    let terms = map to_lowercase (split_whitespace query)
    reject_if (is_empty terms) invalid_query
    ok terms

  unfoldable pub snippet : (contents first_term : Text) → Text × ℕ × ℕ
  snippet contents first_term =
      let found = lines contents in
      let match_index =
        or_zero (position (λ line. contains_text first_term (to_lowercase line)) found) in
      let start = match_index - 2 in
      let last = min (match_index + 3) (length found) in
      (cut (join (10 ∷ []) (take (last - start) (drop start found))), start + 1, last)

  -- What one field gives for one term.
  abbrev pub points : Bool → ℕ → ℕ
  points true n = n
  points false n = 0

  unfoldable pub term_score : (path title description contents term : Text) → ℕ
  term_score path title description contents term =
      points (contains_text term path) 100
      + points (contains_text term title) 80
      + points (contains_text term description) 50
      + points (contains_text term contents) 10

  unfoldable pub fold_scores : (path title description contents : Text) (score : ℕ) → List Text → ℕ
  fold_scores path title description contents score [] = score
  fold_scores path title description contents score (term ∷ terms) =
      fold_scores path title description contents
        (score + term_score path title description contents term) terms

  unfoldable pub matches : (path title description contents term : Text) → Bool
  matches path title description contents term =
      contains_text term path
      || contains_text term title
      || contains_text term description
      || contains_text term contents

  abbrev pub first_of : List Text → Text
  first_of [] = []
  first_of (t ∷ ts) = t

  unfoldable pub scored : (terms : List Text) → FetchedDocument → (score : ℕ) → ScoredResult
  scored terms document score =
      let (shown, line_start, line_end) = snippet document.contents (first_of terms) in
      record {
        score = score;
        result = record {
          id = document.id;
          title = document.metadata.title;
          snippet = shown;
          metadata = record {
            path = document.id;
            description = document.metadata.description;
            line_start = line_start;
            line_end = line_end;
          };
        };
      }

  unfoldable pub score_document : (terms : List Text) → FetchedDocument → Option ScoredResult
  score_document terms document =
      let path = to_lowercase document.id in
      let title = to_lowercase document.metadata.title in
      let description = to_lowercase document.metadata.description in
      let contents = to_lowercase document.contents in
      if all (matches path title description contents) terms
      then some (scored terms document (fold_scores path title description contents 0 terms))
      else none

-- The order of the answers: a higher score first, and of equal scores the smaller id.
unfoldable pub goes_first : ScoredResult → ScoredResult → Bool
goes_first left right =
    ltb right.score left.score
    || right.score == left.score && not (text_lt right.result.id left.result.id)

-- `sort_by`, which is stable.
unfoldable pub insert_result : ScoredResult → List ScoredResult → List ScoredResult
insert_result r [] = r ∷ []
insert_result r (s ∷ rest) =
    let later = insert_result r rest in if goes_first r s then r ∷ s ∷ rest else s ∷ later

unfoldable pub sort_results : List ScoredResult → List ScoredResult
sort_results [] = []
sort_results (r ∷ rest) = insert_result r (sort_results rest)

module _ (tools : Tools) (max_response_bytes : ℕ) where
  -- The loop that adds answers while the response fits.
  unfoldable pub fill :
      (results : List SearchResult) (truncated : Bool)
      → List ScoredResult
      → Result StoreError SearchResponse
  fill results truncated [] = ok (record { results = results; truncated = truncated })
  fill results truncated (s ∷ rest) =
      let more = results ++ s.result ∷ [] in
      elim (tools.json_size (record { results = more; truncated = truncated })) [
        | none ↦ err invalid_query
        | some size ↦ elim (ltb max_response_bytes size) [
          | true ↦ ok (record { results = results; truncated = true })
          | false ↦ fill more truncated rest
        ]
      ]

module _ (tools : Tools) (store : DocumentStore) (disk : Disk) where
  -- One document of `filter_map`: none when it is left out.
  unfoldable pub match_document :
      (scope : AccessScope) (terms : List Text) (id : Text)
      → Result StoreError (Option ScoredResult)
  match_document scope terms id = elim (read_for_search store disk scope id) [
    | ok document ↦ ok (score_document tools terms document)
    | err not_found ↦ ok none
    | err e ↦ err e
  ]

  abbrev pub add_match : Option ScoredResult → List ScoredResult → List ScoredResult
  add_match none matched = matched
  add_match (some r) matched = r ∷ matched

  unfoldable pub collect_matches :
      (scope : AccessScope) (terms : List Text) (ids : List Text)
      → Result StoreError (List ScoredResult)
  collect_matches scope terms [] = ok []
  collect_matches scope terms (id ∷ ids) = do
    found ← match_document scope terms id
    rest ← collect_matches scope terms ids
    ok (add_match found rest)

  unfoldable pub search :
      (scope : AccessScope) (query : Text) (limit : Option ℕ) (max_response_bytes : ℕ)
      → Result StoreError SearchResponse
  search scope query limit max_response_bytes = do
    terms ← parse_terms tools query
    let limit = limit_or_default limit
    reject_if (not (leb 1 limit && leb limit max_limit)) invalid_query
    ids ← candidate_ids store disk scope
    matched ← collect_matches scope terms ids
    let ranked = sort_results matched
    fill tools max_response_bytes [] (ltb limit (length ranked)) (take limit ranked)
