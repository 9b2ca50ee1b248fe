-- ===== src/Documents/Search/Ranking.antt =====
-- What a search of src/search.rs returns.
use mathlib.Core.List.{Perm}
use engram_mcp.Common.{
  ℕ, zero, suc, ◌≤◌, ◌<◌, ◌++◌, inl, inr, true, sym, get_elem?, none, is_empty, byte_len,
  split_whitespace, Bool-cases, length-take, take-take, ◌≡◌, refl, ap, ◌∙◌, false, not, ◌&&◌,
  Option, some, List, [], ◌∷◌, map, Text, length, take, All, ltb, leb, ok, reject_if, arith, on_ok,
  reject_if-eq-ok,
}
use engram_mcp.Auth.Access.{AccessScope}
use engram_mcp.Documents.Id.{invalid_query}
use engram_mcp.Documents.Read.{DocumentStore, Disk, candidate_ids}
use engram_mcp.Documents.Search.{
  Tools, SearchResult, SearchResponse, ScoredResult, max_limit, limit_or_default, parse_terms,
  sort_results, collect_matches, search,
}
use engram_mcp.Documents.Search.Sorting.{
  IsRanked, sort_results-IsRanked, sort_results-All, sort_results-Perm,
}
use engram_mcp.Documents.Search.Filling.{result_of, fill-IsFilled}
use engram_mcp.Documents.Search.Readable.{Readable, collect_matches-Readable}
use engram_mcp.Documents.Search.Matches.{Matched, collect_matches-Matched}

-- The answers are the first ones of a ranking of all matches, and all of them when the response
-- does not say that it is truncated; the scope may read each of them.
pub record IsSearch (tools : Tools) (store : DocumentStore) (disk : Disk) (scope : AccessScope)
    (query : Text) (asked : Option ℕ) (max_response_bytes : ℕ) (response : SearchResponse)
    : Type 0 where
  pub terms : List Text
  pub terms_are : terms ≡ map tools.to_lowercase (split_whitespace query)
  pub some_term : is_empty terms ≡ false
  pub short_query : byte_len query ≤ 256
  pub ids : List Text
  pub ids_of : candidate_ids store disk scope ≡ ok ids
  pub matched : List ScoredResult
  pub matched_are : Matched tools store disk scope terms ids matched
  pub order : List ScoredResult
  pub same_answers : Perm order matched
  pub ranked : IsRanked order
  pub readable : All (Readable tools store disk scope) order
  pub limit : ℕ
  pub limit_given : (n : ℕ) → asked ≡ some n → limit ≡ n
  pub limit_default : asked ≡ none → limit ≡ 10
  pub in_range : (1 ≤ limit) × (limit ≤ 20)
  pub count : ℕ
  pub within : count ≤ limit
  pub results_of : response.results ≡ map result_of (take count order)
  pub complete : response.truncated ≡ false → response.results ≡ map result_of order
  pub left_out : response.truncated ≡ true → count < length order
  pub stopped :
      (next : SearchResult)
      → get_elem? (map result_of order) count ≡ some next
      → count < limit
      → (size : ℕ) × (tools.json_size (record {
        results = response.results ++ next ∷ [];
        truncated = ltb limit (length order);
      })
          ≡ some size)
        × (max_response_bytes < size)
  pub fits :
      1 ≤ count
      → (size : ℕ) × (tools.json_size
            (record { results = response.results; truncated = ltb limit (length order) })
          ≡ some size)
        × (size ≤ max_response_bytes)

in_limit : (n : ℕ) → not (leb 1 n && leb n max_limit) ≡ false → (1 ≤ n) × (n ≤ max_limit)
in_limit n h = ground (arith, h)

map-take :
    (n i : ℕ) (rs : List ScoredResult)
    → i < n
    → get_elem? (map result_of (take n rs)) i ≡ get_elem? (map result_of rs) i
map-take zero i rs h = absurd (omega (arith, h))
map-take (suc n) i [] h = refl
map-take (suc n) zero (r ∷ rs) h = refl
map-take (suc n) (suc i) (r ∷ rs) h = map-take n i rs (omega (arith, h))

parse_terms-ok :
    (tools : Tools) (query : Text) (terms : List Text)
    → parse_terms tools query ≡ ok terms
    → (byte_len query ≤ 256)
      × (terms ≡ map tools.to_lowercase (split_whitespace query))
      × (is_empty terms ≡ false)
unfolding parse_terms
parse_terms-ok tools query terms h = elim (Bool-cases (ltb 256 (byte_len query))) [
  | inl e ↦ absurd (ground (arith, e, h))
  | inr e ↦ elim (Bool-cases (is_empty (map tools.to_lowercase (split_whitespace query)))) [
    | inl f ↦ absurd (ground (arith, e, f, h))
    | inr f ↦
        let same : map tools.to_lowercase (split_whitespace query) ≡ terms =
          ground (arith, e, f, h) in
        (ground (arith, e), sym same, rw (← same) f)
  ]
]

take-length : (n : ℕ) (rs : List ScoredResult) → length rs ≤ n → take (length (take n rs)) rs ≡ rs
take-length zero [] h = refl
take-length zero (r ∷ rs) h = absurd (omega (arith, h))
take-length (suc n) [] h = refl
take-length (suc n) (r ∷ rs) h = ap (λ l. r ∷ l) (take-length n rs (omega (arith, h)))

module _ (tools : Tools) (store : DocumentStore) (disk : Disk) where
  -- A search answers with the first ones, at most as many as the limit, of a ranking of all
  -- matches: by descending score, and of equal scores by ascending id; the limit is from 1 to 20,
  -- and 10 when none is given. The matches are, for each candidate that can be read and in which
  -- every term of the query, in lower case, is a part of the path, the title, the description or
  -- the contents, one answer with the document's fields, a snippet, and 100, 80, 50 and 10 points
  -- for each term in those fields; the scope may read each. The response has all matches exactly
  -- when it does not say that it is truncated. With answers it was measured within the limit on
  -- its bytes, and with fewer than the limit and than there are, it was measured above it with
  -- the next one.
  pub search-IsSearch :
      (scope : AccessScope) (query : Text) (limit : Option ℕ) (max : ℕ) (response : SearchResponse)
      → search tools store disk scope query limit max ≡ ok response
      → IsSearch tools store disk scope query limit max response
  unfolding search
  search-IsSearch scope query limit max response h =
      let n = limit_or_default limit in
      on_ok (parse_terms tools query) h (λ terms ht h₁.
        on_ok (reject_if (not (leb 1 n && leb n max_limit)) invalid_query) h₁ (λ _ hl h₂.
          on_ok (candidate_ids store disk scope) h₂ (λ ids hi h₃.
            on_ok (collect_matches tools store disk scope terms ids) h₃ (λ matched hm h₄.
              let ranked = sort_results matched in
              let filled =
                fill-IsFilled tools max [] (ltb n (length ranked)) (take n ranked) response h₄ in
              let (short_query, terms_are, some_term) = parse_terms-ok tools query terms ht in
              let count_le : filled.count ≤ n =
                omega (arith, filled.within, length-take n ranked) in
              let shown : response.results ≡ map result_of (take filled.count ranked) =
                filled.results_of ∙ ap (map result_of) (take-take filled.count n ranked count_le) in
              record {
                terms = terms;
                terms_are = terms_are;
                some_term = some_term;
                short_query = short_query;
                ids = ids;
                ids_of = hi;
                matched = matched;
                matched_are = collect_matches-Matched tools store disk scope terms ids matched hm;
                order = ranked;
                same_answers = sort_results-Perm matched;
                ranked = sort_results-IsRanked matched;
                readable =
                    sort_results-All (Readable tools store disk scope) matched
                      (collect_matches-Readable tools store disk scope terms ids matched hm);
                limit = n;
                limit_given = λ m e. ap limit_or_default e;
                limit_default = λ e. ap limit_or_default e;
                in_range = in_limit n (reject_if-eq-ok _ invalid_query hl);
                count = filled.count;
                within = count_le;
                results_of = shown;
                complete = λ t.
                    let (whole, all) = filled.complete t in
                    shown
                    ∙ ap (λ c. map result_of (take c ranked)) all
                    ∙ ap (map result_of) (take-length n ranked (ground (arith, whole)));
                left_out = λ t. elim (filled.left_out t) [
                  | inl more ↦ ground (arith, more, count_le)
                  | inr less ↦ omega (arith, less, length-take n ranked)
                ];
                stopped =
                    λ next at less. filled.stopped next (map-take n filled.count ranked less ∙ at);
                fits = filled.fits;
              }))))
