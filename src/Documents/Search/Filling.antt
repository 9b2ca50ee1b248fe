-- ===== src/Documents/Search/Filling.antt =====
-- The loop of src/search.rs that keeps a response within its limit.
use engram_mcp.Common.{
  ℕ, suc, ◌≤◌, ◌<◌, ◌⊎◌, get_elem?, ◌≡◌, refl, ap, sym, ◌∙◌, inl, inr, Bool, true, false, some,
  List, [], ◌∷◌, ◌++◌, map, length, take, ltb, ◌==◌, ==_iff, ok, arith, Bool-cases, Option-cases,
  ok-inj,
}
use engram_mcp.Documents.Search.{Tools, SearchResult, SearchResponse, ScoredResult, fill}

abbrev pub result_of : ScoredResult → SearchResult
result_of r = r.result

-- What the loop over the ranked answers returns.
pub record IsFilled (tools : Tools) (max_response_bytes : ℕ) (results : List SearchResult)
    (truncated : Bool) (ranked : List ScoredResult) (response : SearchResponse) : Type 0 where
  pub count : ℕ
  pub within : count ≤ length ranked
  pub results_of : response.results ≡ results ++ map result_of (take count ranked)
  pub complete : response.truncated ≡ false → (truncated ≡ false) × (count ≡ length ranked)
  pub left_out : response.truncated ≡ true → (truncated ≡ true) ⊎ (count < length ranked)
  pub stopped :
      (next : SearchResult)
      → get_elem? (map result_of ranked) count ≡ some next
      → (size : ℕ) × (tools.json_size
            (record { results = response.results ++ next ∷ []; truncated = truncated })
          ≡ some size)
        × (max_response_bytes < size)
  pub fits :
      1 ≤ count
      → (size : ℕ) × (tools.json_size (record { results = response.results; truncated = truncated })
          ≡ some size)
        × (size ≤ max_response_bytes)

append_nil : (rs : List SearchResult) → rs ++ [] ≡ rs
append_nil [] = refl
append_nil (r ∷ rs) = ap (λ l. r ∷ l) (append_nil rs)

append_assoc : (xs ys zs : List SearchResult) → (xs ++ ys) ++ zs ≡ xs ++ (ys ++ zs)
append_assoc [] ys zs = refl
append_assoc (x ∷ xs) ys zs = ap (λ l. x ∷ l) (append_assoc xs ys zs)

pub fill-IsFilled :
    (tools : Tools) (max : ℕ) (results : List SearchResult) (truncated : Bool)
    (ranked : List ScoredResult) (response : SearchResponse)
    → fill tools max results truncated ranked ≡ ok response
    → IsFilled tools max results truncated ranked response
unfolding fill
fill-IsFilled tools max results truncated [] response h =
    let e = ok-inj h in
    rw (← e) (record {
      count = 0;
      within = omega arith;
      results_of = sym (append_nil results);
      complete = λ t. (t, refl);
      left_out = λ t. inl t;
      stopped = λ next n. cc;
      fits = λ k. absurd (omega (arith, k));
    })
fill-IsFilled tools max results truncated (s ∷ rest) response h =
    elim (Option-cases
      (tools.json_size (record { results = results ++ s.result ∷ []; truncated = truncated }))) [
        | inl e ↦ absurd (ground (arith, e, h))
        | inr (size, e) ↦ elim (Bool-cases (ltb max size)) [
          | inl f ↦
              let k : ok (record { results = results; truncated = true }) ≡ ok response =
                rw (e, f, fill) at h in
              rw (← (ok-inj k)) (record {
                count = 0;
                within = omega arith;
                results_of = sym (append_nil results);
                complete = λ t. absurd (ground (arith, t));
                left_out = λ t. inr (omega arith);
                stopped = λ next n.
                    let same : s.result ≡ next = cc in
                    (
                      size,
                      ap
                            (λ x.
                              tools.json_size
                                (record { results = results ++ x ∷ []; truncated = truncated }))
                            (sym same)
                          ∙ e,
                      ground (arith, f),
                    );
                fits = λ n. absurd (omega (arith, n));
              })
          | inr f ↦
              let k : fill tools max (results ++ s.result ∷ []) truncated rest ≡ ok response =
                rw (e, f, fill) at h in
              let ih =
                fill-IsFilled tools max (results ++ s.result ∷ []) truncated rest response k in
              record {
                count = suc ih.count;
                within = omega (arith, ih.within);
                results_of =
                    ih.results_of
                    ∙ append_assoc results (s.result ∷ []) (map result_of (take ih.count rest));
                left_out =
                    λ t. elim (ih.left_out t) [ inl l ↦ inl l | inr l ↦ inr (omega (arith, l)) ];
                stopped = ih.stopped;
                complete = λ t. ((ih.complete t).0, ap suc (ih.complete t).1);
                fits = λ n. elim (Bool-cases (ih.count == 0)) [
                  | inr d ↦ ih.fits (ground (arith, d))
                  | inl d ↦
                      let zero_count : ih.count ≡ 0 = (==_iff ih.count 0).0 d in
                      let same : response.results ≡ results ++ s.result ∷ [] =
                        ih.results_of
                        ∙ ap (λ c. (results ++ s.result ∷ []) ++ map result_of (take c rest))
                            zero_count
                        ∙ append_nil (results ++ s.result ∷ []) in
                      (
                        size,
                        ap (λ l. tools.json_size (record { results = l; truncated = truncated }))
                              same
                            ∙ e,
                        ground (arith, f),
                      )
                ];
              }
        ]
      ]
