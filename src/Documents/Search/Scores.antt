-- ===== src/Documents/Search/Scores.antt =====
-- The bounds of the scores of src/search.rs.
use engram_mcp.Common.{ℕ, ◌+◌, ◌*◌, ◌≤◌, List, [], ◌∷◌, Text, length, arith}
use engram_mcp.Documents.Search.{Tools, term_score, fold_scores}

term_score-bound :
    (tools : Tools) (path title description contents term : Text)
    → term_score tools path title description contents term ≤ 240
unfolding term_score
term_score-bound tools path title description contents term = ground arith

fold_scores-bound-from :
    (tools : Tools) (path title description contents : Text) (score : ℕ) (terms : List Text)
    → fold_scores tools path title description contents score terms ≤ score + 240 * length terms
unfolding fold_scores
fold_scores-bound-from tools path title description contents score [] = omega arith
fold_scores-bound-from tools path title description contents score (t ∷ terms) = omega (
  arith,
  term_score-bound tools path title description contents t,
  fold_scores-bound-from tools path title description contents
      (score + term_score tools path title description contents t) terms,
)

-- With terms of a query of at most 256 bytes a score stays far within 32 bits.
pub fold_scores-bound :
    (tools : Tools) (path title description contents : Text) (terms : List Text)
    → length terms ≤ 256
    → fold_scores tools path title description contents 0 terms ≤ 61_440
fold_scores-bound tools path title description contents terms h =
    omega (arith, h, fold_scores-bound-from tools path title description contents 0 terms)
