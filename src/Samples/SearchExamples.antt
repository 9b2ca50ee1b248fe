-- ===== src/Samples/SearchExamples.antt =====
-- The theorems on src/document.rs and src/search.rs, at a knowledge base of two documents.
use engram_mcp.Utf8.{encode_char}
use engram_mcp.Documents.Search.{
  collect_matches, cut, fill, fold_scores, insert_result, lines_of, match_document, matches,
  parse_terms, position, score_document, scored, sort_results, strip_return, term_score,
}
use engram_mcp.Common.{
  contains_text, is_whitespace, split_once, split_whitespace, starts_with, strip_prefix, words_from,
}
use engram_mcp.Documents.Read.{
  candidate_ids, fallback_title, file_stem, front_matter, is_document, open_regular_file,
  parse_metadata, read_for_search, read_limited, roots, walk_roots, walked_ids,
}
use engram_mcp.Auth.Access.{allows_private}
use engram_mcp.TextSet.{contains, from_list, insert, text_lt}
use engram_mcp.Directories.{allows_public, is_allowed}
use engram_mcp.Config.Values.{join}
use engram_mcp.Documents.Read.{decode_limited, pop_invalid}
use engram_mcp.Utf8.{decode_from, decode_step, from_utf8, lead}
use engram_mcp.OAuth.Signing.{saturating_add}
use engram_mcp.Documents.Id.{
  components, components_of, file_name, has_md_extension, id_refused, is_drive, is_visible,
  later_components,
}
use engram_mcp.Common.{
  byte_len, ends_with, has_char, is_ascii_alphabetic, len_utf8, starts_with_char,
}
use engram_mcp.Common.{
  ℕ, ◌≡◌, refl, true, false, none, some, List, [], ◌∷◌, ◌++◌, Text, text, text_eq, if◌then◌else◌,
  ok, arith,
}
use engram_mcp.Utf8.{as_bytes}
use engram_mcp.Auth.Access.{tech}
use engram_mcp.Config.Values.{split}
use engram_mcp.Directories.{top_level}
use engram_mcp.Documents.Id.{parse}
use engram_mcp.Documents.Id.Laws.{walk, parse-walk}
use engram_mcp.Documents.Read.{
  DocumentStore, Disk, Walked, entry, Opened, regular, fails, noent, read_utf8_limited,
}
use engram_mcp.Documents.Read.Limited.{IsBeginning, read_utf8_limited-ok}
use engram_mcp.Documents.Search.{Tools, SearchResponse, search, snippet, lines}
use engram_mcp.Documents.Search.Snippet.{IsSnippet, snippet-IsSnippet}
use engram_mcp.Documents.Search.Ranking.{IsSearch, search-IsSearch}

abbrev pub first_id : Text
first_id = text "10_tech/rust/ownership.md"

abbrev pub diary_id : Text
diary_id = text "90_private/diary.md"

-- Two characters, of which the second has three bytes.
abbrev accented : List ℕ
accented = 0x61 ∷ 0xe2 ∷ 0x82 ∷ 0xac ∷ []

abbrev pub store : DocumentStore
store = record {
  directories = record { public = text "10_tech" ∷ []; private_dirs = text "90_private" ∷ [] };
  max_read_bytes = 1_024;
  max_search_file_bytes = 1_024;
}

abbrev pub open_file : Text → Opened
open_file id =
    if text_eq id first_id
    then regular (some (as_bytes (text "# Owners" ++ 10 ∷ text "Rust owns")))
    else if text_eq id diary_id
    then regular (some (as_bytes (text "who owns")))
    else fails noent

abbrev pub walk_directory : Text → List Walked
walk_directory directory =
    if text_eq directory (text "10_tech")
    then entry true (text "10_tech" ∷ text "rust" ∷ text "ownership.md" ∷ []) ∷ []
    else entry true (text "90_private" ∷ text "diary.md" ∷ []) ∷ []

abbrev pub disk : Disk
disk = record {
  has_index = false;
  exists = λ directory. true;
  walk = walk_directory;
  open_beneath = open_file;
  from_yaml = λ t. none;
}

abbrev pub tools : Tools
tools = record { to_lowercase = λ t. t; json_size = λ response. some 100 }

abbrev response : SearchResponse
response = record {
  results =
      record {
        id = first_id;
        title = text "ownership";
        snippet = text "# Owners" ++ 10 ∷ text "Rust owns";
        metadata = record { path = first_id; description = []; line_start = 1; line_end = 2 };
      }
      ∷ [];
  truncated = false;
}

id_run : parse first_id ≡ ok first_id
unfolding parse id_refused byte_len has_char starts_with_char is_drive is_ascii_alphabetic
    has_md_extension file_name components components_of split text_eq later_components ends_with
    is_visible len_utf8
id_run = refl

cut_run : read_utf8_limited (some accented) 3 ≡ ok (text "a", true)
unfolding read_utf8_limited decode_limited from_utf8 decode_from saturating_add pop_invalid
    decode_step lead
cut_run = refl

search_run : search tools store disk tech (text "owns") none 8_192 ≡ ok response
unfolding parse id_refused byte_len has_char starts_with_char is_drive is_ascii_alphabetic
    has_md_extension file_name components components_of split text_eq later_components ends_with
    is_visible len_utf8 read_utf8_limited decode_limited from_utf8 decode_from saturating_add
    pop_invalid decode_step lead as_bytes encode_char search parse_terms split_whitespace words_from
    is_whitespace candidate_ids walk_roots roots allows_private walked_ids is_document from_list
    insert text_lt collect_matches match_document read_for_search read_limited is_allowed top_level
    split_once allows_public contains open_regular_file parse_metadata front_matter strip_prefix
    fallback_title file_stem score_document matches contains_text starts_with scored fold_scores
    term_score snippet lines lines_of strip_return position join cut sort_results insert_result fill
search_run = refl

parse-walk_example :
    (first_id ≡ first_id)
    × (rest : List Text) × (walk [] (split b'/' first_id) ≡ some (top_level first_id ∷ rest))
parse-walk_example = parse-walk first_id first_id id_run

read_utf8_limited-ok_example : IsBeginning accented 3 (text "a") true
read_utf8_limited-ok_example = read_utf8_limited-ok accented 3 (text "a") true (omega arith) cut_run

search-IsSearch_example : IsSearch tools store disk tech (text "owns") none 8_192 response
search-IsSearch_example =
    search-IsSearch tools store disk tech (text "owns") none 8_192 response search_run

snippet-IsSnippet_example :
    IsSnippet tools
      (text "who owns")
      (text "owns")
      (snippet tools (text "who owns") (text "owns")).0
      (snippet tools (text "who owns") (text "owns")).1
      (snippet tools (text "who owns") (text "owns")).2
snippet-IsSnippet_example = snippet-IsSnippet tools (text "who owns") (text "owns")
