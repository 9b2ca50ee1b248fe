-- ===== src/Samples/AuthExamples.antt =====
-- The theorems on src/auth.rs, at an API key, and at a limiter with exact arithmetic.
use engram_mcp.Auth.Keys.{authenticate_api_key_headers, authenticate_key}
use engram_mcp.OAuth.Crates.{constant_time_equal}
use engram_mcp.Utf8.{encode_char}
use engram_mcp.Common.{
  ℕ, ◌+◌, ◌-◌, ◌*◌, ◌/◌, ◌≡◌, ◌⊎◌, refl, none, some, [], ◌∷◌, text, text_eq, ltb, min, ok, arith,
}
use engram_mcp.Utf8.{as_bytes}
use engram_mcp.Auth.Access.{private, tech}
use engram_mcp.Auth.Keys.{
  AuthSubject, key_a, key_b, Authenticator, Headers, new, authenticate_headers,
}
use engram_mcp.Auth.Keys.Laws.{ByKey, ByToken, authenticate_headers-cases}
use engram_mcp.Auth.Limits.{Floats, new_limiter}
use engram_mcp.Auth.Limits.Burst.{IsExact, allowed_of, requests_of, allowed_of-new_limiter}
use engram_mcp.Samples.Crates.{crypto}

abbrev authenticator : Authenticator
authenticator = new crypto (text "tech-key") (text "private-key")

abbrev headers : Headers
headers = record { authorization = none; x_api_key = some (text "private-key"); to_str = some }

abbrev subject : AuthSubject
subject = record { credential_id = key_b; scope = private }

key_run : authenticate_headers crypto authenticator 0 headers ≡ ok subject
unfolding authenticate_headers authenticate_api_key_headers authenticate_key constant_time_equal
    as_bytes new text_eq encode_char
key_run = refl

authenticate_headers-cases_example :
    ByToken crypto authenticator 0 headers subject
    ⊎ ((headers.authorization ≡ none) × ByKey crypto authenticator headers subject)
authenticate_headers-cases_example =
    authenticate_headers-cases crypto authenticator 0 headers subject key_run

-- Whole numbers, which no time refills.
abbrev pub whole : Floats
whole = record {
  F = ℕ;
  of_u32 = λ n. n;
  as_secs = λ n. n / 1_000_000_000;
  add = λ m n. m + n;
  sub = λ m n. m - n;
  mul = λ m n. m * n;
  div = λ m n. m / n;
  min = λ m n. min m n;
  lt = λ m n. ltb m n;
}

whole-IsExact : IsExact whole
whole-IsExact = record {
  stands = λ n rate period h k. omega arith;
  min_of = λ m n h k. omega (arith, h);
  sub_one = λ n h. omega arith;
  zero_lt = refl;
  suc_lt = λ n h. ground arith;
}

abbrev other : AuthSubject
other = record { credential_id = key_a; scope = tech }

allowed_of-new_limiter_example :
    allowed_of whole key_b 5 (subject ∷ other ∷ subject ∷ subject ∷ []) (new_limiter whole 60 2)
    ≡ min (requests_of key_b (subject ∷ other ∷ subject ∷ subject ∷ [])) 2
allowed_of-new_limiter_example =
    allowed_of-new_limiter whole whole-IsExact key_b 60 2 5
      (subject ∷ other ∷ subject ∷ subject ∷ []) (omega arith) (omega arith)
