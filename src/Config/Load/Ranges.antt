-- ===== src/Config/Load/Ranges.antt =====
-- The ranges of the settings that src/config.rs accepts.
use engram_mcp.Common.{
  ℕ, ◌≤◌, ◌≡◌, inl, inr, true, not, some, Text, text, byte_len, ok, reject_if, arith, Option-cases,
  on_ok, ok-inj,
}
use engram_mcp.Directories.{invalid_inbox_root}
use engram_mcp.Config.Values.{Lookup, required, optional, parse_usize, parse_u32, parse_u64}
use engram_mcp.Config.Values.Laws.{parse_in_range-ok}
use engram_mcp.Config.Load.{
  InboxConfig, OAuthConfig, Platform, is_absolute, validate, read_oauth, read_inbox_at, read_inbox,
  Limits, read_limits,
}
use mathlib.Core.Option.{some_inj}

abbrev pub Within : (n low high : ℕ) → Type 0
Within n low high = (low ≤ n) × (n ≤ high)

parse_u64-Within :
    (lookup : Lookup) (key : Text) (default low high n : ℕ)
    → parse_u64 lookup key default low high ≡ ok n
    → Within n low high
unfolding parse_u64
parse_u64-Within lookup key default low high n h =
    parse_in_range-ok _ lookup key default low high n h

parse_u32-Within :
    (lookup : Lookup) (key : Text) (default low high n : ℕ)
    → parse_u32 lookup key default low high ≡ ok n
    → Within n low high
unfolding parse_u32
parse_u32-Within lookup key default low high n h =
    parse_in_range-ok _ lookup key default low high n h

parse_usize-Within :
    (lookup : Lookup) (key : Text) (default low high n : ℕ)
    → parse_usize lookup key default low high ≡ ok n
    → Within n low high
unfolding parse_usize
parse_usize-Within lookup key default low high n h =
    parse_in_range-ok _ lookup key default low high n h

pub record AreLimits (limits : Limits) : Type 0 where
  pub read : Within limits.max_read_bytes 8_192 262_144
  pub response : Within limits.max_search_response_bytes 8_192 65_536
  pub file : Within limits.max_search_file_bytes limits.max_read_bytes 4_194_304
  pub per_minute : Within limits.rate_limit_per_minute 1 600
  pub burst : Within limits.rate_limit_burst 1 limits.rate_limit_per_minute

pub read_limits-AreLimits :
    (lookup : Lookup) (limits : Limits) → read_limits lookup ≡ ok limits → AreLimits limits
unfolding read_limits
read_limits-AreLimits lookup limits h =
    on_ok (parse_usize lookup (text "MAX_READ_BYTES") 65_536 8_192 262_144) h (λ a ha h₁.
      on_ok (parse_usize lookup (text "MAX_SEARCH_RESPONSE_BYTES") 24_576 8_192 65_536) h₁
        (λ b hb h₂.
          on_ok (parse_usize lookup (text "MAX_SEARCH_FILE_BYTES") 1_048_576 a 4_194_304) h₂
            (λ c hc h₃.
              on_ok (parse_u32 lookup (text "RATE_LIMIT_PER_MINUTE") 60 1 600) h₃ (λ d hd h₄.
                on_ok (parse_u32 lookup (text "RATE_LIMIT_BURST") 10 1 d) h₄ (λ e he h₅.
                  let same : record {
                    max_read_bytes = a;
                    max_search_response_bytes = b;
                    max_search_file_bytes = c;
                    rate_limit_per_minute = d;
                    rate_limit_burst = e;
                  }
                      ≡ limits =
                    ok-inj h₅ in
                  rw (← same) (record {
                    read = parse_usize-Within _ _ _ _ _ _ ha;
                    response = parse_usize-Within _ _ _ _ _ _ hb;
                    file = parse_usize-Within _ _ _ _ _ _ hc;
                    per_minute = parse_u32-Within _ _ _ _ _ _ hd;
                    burst = parse_u32-Within _ _ _ _ _ _ he;
                  }))))))

pub record IsChecked (oauth : OAuthConfig) : Type 0 where
  pub access_ttl : Within oauth.access_token_ttl_seconds 60 3_600
  pub code_ttl : Within oauth.authorization_code_ttl_seconds 60 600
  pub refresh_ttl : Within oauth.refresh_token_ttl_seconds 60 2_592_000
  pub owner_secret : 20 ≤ byte_len oauth.owner_secret
  pub signing_key : 32 ≤ byte_len oauth.signing_key
  pub state_dir : is_absolute oauth.refresh_state_dir ≡ true

pub record AreTtls (oauth : OAuthConfig) : Type 0 where
  pub access : Within oauth.access_token_ttl_seconds 60 3_600
  pub code : Within oauth.authorization_code_ttl_seconds 60 600
  pub refresh : Within oauth.refresh_token_ttl_seconds 60 2_592_000

pub read_oauth-AreTtls :
    (lookup : Lookup) (oauth : OAuthConfig) → read_oauth lookup ≡ ok oauth → AreTtls oauth
unfolding read_oauth
read_oauth-AreTtls lookup oauth h = on_ok (required lookup (text "OAUTH_ISSUER")) h (λ i _ h₁.
    on_ok (required lookup (text "OAUTH_RESOURCE")) h₁ (λ r _ h₂.
      on_ok (required lookup (text "OAUTH_OWNER_SECRET")) h₂ (λ o _ h₃.
        on_ok (required lookup (text "OAUTH_SIGNING_KEY")) h₃ (λ s _ h₄.
          on_ok (parse_u64 lookup (text "OAUTH_ACCESS_TOKEN_TTL_SECONDS") 900 60 3_600) h₄
            (λ a ha h₅.
              on_ok (parse_u64 lookup (text "OAUTH_AUTHORIZATION_CODE_TTL_SECONDS") 300 60 600) h₅
                (λ c hc h₆. on_ok (required lookup (text "OAUTH_STATE_DIR")) h₆ (λ d _ h₇.
                  on_ok
                    (parse_u64 lookup (text "OAUTH_REFRESH_TOKEN_TTL_SECONDS") 1_209_600 60
                      2_592_000)
                    h₇
                    (λ f hf h₈.
                      let same : record {
                        issuer = i;
                        resource = r;
                        owner_secret = o;
                        signing_key = s;
                        access_token_ttl_seconds = a;
                        authorization_code_ttl_seconds = c;
                        refresh_state_dir = d;
                        refresh_token_ttl_seconds = f;
                      }
                          ≡ oauth =
                        ok-inj h₈ in
                      rw (← same) (record {
                        access = parse_u64-Within _ _ _ _ _ _ ha;
                        code = parse_u64-Within _ _ _ _ _ _ hc;
                        refresh = parse_u64-Within _ _ _ _ _ _ hf;
                      })))))))))

pub validate-ok :
    (platform : Platform) (oauth : OAuthConfig)
    → validate platform oauth ≡ ok tt
    → (20 ≤ byte_len oauth.owner_secret)
      × (32 ≤ byte_len oauth.signing_key)
      × (is_absolute oauth.refresh_state_dir ≡ true)
unfolding validate
validate-ok platform oauth h = elim (Option-cases (platform.parse_url oauth.issuer)) [
  | inl e ↦ absurd (ground (arith, e, h))
  | inr (issuer, e) ↦ elim (Option-cases (platform.parse_url oauth.resource)) [
    | inl f ↦ absurd (ground (arith, e, f, h))
    | inr (resource, f) ↦ ground (arith, e, f, h)
  ]
]

pub record IsInbox (inbox : InboxConfig) : Type 0 where
  pub absolute : is_absolute inbox.root ≡ true
  pub writes : Within inbox.writes_per_hour 1 100
  pub note : Within inbox.max_note_bytes 1_024 32_768
  pub total : Within inbox.max_total_bytes 65_536 67_108_864

read_inbox_at-IsInbox :
    (lookup : Lookup) (root : Text) (inbox : InboxConfig)
    → read_inbox_at lookup root ≡ ok (some inbox)
    → IsInbox inbox
unfolding read_inbox_at
read_inbox_at-IsInbox lookup root inbox h =
    on_ok (reject_if (not (is_absolute root)) invalid_inbox_root) h (λ _ ha h₁.
      on_ok (parse_u32 lookup (text "INBOX_WRITES_PER_HOUR") 10 1 100) h₁ (λ w hw h₂.
        on_ok (parse_usize lookup (text "INBOX_MAX_NOTE_BYTES") 32_768 1_024 32_768) h₂ (λ n hn h₃.
          on_ok (parse_u64 lookup (text "INBOX_MAX_TOTAL_BYTES") 8_388_608 65_536 67_108_864) h₃
            (λ t ht h₄.
              let same : record {
                root = root;
                writes_per_hour = w;
                max_note_bytes = n;
                max_total_bytes = t;
              }
                  ≡ inbox =
                some_inj.0 (ok-inj h₄) in
              rw (← same) (record {
                absolute = ground (arith, ha);
                writes = parse_u32-Within _ _ _ _ _ _ hw;
                note = parse_usize-Within _ _ _ _ _ _ hn;
                total = parse_u64-Within _ _ _ _ _ _ ht;
              })))))

pub read_inbox-IsInbox :
    (lookup : Lookup) (inbox : InboxConfig) → read_inbox lookup ≡ ok (some inbox) → IsInbox inbox
unfolding read_inbox
read_inbox-IsInbox lookup inbox h = elim (Option-cases (optional lookup (text "INBOX_ROOT"))) [
  | inl e ↦ absurd (ground (arith, e, h))
  | inr (root, e) ↦ read_inbox_at-IsInbox lookup root inbox (ground (arith, e, h))
]
