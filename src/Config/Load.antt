-- ===== src/Config/Load.antt =====
-- `Config::from_lookup` and `OAuthConfig::validate` of src/config.rs. The crate `url`, the parser of
-- socket addresses and the file system are a parameter.
pub mod Ranges
pub mod Checked
use engram_mcp.Common.{
  ℕ, ◌*◌, Bool, true, false, not, ◌||◌, ◌&&◌, Option, none, some, List, [], ◌∷◌, Text, text,
  is_empty, byte_len, starts_with_char, ends_with_char, text_eq, ltb, Result, ok, err, ◌>>=◌, ◌>>◌,
  reject_if, ok_or,
}
use engram_mcp.TextSet.{TextSet}
use engram_mcp.Directories.{
  ConfigError, weak_secret, invalid_kb_root, duplicate_keys, invalid_bind_address,
  missing_allowed_hosts, invalid_oauth_issuer, invalid_oauth_resource, invalid_oauth_state_dir,
  invalid_inbox_root, ScopeDirectories, scope_directories,
}
use engram_mcp.Config.Values.{
  Lookup, required, optional, parse_set, parse_directory_set, parse_usize, parse_u32, parse_u64,
  value_or,
}

pub record InboxConfig : Type 0 where
  pub root : Text
  pub writes_per_hour : ℕ
  pub max_note_bytes : ℕ
  pub max_total_bytes : ℕ

pub record OAuthConfig : Type 0 where
  pub issuer : Text
  pub resource : Text
  pub owner_secret : Text
  pub signing_key : Text
  pub access_token_ttl_seconds : ℕ
  pub authorization_code_ttl_seconds : ℕ
  pub refresh_state_dir : Text
  pub refresh_token_ttl_seconds : ℕ

pub record Config : Type 0 where
  pub kb_root : Text
  pub directories : ScopeDirectories
  pub key_a : Text
  pub key_b : Text
  pub bind_addr : Text
  pub allowed_hosts : TextSet
  pub allowed_origins : TextSet
  pub max_read_bytes : ℕ
  pub max_search_response_bytes : ℕ
  pub max_search_file_bytes : ℕ
  pub rate_limit_per_minute : ℕ
  pub rate_limit_burst : ℕ
  pub oauth : OAuthConfig
  pub inbox : Option InboxConfig

-- What is asked of a parsed URL.
pub record Url : Type 0 where
  pub scheme : Text
  pub host_str : Option Text
  pub path : Text
  pub query : Option Text
  pub fragment : Option Text

-- The crate `url`, the parser of socket addresses, which are kept as they were written, and whether
-- a path is a directory.
pub record Platform : Type 0 where
  pub parse_url : Text → Option Url
  pub same_origin : Url → Url → Bool
  pub parse_address : Text → Option Text
  pub is_dir : Text → Bool

abbrev pub default_kb_public_dirs : List Text
default_kb_public_dirs = text "10_tech" ∷ text "20_projects" ∷ []

abbrev pub default_kb_private_dirs : List Text
default_kb_private_dirs = text "90_private" ∷ []

abbrev pub default_bind_addr : Text
default_bind_addr = text "0.0.0.0:8080"

-- `is_none` and `is_some`.
abbrev pub is_some : Option Text → Bool
is_some none = false
is_some (some _) = true

-- `Path::is_absolute` on Unix.
unfoldable pub is_absolute : Text → Bool
is_absolute path = starts_with_char b'/' path

unfoldable pub issuer_refused : (issuer : Text) → Url → Bool
issuer_refused issuer url =
    not (text_eq url.scheme (text "https"))
    || not (is_some url.host_str)
    || not (text_eq url.path (text "/"))
    || is_some url.query
    || is_some url.fragment
    || ends_with_char b'/' issuer

module _ (platform : Platform) where
  unfoldable pub resource_refused : (issuer resource : Url) → Bool
  resource_refused issuer resource =
      not (text_eq resource.scheme (text "https"))
      || not (is_some resource.host_str)
      || is_some resource.query
      || is_some resource.fragment
      || not (platform.same_origin resource issuer)

  unfoldable pub validate : OAuthConfig → Result ConfigError (Unit {0})
  validate oauth = do
    issuer ← ok_or (platform.parse_url oauth.issuer) invalid_oauth_issuer
    reject_if (issuer_refused oauth.issuer issuer) invalid_oauth_issuer
    resource ← ok_or (platform.parse_url oauth.resource) invalid_oauth_resource
    reject_if (resource_refused issuer resource) invalid_oauth_resource
    reject_if (ltb (byte_len oauth.owner_secret) 20) (weak_secret (text "OAUTH_OWNER_SECRET"))
    reject_if (ltb (byte_len oauth.signing_key) 32) (weak_secret (text "OAUTH_SIGNING_KEY"))
    reject_if (not (is_absolute oauth.refresh_state_dir)) invalid_oauth_state_dir

-- The part of `from_lookup` that reads the settings of OAuth.
unfoldable pub read_oauth : Lookup → Result ConfigError OAuthConfig
read_oauth lookup = do
  issuer ← required lookup (text "OAUTH_ISSUER")
  resource ← required lookup (text "OAUTH_RESOURCE")
  owner_secret ← required lookup (text "OAUTH_OWNER_SECRET")
  signing_key ← required lookup (text "OAUTH_SIGNING_KEY")
  access_ttl ← parse_u64 lookup (text "OAUTH_ACCESS_TOKEN_TTL_SECONDS") 900 60 3_600
  code_ttl ← parse_u64 lookup (text "OAUTH_AUTHORIZATION_CODE_TTL_SECONDS") 300 60 600
  state_dir ← required lookup (text "OAUTH_STATE_DIR")
  refresh_ttl ← parse_u64 lookup (text "OAUTH_REFRESH_TOKEN_TTL_SECONDS") 1_209_600 60 2_592_000
  ok (record {
    issuer = issuer;
    resource = resource;
    owner_secret = owner_secret;
    signing_key = signing_key;
    access_token_ttl_seconds = access_ttl;
    authorization_code_ttl_seconds = code_ttl;
    refresh_state_dir = state_dir;
    refresh_token_ttl_seconds = refresh_ttl;
  })

-- The part that reads the settings of the inbox, when it has a root.
unfoldable pub read_inbox_at : Lookup → (root : Text) → Result ConfigError (Option InboxConfig)
read_inbox_at lookup root = do
  reject_if (not (is_absolute root)) invalid_inbox_root
  writes_per_hour ← parse_u32 lookup (text "INBOX_WRITES_PER_HOUR") 10 1 100
  max_note_bytes ← parse_usize lookup (text "INBOX_MAX_NOTE_BYTES") 32_768 1_024 32_768
  max_total_bytes ← parse_u64 lookup (text "INBOX_MAX_TOTAL_BYTES") 8_388_608 65_536 67_108_864
  ok (
      some (record {
        root = root;
        writes_per_hour = writes_per_hour;
        max_note_bytes = max_note_bytes;
        max_total_bytes = max_total_bytes;
      }))

unfoldable pub read_inbox : Lookup → Result ConfigError (Option InboxConfig)
read_inbox lookup = elim (optional lookup (text "INBOX_ROOT")) [
  | none ↦ ok none
  | some root ↦ read_inbox_at lookup root
]

-- `optional(..).map(parse_set).unwrap_or_default()`.
unfoldable pub set_or_empty : Option Text → TextSet
set_or_empty none = []
set_or_empty (some value) = parse_set value

-- The part that reads the limits of reads, searches and requests.
pub record Limits : Type 0 where
  pub max_read_bytes : ℕ
  pub max_search_response_bytes : ℕ
  pub max_search_file_bytes : ℕ
  pub rate_limit_per_minute : ℕ
  pub rate_limit_burst : ℕ

unfoldable pub read_limits : Lookup → Result ConfigError Limits
read_limits lookup = do
  max_read ← parse_usize lookup (text "MAX_READ_BYTES") 65_536 8_192 262_144
  max_response ← parse_usize lookup (text "MAX_SEARCH_RESPONSE_BYTES") 24_576 8_192 65_536
  max_file ← parse_usize lookup (text "MAX_SEARCH_FILE_BYTES") 1_048_576 max_read (4 * 1024 * 1024)
  per_minute ← parse_u32 lookup (text "RATE_LIMIT_PER_MINUTE") 60 1 600
  burst ← parse_u32 lookup (text "RATE_LIMIT_BURST") 10 1 per_minute
  ok (record {
    max_read_bytes = max_read;
    max_search_response_bytes = max_response;
    max_search_file_bytes = max_file;
    rate_limit_per_minute = per_minute;
    rate_limit_burst = burst;
  })

module _ (platform : Platform) where
  unfoldable pub from_lookup : Lookup → Result ConfigError Config
  from_lookup lookup = do
    kb_root ← required lookup (text "KB_ROOT")
    reject_if (not (platform.is_dir kb_root)) invalid_kb_root
    public_dirs ← parse_directory_set lookup (text "KB_PUBLIC_DIRS") default_kb_public_dirs
    private_dirs ← parse_directory_set lookup (text "KB_PRIVATE_DIRS") default_kb_private_dirs
    directories ← scope_directories public_dirs private_dirs
    key_a ← required lookup (text "KB_KEY_A")
    key_b ← required lookup (text "KB_KEY_B")
    reject_if (text_eq key_a key_b) duplicate_keys
    bind_addr ←
        ok_or
          (platform.parse_address
            (value_or (optional lookup (text "MCP_BIND_ADDR")) default_bind_addr))
          invalid_bind_address
    hosts ← required lookup (text "MCP_ALLOWED_HOSTS")
    let allowed_hosts = parse_set hosts
    reject_if (is_empty allowed_hosts) missing_allowed_hosts
    let allowed_origins = set_or_empty (optional lookup (text "ALLOWED_ORIGINS"))
    limits ← read_limits lookup
    oauth ← read_oauth lookup
    validate platform oauth
    inbox ← read_inbox lookup
    ok (record {
      kb_root = kb_root;
      directories = directories;
      key_a = key_a;
      key_b = key_b;
      bind_addr = bind_addr;
      allowed_hosts = allowed_hosts;
      allowed_origins = allowed_origins;
      max_read_bytes = limits.max_read_bytes;
      max_search_response_bytes = limits.max_search_response_bytes;
      max_search_file_bytes = limits.max_search_file_bytes;
      rate_limit_per_minute = limits.rate_limit_per_minute;
      rate_limit_burst = limits.rate_limit_burst;
      oauth = oauth;
      inbox = inbox;
    })
