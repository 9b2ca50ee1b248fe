-- ===== src/Samples/ConfigExamples.antt =====
-- The theorem on src/config.rs, at an environment.
use engram_mcp.Config.Values.{
  insert_directories, join, non_empty, optional, parse_digits, parse_directory_set, parse_in_range,
  parse_or, parse_set, parse_u32, parse_u64, parse_unsigned, parse_usize, required, split, value_or,
}
use engram_mcp.Common.{
  byte_len, ends_with_char, has_char, is_ascii_digit, is_whitespace, len_utf8, starts_with_char,
  trim, trim_end, trim_start,
}
use engram_mcp.Directories.{directories_refused, is_safe_top_level_directory, scope_directories}
use engram_mcp.TextSet.{contains, from_list, insert, text_lt}
use engram_mcp.Config.Load.{
  is_absolute, issuer_refused, read_inbox, read_inbox_at, read_limits, read_oauth, resource_refused,
  set_or_empty, validate,
}
use engram_mcp.Common.{
  ◌≡◌, refl, true, Option, none, some, List, [], ◌∷◌, Text, text, text_eq, if◌then◌else◌, ok,
}
use engram_mcp.Config.Values.{Lookup}
use engram_mcp.Config.Load.{Config, Platform, from_lookup}
use engram_mcp.Config.Load.Checked.{IsSound, from_lookup-IsSound}

abbrev find : List (Text × Text) → Text → Option Text
find [] key = none
find ((name, value) ∷ rest) key = if text_eq name key then some value else find rest key

abbrev lookup : Lookup
lookup = find (
    (text "KB_ROOT", text "/kb")
    ∷ (text "KB_KEY_A", text "tech-key")
    ∷ (text "KB_KEY_B", text "private-key")
    ∷ (text "MCP_ALLOWED_HOSTS", text "engram.test")
    ∷ (text "OAUTH_ISSUER", text "https://engram.test")
    ∷ (text "OAUTH_RESOURCE", text "https://engram.test/mcp")
    ∷ (text "OAUTH_OWNER_SECRET", text "owner-secret-for-the-test")
    ∷ (text "OAUTH_SIGNING_KEY", text "signing-key-for-the-test-of-32-bytes")
    ∷ (text "OAUTH_STATE_DIR", text "/state")
    ∷ (text "INBOX_ROOT", text "/inbox")
    ∷ (text "INBOX_WRITES_PER_HOUR", text "20")
    ∷ [])

abbrev platform : Platform
platform = record {
  parse_url = λ t. some (record {
    scheme = text "https";
    host_str = some (text "engram.test");
    path = text "/";
    query = none;
    fragment = none;
  });
  same_origin = λ a b. true;
  parse_address = some;
  is_dir = λ t. true;
}

abbrev config : Config
config = record {
  kb_root = text "/kb";
  directories = record {
    public = text "10_tech" ∷ text "20_projects" ∷ [];
    private_dirs = text "90_private" ∷ [];
  };
  key_a = text "tech-key";
  key_b = text "private-key";
  bind_addr = text "0.0.0.0:8080";
  allowed_hosts = text "engram.test" ∷ [];
  allowed_origins = [];
  max_read_bytes = 65_536;
  max_search_response_bytes = 24_576;
  max_search_file_bytes = 1_048_576;
  rate_limit_per_minute = 60;
  rate_limit_burst = 10;
  oauth = record {
    issuer = text "https://engram.test";
    resource = text "https://engram.test/mcp";
    owner_secret = text "owner-secret-for-the-test";
    signing_key = text "signing-key-for-the-test-of-32-bytes";
    access_token_ttl_seconds = 900;
    authorization_code_ttl_seconds = 300;
    refresh_state_dir = text "/state";
    refresh_token_ttl_seconds = 1_209_600;
  };
  inbox = some (record {
    root = text "/inbox";
    writes_per_hour = 20;
    max_note_bytes = 32_768;
    max_total_bytes = 8_388_608;
  });
}

config_run : from_lookup platform lookup ≡ ok config
unfolding from_lookup required text_eq trim parse_directory_set insert_directories split value_or
    optional join is_safe_top_level_directory byte_len starts_with_char has_char insert
    scope_directories directories_refused ends_with_char is_ascii_digit is_whitespace len_utf8
    trim_end trim_start is_absolute issuer_refused read_inbox read_inbox_at read_limits read_oauth
    resource_refused set_or_empty validate non_empty parse_digits parse_in_range parse_or parse_set
    parse_u32 parse_u64 parse_unsigned parse_usize contains from_list text_lt
config_run = refl

from_lookup-IsSound_example : IsSound lookup config
from_lookup-IsSound_example = from_lookup-IsSound platform lookup config config_run
