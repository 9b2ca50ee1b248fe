-- ===== src/Config/Load/Checked.antt =====
-- What holds of every configuration that src/config.rs accepts.
use engram_mcp.Common.{
  ◌≡◌, ◌≢◌, true, false, not, some, text, is_empty, all, text_eq, text_eq_iff, ok, reject_if, ok_or,
  arith, on_ok, ok-inj, reject_if-eq-ok,
}
use engram_mcp.TextSet.{TextSet}
use engram_mcp.Directories.{
  invalid_kb_root, duplicate_keys, invalid_bind_address, missing_allowed_hosts, scope_directories,
  is_safe_top_level_directory,
}
use engram_mcp.Config.Values.{Lookup, required, optional, parse_set, parse_directory_set, value_or}
use engram_mcp.Config.Values.Laws.{parse_directory_set-safe}
use engram_mcp.Config.Load.{
  InboxConfig, Config, Platform, default_kb_public_dirs, default_kb_private_dirs, default_bind_addr,
  validate, read_oauth, read_inbox, read_limits, set_or_empty, from_lookup,
}
use engram_mcp.Config.Load.Ranges.{
  Within, read_limits-AreLimits, IsChecked, read_oauth-AreTtls, validate-ok, IsInbox,
  read_inbox-IsInbox,
}

-- What the other parts of the server rely on.
pub record IsSound (lookup : Lookup) (config : Config) : Type 0 where
  pub keys_differ : config.key_a ≢ config.key_b
  pub public_dirs : TextSet
  pub private_dirs : TextSet
  pub public_safe : all is_safe_top_level_directory public_dirs ≡ true
  pub private_safe : all is_safe_top_level_directory private_dirs ≡ true
  pub directories : scope_directories public_dirs private_dirs ≡ ok config.directories
  pub hosts : is_empty config.allowed_hosts ≡ false
  pub read : Within config.max_read_bytes 8_192 262_144
  pub response : Within config.max_search_response_bytes 8_192 65_536
  pub file : Within config.max_search_file_bytes config.max_read_bytes 4_194_304
  pub per_minute : Within config.rate_limit_per_minute 1 600
  pub burst : Within config.rate_limit_burst 1 config.rate_limit_per_minute
  pub oauth : IsChecked config.oauth
  pub inbox : (inbox : InboxConfig) → config.inbox ≡ some inbox → IsInbox inbox

-- Every configuration that is accepted has two different keys, safe scope directories that
-- ScopeDirectories accepts, at least one allowed host, every limit and lifetime in its range, a
-- file limit for searches not below that for reads, a burst not above the rate, secrets of the
-- required lengths, and absolute directories for the state and the inbox.
pub from_lookup-IsSound :
    (platform : Platform) (lookup : Lookup) (config : Config)
    → from_lookup platform lookup ≡ ok config
    → IsSound lookup config
unfolding from_lookup
from_lookup-IsSound platform lookup config h =
    on_ok (required lookup (text "KB_ROOT")) h (λ root _ h₁.
      on_ok (reject_if (not (platform.is_dir root)) invalid_kb_root) h₁ (λ _ _ h₂.
        on_ok (parse_directory_set lookup (text "KB_PUBLIC_DIRS") default_kb_public_dirs) h₂
          (λ p hp h₃.
            on_ok (parse_directory_set lookup (text "KB_PRIVATE_DIRS") default_kb_private_dirs) h₃
              (λ q hq h₄. on_ok (scope_directories p q) h₄ (λ d hd h₅.
                on_ok (required lookup (text "KB_KEY_A")) h₅ (λ a _ h₆.
                  on_ok (required lookup (text "KB_KEY_B")) h₆ (λ b _ h₇.
                    on_ok (reject_if (text_eq a b) duplicate_keys) h₇ (λ _ hk h₈.
                      let address =
                        platform.parse_address
                          (value_or (optional lookup (text "MCP_BIND_ADDR")) default_bind_addr) in
                      on_ok (ok_or address invalid_bind_address) h₈ (λ addr _ h₉.
                        on_ok (required lookup (text "MCP_ALLOWED_HOSTS")) h₉ (λ v _ h₁₀.
                          on_ok (reject_if (is_empty (parse_set v)) missing_allowed_hosts) h₁₀
                            (λ _ hh h₁₁. on_ok (read_limits lookup) h₁₁ (λ l hl h₁₂.
                              on_ok (read_oauth lookup) h₁₂ (λ o ho h₁₃.
                                on_ok (validate platform o) h₁₃ (λ _ hv h₁₄.
                                  on_ok (read_inbox lookup) h₁₄ (λ i hi h₁₅.
                                    let limits = read_limits-AreLimits lookup l hl in
                                    let ttls = read_oauth-AreTtls lookup o ho in
                                    let (owner, key, dir) = validate-ok platform o hv in
                                    let same : record {
                                      kb_root = root;
                                      directories = d;
                                      key_a = a;
                                      key_b = b;
                                      bind_addr = addr;
                                      allowed_hosts = parse_set v;
                                      allowed_origins =
                                          set_or_empty (optional lookup (text "ALLOWED_ORIGINS"));
                                      max_read_bytes = l.max_read_bytes;
                                      max_search_response_bytes = l.max_search_response_bytes;
                                      max_search_file_bytes = l.max_search_file_bytes;
                                      rate_limit_per_minute = l.rate_limit_per_minute;
                                      rate_limit_burst = l.rate_limit_burst;
                                      oauth = o;
                                      inbox = i;
                                    }
                                        ≡ config =
                                      ok-inj h₁₅ in
                                    rw (← same) (record {
                                      keys_differ = λ e. ground (
                                        arith,
                                        e,
                                        reject_if-eq-ok _ duplicate_keys hk,
                                        text_eq_iff a b,
                                      );
                                      public_dirs = p;
                                      private_dirs = q;
                                      public_safe = parse_directory_set-safe lookup _ _ p hp;
                                      private_safe = parse_directory_set-safe lookup _ _ q hq;
                                      directories = hd;
                                      hosts = reject_if-eq-ok _ missing_allowed_hosts hh;
                                      read = limits.read;
                                      response = limits.response;
                                      file = limits.file;
                                      per_minute = limits.per_minute;
                                      burst = limits.burst;
                                      oauth = record {
                                        access_ttl = ttls.access;
                                        code_ttl = ttls.code;
                                        refresh_ttl = ttls.refresh;
                                        owner_secret = owner;
                                        signing_key = key;
                                        state_dir = dir;
                                      };
                                      inbox = λ x e.
                                          read_inbox-IsInbox lookup x (ground (arith, hi, e));
                                    }))))))))))))))))
