-- ===== src/Samples/InboxExamples.antt =====
-- The theorems on src/inbox.rs at a title and a file name.
use engram_mcp.Common.{◌≡◌, refl, true, text, is_control, trim, ok}
use engram_mcp.Common.{
  is_whitespace, trim_start, trim_end, byte_len, len_utf8, starts_with_char, ends_with, text_eq,
  is_ascii_lowercase, is_ascii_digit,
}
use engram_mcp.Inbox.Checks.{normalize_title, is_safe_file_name, is_name_byte}

title_runs : normalize_title (text " Hello, world! ") ≡ ok (text "Hello, world!")
unfolding normalize_title trim trim_start trim_end is_whitespace is_control
title_runs = refl

name_runs : is_safe_file_name (text "2026-01-02-030405-hello.md") ≡ true
unfolding is_safe_file_name is_name_byte byte_len len_utf8 starts_with_char ends_with text_eq
    is_ascii_lowercase is_ascii_digit
name_runs = refl
