-- ===== src/Lib.antt =====
-- Verification of engram-mcp, a server that gives an assistant access to a directory of notes: the
-- OAuth 2.1 authorization server in src/oauth.rs and the keys and limits in src/auth.rs, which guard
-- that access, the reading and the search of documents in src/document.rs and src/search.rs, the
-- writing of notes in src/inbox.rs, the tools in src/server.rs through which an assistant calls all
-- of these, and the configuration in src/config.rs that binds them.
--
-- The server registers clients without storing them (a client's identifier is its signed
-- registration), shows the owner an approval form, gives out single-use authorization codes for
-- approvals, exchanges codes and refresh tokens for token pairs, and authenticates access tokens.
-- Every access token names a family of refresh tokens; a family is revoked when a token of it is
-- used twice, and an access token is accepted only while its family is active.
--
-- Which file models which part of src/oauth.rs:
--   OAuth/Error       OAuthError
--   OAuth/Crates      the crates subtle, serde_json, hmac, sha2 and base64, as parameters with laws
--   OAuth/Scopes      ScopeGrant
--   OAuth/Signing     mac, sign, verify, verify_token, random_value and the hashes made with mac
--   OAuth/Families    RefreshTokenStore: open, create_family, rotate, is_active, persist
--   OAuth/Tokens      OAuthBearerAuthenticator: authenticate_bearer, issue_token_pair
--   OAuth/Clients     register_client, client_from_id, validate_redirect_uri
--   OAuth/TokenClient authenticate_client, parse_basic_credentials
--   OAuth/Pkce        valid_code_challenge, valid_code_verifier, verify_pkce
--   OAuth/Authorize   begin_authorization, validate_authorization_query
--   OAuth/Page        render_approval_page, escape_html
--   OAuth/Codes       complete_authorization, redirect_url
--   OAuth/Exchange    exchange_token, for authorization codes and for refresh tokens
-- Which file models which part of the other sources:
--   Auth/Access       AccessScope of src/auth.rs
--   Auth/Keys         Authenticator of src/auth.rs: authenticate_headers, authenticate_key
--   Auth/Limits       Bucket, RateLimiter and WriteRateLimiter of src/auth.rs
--   Directories       ScopeDirectories of src/config.rs and is_allowed of src/document.rs
--   Config/Values     required, optional, parse_set, parse_directory_set, parse_u32 of src/config.rs
--   Config/Load       Config::from_lookup and OAuthConfig::validate of src/config.rs
--   Documents/Id      DocumentId::parse of src/document.rs
--   Documents/Read    read_limited, read_utf8_limited, parse_metadata, candidate_ids of
--                     src/document.rs
--   Documents/Search  DocumentStore::search, score_document and snippet of src/search.rs
--   Inbox/Checks      what src/inbox.rs checks of a note and of a file name
--   Inbox/Slug        slug of src/inbox.rs
--   Inbox/Calendar    unix_seconds, utc_parts and civil_from_days of src/inbox.rs
--   Inbox/Names       note_file_name and rfc3339_utc of src/inbox.rs
--   Inbox/Render      render_note of src/inbox.rs
--   Inbox/Create      create_note, used_bytes and create_exclusive of src/inbox.rs
--   Server            KnowledgeBaseServer of src/server.rs: its tools, call_tool and list_tools
--   Server/Answers    request_context, the answers of the tools and their audit events
-- The theorems on a part stand in its child modules. The parts meet as in the code: a search reads
-- documents, a read asks which directories a scope may see, those come from the configuration, a
-- request is authenticated by a key or by a token of the authorization server, and a new note goes
-- through the checks, the slug, the calendar and the front matter. A tool calls one of these with the
-- scope that its request was authenticated for.
-- HashMap and TextSet stand for the standard library's HashMap and BTreeSet<String>, Utf8 for
-- std::str::from_utf8, and Common for Result, Option and the methods of str that are called.
-- Samples has a concrete server, and the theorems at a story that it runs.
--
-- How the code is read. A text is the list of its code points, and a byte string a list of numbers.
-- A method of a mutable object takes the object's state and returns the next one beside its result.
-- A reading of the clock, the bytes of one call of the random generator and the outcome of one write
-- to disk are arguments, one for each place in the code that asks. The u64 seconds are natural
-- numbers with saturating_add written out. A mutex is held through each operation, and nothing
-- panics under it, so that operations come in a sequence and a lock is never poisoned. Where a
-- function is long its stages are definitions of their own, composed as the code composes them.
-- There is no fuel: every loop runs over a list, or over a number of steps that the code fixes, such
-- as the 64 names of a note; only the decimal digits of a number n are bounded by n + 1 steps, which
-- their number never exceeds. The f64 of the limiters is a record of operations. The inbox is a map
-- from names to what they stand for; a system call answers what a parameter says, and the scan for
-- the quota sees what a parameter says, so that another writer may have come between.
--
-- Not modelled: the metadata documents of src/oauth.rs, which are constants; the opening of the
-- inbox and of the knowledge base, which checks paths of the file system; the router of the
-- crate rmcp, which parses arguments and whose answer to an unknown name is a parameter, and the
-- JSON that serde_json makes of answers; src/http.rs, routing and status codes of the crate
-- axum; src/main.rs, which is input and output, and the text of the log records of src/audit.rs,
-- of which the fields that a tool chooses are modelled.
pub mod Common
pub mod HashMap
pub mod TextSet
pub mod Utf8
pub mod Auth
pub mod OAuth
pub mod Directories
pub mod Config
pub mod Documents
pub mod Inbox
pub mod Server
pub mod Samples
