-- ===== src/Server.antt =====
-- The tools of src/server.rs: `KnowledgeBaseServer`. The crate `rmcp` calls them by their name with
-- parsed arguments, and what a tool writes to the audit log is part of its answer. The structure of
-- an answer stands for its JSON, into which serde_json always turns it.
pub mod Answers
pub mod Hidden
pub mod Keeps
use engram_mcp.Common.{
  ℕ, ◌-◌, Bool, true, false, not, ◌&&◌, ◌||◌, Option, none, some, List, [], ◌∷◌, Text, text,
  text_eq, byte_len, if◌then◌else◌, Result, ok, err, ◌>>=◌, ok_or,
}
use engram_mcp.Auth.Access.{AccessScope, allows_private}
use engram_mcp.Auth.Limits.{Floats, WriteRateLimiter, check_write}
use engram_mcp.Documents.Id
use engram_mcp.Documents.Id.{StoreError, not_found, invalid_query}
use engram_mcp.Documents.Read.{DocumentStore, Disk, FetchedDocument, read}
use engram_mcp.Documents.Search.{Tools, SearchResponse, search}
use engram_mcp.Inbox.Calendar.{SystemTime}
use engram_mcp.Inbox.Checks.{
  InboxError, invalid_title, invalid_body, invalid_occurred, note_too_large, quota_exceeded,
}
use engram_mcp.Inbox.Render.{NoteFrontMatter}
use engram_mcp.Inbox.Create.{Directory, InboxStore, CreatedNote, System, create_note}
use engram_mcp.Server.Answers.{
  FetchMetadata, FetchResponse, AppendNoteResponse, ErrorData, CallToolResult, AuditEvent, Answer,
  AuditContext, Parts, Arguments, fetch_response, append_note_response, tool_not_found,
  append_note_name, request_context, request_scope, event, write_event, answer, search_answer,
  fetch_answer, refusal, append_answer, search_response_wrapper_bytes, fail, invalid_params,
  structured_error,
}

module _ (floats : Floats) where
  pub record InboxSupport : Type 0 where
    pub store : InboxStore
    pub limiter : WriteRateLimiter floats

  pub record KnowledgeBaseServer : Type 0 where
    pub store : DocumentStore
    pub max_search_response_bytes : ℕ
    pub inbox : Option InboxSupport

  -- The limiter and the directory that it guards are what a call can change.
  pub record State : Type 0 where
    pub server : KnowledgeBaseServer
    pub directory : Directory

  unfoldable pub append_note_is_visible : KnowledgeBaseServer → Option AccessScope → Bool
  append_note_is_visible server none = false
  append_note_is_visible server (some scope) = elim server.inbox [
    | none ↦ false
    | some _ ↦ allows_private scope
  ]

  -- What a call reads beside its request: the crates, the file system, and the clocks. What the
  -- router of `rmcp` answers for a name that it does not have is `unknown_tool`.
  pub record Surroundings : Type 0 where
    pub tools : Tools
    pub disk : Disk
    pub to_yaml : NoteFrontMatter → Option Text
    pub system : System
    pub unknown_tool : Text → ErrorData
    pub instant : ℕ
    pub now : SystemTime

  module _ (env : Surroundings) where
    unfoldable pub search_tool :
        State → Option Parts → (query : Text) (limit : Option ℕ) → Answer × State
    search_tool state context query limit = elim (request_context context) [
      | err e ↦ (fail e, state)
      | ok (scope, audit) ↦ (
        search_answer audit.request_id (
            search env.tools state.server.store env.disk scope query limit
              (state.server.max_search_response_bytes - search_response_wrapper_bytes)),
        state,
      )
    ]

    unfoldable pub fetch_tool : State → Option Parts → (id : Text) → Answer × State
    fetch_tool state context id = elim (request_context context) [
      | err e ↦ (fail e, state)
      | ok (scope, audit) ↦ elim (Id.parse id) [
        | err _ ↦ (fail (invalid_params (text "invalid document id")), state)
        | ok parsed ↦ (
          fetch_answer audit.request_id parsed (read state.server.store env.disk scope parsed),
          state,
        )
      ]
    ]

    unfoldable pub with_limiter : State → InboxSupport → WriteRateLimiter floats → State
    with_limiter state inbox limiter = record {
      server = record {
        store = state.server.store;
        max_search_response_bytes = state.server.max_search_response_bytes;
        inbox = some (record { store = inbox.store; limiter = limiter });
      };
      directory = state.directory;
    }

    unfoldable pub write_tool :
        State → InboxSupport → AuditContext → (title body : Text) → Option Text → Answer × State
    write_tool state inbox audit title body occurred =
        let (allowed, limiter) = check_write floats env.instant inbox.limiter in
        let checked = with_limiter state inbox limiter in
        let (directory, result) =
          create_note env.to_yaml inbox.store env.system
            (record {
              title = title;
              body = body;
              occurred = occurred;
              fingerprint = audit.credential_fingerprint;
            })
            env.now state.directory in
        if allowed
        then (
          append_answer audit.request_id inbox.store.max_note_bytes (byte_len body) result,
          record { server = checked.server; directory = directory },
        )
        else (
          answer (write_event (text "rate_limited") none (byte_len body))
              (ok (structured_error (text "rate_limited") none)),
          checked,
        )

    unfoldable pub append_note_tool :
        State → Option Parts → (title body : Text) → Option Text → Answer × State
    append_note_tool state context title body occurred = elim (request_context context) [
      | err e ↦ (fail e, state)
      | ok (scope, audit) ↦ elim state.server.inbox [
        | none ↦ (fail tool_not_found, state)
        | some inbox ↦
            if allows_private scope
            then write_tool state inbox audit title body occurred
            else (fail tool_not_found, state)
      ]
    ]

    unfoldable pub with_arguments :
        {A : Type 0} → State → Result ErrorData A → (A → Answer × State) → Answer × State
    with_arguments state parsed tool = elim parsed [
      | err e ↦ (fail e, state)
      | ok arguments ↦ tool arguments
    ]

    -- The router of `rmcp`, which parses the arguments for the tool of the name.
    unfoldable pub route : State → Option Parts → (name : Text) → Arguments → Answer × State
    route state context name arguments =
        if text_eq name (text "search")
        then with_arguments state arguments.as_search (λ a. search_tool state context a.0 a.1)
        else if text_eq name (text "fetch")
        then with_arguments state arguments.as_fetch (fetch_tool state context)
        else if text_eq name append_note_name
        then with_arguments state arguments.as_append_note
            (λ a. append_note_tool state context a.0 a.1 a.2)
        else (fail (env.unknown_tool name), state)

    unfoldable pub call_tool : State → Option Parts → (name : Text) → Arguments → Answer × State
    call_tool state context name arguments =
        if text_eq name append_note_name
          && not (append_note_is_visible state.server (request_scope context))
        then (fail tool_not_found, state)
        else route state context name arguments

  -- The names that `list_tools` gives.
  unfoldable pub list_tools : KnowledgeBaseServer → Option Parts → List Text
  list_tools server context =
      text "search"
      ∷ text "fetch"
      ∷ (if append_note_is_visible server (request_scope context)
          then append_note_name ∷ []
          else [])
