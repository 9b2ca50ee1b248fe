-- ===== src/Server/Answers.antt =====
-- What a request gives to the tools of src/server.rs, and what they answer and record.
use engram_mcp.Common.{
  ℕ, Bool, Option, none, some, List, [], ◌∷◌, Text, text, Result, ok, err, ◌>>=◌, ok_or,
}
use engram_mcp.Auth.Access.{AccessScope}
use engram_mcp.Documents.Id.{StoreError, not_found, invalid_query}
use engram_mcp.Documents.Read.{FetchedDocument}
use engram_mcp.Documents.Search.{SearchResponse}
use engram_mcp.Inbox.Checks.{
  InboxError, invalid_title, invalid_body, invalid_occurred, note_too_large, quota_exceeded,
}
use engram_mcp.Inbox.Create.{CreatedNote}

pub record FetchMetadata : Type 0 where
  pub path : Text
  pub description : Text
  pub updated : Option Text

pub record FetchResponse : Type 0 where
  pub id : Text
  pub title : Text
  pub contents : Text
  pub metadata : FetchMetadata
  pub truncated : Bool

pub record AppendNoteResponse : Type 0 where
  pub id : Text
  pub created : Text
  pub bytes : ℕ

-- `ErrorData` of the crate `rmcp`, and what a tool answers: a structure, or an error as a structure.
pub data ErrorData : Type 0 where
  invalid_params internal_failure : (message : Text) → ErrorData

pub data CallToolResult : Type 0 where
  searched : SearchResponse → CallToolResult
  fetched : FetchResponse → CallToolResult
  appended : AppendNoteResponse → CallToolResult
  structured_error : (code : Text) (max_bytes : Option ℕ) → CallToolResult
  internal_error : (request_id : ℕ) → CallToolResult

-- What `audit::tool` and `audit::tool_write` record.
pub record AuditEvent : Type 0 where
  pub operation : Text
  pub outcome : Text
  pub document_id : Option Text
  pub bytes : Option ℕ

pub record Answer : Type 0 where
  pub events : List AuditEvent
  pub result : Result ErrorData CallToolResult

-- The extensions that the middleware gave to the request.
pub record AuditContext : Type 0 where
  pub request_id : ℕ
  pub credential_fingerprint : Text
  pub scope : AccessScope

pub record Parts : Type 0 where
  pub scope : Option AccessScope
  pub audit : Option AuditContext

-- What `rmcp` makes of the arguments of a request for each of the tools.
pub record Arguments : Type 0 where
  pub as_search : Result ErrorData (Text × Option ℕ)
  pub as_fetch : Result ErrorData Text
  pub as_append_note : Result ErrorData (Text × Text × Option Text)

unfoldable pub fetch_response : FetchedDocument → FetchResponse
fetch_response document = record {
  id = document.id;
  title = document.metadata.title;
  contents = document.contents;
  metadata = record {
    path = document.id;
    description = document.metadata.description;
    updated = document.metadata.updated;
  };
  truncated = document.truncated;
}

unfoldable pub append_note_response : CreatedNote → AppendNoteResponse
append_note_response note = record { id = note.id; created = note.created; bytes = note.bytes }

abbrev pub tool_not_found : ErrorData
tool_not_found = invalid_params (text "tool not found")

abbrev pub append_note_name : Text
append_note_name = text "append_note"

unfoldable pub request_context : Option Parts → Result ErrorData (AccessScope × AuditContext)
request_context context = do
  parts ← ok_or context (internal_failure (text "request context unavailable"))
  scope ← ok_or parts.scope (internal_failure (text "authorization context unavailable"))
  audit ← ok_or parts.audit (internal_failure (text "audit context unavailable"))
  ok (scope, audit)

unfoldable pub request_scope : Option Parts → Option AccessScope
request_scope none = none
request_scope (some parts) = parts.scope

abbrev pub event : (operation outcome : Text) → Option Text → AuditEvent
event operation outcome document_id = record {
  operation = operation;
  outcome = outcome;
  document_id = document_id;
  bytes = none;
}

abbrev pub write_event : (outcome : Text) → Option Text → (bytes : ℕ) → AuditEvent
write_event outcome document_id bytes = record {
  operation = append_note_name;
  outcome = outcome;
  document_id = document_id;
  bytes = some bytes;
}

abbrev pub answer : AuditEvent → Result ErrorData CallToolResult → Answer
answer e result = record { events = e ∷ []; result = result }

unfoldable pub search_answer : (request_id : ℕ) → Result StoreError SearchResponse → Answer
search_answer request_id (ok response) =
    answer (event (text "search") (text "ok") none) (ok (searched response))
search_answer request_id (err invalid_query) =
    answer (event (text "search") (text "invalid_query") none)
      (err (invalid_params (text "invalid search query")))
search_answer request_id (err _) =
    answer (event (text "search") (text "internal_error") none) (ok (internal_error request_id))

unfoldable pub fetch_answer :
    (request_id : ℕ) (id : Text) → Result StoreError FetchedDocument → Answer
fetch_answer request_id id (ok document) =
    answer (event (text "fetch") (text "ok") (some id)) (ok (fetched (fetch_response document)))
fetch_answer request_id id (err not_found) =
    answer (event (text "fetch") (text "not_found") (some id))
      (ok (structured_error (text "not_found") none))
fetch_answer request_id id (err _) =
    answer (event (text "fetch") (text "internal_error") (some id)) (ok (internal_error request_id))

-- The name of a refusal in the audit log, and the answer.
unfoldable pub refusal :
    (request_id max_note_bytes : ℕ) → InboxError → Text × Result ErrorData CallToolResult
refusal request_id max invalid_title =
    (text "invalid_title", err (invalid_params (text "invalid note title")))
refusal request_id max invalid_body =
    (text "invalid_body", err (invalid_params (text "invalid note body")))
refusal request_id max invalid_occurred =
    (text "invalid_occurred", err (invalid_params (text "invalid occurred date; use YYYY-MM-DD")))
refusal request_id max note_too_large =
    (text "note_too_large", ok (structured_error (text "note_too_large") (some max)))
refusal request_id max quota_exceeded =
    (text "quota_exceeded", ok (structured_error (text "quota_exceeded") none))
refusal request_id max _ = (text "internal_error", ok (internal_error request_id))

unfoldable pub append_answer :
    (request_id max_note_bytes attempted : ℕ) → Result InboxError CreatedNote → Answer
append_answer request_id max attempted (ok note) =
    answer (write_event (text "ok") (some note.id) note.bytes)
      (ok (appended (append_note_response note)))
append_answer request_id max attempted (err e) =
    let (outcome, response) = refusal request_id max e in
    answer (write_event outcome none attempted) response

abbrev pub search_response_wrapper_bytes : ℕ
search_response_wrapper_bytes = 1_024

abbrev pub fail : ErrorData → Answer
fail e = record { events = []; result = err e }
