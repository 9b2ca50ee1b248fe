-- ===== src/Server/Keeps.antt =====
-- What the calls of src/server.rs leave in the inbox.
use engram_mcp.Common.{
  ◌≡◌, refl, inl, inr, true, Option, some, Text, text, text_eq, Result, ok, err, Bool-cases,
  Option-cases, Result-cases,
}
use engram_mcp.Auth.Access.{allows_private}
use engram_mcp.Auth.Limits.{Floats, check_write}
use engram_mcp.HashMap.{get, text_key}
use engram_mcp.Inbox.Create.{Entry}
use engram_mcp.Inbox.Create.Writes.{create_note-keeps}
use engram_mcp.Server.Answers.{
  ErrorData, Answer, AuditContext, Parts, Arguments, append_note_name, request_context,
  request_scope,
}
use engram_mcp.Server.{
  with_limiter, InboxSupport, State, append_note_is_visible, Surroundings, write_tool,
  append_note_tool, with_arguments, route, call_tool,
}
use engram_mcp.Server.Hidden.{search_tool-state, fetch_tool-state, call_tool-state}

module _ (floats : Floats) (env : Surroundings floats) where
  write_tool-keeps :
      (state : State floats) (inbox : InboxSupport floats) (audit : AuditContext)
      (title body : Text) (occurred : Option Text) (name : Text) (entry : Entry)
      → get state.directory name ≡ some entry
      → get (write_tool floats env state inbox audit title body occurred).1.directory name
        ≡ some entry
  unfolding write_tool with_limiter
  write_tool-keeps state inbox audit title body occurred name entry h =
      elim (Bool-cases (check_write floats env.instant inbox.limiter).0) [
        | inl e ↦
            rw (e, write_tool)
              (create_note-keeps env.to_yaml inbox.store env.system _ env.now state.directory name
                entry h)
        | inr e ↦ rw (e, write_tool) h
      ]

  append_note_tool-keeps :
      (state : State floats) (context : Option Parts) (title body : Text) (occurred : Option Text)
      (name : Text) (entry : Entry)
      → get state.directory name ≡ some entry
      → get (append_note_tool floats env state context title body occurred).1.directory name
        ≡ some entry
  unfolding append_note_tool
  append_note_tool-keeps state context title body occurred name entry h =
      elim (Result-cases (request_context context)) [
        | inr (x, e) ↦ rw (e, append_note_tool) h
        | inl (a, e) ↦ elim (Option-cases state.server.inbox) [
          | inl f ↦ rw (e, f, append_note_tool) h
          | inr (inbox, f) ↦ elim (Bool-cases (allows_private a.0)) [
            | inl g ↦
                rw (e, f, g, append_note_tool)
                  (write_tool-keeps state inbox a.1 title body occurred name entry h)
            | inr g ↦ rw (e, f, g, append_note_tool) h
          ]
        ]
      ]

  with_arguments-keeps :
      {A : Type 0} (state : State floats) (parsed : Result ErrorData A)
      (tool : A → Answer × State floats) (name : Text) (entry : Entry)
      → get state.directory name ≡ some entry
      → ((a : A) → get (tool a).1.directory name ≡ some entry)
      → get (with_arguments floats env state parsed tool).1.directory name ≡ some entry
  unfolding with_arguments
  with_arguments-keeps state (ok a) tool name entry h k = k a
  with_arguments-keeps state (err e) tool name entry h k = h

  seen-call_tool :
      (state : State floats) (context : Option Parts) (name : Text) (arguments : Arguments)
      → append_note_is_visible floats state.server (request_scope context) ≡ true
      → call_tool floats env state context name arguments
        ≡ route floats env state context name arguments
  unfolding call_tool
  seen-call_tool state context name arguments seen =
      elim (Bool-cases (text_eq name append_note_name)) [
        | inl e ↦ rw (seen, e, call_tool) refl
        | inr e ↦ rw (seen, e, call_tool) refl
      ]

  route-keeps :
      (state : State floats) (context : Option Parts) (tool : Text) (arguments : Arguments)
      (name : Text) (entry : Entry)
      → get state.directory name ≡ some entry
      → get (route floats env state context tool arguments).1.directory name ≡ some entry
  unfolding route
  route-keeps state context tool arguments name entry h =
      elim (Bool-cases (text_eq tool (text "search"))) [
        | inl f ↦
            rw (f, route)
              (with_arguments-keeps state arguments.as_search _ name entry h
                (λ a. rw (search_tool-state floats env state context a.0 a.1) h))
        | inr f ↦ elim (Bool-cases (text_eq tool (text "fetch"))) [
          | inl g ↦
              rw (f, g, route)
                (with_arguments-keeps state arguments.as_fetch _ name entry h
                  (λ a. rw (fetch_tool-state floats env state context a) h))
          | inr g ↦ elim (Bool-cases (text_eq tool append_note_name)) [
            | inl k ↦
                rw (f, g, k, route)
                  (with_arguments-keeps state arguments.as_append_note _ name entry h
                    (λ a. append_note_tool-keeps state context a.0 a.1 a.2 name entry h))
            | inr k ↦ rw (f, g, k, route) h
          ]
        ]
      ]

  -- Whatever tool is called, by whatever caller and with whatever arguments, each name that stood
  -- for something in the inbox stands for the same thing after the call.
  pub call_tool-keeps :
      (state : State floats) (context : Option Parts) (tool : Text) (arguments : Arguments)
      (name : Text) (entry : Entry)
      → get state.directory name ≡ some entry
      → get (call_tool floats env state context tool arguments).1.directory name ≡ some entry
  call_tool-keeps state context tool arguments name entry h =
      elim (Bool-cases (append_note_is_visible floats state.server (request_scope context))) [
        | inr hidden ↦ rw (call_tool-state floats env state context tool arguments hidden) h
        | inl seen ↦
            rw (seen-call_tool state context tool arguments seen)
              (route-keeps state context tool arguments name entry h)
      ]
