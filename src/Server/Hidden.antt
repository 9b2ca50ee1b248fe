-- ===== src/Server/Hidden.antt =====
-- What callers of src/server.rs that may not write can see and change.
use engram_mcp.Common.{
  ℕ, ◌≡◌, refl, ap, sym, ◌∙◌, inl, inr, false, Option, [], ◌∷◌, Text, text, text_eq, text_eq_refl,
  Result, ok, err, Bool-cases, Result-cases,
}
use engram_mcp.Auth.Limits.{Floats}
use engram_mcp.HashMap.{text_key}
use engram_mcp.Documents.Id
use engram_mcp.Server.Answers.{
  ErrorData, Answer, Parts, Arguments, tool_not_found, invalid_params, append_note_name,
  request_context, request_scope, fail,
}
use engram_mcp.Server.{
  State, append_note_is_visible, Surroundings, search_tool, fetch_tool, with_arguments, route,
  call_tool, list_tools,
}

module _ (floats : Floats) (env : Surroundings floats) where
  pub search_tool-state :
      (state : State floats) (context : Option Parts) (query : Text) (limit : Option ℕ)
      → (search_tool floats env state context query limit).1 ≡ state
  unfolding search_tool
  search_tool-state state context query limit = elim (Result-cases (request_context context)) [
    | inl (a, e) ↦ rw (e, search_tool) refl
    | inr (x, e) ↦ rw (e, search_tool) refl
  ]

  pub fetch_tool-state :
      (state : State floats) (context : Option Parts) (id : Text)
      → (fetch_tool floats env state context id).1 ≡ state
  unfolding fetch_tool
  fetch_tool-state state context id = elim (Result-cases (request_context context)) [
    | inr (x, e) ↦ rw (e, fetch_tool) refl
    | inl (a, e) ↦ elim (Result-cases (Id.parse id)) [
      | inl (p, f) ↦ rw (e, f, fetch_tool) refl
      | inr (x, f) ↦ rw (e, f, fetch_tool) refl
    ]
  ]

  with_arguments-state :
      {A : Type 0} (state : State floats) (parsed : Result ErrorData A)
      (tool : A → Answer × State floats)
      → ((a : A) → (tool a).1 ≡ state)
      → (with_arguments floats env state parsed tool).1 ≡ state
  unfolding with_arguments
  with_arguments-state state (ok a) tool h = h a
  with_arguments-state state (err e) tool h = refl

  pub call_tool-state :
      (state : State floats) (context : Option Parts) (name : Text) (arguments : Arguments)
      → append_note_is_visible floats state.server (request_scope context) ≡ false
      → (call_tool floats env state context name arguments).1 ≡ state
  unfolding call_tool route
  call_tool-state state context name arguments hidden =
      elim (Bool-cases (text_eq name append_note_name)) [
        | inl e ↦ rw (hidden, e, call_tool) refl
        | inr e ↦ elim (Bool-cases (text_eq name (text "search"))) [
          | inl f ↦
              rw (e, f, call_tool, route)
                (with_arguments-state state arguments.as_search _
                  (λ a. search_tool-state state context a.0 a.1))
          | inr f ↦ elim (Bool-cases (text_eq name (text "fetch"))) [
            | inl g ↦
                rw (e, f, g, call_tool, route)
                  (with_arguments-state state arguments.as_fetch _ (fetch_tool-state state context))
            | inr g ↦ rw (e, f, g, call_tool, route) refl
          ]
        ]
      ]

  unknown-call_tool :
      (state : State floats) (context : Option Parts) (name : Text) (arguments : Arguments)
      → text_eq name (text "search") ≡ false
      → text_eq name (text "fetch") ≡ false
      → text_eq name append_note_name ≡ false
      → call_tool floats env state context name arguments ≡ (fail (env.unknown_tool name), state)
  unfolding call_tool route
  unknown-call_tool state context name arguments e f g = rw (e, f, g, call_tool, route) refl

  hidden-call_tool :
      (state : State floats) (context : Option Parts) (arguments : Arguments)
      → append_note_is_visible floats state.server (request_scope context) ≡ false
      → call_tool floats env state context append_note_name arguments ≡ (fail tool_not_found, state)
  unfolding call_tool
  hidden-call_tool state context arguments hidden =
      rw (hidden, text_eq_refl append_note_name, call_tool) refl

  -- To a caller that may not see append_note, a call of it is answered exactly as a call of a
  -- name that no tool has, with the same audit events and state, whatever the arguments of both,
  -- when the router answers such a name with invalid_params and the text "tool not found";
  -- list_tools names search and fetch alone; and no call at all changes the inbox or the write
  -- limiter.
  pub call_tool-hidden :
      (state : State floats) (context : Option Parts) (unknown : Text) (arguments other : Arguments)
      → env.unknown_tool unknown ≡ invalid_params (text "tool not found")
      → append_note_is_visible floats state.server (request_scope context) ≡ false
      → text_eq unknown (text "search") ≡ false
      → text_eq unknown (text "fetch") ≡ false
      → text_eq unknown append_note_name ≡ false
      → (call_tool floats env state context append_note_name arguments
          ≡ call_tool floats env state context unknown other)
        × (list_tools floats state.server context ≡ text "search" ∷ text "fetch" ∷ [])
        × ((name : Text) → (call_tool floats env state context name arguments).1 ≡ state)
  unfolding list_tools
  call_tool-hidden state context unknown arguments other documented hidden e f g = (
    hidden-call_tool state context arguments hidden
        ∙ ap (λ x. (fail x, state)) (sym documented)
        ∙ sym (unknown-call_tool state context unknown other e f g),
    rw (hidden, list_tools) refl,
    λ name. call_tool-state state context name arguments hidden,
  )
