-- ===== src/Samples/ServerExamples.antt =====
-- The theorems on src/server.rs, at a server with an inbox and a caller with the tech scope.
use engram_mcp.Common.{◌≡◌, refl, false, some, [], ◌∷◌, Option, Text, text, text_eq, ok, err}
use engram_mcp.HashMap
use engram_mcp.HashMap.{text_key}
use engram_mcp.Auth.Access.{tech, private, allows_private}
use engram_mcp.Auth.Limits.{new_write_limiter}
use engram_mcp.Inbox.Create.{other}
use engram_mcp.Server.Answers.{invalid_params, Parts, Arguments, request_scope, append_note_name}
use engram_mcp.Server.{Surroundings, State, append_note_is_visible, call_tool, list_tools}
use engram_mcp.Server.Hidden.{call_tool-hidden}
use engram_mcp.Server.Keeps.{call_tool-keeps}
use engram_mcp.Samples.AuthExamples.{whole}
use engram_mcp.Samples.NoteExamples
use engram_mcp.Samples.SearchExamples

abbrev env : Surroundings whole
env = record {
  tools = SearchExamples.tools;
  disk = SearchExamples.disk;
  to_yaml = NoteExamples.to_yaml;
  system = NoteExamples.sys;
  unknown_tool = λ name. invalid_params (text "tool not found");
  instant = 5;
  now = NoteExamples.now;
}

abbrev state : State whole
state = record {
  server = record {
    store = SearchExamples.store;
    max_search_response_bytes = 24_576;
    inbox = some (record { store = NoteExamples.store; limiter = new_write_limiter whole 10 0 });
  };
  directory = NoteExamples.before;
}

abbrev context : Option Parts
context = some (record {
  scope = some tech;
  audit = some (record { request_id = 1; credential_fingerprint = text "ab"; scope = tech });
})

abbrev owner : Option Parts
owner = some (record {
  scope = some private;
  audit = some (record { request_id = 2; credential_fingerprint = text "cd"; scope = private });
})

abbrev note_arguments : Arguments
note_arguments = record {
  as_search = err (invalid_params (text "bad"));
  as_fetch = err (invalid_params (text "bad"));
  as_append_note = ok (text "Hello", text "First line.", some (text "2026-08-01"));
}

-- Arguments that no tool reads.
abbrev arguments : Arguments
arguments = record {
  as_search = err (invalid_params (text "bad"));
  as_fetch = err (invalid_params (text "bad"));
  as_append_note = err (invalid_params (text "bad"));
}

hidden : append_note_is_visible whole state.server (request_scope context) ≡ false
unfolding append_note_is_visible request_scope allows_private
hidden = refl

not_search : text_eq (text "erase") (text "search") ≡ false
unfolding text_eq
not_search = refl

not_fetch : text_eq (text "erase") (text "fetch") ≡ false
unfolding text_eq
not_fetch = refl

not_append : text_eq (text "erase") append_note_name ≡ false
unfolding text_eq
not_append = refl

link_stands : HashMap.get state.directory NoteExamples.first_name ≡ some other
unfolding HashMap.get HashMap.insert HashMap.empty text_eq
link_stands = refl

call_tool-hidden_example :
    (call_tool whole env state context append_note_name arguments
      ≡ call_tool whole env state context (text "erase") arguments)
    × (list_tools whole state.server context ≡ text "search" ∷ text "fetch" ∷ [])
    × ((name : Text) → (call_tool whole env state context name arguments).1 ≡ state)
call_tool-hidden_example =
    call_tool-hidden whole env state context (text "erase") arguments arguments refl hidden
      not_search not_fetch not_append

call_tool-keeps_example :
    HashMap.get
      (call_tool whole env state owner append_note_name note_arguments).1.directory
      NoteExamples.first_name
    ≡ some other
call_tool-keeps_example =
    call_tool-keeps whole env state owner append_note_name note_arguments NoteExamples.first_name
      other link_stands
