-- ===== src/Samples/FamilyExamples.antt =====
-- The theorems on refresh-token families at the story of the sample server.
use engram_mcp.Common.{
  ◌≡◌, ◌≢◌, refl, false, some, List, [], ◌∷◌, Text, text, text_eq, ok, err, if◌then◌else◌, arith,
  All, ltb,
}
use engram_mcp.HashMap.{text_key, keep_if}
use engram_mcp.OAuth.Error.{invalid_grant, invalid_configuration}
use engram_mcp.OAuth.Families.{Outcome, is_active, is_live, max_refresh_state_bytes}
use engram_mcp.OAuth.Families.Rotation.{
  family_of, IsPresented, rotate-IsPresented, create_family-ok,
}
use engram_mcp.OAuth.Families.Revocation.{
  Operation, create, rotation, perform_all, IsLater, inactive_forever,
}
use engram_mcp.OAuth.Families.Reuse.{rotate_refused, reuse_revokes}
use engram_mcp.OAuth.Families.Durability.{restart, file_size, restart_lem}
use engram_mcp.Samples.Crates.{crypto, state_codec}
use engram_mcp.Samples.Service.{initial, service, created, rotated, reused}
use engram_mcp.Samples.Runs.{answer_and_state, story}

-- A retry, and another family.
abbrev later : List Operation
later =
    rotation Outcome.succeeds (text "rf_1") (text "second") (text "fourth") 400 40
    ∷ create Outcome.rename_fails (text "rf_2") (text "other") 400 50
    ∷ []

other_family : text "rf_2" ≢ text "rf_1"
other_family = ground arith

next_token : text "second" ≢ text "first"
next_token = ground arith

later-IsLater : All (IsLater 30 (text "rf_1")) later
later-IsLater = (omega arith, ((omega arith, other_family), tt))

reused_answer : reused ≡ (err invalid_grant, reused.1)
reused_answer = ground (arith, story.reused_runs)

rotate-IsPresented_example :
    IsPresented created.1 (text "rf_1") (text "first") 20
    × ((k : Text)
        → family_of rotated.1 k ≡ (
            if text_eq (text "rf_1") k
            then some
                (record { active_token_hash = text "second"; expires_at = 200; revoked = false })
            else keep_if (is_live 20) (family_of created.1 k)))
rotate-IsPresented_example =
    rotate-IsPresented service.server.state_json crypto.subtle Outcome.succeeds (text "rf_1")
      (text "first") (text "second") 200 20 created.1 rotated.1
      (answer_and_state rotated story.rotated_runs).1

create_family-ok_example : family_of created.1 (text "rf_1") ≡ (
    if text_eq (text "rf_1") (text "rf_1")
    then some (record { active_token_hash = text "first"; expires_at = 100; revoked = false })
    else keep_if (is_live 10) (family_of initial.refresh_tokens (text "rf_1")))
create_family-ok_example =
    create_family-ok service.server.state_json Outcome.succeeds (text "rf_1") (text "first") 100 10
      initial.refresh_tokens created.1 (answer_and_state created story.created_runs).1 (text "rf_1")

rotate_refused_example : is_active (text "rf_1") 30 reused.1 ≡ false
rotate_refused_example =
    rotate_refused service.server.state_json crypto.subtle Outcome.succeeds (text "rf_1")
      (text "first") (text "third") 300 30 rotated.1 reused.1 reused_answer

inactive_forever_example :
    is_active (text "rf_1") 30 (perform_all service.server.state_json crypto.subtle later reused.1)
    ≡ false
inactive_forever_example =
    inactive_forever service.server.state_json crypto.subtle (text "rf_1") 30 later reused.1
      later-IsLater
      (rotate_refused service.server.state_json crypto.subtle Outcome.succeeds (text "rf_1")
        (text "first") (text "third") 300 30 rotated.1 reused.1 reused_answer)

reuse_revokes_example :
    (reused.0 ≡ err invalid_grant)
    × (is_active
          (text "rf_1")
          30
          (perform_all service.server.state_json crypto.subtle later reused.1)
        ≡ false)
reuse_revokes_example =
    reuse_revokes service.server.state_json (λ s. (state_codec.write s, refl)) crypto.subtle
      Outcome.succeeds (text "rf_1") (text "first") (text "second") (text "third") 200 20 300 30
      created.1 rotated.1 later (answer_and_state rotated story.rotated_runs).1 next_token
      later-IsLater

restart_lem_example :
    restart service.server.state_json
      (perform_all service.server.state_json crypto.subtle later initial.refresh_tokens)
    ≡ (if ltb max_refresh_state_bytes (
          file_size
            (perform_all service.server.state_json crypto.subtle later
              initial.refresh_tokens).disk.state_file)
        then err invalid_configuration
        else ok (perform_all service.server.state_json crypto.subtle later initial.refresh_tokens))
restart_lem_example =
    restart_lem service.server.state_json crypto.subtle later initial.refresh_tokens refl
