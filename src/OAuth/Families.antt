-- ===== src/OAuth/Families.antt =====
-- `RefreshTokenStore` of src/oauth.rs: the refresh-token families, in memory and on disk. A mutex
-- is never poisoned, since nothing panics under the lock, so `lock` does not fail here.

pub mod Rotation
pub mod Revocation
pub mod Reuse
pub mod Durability
use engram_mcp.Common.{
  ℕ, Bool, true, false, not, ◌&&◌, ◌||◌, Option, none, some, Text, ltb, ◌==◌, if◌then◌else◌, Result,
  ok, err,
}
use engram_mcp.HashMap
use engram_mcp.HashMap.{HashMap, text_key}
use engram_mcp.OAuth.Error.{OAuthError, invalid_configuration, invalid_grant, entropy, internal}
use engram_mcp.OAuth.Crates.{Subtle, constant_time_equal, Json}

abbrev pub refresh_state_version : ℕ
refresh_state_version = 1

abbrev pub max_refresh_state_bytes : ℕ
max_refresh_state_bytes = 1_048_576

pub record RefreshTokenFamily : Type 0 where
  pub active_token_hash : Text
  pub expires_at : ℕ
  pub revoked : Bool

abbrev pub Families : Type 0
Families = HashMap Text RefreshTokenFamily

pub record RefreshTokenState : Type 0 where
  pub version : ℕ
  pub families : Families

unfoldable pub default_state : RefreshTokenState
default_state = record { version = refresh_state_version; families = HashMap.empty }

-- The state file, and the temporary file beside it.
pub record Disk : Type 0 where
  pub state_file : Option Text
  pub temporary : Option Text

pub record RefreshTokenStore : Type 0 where
  pub state : RefreshTokenState
  pub disk : Disk

-- How the system calls of one `persist` go: which one fails, and what of the temporary file was
-- written by then.
pub data Outcome : Type 0 where
  open_fails : Outcome
  write_fails sync_fails : Text → Outcome
  rename_fails succeeds : Outcome

-- What `fs::metadata` and `fs::read` say of the state file.
pub data StatePath : Type 0 where
  not_found no_metadata not_a_file : StatePath
  file : (len : ℕ) (contents : Option Text) → StatePath

pub data Persisted : Type 0 where
  persisted : Disk → Persisted
  persist_failed : Disk → Persisted

unfoldable pub is_live : ℕ → RefreshTokenFamily → Bool
is_live now family = ltb now family.expires_at

unfoldable pub prune : ℕ → Families → Families
prune now families = HashMap.retain (is_live now) families

module _ (json : Json RefreshTokenState) where
  unfoldable pub write_file : Outcome → Text → Disk → Persisted
  write_file open_fails bytes disk = persist_failed disk
  write_file (write_fails part) bytes disk = persist_failed (record disk { temporary = some part })
  write_file (sync_fails part) bytes disk = persist_failed (record disk { temporary = some part })
  write_file rename_fails bytes disk = persist_failed (record disk { temporary = some bytes })
  write_file succeeds bytes disk = persisted (record { state_file = some bytes; temporary = none })

  -- A full disk or a failed rename leaves the old state file in place.
  unfoldable pub persist : Outcome → RefreshTokenState → Disk → Persisted
  persist outcome state disk = elim (json.to_vec state) [
    | none ↦ persist_failed disk
    | some bytes ↦ write_file outcome bytes disk
  ]

  -- `self.persist(&next)?; *state = next;`, and then the result of the call.
  unfoldable pub commit :
      Outcome
      → RefreshTokenState
      → Result OAuthError (Unit {0})
      → RefreshTokenStore
      → Result OAuthError (Unit {0}) × RefreshTokenStore
  commit outcome next result store = elim (persist outcome next store.disk) [
    | persisted disk ↦ (result, record { state = next; disk = disk })
    | persist_failed disk ↦ (err internal, record store { disk = disk })
  ]

  -- The same under `if changed`.
  unfoldable pub commit_if :
      Bool
      → Outcome
      → RefreshTokenState
      → Result OAuthError (Unit {0})
      → RefreshTokenStore
      → Result OAuthError (Unit {0}) × RefreshTokenStore
  commit_if true outcome next result store = commit outcome next result store
  commit_if false outcome next result store = (result, store)

  unfoldable pub create_family :
      Outcome
      → (family_id active_token_hash : Text) (expires_at now : ℕ) → RefreshTokenStore
      → Result OAuthError (Unit {0}) × RefreshTokenStore
  create_family outcome family_id active_token_hash expires_at now store =
      let kept = prune now store.state.families in
      let family : RefreshTokenFamily = record {
        active_token_hash = active_token_hash;
        expires_at = expires_at;
        revoked = false;
      } in
      if HashMap.contains_key kept family_id
      then (err entropy, store)
      else commit outcome (record (store.state) { families = HashMap.insert kept family_id family })
          (ok tt) store

  -- The part of `rotate` behind `let Some(family) = …`, over the pruned families.
  unfoldable pub rotate_found :
      Subtle
      → Outcome
      → (changed : Bool) (kept : Families)
      → (family_id presented_token_hash next_token_hash : Text) (expires_at : ℕ)
      → RefreshTokenFamily
      → RefreshTokenStore
      → Result OAuthError (Unit {0}) × RefreshTokenStore
  rotate_found subtle outcome changed kept family_id presented_token_hash next_token_hash expires_at
        family store =
      let with_family = λ (family' : RefreshTokenFamily). record (store.state) {
        families = HashMap.insert kept family_id family';
      } in
      if family.revoked
        || not (constant_time_equal subtle family.active_token_hash presented_token_hash)
      then commit_if (changed || not family.revoked) outcome
          (with_family (record family { revoked = true })) (err invalid_grant) store
      else commit outcome
          (with_family
            (record family { active_token_hash = next_token_hash; expires_at = expires_at }))
          (ok tt) store

  unfoldable pub rotate :
      Subtle
      → Outcome
      → (family_id presented_token_hash next_token_hash : Text) (expires_at now : ℕ)
      → RefreshTokenStore
      → Result OAuthError (Unit {0}) × RefreshTokenStore
  rotate subtle outcome family_id presented_token_hash next_token_hash expires_at now store =
      let kept = prune now store.state.families in
      let changed = not (HashMap.len kept == HashMap.len store.state.families) in
      elim (HashMap.get kept family_id) [
        | none ↦
            commit_if changed outcome (record (store.state) { families = kept }) (err invalid_grant)
              store
        | some family ↦
            rotate_found subtle outcome changed kept family_id presented_token_hash next_token_hash
              expires_at family store
      ]

  -- `RefreshTokenStore::open`, from what the file system says of the directory and the file.
  unfoldable pub open_store :
      (dir_created : Bool) (dir_metadata : Option Bool)
      → StatePath
      → Disk
      → Result OAuthError RefreshTokenStore
  open_store false dir_metadata path disk = err internal
  open_store true none path disk = err internal
  open_store true (some false) path disk = err invalid_configuration
  open_store true (some true) not_found disk = ok (record { state = default_state; disk = disk })
  open_store true (some true) no_metadata disk = err internal
  open_store true (some true) not_a_file disk = err invalid_configuration
  open_store true (some true) (file len contents) disk =
      if ltb max_refresh_state_bytes len then err invalid_configuration else elim contents [
        | none ↦ err internal
        | some bytes ↦ elim (json.from_slice bytes) [
          | none ↦ err invalid_configuration
          | some state ↦
              if state.version == refresh_state_version
              then ok (record { state = state; disk = disk })
              else err invalid_configuration
        ]
      ]

unfoldable pub is_active : Text → ℕ → RefreshTokenStore → Bool
is_active family_id now store = elim (HashMap.get store.state.families family_id) [
  | none ↦ false
  | some family ↦ not family.revoked && is_live now family
]
