-- ===== src/OAuth/Families/Durability.antt =====
-- What a restart of the server reads back, after any operations and any failures of disk writes.
use engram_mcp.Common.{
  ℕ, ◌≡◌, inl, inr, Bool, true, false, ap, Option, none, some, List, [], ◌∷◌, Text, ltb, arith,
  if◌then◌else◌, Result, ok, err, length, Option-cases, Bool-cases, not, ◌||◌,
}
use engram_mcp.HashMap
use engram_mcp.HashMap.{text_key}
use engram_mcp.OAuth.Error.{OAuthError, invalid_configuration}
use engram_mcp.OAuth.Crates.{Subtle, constant_time_equal, Json}
use engram_mcp.OAuth.Families.{
  RefreshTokenState, RefreshTokenStore, default_state, Disk, Outcome, StatePath, not_found, file,
  prune, persist, write_file, commit, commit_if, create_family, rotate_found, rotate, open_store,
  max_refresh_state_bytes, refresh_state_version,
}
use engram_mcp.OAuth.Families.Revocation.{Operation, create, rotation, perform, perform_all}

-- The state file as `fs::metadata` and `fs::read` find it at a start of the server.
abbrev pub path_of : Option Text → StatePath
path_of none = not_found
path_of (some bytes) = file (length bytes) (some bytes)

abbrev pub file_size : Option Text → ℕ
file_size none = 0
file_size (some bytes) = length bytes

module _ (json : Json RefreshTokenState) where
  abbrev pub restart : RefreshTokenStore → Result OAuthError RefreshTokenStore
  restart store = open_store json true (some true) (path_of store.disk.state_file) store.disk

  -- What is in memory is what the state file holds.
  abbrev pub InSync : Option Text → RefreshTokenState → Type 0
  InSync none state = state ≡ default_state
  InSync (some bytes) state =
      (json.to_vec state ≡ some bytes) × (state.version ≡ refresh_state_version)

  abbrev pub IsDurable : RefreshTokenStore → Type 0
  IsDurable store = InSync store.disk.state_file store.state

  version_of_InSync :
      (f : Option Text) (state : RefreshTokenState)
      → InSync f state
      → state.version ≡ refresh_state_version
  unfolding default_state
  version_of_InSync none state h = ap (λ (s : RefreshTokenState). s.version) h
  version_of_InSync (some bytes) state h = h.1

  commit-IsDurable :
      (outcome : Outcome) (next : RefreshTokenState) (r : Result OAuthError Unit)
      (store : RefreshTokenStore)
      → IsDurable store
      → next.version ≡ refresh_state_version
      → IsDurable (commit json outcome next r store).1
  unfolding commit persist write_file
  commit-IsDurable outcome next r store h v = elim (Option-cases (json.to_vec next)) [
    | inl unwritten ↦ rw (unwritten, commit, persist) h
    | inr (bytes, written) ↦ write outcome bytes written
  ]
    where
      write :
          (o : Outcome) (bytes : Text)
          → json.to_vec next ≡ some bytes
          → IsDurable (commit json o next r store).1
      write Outcome.open_fails bytes e = rw (e, commit, persist) h
      write (Outcome.write_fails part) bytes e = rw (e, commit, persist) h
      write (Outcome.sync_fails part) bytes e = rw (e, commit, persist) h
      write Outcome.rename_fails bytes e = rw (e, commit, persist) h
      write Outcome.succeeds bytes e = rw (e, commit, persist) (e, v)

  commit_if-IsDurable :
      (b : Bool) (outcome : Outcome) (next : RefreshTokenState) (r : Result OAuthError Unit)
      (store : RefreshTokenStore)
      → IsDurable store
      → next.version ≡ refresh_state_version
      → IsDurable (commit_if json b outcome next r store).1
  unfolding commit_if
  commit_if-IsDurable true outcome next r store h v = commit-IsDurable outcome next r store h v
  commit_if-IsDurable false outcome next r store h v = h

  module _ (subtle : Subtle) where
    perform-IsDurable :
        (o : Operation) (store : RefreshTokenStore)
        → IsDurable store
        → IsDurable (perform json subtle o store)
    unfolding perform create_family rotate rotate_found
    perform-IsDurable (create outcome id hash expires_at now) store h =
        elim (Bool-cases (HashMap.contains_key (prune now store.state.families) id)) [
          | inl taken ↦ rw (taken, perform, create_family) h
          | inr free ↦
              rw (free, perform, create_family)
                (commit-IsDurable outcome _ _ store h (version_of_InSync _ store.state h))
        ]
    perform-IsDurable (rotation outcome id presented next expires_at now) store h =
        let v = version_of_InSync store.disk.state_file store.state h in
        elim (Option-cases (HashMap.get (prune now store.state.families) id)) [
          | inl missing ↦
              rw (missing, perform, rotate) (commit_if-IsDurable _ outcome _ _ store h v)
          | inr (family, found) ↦
              elim (Bool-cases (
                family.revoked
                || not (constant_time_equal subtle family.active_token_hash presented))) [
                  | inl bad ↦
                      rw (found, perform, rotate, bad, rotate_found)
                        (commit_if-IsDurable _ outcome _ _ store h v)
                  | inr good ↦
                      rw (found, perform, rotate, good, rotate_found)
                        (commit-IsDurable outcome _ _ store h v)
                ]
        ]

    perform_all-IsDurable :
        (os : List Operation) (store : RefreshTokenStore)
        → IsDurable store
        → IsDurable (perform_all json subtle os store)
    unfolding perform_all
    perform_all-IsDurable [] store h = h
    perform_all-IsDurable (o ∷ os) store h =
        perform_all-IsDurable os (perform json subtle o store) (perform-IsDurable o store h)

  restart_InSync :
      (f : Option Text) (disk : Disk) (state : RefreshTokenState)
      → InSync f state
      → open_store json true (some true) (path_of f) disk ≡ (
          if ltb max_refresh_state_bytes (file_size f)
          then err invalid_configuration
          else ok (record { state = state; disk = disk }))
  unfolding open_store
  restart_InSync none disk state h = ground arith
  restart_InSync (some bytes) disk state h = ground (arith, json.round_trip state bytes h.0, h.1)

  -- From a store in step with its file, after any operations and any failures of disk writes, a
  -- restart finds exactly the state that was in memory, if the file has at most 1 MiB; with a
  -- larger file, which no write prevents, the restart is refused as an invalid configuration.
  pub restart_lem :
      (subtle : Subtle) (os : List Operation) (store : RefreshTokenStore)
      → IsDurable store
      → restart (perform_all json subtle os store) ≡ (
          if ltb max_refresh_state_bytes
            (file_size (perform_all json subtle os store).disk.state_file)
          then err invalid_configuration
          else ok (perform_all json subtle os store))
  restart_lem subtle os store h =
      restart_InSync _ _ (perform_all json subtle os store).state
        (perform_all-IsDurable subtle os store h)
