-- ===== src/OAuth/Families/Reuse.antt =====
-- A refusal by `rotate`, and the reuse of a refresh token that has been replaced.
use engram_mcp.Common.{
  ℕ, ◌≡◌, ◌≢◌, inl, inr, Bool, true, false, ◌||◌, not, ap, some, List, Text, arith, Result, ok, err,
  Option-cases, Bool-cases, All, text_eq_refl,
}
use engram_mcp.HashMap
use engram_mcp.HashMap.{text_key, keep_if}
use engram_mcp.OAuth.Error.{OAuthError, invalid_grant}
use engram_mcp.OAuth.Crates.{Subtle, constant_time_equal, constant_time_equal_iff, Json}
use engram_mcp.OAuth.Families.{
  RefreshTokenFamily, RefreshTokenState, RefreshTokenStore, Outcome, succeeds, is_live, prune,
  persist, write_file, commit, commit_if, rotate_found, rotate, is_active,
}
use engram_mcp.OAuth.Families.Rotation.{
  family_of, get-prune, live_of_kept, commit_if-refused, rotate-IsPresented,
}
use engram_mcp.OAuth.Families.Revocation.{
  Operation, perform_all, IsLater, inactive_forever, is_active_family, is_active-eq,
}

module _ (json : Json RefreshTokenState) where
  commit-ne-refused :
      (outcome : Outcome) (next : RefreshTokenState) (store s' : RefreshTokenStore)
      → commit json outcome next (ok tt) store ≢ (err invalid_grant, s')
  unfolding commit persist write_file
  commit-ne-refused outcome next store s' h = ground arith

  -- Whatever state is kept after a refusal, the family is not active in it.
  refused-inactive :
      (id : Text) (now : ℕ) (b : Bool) (outcome : Outcome) (next : RefreshTokenState)
      (store s' : RefreshTokenStore)
      → commit_if json b outcome next (err invalid_grant) store ≡ (err invalid_grant, s')
      → (b ≡ true → is_active_family now (HashMap.get next.families id) ≡ false)
      → (b ≡ false → is_active_family now (family_of store id) ≡ false)
      → is_active_family now (family_of s' id) ≡ false
  refused-inactive id now b outcome next store s' h changed unchanged = ground (
    arith,
    ap (λ (t : RefreshTokenState). is_active_family now (HashMap.get t.families id))
        (commit_if-refused json b outcome next store s' h),
  )

  module _ (subtle : Subtle) (outcome : Outcome) where
    rotate_found_refused :
        (changed : Bool) (id presented next : Text) (expires_at now : ℕ)
        (family : RefreshTokenFamily) (store s' : RefreshTokenStore)
        → HashMap.get (prune now store.state.families) id ≡ some family
        → rotate_found json subtle outcome changed
            (prune now store.state.families)
            id
            presented
            next
            expires_at
            family
            store
          ≡ (err invalid_grant, s')
        → is_active_family now (family_of s' id) ≡ false
    unfolding rotate_found
    rotate_found_refused changed id presented next expires_at now family store s' found h =
        elim (Bool-cases
          (family.revoked || not (constant_time_equal subtle family.active_token_hash presented))) [
            | inl bad ↦
                refused-inactive id now _ _ _ _ _ (rw bad at h)
                  (λ _. ground (
                    arith,
                    HashMap.get-insert (prune now store.state.families) id id
                        (record family { revoked = true }),
                    text_eq_refl id,
                  ))
                  (λ e. ground (arith, live_of_kept now store.state.families id family found))
            | inr good ↦ absurd (commit-ne-refused _ _ _ _ (rw good at h))
          ]

    -- When a rotation answers invalid_grant, the family is not active at that time in the state
    -- after it.
    pub rotate_refused :
        (id presented next : Text) (expires_at now : ℕ) (store s' : RefreshTokenStore)
        → rotate json subtle outcome id presented next expires_at now store
          ≡ (err invalid_grant, s')
        → is_active id now s' ≡ false
    unfolding rotate is_live
    rotate_refused id presented next expires_at now store s' h =
        elim (Option-cases (HashMap.get (prune now store.state.families) id)) [
          | inl missing ↦ rw (is_active-eq id now s') (
              refused-inactive id now _ _ _ _ _ (rw (missing, rotate) at h) (λ _. rw missing)
                (λ _. ground (arith, get-prune now store.state.families id)))
          | inr (family, found) ↦ rw (is_active-eq id now s') (
              rotate_found_refused _ id presented next expires_at now family store s' found
                (rw (found, rotate) at h))
        ]

  module _ (total : (v : RefreshTokenState) → (b : Text) × (json.to_vec v ≡ some b)) where
    commit_if_succeeds :
        (b : Bool) (next : RefreshTokenState) (r : Result OAuthError Unit)
        (store : RefreshTokenStore)
        → (commit_if json b succeeds next r store).0 ≡ r
    unfolding commit_if commit persist write_file
    commit_if_succeeds b next r store = ground (arith, total next)

    -- A token that is not the current one of its family is refused.
    rotate_stale :
        (subtle : Subtle) (id presented next : Text) (expires_at now : ℕ)
        (store : RefreshTokenStore) (f : RefreshTokenFamily)
        → family_of store id ≡ some f
        → f.active_token_hash ≢ presented
        → (rotate json subtle succeeds id presented next expires_at now store).0 ≡ err invalid_grant
    unfolding rotate rotate_found
    rotate_stale subtle id presented next expires_at now store f stored stale =
        elim (Option-cases (HashMap.get (prune now store.state.families) id)) [
          | inl missing ↦ rw (missing, rotate) (commit_if_succeeds _ _ _ store)
          | inr (family, found) ↦
              let bad : family.revoked
                    || not (constant_time_equal subtle family.active_token_hash presented)
                  ≡ true =
                ground (
                  arith,
                  constant_time_equal_iff subtle family.active_token_hash presented,
                  live_of_kept now store.state.families id family found,
                ) in
              rw (found, rotate, bad) (commit_if_succeeds _ _ _ store)
        ]

    -- When a token that was rotated away comes again, it is refused as an invalid grant, and its
    -- family is inactive from then on, under all later operations that do not create the family
    -- anew. The next token's hash differs from the old one's, the disk write of the second call
    -- succeeds, and every state can be written as JSON.
    pub reuse_revokes :
        (subtle : Subtle) (outcome : Outcome) (id presented next next' : Text)
        (expires_at now expires_at' now' : ℕ) (store s' : RefreshTokenStore) (os : List Operation)
        → rotate json subtle outcome id presented next expires_at now store ≡ (ok tt, s')
        → next ≢ presented
        → All (IsLater now' id) os
        → ((rotate json subtle succeeds id presented next' expires_at' now' s').0
            ≡ err invalid_grant)
          × (is_active id now' (
                perform_all json subtle os
                  (rotate json subtle succeeds id presented next' expires_at' now' s').1)
              ≡ false)
    reuse_revokes subtle outcome id presented next next' expires_at now expires_at' now' store s' os
          h fresh later =
        let (_, stored) =
          rotate-IsPresented json subtle outcome id presented next expires_at now store s' h in
        let refused =
          rotate_stale subtle id presented next' expires_at' now' s'
            (record { active_token_hash = next; expires_at = expires_at; revoked = false })
            (ground (arith, stored id, text_eq_refl id)) fresh in
        (
          refused,
          inactive_forever json subtle id now' os _ later (
              rotate_refused subtle succeeds id presented next' expires_at' now' s' _ (
                ap
                  (λ (r : Result OAuthError Unit).
                    (r, (rotate json subtle succeeds id presented next' expires_at' now' s').1))
                  refused)),
        )
