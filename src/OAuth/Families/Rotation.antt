-- ===== src/OAuth/Families/Rotation.antt =====
-- Rotation of refresh tokens in `RefreshTokenStore`: what a successful rotation establishes, and
-- what the reuse of a replaced token does to its family.
use engram_mcp.Common.{
  ℕ, ◌<◌, ◌≡◌, ◌≢◌, inl, inr, Bool, false, ◌||◌, not, ap, or_split, Option, some, Text, arith,
  if◌then◌else◌, ok, err, Option-cases, Bool-cases, text_eq,
}
use engram_mcp.HashMap
use engram_mcp.HashMap.{text_key, keep_if}
use engram_mcp.OAuth.Error.{OAuthError, invalid_grant}
use engram_mcp.OAuth.Crates.{Subtle, constant_time_equal, constant_time_equal_iff, Json}
use engram_mcp.OAuth.Families.{
  RefreshTokenFamily, Families, RefreshTokenState, RefreshTokenStore, Outcome, is_live, prune,
  persist, commit, commit_if, create_family, rotate_found, rotate, write_file,
}

abbrev pub family_of : RefreshTokenStore → Text → Option RefreshTokenFamily
family_of store family_id = HashMap.get store.state.families family_id

pub get-prune :
    (now : ℕ) (m : Families) (k : Text)
    → HashMap.get (prune now m) k ≡ keep_if (is_live now) (HashMap.get m k)
unfolding prune is_live
get-prune now m k = HashMap.get-retain (is_live now) m k

pub live_of_kept :
    (now : ℕ) (m : Families) (k : Text) (family : RefreshTokenFamily)
    → HashMap.get (prune now m) k ≡ some family
    → (HashMap.get m k ≡ some family) × (now < family.expires_at)
unfolding is_live
live_of_kept now m k family h = ground (arith, get-prune now m k)

-- The family is in the store, and its token may be rotated.
pub record IsPresented (store : RefreshTokenStore) (family_id hash : Text) (now : ℕ) : Type 0 where
  pub family : RefreshTokenFamily
  pub stored : family_of store family_id ≡ some family
  pub unexpired : now < family.expires_at
  pub unrevoked : family.revoked ≡ false
  pub current : family.active_token_hash ≡ hash

module _ (json : Json RefreshTokenState) where
  commit-ok :
      (outcome : Outcome) (next : RefreshTokenState) (store s' : RefreshTokenStore)
      → commit json outcome next (ok tt) store ≡ (ok tt, s')
      → s'.state ≡ next
  unfolding commit persist write_file
  commit-ok outcome next store s' h = ground arith

  commit_if-err :
      (b : Bool) (outcome : Outcome) (next : RefreshTokenState) (e : OAuthError)
      (store s' : RefreshTokenStore)
      → commit_if json b outcome next (err e) store ≢ (ok tt, s')
  unfolding commit_if commit persist write_file
  commit_if-err b outcome next e store s' h = ground arith

  -- A refusal that is not an internal error has stored the next state, where there was a change.
  pub commit_if-refused :
      (b : Bool) (outcome : Outcome) (next : RefreshTokenState) (store s' : RefreshTokenStore)
      → commit_if json b outcome next (err invalid_grant) store ≡ (err invalid_grant, s')
      → s'.state ≡ (if b then next else store.state)
  unfolding commit_if commit persist write_file
  commit_if-refused b outcome next store s' h = ground arith

  module _ (subtle : Subtle) (outcome : Outcome) where
    rotate_found-ok :
        (changed : Bool) (kept : Families) (family_id presented next : Text) (expires_at : ℕ)
        (family : RefreshTokenFamily) (store s' : RefreshTokenStore)
        → rotate_found json subtle outcome changed kept family_id presented next expires_at family
            store
          ≡ (ok tt, s')
        → (family.revoked ≡ false)
          × (family.active_token_hash ≡ presented)
          × (s'.state.families
              ≡ HashMap.insert kept family_id
                  (record family { active_token_hash = next; expires_at = expires_at }))
    unfolding rotate_found
    rotate_found-ok changed kept family_id presented next expires_at family store s' h =
        elim (Bool-cases
          (family.revoked || not (constant_time_equal subtle family.active_token_hash presented))) [
            | inl bad ↦ absurd (commit_if-err _ _ _ _ _ _ (rw bad at h))
            | inr good ↦
                let (unrevoked, same) = or_split _ _ good in
                (
                  unrevoked,
                  (constant_time_equal_iff subtle _ _).0 (ground arith),
                  ap (λ (t : RefreshTokenState). t.families) (commit-ok _ _ _ _ (rw good at h)),
                )
          ]

  -- A rotation succeeds only on the current token of a live family that is not revoked. After it
  -- the family has the next token and the new expiry, and of the other families those that had
  -- expired are gone and no other has changed.
  pub rotate-IsPresented :
      (subtle : Subtle) (outcome : Outcome) (family_id presented next : Text) (expires_at now : ℕ)
      (store s' : RefreshTokenStore)
      → rotate json subtle outcome family_id presented next expires_at now store ≡ (ok tt, s')
      → IsPresented store family_id presented now
        × ((k : Text)
            → family_of s' k ≡ (
                if text_eq family_id k
                then some
                    (record { active_token_hash = next; expires_at = expires_at; revoked = false })
                else keep_if (is_live now) (family_of store k)))
  unfolding rotate
  rotate-IsPresented subtle outcome family_id presented next expires_at now store s' h =
      elim (Option-cases (HashMap.get (prune now store.state.families) family_id)) [
        | inl missing ↦ absurd (commit_if-err _ _ _ _ _ _ (rw (missing, rotate) at h))
        | inr (family, found) ↦
            let (stored, unexpired) = live_of_kept now _ _ _ found in
            let (unrevoked, current, families) =
              rotate_found-ok subtle outcome _ _ _ _ _ _ _ _ _ (rw (found, rotate) at h) in
            (
              record {
                family = family;
                stored = stored;
                unexpired = unexpired;
                unrevoked = unrevoked;
                current = current;
              },
              λ k. ground (
                arith,
                ap (λ (m : Families). HashMap.get m k) families,
                HashMap.get-insert (prune now store.state.families) family_id k
                    (record family { active_token_hash = next; expires_at = expires_at }),
                get-prune now store.state.families k,
              ),
            )
      ]

  -- A family that was created is stored as it was given and not revoked; of the other families
  -- those that had expired are gone and no other has changed.
  pub create_family-ok :
      (outcome : Outcome) (family_id hash : Text) (expires_at now : ℕ)
      (store s' : RefreshTokenStore)
      → create_family json outcome family_id hash expires_at now store ≡ (ok tt, s')
      → (k : Text)
      → family_of s' k ≡ (
          if text_eq family_id k
          then some (record { active_token_hash = hash; expires_at = expires_at; revoked = false })
          else keep_if (is_live now) (family_of store k))
  unfolding create_family
  create_family-ok outcome family_id hash expires_at now store s' h k =
      elim (Bool-cases (HashMap.contains_key (prune now store.state.families) family_id)) [
        | inl taken ↦ absurd (ground arith)
        | inr free ↦ ground (
          arith,
          ap (λ (t : RefreshTokenState). HashMap.get t.families k)
              (commit-ok outcome _ store s' (rw free at h)),
          HashMap.get-insert (prune now store.state.families) family_id k
              (record { active_token_hash = hash; expires_at = expires_at; revoked = false }),
          get-prune now store.state.families k,
        )
      ]
