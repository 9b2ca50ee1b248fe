-- ===== src/OAuth/Families/Revocation.antt =====
-- What becomes of a family under any sequence of operations on the store: a family that is no
-- longer active stays so.
use engram_mcp.Common.{
  ℕ, ◌≤◌, ◌<◌, ◌≡◌, ◌≢◌, ◌⊎◌, inl, inr, refl, Bool, true, false, ◌&&◌, ◌||◌, not, ap, Option, none,
  some, List, [], ◌∷◌, Text, arith, Result, Option-cases, Bool-cases, text_eq_iff, text_eq, All,
}
use engram_mcp.HashMap
use engram_mcp.HashMap.{text_key, keep_if}
use engram_mcp.OAuth.Error.{OAuthError}
use engram_mcp.OAuth.Crates.{Subtle, constant_time_equal, Json}
use engram_mcp.OAuth.Families.{
  RefreshTokenFamily, Families, RefreshTokenState, RefreshTokenStore, Outcome, is_live, prune,
  persist, write_file, commit, commit_if, create_family, rotate_found, rotate, is_active,
}
use engram_mcp.OAuth.Families.Rotation.{family_of, get-prune, live_of_kept}

-- How one operation at the time `now` may change what is stored of a family.
data Change (now : ℕ) (old new : Option RefreshTokenFamily) : Type 0 where
  same : new ≡ old → Change now old new
  pruned : new ≡ keep_if (is_live now) old → Change now old new
  revoking : (f : RefreshTokenFamily) → new ≡ some f → f.revoked ≡ true → Change now old new
  renewed :
      (f : RefreshTokenFamily)
      → old ≡ some f
      → now < f.expires_at
      → f.revoked ≡ false
      → Change now old new

abbrev pub is_active_family : ℕ → Option RefreshTokenFamily → Bool
is_active_family now none = false
is_active_family now (some f) = not f.revoked && is_live now f

Change-inactive :
    (now t : ℕ) (old new : Option RefreshTokenFamily)
    → Change now old new
    → t ≤ now
    → is_active_family t old ≡ false
    → is_active_family t new ≡ false
unfolding is_live
Change-inactive now t old new (same e) h d = rw e d
Change-inactive now t none new (pruned e) h d = rw e
Change-inactive now t (some f) new (pruned e) h d = ground arith
Change-inactive now t old new (revoking f e r) h d = ground arith
Change-inactive now t old new (renewed f e l r) h d = ground arith

module _ (json : Json RefreshTokenState) where
  commit-state :
      (outcome : Outcome) (next : RefreshTokenState) (r : Result OAuthError Unit)
      (store : RefreshTokenStore)
      → ((commit json outcome next r store).1.state ≡ next)
        ⊎ ((commit json outcome next r store).1.state ≡ store.state)
  unfolding commit persist write_file
  commit-state outcome next r store = ground arith

  commit_if-state :
      (b : Bool) (outcome : Outcome) (next : RefreshTokenState) (r : Result OAuthError Unit)
      (store : RefreshTokenStore)
      → ((commit_if json b outcome next r store).1.state ≡ next)
        ⊎ ((commit_if json b outcome next r store).1.state ≡ store.state)
  unfolding commit_if
  commit_if-state true outcome next r store = commit-state outcome next r store
  commit_if-state false outcome next r store = inr refl

  Change-of_state :
      (now : ℕ) (store : RefreshTokenStore) (t' next : RefreshTokenState) (k : Text)
      → (t' ≡ next) ⊎ (t' ≡ store.state)
      → Change now (family_of store k) (HashMap.get next.families k)
      → Change now (family_of store k) (HashMap.get t'.families k)
  Change-of_state now store t' next k (inl e) c = rw e c
  Change-of_state now store t' next k (inr e) c =
      same (ap (λ (t : RefreshTokenState). HashMap.get t.families k) e)

-- A family put into the pruned map changes that family in the way of `c`, and prunes the others.
insert-Change :
    (now : ℕ) (m : Families) (id k : Text) (f : RefreshTokenFamily)
    → ((id ≡ k) → Change now (HashMap.get m k) (some f))
    → Change now (HashMap.get m k) (HashMap.get (HashMap.insert (prune now m) id f) k)
insert-Change now m id k f c = elim (Bool-cases (text_eq id k)) [
  | inl yes' ↦ rw (HashMap.get-insert (prune now m) id k f, yes') (c ((text_eq_iff id k).0 yes'))
  | inr no' ↦ pruned (rw (HashMap.get-insert (prune now m) id k f, no') (get-prune now m k))
]

module _ (json : Json RefreshTokenState) (subtle : Subtle) (outcome : Outcome) where
  rotate_found-Change :
      (changed : Bool) (id presented next : Text) (expires_at now : ℕ) (family : RefreshTokenFamily)
      (store : RefreshTokenStore) (k : Text)
      → HashMap.get (prune now store.state.families) id ≡ some family
      → Change now (family_of store k) (
          family_of
            (rotate_found json subtle outcome changed
              (prune now store.state.families)
              id
              presented
              next
              expires_at
              family
              store).1
            k)
  unfolding rotate_found
  rotate_found-Change changed id presented next expires_at now family store k found =
      elim (Bool-cases
        (family.revoked || not (constant_time_equal subtle family.active_token_hash presented))) [
          | inl bad ↦ rw bad (
              Change-of_state json now store _ _ k (commit_if-state json _ _ _ _ store)
                (insert-Change now store.state.families id k _ (λ _. revoking _ refl refl)))
          | inr good ↦ rw good (
              Change-of_state json now store _ _ k (commit-state json _ _ _ store) (
                insert-Change now store.state.families id k _ (λ e.
                  let (stored, live) = live_of_kept now store.state.families id family found in
                  renewed family (rw (← e) stored) live (ground arith))))
        ]

  rotate-Change :
      (id presented next : Text) (expires_at now : ℕ) (store : RefreshTokenStore) (k : Text)
      → Change now
          (family_of store k)
          (family_of (rotate json subtle outcome id presented next expires_at now store).1 k)
  unfolding rotate
  rotate-Change id presented next expires_at now store k =
      elim (Option-cases (HashMap.get (prune now store.state.families) id)) [
        | inl missing ↦
            rw (missing, rotate)
              (Change-of_state json now store _ _ k (commit_if-state json _ _ _ _ store)
                (pruned (get-prune now store.state.families k)))
        | inr (family, found) ↦
            rw (found, rotate)
              (rotate_found-Change _ id presented next expires_at now family store k found)
      ]

  create_family-Change :
      (id hash : Text) (expires_at now : ℕ) (store : RefreshTokenStore) (k : Text)
      → id ≢ k
      → Change now
          (family_of store k)
          (family_of (create_family json outcome id hash expires_at now store).1 k)
  unfolding create_family
  create_family-Change id hash expires_at now store k other =
      elim (Bool-cases (HashMap.contains_key (prune now store.state.families) id)) [
        | inl taken ↦ rw taken (same refl)
        | inr free ↦ rw free (
            Change-of_state json now store _ _ k (commit-state json _ _ _ store)
              (insert-Change now store.state.families id k _ (λ e. absurd (other e))))
      ]

-- The calls that change the store, each with the time that it reads and the way its disk write goes.
pub data Operation : Type 0 where
  create : Outcome → (family_id hash : Text) (expires_at now : ℕ) → Operation
  rotation : Outcome → (family_id presented next : Text) (expires_at now : ℕ) → Operation

module _ (json : Json RefreshTokenState) (subtle : Subtle) where
  unfoldable pub perform : Operation → RefreshTokenStore → RefreshTokenStore
  perform (create outcome id hash expires_at now) store =
      (create_family json outcome id hash expires_at now store).1
  perform (rotation outcome id presented next expires_at now) store =
      (rotate json subtle outcome id presented next expires_at now store).1

  unfoldable pub perform_all : List Operation → RefreshTokenStore → RefreshTokenStore
  perform_all [] store = store
  perform_all (o ∷ os) store = perform_all os (perform o store)

-- The operation comes at the time `t` or later, and does not create the family `id`.
abbrev pub IsLater : ℕ → Text → Operation → Type 0
IsLater t id (create outcome id' hash expires_at now) = (t ≤ now) × (id' ≢ id)
IsLater t id (rotation outcome id' presented next expires_at now) = t ≤ now

pub is_active-eq :
    (id : Text) (t : ℕ) (store : RefreshTokenStore)
    → is_active id t store ≡ is_active_family t (family_of store id)
unfolding is_active
is_active-eq id t store = ground arith

module _ (json : Json RefreshTokenState) (subtle : Subtle) where
  perform-inactive :
      (id : Text) (t : ℕ) (o : Operation) (store : RefreshTokenStore)
      → IsLater t id o
      → is_active_family t (family_of store id) ≡ false
      → is_active_family t (family_of (perform json subtle o store) id) ≡ false
  unfolding perform
  perform-inactive id t (create outcome id' hash expires_at now) store (later, other) h =
      Change-inactive now t _ _
        (create_family-Change json subtle outcome id' hash expires_at now store id other) later h
  perform-inactive id t (rotation outcome id' presented next expires_at now) store later h =
      Change-inactive now t _ _
        (rotate-Change json subtle outcome id' presented next expires_at now store id) later h

  perform_all-inactive :
      (id : Text) (t : ℕ) (os : List Operation) (store : RefreshTokenStore)
      → All (IsLater t id) os
      → is_active_family t (family_of store id) ≡ false
      → is_active_family t (family_of (perform_all json subtle os store) id) ≡ false
  unfolding perform_all
  perform_all-inactive id t [] store later h = h
  perform_all-inactive id t (o ∷ os) store (l, later) h =
      perform_all-inactive id t os (perform json subtle o store) later
        (perform-inactive id t o store l h)

  -- A family that is not active at a time stays so under any later operations that do not create
  -- it anew, whatever their answers and however their disk writes go.
  pub inactive_forever :
      (id : Text) (t : ℕ) (os : List Operation) (store : RefreshTokenStore)
      → All (IsLater t id) os
      → is_active id t store ≡ false
      → is_active id t (perform_all json subtle os store) ≡ false
  inactive_forever id t os store later h =
      rw (is_active-eq id t (perform_all json subtle os store))
        (perform_all-inactive id t os store later (rw (is_active-eq id t store) at h))
