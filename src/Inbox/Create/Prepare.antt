-- ===== src/Inbox/Create/Prepare.antt =====
-- What `create_note` of src/inbox.rs settles before it opens a file.
use engram_mcp.Common.{
  ℕ, ◌≡◌, refl, ◌≢◌, Bool, true, false, Option, none, some, Text, byte_len, ltb, Result, ok, err,
  ◌>>=◌, reject_if, arith, >>=-eq-ok, reject_if-eq-ok,
}
use engram_mcp.OAuth.Signing.{saturating_add}
use engram_mcp.Inbox.Slug.{slug}
use engram_mcp.Inbox.Checks.{
  InboxError, invalid_file_name, quota_exceeded, normalize_title, validate_body, validate_occurred,
}
use engram_mcp.Inbox.Calendar.{SystemTime, unix_seconds}
use engram_mcp.Inbox.Names.{note_file_name, rfc3339_utc}
use engram_mcp.Inbox.Render.{NoteFrontMatter, render_note}
use engram_mcp.Inbox.Create.{
  InboxStore, Note, System, used_bytes, Prepared, validate_optional, prepare,
}

-- What a note is stored as, and that it fits.
pub record IsPrepared (to_yaml : NoteFrontMatter → Option Text) (store : InboxStore) (sys : System)
    (note : Note) (now : SystemTime) (prepared : Prepared) : Type 0 where
  pub title : Text
  pub title_of : normalize_title note.title ≡ ok title
  pub body_fits : validate_body note.body store.max_note_bytes ≡ ok tt
  pub occurred : Option Text
  pub occurred_of : validate_optional note.occurred ≡ ok occurred
  pub contents_of :
      render_note to_yaml title prepared.created occurred note.fingerprint note.body
      ≡ ok prepared.contents
  pub created_of : prepared.created ≡ rfc3339_utc (unix_seconds now)
  pub names_of : prepared.names ≡ note_file_name (unix_seconds now) (slug title)
  pub used : ℕ
  pub used_of : used_bytes sys ≡ ok used
  pub fits : ltb store.max_total_bytes (saturating_add used (byte_len prepared.contents)) ≡ false

module _ (to_yaml : NoteFrontMatter → Option Text) (store : InboxStore) (sys : System) where
  pub prepare-IsPrepared :
      (note : Note) (now : SystemTime) (prepared : Prepared)
      → prepare to_yaml store sys note now ≡ ok prepared
      → IsPrepared to_yaml store sys note now prepared
  unfolding prepare
  prepare-IsPrepared note now prepared h =
      let (t, ht, h₁) = >>=-eq-ok (normalize_title note.title) _ h in
      let (_, hb, h₂) = >>=-eq-ok (validate_body note.body store.max_note_bytes) _ h₁ in
      let (o, ho, h₃) = >>=-eq-ok (validate_optional note.occurred) _ h₂ in
      let (c, hc, h₄) =
        >>=-eq-ok
          (render_note to_yaml t (rfc3339_utc (unix_seconds now)) o note.fingerprint note.body) _
          h₃ in
      let (u, hu, h₅) = >>=-eq-ok (used_bytes sys) _ h₄ in
      let (_, hf, h₆) =
        >>=-eq-ok
          (reject_if (ltb store.max_total_bytes (saturating_add u (byte_len c))) quota_exceeded) _
          h₅ in
      let e : record {
        names = note_file_name (unix_seconds now) (slug t);
        contents = c;
        created = rfc3339_utc (unix_seconds now);
      }
          ≡ prepared =
        cc in
      rw (← e) (record {
        title = t;
        title_of = ht;
        body_fits = hb;
        occurred = o;
        occurred_of = ho;
        contents_of = hc;
        created_of = refl;
        names_of = refl;
        used = u;
        used_of = hu;
        fits = reject_if-eq-ok _ quota_exceeded hf;
      })

-- The step does not fail for a bad file name.
pub record IsNamed {ℓ} {A : Type ℓ} (step : Result InboxError A) : Type ℓ where
  pub named : step ≢ err invalid_file_name

ok-IsNamed {ℓ} : {A : Type ℓ} (a : A) → IsNamed (ok a)
ok-IsNamed a = record { named = λ e. cc }

err-IsNamed {ℓ} : {A : Type ℓ} (e : InboxError) → e ≢ invalid_file_name → IsNamed {A = A} (err e)
err-IsNamed e h = record { named = λ k. ground (arith, h, k) }

>>=-IsNamed {ℓ κ} :
    {A : Type ℓ} {B : Type κ} (first : Result InboxError A) (rest : A → Result InboxError B)
    → IsNamed first
    → ((a : A) → IsNamed (rest a))
    → IsNamed (first >>= rest)
>>=-IsNamed (ok a) rest h k = k a
>>=-IsNamed (err e) rest h k = record { named = λ x. h.named (ground (arith, x)) }

reject_if-IsNamed : (b : Bool) (e : InboxError) → e ≢ invalid_file_name → IsNamed (reject_if b e)
reject_if-IsNamed true e h = err-IsNamed e h
reject_if-IsNamed false e h = ok-IsNamed tt

normalize_title-IsNamed : (title : Text) → IsNamed (normalize_title title)
unfolding normalize_title
normalize_title-IsNamed title = record { named = λ h. ground (arith, h) }

validate_body-IsNamed : (body : Text) (max : ℕ) → IsNamed (validate_body body max)
unfolding validate_body
validate_body-IsNamed body max = record { named = λ h. ground (arith, h) }

validate_occurred-IsNamed : (date : Text) → IsNamed (validate_occurred date)
unfolding validate_occurred
validate_occurred-IsNamed date = record { named = λ h. ground (arith, h) }

validate_optional-IsNamed : (date : Option Text) → IsNamed (validate_optional date)
unfolding validate_optional
validate_optional-IsNamed none = ok-IsNamed none
validate_optional-IsNamed (some date) =
    >>=-IsNamed (validate_occurred date) (λ date. ok (some date)) (validate_occurred-IsNamed date)
      (λ d. ok-IsNamed (some d))

used_bytes-IsNamed : (sys : System) → IsNamed (used_bytes sys)
unfolding used_bytes
used_bytes-IsNamed sys = record { named = λ h. ground (arith, h) }

quota : quota_exceeded ≢ invalid_file_name
quota h = cc

module _ (to_yaml : NoteFrontMatter → Option Text) (store : InboxStore) (sys : System) where
  render_note-IsNamed :
      (title created : Text) (occurred : Option Text) (fingerprint body : Text)
      → IsNamed (render_note to_yaml title created occurred fingerprint body)
  unfolding render_note
  render_note-IsNamed title created occurred fingerprint body = record {
    named = λ h. ground (arith, h);
  }

  pub prepare-IsNamed :
      (note : Note) (now : SystemTime) → IsNamed (prepare to_yaml store sys note now)
  unfolding prepare
  prepare-IsNamed note now =
      search
        (
          >>=-IsNamed, reject_if-IsNamed, ok-IsNamed, normalize_title-IsNamed,
          validate_body-IsNamed, validate_optional-IsNamed, render_note-IsNamed, used_bytes-IsNamed,
          quota,
        )
        depth 14
