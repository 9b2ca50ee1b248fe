-- ===== src/Inbox/Render/Reader.antt =====
-- A reader of the files that `render_note` of src/inbox.rs makes.
use engram_mcp.Common.{
  contains_text, ℕ, ◌≡◌, refl, ap, sym, ◌∙◌, false, Option, none, some, [], ◌∷◌, ◌++◌, Text,
  starts_with, ends_with_char, strip_prefix, ok, Bool-cases, Option-cases, inl, inr, arith,
}
use engram_mcp.Inbox.Render.{
  NoteFrontMatter, note_source, trim_newlines, without_marker, closing, with_newline, assemble,
  render_note,
}

-- How a reader finds the end of the front matter: at the first line that begins with three dashes.
unfoldable pub split_closing : Text → Option (Text × Text)
split_closing [] = none
split_closing (c ∷ s) =
    let rest = split_closing s in
    elim (strip_prefix closing (c ∷ s)) [
      | some after ↦ some ([], after)
      | none ↦ elim rest [ none ↦ none | some parts ↦ some (c ∷ parts.0, parts.1) ]
    ]

split_closing-append :
    (front rest : Text)
    → contains_text closing front ≡ false
    → split_closing (front ++ (closing ++ rest)) ≡ some (front, rest)
unfolding split_closing contains_text starts_with strip_prefix
split_closing-append [] rest h = refl
split_closing-append (c ∷ []) rest h = ground (arith, split_closing-append [] rest)
split_closing-append (c ∷ d ∷ []) rest h = ground (arith, split_closing-append (d ∷ []) rest)
split_closing-append (c ∷ d ∷ e ∷ []) rest h =
    ground (arith, split_closing-append (d ∷ e ∷ []) rest)
split_closing-append (c ∷ d ∷ e ∷ f ∷ front) rest h =
    ground (arith, split_closing-append (d ∷ e ∷ f ∷ front) rest)

-- The front matter of a file and what follows the dashes that end it.
unfoldable pub read_note : Text → Option (Text × Text)
read_note note = elim (strip_prefix (b'-' ∷ b'-' ∷ b'-' ∷ 10 ∷ []) note) [
  | none ↦ none
  | some rest ↦ split_closing rest
]

ends_with_char-append :
    (c d : ℕ) (p q : Text) → ends_with_char c (p ++ d ∷ q) ≡ ends_with_char c (d ∷ q)
unfolding ends_with_char
ends_with_char-append c d [] q = refl
ends_with_char-append c d (x ∷ []) q = refl
ends_with_char-append c d (x ∷ y ∷ p) q = ends_with_char-append c d (y ∷ p) q

append_assoc : (p q r : Text) → (p ++ q) ++ r ≡ p ++ (q ++ r)
append_assoc [] q r = refl
append_assoc (x ∷ p) q r = ap (λ t. x ∷ t) (append_assoc p q r)

with_newline-append : (c : ℕ) (p q : Text) → with_newline (p ++ c ∷ q) ≡ p ++ with_newline (c ∷ q)
unfolding with_newline
with_newline-append c p q = elim (Bool-cases (ends_with_char 10 (c ∷ q))) [
  | inl e ↦ rw (ends_with_char-append 10 c p q, e) refl
  | inr e ↦ rw (ends_with_char-append 10 c p q, e) (append_assoc p (c ∷ q) (10 ∷ []))
]

with_newline-append-append :
    (c : ℕ) (p f q : Text) → with_newline (p ++ (f ++ c ∷ q)) ≡ p ++ (f ++ with_newline (c ∷ q))
with_newline-append-append c p f q =
    ap with_newline (sym (append_assoc p f (c ∷ q)))
    ∙ with_newline-append c (p ++ f) q
    ∙ append_assoc p f (with_newline (c ∷ q))

abbrev marker : Text
marker = b'-' ∷ b'-' ∷ b'-' ∷ 10 ∷ []

assemble-eq :
    (front body : Text)
    → assemble front body ≡ marker ++ (front ++ (closing ++ with_newline (10 ∷ 10 ∷ body)))
unfolding assemble
assemble-eq front body =
    with_newline-append-append 10 marker front (b'-' ∷ b'-' ∷ b'-' ∷ 10 ∷ 10 ∷ body)
    ∙ ap (λ t. marker ++ (front ++ t)) (with_newline-append 10 closing (10 ∷ body))

read_note-assemble :
    (front body : Text)
    → contains_text closing front ≡ false
    → read_note (assemble front body) ≡ some (front, with_newline (10 ∷ 10 ∷ body))
unfolding read_note strip_prefix
read_note-assemble front body h =
    rw (assemble-eq front body) (split_closing-append front (with_newline (10 ∷ 10 ∷ body)) h)

module _ (to_yaml : NoteFrontMatter → Option Text) where
  -- A rendered note is read back by a reader that ends the front matter at the first line that
  -- begins with three dashes: it finds the front matter that was written and after it the body as
  -- it was given, with a line break at its end; no title and no body can end the front matter
  -- earlier or later.
  pub read_note-render_note :
      (title created : Text) (occurred : Option Text) (fingerprint body note : Text)
      → render_note to_yaml title created occurred fingerprint body ≡ ok note
      → (yaml : Text) × (to_yaml (record {
        title = title;
        created = created;
        occurred = occurred;
        source = note_source;
        fingerprint = fingerprint;
      })
          ≡ some yaml)
        × (read_note note
            ≡ some (trim_newlines (without_marker yaml), with_newline (10 ∷ 10 ∷ body)))
  unfolding render_note
  read_note-render_note title created occurred fingerprint body note h =
      elim (Option-cases (
        to_yaml (record {
          title = title;
          created = created;
          occurred = occurred;
          source = note_source;
          fingerprint = fingerprint;
        }))) [
          | inl e ↦ absurd (ground (arith, e, h))
          | inr (yaml, e) ↦
              elim (Bool-cases (contains_text closing (trim_newlines (without_marker yaml)))) [
                | inl c ↦ absurd (ground (arith, e, c, h))
                | inr c ↦ (
                  yaml,
                  e,
                  ap read_note (ground (arith, e, c, h))
                      ∙ read_note-assemble (trim_newlines (without_marker yaml)) body c,
                )
              ]
        ]
