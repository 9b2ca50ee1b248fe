-- ===== src/Documents/Id/Laws.antt =====
-- Where the ids that src/document.rs accepts lead.
use engram_mcp.Common.{
  ◌≡◌, refl, sym, ◌∙◌, ap, inl, inr, true, false, ◌||◌, Option, none, some, List, [], ◌∷◌, ◌++◌,
  Text, text, text_eq, is_empty, starts_with_char, ◌==◌, if◌then◌else◌, all, ok, arith, Bool-cases,
  Option-cases, split_once,
}
use engram_mcp.Config.Values.{split}
use engram_mcp.Directories.{top_level}
use engram_mcp.Documents.Id.{
  Component, normal, cur_dir, parent_dir, later_components, components_of, components, id_refused,
  is_visible, parse,
}

-- Where a path leads below a root, by its parts: an empty part and a dot stay, two dots go up, and
-- the walk fails where it would leave the root. The names are those from the root.
unfoldable pub init : List Text → List Text
init [] = []
init (x ∷ []) = []
init (x ∷ y ∷ xs) = x ∷ init (y ∷ xs)

unfoldable pub walk : (below : List Text) (parts : List Text) → Option (List Text)
walk below [] = some below
walk below (part ∷ parts) =
    if is_empty part || text_eq part (text ".")
    then walk below parts
    else if text_eq part (text "..")
    then (if is_empty below then none else walk (init below) parts)
    else walk (below ++ part ∷ []) parts

abbrev names : List Component → List Text
names [] = []
names (normal name ∷ parts) = name ∷ names parts
names (cur_dir ∷ parts) = names parts
names (parent_dir ∷ parts) = names parts

append_assoc : (xs ys zs : List Text) → (xs ++ ys) ++ zs ≡ xs ++ (ys ++ zs)
append_assoc [] ys zs = refl
append_assoc (x ∷ xs) ys zs = ap (λ l. x ∷ l) (append_assoc xs ys zs)

append_nil : (xs : List Text) → xs ++ [] ≡ xs
append_nil [] = refl
append_nil (x ∷ xs) = ap (λ l. x ∷ l) (append_nil xs)

-- Components that are all visible are gone through downwards only.
walk-later_components :
    (below parts : List Text)
    → all is_visible (later_components parts) ≡ true
    → walk below parts ≡ some (below ++ names (later_components parts))
unfolding walk later_components is_visible
walk-later_components below [] h = ap some (sym (append_nil below))
walk-later_components below (part ∷ parts) h =
    elim (Bool-cases (is_empty part || text_eq part (text "."))) [
      | inl e ↦
          rw (e, walk, later_components) (walk-later_components below parts (ground (arith, e, h)))
      | inr e ↦ elim (Bool-cases (text_eq part (text ".."))) [
        | inl f ↦ absurd (ground (arith, e, f, h))
        | inr f ↦
            rw (e, f, walk, later_components)
              (walk-later_components (below ++ part ∷ []) parts (ground (arith, e, f, h))
                ∙ ap some (append_assoc below (part ∷ []) (names (later_components parts))))
      ]
    ]

-- What stands before the first slash is the first part.
split-top_level : (s : Text) → (rest : List Text) × (split b'/' s ≡ top_level s ∷ rest)
unfolding split top_level split_once
split-top_level [] = ([], refl)
split-top_level (c ∷ s) = elim (Bool-cases (c == b'/')) [
  | inl e ↦ (split b'/' s, rw (e, split, top_level, split_once) refl)
  | inr e ↦
      let (rest, ih) = split-top_level s in
      (
        rest,
        elim (Option-cases (split_once b'/' s)) [
          | inl f ↦ ground (arith, e, f, ih)
          | inr (parts, f) ↦ ground (arith, e, f, ih)
        ],
      )
]

top_level-not_empty :
    (s : Text)
    → is_empty s ≡ false
    → starts_with_char b'/' s ≡ false
    → is_empty (top_level s) ≡ false
unfolding top_level split_once starts_with_char
top_level-not_empty [] h k = cc
top_level-not_empty (c ∷ s) h k = elim (Option-cases (split_once b'/' s)) [
  | inl f ↦ ground (arith, f, k)
  | inr (parts, f) ↦ ground (arith, f, k)
]

walk-components_of :
    (part : Text) (parts : List Text)
    → is_empty part ≡ false
    → all is_visible (components_of (part ∷ parts)) ≡ true
    → (rest : List Text) × (walk [] (part ∷ parts) ≡ some (part ∷ rest))
unfolding components_of later_components is_visible walk
walk-components_of part parts h k = elim (Bool-cases (text_eq part (text "."))) [
  | inl e ↦ absurd (ground (arith, e, k))
  | inr e ↦ elim (Bool-cases (text_eq part (text ".."))) [
    | inl f ↦ absurd (ground (arith, e, f, h, k))
    | inr f ↦ (
      names (later_components parts),
      rw (h, e, f, walk) (walk-later_components (part ∷ []) parts (ground (arith, e, f, h, k))),
    )
  ]
]

-- An id that is accepted is the text that was given, and a walk along its parts from the root, on
-- which two dots go up, never leaves the root and leads below the directory that the access check
-- is made for.
pub parse-walk :
    (value id : Text)
    → parse value ≡ ok id
    → (id ≡ value) × (rest : List Text) × (walk [] (split b'/' id) ≡ some (top_level id ∷ rest))
unfolding parse id_refused components
parse-walk value id h =
    let same : id ≡ value = ground (arith, h) in
    let filled : is_empty value ≡ false = ground (arith, h) in
    let relative : starts_with_char b'/' value ≡ false = ground (arith, h) in
    let visible : all is_visible (components value) ≡ true = ground (arith, h) in
    let (parts, e) = split-top_level value in
    let seen : all is_visible (components_of (top_level value ∷ parts)) ≡ true =
      ap (λ p. all is_visible (components_of p)) (sym e) ∙ visible in
    let (rest, w) =
      walk-components_of (top_level value) parts (top_level-not_empty value filled relative) seen in
    (same, rest, rw (same, e) w)
