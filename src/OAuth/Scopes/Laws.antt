-- ===== src/OAuth/Scopes/Laws.antt =====
-- Scope grants: what parsing accepts, and that no check widens a grant.
use engram_mcp.Common.{
  ◌≡◌, ◌⊎◌, inl, inr, refl, sym, ◌∙◌, and_split, or_split, Bool, true, false, not, ◌||◌, List, [],
  ◌∷◌, Text, text_eq, text_eq_iff, byte_len, split_whitespace, ltb, ok, all, any, is_empty,
  Bool-cases, arith,
}
use mathlib.Core.Path.{subst}
use engram_mcp.TextSet
use engram_mcp.TextSet.{TextSet, contains, all-contains, all_of_contains, is_subset-contains}
use engram_mcp.Auth.Access.{private}
use engram_mcp.OAuth.Scopes.{
  scope_tech, scope_private, ScopeGrant, is_known_scope, filter_known, parse,
  default_for_new_client, parse_lenient, access_scope, allows_scope, allows, is_subset_of, is_valid,
  values, join_space, as_string,
}

-- Allowing is transitive: a grant allows whatever is allowed by a grant that it allows.
pub allows_trans : (a b c : ScopeGrant) → allows a b ≡ true → allows b c ≡ true → allows a c ≡ true
unfolding allows allows_scope
allows_trans a b c h k = all_of_contains (allows_scope a) c.scopes (λ t m. ground (
  arith,
  all-contains (allows_scope b) c.scopes t k m,
  all-contains (allows_scope a) b.scopes t h,
  all-contains (allows_scope a) b.scopes scope_private h,
  text_eq_iff t scope_tech,
  text_eq_iff scope_private scope_tech,
))

-- Each scope of a grant that is allowed is one of the grant that allows it, or is the tech scope
-- beside the private one.
pub allows-contains :
    (a b : ScopeGrant) (s : Text)
    → allows a b ≡ true
    → contains b.scopes s ≡ true
    → (contains a.scopes s ≡ true) ⊎ ((s ≡ scope_tech) × (contains a.scopes scope_private ≡ true))
unfolding allows allows_scope
allows-contains a b s h m =
    ground (arith, all-contains (allows_scope a) b.scopes s h m, text_eq_iff s scope_tech)

-- A grant that allows one with private access has private access itself.
pub access_scope-allows :
    (a b : ScopeGrant) → allows a b ≡ true → access_scope b ≡ private → access_scope a ≡ private
unfolding allows allows_scope access_scope text_eq
access_scope-allows a b h p = ground (arith, all-contains (allows_scope a) b.scopes scope_private h)

-- A client that is allowed the requested scopes is allowed every grant that is a subset of them.
pub allows-is_subset_of :
    (client requested granted : ScopeGrant)
    → allows client requested ≡ true
    → is_subset_of granted requested ≡ true
    → allows client granted ≡ true
unfolding allows is_subset_of
allows-is_subset_of client requested granted h k =
    all_of_contains (allows_scope client) granted.scopes (λ t m.
      all-contains (allows_scope client) requested.scopes t h
        (is_subset-contains granted.scopes requested.scopes t k m))

-- The three sets of known scopes that are not empty, as `BTreeSet` orders them.
abbrev pub IsGrant : TextSet → Type 0
IsGrant s =
    (s ≡ scope_private ∷ []) ⊎ ((s ≡ scope_tech ∷ []) ⊎ (s ≡ scope_private ∷ scope_tech ∷ []))

insert-IsGrant :
    (t : Text) (s : TextSet)
    → (t ≡ scope_tech) ⊎ (t ≡ scope_private)
    → (s ≡ []) ⊎ IsGrant s
    → IsGrant (TextSet.insert t s)
unfolding TextSet.insert TextSet.text_lt text_eq
insert-IsGrant t s (inl e) (inl n) = rw (e, n) (inr (inl refl))
insert-IsGrant t s (inl e) (inr (inl n)) = rw (e, n) (inr (inr refl))
insert-IsGrant t s (inl e) (inr (inr (inl n))) = rw (e, n) (inr (inl refl))
insert-IsGrant t s (inl e) (inr (inr (inr n))) = rw (e, n) (inr (inr refl))
insert-IsGrant t s (inr e) (inl n) = rw (e, n) (inl refl)
insert-IsGrant t s (inr e) (inr (inl n)) = rw (e, n) (inl refl)
insert-IsGrant t s (inr e) (inr (inr (inl n))) = rw (e, n) (inr (inr refl))
insert-IsGrant t s (inr e) (inr (inr (inr n))) = rw (e, n) (inr (inr refl))

known-cases : (t : Text) → is_known_scope t ≡ true → (t ≡ scope_tech) ⊎ (t ≡ scope_private)
unfolding is_known_scope
known-cases t h = ground (arith, text_eq_iff t scope_tech, text_eq_iff t scope_private)

from_list-IsGrant :
    (ss : List Text)
    → all is_known_scope ss ≡ true
    → (TextSet.from_list ss ≡ []) ⊎ IsGrant (TextSet.from_list ss)
unfolding TextSet.from_list
from_list-IsGrant [] h = inl refl
from_list-IsGrant (s ∷ ss) h =
    let (known, rest) = and_split _ _ h in
    inr (insert-IsGrant s _ (known-cases s known) (from_list-IsGrant ss rest))

all_of_not-any :
    (ss : List Text)
    → any (λ scope. not (is_known_scope scope)) ss ≡ false
    → all is_known_scope ss ≡ true
all_of_not-any [] h = refl
all_of_not-any (s ∷ ss) h = ground (arith, all_of_not-any ss)

-- Collecting into a set keeps the members.
all_of_from_list :
    (p : Text → Bool) (ss : List Text) → all p (TextSet.from_list ss) ≡ true → all p ss ≡ true
all_of_from_list p ss h =
    all_of_contains p ss
      (λ t c. all-contains p (TextSet.from_list ss) t h (TextSet.contains-from_list ss t ∙ c))

-- What `parse` accepts is one of the three grants.
pub parse-IsGrant : (value : Text) (g : ScopeGrant) → parse value ≡ ok g → IsGrant g.scopes
unfolding parse
parse-IsGrant value g h = elim (Bool-cases (ltb 256 (byte_len value))) [
  | inl long ↦ absurd (ground arith)
  | inr short ↦
      let set = TextSet.from_list (split_whitespace value) in
      elim (Bool-cases (is_empty set || any (λ scope. not (is_known_scope scope)) set)) [
        | inl bad ↦ absurd (ground arith)
        | inr good ↦
            let (nonempty, known) = or_split _ _ good in
            let is_set : set ≡ g.scopes = ground arith in
            rw (← is_set) (
              grind (
                arith,
                from_list-IsGrant (split_whitespace value)
                    (all_of_from_list is_known_scope _ (all_of_not-any set known)),
              ))
      ]
]

grant : Unit {0}
unfolding parse as_string values join_space byte_len is_known_scope split_whitespace
    TextSet.from_list TextSet.contains access_scope is_valid
grant = tt

-- A grant that was parsed is printed as a text from which it is parsed again.
pub parse-as_string :
    (value : Text) (g : ScopeGrant) → parse value ≡ ok g → parse (as_string g) ≡ ok g
unfolding grant
parse-as_string value g h = elim (parse-IsGrant value g h) [
  | inl e ↦ print (scope_private ∷ []) e refl
  | inr (inl e) ↦ print (scope_tech ∷ []) e refl
  | inr (inr e) ↦ print (scope_private ∷ scope_tech ∷ []) e refl
]
  where
    print :
        (s : TextSet)
        → g.scopes ≡ s
        → parse (as_string (record { scopes = s })) ≡ ok (record { scopes = s })
        → parse (as_string g) ≡ ok g
    print s e k =
        subst
          (λ (t : TextSet). parse (as_string (record { scopes = t })) ≡ ok (record { scopes = t }))
          (sym e) k

-- So is every registered grant, whatever scopes the client asked for: unknown ones are dropped, and
-- the default takes the place of none.
filter_known-all : (ss : List Text) → all is_known_scope (filter_known ss) ≡ true
unfolding filter_known
filter_known-all [] = refl
filter_known-all (s ∷ ss) = ground (arith, filter_known-all ss)

-- Whatever scopes a client registers with, it has one of the three grants: private, tech or both.
pub parse_lenient-IsGrant : (value : Text) → IsGrant (parse_lenient value).scopes
unfolding parse_lenient default_for_new_client TextSet.from_list
parse_lenient-IsGrant value =
    let ss = filter_known (split_whitespace value) in
    elim (from_list-IsGrant ss (filter_known-all (split_whitespace value))) [
      | inl empty' ↦ rw (empty', parse_lenient) (inr (inr refl))
      | inr g ↦ ground arith
    ]
