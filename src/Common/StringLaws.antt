-- ===== src/Common/StringLaws.antt =====
-- Laws of the text operations.
use Prim.Native.Nat.{ℕ, ◌+◌}
use mathlib.Core.Path.{◌≡◌, refl}
use mathlib.Core.Bool.{true, false}
use mathlib.Core.Option.{some}
use mathlib.Core.List.{[], ◌∷◌, ◌++◌}
use native.Mathlib.Omega.{arith}
use mathlib.Core.Logic.{inl, inr}
use engram_mcp.Common.Tests.{◌==◌, Bool-cases, Option-cases}
use engram_mcp.Common.Strings.{Text, byte_len, strip_prefix, starts_with, split_once, has_char}

pub strip_prefix-append : (p s : Text) → strip_prefix p (p ++ s) ≡ some s
unfolding strip_prefix
strip_prefix-append [] s = refl
strip_prefix-append (c ∷ p) s = ground (arith, strip_prefix-append p s)

pub eq-append_of_strip_prefix : (p s t : Text) → strip_prefix p s ≡ some t → s ≡ p ++ t
unfolding strip_prefix
eq-append_of_strip_prefix [] s t h = ground arith
eq-append_of_strip_prefix (c ∷ p) [] t h = cc
eq-append_of_strip_prefix (c ∷ p) (d ∷ s) t h = ground (arith, eq-append_of_strip_prefix p s t)

pub starts_with-append : (p s : Text) → starts_with p (p ++ s) ≡ true
unfolding starts_with
starts_with-append [] s = refl
starts_with-append (c ∷ p) s = ground (arith, starts_with-append p s)

-- The first part holds no separator, so the split is where the separator was put.
pub split_once-append :
    (c : ℕ) (a b : Text) → has_char c a ≡ false → split_once c (a ++ c ∷ b) ≡ some (a, b)
unfolding split_once has_char
split_once-append c [] b h = ground arith
split_once-append c (x ∷ a) b h = ground (arith, split_once-append c a b)

pub eq-append_of_split_once : (c : ℕ) (s a b : Text) → split_once c s ≡ some (a, b) → s ≡ a ++ c ∷ b
unfolding split_once
eq-append_of_split_once c [] a b h = cc
eq-append_of_split_once c (x ∷ s) a b h = elim (Bool-cases (x == c)) [
  | inl e ↦ ground (arith, e, h)
  | inr e ↦ elim (Option-cases (split_once c s)) [
    | inl f ↦ absurd (ground (arith, e, f, h))
    | inr (parts, f) ↦ ground (arith, e, f, h, eq-append_of_split_once c s parts.0 parts.1)
  ]
]

pub byte_len-append : (s t : Text) → byte_len (s ++ t) ≡ byte_len s + byte_len t
unfolding byte_len
byte_len-append [] t = omega arith
byte_len-append (c ∷ s) t = omega (arith, byte_len-append s t)
