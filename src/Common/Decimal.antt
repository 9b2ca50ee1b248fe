-- ===== src/Common/Decimal.antt =====
-- `format!` of a number, with a width that zeros fill.
use Prim.Native.Nat.{ℕ, zero, suc, ◌+◌, ◌-◌, ◌*◌, ◌/◌, ◌%◌, ◌^◌, ◌≤◌, ◌<◌}
use mathlib.Core.Path.{◌≡◌, refl}
use mathlib.Core.Bool.{true, false}
use mathlib.Core.Logic.{inl, inr}
use mathlib.Core.List.{[], ◌∷◌, ◌++◌}
use native.Mathlib.Omega.{arith}
use engram_mcp.Common.Tests.{ltb, Bool-cases}
use engram_mcp.Common.Lists.{length, length-append, all, all-append}
use engram_mcp.Common.Strings.{Text, is_ascii_digit}
use engram_mcp.Common.Int.{ℤ, pos, negsuc}

-- The decimal digits; `fuel` bounds their number, and n + 1 is enough.
unfoldable pub digits : (fuel n : ℕ) → Text
digits zero n = []
digits (suc fuel) n = elim (ltb n 10) [
  | true ↦ (b'0' + n) ∷ []
  | false ↦ digits fuel (n / 10) ++ (b'0' + n % 10) ∷ []
]

unfoldable pub decimal : ℕ → Text
decimal n = digits (suc n) n

abbrev pub zeros : ℕ → Text
zeros zero = []
zeros (suc n) = b'0' ∷ zeros n

unfoldable pub padded : (width : ℕ) → Text → Text
padded width t = zeros (width - length t) ++ t

-- A sign counts to the width.
unfoldable pub padded_int : (width : ℕ) → ℤ → Text
padded_int width (pos n) = padded width (decimal n)
padded_int width (negsuc n) = b'-' ∷ padded (width - 1) (decimal (suc n))

digit : (n : ℕ) → n < 10 → is_ascii_digit (b'0' + n) ≡ true
unfolding is_ascii_digit
digit n h = ground arith

digits-all : (fuel n : ℕ) → all is_ascii_digit (digits fuel n) ≡ true
unfolding digits
digits-all zero n = refl
digits-all (suc fuel) n = elim (Bool-cases (ltb n 10)) [
  | inl small ↦ rw (small, digits) (ground (arith, digit n, small))
  | inr large ↦
      rw (large, digits)
        (all-append is_ascii_digit (digits fuel (n / 10)) _ (digits-all fuel (n / 10))
          (ground (arith, digit (n % 10))))
]

tenth : (k n : ℕ) → n < 10 ^ suc (suc k) → n / 10 < 10 ^ suc k
tenth k n h = let p : 10 ^ suc (suc k) ≡ 10 * 10 ^ suc k = omega arith in omega (arith, p, h)

-- A number below a power of ten has at most so many digits.
length-digits : (fuel k n : ℕ) → n < 10 ^ suc k → length (digits fuel n) ≤ suc k
unfolding digits
length-digits zero k n h = omega arith
length-digits (suc fuel) zero n h = elim (Bool-cases (ltb n 10)) [
  | inl small ↦ rw (small, digits) (omega arith)
  | inr large ↦ absurd (ground (arith, large, h))
]
length-digits (suc fuel) (suc k) n h = elim (Bool-cases (ltb n 10)) [
  | inl small ↦ rw (small, digits) (omega arith)
  | inr large ↦
      rw (large, digits)
        (omega (
          arith,
          length-append (digits fuel (n / 10)) ((b'0' + n % 10) ∷ []),
          length-digits fuel k (n / 10) (tenth k n h),
        ))
]

length-zeros : (n : ℕ) → length (zeros n) ≡ n
length-zeros zero = refl
length-zeros (suc n) = omega (arith, length-zeros n)

zeros-all : (n : ℕ) → all is_ascii_digit (zeros n) ≡ true
unfolding is_ascii_digit
zeros-all zero = refl
zeros-all (suc n) = ground (arith, zeros-all n)

pub length-decimal : (k n : ℕ) → n < 10 ^ suc k → length (decimal n) ≤ suc k
unfolding decimal
length-decimal k n h = length-digits (suc n) k n h

pub decimal-all : (n : ℕ) → all is_ascii_digit (decimal n) ≡ true
unfolding decimal
decimal-all n = digits-all (suc n) n

pub padded-all :
    (width : ℕ) (t : Text)
    → all is_ascii_digit t ≡ true
    → all is_ascii_digit (padded width t) ≡ true
unfolding padded
padded-all width t h = all-append is_ascii_digit (zeros (width - length t)) t (zeros-all _) h

-- No more than the width is added.
pub length-padded : (width : ℕ) (t : Text) → length (padded width t) ≤ width + length t
unfolding padded
length-padded width t =
    omega (arith, length-append (zeros (width - length t)) t, length-zeros (width - length t))

-- A text that is short enough gets exactly the width.
pub length-padded-eq : (width : ℕ) (t : Text) → length t ≤ width → length (padded width t) ≡ width
unfolding padded
length-padded-eq width t h =
    omega (arith, length-append (zeros (width - length t)) t, length-zeros (width - length t))
