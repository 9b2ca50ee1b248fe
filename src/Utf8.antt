-- ===== src/Utf8.antt =====
-- `str::from_utf8` and `str::as_bytes`: UTF-8 as the standard library validates it.
use engram_mcp.Common.{
  ℕ, ◌+◌, ◌-◌, ◌*◌, ◌/◌, ◌%◌, ◌&&◌, Option, none, some, List, [], ◌∷◌, ◌++◌, ltb, leb, ◌==◌,
  if◌then◌else◌, Text,
}
use mathlib.Core.Option

-- The bytes of one character.
unfoldable pub encode_char : ℕ → List ℕ
encode_char c =
    if ltb c 0x80
    then c ∷ []
    else if ltb c 0x800
    then (0xc0 + c / 64) ∷ (0x80 + c % 64) ∷ []
    else if ltb c 0x10000
    then (0xe0 + c / 4096) ∷ (0x80 + c / 64 % 64) ∷ (0x80 + c % 64) ∷ []
    else (0xf0 + c / 262144) ∷ (0x80 + c / 4096 % 64) ∷ (0x80 + c / 64 % 64) ∷ (0x80 + c % 64) ∷ []

unfoldable pub as_bytes : Text → List ℕ
unfolding encode_char
as_bytes [] = []
as_bytes (c ∷ s) = encode_char c ++ as_bytes s

-- Where the decoder stands within a character: `more k lo hi acc` wants `k` more bytes, the next of
-- them from `lo` to `hi`, and `acc` holds the bits so far.
pub data Pending : Type 0 where
  idle : Pending
  more : (k lo hi acc : ℕ) → Pending

pub data Step : Type 0 where
  emit : ℕ → Step
  wait : Pending → Step
  bad : Step

unfoldable pub lead : ℕ → Step
lead b =
    if ltb b 0x80
    then emit b
    else if leb 0xc2 b && leb b 0xdf
    then wait (more 1 0x80 0xbf (b - 0xc0))
    else if b == 0xe0
    then wait (more 2 0xa0 0xbf 0)
    else if b == 0xed
    then wait (more 2 0x80 0x9f 13)
    else if leb 0xe1 b && leb b 0xef
    then wait (more 2 0x80 0xbf (b - 0xe0))
    else if b == 0xf0
    then wait (more 3 0x90 0xbf 0)
    else if leb 0xf1 b && leb b 0xf3
    then wait (more 3 0x80 0xbf (b - 0xf0))
    else if b == 0xf4
    then wait (more 3 0x80 0x8f 4)
    else bad

unfoldable pub decode_step : Pending → ℕ → Step
decode_step idle b = lead b
decode_step (more k lo hi acc) b =
    if leb lo b && leb b hi
    then (if leb k 1
        then emit (acc * 64 + (b - 0x80))
        else wait (more (k - 1) 0x80 0xbf (acc * 64 + (b - 0x80))))
    else bad

unfoldable pub decode_from : Pending → List ℕ → Option Text
decode_from idle [] = some []
decode_from (more k lo hi acc) [] = none
decode_from p (b ∷ bs) = elim (decode_step p b) [
  | emit c ↦ Option.map (λ s. c ∷ s) (decode_from idle bs)
  | wait q ↦ decode_from q bs
  | bad ↦ none
]

unfoldable pub from_utf8 : List ℕ → Option Text
from_utf8 bytes = decode_from idle bytes
