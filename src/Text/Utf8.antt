-- ===== src/Text/Utf8.antt =====
-- `str::as_bytes` and `std::str::from_utf8`: code points to UTF-8 bytes and back.
use agent_locksmith.Prelude.{
  ℕ, zero, suc, ◌+◌, ◌-◌, ◌*◌, ◌/◌, ◌%◌, Option, none, some, List, [], ◌∷◌, ◌++◌, ◌&&◌, ltb, leb,
  eqb, if◌then◌else◌,
}
use agent_locksmith.Text.{Text}

abbrev pub Bytes : Type 0
Bytes = List ℕ

unfoldable pub encode_char : ℕ → Bytes
encode_char c =
    if ltb c 0x80
    then c ∷ []
    else if ltb c 0x800
    then (0xc0 + c / 64) ∷ (0x80 + c % 64) ∷ []
    else if ltb c 0x1_0000
    then (0xe0 + c / 4096) ∷ (0x80 + c / 64 % 64) ∷ (0x80 + c % 64) ∷ []
    else (0xf0 + c / 262144) ∷ (0x80 + c / 4096 % 64) ∷ (0x80 + c / 64 % 64) ∷ (0x80 + c % 64) ∷ []

unfoldable pub as_bytes : Text → Bytes
unfolding encode_char
as_bytes [] = []
as_bytes (c ∷ s) = encode_char c ++ as_bytes s

-- What the decoder expects: the first byte of a character, or `more` continuation bytes after the
-- bits `acc`, the next of them in `lo` to `hi`.
pub data Expect : Type 0 where
  first : Expect
  more : ℕ → ℕ → ℕ → ℕ → Expect
  bad : Expect

unfoldable pub start : ℕ → Expect
start b =
    if ltb b 0xc2
    then bad
    else if ltb b 0xe0
    then more 0 (b - 0xc0) 0x80 0xbf
    else if eqb b 0xe0
    then more 1 0 0xa0 0xbf
    else if eqb b 0xed
    then more 1 (b - 0xe0) 0x80 0x9f
    else if ltb b 0xf0
    then more 1 (b - 0xe0) 0x80 0xbf
    else if eqb b 0xf0
    then more 2 0 0x90 0xbf
    else if ltb b 0xf4
    then more 2 (b - 0xf0) 0x80 0xbf
    else if eqb b 0xf4
    then more 2 4 0x80 0x8f
    else bad

-- One byte: what is expected next, and the character that the byte completes.
unfoldable pub advance : Expect → ℕ → Expect × Option ℕ
unfolding start
advance first b = if ltb b 0x80 then (first, some b) else (start b, none)
advance (more k acc lo hi) b =
    if leb lo b && leb b hi
    then elim k [
      | zero ↦ (first, some (acc * 64 + (b - 0x80)))
      | suc j ↦ (more j (acc * 64 + (b - 0x80)) 0x80 0xbf, none)
    ]
    else (bad, none)
advance bad b = (bad, none)

unfoldable pub decode_from : Expect → Bytes → Option Text
unfolding advance
decode_from first [] = some []
decode_from (more k acc lo hi) [] = none
decode_from bad [] = none
decode_from e (b ∷ bs) = elim (decode_from (advance e b).0 bs) [
  | none ↦ none
  | some s ↦ elim (advance e b).1 [ none ↦ some s | some c ↦ some (c ∷ s) ]
]

unfoldable pub from_utf8 : Bytes → Option Text
unfolding decode_from
from_utf8 bs = decode_from first bs
