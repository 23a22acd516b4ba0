-- ===== src/Pqroute/Canonical/Reader.antt =====
-- A reader of the string literals of JSON, with their escapes and surrogate pairs (RFC 8259).
use sk_core.Prelude.{
  ℕ, ◌+◌, ◌-◌, ◌*◌, ◌≤◌, ◌<◌, ◌⊎◌, Bool, ◌&&◌, Option, some, none, List, [], ◌∷◌, leb, ◌==◌,
  if◌then◌else◌,
}
use sk_core.Prelude.Bytes.{Bytes, Text}

-- The value of a hexadecimal digit.
unfoldable pub hex_value : ℕ → Option ℕ
hex_value c =
    if leb b'0' c && leb c b'9'
    then some (c - b'0')
    else if leb b'a' c && leb c b'f'
    then some (10 + (c - b'a'))
    else if leb b'A' c && leb c b'F'
    then some (10 + (c - b'A'))
    else none

-- Where the reader stands: between characters, behind a backslash, or behind `\u` and `n` digits.
pub data Place : Type 0 where
  plain : Place
  escape : Place
  hex : ℕ → ℕ → Place

unfoldable pub prepend : ℕ → Option (List ℕ × Bytes) → Option (List ℕ × Bytes)
prepend u none = none
prepend u (some (us, rest)) = some (u ∷ us, rest)

-- The character that an escape of one letter stands for.
unfoldable pub simple : ℕ → Option ℕ
simple c =
    if c == b'"'
    then some b'"'
    else if c == b'\\'
    then some b'\\'
    else if c == b'/'
    then some b'/'
    else if c == b'b'
    then some 0x08
    else if c == b't'
    then some 0x09
    else if c == b'n'
    then some 0x0a
    else if c == b'f'
    then some 0x0c
    else if c == b'r'
    then some 0x0d
    else none

-- The UTF-16 code units of a literal up to its closing quote, and what stands behind it.
unfoldable pub units : Place → Bytes → Option (List ℕ × Bytes)
unfolding hex_value prepend simple
units place [] = none
units plain (c ∷ bs) =
    let plain_rest = units plain bs in
    let escaped = units escape bs in
    if c == b'"' then some ([], bs) else if c == b'\\' then escaped else prepend c plain_rest
units escape (c ∷ bs) =
    let plain_rest = units plain bs in
    let digits = units (hex 0 0) bs in
    if c == b'u' then digits else elim (simple c) [ none ↦ none | some u ↦ prepend u plain_rest ]
units (hex n value) (c ∷ bs) = elim (hex_value c) [
  | none ↦ none
  | some d ↦
      let plain_rest = units plain bs in
      let digits = units (hex (n + 1) (value * 16 + d)) bs in
      if n == 3 then prepend (value * 16 + d) plain_rest else digits
]

unfoldable pub is_high : ℕ → Bool
is_high u = leb 0xd800 u && leb u 0xdbff

unfoldable pub is_low : ℕ → Bool
is_low u = leb 0xdc00 u && leb u 0xdfff

-- The characters that code units stand for: a pair of surrogates stands for one.
unfoldable pub characters : List ℕ → Text
unfolding is_high is_low
characters [] = []
characters (u ∷ []) = u ∷ []
characters (u ∷ v ∷ us) =
    let paired = characters us in
    let single = characters (v ∷ us) in
    if is_high u && is_low v
    then (0x10000 + ((u - 0xd800) * 1024 + (v - 0xdc00))) ∷ paired
    else u ∷ single

-- A string literal and what stands behind it.
unfoldable pub read_string : Bytes → Option (Text × Bytes)
unfolding units characters
read_string [] = none
read_string (c ∷ bs) =
    if c == b'"'
    then elim (units plain bs) [ none ↦ none | some (us, rest) ↦ some (characters us, rest) ]
    else none

-- A Unicode scalar value, which is what a `char` holds.
abbrev pub IsChar : ℕ → Type 0
IsChar c = (c < 0xd800) ⊎ ((0xe000 ≤ c) × (c < 0x110000))

abbrev pub AllChars : Text → Type 0
AllChars [] = Unit {0}
AllChars (c ∷ s) = IsChar c × AllChars s
