-- ===== src/Tests/Canonicals.antt =====
-- The theorems on canonical JSON at concrete inputs.
use sk_core.Prelude.{
  ℕ, Bool-cases, inl, inr, some, Bool, true, ltb, ◌&&◌, ◌≤◌, ◌≡◌, ◌↔◌, refl, [], ◌∷◌, ◌++◌, arith,
}
use sk_core.Prelude.Bytes.{Text, codes}
use sk_core.Prelude.Texts.{text_eq, text_eq→eq}
use sk_core.Json.{Value, string, number, array, object, nil, cons, Fields, field, end}
use sk_core.Json.Access.{get_field}
use sk_core.Pqroute.Canonical.{canonical, encode_string_ascii}
use sk_core.Pqroute.Canonical.Order.{IsObject}
use sk_core.Pqroute.Canonical.Reader.{AllChars}
use sk_core.Pqroute.Canonical.Ascii.{IsPrintable, encode_string_ascii-IsPrintable}
use sk_core.Pqroute.Canonical.Parser.{in_number, read_value}
use sk_core.Pqroute.Canonical.Normal.{normal, size, IsJson}
use sk_core.Pqroute.Canonical.Faithful.{read_value-canonical, canonical_iff}
use sk_core.Tests.ToyJson.{literals, read_ones, literals_numbers}

encode_string_ascii-IsPrintable_example : IsPrintable (encode_string_ascii (codes "é\n"))
encode_string_ascii-IsPrintable_example = encode_string_ascii-IsPrintable (codes "é\n")

-- A quote, a letter of two bytes and a character beyond the basic plane.
abbrev mixed : Text
mixed = codes "\"é😀"

mixed-AllChars : AllChars mixed
mixed-AllChars = (inl (omega arith), (inl (omega arith), (inr (omega arith, omega arith), tt)))

-- A text without characters above the surrogates.
abbrev is_small : Text → Bool
is_small [] = true
is_small (c ∷ s) = ltb c 0xd800 && is_small s

is_small-AllChars : (s : Text) → is_small s ≡ true → AllChars s
is_small-AllChars [] h = tt
is_small-AllChars (c ∷ s) h = (inl (ground (arith, h)), is_small-AllChars s (ground (arith, h)))

to_AllChars : AllChars (codes "to")
to_AllChars = is_small-AllChars (codes "to") refl

hops_AllChars : AllChars (codes "hops")
hops_AllChars = is_small-AllChars (codes "hops") refl

bob_AllChars : AllChars (codes "bob")
bob_AllChars = is_small-AllChars (codes "bob") refl

-- One object in two orders of its entries.
abbrev forward : Fields ℕ
forward = field (codes "to") (string (codes "bob")) (field (codes "hops") (number 3) end)

abbrev backward : Fields ℕ
backward = field (codes "hops") (number 3) (field (codes "to") (string (codes "bob")) end)

forward-backward : (k : Text) → get_field k forward ≡ get_field k backward
unfolding get_field text_eq
forward-backward k = elim (Bool-cases (text_eq k (codes "to"))) [
  | inl e ↦ rw (text_eq→eq k (codes "to") e)
  | inr e ↦ elim (Bool-cases (text_eq k (codes "hops"))) [
    | inl d ↦ rw (text_eq→eq k (codes "hops") d)
    | inr d ↦ rw (get_field, e, d)
  ]
]

forward-IsObject : IsObject forward
unfolding get_field text_eq
forward-IsObject = (refl, (refl, tt))

backward-IsObject : IsObject backward
unfolding get_field text_eq
backward-IsObject = (refl, (refl, tt))

forward-IsJson : IsJson (object forward)
unfolding IsJson
forward-IsJson = (forward-IsObject, (to_AllChars, bob_AllChars, (hops_AllChars, tt, tt)))

backward-IsJson : IsJson (object backward)
unfolding IsJson
backward-IsJson = (backward-IsObject, (hops_AllChars, tt, (to_AllChars, bob_AllChars, tt)))

-- An object in an object, with entries out of order, an array and a text that is escaped.
abbrev nested : Value ℕ
nested = object (
    field (codes "to") (string mixed)
      (field (codes "path") (array (cons (number 1) (cons (object backward) nil))) end))

nested-IsJson : IsJson nested
unfolding IsJson get_field text_eq
nested-IsJson = (
  (refl, (refl, tt)),
  (
    to_AllChars,
    mixed-AllChars,
    (is_small-AllChars (codes "path") refl, (tt, (backward-IsJson, tt)), tt),
  ),
)

nested-size : size nested ≤ 20
unfolding size
nested-size = omega arith

read_value-canonical_example :
    read_value read_ones 20 (canonical literals nested ++ codes ",1")
    ≡ some (normal nested, codes ",1")
unfolding in_number
read_value-canonical_example =
    read_value-canonical literals read_ones literals_numbers nested 20 (codes ",1") nested-IsJson
      nested-size refl

canonical_iff_example :
    (canonical literals (object forward) ≡ canonical literals (object backward))
    ↔ (normal (object forward) ≡ normal (object backward))
canonical_iff_example =
    canonical_iff literals read_ones literals_numbers (object forward) (object backward)
      forward-IsJson backward-IsJson
