-- ===== src/Pqroute/Canonical/Reading.antt =====
-- A canonical string is read back to the text that it was written for.
use sk_core.Prelude.{
  ℕ, zero, suc, ◌+◌, ◌-◌, ◌/◌, ◌%◌, ◌<◌, ◌≡◌, refl, ap, ◌∙◌, inl, inr, Bool, true, false, ◌&&◌,
  Option, some, none, List, [], ◌∷◌, ◌++◌, leb, ◌==◌, ==_iff, if◌then◌else◌, arith, Bool-cases,
}
use mathlib.Core.List.{append_assoc}
use sk_core.Prelude.Bytes.{Bytes, Text}
use sk_core.Pqroute.Canonical.{
  nth, hex_digit, push_u_escape, encode_char, encode_chars, encode_string_ascii,
}
use sk_core.Pqroute.Canonical.Reader.{
  hex_value, plain, prepend, simple, units, read_string, IsChar, AllChars,
}
use sk_core.Pqroute.Canonical.Surrogates.{utf16_char, utf16, characters-utf16}

-- Every digit is read as what it was written for.
all_below : ℕ → (ℕ → Bool) → Bool
all_below zero test = true
all_below (suc n) test = test n && all_below n test

all_below_sound :
    (n : ℕ) (test : ℕ → Bool) → all_below n test ≡ true → (i : ℕ) → i < n → test i ≡ true
unfolding all_below
all_below_sound zero test h i l = absurd (omega arith)
all_below_sound (suc n) test h i l = elim (Bool-cases (i == n)) [
  | inl e ↦ ground (arith, ap test ((==_iff i n).0 e))
  | inr e ↦ all_below_sound n test (ground arith) i (ground arith)
]

reads_digit : ℕ → Bool
reads_digit d = elim (hex_value (hex_digit d)) [ none ↦ false | some e ↦ e == d ]

all_read : all_below 16 reads_digit ≡ true
unfolding all_below reads_digit hex_value hex_digit nth
all_read = refl

reads_digit-eq :
    (d : ℕ) (o : Option ℕ)
    → elim o as (λ _. Bool) [ none ↦ false | some e ↦ e == d ] ≡ true
    → o ≡ some d
reads_digit-eq d none h = cc
reads_digit-eq d (some e) h = ap some ((==_iff e d).0 h)

hex_value-hex_digit : (d : ℕ) → d < 16 → hex_value (hex_digit d) ≡ some d
unfolding reads_digit
hex_value-hex_digit d l =
    reads_digit-eq d (hex_value (hex_digit d)) (all_below_sound 16 reads_digit all_read d l)

prepend_all : List ℕ → Option (List ℕ × Bytes) → Option (List ℕ × Bytes)
unfolding prepend
prepend_all [] o = o
prepend_all (u ∷ us) o = prepend u (prepend_all us o)

prepend_all-some :
    (us vs : List ℕ) (bs : Bytes) → prepend_all us (some (vs, bs)) ≡ some (us ++ vs, bs)
unfolding prepend_all
prepend_all-some [] vs bs = refl
prepend_all-some (u ∷ us) vs bs = ap (prepend u) (prepend_all-some us vs bs)

-- An escaped code unit is read as that unit.
units-push_u_escape :
    (u : ℕ) (bs : Bytes)
    → u < 65536
    → units plain (push_u_escape u ++ bs) ≡ prepend u (units plain bs)
unfolding units push_u_escape
units-push_u_escape u bs l =
    rw
      (
        hex_value-hex_digit (u / 4096 % 16) (omega arith),
        hex_value-hex_digit (u / 256 % 16) (omega arith),
        hex_value-hex_digit (u / 16 % 16) (omega arith),
        hex_value-hex_digit (u % 16) (omega arith),
      )
      (ap (λ x. prepend x (units plain bs)) (omega arith))

-- A character that no letter stands for.
units-unlettered :
    (c : ℕ) (bs : Bytes)
    → IsChar c
    → (c == b'"') ≡ false
    → (c == b'\\') ≡ false
    → units plain (
        (if leb 0x20 c && leb c 0x7e
          then c ∷ []
          else if leb c 0xffff
          then push_u_escape c
          else (push_u_escape (0xd800 + (c - 0x10000) / 1024)
              ++ push_u_escape (0xdc00 + (c - 0x10000) % 1024)))
        ++ bs)
      ≡ prepend_all (utf16_char c) (units plain bs)
unfolding units utf16_char prepend_all
units-unlettered c bs h quote slash = elim (Bool-cases (leb 0x20 c && leb c 0x7e)) [
  | inl e ↦ let short : leb c 0xffff ≡ true = ground arith in rw (e, short, quote, slash)
  | inr e ↦ elim (Bool-cases (leb c 0xffff)) [
    | inl k ↦ rw (e, k) (units-push_u_escape c bs (ground arith))
    | inr k ↦
        let x = 0xd800 + (c - 0x10000) / 1024 in
        let y = 0xdc00 + (c - 0x10000) % 1024 in
        rw (e, k)
          (ap (units plain) (append_assoc (push_u_escape x) (push_u_escape y) bs)
            ∙ units-push_u_escape x (push_u_escape y ++ bs) (high_small c h)
            ∙ ap (prepend x) (units-push_u_escape y bs (omega arith)))
  ]
]
  where
    high_small : (d : ℕ) → IsChar d → 0xd800 + (d - 0x10000) / 1024 < 65536
    high_small d (inl l) = omega arith
    high_small d (inr l) = omega arith

-- A character that is escaped by a letter, or not at all.
units-encode_char :
    (c : ℕ) (bs : Bytes)
    → IsChar c
    → units plain (encode_char c ++ bs) ≡ prepend_all (utf16_char c) (units plain bs)
unfolding units encode_char utf16_char prepend_all simple
units-encode_char c bs h = elim (Bool-cases (c == b'"')) [
  | inl e ↦ rw ((==_iff c b'"').0 e)
  | inr e1 ↦ elim (Bool-cases (c == b'\\')) [
    | inl e ↦ rw ((==_iff c b'\\').0 e)
    | inr e2 ↦ elim (Bool-cases (c == 0x08)) [
      | inl e ↦ rw ((==_iff c 0x08).0 e)
      | inr e3 ↦ elim (Bool-cases (c == 0x09)) [
        | inl e ↦ rw ((==_iff c 0x09).0 e)
        | inr e4 ↦ elim (Bool-cases (c == 0x0a)) [
          | inl e ↦ rw ((==_iff c 0x0a).0 e)
          | inr e5 ↦ elim (Bool-cases (c == 0x0c)) [
            | inl e ↦ rw ((==_iff c 0x0c).0 e)
            | inr e6 ↦ elim (Bool-cases (c == 0x0d)) [
              | inl e ↦ rw ((==_iff c 0x0d).0 e)
              | inr e7 ↦
                  rw (encode_char, e1, e2, e3, e4, e5, e6, e7) (units-unlettered c bs h e1 e2)
            ]
          ]
        ]
      ]
    ]
  ]
]

units-encode_chars :
    (s : Text) (bs : Bytes)
    → AllChars s
    → units plain (encode_chars s ++ (b'"' ∷ bs)) ≡ some (utf16 s, bs)
unfolding units encode_chars utf16
units-encode_chars [] bs h = refl
units-encode_chars (c ∷ s) bs h =
    ap (units plain) (append_assoc (encode_char c) (encode_chars s) (b'"' ∷ bs))
    ∙ units-encode_char c (encode_chars s ++ (b'"' ∷ bs)) h.0
    ∙ ap (prepend_all (utf16_char c)) (units-encode_chars s bs h.1)
    ∙ prepend_all-some (utf16_char c) (utf16 s) bs

-- A reader of JSON strings, with their escapes and surrogate pairs, gives back any text of Unicode
-- scalar values that `encode_string_ascii` has written, and what stands behind it. So no two texts
-- have the same canonical string, and none is the beginning of another.
pub read_string-encode_string_ascii :
    (s : Text) (rest : Bytes)
    → AllChars s
    → read_string (encode_string_ascii s ++ rest) ≡ some (s, rest)
unfolding read_string encode_string_ascii
read_string-encode_string_ascii s rest h = rw (
  append_assoc (encode_chars s) (b'"' ∷ []) rest,
  units-encode_chars s rest h,
  characters-utf16 s h,
)
