-- ===== src/Pqroute/Canonical/Surrogates.antt =====
-- The code units of a text in UTF-16, and the characters that they stand for.
use sk_core.Prelude.{
  ℕ, ◌+◌, ◌-◌, ◌*◌, ◌/◌, ◌%◌, ◌≡◌, refl, ap, ◌∙◌, inl, inr, true, false, ◌&&◌, List, [], ◌∷◌, ◌++◌,
  leb, if◌then◌else◌, arith, Bool-cases,
}
use sk_core.Prelude.Bytes.{Text}
use sk_core.Pqroute.Canonical.Reader.{is_high, is_low, characters, IsChar, AllChars}

unfoldable pub utf16_char : ℕ → List ℕ
utf16_char c =
    if leb c 0xffff
    then c ∷ []
    else (0xd800 + (c - 0x10000) / 1024) ∷ (0xdc00 + (c - 0x10000) % 1024) ∷ []

unfoldable pub utf16 : Text → List ℕ
unfolding utf16_char
utf16 [] = []
utf16 (c ∷ s) = utf16_char c ++ utf16 s

-- No text begins with the second half of a pair.
abbrev NotLow : List ℕ → Type 0
NotLow [] = Unit {0}
NotLow (v ∷ us) = is_low v ≡ false

utf16-NotLow : (s : Text) → AllChars s → NotLow (utf16 s)
unfolding utf16 utf16_char is_low
utf16-NotLow [] h = tt
utf16-NotLow (c ∷ s) h = elim (Bool-cases (leb c 0xffff)) [
  | inl e ↦ rw e (not_low c h.0)
  | inr e ↦ rw e (ground arith)
]
  where
    not_low : (x : ℕ) → IsChar x → (leb 0xdc00 x && leb x 0xdfff) ≡ false
    not_low x (inl l) = ground arith
    not_low x (inr l) = ground arith

-- A pair of surrogates stands for the character that it was made from.
pair_is :
    (c : ℕ)
    → IsChar c
    → leb c 0xffff ≡ false
    → ((is_high (0xd800 + (c - 0x10000) / 1024) && is_low (0xdc00 + (c - 0x10000) % 1024)) ≡ true)
      × (0x10000
            + ((0xd800 + (c - 0x10000) / 1024 - 0xd800) * 1024
                + (0xdc00 + (c - 0x10000) % 1024 - 0xdc00))
          ≡ c)
unfolding is_high is_low
pair_is c (inl l) e = absurd (ground arith)
pair_is c (inr l) e = (ground arith, ground arith)

characters-utf16_char :
    (c : ℕ) (us : List ℕ)
    → IsChar c
    → NotLow us
    → characters (utf16_char c ++ us) ≡ c ∷ characters us
unfolding characters utf16_char
characters-utf16_char c [] h k = elim (Bool-cases (leb c 0xffff)) [
  | inl e ↦ rw e
  | inr e ↦ let (paired, back) = pair_is c h e in rw (e, paired, back)
]
characters-utf16_char c (v ∷ us) h k = elim (Bool-cases (leb c 0xffff)) [
  | inl e ↦ rw e (ground (arith, k))
  | inr e ↦ let (paired, back) = pair_is c h e in rw (e, paired, back)
]

pub characters-utf16 : (s : Text) → AllChars s → characters (utf16 s) ≡ s
unfolding characters utf16
characters-utf16 [] h = refl
characters-utf16 (c ∷ s) h =
    characters-utf16_char c (utf16 s) h.0 (utf16-NotLow s h.1)
    ∙ ap (λ x. c ∷ x) (characters-utf16 s h.1)
