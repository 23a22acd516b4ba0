-- ===== src/Report/Words.antt =====
-- The screen of src/report.rs for forbidden words, on notes that are put together from parts.
use sk_core.Prelude.{
  ℕ, ◌≡◌, refl, ap, Bool, true, false, not, ◌||◌, ◌&&◌, List, [], ◌∷◌, ◌++◌, ◌==◌, ◌≤◌, ◌<◌,
  if◌then◌else◌, arith,
}
use sk_core.Prelude.Bytes.{Text, codes}
use sk_core.Prelude.Decimal.{decimal, AllDigits, decimal-AllDigits}
use sk_core.Report.{
  lower_char, to_ascii_lowercase, starts_with, contains, contains_any, forbidden_words,
  is_honest_note,
}

-- A word without the character `c`, and words that are all without it.
abbrev lacks : ℕ → Text → Bool
lacks c [] = true
lacks c (d ∷ w) = if c == d then false else lacks c w

abbrev all_lack : ℕ → List Text → Bool
all_lack c [] = true
all_lack c (w ∷ ws) = lacks c w && all_lack c ws

starts_with-append :
    (c : ℕ) (w a b : Text) → lacks c w ≡ true → starts_with (a ++ c ∷ b) w ≡ starts_with a w
unfolding starts_with
starts_with-append c [] a b h = refl
starts_with-append c (d ∷ w) [] b h = ground arith
starts_with-append c (d ∷ w) (e ∷ a) b h = ground (arith, starts_with-append c w a b)

starts_with_nil : (c : ℕ) (w b : Text) → lacks c w ≡ true → starts_with (c ∷ b) w ≡ starts_with [] w
unfolding starts_with
starts_with_nil c [] b h = refl
starts_with_nil c (d ∷ w) b h = ground arith

-- A word without `c` stands before a `c` or behind it.
contains-append :
    (c : ℕ) (w a b : Text)
    → lacks c w ≡ true
    → contains (a ++ c ∷ b) w ≡ (contains a w || contains b w)
unfolding contains
contains-append c w [] b h = ap (λ x. x || contains b w) (starts_with_nil c w b h)
contains-append c w (d ∷ a) b h =
    ground (arith, starts_with-append c w (d ∷ a) b h, contains-append c w a b h)

contains_any-append :
    (c : ℕ) (ws : List Text) (a b : Text)
    → all_lack c ws ≡ true
    → contains_any (a ++ c ∷ b) ws ≡ (contains_any a ws || contains_any b ws)
unfolding contains_any
contains_any-append c [] a b h = refl
contains_any-append c (w ∷ ws) a b h =
    ground (arith, contains-append c w a b, contains_any-append c ws a b)

to_ascii_lowercase-append :
    (a b : Text) → to_ascii_lowercase (a ++ b) ≡ to_ascii_lowercase a ++ to_ascii_lowercase b
unfolding to_ascii_lowercase
to_ascii_lowercase-append [] b = refl
to_ascii_lowercase-append (c ∷ a) b = ap (λ x. lower_char c ∷ x) (to_ascii_lowercase-append a b)

-- A character in no forbidden word, which lower case leaves as it is.
abbrev IsDelimiter : ℕ → Type 0
IsDelimiter c = (lower_char c ≡ c) × (all_lack c forbidden_words ≡ true)

pub blank-IsDelimiter : IsDelimiter b' '
unfolding lower_char
blank-IsDelimiter = (refl, refl)

pub open-IsDelimiter : IsDelimiter b'('
unfolding lower_char
open-IsDelimiter = (refl, refl)

pub close-IsDelimiter : IsDelimiter b')'
unfolding lower_char
close-IsDelimiter = (refl, refl)

-- A note is honest if the parts at both sides of a delimiter are.
pub is_honest_note-append :
    (c : ℕ) (a b : Text)
    → IsDelimiter c
    → is_honest_note (a ++ c ∷ b) ≡ (is_honest_note a && is_honest_note b)
unfolding is_honest_note to_ascii_lowercase contains_any
is_honest_note-append c a b h =
    rw
      (
        to_ascii_lowercase-append a (c ∷ b),
        to_ascii_lowercase,
        h.0,
        contains_any-append c forbidden_words (to_ascii_lowercase a) (to_ascii_lowercase b) h.1,
      )
      (negated (contains_any (to_ascii_lowercase a) forbidden_words)
        (contains_any (to_ascii_lowercase b) forbidden_words))
  where
    negated : (x y : Bool) → not (x || y) ≡ (not x && not y)
    negated true y = refl
    negated false y = refl

-- The text of a number is honest: its digits begin no word.
starts_with-digits :
    (c : ℕ) (s : Text)
    → b'0' ≤ c
    → c ≤ b'9'
    → (w : Text) → (d : ℕ) → b'9' < d
    → starts_with (c ∷ s) (d ∷ w) ≡ false
unfolding starts_with
starts_with-digits c s h k w d l = ground arith

contains-digits :
    (s : Text) (d : ℕ) (w : Text) → AllDigits s → b'9' < d → contains s (d ∷ w) ≡ false
unfolding contains starts_with
contains-digits [] d w h l = refl
contains-digits (c ∷ s) d w h l =
    ground (arith, starts_with-digits c s h.0.0 h.0.1 w d l, contains-digits s d w h.1 l)

to_ascii_lowercase-digits : (s : Text) → AllDigits s → to_ascii_lowercase s ≡ s
unfolding to_ascii_lowercase lower_char
to_ascii_lowercase-digits [] h = refl
to_ascii_lowercase-digits (c ∷ s) h = ground (arith, to_ascii_lowercase-digits s h.1)

pub is_honest_note-decimal : (n : ℕ) → is_honest_note (decimal n) ≡ true
unfolding is_honest_note contains_any
is_honest_note-decimal n = rw (
  to_ascii_lowercase-digits (decimal n) (decimal-AllDigits n),
  contains-digits (decimal n) b'q' (codes "uantum-proof") (decimal-AllDigits n) (omega arith),
  contains-digits (decimal n) b'q' (codes "uantum-safe") (decimal-AllDigits n) (omega arith),
  contains-digits (decimal n) b'u' (codes "nbreakable") (decimal-AllDigits n) (omega arith),
)
