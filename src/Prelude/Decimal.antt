-- ===== src/Prelude/Decimal.antt =====
-- `u64::to_string` and `{n}` in a format, and `str::parse::<u64>`.
use Prim.Native.Nat.{ℕ, zero, suc, ◌+◌, ◌-◌, ◌*◌, ◌/◌, ◌%◌, ◌^◌, ◌≤◌}
use mathlib.Core.Path.{◌≡◌, refl, sym, ap, ◌∙◌, subst}
use mathlib.Core.Logic.{inl, inr}
use mathlib.Core.Bool.{true, false, ◌&&◌}
use mathlib.Core.Option.{Option, none, some}
use mathlib.Core.List.{[], ◌∷◌}
use native.Mathlib.Omega.{arith}
use sk_core.Prelude.Tests.{ltb, leb, ◌==◌, if◌then◌else◌, Bool-cases, some_injective, eq→==, ne→==}
use sk_core.Prelude.Bytes.{Text, IsU64}
use sk_core.Prelude.Texts.{text_eq, text_eq→eq, text_eq_refl}

-- The digits of `n` before `out`; a number of at most `f` takes at most `f` rounds.
unfoldable pub digits : ℕ → ℕ → Text → Text
digits zero n out = out
digits (suc f) n out = elim (n == 0) [
  | true ↦ out
  | false ↦ digits f (n / 10) ((b'0' + n % 10) ∷ out)
]

unfoldable pub decimal : ℕ → Text
unfolding digits
decimal n = if n == 0 then b'0' ∷ [] else digits n n []

-- `checked_mul` and `checked_add` in a `u64`.
scan : ℕ → Text → Option ℕ
scan n [] = some n
scan n (c ∷ s) =
    if leb b'0' c && leb c b'9' && ltb (n * 10 + (c - b'0')) (2 ^ 64)
    then scan (n * 10 + (c - b'0')) s
    else none

-- A leading plus sign is allowed before a digit.
pub parse_u64 : Text → Option ℕ
unfolding scan
parse_u64 [] = none
parse_u64 (c ∷ []) = scan 0 (c ∷ [])
parse_u64 (c ∷ d ∷ s) = if c == b'+' then scan 0 (d ∷ s) else scan 0 (c ∷ d ∷ s)

scan_digit : (n : ℕ) (out : Text) → IsU64 n → scan (n / 10) ((b'0' + n % 10) ∷ out) ≡ scan n out
unfolding scan
scan_digit n out h = ground arith

scan-digits : (f n : ℕ) (out : Text) → n ≤ f → IsU64 n → scan 0 (digits f n out) ≡ scan n out
unfolding digits
scan-digits zero n out h k = ground arith
scan-digits (suc f) n out h k =
    ground (arith, scan-digits f (n / 10) ((b'0' + n % 10) ∷ out), scan_digit n out)

abbrev pub AllDigits : Text → Type 0
AllDigits [] = Unit {0}
AllDigits (c ∷ s) = ((b'0' ≤ c) × (c ≤ b'9')) × AllDigits s

digits-AllDigits : (f n : ℕ) (out : Text) → AllDigits out → AllDigits (digits f n out)
unfolding digits
digits-AllDigits zero n out h = h
digits-AllDigits (suc f) n out h =
    elim (n == 0)
      as (λ b.
        AllDigits (elim b [ true ↦ out | false ↦ digits f (n / 10) ((b'0' + n % 10) ∷ out) ])) [
          | true ↦ h
          | false ↦
              digits-AllDigits f (n / 10) ((b'0' + n % 10) ∷ out) ((omega arith, omega arith), h)
        ]

-- The text of a number has digits only.
pub decimal-AllDigits : (n : ℕ) → AllDigits (decimal n)
unfolding decimal
decimal-AllDigits n = elim (n == 0) as (λ b. AllDigits (if b then b'0' ∷ [] else digits n n [])) [
  | true ↦ ((omega arith, omega arith), tt)
  | false ↦ digits-AllDigits n n [] tt
]

digits-cons : (f n c : ℕ) (out : Text) → (d : ℕ) × (rest : Text) × (digits f n (c ∷ out) ≡ d ∷ rest)
unfolding digits
digits-cons zero n c out = (c, out, refl)
digits-cons (suc f) n c out = elim (Bool-cases (n == 0)) [
  | inl e ↦ (c, out, rw (digits, e))
  | inr e ↦ rw (digits, e) (digits-cons f (n / 10) (b'0' + n % 10) (c ∷ out))
]

decimal-cons : (n : ℕ) → (d : ℕ) × (rest : Text) × (decimal n ≡ d ∷ rest)
unfolding decimal digits
decimal-cons zero = (b'0', [], refl)
decimal-cons (suc n) =
    let e : (suc n == 0) ≡ false = ground arith in
    rw (decimal, e, digits) (digits-cons n (suc n / 10) (b'0' + suc n % 10) [])

scan-decimal : (n : ℕ) → IsU64 n → scan 0 (decimal n) ≡ some n
unfolding decimal scan
scan-decimal n h = ground (arith, scan-digits n n [] (omega arith) h)

parse_u64-scan : (c : ℕ) (s : Text) → b'0' ≤ c → c ≤ b'9' → parse_u64 (c ∷ s) ≡ scan 0 (c ∷ s)
unfolding parse_u64
parse_u64-scan c [] h k = refl
parse_u64-scan c (d ∷ s) h k = ground arith

-- A `u64` is parsed back from its text.
pub parse_u64-decimal : (n : ℕ) → IsU64 n → parse_u64 (decimal n) ≡ some n
parse_u64-decimal n h =
    let (d, rest, e) = decimal-cons n in
    let first = subst AllDigits e (decimal-AllDigits n) in
    ap parse_u64 e
    ∙ parse_u64-scan d rest first.0.0 first.0.1
    ∙ sym (ap (scan 0) e)
    ∙ scan-decimal n h

decimal_injective : (n m : ℕ) → IsU64 n → IsU64 m → decimal n ≡ decimal m → n ≡ m
decimal_injective n m hn hm e =
    some_injective (sym (parse_u64-decimal n hn) ∙ ap parse_u64 e ∙ parse_u64-decimal m hm)

-- The texts of two `u64`s are compared as the numbers are.
pub text_eq-decimal : (n m : ℕ) → IsU64 n → IsU64 m → text_eq (decimal n) (decimal m) ≡ (n == m)
text_eq-decimal n m hn hm = elim (Bool-cases (text_eq (decimal n) (decimal m))) [
  | inl e ↦ e ∙ sym (eq→== n m (decimal_injective n m hn hm (text_eq→eq (decimal n) (decimal m) e)))
  | inr e ↦
      e
      ∙ sym (
          ne→== n m (λ p.
            cc (sym e ∙ ap (text_eq (decimal n)) (sym (ap decimal p)) ∙ text_eq_refl (decimal n))))
]

scan-IsU64 : (n : ℕ) (s : Text) (r : ℕ) → IsU64 n → scan n s ≡ some r → IsU64 r
unfolding scan
scan-IsU64 n [] r h e = ground arith
scan-IsU64 n (c ∷ s) r h e = ground (arith, scan-IsU64 (n * 10 + (c - b'0')) s r)

-- What is parsed fits a `u64`.
pub parse_u64-IsU64 : (s : Text) (r : ℕ) → parse_u64 s ≡ some r → IsU64 r
unfolding parse_u64
parse_u64-IsU64 [] r e = cc
parse_u64-IsU64 (c ∷ []) r e = scan-IsU64 0 (c ∷ []) r (omega arith) e
parse_u64-IsU64 (c ∷ d ∷ s) r e = elim (Bool-cases (c == b'+')) [
  | inl k ↦ scan-IsU64 0 (d ∷ s) r (omega arith) (rw k at e)
  | inr k ↦ scan-IsU64 0 (c ∷ d ∷ s) r (omega arith) (rw k at e)
]
