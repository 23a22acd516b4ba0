-- ===== src/Prelude/Bytes.antt =====
-- Byte strings, texts as lists of code points, and the big-endian integers of `to_be_bytes` and
-- `from_be_bytes`.
use Prim.Native.Nat.{ℕ, zero, suc, ◌+◌, ◌*◌, ◌/◌, ◌%◌, ◌^◌, ◌<◌}
use Prim.Native.Char.{code}
use Prim.Native.String.{String}
use mathlib.Core.Path.{◌≡◌, refl, ap, sym, ◌∙◌, subst}
use mathlib.Core.List.{List, [], ◌∷◌, ◌++◌}
use native.Mathlib.Omega.{arith}
use sk_core.Prelude.Lists.{length, length-append}

abbrev pub Bytes : Type 0
Bytes = List ℕ

-- A Rust `str` as its `char`s; an ASCII text is its own bytes.
abbrev pub Text : Type 0
Text = List ℕ

abbrev pub codes : String → List ℕ
codes String.[] = []
codes (String.◌∷◌ c s) = code c ∷ codes s

-- The `w` bytes of `n`, most significant first.
unfoldable pub be_bytes : ℕ → ℕ → Bytes
be_bytes zero n = []
be_bytes (suc w) n = be_bytes w (n / 256) ++ (n % 256 ∷ [])

from_be_loop : ℕ → Bytes → ℕ
from_be_loop acc [] = acc
from_be_loop acc (b ∷ bs) = from_be_loop (acc * 256 + b) bs

pub from_be_bytes : Bytes → ℕ
unfolding from_be_loop
from_be_bytes bs = from_be_loop 0 bs

pub length-be_bytes : (w n : ℕ) → length (be_bytes w n) ≡ w
unfolding be_bytes
length-be_bytes zero n = refl
length-be_bytes (suc w) n =
    omega (arith, length-append (be_bytes w (n / 256)) (n % 256 ∷ []), length-be_bytes w (n / 256))

from_be_loop-append :
    (acc : ℕ) (bs : Bytes) (b : ℕ)
    → from_be_loop acc (bs ++ (b ∷ [])) ≡ from_be_loop acc bs * 256 + b
unfolding from_be_loop
from_be_loop-append acc [] b = refl
from_be_loop-append acc (c ∷ bs) b = from_be_loop-append (acc * 256 + c) bs b

pub from_be_bytes-be_bytes : (w n : ℕ) → n < 256 ^ w → from_be_bytes (be_bytes w n) ≡ n
unfolding from_be_bytes be_bytes
from_be_bytes-be_bytes zero n h = omega arith
from_be_bytes-be_bytes (suc w) n h = omega (
  arith,
  from_be_loop-append 0 (be_bytes w (n / 256)) (n % 256),
  from_be_bytes-be_bytes w (n / 256),
)

pub be_bytes_injective :
    (w n m : ℕ) → n < 256 ^ w → m < 256 ^ w → be_bytes w n ≡ be_bytes w m → n ≡ m
be_bytes_injective w n m hn hm e =
    sym (from_be_bytes-be_bytes w n hn) ∙ ap from_be_bytes e ∙ from_be_bytes-be_bytes w m hm

abbrev pub AllBytes : Bytes → Type 0
AllBytes [] = Unit {0}
AllBytes (b ∷ bs) = (b < 256) × AllBytes bs

pub AllBytes-append_right : (xs ys : Bytes) → AllBytes (xs ++ ys) → AllBytes ys
AllBytes-append_right [] ys h = h
AllBytes-append_right (x ∷ xs) ys h = AllBytes-append_right xs ys h.1

pub AllBytes-append_left : (xs ys : Bytes) → AllBytes (xs ++ ys) → AllBytes xs
AllBytes-append_left [] ys h = tt
AllBytes-append_left (x ∷ xs) ys h = (h.0, AllBytes-append_left xs ys h.1)

snoc_of : (x : ℕ) (xs : Bytes) → (ys : Bytes) × (b : ℕ) × ((x ∷ xs) ≡ ys ++ (b ∷ []))
snoc_of x [] = ([], x, refl)
snoc_of x (y ∷ xs) = let (ys, b, e) = snoc_of y xs in (x ∷ ys, b, ap (◌∷◌ x) e)

-- `from_be_bytes` loses nothing: the bytes are those of the number.
pub be_bytes-from_be_bytes :
    (w : ℕ) (bs : Bytes) → length bs ≡ w → AllBytes bs → be_bytes w (from_be_bytes bs) ≡ bs
unfolding be_bytes from_be_bytes
be_bytes-from_be_bytes zero [] h a = refl
be_bytes-from_be_bytes zero (x ∷ xs) h a = absurd (omega arith)
be_bytes-from_be_bytes (suc w) [] h a = absurd (omega arith)
be_bytes-from_be_bytes (suc w) (x ∷ xs) h a =
    let (ys, b, e) = snoc_of x xs in
    let low : b < 256 = (AllBytes-append_right ys (b ∷ []) (subst AllBytes e a)).0 in
    let v = from_be_loop 0 ys in
    let ih =
      be_bytes-from_be_bytes w ys (omega (arith, ap length e, length-append ys (b ∷ [])))
        (AllBytes-append_left ys (b ∷ []) (subst AllBytes e a)) in
    let whole : from_be_loop 0 (x ∷ xs) ≡ v * 256 + b =
      ap (from_be_loop 0) e ∙ from_be_loop-append 0 ys b in
    let high : (v * 256 + b) / 256 ≡ v = omega arith in
    let last : (v * 256 + b) % 256 ≡ b = omega arith in
    ap (be_bytes (suc w)) whole ∙ rw (high, last, ih) (sym e)

pub AllBytes-append : (xs ys : Bytes) → AllBytes xs → AllBytes ys → AllBytes (xs ++ ys)
AllBytes-append [] ys h k = k
AllBytes-append (x ∷ xs) ys h k = (h.0, AllBytes-append xs ys h.1 k)

pub be_bytes-AllBytes : (w n : ℕ) → AllBytes (be_bytes w n)
unfolding be_bytes
be_bytes-AllBytes zero n = tt
be_bytes-AllBytes (suc w) n =
    AllBytes-append (be_bytes w (n / 256)) (n % 256 ∷ []) (be_bytes-AllBytes w (n / 256))
      (omega arith, tt)

-- The number of `w` bytes is below `256 ^ w`.
pub from_be_bytes-lt :
    (w : ℕ) (bs : Bytes) → length bs ≡ w → AllBytes bs → from_be_bytes bs < 256 ^ w
unfolding from_be_bytes from_be_loop
from_be_bytes-lt zero [] h a = omega arith
from_be_bytes-lt zero (x ∷ xs) h a = absurd (omega arith)
from_be_bytes-lt (suc w) [] h a = absurd (omega arith)
from_be_bytes-lt (suc w) (x ∷ xs) h a =
    let (ys, b, e) = snoc_of x xs in
    let low : b < 256 = (AllBytes-append_right ys (b ∷ []) (subst AllBytes e a)).0 in
    let ih =
      from_be_bytes-lt w ys (omega (arith, ap length e, length-append ys (b ∷ [])))
        (AllBytes-append_left ys (b ∷ []) (subst AllBytes e a)) in
    let whole : from_be_loop 0 (x ∷ xs) ≡ from_be_loop 0 ys * 256 + b =
      ap (from_be_loop 0) e ∙ from_be_loop-append 0 ys b in
    omega arith

-- `u64` and `u32`.
abbrev pub IsU64 : ℕ → Type 0
IsU64 n = n < 2 ^ 64

abbrev pub IsU32 : ℕ → Type 0
IsU32 n = n < 2 ^ 32

abbrev pub u64_be : ℕ → Bytes
u64_be = be_bytes 8

-- `(n as u32).to_be_bytes()`: the cast drops the upper bits.
abbrev pub u32_be : ℕ → Bytes
u32_be n = be_bytes 4 (n % 2 ^ 32)

-- The cast does not show in the bytes: they keep 32 bits anyway.
pub u32_be-be_bytes : (n : ℕ) → u32_be n ≡ be_bytes 4 n
unfolding be_bytes
u32_be-be_bytes n =
    let a : n % 2 ^ 32 % 256 ≡ n % 256 = omega arith in
    let b : n % 2 ^ 32 / 256 % 256 ≡ n / 256 % 256 = omega arith in
    let c : n % 2 ^ 32 / 256 / 256 % 256 ≡ n / 256 / 256 % 256 = omega arith in
    let d : n % 2 ^ 32 / 256 / 256 / 256 % 256 ≡ n / 256 / 256 / 256 % 256 = omega arith in
    rw (a, b, c, d)
