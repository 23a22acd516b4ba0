-- ===== src/Pqroute/Canonical/Ascii.antt =====
-- A canonical string is printable ASCII, whatever characters it encodes.
use sk_core.Prelude.{
  ℕ, zero, suc, ◌+◌, ◌-◌, ◌/◌, ◌%◌, ◌≤◌, ◌<◌, ◌≡◌, refl, Bool, true, false, ◌&&◌, [], ◌∷◌, ◌++◌,
  leb, ◌==◌, if◌then◌else◌, arith, length,
}
use sk_core.Prelude.Bytes.{Bytes, Text, codes}
use sk_core.Pqroute.Canonical.{
  nth, hex_digit, push_u_escape, encode_char, encode_chars, encode_string_ascii,
}

-- Printable ASCII, from the blank to the tilde.
abbrev pub IsPrintable : Bytes → Type 0
IsPrintable [] = Unit {0}
IsPrintable (b ∷ bs) = ((0x20 ≤ b) × (b ≤ 0x7e)) × IsPrintable bs

IsPrintable-append : (xs ys : Bytes) → IsPrintable xs → IsPrintable ys → IsPrintable (xs ++ ys)
IsPrintable-append [] ys hx hy = hy
IsPrintable-append (x ∷ xs) ys hx hy = (hx.0, IsPrintable-append xs ys hx.1 hy)

nth-IsPrintable :
    (xs : Bytes) (i : ℕ) → IsPrintable xs → i < length xs → (0x20 ≤ nth xs i) × (nth xs i ≤ 0x7e)
unfolding nth
nth-IsPrintable [] i h l = absurd (omega arith)
nth-IsPrintable (x ∷ xs) zero h l = h.0
nth-IsPrintable (x ∷ xs) (suc i) h l = nth-IsPrintable xs i h.1 (omega arith)

digits : IsPrintable (codes "0123456789abcdef")
digits = (
  (omega arith, omega arith),
  (
    (omega arith, omega arith),
    (
      (omega arith, omega arith),
      (
        (omega arith, omega arith),
        (
          (omega arith, omega arith),
          (
            (omega arith, omega arith),
            (
              (omega arith, omega arith),
              (
                (omega arith, omega arith),
                (
                  (omega arith, omega arith),
                  (
                    (omega arith, omega arith),
                    (
                      (omega arith, omega arith),
                      (
                        (omega arith, omega arith),
                        (
                          (omega arith, omega arith),
                          (
                            (omega arith, omega arith),
                            ((omega arith, omega arith), ((omega arith, omega arith), tt)),
                          ),
                        ),
                      ),
                    ),
                  ),
                ),
              ),
            ),
          ),
        ),
      ),
    ),
  ),
)

push_u_escape-IsPrintable : (u : ℕ) → IsPrintable (push_u_escape u)
unfolding push_u_escape hex_digit
push_u_escape-IsPrintable u =
    let digit = λ (d : ℕ) (l : d < 16). nth-IsPrintable (codes "0123456789abcdef") d digits l in
    (
      (omega arith, omega arith),
      (
        (omega arith, omega arith),
        (
          digit (u / 4096 % 16) (omega arith),
          (
            digit (u / 256 % 16) (omega arith),
            (digit (u / 16 % 16) (omega arith), (digit (u % 16) (omega arith), tt)),
          ),
        ),
      ),
    )

if-IsPrintable :
    (b : Bool) (xs ys : Bytes)
    → (b ≡ true → IsPrintable xs)
    → IsPrintable ys
    → IsPrintable (if b then xs else ys)
if-IsPrintable true xs ys hx hy = hx refl
if-IsPrintable false xs ys hx hy = hy

one : (b : ℕ) → 0x20 ≤ b → b ≤ 0x7e → IsPrintable (b ∷ [])
one b h k = ((h, k), tt)

two : (a b : ℕ) → 0x20 ≤ a → a ≤ 0x7e → 0x20 ≤ b → b ≤ 0x7e → IsPrintable (a ∷ b ∷ [])
two a b h k h' k' = ((h, k), one b h' k')

plain-IsPrintable : (c : ℕ) → (leb 0x20 c && leb c 0x7e) ≡ true → IsPrintable (c ∷ [])
plain-IsPrintable c h = one c (ground arith) (ground arith)

encode_char-IsPrintable : (c : ℕ) → IsPrintable (encode_char c)
unfolding encode_char
encode_char-IsPrintable c =
    let escaped =
      λ (e : ℕ) (h : 0x20 ≤ e) (k : e ≤ 0x7e). two b'\\' e (omega arith) (omega arith) h k in
    if-IsPrintable (c == b'"') _ _ (λ _. escaped b'"' (omega arith) (omega arith))
      (if-IsPrintable (c == b'\\') _ _ (λ _. escaped b'\\' (omega arith) (omega arith))
        (if-IsPrintable (c == 0x08) _ _ (λ _. escaped b'b' (omega arith) (omega arith))
          (if-IsPrintable (c == 0x09) _ _ (λ _. escaped b't' (omega arith) (omega arith))
            (if-IsPrintable (c == 0x0a) _ _ (λ _. escaped b'n' (omega arith) (omega arith))
              (if-IsPrintable (c == 0x0c) _ _ (λ _. escaped b'f' (omega arith) (omega arith))
                (if-IsPrintable (c == 0x0d) _ _ (λ _. escaped b'r' (omega arith) (omega arith))
                  (if-IsPrintable (leb 0x20 c && leb c 0x7e) _ _ (plain-IsPrintable c) (
                    if-IsPrintable (leb c 0xffff) _ _ (λ _. push_u_escape-IsPrintable c)
                      (IsPrintable-append (push_u_escape (0xd800 + (c - 0x10000) / 1024))
                        (push_u_escape (0xdc00 + (c - 0x10000) % 1024))
                        (push_u_escape-IsPrintable (0xd800 + (c - 0x10000) / 1024))
                        (push_u_escape-IsPrintable (0xdc00 + (c - 0x10000) % 1024)))))))))))

encode_chars-IsPrintable : (s : Text) → IsPrintable (encode_chars s)
unfolding encode_chars
encode_chars-IsPrintable [] = tt
encode_chars-IsPrintable (c ∷ s) =
    IsPrintable-append (encode_char c) (encode_chars s) (encode_char-IsPrintable c)
      (encode_chars-IsPrintable s)

-- Whatever its characters, control characters and non-ASCII ones included, the canonical text of a
-- string is printable ASCII.
pub encode_string_ascii-IsPrintable : (s : Text) → IsPrintable (encode_string_ascii s)
unfolding encode_string_ascii
encode_string_ascii-IsPrintable s = (
  (omega arith, omega arith),
  IsPrintable-append (encode_chars s) (b'"' ∷ []) (encode_chars-IsPrintable s)
      (one b'"' (omega arith) (omega arith)),
)
