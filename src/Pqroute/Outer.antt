-- ===== src/Pqroute/Outer.antt =====
-- The outer framing of a routed blob, and of its inner part: reading back, and no panic.
use sk_core.Prelude.{
  ℕ, ◌+◌, ◌%◌, ◌-◌, ◌≤◌, ◌<◌, ◌^◌, ◌≡◌, ◌≢◌, ◌⊎◌, inl, inr, some, ◌++◌, length, take, drop, arith,
  le→ltb, lt→ltb, length-append, Option-cases,
}
use native.Mathlib.Decide.{dec_lt}
use sk_core.Prelude.Bytes.{Bytes, u32_be, from_be_bytes, length-be_bytes, from_be_bytes-be_bytes}
use sk_core.Prelude.Outcome.{
  ok, err, panic, slice_to_in, slice_in, slice_backwards, slice_from_in, slice_to-append,
  slice-append, slice_from-append_append,
}
use sk_core.Prelude.Usize.{usize_add, usize_add-fits, usize_add-wraps}
use sk_core.Json.{Value, SerdeJson}
use sk_core.Pqroute.{
  PqRouteError, format, header_overflow, header_too_long, framed, no_length_prefix, split_outer,
  open_inner,
}

module _ (usize : ℕ) (head rest : Bytes) (wide : 2 ^ 33 ≤ usize)
    (short : length head < 2 ^ 32) where
  prefix_reads : from_be_bytes (u32_be (length head)) % 2 ^ 32 ≡ length head
  prefix_reads = omega (arith, from_be_bytes-be_bytes 4 (length head % 2 ^ 32) (omega arith))

  -- A frame splits into the parts it was made of.
  pub split_outer-framed : split_outer usize (framed head rest) ≡ ok (head, rest)
  unfolding split_outer framed
  split_outer-framed =
      let size = length-be_bytes 4 (length head % 2 ^ 32) in
      let whole : length (u32_be (length head) ++ (head ++ rest))
          ≡ 4 + (length head + length rest) =
        omega (
          arith,
          length-append (u32_be (length head)) (head ++ rest),
          length-append head rest,
          size,
        ) in
      rw (
        whole,
        le→ltb (4 + (length head + length rest)) 4 (omega arith),
        slice_to-append (u32_be (length head)) (head ++ rest) size,
        prefix_reads,
        lt→ltb (4 + length head) usize (omega arith),
        le→ltb (4 + (length head + length rest)) (4 + length head) (omega arith),
        slice-append (u32_be (length head)) head rest {lo = 4} {hi = 4 + length head} size
            (omega (arith, size)),
        slice_from-append_append (u32_be (length head)) head rest {hi = 4 + length head}
            (omega (arith, size)),
      )

  pub open_inner-framed :
      {N : Type 0} (json : SerdeJson N) (v : Value N)
      → json.from_slice head ≡ some v
      → open_inner json usize (framed head rest) ≡ ok (v, rest)
  unfolding open_inner framed
  open_inner-framed json v reads =
      let size = length-be_bytes 4 (length head % 2 ^ 32) in
      let whole : length (u32_be (length head) ++ (head ++ rest))
          ≡ 4 + (length head + length rest) =
        omega (
          arith,
          length-append (u32_be (length head)) (head ++ rest),
          length-append head rest,
          size,
        ) in
      rw (
        whole,
        le→ltb (4 + (length head + length rest)) 4 (omega arith),
        slice_to-append (u32_be (length head)) (head ++ rest) size,
        prefix_reads,
        usize_add-fits usize 4 (length head) (omega arith),
        le→ltb (4 + (length head + length rest)) (4 + length head) (omega arith),
        slice-append (u32_be (length head)) head rest {lo = 4} {hi = 4 + length head} size
            (omega (arith, size)),
        slice_from-append_append (u32_be (length head)) head rest {hi = 4 + length head}
            (omega (arith, size)),
        reads,
      )

-- Every blob splits or is reported as a bad format.
pub split_outer_cases :
    (usize : ℕ) (blob : Bytes)
    → ((parts : Bytes × Bytes) × (split_outer usize blob ≡ ok parts))
      ⊎ ((e : PqRouteError) × (split_outer usize blob ≡ err e))
unfolding split_outer
split_outer_cases usize blob = elim (dec_lt (length blob) 4) [
  | yes bad ↦ inr (format no_length_prefix, rw (lt→ltb (length blob) 4 bad))
  | no good ↦ prefixed (omega arith)
]
  where
    n : ℕ
    n = 4 + from_be_bytes (take 4 blob) % 2 ^ 32

    prefixed :
        4 ≤ length blob
        → ((parts : Bytes × Bytes) × (split_outer usize blob ≡ ok parts))
          ⊎ ((e : PqRouteError) × (split_outer usize blob ≡ err e))
    prefixed size = elim (dec_lt n usize) [
      | no big ↦ inr (
        format header_overflow,
        rw (le→ltb (length blob) 4 size, slice_to_in 4 blob size, le→ltb n usize (omega arith)),
      )
      | yes small ↦ elim (dec_lt (length blob) n) [
        | yes beyond ↦ inr (
          format header_too_long,
          rw (
            le→ltb (length blob) 4 size,
            slice_to_in 4 blob size,
            lt→ltb n usize small,
            lt→ltb (length blob) n beyond,
          ),
        )
        | no within ↦
            let fits : n ≤ length blob = omega arith in
            inl (
              (take (n - 4) (drop 4 blob), drop n blob),
              rw (
                le→ltb (length blob) 4 size,
                slice_to_in 4 blob size,
                lt→ltb n usize small,
                le→ltb (length blob) n fits,
                slice_in 4 n blob (omega arith) fits,
                slice_from_in n blob fits,
              ),
            )
      ]
    ]

pub open_inner-ne-panic :
    {N : Type 0} (json : SerdeJson N) (usize : ℕ) (inner : Bytes)
    → 2 ^ 33 ≤ usize
    → open_inner json usize inner ≢ panic
unfolding open_inner
open_inner-ne-panic json usize inner wide = elim (dec_lt (length inner) 4) [
  | yes bad ↦ rw (lt→ltb (length inner) 4 bad) (λ p. cc)
  | no good ↦ prefixed (omega arith)
]
  where
    n : ℕ
    n = 4 + from_be_bytes (take 4 inner) % 2 ^ 32

    fits_usize : usize_add usize 4 (from_be_bytes (take 4 inner) % 2 ^ 32) ≡ n
    fits_usize = usize_add-fits usize 4 (from_be_bytes (take 4 inner) % 2 ^ 32) (omega arith)

    prefixed : 4 ≤ length inner → open_inner json usize inner ≢ panic
    prefixed size = elim (dec_lt (length inner) n) [
      | yes beyond ↦
          rw
            (
              le→ltb (length inner) 4 size,
              slice_to_in 4 inner size,
              fits_usize,
              lt→ltb (length inner) n beyond,
            )
            (λ p. cc)
      | no within ↦
          let fits : n ≤ length inner = omega arith in
          elim (Option-cases (json.from_slice (take (n - 4) (drop 4 inner)))) [
            | inl none_read ↦
                rw
                  (
                    le→ltb (length inner) 4 size,
                    slice_to_in 4 inner size,
                    fits_usize,
                    le→ltb (length inner) n fits,
                    slice_in 4 n inner (omega arith) fits,
                    slice_from_in n inner fits,
                    none_read,
                  )
                  (λ p. cc)
            | inr (v, read) ↦
                rw
                  (
                    le→ltb (length inner) 4 size,
                    slice_to_in 4 inner size,
                    fits_usize,
                    le→ltb (length inner) n fits,
                    slice_in 4 n inner (omega arith) fits,
                    slice_from_in n inner fits,
                    read,
                  )
                  (λ p. cc)
          ]
    ]

-- With a `usize` of 32 bits, an inner part that begins with a length of at least 2^32 - 4 makes `open_inner`
-- panic.
open_inner_panics :
    {N : Type 0} (json : SerdeJson N) (n : ℕ) (rest : Bytes)
    → n < 2 ^ 32
    → 2 ^ 32 ≤ 4 + n
    → open_inner json (2 ^ 32) (u32_be n ++ rest) ≡ panic
unfolding open_inner
open_inner_panics json n rest hn wraps =
    let small : n % 2 ^ 32 ≡ n = omega arith in
    let size = length-be_bytes 4 (n % 2 ^ 32) in
    let reads : from_be_bytes (u32_be n) % 2 ^ 32 ≡ n =
      omega (arith, from_be_bytes-be_bytes 4 (n % 2 ^ 32) (omega arith)) in
    let before = usize_add-wraps (2 ^ 32) 4 n (omega arith) hn wraps in
    let whole = length-append (u32_be n) rest in
    rw (
      le→ltb (length (u32_be n ++ rest)) 4 (omega arith),
      slice_to-append (u32_be n) rest size,
      reads,
      le→ltb (length (u32_be n ++ rest)) (usize_add (2 ^ 32) 4 n) (omega arith),
      slice_backwards 4 (usize_add (2 ^ 32) 4 n) (u32_be n ++ rest) before,
    )
