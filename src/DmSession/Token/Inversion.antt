-- ===== src/DmSession/Token/Inversion.antt =====
-- What the parser accepts: the binaries that frames are written as, and no others.
use sk_core.Prelude.{
  ℕ, zero, suc, ◌+◌, ◌≤◌, ◌<◌, ◌^◌, ◌≡◌, ◌⊎◌, refl, ap, sym, ◌∙◌, inl, inr, ltb, le→ltb, Bool-cases,
  Option, none, some, List, [], ◌∷◌, ◌++◌, length, take, drop, arith, length-drop, length-take,
  take-append-drop, ◌==◌, ==_iff,
}
use mathlib.Core.List.{append-nil, append_assoc}
use mathlib.Core.Path.{subst}
use native.Mathlib.Decide.{dec_lt}
use native.Mathlib.Nat.{add-sub_cancel_left}
use sk_core.Prelude.Bytes.{
  Bytes, u64_be, u32_be, be_bytes, from_be_bytes, be_bytes-from_be_bytes, AllBytes,
  AllBytes-append_left, AllBytes-append_right, u32_be-be_bytes, from_be_bytes-lt, IsU32,
}
use sk_core.Prelude.Outcome.{
  ok, err, panic, guard, slice_in, slice_backwards, bind_inv, >>=-elim, guard-eq-ok,
}
use sk_core.Prelude.Usize.{usize_add, usize_add-fits, usize_add-wraps}
use sk_core.DmSession.{SealedDmFrame, bad_token, truncated, trailing_bytes}
use sk_core.DmSession.Token.RoundTrip.{drop_add, IsWire, KamFits}
use sk_core.DmSession.Token.{kam_bytes, frame_blob, take_chunk, take_int, take_kam, parse_blob}

module _ (usize : ℕ) (blob : Bytes) where
  -- Where the sum fits, `take!` reports a truncated frame, or gives the next `n` bytes.
  pub take_chunk_fits :
      (off n : ℕ)
      → off + n < usize
      → (take_chunk usize blob off n ≡ err (bad_token truncated))
        ⊎ ((off + n ≤ length blob)
            × (take_chunk usize blob off n ≡ ok (take n (drop off blob), off + n)))
  unfolding take_chunk
  take_chunk_fits off n fits =
      rw (usize_add-fits usize off n fits) (elim (Bool-cases (ltb (length blob) (off + n))) [
        | inl short ↦ inl (rw short)
        | inr long ↦
            let size : off + n ≤ length blob = ground arith in
            inr (
              size,
              rw (long, slice_in off (off + n) blob (omega arith) size, add-sub_cancel_left off n),
            )
      ])

  -- Where it wraps around, the end comes before the cursor, and the slice panics.
  pub take_chunk_wraps :
      (off n : ℕ)
      → off ≤ length blob
      → off < usize
      → n < usize
      → usize ≤ off + n
      → take_chunk usize blob off n ≡ panic
  unfolding take_chunk
  take_chunk_wraps off n at ho hn wraps =
      let before = usize_add-wraps usize off n ho hn wraps in
      rw (
        le→ltb (length blob) (usize_add usize off n) (omega arith),
        slice_backwards off (usize_add usize off n) blob before,
      )

  -- The cursor is a `usize` within the binary.
  abbrev pub InBlob : ℕ → Type 0
  InBlob off = (off ≤ length blob) × (off < usize)

  -- A chunk that was taken stands at the cursor.
  take_chunk_inv :
      (off n : ℕ) {r : Bytes × ℕ}
      → InBlob off
      → n < usize
      → take_chunk usize blob off n ≡ ok r
      → (length r.0 ≡ n) × (drop off blob ≡ r.0 ++ drop r.1 blob) × InBlob r.1
  take_chunk_inv off n {r} (within, ho) hn e = elim (dec_lt (off + n) usize) [
    | no wraps ↦ absurd (cc (take_chunk_wraps off n within ho hn (omega arith)))
    | yes fits ↦ elim (take_chunk_fits off n fits) [
      | inl bad ↦ cc
      | inr (size, good) ↦
          let same : (take n (drop off blob), off + n) ≡ r = cc in
          subst
            (λ (q : Bytes × ℕ).
              (length q.0 ≡ n) × (drop off blob ≡ q.0 ++ drop q.1 blob) × InBlob q.1)
            same
            (
              omega (arith, length-take n (drop off blob), length-drop off blob),
              rw (drop_add off n blob) (sym (take-append-drop n (drop off blob))),
              (size, fits),
            )
    ]
  ]

  -- So does the integer that was read.
  pub take_int_inv :
      (off w : ℕ) {r : ℕ × ℕ}
      → InBlob off
      → w < usize
      → AllBytes (drop off blob)
      → take_int usize blob off w ≡ ok r
      → (drop off blob ≡ be_bytes w r.0 ++ drop r.1 blob)
        × InBlob r.1
        × AllBytes (drop r.1 blob)
        × (r.0 < 256 ^ w)
  unfolding take_int
  take_int_inv off w {r} within few bytes e =
      let ((chunk, o), c, d) = bind_inv (take_chunk usize blob off w) _ e in
      let (l, at, h) = take_chunk_inv off w within few c in
      let split : AllBytes (chunk ++ drop o blob) = subst AllBytes at bytes in
      let same : (from_be_bytes chunk, o) ≡ r = cc in
      subst
        (λ (q : ℕ × ℕ).
          (drop off blob ≡ be_bytes w q.0 ++ drop q.1 blob)
          × InBlob q.1
          × AllBytes (drop q.1 blob)
          × (q.0 < 256 ^ w))
        same
        (
          rw (be_bytes-from_be_bytes w chunk l (AllBytes-append_left chunk (drop o blob) split)) at,
          h,
          AllBytes-append_right chunk (drop o blob) split,
          from_be_bytes-lt w chunk l (AllBytes-append_left chunk (drop o blob) split),
        )

  module _ (wide : 2 ^ 32 ≤ usize) where
    pub take_sized_inv :
        (off : ℕ) {n o : ℕ} {r : Bytes × ℕ}
        → InBlob off
        → AllBytes (drop off blob)
        → take_int usize blob off 4 ≡ ok (n, o)
        → take_chunk usize blob o n ≡ ok r
        → (drop off blob ≡ u32_be (length r.0) ++ (r.0 ++ drop r.1 blob))
          × AllBytes (drop r.1 blob)
          × InBlob r.1
          × IsU32 (length r.0)
    take_sized_inv off {n} {o} {r} within bytes e e' =
        let (at, within', bytes', small) = take_int_inv off 4 within (omega arith) bytes e in
        let (l, at', h) = take_chunk_inv o n within' (omega arith) e' in
        (
          rw (l, u32_be-be_bytes n) (at ∙ ap (◌++◌ (be_bytes 4 n)) at'),
          AllBytes-append_right r.0 (drop r.1 blob) (subst AllBytes at' bytes'),
          h,
          omega arith,
        )

    take_kam_inv :
        (off flag : ℕ) {r : Option Bytes × ℕ}
        → InBlob off
        → AllBytes (drop off blob)
        → take_kam usize blob off flag ≡ ok r
        → (be_bytes 1 flag ++ drop off blob ≡ kam_bytes r.0 ++ drop r.1 blob) × KamFits r.0
    unfolding take_kam kam_bytes be_bytes
    take_kam_inv off zero {r} within bytes e =
        let same : (none, off) ≡ r = cc in
        subst
          (λ (q : Option Bytes × ℕ).
            ((0 ∷ drop off blob) ≡ kam_bytes q.0 ++ drop q.1 blob) × KamFits q.0)
          same (refl, tt)
    take_kam_inv off (suc zero) {r} within bytes e =
        let ((n, o), i, e') = bind_inv (take_int usize blob off 4) _ e in
        let ((kam, o'), j, e'') = bind_inv (take_chunk usize blob o n) _ e' in
        let (at, _, _, small) = take_sized_inv off within bytes i j in
        let same : (some kam, o') ≡ r = cc in
        subst
          (λ (q : Option Bytes × ℕ).
            ((1 ∷ drop off blob) ≡ kam_bytes q.0 ++ drop q.1 blob) × KamFits q.0)
          same
          (ap (◌∷◌ 1) (at ∙ sym (append_assoc (u32_be (length kam)) kam (drop o' blob))), small)
    take_kam_inv off (suc (suc n)) within bytes e = cc

drop-length {ℓ} : {A : Type ℓ} (n : ℕ) (b : List A) → length b ≤ n → drop n b ≡ []
drop-length zero [] h = refl
drop-length (suc n) [] h = refl
drop-length zero (x ∷ b) h = absurd (omega arith)
drop-length (suc n) (x ∷ b) h = drop-length n b (omega arith)

-- A string of bytes that the parser takes for a frame is the string that the frame is written as, and the
-- frame fits the integers of its token.
pub parse_blob_inv :
    (usize : ℕ) (blob : Bytes) (f : SealedDmFrame)
    → 2 ^ 32 ≤ usize
    → AllBytes blob
    → parse_blob usize blob ≡ ok f
    → IsWire f × (frame_blob f ≡ blob)
unfolding parse_blob frame_blob
parse_blob_inv usize blob f wide bytes e = >>=-elim _ _ e λ (epoch, o1) e1 r1.
    >>=-elim _ _ r1 λ (index, o2) e2 r2. >>=-elim _ _ r2 λ (n, o3) e3 r3.
      >>=-elim _ _ r3 λ (nonce, o4) e4 r4. >>=-elim _ _ r4 λ (m, o5) e5 r5.
        >>=-elim _ _ r5 λ (body, o6) e6 r6. >>=-elim _ _ r6 λ (flag, o7) e7 r7.
          >>=-elim _ _ r7 λ (kam, o8) e8 r8.
            >>=-elim (guard (o8 == length blob) (bad_token trailing_bytes)) _ r8 λ _ g r9.
              let (d1, p1, b1, u1) =
                take_int_inv usize blob 0 8 (omega arith, omega arith) (omega arith) bytes e1 in
              let (d2, p2, b2, u2) = take_int_inv usize blob o1 8 p1 (omega arith) b1 e2 in
              let (d3, b3, p3, u3) = take_sized_inv usize blob wide o2 p2 b2 e3 e4 in
              let (d4, b4, p4, u4) = take_sized_inv usize blob wide o4 p3 b3 e5 e6 in
              let (d5, p5, b5, _) = take_int_inv usize blob o6 1 p4 (omega arith) b4 e7 in
              let (d6, u6) = take_kam_inv usize blob wide o7 flag p5 b5 e8 in
              let end : length blob ≡ o8 = sym ((==_iff o8 (length blob)).0 (guard-eq-ok _ _ g)) in
              let d7 =
                ap (◌++◌ (kam_bytes kam)) (drop-length o8 blob (omega arith))
                ∙ append-nil (kam_bytes kam) in
              let same : record {
                epoch = epoch;
                index = index;
                nonce = nonce;
                body = body;
                kam = kam;
              }
                  ≡ f =
                cc in
              subst (λ (g : SealedDmFrame). IsWire g × (frame_blob g ≡ blob)) same
                (
                  record {
                    epoch_u64 = omega arith;
                    index_u64 = omega arith;
                    nonce_u32 = u3;
                    body_u32 = u4;
                    kam_u32 = u6;
                  },
                  (sym (
                      d1
                      ∙ ap (◌++◌ (u64_be epoch)) (
                          d2
                          ∙ ap (◌++◌ (u64_be index)) (
                              d3
                              ∙ ap (λ t. u32_be (length nonce) ++ (nonce ++ t))
                                  (d4
                                    ∙ ap (λ t. u32_be (length body) ++ (body ++ t))
                                        (d5 ∙ d6 ∙ d7)))))),
                )
