-- ===== src/DmSession/Token/Parsing.antt =====
-- The parser on any input: it panics where `usize` is too narrow for the sums of its cursor, and only there.
use sk_core.Prelude.{
  ℕ, zero, suc, ◌*◌, ◌^◌, ◌≤◌, ◌<◌, ◌≡◌, ◌≢◌, inl, inr, length, drop, arith, ◌==◌,
}
use sk_core.Prelude.Bytes.{Bytes, Text, AllBytes}
use sk_core.Prelude.Maps.{strip_prefix}
use sk_core.Prelude.Outcome.{
  ok, panic, guard, >>=-ne-panic, ok_or-ne-panic, ok_or-eq-ok, guard-ne-panic, ok-ne-panic,
}
use sk_core.DmSession.{pqdr_scheme, bad_token, trailing_bytes}
use sk_core.DmSession.Token.{
  Base64, DecodesVec, take_chunk, take_int, take_kam, parse_blob, from_token,
}
use sk_core.DmSession.Token.Inversion.{InBlob, take_chunk_fits, take_int_inv, take_sized_inv}

-- A binary that a `Vec` holds, where `usize` is wider than a `u32`.
module _ (usize : ℕ) (blob : Bytes) (wide : 2 ^ 33 ≤ usize) (held : 2 * length blob < usize) where
  take_chunk-ne-panic :
      (off n : ℕ) → InBlob usize blob off → n < 2 ^ 32 → take_chunk usize blob off n ≢ panic
  take_chunk-ne-panic off n (within, _) small =
      elim (take_chunk_fits usize blob off n (omega arith)) [
        | inl e ↦ λ p. cc
        | inr (_, e) ↦ λ p. cc
      ]

  take_int-ne-panic :
      (off w : ℕ) → InBlob usize blob off → w < 2 ^ 32 → take_int usize blob off w ≢ panic
  unfolding take_int
  take_int-ne-panic off w within small =
      >>=-ne-panic (take_chunk usize blob off w) _ (take_chunk-ne-panic off w within small)
        (λ a e p. cc)

  -- The length that was read is a `u32`.
  take_sized-ne-panic :
      (off : ℕ) (r : ℕ × ℕ)
      → InBlob usize blob off
      → AllBytes (drop off blob)
      → take_int usize blob off 4 ≡ ok r
      → take_chunk usize blob r.1 r.0 ≢ panic
  take_sized-ne-panic off r within bytes e =
      let (_, within', _, small) = take_int_inv usize blob off 4 within (omega arith) bytes e in
      take_chunk-ne-panic r.1 r.0 within' (omega arith)

  take_kam-ne-panic :
      (off flag : ℕ)
      → InBlob usize blob off
      → AllBytes (drop off blob)
      → take_kam usize blob off flag ≢ panic
  unfolding take_kam
  take_kam-ne-panic off zero within bytes = λ p. cc
  take_kam-ne-panic off (suc zero) within bytes =
      >>=-ne-panic (take_int usize blob off 4) _ (take_int-ne-panic off 4 within (omega arith))
        λ r e.
          >>=-ne-panic (take_chunk usize blob r.1 r.0) _ (take_sized-ne-panic off r within bytes e)
            (λ a e p. cc)
  take_kam-ne-panic off (suc (suc n)) within bytes = λ p. cc

  parse_blob-ne-panic : AllBytes blob → parse_blob usize blob ≢ panic
  unfolding parse_blob
  parse_blob-ne-panic bytes =
      let here : InBlob usize blob 0 = (omega arith, omega arith) in
      >>=-ne-panic _ _ (take_int-ne-panic 0 8 here (omega arith)) λ a ea.
        let (_, pa, ba, _) = take_int_inv usize blob 0 8 here (omega arith) bytes ea in
        >>=-ne-panic _ _ (take_int-ne-panic a.1 8 pa (omega arith)) λ b eb.
          let (_, pb, bb, _) = take_int_inv usize blob a.1 8 pa (omega arith) ba eb in
          >>=-ne-panic _ _ (take_int-ne-panic b.1 4 pb (omega arith)) λ n en.
            >>=-ne-panic _ _ (take_sized-ne-panic b.1 n pb bb en) λ c ec.
              let (_, bc, pc, _) = take_sized_inv usize blob (omega arith) b.1 pb bb en ec in
              >>=-ne-panic _ _ (take_int-ne-panic c.1 4 pc (omega arith)) λ m em.
                >>=-ne-panic _ _ (take_sized-ne-panic c.1 m pc bc em) λ d ed.
                  let (_, bd, pd, _) = take_sized_inv usize blob (omega arith) c.1 pc bc em ed in
                  >>=-ne-panic _ _ (take_int-ne-panic d.1 1 pd (omega arith)) λ k ek.
                    let (_, pk, bk, _) = take_int_inv usize blob d.1 1 pd (omega arith) bd ek in
                    >>=-ne-panic _ _ (take_kam-ne-panic k.1 k.0 pk bk) λ h _.
                      >>=-ne-panic (guard (h.1 == length blob) (bad_token trailing_bytes)) _
                        (guard-ne-panic _ _)
                        λ _ _.
                          ok-ne-panic (record {
                            epoch = a.0;
                            index = b.0;
                            nonce = c.0;
                            body = d.0;
                            kam = h.0;
                          })

-- Where `usize` has at least 2^33 values, as on 64-bit targets, and the base64 decoder gives bytes, at most
-- `isize::MAX` of them, no text makes `from_token` panic.
pub from_token-ne-panic :
    (usize : ℕ) (b64 : Base64) (token : Text)
    → 2 ^ 33 ≤ usize
    → DecodesVec usize b64
    → from_token b64 usize token ≢ panic
unfolding from_token
from_token-ne-panic usize b64 token wide vec =
    >>=-ne-panic _ _ (ok_or-ne-panic (strip_prefix pqdr_scheme token) _) λ body _.
      >>=-ne-panic _ _ (ok_or-ne-panic (b64.decode body) _) λ blob e.
        let is = ok_or-eq-ok (b64.decode body) _ e in
        parse_blob-ne-panic usize blob wide (vec.decoded_size body blob is)
          (vec.decoded_bytes body blob is)
