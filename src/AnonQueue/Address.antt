-- ===== src/AnonQueue/Address.antt =====
-- `aqid:` addresses: round trip, every branch of encoding, and what decoding accepts.
use sk_core.Prelude.{
  ℕ, ◌≡◌, ◌≢◌, refl, ◌∙◌, sym, ap, true, false, not, none, some, [], ◌∷◌, ◌++◌, length, arith,
  eq→==, ne→==, ==_iff, ◌==◌, inl, inr, Bool-cases, Option-cases,
}
use mathlib.Core.Path.{subst}
use native.Mathlib.Decide.{ℕ_discrete}
use sk_core.Prelude.Bytes.{Bytes, Text}
use sk_core.Prelude.Maps.{strip_prefix, strip_prefix-append, strip_prefix-eq_some}
use sk_core.Prelude.Outcome.{Outcome, ok, err, guard, ok_or, >>=-elim, guard-eq-ok, ok_or-eq-ok}
use sk_core.AnonQueue.{
  AnonQueueError, bad_relay, bad_id_len, bad_address, bad_base64, Base64Url, Base64UrlLaws,
  aqid_scheme, is_empty, contains, split_once, encode_aqid, decode_aqid,
}

-- How `encode_aqid` answers: the relay is tested before the id.
pub data EncodeAnswer (b64 : Base64Url) (relay : Text) (id : Bytes)
    : Outcome AnonQueueError Text → Type 0 where
  no_relay : relay ≡ [] → EncodeAnswer b64 relay id (err (bad_relay "must be a non-empty string"))
  slash_in_relay :
      relay ≢ []
      → contains b'/' relay ≡ true
      → EncodeAnswer b64 relay id (err (bad_relay "must not contain '/'"))
  wrong_id :
      relay ≢ []
      → contains b'/' relay ≡ false
      → length id ≢ 16
      → EncodeAnswer b64 relay id (err (bad_id_len "sender_id" (length id)))
  address :
      relay ≢ []
      → contains b'/' relay ≡ false
      → length id ≡ 16
      → EncodeAnswer b64 relay id (ok (aqid_scheme ++ (relay ++ (b'/' ∷ b64.encode id))))

is_empty-ne : (s : Text) → s ≢ [] → is_empty s ≡ false
unfolding is_empty
is_empty-ne [] h = absurd (h refl)
is_empty-ne (c ∷ s) h = refl

contains_parts :
    (d c : ℕ) (s : Text) → contains d (c ∷ s) ≡ false → ((c == d) ≡ false) × (contains d s ≡ false)
unfolding contains
contains_parts d c s h = ground arith

split_once-append :
    (relay id : Text)
    → contains b'/' relay ≡ false
    → split_once b'/' (relay ++ (b'/' ∷ id)) ≡ some (relay, id)
unfolding split_once
split_once-append [] id h = refl
split_once-append (c ∷ relay) id h =
    let (ne, rest) = contains_parts b'/' c relay h in rw (ne, split_once-append relay id rest)

-- What is split has the separator at the seam, and not in its first part.
split_once-eq_some :
    (s before after : Text)
    → split_once b'/' s ≡ some (before, after)
    → (s ≡ before ++ (b'/' ∷ after)) × (contains b'/' before ≡ false)
unfolding split_once contains
split_once-eq_some [] before after h = cc
split_once-eq_some (c ∷ s) before after h = elim (Bool-cases (c == b'/')) [
  | inl e ↦
      let whole : split_once b'/' (c ∷ s) ≡ some ([], s) = rw e in
      settle ([], s) (cc (sym whole ∙ h)) (ap (λ x. x ∷ s) ((==_iff c b'/').0 e), refl)
  | inr e ↦ elim (Option-cases (split_once b'/' s)) [
    | inl nothing ↦
        let whole : split_once b'/' (c ∷ s) ≡ none = rw (e, nothing) in cc (sym whole ∙ h)
    | inr ((b, a), found) ↦
        let whole : split_once b'/' (c ∷ s) ≡ some (c ∷ b, a) = rw (e, found) in
        let (seam, bare) = split_once-eq_some s b a found in
        settle (c ∷ b, a) (cc (sym whole ∙ h)) (ap (◌∷◌ c) seam, rw e bare)
  ]
]
  where
    settle :
        (q : Text × Text)
        → q ≡ (before, after)
        → ((c ∷ s) ≡ q.0 ++ (b'/' ∷ q.1)) × (contains b'/' q.0 ≡ false)
        → ((c ∷ s) ≡ before ++ (b'/' ∷ after)) × (contains b'/' before ≡ false)
    settle q same v =
        subst (λ (p : Text × Text). ((c ∷ s) ≡ p.0 ++ (b'/' ∷ p.1)) × (contains b'/' p.0 ≡ false))
          same v

not_empty : (s : Text) → not (is_empty s) ≡ true → s ≢ []
unfolding is_empty
not_empty [] h = λ e. cc h
not_empty (c ∷ s) h = λ e. cc e

module _ (b64 : Base64Url) where
  -- `encode_aqid` reports an empty relay, a relay with a slash or an id of a wrong length, in this
  -- order, and otherwise writes the address.
  encode_aqid_answer :
      (relay : Text) (id : Bytes) → EncodeAnswer b64 relay id (encode_aqid b64 relay id)
  unfolding encode_aqid is_empty
  encode_aqid_answer [] id = no_relay refl
  encode_aqid_answer (c ∷ relay) id = elim (Bool-cases (contains b'/' (c ∷ relay))) [
    | inl e ↦ rw e (slash_in_relay (λ p. cc p) e)
    | inr e ↦ elim (ℕ_discrete (length id) 16) [
      | yes l ↦ rw (e, eq→== (length id) 16 l) (address (λ p. cc p) e l)
      | no l ↦ rw (e, ne→== (length id) 16 l) (wrong_id (λ p. cc p) e l)
    ]
  ]

  module _ (laws : Base64UrlLaws b64) where
    -- A relay that is not empty and has no slash, with an id of 16 bytes, is encoded to an address
    -- that decodes to them.
    pub decode_aqid-encode_aqid :
        (relay : Text) (id : Bytes)
        → relay ≢ []
        → contains b'/' relay ≡ false
        → length id ≡ 16
        → (s : Text) × (encode_aqid b64 relay id ≡ ok s) × (decode_aqid b64 s ≡ ok (relay, id))
    unfolding encode_aqid decode_aqid
    decode_aqid-encode_aqid relay [] r h l = absurd (omega arith)
    decode_aqid-encode_aqid relay (x ∷ id) r h l =
        let b = b64.encode (x ∷ id) in
        let full = is_empty-ne relay r in
        (
          aqid_scheme ++ (relay ++ (b'/' ∷ b)),
          rw (full, h, eq→== (length (x ∷ id)) 16 l),
          rw (
            strip_prefix-append aqid_scheme (relay ++ (b'/' ∷ b)),
            split_once-append relay b h,
            full,
            is_empty-ne b (laws.encode_nonempty x id),
            laws.decode-encode (x ∷ id),
            eq→== (length (x ∷ id)) 16 l,
          ),
        )

  -- Whatever `decode_aqid` accepts is the scheme, a relay that is not empty and has no slash, a slash
  -- and a text that decodes to an id of 16 bytes; and the answer is that relay and that id.
  pub decode_aqid-eq_ok :
      (s : Text) (relay : Text) (id : Bytes)
      → decode_aqid b64 s ≡ ok (relay, id)
      → (relay ≢ [])
        × (contains b'/' relay ≡ false)
        × (length id ≡ 16)
        × ((text : Text) × (s ≡ aqid_scheme ++ (relay ++ (b'/' ∷ text)))
            × (b64.decode text ≡ some id))
  unfolding decode_aqid
  decode_aqid-eq_ok s relay id h =
      >>=-elim (ok_or (strip_prefix aqid_scheme s) (bad_address "must start with 'aqid:'")) _ h
        λ body e1 r1.
          >>=-elim (ok_or (split_once b'/' body) (bad_address "must be 'aqid:<relay>/<id>'")) _ r1
            λ (r, text) e2 r2.
              >>=-elim (guard (not (is_empty r)) (bad_address "relay must be non-empty")) _ r2
                λ _ g1 r3.
                  >>=-elim (guard (not (is_empty text)) (bad_address "id must be non-empty")) _ r3
                    λ _ g2 r4. >>=-elim (ok_or (b64.decode text) bad_base64) _ r4 λ raw e3 r5.
                      >>=-elim (guard (length raw == 16) (bad_id_len "decoded id" (length raw))) _
                        r5
                        λ _ g3 r6.
                          let (seam, bare) = split_once-eq_some body r text (ok_or-eq-ok _ _ e2) in
                          let scheme =
                            strip_prefix-eq_some aqid_scheme s body (ok_or-eq-ok _ _ e1) in
                          let done : ◌≡◌ {A = Outcome AnonQueueError (Text × Bytes)} (ok (r, raw))
                              (ok (relay, id)) =
                            r6 in
                          let same : (r, raw) ≡ (relay, id) = cc done in
                          subst
                            (λ (q : Text × Bytes).
                              (q.0 ≢ [])
                              × (contains b'/' q.0 ≡ false)
                              × (length q.1 ≡ 16)
                              × ((t : Text) × (s ≡ aqid_scheme ++ (q.0 ++ (b'/' ∷ t)))
                                  × (b64.decode t ≡ some q.1)))
                            same
                            (
                              not_empty r (guard-eq-ok _ _ g1),
                              bare,
                              (==_iff (length raw) 16).0 (guard-eq-ok _ _ g3),
                              (text, scheme ∙ ap (◌++◌ aqid_scheme) seam, ok_or-eq-ok _ _ e3),
                            )
