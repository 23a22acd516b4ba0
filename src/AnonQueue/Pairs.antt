-- ===== src/AnonQueue/Pairs.antt =====
-- The ids of a pair are distinct, and tags verify exactly if they are the computed ones.
use sk_core.Prelude.{
  ℕ, zero, suc, ◌≡◌, ◌≢◌, ◌↔◌, true, false, List, ◌∷◌, ◌++◌, replicate, some, inl, inr, Bool-cases,
  sym,
}
use sk_core.Prelude.Bytes.{Bytes}
use sk_core.Prelude.Texts.{text_eq, text_eq→eq, text_eq_refl, text_eq_iff}
use sk_core.AnonQueue.{draw_distinct, new_queue_pair, auth_tag, verify_tag}

text_eq-ne : (s t : Bytes) → s ≢ t → text_eq s t ≡ false
text_eq-ne s t ne = elim (Bool-cases (text_eq s t)) [
  | inl e ↦ absurd (ne (text_eq→eq s t e))
  | inr e ↦ e
]

draw_distinct-replicate :
    (n : ℕ) (recipient sender : Bytes) (rest : List Bytes)
    → sender ≢ recipient
    → draw_distinct recipient (replicate n recipient ++ (sender ∷ rest)) ≡ some sender
unfolding draw_distinct
draw_distinct-replicate zero recipient sender rest ne = rw (text_eq-ne sender recipient ne)
draw_distinct-replicate (suc n) recipient sender rest ne =
    rw (text_eq_refl recipient) (draw_distinct-replicate n recipient sender rest ne)

-- However often the generator repeats the recipient's id, the loop ends at the first id that differs,
-- and that is the sender's id of the pair.
pub new_queue_pair-replicate :
    (n : ℕ) (recipient sender : Bytes) (rest : List Bytes)
    → sender ≢ recipient
    → new_queue_pair (recipient ∷ (replicate n recipient ++ (sender ∷ rest)))
      ≡ some (recipient, sender)
unfolding new_queue_pair
new_queue_pair-replicate n recipient sender rest ne =
    rw (new_queue_pair, draw_distinct-replicate n recipient sender rest ne)

-- A tag verifies exactly if it is the tag of the same secret, message and nonce.
verify_tag_iff :
    (hmac : Bytes → Bytes → Bytes) (secret message nonce tag : Bytes)
    → (verify_tag hmac secret message nonce tag ≡ true) ↔ (tag ≡ auth_tag hmac secret message nonce)
unfolding verify_tag
verify_tag_iff hmac secret message nonce tag =
    let same = text_eq_iff (auth_tag hmac secret message nonce) tag in
    (λ h. sym (same.0 h), λ e. same.1 (sym e))
