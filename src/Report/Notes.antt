-- ===== src/Report/Notes.antt =====
-- When the notes of src/report.rs are honest.
use sk_core.Prelude.{ℕ, ◌≡◌, refl, sym, ap, ◌∙◌, Bool, true, false, ◌||◌, ◌&&◌, [], ◌∷◌, ◌++◌}
use sk_core.Prelude.Bytes.{Text, codes}
use sk_core.Prelude.Decimal.{decimal}
use sk_core.Report.{
  RatchetLevel, l2_oneshot, l3_epoch, level_as_str, ConversationKind, dm, envelope, is_honest_note,
  contains_any, contains, starts_with, to_ascii_lowercase, lower_char, to_ascii_uppercase,
  upper_char, who, classical_end, epoch_end, oneshot_end, conversation_end, dm_note, surface_name,
  conversation_note,
}
use sk_core.Report.Words.{
  is_honest_note-append, blank-IsDelimiter, open-IsDelimiter, close-IsDelimiter,
  is_honest_note-decimal,
}

-- A note around `who`, whose name stands between blanks.
is_honest_note-who :
    (p rest peer : Text)
    → is_honest_note (p ++ (who peer ++ b' ' ∷ rest))
      ≡ (is_honest_note p && (is_honest_note peer && is_honest_note rest))
unfolding who is_honest_note contains_any contains starts_with to_ascii_lowercase lower_char
is_honest_note-who p rest [] = is_honest_note-append b' ' p rest blank-IsDelimiter
is_honest_note-who p rest (c ∷ peer) =
    is_honest_note-append b' ' p (codes "with" ++ b' ' ∷ ((c ∷ peer) ++ b' ' ∷ rest))
      blank-IsDelimiter
    ∙ ap (λ x. is_honest_note p && x)
        (is_honest_note-append b' ' (codes "with") ((c ∷ peer) ++ b' ' ∷ rest) blank-IsDelimiter
          ∙ is_honest_note-append b' ' (c ∷ peer) rest blank-IsDelimiter)

and_true : (b : Bool) → (b && true) ≡ b
and_true true = refl
and_true false = refl

classical_end-IsHonest : (level : RatchetLevel) → is_honest_note (classical_end level) ≡ true
unfolding level_as_str is_honest_note contains_any contains starts_with to_ascii_lowercase
    lower_char
classical_end-IsHonest l2_oneshot = refl
classical_end-IsHonest l3_epoch = refl

conversation_end-IsHonest : (b : Bool) → is_honest_note (conversation_end b) ≡ true
unfolding is_honest_note contains_any contains starts_with to_ascii_lowercase lower_char
conversation_end-IsHonest true = refl
conversation_end-IsHonest false = refl

-- The suite id stands in the note of a classical suite only.
dm_note-classical :
    (suite_id : Text) (level : RatchetLevel) (epoch : ℕ) (peer : Text)
    → is_honest_note (dm_note suite_id false level epoch peer)
      ≡ (is_honest_note peer && is_honest_note suite_id)
unfolding dm_note is_honest_note contains_any contains starts_with to_ascii_lowercase lower_char
dm_note-classical suite_id level epoch peer =
    let begin = codes "on the CLASSICAL PGP key-wrap " in
    is_honest_note-who (codes "DM") (begin ++ b'(' ∷ (suite_id ++ b')' ∷ classical_end level)) peer
    ∙ ap (λ x. is_honest_note peer && x)
        (is_honest_note-append b'(' begin (suite_id ++ b')' ∷ classical_end level) open-IsDelimiter
          ∙ is_honest_note-append b')' suite_id (classical_end level) close-IsDelimiter
          ∙ ap (λ x. is_honest_note suite_id && x) (classical_end-IsHonest level)
          ∙ and_true (is_honest_note suite_id))

dm_note-resistant :
    (suite_id : Text) (level : RatchetLevel) (epoch : ℕ) (peer : Text)
    → is_honest_note (dm_note suite_id true level epoch peer) ≡ is_honest_note peer
unfolding dm_note is_honest_note contains_any contains starts_with to_ascii_lowercase lower_char
dm_note-resistant suite_id l2_oneshot epoch peer =
    is_honest_note-who (codes "DM") oneshot_end peer ∙ and_true (is_honest_note peer)
dm_note-resistant suite_id l3_epoch epoch peer =
    let begin =
      codes
        "on the running epoch-ratchet, FS + PCS, hybrid X25519+ML-KEM-768 rekey per epoch (epoch" in
    is_honest_note-who (codes "DM") (begin ++ b' ' ∷ (decimal epoch ++ b')' ∷ epoch_end)) peer
    ∙ ap (λ x. is_honest_note peer && x)
        (is_honest_note-append b' ' begin (decimal epoch ++ b')' ∷ epoch_end) blank-IsDelimiter
          ∙ is_honest_note-append b')' (decimal epoch) epoch_end close-IsDelimiter
          ∙ and_true (is_honest_note (decimal epoch))
          ∙ is_honest_note-decimal epoch)
    ∙ and_true (is_honest_note peer)

pub conversation_note-kind :
    (kind : ConversationKind) (resistant : Bool) (peer : Text)
    → is_honest_note (conversation_note (surface_name kind).0 resistant peer) ≡ is_honest_note peer
unfolding conversation_note surface_name to_ascii_uppercase upper_char is_honest_note contains_any
    contains starts_with to_ascii_lowercase lower_char
conversation_note-kind dm resistant peer =
    is_honest_note-who (codes "DM conversation") (conversation_end resistant) peer
    ∙ ap (λ x. is_honest_note peer && x) (conversation_end-IsHonest resistant)
    ∙ and_true (is_honest_note peer)
conversation_note-kind envelope resistant peer =
    is_honest_note-who (codes "ENVELOPE-PAYLOAD conversation") (conversation_end resistant) peer
    ∙ ap (λ x. is_honest_note peer && x) (conversation_end-IsHonest resistant)
    ∙ and_true (is_honest_note peer)

pub dm_note-IsHonest :
    (suite_id : Text) (resistant : Bool) (level : RatchetLevel) (epoch : ℕ) (peer : Text)
    → is_honest_note (dm_note suite_id resistant level epoch peer)
      ≡ (is_honest_note peer && (resistant || is_honest_note suite_id))
dm_note-IsHonest suite_id true level epoch peer =
    dm_note-resistant suite_id level epoch peer ∙ sym (and_true (is_honest_note peer))
dm_note-IsHonest suite_id false level epoch peer = dm_note-classical suite_id level epoch peer
