-- ===== src/DmSession/Token/Wire.antt =====
-- The frames that fit their token against the byte strings that the parser accepts.
use sk_core.Prelude.{ℕ, ◌^◌, ◌≤◌, ◌≡◌, sym, ap, ◌∙◌, Option, none, some, [], ◌∷◌, length, arith}
use mathlib.Core.Path.{subst}
use mathlib.Core.Logic.{∥∥₁_map}
use mathlib.Core.HLevel.{Σ_prop_path}
use mathlib.Mathlib.Logic.Function.Defs.{Bijective}
use native.Mathlib.Bridge.{le_prop}
use sk_core.Prelude.Bytes.{
  Bytes, AllBytes, AllBytes-append, AllBytes-append_left, AllBytes-append_right, be_bytes-AllBytes,
  u64_be, u32_be,
}
use sk_core.Prelude.Outcome.{ok}
use sk_core.DmSession.{SealedDmFrame}
use sk_core.DmSession.Token.{kam_bytes, frame_blob, parse_blob}
use sk_core.DmSession.Token.RoundTrip.{IsWire, KamFits, parse_blob-frame_blob}
use sk_core.DmSession.Token.Inversion.{parse_blob_inv}

abbrev pub KamHolds : Option Bytes → Type 0
KamHolds none = Unit {0}
KamHolds (some kam) = AllBytes kam

-- The parts of a frame are bytes, and its numbers and lengths fit the integers of the token.
pub record IsWhole (f : SealedDmFrame) : Type 0 where
  pub fits : IsWire f
  pub nonce_bytes : AllBytes f.nonce
  pub body_bytes : AllBytes f.body
  pub kam_holds : KamHolds f.kam

AllBytes-IsProp : (b : Bytes) → IsProp (AllBytes b)
AllBytes-IsProp [] = hlevel
AllBytes-IsProp (b ∷ bs) = hlevel (le_prop, AllBytes-IsProp bs)

KamHolds-IsProp : (kam : Option Bytes) → IsProp (KamHolds kam)
KamHolds-IsProp none = hlevel
KamHolds-IsProp (some kam) = AllBytes-IsProp kam

KamFits-IsProp : (kam : Option Bytes) → IsProp (KamFits kam)
KamFits-IsProp none = hlevel
KamFits-IsProp (some kam) = le_prop

IsWire-IsProp : (f : SealedDmFrame) → IsProp (IsWire f)
IsWire-IsProp f = hlevel (le_prop, KamFits-IsProp)

IsWhole-IsProp : (f : SealedDmFrame) → IsProp (IsWhole f)
IsWhole-IsProp f = hlevel (IsWire-IsProp, AllBytes-IsProp, KamHolds-IsProp)

-- The frames that a token can hold, and the strings of bytes that the parser accepts.
abbrev pub WireFrame : Type 0
WireFrame = (f : SealedDmFrame) × IsWhole f

abbrev pub Accepted : ℕ → Type 0
Accepted usize =
    (blob : Bytes) × (AllBytes blob × ∥ ((f : SealedDmFrame) × (parse_blob usize blob ≡ ok f)) ∥₁)

accepted_prop :
    (usize : ℕ) (blob : Bytes)
    → IsProp (AllBytes blob × ∥ ((f : SealedDmFrame) × (parse_blob usize blob ≡ ok f)) ∥₁)
accepted_prop usize blob = hlevel (AllBytes-IsProp blob)

kam_bytes-AllBytes : (kam : Option Bytes) → KamHolds kam → AllBytes (kam_bytes kam)
unfolding kam_bytes
kam_bytes-AllBytes none h = (omega arith, tt)
kam_bytes-AllBytes (some kam) h =
    (omega arith, AllBytes-append (u32_be (length kam)) kam (be_bytes-AllBytes 4 _) h)

frame_blob-AllBytes : (f : SealedDmFrame) → IsWhole f → AllBytes (frame_blob f)
unfolding frame_blob
frame_blob-AllBytes f w = AllBytes-append (u64_be f.epoch) _ (be_bytes-AllBytes 8 f.epoch) (
    AllBytes-append (u64_be f.index) _ (be_bytes-AllBytes 8 f.index) (
      AllBytes-append (u32_be (length f.nonce)) _ (be_bytes-AllBytes 4 _) (
        AllBytes-append f.nonce _ w.nonce_bytes (
          AllBytes-append (u32_be (length f.body)) _ (be_bytes-AllBytes 4 _)
            (AllBytes-append f.body _ w.body_bytes (kam_bytes-AllBytes f.kam w.kam_holds))))))

-- The parts of a frame whose binary is bytes are bytes.
kam_bytes-KamHolds : (kam : Option Bytes) → AllBytes (kam_bytes kam) → KamHolds kam
unfolding kam_bytes
kam_bytes-KamHolds none h = tt
kam_bytes-KamHolds (some kam) h = AllBytes-append_right (u32_be (length kam)) kam h.1

frame_blob-IsWhole : (f : SealedDmFrame) → IsWire f → AllBytes (frame_blob f) → IsWhole f
unfolding frame_blob
frame_blob-IsWhole f fits h =
    let at_nonce =
      AllBytes-append_right (u32_be (length f.nonce)) _
        (AllBytes-append_right (u64_be f.index) _ (AllBytes-append_right (u64_be f.epoch) _ h)) in
    let at_body =
      AllBytes-append_right (u32_be (length f.body)) _ (AllBytes-append_right f.nonce _ at_nonce) in
    record {
      fits = fits;
      nonce_bytes = AllBytes-append_left f.nonce _ at_nonce;
      body_bytes = AllBytes-append_left f.body _ at_body;
      kam_holds = kam_bytes-KamHolds f.kam (AllBytes-append_right f.body _ at_body);
    }

module _ (usize : ℕ) (wide : 2 ^ 34 ≤ usize) where
  -- The binary of a frame, which the parser accepts.
  pub wire_blob : WireFrame → Accepted usize
  wire_blob (f, w) =
      (frame_blob f, (frame_blob-AllBytes f w, ∣ (f, parse_blob-frame_blob usize f wide w.fits) ∣₁))

  -- Let `usize` have at least 2^34 values, as on 64-bit targets. Writing is a bijection between the frames
  -- that a token can hold, with parts that are bytes and numbers and lengths that fit their integers, and
  -- the strings of bytes that the parser accepts: no two frames have one binary, and whatever is accepted
  -- is the binary of such a frame.
  pub wire_blob-Bijective : Bijective wire_blob
  unfolding wire_blob
  wire_blob-Bijective = (one_binary, each_accepted)
    where
      one_binary : (a b : WireFrame) → wire_blob a ≡ wire_blob b → a ≡ b
      one_binary a b e = Σ_prop_path IsWhole-IsProp (
          cc (
            sym (parse_blob-frame_blob usize a.0 wide a.1.fits)
            ∙ ap (parse_blob usize) (ap (λ x. x.0) e)
            ∙ parse_blob-frame_blob usize b.0 wide b.1.fits))

      each_accepted : (x : Accepted usize) → ∥ ((a : WireFrame) × (wire_blob a ≡ x)) ∥₁
      each_accepted (blob, (bytes, parses)) =
          ∥∥₁_map parses (λ (p : (f : SealedDmFrame) × (parse_blob usize blob ≡ ok f)).
            let (fits, is) = parse_blob_inv usize blob p.0 (omega arith) bytes p.1 in
            let whole = frame_blob-IsWhole p.0 fits (subst AllBytes (sym is) bytes) in
            ((p.0, whole), Σ_prop_path (accepted_prop usize) is))
