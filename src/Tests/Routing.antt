-- ===== src/Tests/Routing.antt =====
-- The theorems on routed messages at concrete inputs.
use sk_core.Prelude.{
  ℕ, ◌<◌, ◌^◌, ◌≡◌, ◌≢◌, refl, true, [], ◌∷◌, ◌++◌, length, replicate, arith, drop, sym, ◌∙◌, ap,
}
use mathlib.Core.Path.{subst}
use sk_core.Prelude.Bytes.{Bytes, codes, be_bytes}
use sk_core.Prelude.Texts.{text_eq}
use sk_core.Prelude.Outcome.{ok, err, panic}
use sk_core.Crypto.{Fits}
use sk_core.Crypto.Calls.{OnlyUnder, encrypt}
use sk_core.Json.{null, bool}
use sk_core.Kem.{hybrid_keypair}
use sk_core.Kem.Sealing.{Sealing, body_drop}
use sk_core.Pqroute.{
  PqRouteError, format, seal_failed, info_wrap, opening, open_failed, build_aad, framed,
  split_outer, seal_routed, open_routed, read_route_header, replace_route_header,
}
use sk_core.Pqroute.Canonical.{canonical}
use sk_core.Pqroute.Canonical.{canonical}
use sk_core.Pqroute.Canonical.Normal.{normal, IsJson}
use sk_core.Pqroute.Outer.{split_outer-framed}
use sk_core.Pqroute.RoundTrip.{
  Reads, parts, open_routed-seal_routed, open_routed-ne-panic, seal_routed-framed,
}
use sk_core.Pqroute.Tamper.{open_routed-changed_header}
use sk_core.Tests.Toy.{toy, toy_tag, toy_laws, toy-OnlyUnder}
use sk_core.Tests.ToyJson.{literals, read_ones, literals_numbers}

abbrev seed : Bytes
seed = replicate 32 7

abbrev hi : Bytes
hi = codes "hi"

abbrev nonce_of_12 : Bytes
nonce_of_12 = replicate 12 2

abbrev route_lock : Bytes
route_lock = build_aad (canonical literals null)

route_fits : Fits route_lock
unfolding build_aad canonical
route_fits = omega arith

inner_fits : Fits (framed (canonical literals (bool true)) hi)
unfolding framed canonical be_bytes
inner_fits = omega arith

null-Reads : Reads literals null
unfolding canonical text_eq
null-Reads = refl

true-Reads : Reads literals (bool true)
unfolding canonical text_eq
true-Reads = refl

null_short : length (canonical literals null) < 2 ^ 32
unfolding canonical
null_short = omega arith

true_short : length (canonical literals (bool true)) < 2 ^ 32
unfolding canonical
true_short = omega arith

open_routed-seal_routed_example :
    let c = toy route_lock in
    let kp = hybrid_keypair c seed [] in
    (blob : Bytes) × (seal_routed literals c [] [] nonce_of_12 (bool true) hi kp.public_key null
      ≡ ok blob)
    × (read_route_header literals (2 ^ 64) blob ≡ ok null)
    × (open_routed literals (2 ^ 64) c blob kp.private_key ≡ ok (null, bool true, hi))
open_routed-seal_routed_example =
    open_routed-seal_routed (toy route_lock) (toy_laws route_lock) literals seed [] [] []
      nonce_of_12 hi (bool true) null refl refl inner_fits route_fits (2 ^ 64) (omega arith)
      null-Reads true-Reads null_short true_short

open_routed-ne-panic_example : open_routed literals (2 ^ 64) (toy []) (codes "junk") [] ≢ panic
open_routed-ne-panic_example =
    open_routed-ne-panic (toy []) (toy_laws []) literals (2 ^ 64) (codes "junk") [] (omega arith)

abbrev routed_parts :
    Sealing
      (toy route_lock)
      PqRouteError
      (format seal_failed)
      (opening open_failed)
      seed
      []
      []
      []
      (info_wrap ++ (b'|' ∷ route_lock))
      route_lock
      nonce_of_12
      (framed (canonical literals (bool true)) hi)
routed_parts =
    parts (toy route_lock) (toy_laws route_lock) literals seed [] [] [] nonce_of_12 hi (bool true)
      null refl refl inner_fits route_fits

abbrev routed_blob : Bytes
routed_blob =
    framed (canonical literals null) (routed_parts.ct ++ (nonce_of_12 ++ routed_parts.body))

routed_OnlyUnder :
    (sealed : Bytes)
    → split_outer (2 ^ 64) routed_blob ≡ ok (canonical literals null, sealed)
    → OnlyUnder (toy route_lock) route_lock nonce_of_12 (drop 1132 sealed)
unfolding encrypt
routed_OnlyUnder sealed split =
    let inner = framed (canonical literals (bool true)) hi in
    let whole = routed_parts.ct ++ (nonce_of_12 ++ routed_parts.body) in
    let is : (inner ++ toy_tag route_lock route_lock) ≡ routed_parts.body =
      cc routed_parts.sealed in
    let rest : whole ≡ sealed = cc (
      sym split
      ∙ split_outer-framed (2 ^ 64) (canonical literals null) whole (omega arith) null_short) in
    subst (OnlyUnder (toy route_lock) route_lock nonce_of_12)
      (is
        ∙ sym (
            body_drop routed_parts.ct nonce_of_12 routed_parts.body
              (omega (arith, routed_parts.length-ct)))
        ∙ ap (drop 1132) rest)
      (toy-OnlyUnder route_lock nonce_of_12 inner)

headers_differ : normal (bool true) ≢ normal {N = ℕ} null
unfolding normal
headers_differ e = cc e

open_routed-changed_header_example :
    (blob' : Bytes) × (replace_route_header literals (2 ^ 64) routed_blob (bool true) ≡ ok blob')
    × (read_route_header literals (2 ^ 64) blob' ≡ ok (bool true))
    × (open_routed literals
          (2 ^ 64)
          (toy route_lock)
          blob'
          (hybrid_keypair (toy route_lock) seed []).private_key
        ≡ err (opening open_failed))
unfolding IsJson
open_routed-changed_header_example =
    open_routed-changed_header (toy route_lock) (toy_laws route_lock) literals seed [] [] []
      nonce_of_12 hi (bool true) null (bool true) refl refl inner_fits route_fits (2 ^ 64)
      (omega arith) read_ones literals_numbers tt tt headers_differ true-Reads null_short true_short
      routed_blob
      (seal_routed-framed (toy route_lock) (toy_laws route_lock) literals seed [] [] [] nonce_of_12
        hi (bool true) null refl refl inner_fits route_fits)
      routed_OnlyUnder
