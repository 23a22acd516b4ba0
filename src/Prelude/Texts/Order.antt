-- ===== src/Prelude/Texts/Order.antt =====
-- The order of texts is a strict total order.
use Prim.Native.Nat.{ℕ}
use mathlib.Core.Path.{◌≡◌, refl}
use mathlib.Core.Bool.{true, false, not}
use mathlib.Core.List.{List, [], ◌∷◌}
use native.Mathlib.Omega.{arith}
use sk_core.Prelude.Texts.{text_eq, text_lt}

pub text_lt_total : (s t : List ℕ) → text_eq s t ≡ false → text_lt s t ≡ not (text_lt t s)
unfolding text_eq text_lt
text_lt_total [] [] h = cc
text_lt_total [] (d ∷ t) h = refl
text_lt_total (c ∷ s) [] h = refl
text_lt_total (c ∷ s) (d ∷ t) h = ground (arith, text_lt_total s t)

pub text_eq_sym : (s t : List ℕ) → text_eq s t ≡ text_eq t s
unfolding text_eq
text_eq_sym [] [] = refl
text_eq_sym [] (d ∷ t) = refl
text_eq_sym (c ∷ s) [] = refl
text_eq_sym (c ∷ s) (d ∷ t) = ground (arith, text_eq_sym s t)

-- What is not above `s` stands below all that is.
pub text_lt_between :
    (s t u : List ℕ) → text_lt s u ≡ true → text_lt s t ≡ false → text_lt t u ≡ true
unfolding text_lt
text_lt_between [] [] [] h k = cc
text_lt_between [] [] (e ∷ u) h k = refl
text_lt_between [] (d ∷ t) u h k = cc
text_lt_between (c ∷ s) t [] h k = cc
text_lt_between (c ∷ s) [] (e ∷ u) h k = refl
text_lt_between (c ∷ s) (d ∷ t) (e ∷ u) h k = ground (arith, text_lt_between s t u)
