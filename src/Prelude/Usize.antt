-- ===== src/Prelude/Usize.antt =====
-- `usize`: a sum wraps around at the number of values of the type, as in a release build.
use Prim.Native.Nat.{ℕ, ◌+◌, ◌%◌, ◌≤◌, ◌<◌}
use mathlib.Core.Path.{◌≡◌}
use native.Mathlib.Nat.{mod-eq_of_lt}
use native.Mathlib.Omega.{arith}

-- On a target whose `usize` has `usize` values.
abbrev pub usize_add : ℕ → ℕ → ℕ → ℕ
usize_add usize a b = (a + b) % usize

pub usize_add-fits : (usize a b : ℕ) → a + b < usize → usize_add usize a b ≡ a + b
usize_add-fits usize a b h = mod-eq_of_lt h

pub usize_add-wraps :
    (usize a b : ℕ) → a < usize → b < usize → usize ≤ a + b → usize_add usize a b < a
usize_add-wraps usize a b ha hb h = grind arith
