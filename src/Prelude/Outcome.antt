-- ===== src/Prelude/Outcome.antt =====
-- What a Rust function returns: `Ok`, `Err`, or no value at all because it panics. Slices of byte
-- strings stand here too, since a range outside the slice panics.
use Prim.Native.Nat.{ℕ, ◌+◌, ◌-◌, ◌≤◌, ◌<◌}
use mathlib.Core.Path.{◌≡◌, refl, sym}
use mathlib.Core.Logic.{◌≢◌, ◌⊎◌, inl, inr}
use mathlib.Core.Bool.{Bool, true, false, ◌&&◌}
use mathlib.Core.Option.{Option, none, some}
use mathlib.Core.List.{List, ◌++◌, append_assoc}
use native.Mathlib.Omega.{arith}
use sk_core.Prelude.Tests.{leb, if◌then◌else◌, le→leb}
use sk_core.Prelude.Lists.{length, take, drop, take-append, drop-append, length-append}

pub data Outcome {ℓ} (E : Type 0) (A : Type ℓ) : Type ℓ where
  ok : A → Outcome E A
  err : E → Outcome E A
  panic : Outcome E A

infixl 5 ◌>>=◌ ◌>>◌
abbrev pub ◌>>=◌ {ℓ κ} :
    {E : Type 0} {A : Type ℓ} {B : Type κ} → Outcome E A → (A → Outcome E B) → Outcome E B
ok a >>= f = f a
err e >>= f = err e
panic >>= f = panic

abbrev pub ◌>>◌ {ℓ} : {E : Type 0} {B : Type ℓ} → Outcome E (Unit {0}) → Outcome E B → Outcome E B
m >> k = m >>= λ _. k

-- `if !test { return Err(e) }`
abbrev pub guard : {E : Type 0} → Bool → E → Outcome E (Unit {0})
guard true e = ok tt
guard false e = err e

-- `Option::ok_or`, and `Option::expect`.
abbrev pub ok_or {ℓ} : {E : Type 0} {A : Type ℓ} → Option A → E → Outcome E A
ok_or none e = err e
ok_or (some a) e = ok a

abbrev pub expect {ℓ} : {E : Type 0} {A : Type ℓ} → Option A → Outcome E A
expect none = panic
expect (some a) = ok a

-- `Result::map_err`, which is also what `?` does through `From`.
abbrev pub map_err {ℓ} : {E F : Type 0} {A : Type ℓ} → (E → F) → Outcome E A → Outcome F A
map_err f (ok a) = ok a
map_err f (err e) = err (f e)
map_err f panic = panic

-- `Result::expect`.
abbrev pub expect_ok {ℓ} : {E F : Type 0} {A : Type ℓ} → Outcome E A → Outcome F A
expect_ok (ok a) = ok a
expect_ok (err e) = panic
expect_ok panic = panic

-- What a bind that gives `ok` says, in continuation form: the value that was bound is a variable.
pub >>=-elim {ℓ κ μ} :
    {E : Type 0} {A : Type ℓ} {B : Type κ} {P : Type μ} (m : Outcome E A) (f : A → Outcome E B)
    {b : B}
    → (m >>= f) ≡ ok b
    → ((a : A) → m ≡ ok a → f a ≡ ok b → P)
    → P
>>=-elim (ok a) f h k = k a refl h
>>=-elim (err e) f h k = cc
>>=-elim panic f h k = cc

-- The same as a tuple.
pub bind_inv {ℓ κ} :
    {E : Type 0} {A : Type ℓ} {B : Type κ} (m : Outcome E A) (next : A → Outcome E B) {answer : B}
    → (m >>= next) ≡ ok answer
    → (value : A) × (m ≡ ok value) × (next value ≡ ok answer)
bind_inv m next h = >>=-elim m next h (λ value is rest. (value, is, rest))

pub Outcome-cases {ℓ} :
    {E : Type 0} {A : Type ℓ} (o : Outcome E A)
    → ((a : A) × (o ≡ ok a)) ⊎ (((e : E) × (o ≡ err e)) ⊎ (o ≡ panic))
Outcome-cases (ok a) = inl (a, refl)
Outcome-cases (err e) = inr (inl (e, refl))
Outcome-cases panic = inr (inr refl)

pub ok_injective {ℓ} :
    {E : Type 0} {A : Type ℓ} {a b : A} → ◌≡◌ {A = Outcome E A} (ok a) (ok b) → a ≡ b
ok_injective e = cc

pub ok-ne-panic {ℓ} : {E : Type 0} {A : Type ℓ} (a : A) → ◌≢◌ {A = Outcome E A} (ok a) panic
ok-ne-panic a = λ p. cc

-- A bind panics only where one of its parts does.
pub >>=-ne-panic {ℓ κ} :
    {E : Type 0} {A : Type ℓ} {B : Type κ} (m : Outcome E A) (f : A → Outcome E B)
    → m ≢ panic
    → ((a : A) → m ≡ ok a → f a ≢ panic)
    → (m >>= f) ≢ panic
>>=-ne-panic (ok a) f h k = k a refl
>>=-ne-panic (err e) f h k = λ p. cc
>>=-ne-panic panic f h k = absurd (h refl)

pub map_err-ne-panic {ℓ} :
    {E F : Type 0} {A : Type ℓ} (g : E → F) (m : Outcome E A) → m ≢ panic → map_err g m ≢ panic
map_err-ne-panic g (ok a) h = λ p. cc
map_err-ne-panic g (err e) h = λ p. cc
map_err-ne-panic g panic h = absurd (h refl)

pub ok_or-ne-panic {ℓ} : {E : Type 0} {A : Type ℓ} (o : Option A) (e : E) → ok_or o e ≢ panic
ok_or-ne-panic none e = λ p. cc
ok_or-ne-panic (some a) e = λ p. cc

pub guard-ne-panic : {E : Type 0} (b : Bool) (e : E) → guard b e ≢ panic
guard-ne-panic true e = λ p. cc
guard-ne-panic false e = λ p. cc

pub guard-eq-ok : {E : Type 0} (b : Bool) (e : E) {u : Unit {0}} → guard b e ≡ ok u → b ≡ true
guard-eq-ok true e h = refl
guard-eq-ok false e h = cc

pub ok_or-eq-ok {ℓ} :
    {E : Type 0} {A : Type ℓ} (o : Option A) (e : E) {a : A} → ok_or o e ≡ ok a → o ≡ some a
ok_or-eq-ok none e h = cc
ok_or-eq-ok (some b) e h = cc

-- `&b[..n]`, `&b[n..]` and `&b[lo..hi]`.
module _ {ℓ} {E : Type 0} {A : Type ℓ} where
  pub slice_to : ℕ → List A → Outcome E (List A)
  slice_to n b = if leb n (length b) then ok (take n b) else panic

  pub slice_from : ℕ → List A → Outcome E (List A)
  slice_from n b = if leb n (length b) then ok (drop n b) else panic

  pub slice : ℕ → ℕ → List A → Outcome E (List A)
  slice lo hi b = if leb lo hi && leb hi (length b) then ok (take (hi - lo) (drop lo b)) else panic

  pub slice_to_in : (n : ℕ) (b : List A) → n ≤ length b → slice_to n b ≡ ok (take n b)
  unfolding slice_to
  slice_to_in n b h = rw (le→leb n (length b) h)

  pub slice_from_in : (n : ℕ) (b : List A) → n ≤ length b → slice_from n b ≡ ok (drop n b)
  unfolding slice_from
  slice_from_in n b h = rw (le→leb n (length b) h)

  pub slice_in :
      (lo hi : ℕ) (b : List A)
      → lo ≤ hi
      → hi ≤ length b
      → slice lo hi b ≡ ok (take (hi - lo) (drop lo b))
  unfolding slice
  slice_in lo hi b h k = rw (le→leb lo hi h, le→leb hi (length b) k)

  -- A range that ends before it begins panics.
  pub slice_backwards : (lo hi : ℕ) (b : List A) → hi < lo → slice lo hi b ≡ panic
  unfolding slice
  slice_backwards lo hi b h = ground arith

  -- The slices of `xs ‖ ys` at its seam, and of `xs ‖ ys ‖ zs` at the second one.
  pub slice_to-append : (xs ys : List A) {n : ℕ} → length xs ≡ n → slice_to n (xs ++ ys) ≡ ok xs
  unfolding slice_to
  slice_to-append xs ys {n} h =
      rw (le→leb n (length (xs ++ ys)) (omega (arith, length-append xs ys)), take-append n xs ys h)

  pub slice_from-append : (xs ys : List A) {n : ℕ} → length xs ≡ n → slice_from n (xs ++ ys) ≡ ok ys
  unfolding slice_from
  slice_from-append xs ys {n} h =
      rw (le→leb n (length (xs ++ ys)) (omega (arith, length-append xs ys)), drop-append n xs ys h)

  module _ (xs ys zs : List A) where
    pub slice-append :
        {lo hi : ℕ}
        → length xs ≡ lo
        → length xs + length ys ≡ hi
        → slice lo hi (xs ++ (ys ++ zs)) ≡ ok ys
    unfolding slice
    slice-append {lo} {hi} h k = rw (
      le→leb lo hi (omega arith),
      le→leb hi (length (xs ++ (ys ++ zs)))
          (omega (arith, length-append xs (ys ++ zs), length-append ys zs)),
      drop-append lo xs (ys ++ zs) h,
      take-append (hi - lo) ys zs (omega arith),
    )

    pub slice_from-append_append :
        {hi : ℕ} → length xs + length ys ≡ hi → slice_from hi (xs ++ (ys ++ zs)) ≡ ok zs
    slice_from-append_append {hi} k =
        rw (sym (append_assoc xs ys zs))
          (slice_from-append (xs ++ ys) zs (omega (arith, length-append xs ys)))
