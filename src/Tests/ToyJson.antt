-- ===== src/Tests/ToyJson.antt =====
-- Toy instances of serde_json: one that writes and reads flat objects, and one that reads the three
-- literals of JSON.
use sk_core.Prelude.{
  ℕ, zero, suc, ◌≡◌, refl, ap, Option, some, none, true, false, length, take, drop, [], ◌∷◌, ◌++◌,
  take-append, drop-append, replicate, length-replicate, arith, ◌-◌, if◌then◌else◌,
}
use sk_core.Prelude.Bytes.{Bytes, codes}
use sk_core.Prelude.Texts.{text_eq}
use sk_core.Pqroute.Canonical.Normal.{AllInNumber, NumberLaws}
use sk_core.Pqroute.Canonical.Parser.{in_number}
use sk_core.Json.{
  Value, Fields, null, bool, number, string, array, object, end, field, SerdeJson, JsonLaws, IsFlat,
  IsScalar, AllScalar,
}

abbrev write_scalar : Value ℕ → Bytes
write_scalar null = 0 ∷ []
write_scalar (bool b) = (if b then 1 else 2) ∷ []
write_scalar (number n) = 3 ∷ n ∷ []
write_scalar (string s) = 4 ∷ length s ∷ s
write_scalar (array _) = []
write_scalar (object _) = []

abbrev read_scalar : Bytes → Value ℕ × Bytes
read_scalar [] = (null, [])
read_scalar (zero ∷ b) = (null, b)
read_scalar (suc zero ∷ b) = (bool true, b)
read_scalar (suc (suc zero) ∷ b) = (bool false, b)
read_scalar (suc (suc (suc zero)) ∷ []) = (null, [])
read_scalar (suc (suc (suc zero)) ∷ n ∷ b) = (number n, b)
read_scalar (suc (suc (suc (suc k))) ∷ []) = (null, [])
read_scalar (suc (suc (suc (suc k))) ∷ n ∷ b) = (string (take n b), drop n b)

read-write_scalar :
    (v : Value ℕ) (b : Bytes) → IsScalar v → read_scalar (write_scalar v ++ b) ≡ (v, b)
read-write_scalar null b h = refl
read-write_scalar (bool true) b h = refl
read-write_scalar (bool false) b h = refl
read-write_scalar (number n) b h = refl
read-write_scalar (string s) b h =
    rw (take-append (length s) s b refl, drop-append (length s) s b refl)
read-write_scalar (array _) b h = absurd h
read-write_scalar (object _) b h = absurd h

abbrev count : Fields ℕ → ℕ
count end = 0
count (field k v rest) = suc (count rest)

abbrev write_fields : Fields ℕ → Bytes
write_fields end = []
write_fields (field k v rest) = length k ∷ (k ++ (write_scalar v ++ write_fields rest))

abbrev read_fields : ℕ → Bytes → Fields ℕ
read_fields zero b = end
read_fields (suc n) [] = end
read_fields (suc n) (k ∷ b) =
    field (take k b) (read_scalar (drop k b)).0 (read_fields n (read_scalar (drop k b)).1)

read-write_fields : (fs : Fields ℕ) → AllScalar fs → read_fields (count fs) (write_fields fs) ≡ fs
read-write_fields end h = refl
read-write_fields (field k v rest) h = rw (
  take-append (length k) k (write_scalar v ++ write_fields rest) refl,
  drop-append (length k) k (write_scalar v ++ write_fields rest) refl,
  read-write_scalar v (write_fields rest) h.0,
  read-write_fields rest h.1,
)

IsFlat-AllScalar : (fs : Fields ℕ) → IsFlat fs → AllScalar fs
IsFlat-AllScalar end h = tt
IsFlat-AllScalar (field k v rest) h = h.1

abbrev write : Value ℕ → Bytes
write (object fs) = count fs ∷ write_fields fs
write v = []

abbrev read : Bytes → Option (Value ℕ)
read [] = none
read (n ∷ b) = some (object (read_fields n b))

abbrev pub flat_json : SerdeJson ℕ
flat_json = record { from_u64 = λ n. n; to_string = λ n. []; to_vec = write; from_slice = read }

pub flat_json_laws : JsonLaws flat_json
flat_json_laws = record {
  reads_back =
      λ fs flat. ap (λ gs. some (object gs)) (read-write_fields fs (IsFlat-AllScalar fs flat));
}

abbrev read_literal : Bytes → Option (Value ℕ)
read_literal b =
    if text_eq b (codes "null")
    then some null
    else if text_eq b (codes "true")
    then some (bool true)
    else if text_eq b (codes "false")
    then some (bool false)
    else none

abbrev pub literals : SerdeJson ℕ
literals = record {
  from_u64 = λ n. n;
  to_string = λ n. replicate (suc n) b'1';
  to_vec = λ v. [];
  from_slice = read_literal;
}

-- Numbers are written as so many ones.
abbrev pub read_ones : Bytes → Option ℕ
read_ones ds = some (length ds - 1)

ones : (n : ℕ) → AllInNumber (replicate n b'1')
unfolding in_number
ones zero = tt
ones (suc n) = (refl, ones n)

pub literals_numbers : NumberLaws literals read_ones
literals_numbers = record {
  has_digits = λ n e. cc e;
  digits = λ n. ones (suc n);
  read_back = λ n. ap some (omega (arith, length-replicate {A = ℕ} n b'1'));
}
