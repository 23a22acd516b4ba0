-- ===== src/Pqroute/Canonical/Starts.antt =====
-- What the texts of values begin with, by which the reader tells them apart, and the values without parts.
use sk_core.Prelude.{
  ℕ, suc, ◌≡◌, ◌≢◌, refl, sym, ap, ◌∙◌, true, false, Option, some, none, List, [], ◌∷◌, ◌++◌, arith,
  ◌==◌,
}
use sk_core.Prelude.Bytes.{Bytes, Text, codes}
use sk_core.Prelude.Maps.{strip_prefix}
use sk_core.Json.{Value, SerdeJson, null, bool, number, string, array, object}
use sk_core.Pqroute.Canonical.{encode_string_ascii, canonical, join_items}
use sk_core.Pqroute.Canonical.Reader.{AllChars, read_string}
use sk_core.Pqroute.Canonical.Reading.{read_string-encode_string_ascii}
use sk_core.Pqroute.Canonical.Parser.{in_number, span_number, read_value, ◌>>=◌}
use sk_core.Pqroute.Canonical.Normal.{AllInNumber, NumberLaws}
use sk_core.Pqroute.Canonical.Members.{Stops}

span_number-append :
    (ds rest : Bytes) → AllInNumber ds → Stops rest → span_number (ds ++ rest) ≡ (ds, rest)
unfolding span_number
span_number-append [] [] h stops = refl
span_number-append [] (c ∷ rest) h stops = rw stops
span_number-append (d ∷ ds) rest h stops = rw (h.0, span_number-append ds rest h.1 stops)

-- The first character of a text.
abbrev pub Begins : (ℕ → Type 0) → Bytes → Type 0
Begins P bs = (c : ℕ) × (cs : Bytes) × (bs ≡ c ∷ cs) × P c

number-Begins : (ds : Bytes) → ds ≢ [] → AllInNumber ds → Begins (λ c. in_number c ≡ true) ds
number-Begins [] ne h = absurd (ne refl)
number-Begins (c ∷ cs) ne h = (c, cs, refl, h.0)

module _ {N : Type 0} (json : SerdeJson N) (read_number : Bytes → Option N)
    (laws : NumberLaws json read_number) where
  -- A number is told by its first character.
  pub read_number-canonical :
      (n : N) (fuel : ℕ) (rest : Bytes)
      → Stops rest
      → read_value read_number (suc fuel) (json.to_string n ++ rest) ≡ some (number n, rest)
  unfolding read_value in_number
  read_number-canonical n fuel rest stops =
      let (c, cs, e, h) = number-Begins (json.to_string n) (laws.has_digits n) (laws.digits n) in
      let span : span_number (c ∷ (cs ++ rest)) ≡ (json.to_string n, rest) =
        ap (λ t. span_number (t ++ rest)) (sym e)
        ∙ span_number-append (json.to_string n) rest (laws.digits n) stops in
      let q : (c == b'"') ≡ false = ground arith in
      let a : (c == b'[') ≡ false = ground arith in
      let o : (c == b'{') ≡ false = ground arith in
      let u : (c == b'n') ≡ false = ground arith in
      let t : (c == b't') ≡ false = ground arith in
      let f : (c == b'f') ≡ false = ground arith in rw (e, q, a, o, u, t, f, span, laws.read_back n)

  -- No value begins with a closing bracket.
  canonical-Begins : (v : Value N) → Begins (λ c. (b']' == c) ≡ false) (canonical json v)
  unfolding canonical encode_string_ascii in_number
  canonical-Begins null = (_, _, refl, refl)
  canonical-Begins (bool true) = (_, _, refl, refl)
  canonical-Begins (bool false) = (_, _, refl, refl)
  canonical-Begins (number n) =
      let (c, cs, e, h) = number-Begins (json.to_string n) (laws.has_digits n) (laws.digits n) in
      (c, cs, e, ground arith)
  canonical-Begins (string s) = (_, _, refl, refl)
  canonical-Begins (array xs) = (_, _, refl, refl)
  canonical-Begins (object fs) = (_, _, refl, refl)

  quote_first :
      (s : Text) (rest : Bytes) → Begins (λ c. (c == b'"') ≡ true) (encode_string_ascii s ++ rest)
  unfolding encode_string_ascii
  quote_first s rest = (_, _, refl, refl)

  pub read_text :
      (s : Text) (fuel : ℕ) (rest : Bytes)
      → AllChars s
      → read_value read_number (suc fuel) (encode_string_ascii s ++ rest) ≡ some (string s, rest)
  unfolding read_value
  read_text s fuel rest h =
      quoted (encode_string_ascii s ++ rest) (quote_first s rest)
        (read_string-encode_string_ascii s rest h)
    where
      quoted :
          (bs : Bytes)
          → Begins (λ c. (c == b'"') ≡ true) bs
          → read_string bs ≡ some (s, rest)
          → read_value read_number (suc fuel) bs ≡ some (string s, rest)
      quoted bs (c, cs, is, quote) e =
          rw (is, quote)
            (ap (λ o. o >>= λ (t, r). some (string t, r)) (ap read_string (sym is) ∙ e))

  pub bracket_later :
      (v : Value N) (ws : List Bytes) (rest : Bytes)
      → Begins (λ c. (b']' == c) ≡ false) (join_items (canonical json v ∷ ws) ++ rest)
  unfolding join_items
  bracket_later v [] rest =
      let (c, cs, e, h) = canonical-Begins v in (c, cs ++ rest, ap (λ b. b ++ rest) e, h)
  bracket_later v (w ∷ ws) rest =
      let (c, cs, e, h) = canonical-Begins v in
      (c, _, ap (λ b. (b ++ (b',' ∷ join_items (w ∷ ws))) ++ rest) e, h)

  pub no_bracket :
      (bs : Bytes) → Begins (λ c. (b']' == c) ≡ false) bs → strip_prefix (codes "]") bs ≡ none
  unfolding strip_prefix
  no_bracket bs (c, cs, e, h) = rw (e, h)
