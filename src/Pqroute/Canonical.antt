-- ===== src/Pqroute/Canonical.antt =====
-- The canonical JSON of src/pqroute.rs, which matches CPython's `json.dumps` with sorted keys.
pub mod Ascii
pub mod Order
pub mod Reader
pub mod Surrogates
pub mod Reading
pub mod Parser
pub mod Normal
pub mod Members
pub mod Starts
pub mod Parsing
pub mod Faithful
use sk_core.Prelude.{
  ℕ, zero, suc, ◌+◌, ◌-◌, ◌/◌, ◌%◌, true, false, ◌&&◌, List, [], ◌∷◌, ◌++◌, leb, ◌==◌,
  if◌then◌else◌,
}
use sk_core.Prelude.Bytes.{Bytes, Text, codes}
use sk_core.Prelude.Texts.{text_eq, text_lt}
use sk_core.Prelude.Sorting.{sort_by}
use sk_core.Json.{
  Value, Items, Fields, SerdeJson, null, bool, number, string, array, object, nil, cons, end, field,
}

-- `HEX[d]`.
nth : List ℕ → ℕ → ℕ
nth [] i = 0
nth (x ∷ xs) zero = x
nth (x ∷ xs) (suc i) = nth xs i

hex_digit : ℕ → ℕ
unfolding nth
hex_digit d = nth (codes "0123456789abcdef") d

push_u_escape : ℕ → Bytes
unfolding hex_digit
push_u_escape code_unit =
    b'\\'
    ∷ b'u'
    ∷ hex_digit (code_unit / 4096 % 16)
    ∷ hex_digit (code_unit / 256 % 16)
    ∷ hex_digit (code_unit / 16 % 16)
    ∷ hex_digit (code_unit % 16)
    ∷ []

-- One character of a string: `v >> 10` is `v / 1024` and `v & 0x3ff` is `v % 1024`.
encode_char : ℕ → Bytes
unfolding push_u_escape
encode_char c =
    if c == b'"'
    then b'\\' ∷ b'"' ∷ []
    else if c == b'\\'
    then b'\\' ∷ b'\\' ∷ []
    else if c == 0x08
    then b'\\' ∷ b'b' ∷ []
    else if c == 0x09
    then b'\\' ∷ b't' ∷ []
    else if c == 0x0a
    then b'\\' ∷ b'n' ∷ []
    else if c == 0x0c
    then b'\\' ∷ b'f' ∷ []
    else if c == 0x0d
    then b'\\' ∷ b'r' ∷ []
    else if leb 0x20 c && leb c 0x7e
    then c ∷ []
    else if leb c 0xffff
    then push_u_escape c
    else (push_u_escape (0xd800 + (c - 0x10000) / 1024)
        ++ push_u_escape (0xdc00 + (c - 0x10000) % 1024))

encode_chars : Text → Bytes
unfolding encode_char
encode_chars [] = []
encode_chars (c ∷ s) = encode_char c ++ encode_chars s

pub encode_string_ascii : Text → Bytes
unfolding encode_chars
encode_string_ascii s = b'"' ∷ (encode_chars s ++ (b'"' ∷ []))

-- `keys.sort()`.
pub sort_keys : List Text → List Text
sort_keys ks = sort_by text_lt ks

-- `map.get(k)`, on the entries with their values already written.
pub get_written : Text → List (Text × Bytes) → Bytes
get_written k [] = []
get_written k ((j, b) ∷ es) = if text_eq j k then b else get_written k es

-- The entries of an object, in the order of `keys` and with commas between them.
pub write_entries : List (Text × Bytes) → List Text → Bytes
unfolding encode_string_ascii get_written
write_entries es [] = []
write_entries es (k ∷ []) = encode_string_ascii k ++ (b':' ∷ get_written k es)
write_entries es (k ∷ j ∷ ks) =
    encode_string_ascii k ++ (b':' ∷ (get_written k es ++ (b',' ∷ write_entries es (j ∷ ks))))

pub join_items : List Bytes → Bytes
join_items [] = []
join_items (b ∷ []) = b
join_items (b ∷ d ∷ bs) = b ++ (b',' ∷ join_items (d ∷ bs))

abbrev keys_of : List (Text × Bytes) → List Text
keys_of [] = []
keys_of ((k, _) ∷ es) = k ∷ keys_of es

module _ {N : Type 0} (json : SerdeJson N) where
  unfoldable mutual
    unfolding encode_string_ascii sort_keys write_entries join_items

    pub canonical : Value N → Bytes
    canonical null = codes "null"
    canonical (bool true) = codes "true"
    canonical (bool false) = codes "false"
    canonical (number n) = json.to_string n
    canonical (string s) = encode_string_ascii s
    canonical (array xs) = b'[' ∷ (join_items (written_items xs) ++ (b']' ∷ []))
    canonical (object fs) =
        b'{'
        ∷ (write_entries (written_fields fs) (sort_keys (keys_of (written_fields fs)))
            ++ (b'}' ∷ []))

    pub written_items : Items N → List Bytes
    written_items nil = []
    written_items (cons v rest) = canonical v ∷ written_items rest

    pub written_fields : Fields N → List (Text × Bytes)
    written_fields end = []
    written_fields (field k v rest) = (k, canonical v) ∷ written_fields rest
