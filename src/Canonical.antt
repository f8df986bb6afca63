-- ===== src/Canonical.antt =====
-- src/shared/canonicalJson.ts: the text of a value that is hashed for proposals.
-- What throws a TypeError is `refused`. Serializing an entry does not depend on the others, so the
-- entries are serialized one by one and put in order by their keys.
pub mod Order
mod Tests
use nodel_mcp.Base.{
  ℕ, zero, suc, ◌+◌, ◌-◌, ◌/◌, ◌%◌, Bool, true, false, ◌&&◌, ◌||◌, Option, none, some, List, [],
  ◌∷◌, ◌++◌, Text, codes,
}
use nodel_mcp.Base.{text_lt, ltb, leb, ◌==◌, if◌then◌else◌, map, join, is_high, is_low}
use nodel_mcp.Values.{
  Value, null, undefined, not_finite, unsupported, boolean, integer, fraction, text, array, object,
}
use nodel_mcp.Values.{Integer, pos, negsuc, Items, nil, cons, Fields, end, field}
use nodel_mcp.Platform.{Platform}

pub data Serialized : Type 0 where
  refused dropped : Serialized
  written : Text → Serialized

-- The decimal digits of a number, before others; a number has fewer digits than units.
unfoldable pub digits : ℕ → ℕ → Text → Text
digits zero n rest = rest
digits (suc fuel) n rest = elim (ltb n 10) [
  | true ↦ (b'0' + n) ∷ rest
  | false ↦ digits fuel (n / 10) ((b'0' + n % 10) ∷ rest)
]

unfoldable pub integer_text : Integer → Text
unfolding digits
integer_text (pos n) = digits (suc n) n []
integer_text (negsuc n) = b'-' ∷ digits (suc (suc n)) (suc n) []

abbrev hex_digit : ℕ → ℕ
hex_digit d = if ltb d 10 then b'0' + d else b'a' + (d - 10)

abbrev unicode_escape : ℕ → Text → Text
unicode_escape c rest =
    b'\\'
    ∷ b'u'
    ∷ hex_digit (c / 4096)
    ∷ hex_digit (c / 256 % 16)
    ∷ hex_digit (c / 16 % 16)
    ∷ hex_digit (c % 16)
    ∷ rest

abbrev escape : ℕ → Text → Text
escape c rest =
    if c == b'"'
    then b'\\' ∷ b'"' ∷ rest
    else if c == b'\\'
    then b'\\' ∷ b'\\' ∷ rest
    else if c == 8
    then b'\\' ∷ b'b' ∷ rest
    else if c == 9
    then b'\\' ∷ b't' ∷ rest
    else if c == 10
    then b'\\' ∷ b'n' ∷ rest
    else if c == 12
    then b'\\' ∷ b'f' ∷ rest
    else if c == 13
    then b'\\' ∷ b'r' ∷ rest
    else if ltb c 32
    then unicode_escape c rest
    else c ∷ rest

-- The escapes of `JSON.stringify`; a surrogate that is no part of a pair is escaped too.
escaped : Text → Text
escaped [] = []
escaped (c ∷ []) = if is_high c || is_low c then unicode_escape c [] else escape c []
escaped (c ∷ d ∷ s) = elim (is_high c && is_low d) [
  | true ↦ c ∷ d ∷ escaped s
  | false ↦
      let rest = escaped (d ∷ s) in
      if is_high c || is_low c then unicode_escape c rest else escape c rest
]

unfoldable pub quote : Text → Text
unfolding escaped
quote s = b'"' ∷ (escaped s ++ (b'"' ∷ []))

unfoldable pub insert_entry : Text → Text → List (Text × Text) → List (Text × Text)
insert_entry k t [] = (k, t) ∷ []
insert_entry k t ((j, u) ∷ es) =
    if text_lt k j then (k, t) ∷ (j, u) ∷ es else (j, u) ∷ insert_entry k t es

abbrev pub add_entry : Text → Serialized → Option (List (Text × Text)) → Option (List (Text × Text))
add_entry k refused r = none
add_entry k s none = none
add_entry k dropped (some es) = some es
add_entry k (written t) (some es) = some (insert_entry k t es)

abbrev pub add_item : Serialized → Option (List Text) → Option (List Text)
add_item refused r = none
add_item s none = none
add_item dropped (some ts) = some (codes "null" ∷ ts)
add_item (written t) (some ts) = some (t ∷ ts)

abbrev pub array_text : Option (List Text) → Serialized
array_text none = refused
array_text (some ts) = written (b'[' ∷ (join (codes ",") ts ++ codes "]"))

abbrev pub entry_text : Text × Text → Text
entry_text (k, t) = quote k ++ (b':' ∷ t)

abbrev pub object_text : Option (List (Text × Text)) → Serialized
object_text none = refused
object_text (some es) = written (b'{' ∷ (join (codes ",") (map entry_text es) ++ codes "}"))

unfoldable mutual
  -- `stringify`; the flag says whether the value stands in an array.
  pub serialize : Bool → Value → Serialized
  serialize in_array null = written (codes "null")
  serialize in_array undefined = if in_array then written (codes "null") else dropped
  serialize in_array not_finite = written (codes "null")
  serialize in_array unsupported = refused
  serialize in_array (boolean b) = written (if b then codes "true" else codes "false")
  serialize in_array (integer i) = written (integer_text i)
  serialize in_array (fraction t) = written t
  serialize in_array (text s) = written (quote s)
  serialize in_array (array vs) = array_text (serialize_items vs)
  serialize in_array (object fs) = object_text (serialize_fields fs)

  pub serialize_items : Items → Option (List Text)
  serialize_items nil = some []
  serialize_items (cons v vs) = add_item (serialize true v) (serialize_items vs)

  pub serialize_fields : Fields → Option (List (Text × Text))
  serialize_fields end = some []
  serialize_fields (field k v fs) = add_entry k (serialize false v) (serialize_fields fs)

abbrev text_or_null : Serialized → Option Text
text_or_null refused = none
text_or_null dropped = some (codes "null")
text_or_null (written t) = some t

-- none where a TypeError is thrown
unfoldable pub stable_stringify : Value → Option Text
unfolding serialize
stable_stringify v = text_or_null (serialize false v)

-- A canonical text has no lone surrogate, since JSON.stringify escapes those: `digest` is its SHA-256.
abbrev pub hash_of : Platform → Option Text → Option Text
hash_of p none = none
hash_of p (some t) = some (p.digest t)

unfoldable pub stable_json_hash : Platform → Value → Option Text
unfolding stable_stringify
stable_json_hash p v = hash_of p (stable_stringify v)
