-- ===== src/Values.antt =====
-- Values of type `unknown`: what JSON.parse returns and what the program inspects with `typeof`.
-- An object keeps its fields in insertion order under distinct keys; keys that look like array
-- indices are not moved to the front. A number is an integer, or its decimal text when it has a
-- fraction. Functions, symbols and big integers are `unsupported`. Values are trees: a cyclic
-- object is none.
pub mod Keys
use nodel_mcp.Base.{ℕ, Bool, true, false, Option, none, some, List, [], ◌∷◌, Text, is_empty}
use nodel_mcp.Base.{text_eq, if◌then◌else◌}

pub data Integer : Type 0 where
  pos : ℕ → Integer
  negsuc : ℕ → Integer

mutual
  pub data Value : Type 0 where
    null undefined not_finite unsupported : Value
    boolean : Bool → Value
    integer : Integer → Value
    fraction : Text → Value
    text : Text → Value
    array : Items → Value
    object : Fields → Value

  pub data Items : Type 0 where
    nil : Items
    cons : Value → Items → Items

  pub data Fields : Type 0 where
    end : Fields
    field : Text → Value → Fields → Fields

-- `record[key]`
unfoldable pub get : Text → Fields → Value
get k end = undefined
get k (field j v fs) = if text_eq j k then v else get k fs

-- `Object.prototype.hasOwnProperty.call(record, key)`
unfoldable pub has_own : Text → Fields → Bool
has_own k end = false
has_own k (field j v fs) = if text_eq j k then true else has_own k fs

-- `record[key] = value`: in place, or at the end.
unfoldable pub put : Text → Value → Fields → Fields
put k v end = field k v end
put k v (field j w fs) = if text_eq j k then field j v fs else field j w (put k v fs)

-- `delete record[key]`
unfoldable pub delete : Text → Fields → Fields
delete k end = end
delete k (field j v fs) = if text_eq j k then fs else field j v (delete k fs)

-- A property of any value; what is no object has none.
unfoldable pub prop : Text → Value → Value
unfolding get
prop k (object fs) = get k fs
prop k _ = undefined

abbrev pub is_record : Value → Bool
is_record (object fs) = true
is_record _ = false

abbrev pub is_array : Value → Bool
is_array (array vs) = true
is_array _ = false

abbrev pub is_undefined : Value → Bool
is_undefined undefined = true
is_undefined _ = false

-- `typeof value === "string" && value.length > 0 ? value : undefined`
abbrev pub read_string : Value → Option Text
read_string (text s) = if is_empty s then none else some s
read_string _ = none

unfoldable pub items : Items → List Value
items nil = []
items (cons v vs) = v ∷ items vs

unfoldable pub from_items : List Value → Items
from_items [] = nil
from_items (v ∷ vs) = cons v (from_items vs)

-- `Object.entries(record)` and `Object.fromEntries(entries)`
unfoldable pub entries : Fields → List (Text × Value)
entries end = []
entries (field k v fs) = (k, v) ∷ entries fs

unfoldable pub put_all : List (Text × Value) → Fields → Fields
unfolding put
put_all [] fs = fs
put_all ((k, v) ∷ es) fs = put_all es (put k v fs)

unfoldable pub from_entries : List (Text × Value) → Fields
unfolding put_all
from_entries es = put_all es end
