-- ===== src/Plans.antt =====
-- src/domain/config/planner.ts: the plan of a change of a node's configuration.
-- An object inherits from Object.prototype: a read of `__proto__` that is no key of the object gives
-- that prototype, and a write to it changes no key, but what the object inherits from. The names of the prototype's own properties are
-- the state that `removePath` can change besides the value. What is `unsupported` throws when it is
-- cloned, as a big integer does; a request holds no functions and no symbols.
pub mod Merge
pub mod Conflict
pub mod Removal
mod Tests
use nodel_mcp.Base.{
  ℕ, suc, Bool, true, false, not, ◌&&◌, ◌||◌, Option, none, some, or_else, List, [], ◌∷◌, ◌++◌,
  Text, codes,
}
use nodel_mcp.Base.{
  text_eq, is_empty, any, drop_first, if◌then◌else◌, Result, ok, err, guard, ◌>>=◌, ◌>>◌,
}
use nodel_mcp.Base.{system, public_error, conflict}
use nodel_mcp.Values.{
  Value, null, undefined, not_finite, unsupported, boolean, integer, fraction, text, array, object,
}
use nodel_mcp.Values.{pos, Items, nil, cons, Fields, end, field, get, has_own, put, delete}
use nodel_mcp.Platform.{Platform}
use nodel_mcp.Canonical.{stable_json_hash, integer_text}

abbrev pub proto : Text
proto = codes "__proto__"

-- The key is that of the accessor of Object.prototype, and the object has no such key itself.
unfoldable pub is_accessor : Text → Fields → Bool
unfolding has_own text_eq
is_accessor k fs = text_eq k proto && not (has_own k fs)

-- `record[key] = value` on an object
unfoldable pub set_field : Text → Value → Fields → Fields
unfolding put is_accessor
set_field k v fs = if is_accessor k fs then fs else put k v fs

-- What `result` of `deepMerge` inherits from: Object.prototype, an object or an array that a patch set,
-- with what that inherits from, or nothing.
pub data Prototype : Type 0 where
  object_prototype no_prototype : Prototype
  inherits : Value → Prototype → Prototype

unfoldable pub element : Text → ℕ → Items → Value
unfolding integer_text text_eq
element k index nil = undefined
element k index (cons v vs) =
    if text_eq k (integer_text (pos index)) then v else element k (suc index) vs

-- A property that is inherited. What Object.prototype and Array.prototype hold are functions, which
-- are merged as nothing is.
unfoldable pub inherited : Text → Prototype → Value
unfolding get has_own element
inherited k object_prototype = undefined
inherited k no_prototype = undefined
inherited k (inherits (object fs) q) = if has_own k fs then get k fs else inherited k q
inherited k (inherits (array vs) q) = element k 0 vs
inherited k (inherits v q) = undefined

-- `result[key]`
unfoldable pub read_field : Text → Fields → Prototype → Value
unfolding has_own get inherited
read_field k fs p = if has_own k fs then get k fs else inherited k p

-- The own fields of the prototype, as the spread of `result.__proto__` copies them.
abbrev pub own_fields : Prototype → Fields
own_fields (inherits (object fs) q) = fs
own_fields _ = end

unfoldable mutual
  unfolding put read_field is_accessor

  pub deep_merge : Value → Value → Value
  deep_merge (object fs) (object gs) = object (merge_fields fs object_prototype gs).0
  deep_merge base patch = patch

  -- The fields of `result` and its prototype, which a key `__proto__` sets.
  pub merge_fields : Fields → Prototype → Fields → Fields × Prototype
  merge_fields fs p end = (fs, p)
  merge_fields fs p (field k v gs) =
      merge_fields (if is_accessor k fs then fs else put k (deep_merge (read_field k fs p) v) fs)
        (if is_accessor k fs then merge_prototype p v else p) gs

  -- `result.__proto__ = deepMerge(result.__proto__, value)`: only an object or null is taken.
  pub merge_prototype : Prototype → Value → Prototype
  merge_prototype p (object gs) =
      let (own, q) = merge_fields (own_fields p) object_prototype gs in inherits (object own) q
  merge_prototype p (array vs) = inherits (array vs) object_prototype
  merge_prototype p null = no_prototype
  merge_prototype p _ = p

-- `JSON.parse(JSON.stringify(value))`
pub data Cloned : Type 0 where
  fails absent : Cloned
  copied : Value → Cloned

abbrev pub clone_item : Cloned → Option Items → Option Items
clone_item fails vs = none
clone_item c none = none
clone_item absent (some vs) = some (cons null vs)
clone_item (copied v) (some vs) = some (cons v vs)

abbrev pub clone_field : Text → Cloned → Option Fields → Option Fields
clone_field k fails fs = none
clone_field k c none = none
clone_field k absent (some fs) = some fs
clone_field k (copied v) (some fs) = some (field k v fs)

abbrev pub cloned_array : Option Items → Cloned
cloned_array none = fails
cloned_array (some vs) = copied (array vs)

abbrev pub cloned_object : Option Fields → Cloned
cloned_object none = fails
cloned_object (some fs) = copied (object fs)

unfoldable mutual
  pub clone : Value → Cloned
  clone null = copied null
  clone undefined = absent
  clone not_finite = copied null
  clone unsupported = fails
  clone (boolean b) = copied (boolean b)
  clone (integer i) = copied (integer i)
  clone (fraction t) = copied (fraction t)
  clone (text s) = copied (text s)
  clone (array vs) = cloned_array (clone_items vs)
  clone (object fs) = cloned_object (clone_fields fs)

  pub clone_items : Items → Option Items
  clone_items nil = some nil
  clone_items (cons v vs) = clone_item (clone v) (clone_items vs)

  pub clone_fields : Fields → Option Fields
  clone_fields end = some end
  clone_fields (field k v fs) = clone_field k (clone v) (clone_fields fs)

abbrev pub reparsed : Cloned → Result Value
reparsed (copied v) = ok v
reparsed _ = err system

unfoldable pub clone_unknown : Value → Result Value
unfolding clone
clone_unknown v = reparsed (clone v)

-- What `removePath` does: nothing, a key of the value less, or a property of the prototype less.
pub data Removed : Type 0 where
  missing throws : Removed
  removed : Value → Removed
  builtin_deleted : Text → Removed

abbrev pub has_builtin : Text → List Text → Bool
has_builtin name builtins = any (text_eq name) builtins

abbrev pub checked : List Text → Bool → Removed → Removed
checked builtins own r =
    if has_builtin (codes "hasOwnProperty") builtins then (if own then r else missing) else throws

abbrev pub remove_builtin : List Text → Text → List Text → Removed
remove_builtin builtins last [] =
    checked builtins (has_builtin last builtins) (builtin_deleted last)
remove_builtin builtins segment (s ∷ ss) = missing

abbrev pub within : Text → Fields → Removed → Removed
within segment fs (removed v) = removed (object (put segment v fs))
within segment fs r = r

-- A path is its first segment and the others.
unfoldable pub remove_at : List Text → Value → Text → List Text → Removed
unfolding put delete has_own get
remove_at builtins (object fs) last [] =
    checked builtins (has_own last fs) (removed (object (delete last fs)))
remove_at builtins (object fs) segment (s ∷ ss) = elim (has_own segment fs) [
  | true ↦ within segment fs (remove_at builtins (get segment fs) s ss)
  | false ↦ if text_eq segment proto then remove_builtin builtins s ss else missing
]
remove_at builtins _ segment path = missing

unfoldable pub remove_path : List Text → Value → List Text → Removed
unfolding remove_at
remove_path builtins v [] = missing
remove_path builtins v (s ∷ ss) = remove_at builtins v s ss

pub record Deletion : Type 0 where
  pub next : Value
  pub missing_remove_paths : List (List Text)
  pub builtins : List Text

abbrev pub after_removal : Deletion → List Text → Removed → Result Deletion
after_removal d path missing =
    ok (record d { missing_remove_paths = d.missing_remove_paths ++ path ∷ [] })
after_removal d path throws = err system
after_removal d path (removed v) = ok (record d { next = v })
after_removal d path (builtin_deleted name) =
    ok (record d { builtins = drop_first (text_eq name) d.builtins })

unfoldable pub remove_all : Deletion → List (List Text) → Result Deletion
unfolding remove_path
remove_all d [] = ok d
remove_all d (path ∷ paths) =
    after_removal d path (remove_path d.builtins d.next path) >>= λ d'. remove_all d' paths

unfoldable pub apply_remove_paths : List Text → Value → List (List Text) → Result Deletion
unfolding clone_unknown remove_all
apply_remove_paths builtins value paths = do
  next ← clone_unknown value
  remove_all (record { next = next; missing_remove_paths = []; builtins = builtins }) paths

pub data Mode : Type 0 where
  merge replace : Mode

pub record ConfigPlan : Type 0 where
  pub mode : Mode
  pub current_hash : Text
  pub next : Value
  pub next_hash : Text
  pub remove_paths : List (List Text)
  pub missing_remove_paths : List (List Text)
  pub builtins : List Text

abbrev pub or_throw : Option Text → Result Text
or_throw none = err system
or_throw (some t) = ok t

abbrev pub merged_by : Mode → Value → Value → Value
merged_by replace current patch = patch
merged_by merge current patch = deep_merge current patch

unfoldable pub plan_config_write :
    Platform → List Text → Value → Value → Mode → Option Text → List (List Text) → Result ConfigPlan
unfolding apply_remove_paths deep_merge
plan_config_write p builtins current patch mode expected_hash remove_paths = do
  current_hash ← or_throw (stable_json_hash p current)
  guard (is_empty (or_else expected_hash []) || text_eq (or_else expected_hash []) current_hash)
      (public_error conflict)
  deletion ← apply_remove_paths builtins (merged_by mode current patch) remove_paths
  next_hash ← or_throw (stable_json_hash p deletion.next)
  ok (record {
    mode = mode;
    current_hash = current_hash;
    next = deletion.next;
    next_hash = next_hash;
    remove_paths = remove_paths;
    missing_remove_paths = deletion.missing_remove_paths;
    builtins = deletion.builtins;
  })
