-- ===== src/Plans/Tests.antt =====
-- A plan, and instances of the theorems about plans.
use nodel_mcp.Base.{
  ◌≡◌, refl, some, List, [], ◌∷◌, Text, codes, ok, text_eq, text_lt, join, join_rest,
}
use nodel_mcp.Values.{object, text, integer, pos, Fields, field, end, get, has_own, put, delete}
use nodel_mcp.Platform.{plain}
use nodel_mcp.Canonical.{
  stable_stringify, stable_json_hash, serialize, quote, integer_text, insert_entry,
}
use nodel_mcp.Values.{Value, null}
use nodel_mcp.Plans.{
  proto, deep_merge, merge_fields, is_accessor, read_field, inherited, plan_config_write,
  apply_remove_paths, clone_unknown, clone, remove_all, remove_path, remove_at,
}
use nodel_mcp.Plans.{ConfigPlan, merge, removed, builtin_deleted, set_field}
use nodel_mcp.Plans.Merge.{merged, deep_merge_lem}
use nodel_mcp.Plans.Conflict.{plan_is_current}
use nodel_mcp.Plans.Removal.{prototype_is_reached}

abbrev old_port : Fields
old_port = field (codes "port") (integer (pos 80)) (field (codes "host") (text (codes "a")) end)

abbrev new_port : Fields
new_port = field (codes "port") (integer (pos 81)) end

deep_merge_lem_example :
    (deep_merge (object old_port) (object new_port) ≡ object (merged old_port new_port))
    × (get (codes "port") (merged old_port new_port)
        ≡ deep_merge (integer (pos 80)) (integer (pos 81)))
    × (deep_merge (integer (pos 80)) (integer (pos 81)) ≡ integer (pos 81))
unfolding text_eq get has_own
deep_merge_lem_example =
    deep_merge_lem (codes "port") old_port new_port (integer (pos 80)) (integer (pos 81)) refl
      (tt, tt) refl

-- A key `__proto__` of the patch is what later keys are merged with.
abbrev one : Text → Value → Fields
one k v = field k v end

merges_inherited :
    deep_merge (object end) (
      object (
        field proto
          (object (one (codes "a") (object (one (codes "x") null))))
          (one (codes "a") (object (one (codes "y") null)))))
    ≡ object (one (codes "a") (object (field (codes "x") null (one (codes "y") null))))
unfolding deep_merge merge_fields is_accessor read_field inherited put get has_own text_eq
merges_inherited = refl

abbrev builtins : List Text
builtins = codes "hasOwnProperty" ∷ codes "toString" ∷ []

abbrev old_hash : Text
old_hash = codes "{\"host\":\"a\",\"port\":80}"

abbrev plan : ConfigPlan
plan = record {
  mode = merge;
  current_hash = old_hash;
  next = object (field (codes "port") (integer (pos 81)) end);
  next_hash = codes "{\"port\":81}";
  remove_paths = (codes "host" ∷ []) ∷ [];
  missing_remove_paths = [];
  builtins = builtins;
}

plans :
    plan_config_write plain builtins
      (object old_port)
      (object new_port)
      merge
      (some old_hash)
      ((codes "host" ∷ []) ∷ [])
    ≡ ok plan
unfolding plan_config_write stable_json_hash stable_stringify serialize quote integer_text
    insert_entry text_lt join join_rest text_eq apply_remove_paths clone_unknown clone remove_all
    remove_path remove_at deep_merge set_field put delete has_own get
plans = refl

hashed : stable_json_hash plain (object old_port) ≡ some old_hash
unfolding stable_json_hash stable_stringify serialize quote integer_text insert_entry text_lt join
    join_rest
hashed = refl

plan_is_current_example : stable_stringify (object old_port) ≡ stable_stringify (object old_port)
plan_is_current_example =
    plan_is_current plain builtins (object old_port) (object old_port) (object new_port) merge
      old_hash ((codes "host" ∷ []) ∷ []) hashed refl plans

removes :
    remove_path builtins (object old_port) (codes "host" ∷ [])
    ≡ removed (object (field (codes "port") (integer (pos 80)) end))
unfolding remove_path remove_at has_own delete text_eq
removes = refl

prototype_is_reached_example :
    remove_path builtins (object old_port) (proto ∷ codes "toString" ∷ [])
    ≡ builtin_deleted (codes "toString")
unfolding has_own text_eq
prototype_is_reached_example =
    prototype_is_reached builtins old_port (codes "toString") refl refl refl
