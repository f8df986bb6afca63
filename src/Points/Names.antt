-- ===== src/Points/Names.antt =====
-- src/mcp/tools/pointFiltering.ts: the names of binding points, and the point that a status is of.
use nodel_mcp.Base.{
  ◌||◌, Option, none, some, List, [], ◌∷◌, ◌++◌, Text, codes, text_eq, includes, if◌then◌else◌,
}
use nodel_mcp.Values.{Value, object, Fields, get, read_string}

pub data BindingKind : Type 0 where
  actions events : BindingKind

abbrev pub kind_text : BindingKind → Text
kind_text actions = codes "actions"
kind_text events = codes "events"

abbrev pub singular : BindingKind → Text
singular actions = codes "action"
singular events = codes "event"

unfoldable pub binding_key : BindingKind → Text → Text
binding_key kind name = kind_text kind ++ (codes ":" ++ name)

unfoldable pub binding_name_aliases : BindingKind → Text → List Text
binding_name_aliases kind name =
    (kind_text kind ++ (codes ":" ++ name))
    ∷ (kind_text kind ++ (codes "." ++ name))
    ∷ (singular kind ++ (codes ":" ++ name))
    ∷ (singular kind ++ (codes "." ++ name))
    ∷ []

-- The first key that holds a text which is not empty.
unfoldable pub read_first_string : Fields → List Text → Option Text
unfolding get
read_first_string fs [] = none
read_first_string fs (k ∷ ks) = elim (read_string (get k fs)) [
  | some s ↦ some s
  | none ↦ read_first_string fs ks
]

abbrev kind_of_type : Text → Option BindingKind
kind_of_type t =
    if includes t (codes "action")
    then some actions
    else if includes t (codes "event") || includes t (codes "signal")
    then some events
    else none

abbrev kind_of_kind : Text → Option BindingKind
kind_of_kind k =
    if text_eq k (codes "action") || text_eq k (codes "actions")
    then some actions
    else if text_eq k (codes "event")
        || text_eq k (codes "events")
        || text_eq k (codes "signal")
        || text_eq k (codes "signals")
    then some events
    else none

abbrev judged : (Text → Option BindingKind) → (Text → Text) → Option Text → Option BindingKind
judged f lower none = none
judged f lower (some t) = f (lower t)

abbrev kind_else : Option BindingKind → Option BindingKind → Option BindingKind
kind_else none d = d
kind_else (some k) d = some k

module _ (lower : Text → Text) where
  unfoldable pub read_binding_status_kind : Fields → Option BindingKind
  unfolding get includes text_eq
  read_binding_status_kind entry =
      kind_else (judged kind_of_type lower (read_string (get (codes "type") entry)))
        (judged kind_of_kind lower (read_string (get (codes "kind") entry)))

abbrev name_keys : BindingKind → List Text
name_keys actions =
    codes "action" ∷ codes "actionName" ∷ codes "localAction" ∷ codes "sourceAction" ∷ []
name_keys events =
    codes "event"
    ∷ codes "eventName"
    ∷ codes "signal"
    ∷ codes "signalName"
    ∷ codes "localEvent"
    ∷ codes "sourceEvent"
    ∷ []

unfoldable pub read_binding_status_name : Fields → BindingKind → Option Text
unfolding read_first_string
read_binding_status_name entry kind =
    elim (read_first_string entry (codes "bindingName" ∷ codes "binding" ∷ codes "name" ∷ [])) [
      | some s ↦ some s
      | none ↦ read_first_string entry (name_keys kind)
    ]

abbrev named : BindingKind → Option Text → Option (BindingKind × Text)
named kind none = none
named kind (some name) = some (kind, name)

module _ (lower : Text → Text) where
  -- The kind and the name; the key of the result is their `binding_key`.
  unfoldable pub normalize_binding_status_entry : Value → Option (BindingKind × Text)
  unfolding read_binding_status_kind read_binding_status_name
  normalize_binding_status_entry (object fs) = elim (read_binding_status_kind lower fs) [
    | none ↦ none
    | some kind ↦ named kind (read_binding_status_name fs kind)
  ]
  normalize_binding_status_entry _ = none
