-- ===== src/Writes/Requests.antt =====
-- src/domain/config/writes.ts: the request of an action, its name, and the activity that shows it.
use nodel_mcp.Base.{
  ℕ, suc, Bool, true, false, ◌||◌, List, [], ◌∷◌, ◌++◌, Text, codes, text_eq, is_empty, includes,
  trim, if◌then◌else◌, Result, ok, err, public_error, validation, any, keep,
}
use nodel_mcp.Values.{
  Value, null, undefined, not_finite, boolean, integer, fraction, text, array, object, Items, nil,
  cons, Fields, end, field, get, prop, pos, items,
}
use nodel_mcp.Canonical.{integer_text}

pub record WebText : Type 0 where
  pub encode_component : Text → Text
  -- the text of a query with the one parameter `arg`
  pub arg_query : Value → Text
  pub lower : Text → Text

pub data Method : Type 0 where
  post get_method put_method : Method

abbrev pub method_text : Method → Text
method_text post = codes "POST"
method_text get_method = codes "GET"
method_text put_method = codes "PUT"

pub record ActionRequest : Type 0 where
  pub method : Method
  pub rest_path : Text
  pub body : Value

-- `args === undefined ? {} : { arg: args }`
abbrev arg_body : Value → Value
arg_body undefined = object end
arg_body args = object (field (codes "arg") args end)

abbrev is_primitive : Value → Bool
is_primitive (text s) = true
is_primitive (integer n) = true
is_primitive (fraction t) = true
is_primitive not_finite = true
is_primitive (boolean b) = true
is_primitive null = true
is_primitive _ = false

abbrev with_query : Text → Text → Text
with_query path query = if is_empty query then path else path ++ (b'?' ∷ query)

module _ (web : WebText) where
  abbrev get_request : Text → Value → Result ActionRequest
  get_request path undefined =
      ok (record { method = get_method; rest_path = path; body = undefined })
  get_request path args =
      if is_primitive args
      then ok (record {
        method = get_method;
        rest_path = with_query path (web.arg_query args);
        body = undefined;
      })
      else err (public_error validation)

  unfoldable pub action_request : Text → Method → Value → Result ActionRequest
  action_request name method args =
      let path = codes "actions/" ++ (web.encode_component name ++ codes "/call") in
      elim method [
        | get_method ↦ get_request path args
        | m ↦ ok (record { method = m; rest_path = path; body = arg_body args })
      ]

  -- The names of an array are those of its elements, or their places.
  abbrev name_or_place : Value → ℕ → Text
  name_or_place (text s) n = s
  name_or_place _ n = integer_text (pos n)

  unfoldable pub names_from : ℕ → Items → List Text
  unfolding prop integer_text
  names_from n nil = []
  names_from n (cons d ds) = name_or_place (prop (codes "name") d) n ∷ names_from (suc n) ds

  unfoldable pub keys_of : Fields → List Text
  keys_of end = []
  keys_of (field k v fs) = k ∷ keys_of fs

  unfoldable pub definition_names : Value → List Text
  unfolding names_from keys_of
  definition_names (array ds) = names_from 0 ds
  definition_names (object fs) = keys_of fs
  definition_names _ = []

  -- The first of the lists that is not empty.
  abbrev first_found : List Text → List Text → List Text
  first_found [] others = others
  first_found (n ∷ ns) others = n ∷ ns

  abbrev the_only : List Text → Result Text
  the_only (n ∷ []) = ok n
  the_only _ = err (public_error validation)

  unfoldable pub resolve_definition_name : Value → Text → Result Text
  unfolding definition_names text_eq includes
  resolve_definition_name definitions input =
      let names = definition_names definitions in
      let wanted = web.lower (trim input) in
      the_only (
        first_found (keep (λ n. text_eq n input) names) (
          first_found (keep (λ n. text_eq (web.lower n) wanted) names)
            (keep (λ n. includes (web.lower n) wanted) names)))

abbrev is_text_of : Value → Text → Bool
is_text_of (text s) action = text_eq s action
is_text_of _ action = false

-- `entry && typeof entry === "object"`: arrays too, which have none of these keys.
unfoldable pub shows_action : Text → Value → Bool
unfolding get text_eq
shows_action action (text s) = text_eq s action
shows_action action (object fs) =
    if is_text_of (get (codes "type") fs) (codes "action")
    then is_text_of (get (codes "alias") fs) action
    else is_text_of (get (codes "action") fs) action
      || is_text_of (get (codes "actionName") fs) action
      || is_text_of (get (codes "name") fs) action
shows_action action _ = false

abbrev items_in : Value → List Value
items_in (array vs) = items vs
items_in _ = []

unfoldable pub activity_entries : Value → List Value
unfolding items get
activity_entries (array vs) = items vs
activity_entries (object fs) =
    object fs
    ∷ (items_in (get (codes "entries") fs)
        ++ (items_in (get (codes "activity") fs)
            ++ (items_in (get (codes "items") fs) ++ items_in (get (codes "logs") fs))))
activity_entries _ = []

unfoldable pub activity_contains_action : Value → Text → Bool
unfolding activity_entries shows_action
activity_contains_action activity action = any (shows_action action) (activity_entries activity)
