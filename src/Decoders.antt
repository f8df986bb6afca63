-- ===== src/Decoders.antt =====
-- src/nodel/contracts/decoders.ts: what the sidecar takes from the responses of a Nodel host.
-- `new URL` and `decodeURIComponent` are parameters. Responses are values as JSON.parse returns them.
pub mod Discovered
mod Tests
use nodel_mcp.Base.{
  ℕ, Bool, true, false, ◌&&◌, ◌||◌, not, Option, none, some, ◌<|>◌, or_else, List, [], ◌∷◌, Text,
  codes, text_eq, is_empty, if◌then◌else◌, Result, ok, err, ◌>>=◌, guard, ◌>>◌, public_error,
  validation, traverse, ◌==◌, all, length,
}
use nodel_mcp.Values.{
  Value, null, undefined, not_finite, boolean, integer, fraction, text, array, object, Items, nil,
  cons, Fields, end, field, get, items, from_items, put, read_string, entries,
}
use nodel_mcp.Messages.{behind}
use nodel_mcp.Resolution.{DiscoveredNode}

pub record ParsedUrl : Type 0 where
  pub protocol : Text
  pub has_credentials : Bool
  pub href : Text
  pub pathname : Text
  pub origin : Text
  pub query_node : Option Text

pub record UrlPlatform : Type 0 where
  pub parse : Text → Option ParsedUrl
  pub decode_component : Text → Option Text

-- `record(value, label)`
unfoldable pub record_of : Value → Result Fields
record_of (object fs) = ok fs
record_of _ = err (public_error validation)

-- `optionalString` is `read_string`
unfoldable pub optional_scalar : Value → Value
optional_scalar (text s) = text s
optional_scalar (integer n) = integer n
optional_scalar (fraction t) = fraction t
optional_scalar not_finite = not_finite
optional_scalar (boolean b) = boolean b
optional_scalar _ = undefined

-- `typeof v === "number" && Number.isFinite(v) ? v : undefined`
abbrev finite_number : Value → Value
finite_number (integer n) = integer n
finite_number (fraction t) = fraction t
finite_number _ = undefined

pub record NodelNodeEntry : Type 0 where
  pub name : Text
  pub desc : Option Text
  pub started : Value
  pub nodel_version : Option Text
  pub web_socket_port : Value
  pub raw : Fields

pub record NodelHostStatus : Type 0 where
  pub started : Value
  pub nodes : Option (List (Text × NodelNodeEntry))
  pub raw : Fields

unfoldable pub node_entry : Text → Fields → NodelNodeEntry
unfolding get optional_scalar
node_entry key raw = record {
  name = or_else (read_string (get (codes "name") raw)) key;
  desc = read_string (get (codes "desc") raw);
  started = optional_scalar (get (codes "started") raw);
  nodel_version = read_string (get (codes "nodelVersion") raw);
  web_socket_port = finite_number (get (codes "webSocketPort") raw);
  raw = raw;
}

-- An entry under the key `__proto__` becomes the prototype of the object of nodes, and is no entry.
abbrev onto_nodes :
    Text → NodelNodeEntry → List (Text × NodelNodeEntry) → List (Text × NodelNodeEntry)
onto_nodes key e rest = if text_eq key (codes "__proto__") then rest else (key, e) ∷ rest

unfoldable pub decode_nodes : Fields → Result (List (Text × NodelNodeEntry))
unfolding record_of node_entry text_eq
decode_nodes end = ok []
decode_nodes (field key entry fs) = do
  raw ← record_of entry
  rest ← decode_nodes fs
  ok (onto_nodes key (node_entry key raw) rest)

abbrev host_nodes : Value → Result (Option (List (Text × NodelNodeEntry)))
host_nodes undefined = ok none
host_nodes v = do source ← record_of v; nodes ← decode_nodes source; ok (some nodes)

unfoldable pub decode_host_status : Value → Result NodelHostStatus
unfolding record_of decode_nodes get optional_scalar
decode_host_status value = do
  raw ← record_of value
  nodes ← host_nodes (get (codes "nodes") raw)
  ok (record { started = optional_scalar (get (codes "started") raw); nodes = nodes; raw = raw })

-- Why an entry of a discovery is left out.
pub data Reason : Type 0 where
  entry_not_object missing_name_or_address invalid_address unsafe_protocol : Reason
  embedded_credentials : Reason

pub data Decoded : Type 0 where
  reject : Reason → Decoded
  accept : DiscoveredNode → Decoded

abbrev pub is_http_url : ParsedUrl → Bool
is_http_url u = text_eq u.protocol (codes "http:") || text_eq u.protocol (codes "https:")

-- `[^/]+` of `/\/nodes\/([^/]+)/u`
abbrev pub until_slash : Text → Text
until_slash [] = []
until_slash (c ∷ s) = if c == b'/' then [] else c ∷ until_slash s

abbrev segment_of : Option Text → Option Text
segment_of none = none
segment_of (some s) = let t = until_slash s in if is_empty t then none else some t

unfoldable pub nodes_segment : Text → Option Text
unfolding behind
nodes_segment [] = none
nodes_segment (c ∷ s) =
    let rest = nodes_segment s in
    elim (segment_of (behind (codes "/nodes/") (c ∷ s))) [ some t ↦ some t | none ↦ rest ]

abbrev pub non_empty : Option Text → Option Text
non_empty none = none
non_empty (some s) = if is_empty s then none else some s

module _ (p : UrlPlatform) where
  unfoldable pub rest_path_segment_from_address : ParsedUrl → Option Text
  unfolding nodes_segment
  rest_path_segment_from_address u = elim (nodes_segment u.pathname) [
    | some t ↦ p.decode_component t
    | none ↦ non_empty u.query_node
  ]

  abbrev pub decode_url : Text → Option ParsedUrl → Decoded
  decode_url name none = reject invalid_address
  decode_url name (some u) =
      if not (is_http_url u)
      then reject unsafe_protocol
      else if u.has_credentials
      then reject embedded_credentials
      else accept (record {
        name = name;
        address = u.href;
        rest_path_segment = rest_path_segment_from_address u;
      })

  abbrev pub decode_named : Option Text → Option Text → Decoded
  decode_named (some name) (some address) = decode_url name (p.parse address)
  decode_named _ _ = reject missing_name_or_address

  unfoldable pub decode_entry : Value → Decoded
  unfolding get rest_path_segment_from_address text_eq
  decode_entry (object raw) =
      decode_named
        (read_string (get (codes "node") raw)
          <|> (read_string (get (codes "name") raw) <|> read_string (get (codes "key") raw)))
        (read_string (get (codes "address") raw) <|> read_string (get (codes "url") raw))
  decode_entry _ = reject entry_not_object

  pub record Discovery : Type 0 where
    pub nodes : List DiscoveredNode
    pub reasons : List Reason

  abbrev pub onto_discovery : Decoded → Discovery → Discovery
  onto_discovery (reject r) d = record d { reasons = r ∷ d.reasons }
  onto_discovery (accept n) d = record d { nodes = n ∷ d.nodes }

  unfoldable pub decode_entries : List Value → Discovery
  unfolding decode_entry
  decode_entries [] = record { nodes = []; reasons = [] }
  decode_entries (v ∷ vs) = onto_discovery (decode_entry v) (decode_entries vs)

  -- `Object.values(record)`
  abbrev pub values_of : Fields → List Value
  values_of end = []
  values_of (field k v fs) = v ∷ values_of fs

  unfoldable pub decode_discovered_nodes_detailed : Value → Result Discovery
  unfolding decode_entries record_of items
  decode_discovered_nodes_detailed (array vs) = ok (decode_entries (items vs))
  decode_discovered_nodes_detailed value = do
    fs ← record_of value
    ok (decode_entries (values_of fs))

  unfoldable pub decode_discovered_nodes : Value → Result (List DiscoveredNode)
  unfolding decode_discovered_nodes_detailed
  decode_discovered_nodes value = decode_discovered_nodes_detailed value >>= λ d. ok d.nodes

abbrev records_only : Items → Result Items
records_only nil = ok nil
records_only (cons (object fs) vs) = do rest ← records_only vs; ok (cons (object fs) rest)
records_only (cons v vs) = err (public_error validation)

-- `recordDefinitions`; a definition under the key `__proto__` is no entry of the result.
unfoldable pub record_definitions : Fields → Result Fields
unfolding record_of text_eq
record_definitions end = ok end
record_definitions (field key entry fs) = do
  d ← record_of entry
  rest ← record_definitions fs
  ok (if text_eq key (codes "__proto__") then rest else field key (object d) rest)

unfoldable pub decode_definitions : Value → Result Value
unfolding record_definitions record_of
decode_definitions (array vs) = records_only vs >>= λ r. ok (array r)
decode_definitions value = do
  source ← record_of value
  result ← record_definitions source
  ok (object result)

abbrev is_file : Value → Bool
is_file (text s) = true
is_file (object fs) = true
is_file _ = false

unfoldable pub decode_files : Value → Result Value
unfolding record_of items
decode_files (array vs) = guard (all is_file (items vs)) (public_error validation) >> ok (array vs)
decode_files value = record_of value >>= λ fs. ok (object fs)

unfoldable pub decode_bindings_schema : Value → Result Fields
unfolding record_of
decode_bindings_schema value = record_of value

unfoldable pub decode_bindings : Value → Result Fields
unfolding record_of
decode_bindings value = record_of value

unfoldable pub decode_activity : Value → Result Value
unfolding record_of
decode_activity (array vs) = ok (array vs)
decode_activity value = record_of value >>= λ fs. ok (object fs)

unfoldable pub decode_console : Value → Result Value
unfolding record_of
decode_console (text s) = ok (text s)
decode_console (array vs) = ok (array vs)
decode_console value = record_of value >>= λ fs. ok (object fs)
