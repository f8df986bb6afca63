-- ===== src/Resolver/Discovering.antt =====
-- src/nodel/resolution/resolver.ts: local nodes, and discovery.
use nodel_mcp.Base.{
  ℕ, suc, zero, ◌+◌, Bool, false, ◌||◌, not, Option, none, some, or_else, ◌<|>◌, List, [], ◌∷◌,
  ◌++◌, Text, text_eq, is_empty, if◌then◌else◌, Result, ok, err, system, map, keep, length,
}
use nodel_mcp.Values.{Value}
use nodel_mcp.Config.{AppConfig}
use nodel_mcp.Policy.{is_node_allowed, assert_node_allowed}
use nodel_mcp.Decoders.{
  NodelNodeEntry, Discovery, decode_host_status, decode_discovered_nodes_detailed,
}
use nodel_mcp.Resolution.{
  Address, NormalizedNode, DiscoveredNode, NodeUrlInput, best_local_match, get_very_simple_name,
}
use nodel_mcp.Resolver.{Platform, is_configured_local_runtime}
use nodel_mcp.Resolver.Actions.{
  Request, host_status, node_urls, node_urls_for_node, Host, local, ResolvedNode, done, Found,
  Action, as_outcome, pure, ◌>>=◌, lift,
}

module _ (p : Platform) (config : AppConfig) {O : Type 0} (host : Host O) where
  unfoldable pub request : Request → Action O Value
  request r s = let (v, o) = host.answer r s.outside in (as_outcome v, record s { outside = o })

  unfoldable pub now : Action O ℕ
  now s = (done (host.clock s.outside), s)

  unfoldable pub delay : ℕ → Action O (Unit {0})
  delay zero s = (done tt, s)
  delay (suc ms) s = (done tt, record s { outside = host.wait (suc ms) s.outside })

  -- `entry.name || key`
  unfoldable pub normalized_node : Text × NodelNodeEntry → NormalizedNode
  unfolding get_very_simple_name
  normalized_node (key, entry) =
      let name = if is_empty entry.name then key else entry.name in
      record { key = key; name = name; rest_path_segment = get_very_simple_name p.locale name }

  -- `status.nodes ?? {}`
  abbrev known_nodes : Option (List (Text × NodelNodeEntry)) → List (Text × NodelNodeEntry)
  known_nodes none = []
  known_nodes (some ns) = ns

  unfoldable pub list_local_nodes : Bool → Action O (List NormalizedNode)
  unfolding request decode_host_status normalized_node is_node_allowed
  list_local_nodes only_allowed = do
    v ← request host_status
    status ← lift (decode_host_status v)
    pure (
        keep (λ n. not only_allowed || is_node_allowed n.name config.allowed_node_prefixes)
          (map normalized_node (known_nodes status.nodes)))

  abbrev local_input : Text → Option NodeUrlInput → Address → Text
  local_input input none own = input
  local_input input (some u) own =
      if is_configured_local_runtime p u.url own
      then or_else (u.path_segment <|> u.query_node) input
      else input

  abbrev own_address : Option Address → Result Address
  own_address none = err system
  own_address (some a) = ok a

  abbrev pub local_node : Text → Option NormalizedNode → Action O (Option ResolvedNode)
  local_node input none = pure none
  local_node input (some match) = do
    _ ← lift (assert_node_allowed match.name config.allowed_node_prefixes)
    pure (
        some (record {
          input = input;
          key = some match.key;
          name = match.name;
          rest_path_segment = some match.rest_path_segment;
          address = none;
          resolution_source = local;
        }))

  unfoldable pub resolve_local : Text → Option NodeUrlInput → Action O (Option ResolvedNode)
  unfolding list_local_nodes is_configured_local_runtime best_local_match
  resolve_local input u = do
    own ← lift (own_address (p.locale.parse_url config.nodel_base_url))
    nodes ← list_local_nodes false
    match ← lift (best_local_match p.locale nodes (local_input input u own))
    local_node input match

  unfoldable pub discover_filtered : Text → Action O (Discovery p.urls)
  unfolding request decode_discovered_nodes_detailed
  discover_filtered filter = do
    v ← request (node_urls filter)
    lift (decode_discovered_nodes_detailed p.urls v)

  unfoldable pub discover_for_node : Text → Action O (Discovery p.urls)
  unfolding request decode_discovered_nodes_detailed
  discover_for_node name = do
    v ← request (node_urls_for_node name)
    lift (decode_discovered_nodes_detailed p.urls v)

  -- `merge`: a node stands where the first one of its name and address stood.
  unfoldable pub set_node : DiscoveredNode → List DiscoveredNode → List DiscoveredNode
  unfolding text_eq
  set_node n [] = n ∷ []
  set_node n (m ∷ ms) =
      let rest = set_node n ms in
      if text_eq (m.name ++ (0 ∷ m.address)) (n.name ++ (0 ∷ n.address)) then n ∷ ms else m ∷ rest

  unfoldable pub merge : List DiscoveredNode → List DiscoveredNode → List DiscoveredNode
  unfolding set_node
  merge [] merged = merged
  merge (n ∷ ns) merged = merge ns (set_node n merged)

  abbrev found : Discovery p.urls → Found
  found d = record { nodes = d.nodes; rejected_entries = length d.reasons }

  unfoldable pub discover_names : List Text → Action O Found
  unfolding discover_for_node
  discover_names [] = pure (record { nodes = []; rejected_entries = 0 })
  discover_names (name ∷ names) = do
    d ← discover_for_node name
    rest ← discover_names names
    pure (record {
      nodes = d.nodes ++ rest.nodes;
      rejected_entries = length d.reasons + rest.rejected_entries;
    })

  abbrev named : Option Text → List Text
  named none = []
  named (some s) = if is_empty s then [] else s ∷ []

  abbrev add_name : List Text → List Text → List Text
  add_name [] ns = ns
  add_name (a ∷ rest) [] = a ∷ []
  add_name (a ∷ rest) (n ∷ ns) = if text_eq a n then n ∷ ns else n ∷ a ∷ ns

  -- The segment and the name of the query, once if they are the same.
  abbrev url_names : NodeUrlInput → List Text
  url_names u = add_name (named u.query_node) (named u.path_segment)

  -- The nodes of `first`, or where it has none those of the whole network.
  abbrev or_all : Found → Found → Found
  or_all first all = record {
    nodes = all.nodes;
    rejected_entries = first.rejected_entries + all.rejected_entries;
  }

  unfoldable pub with_all : Found → Action O Found
  unfolding discover_filtered
  with_all first = elim first.nodes [
    | n ∷ ns ↦ pure first
    | [] ↦ do d ← discover_filtered []; pure (or_all first (found d))
  ]

  unfoldable pub discover : Text → Option NodeUrlInput → Action O Found
  unfolding discover_names with_all merge discover_filtered text_eq
  discover input none = do d ← discover_filtered input; with_all (found d)
  discover input (some u) = do
    exact ← discover_names (url_names u)
    with_all (record { nodes = merge exact.nodes []; rejected_entries = exact.rejected_entries })
