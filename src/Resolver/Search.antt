-- ===== src/Resolver/Search.antt =====
-- src/nodel/resolution/resolver.ts: the search for a node.
use nodel_mcp.Base.{
  ℕ, Bool, true, false, ◌&&◌, Option, none, some, List, [], ◌∷◌, Text, codes, text_eq, is_empty,
  trim, ltb, leb, if◌then◌else◌, Result, ok, err, system, public_error, validation,
}
use nodel_mcp.Values.{Value, text, prop}
use nodel_mcp.Config.{AppConfig}
use nodel_mcp.Policy.{assert_node_allowed}
use nodel_mcp.Resolution.{
  Address, DiscoveredNode, NodeUrlInput, same_runtime_origin, best_remote_match,
}
use nodel_mcp.Resolver.{
  Platform, CacheEntry, cached_at, remembered, retry_delays_ms, is_allowed_runtime_origin,
  parse_node_url_input,
}
use nodel_mcp.Resolver.Actions.{
  node_metadata, Host, Source, discovery, cache, ResolvedNode, not_found, inconclusive, thrown,
  done, Action, pure, stop, ◌>>=◌, lift, attempt,
}
use nodel_mcp.Resolver.Discovering.{request, now, delay, resolve_local, discover}

module _ (p : Platform) (config : AppConfig) {O : Type 0} (host : Host O) where
  abbrev trusted_at : Text → NodeUrlInput → Option Address → Result Bool
  trusted_at url u none = err system
  trusted_at url u (some address) =
      if same_runtime_origin p.locale address u.url
      then ok true
      else is_allowed_runtime_origin p url config.nodel_base_url config.allowed_runtime_origins

  -- `urlInput.url.toString()` has the origin of the input.
  unfoldable pub is_trusted_url_match : Text → DiscoveredNode → Option NodeUrlInput → Result Bool
  unfolding same_runtime_origin is_allowed_runtime_origin
  is_trusted_url_match input candidate none = ok true
  is_trusted_url_match input candidate (some u) =
      trusted_at input u (p.locale.parse_url candidate.address)

  unfoldable pub cache_key : Text → Text
  cache_key input = p.locale.lower (trim input)

  unfoldable pub remember : Text → DiscoveredNode → Action O (Unit {0})
  unfolding remembered cache_key
  remember input candidate s = (
    done tt,
    record s { entries = remembered (cache_key input) candidate (host.clock s.outside) s.entries },
  )

  abbrev pub remember_if : Source → Text → DiscoveredNode → Action O (Unit {0})
  remember_if discovery input candidate = remember input candidate
  remember_if _ input candidate = pure tt

  unfoldable pub to_resolved : Text → DiscoveredNode → Source → Action O ResolvedNode
  unfolding remember
  to_resolved input candidate source = do
    _ ← lift (assert_node_allowed candidate.name config.allowed_node_prefixes)
    _ ← remember_if source input candidate
    pure (record {
      input = input;
      key = none;
      name = candidate.name;
      rest_path_segment = candidate.rest_path_segment;
      address = some candidate.address;
      resolution_source = source;
    })

  abbrev is_name : Value → Text → Bool
  is_name (text s) name = text_eq s name
  is_name _ name = false

  abbrev pub from_entry : Text → CacheEntry → Bool → Action O (Option ResolvedNode)
  from_entry input e false = pure none
  from_entry input e true = attempt (do
    metadata ← request p config host (node_metadata e.candidate)
    (if is_name (prop (codes "name") metadata) e.candidate.name
        then (do r ← to_resolved input e.candidate cache; pure (some r))
        else pure none))

  abbrev pub from_cache :
      Text → Option NodeUrlInput → Option CacheEntry → Action O (Option ResolvedNode)
  from_cache input u none = pure none
  from_cache input u (some e) = do
    t ← now p config host
    (if leb e.expires_at t then pure none else (do
      trusted ← lift (is_trusted_url_match input e.candidate u)
      from_entry input e trusted))

  unfoldable pub resolve_cache : Text → Option NodeUrlInput → Action O (Option ResolvedNode)
  unfolding to_resolved request attempt now is_trusted_url_match cached_at cache_key prop
  resolve_cache input u s = from_cache input u (cached_at (cache_key input) s.entries) s

  abbrev pub local_if : Bool → Text → Option NodeUrlInput → Action O (Option ResolvedNode)
  local_if true input u = resolve_local p config host input u
  local_if false input u = pure none

  abbrev pub accept_candidate : Text → Option DiscoveredNode → Bool → Action O (Option ResolvedNode)
  accept_candidate input (some c) true = do r ← to_resolved input c discovery; pure (some r)
  accept_candidate input _ _ = pure none

  abbrev pub trust : Text → Option DiscoveredNode → Option NodeUrlInput → Result Bool
  trust input none u = ok false
  trust input (some c) u = is_trusted_url_match input c u

  -- One round of the loop that found nothing locally.
  unfoldable pub round : Text → Option NodeUrlInput → Bool → Action O (Option ResolvedNode)
  unfolding discover best_remote_match to_resolved is_trusted_url_match
  round input u conclusive = do
    d ← discover p config host input u
    candidate ← lift (best_remote_match p.locale d.nodes input u)
    trusted ← lift (trust input candidate u)
    r ← accept_candidate input candidate trusted
    elim r [
      | some node ↦ pure (some node)
      | none ↦ if conclusive && ltb 0 d.rejected_entries then stop inconclusive else pure none
    ]

  unfoldable pub rounds :
      List ℕ → Text → Option NodeUrlInput → Bool → Bool → Action O (Option ResolvedNode)
  unfolding delay resolve_local round
  rounds [] input u include_local conclusive = pure none
  rounds (ms ∷ delays) input u include_local conclusive =
      let rest = rounds delays input u include_local conclusive in
      do
        _ ← delay p config host ms
        l ← local_if include_local input u
        elim l [
          | some node ↦ pure (some node)
          | none ↦ do
            r ← round input u conclusive
            elim r [ some node ↦ pure (some node) | none ↦ rest ]
        ]

  abbrev pub or_cached : Text → Option NodeUrlInput → Option ResolvedNode → Action O ResolvedNode
  or_cached input u (some node) = pure node
  or_cached input u none = do
    c ← resolve_cache input u
    elim c [ some node ↦ pure node | none ↦ stop not_found ]

  unfoldable pub resolve : Text → Bool → Bool → Action O ResolvedNode
  unfolding rounds resolve_cache parse_node_url_input
  resolve input_value include_local conclusive =
      let input = trim input_value in
      let u = parse_node_url_input p input in
      if is_empty input then stop (thrown (public_error validation)) else do
        found ← rounds retry_delays_ms input u include_local conclusive
        or_cached input u found

  unfoldable pub resolve_node : Text → Action O ResolvedNode
  unfolding resolve
  resolve_node node = resolve node true false

  unfoldable pub resolve_remote_node : Text → Action O ResolvedNode
  unfolding resolve
  resolve_remote_node node = resolve node false false

  unfoldable pub resolve_node_for_deletion : Text → Action O ResolvedNode
  unfolding resolve
  resolve_node_for_deletion node = resolve node true true
