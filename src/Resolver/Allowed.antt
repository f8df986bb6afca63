-- ===== src/Resolver/Allowed.antt =====
-- src/nodel/resolution/resolver.ts: the nodes that are found, and the size of the cache.
use nodel_mcp.Base.{
  ℕ, suc, zero, ◌≡◌, Bool, true, false, Option, none, some, List, [], ◌∷◌, Text, leb, public_error,
  validation, is_empty, trim,
}
use nodel_mcp.Config.{AppConfig}
use nodel_mcp.Policy.{is_node_allowed}
use nodel_mcp.Resolution.{DiscoveredNode, NormalizedNode, NodeUrlInput}
use nodel_mcp.Resolver.{Platform, CacheEntry, cached_at, retry_delays_ms, parse_node_url_input}
use nodel_mcp.Resolver.Actions.{
  Request, Host, ResolvedNode, Action, Source, local, discovery, cache, pure, stop, ◌>>=◌, thrown,
  inconclusive, not_found,
}
use nodel_mcp.Resolver.Discovering.{
  request, now, delay, resolve_local, list_local_nodes, local_node, discover, discover_names,
  discover_filtered, discover_for_node, with_all,
}
use nodel_mcp.Resolver.Search.{
  remember, remember_if, cache_key, to_resolved, resolve_cache, from_cache, from_entry, local_if,
  accept_candidate, round, rounds, or_cached, resolve,
}
use nodel_mcp.Resolver.Bounded.{
  Any, Any-as_outcome, Ensures, Ensures-allowed, Ensures-attempt, Ensures-bind, Ensures-if,
  Ensures-lift, Ensures-pure, Ensures-stop, IfSome, remembered-IsBounded,
}

module _ (p : Platform) (config : AppConfig) {O : Type 0} (host : Host O) where
  abbrev pub IsAllowed : ResolvedNode → Type 0
  IsAllowed r = is_node_allowed r.name config.allowed_node_prefixes ≡ true

  Ensures-request : (r : Request) → Ensures (request p config host r) Any
  unfolding request
  Ensures-request r = record {
    at = λ s b. let (v, o) = host.answer r s.outside in (b, Any-as_outcome v);
  }

  Ensures-now : Ensures (now p config host) Any
  unfolding now
  Ensures-now = record { at = λ s b. (b, tt) }

  Ensures-delay : (ms : ℕ) → Ensures (delay p config host ms) Any
  unfolding delay
  Ensures-delay zero = record { at = λ s b. (b, tt) }
  Ensures-delay (suc ms) = record { at = λ s b. (b, tt) }

  Ensures-remember :
      (input : Text) (c : DiscoveredNode) → Ensures (remember p config host input c) Any
  unfolding remember
  Ensures-remember input c = record {
    at = λ s b. (
      remembered-IsBounded (cache_key p config host input) c (host.clock s.outside) s.entries,
      tt,
    );
  }

  Ensures-remember_if :
      (source : Source) (input : Text) (c : DiscoveredNode)
      → Ensures (remember_if p config host source input c) Any
  Ensures-remember_if discovery input c = Ensures-remember input c
  Ensures-remember_if local input c = Ensures-pure tt tt
  Ensures-remember_if cache input c = Ensures-pure tt tt

  Ensures-to_resolved :
      (input : Text) (c : DiscoveredNode) (source : Source)
      → Ensures (to_resolved p config host input c source) IsAllowed
  unfolding to_resolved
  Ensures-to_resolved input c source =
      Ensures-bind (Ensures-allowed c.name config.allowed_node_prefixes)
        λ _ h. Ensures-bind (Ensures-remember_if source input c) λ _ _. Ensures-pure _ h

  Ensures-some :
      {m : Action O ResolvedNode}
      → Ensures m IsAllowed
      → Ensures (m >>= λ r. pure (some r)) (IfSome IsAllowed)
  Ensures-some t = Ensures-bind t λ r h. Ensures-pure (some r) h

  Ensures-local_node :
      (input : Text) (o : Option NormalizedNode)
      → Ensures (local_node p config host input o) (IfSome IsAllowed)
  Ensures-local_node input none = Ensures-pure none tt
  Ensures-local_node input (some n) =
      Ensures-bind (Ensures-allowed n.name config.allowed_node_prefixes) λ _ h. Ensures-pure _ h

  Ensures-resolve_local :
      (input : Text) (u : Option NodeUrlInput)
      → Ensures (resolve_local p config host input u) (IfSome IsAllowed)
  unfolding resolve_local list_local_nodes
  Ensures-resolve_local input u = Ensures-bind (Ensures-lift _) λ own _.
      Ensures-bind
        (Ensures-bind (Ensures-request _)
          λ v _. Ensures-bind (Ensures-lift _) λ status _. Ensures-pure {Q = Any} _ tt)
        λ nodes _. Ensures-bind (Ensures-lift _) λ match _. Ensures-local_node input match

  Ensures-discover_filtered : (filter : Text) → Ensures (discover_filtered p config host filter) Any
  unfolding discover_filtered
  Ensures-discover_filtered filter = Ensures-bind (Ensures-request _) λ v _. Ensures-lift _

  Ensures-discover_names : (names : List Text) → Ensures (discover_names p config host names) Any
  unfolding discover_names discover_for_node
  Ensures-discover_names [] = Ensures-pure _ tt
  Ensures-discover_names (name ∷ names) =
      Ensures-bind (Ensures-bind (Ensures-request _) λ v _. Ensures-lift _)
        λ d _. Ensures-bind (Ensures-discover_names names) λ rest _. Ensures-pure _ tt

  all_of :
      (ns : List DiscoveredNode) (rejected : ℕ)
      → Ensures (with_all p config host (record { nodes = ns; rejected_entries = rejected })) Any
  unfolding with_all
  all_of [] rejected = Ensures-bind (Ensures-discover_filtered []) λ d _. Ensures-pure _ tt
  all_of (n ∷ ns) rejected = Ensures-pure _ tt

  Ensures-discover :
      (input : Text) (u : Option NodeUrlInput) → Ensures (discover p config host input u) Any
  unfolding discover
  Ensures-discover input none =
      Ensures-bind (Ensures-discover_filtered input) λ d _. all_of d.nodes _
  Ensures-discover input (some u) =
      Ensures-bind (Ensures-discover_names _) λ exact _. all_of _ exact.rejected_entries

  Ensures-accept :
      (input : Text) (o : Option DiscoveredNode) (trusted : Bool)
      → Ensures (accept_candidate p config host input o trusted) (IfSome IsAllowed)
  Ensures-accept input none trusted = Ensures-pure none tt
  Ensures-accept input (some c) false = Ensures-pure none tt
  Ensures-accept input (some c) true = Ensures-some (Ensures-to_resolved input c discovery)

  Ensures-from_entry :
      (input : Text) (e : CacheEntry) (trusted : Bool)
      → Ensures (from_entry p config host input e trusted) (IfSome IsAllowed)
  Ensures-from_entry input e false = Ensures-pure none tt
  Ensures-from_entry input e true = Ensures-attempt (
      Ensures-bind (Ensures-request _) λ metadata _.
        Ensures-if _ (Ensures-some (Ensures-to_resolved input e.candidate cache))
          (Ensures-pure none tt))

  Ensures-from_cache :
      (input : Text) (u : Option NodeUrlInput) (o : Option CacheEntry)
      → Ensures (from_cache p config host input u o) (IfSome IsAllowed)
  Ensures-from_cache input u none = Ensures-pure none tt
  Ensures-from_cache input u (some e) = Ensures-bind Ensures-now λ t _.
      Ensures-if (leb e.expires_at t) (Ensures-pure none tt)
        (Ensures-bind (Ensures-lift _) λ trusted _. Ensures-from_entry input e trusted)

  Ensures-resolve_cache :
      (input : Text) (u : Option NodeUrlInput)
      → Ensures (resolve_cache p config host input u) (IfSome IsAllowed)
  unfolding resolve_cache
  Ensures-resolve_cache input u = record {
    at = λ s b.
        (Ensures-from_cache input u (cached_at (cache_key p config host input) s.entries)).at s b;
  }

  Ensures-local_if :
      (b : Bool) (input : Text) (u : Option NodeUrlInput)
      → Ensures (local_if p config host b input u) (IfSome IsAllowed)
  Ensures-local_if true input u = Ensures-resolve_local input u
  Ensures-local_if false input u = Ensures-pure none tt

  -- The node of an earlier step, or what the next step finds.
  Ensures-or :
      (o : Option ResolvedNode) {m : Action O (Option ResolvedNode)}
      → IfSome IsAllowed o
      → Ensures m (IfSome IsAllowed)
      → Ensures (elim o [ some node ↦ pure (some node) | none ↦ m ]) (IfSome IsAllowed)
  Ensures-or none h t = t
  Ensures-or (some r) h t = Ensures-pure (some r) h

  Ensures-round :
      (input : Text) (u : Option NodeUrlInput) (conclusive : Bool)
      → Ensures (round p config host input u conclusive) (IfSome IsAllowed)
  unfolding round
  Ensures-round input u conclusive = Ensures-bind (Ensures-discover input u) λ d _.
      Ensures-bind (Ensures-lift _) λ candidate _. Ensures-bind (Ensures-lift _) λ trusted _.
        Ensures-bind (Ensures-accept input candidate trusted)
          λ r h. Ensures-or r h (Ensures-if _ (Ensures-stop inconclusive) (Ensures-pure none tt))

  Ensures-rounds :
      (delays : List ℕ) (input : Text) (u : Option NodeUrlInput) (include_local conclusive : Bool)
      → Ensures (rounds p config host delays input u include_local conclusive) (IfSome IsAllowed)
  unfolding rounds
  Ensures-rounds [] input u include_local conclusive = Ensures-pure none tt
  Ensures-rounds (ms ∷ delays) input u include_local conclusive =
      Ensures-bind (Ensures-delay ms) λ _ _.
        Ensures-bind (Ensures-local_if include_local input u) λ l h. Ensures-or l h (
          Ensures-bind (Ensures-round input u conclusive)
            λ r k. Ensures-or r k (Ensures-rounds delays input u include_local conclusive))

  found_or_stop :
      (o : Option ResolvedNode)
      → IfSome IsAllowed o
      → Ensures {O = O} (elim o [ some node ↦ pure node | none ↦ stop not_found ]) IsAllowed
  found_or_stop none h = Ensures-stop not_found
  found_or_stop (some r) h = Ensures-pure r h

  Ensures-or_cached :
      (input : Text) (u : Option NodeUrlInput) (o : Option ResolvedNode)
      → IfSome IsAllowed o
      → Ensures (or_cached p config host input u o) IsAllowed
  Ensures-or_cached input u (some r) h = Ensures-pure r h
  Ensures-or_cached input u none h =
      Ensures-bind (Ensures-resolve_cache input u) λ c k. found_or_stop c k

  -- Whatever the host answers, and however the node is searched for: a node that is found, locally,
  -- by discovery or in the cache, passes the allowlist of the configuration, and a cache of at most
  -- 256 entries has at most 256 entries afterwards, whether the search succeeds or fails.
  pub resolve-IsAllowed :
      (input : Text) (include_local conclusive : Bool)
      → Ensures (resolve p config host input include_local conclusive) IsAllowed
  unfolding resolve
  resolve-IsAllowed input include_local conclusive =
      let u = parse_node_url_input p (trim input) in
      Ensures-if (is_empty (trim input)) (Ensures-stop (thrown (public_error validation))) (
        Ensures-bind (Ensures-rounds retry_delays_ms (trim input) u include_local conclusive)
          λ o h. Ensures-or_cached (trim input) u o h)
