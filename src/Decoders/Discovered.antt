-- ===== src/Decoders/Discovered.antt =====
-- src/nodel/contracts/decoders.ts: what a discovery is decoded to.
use nodel_mcp.Base.{
  ◌+◌, ◌≡◌, refl, subst, true, false, Option, none, some, List, [], ◌∷◌, Text, arith, All, ok,
  Bool-cases, inl, inr, length,
}
use nodel_mcp.Values.{Value, array, object, items}
use nodel_mcp.Resolution.{DiscoveredNode}
use nodel_mcp.Decoders.{
  UrlPlatform, ParsedUrl, Decoded, reject, accept, is_http_url, Discovery, decode_entry, decode_url,
  decode_named, decode_entries, decode_discovered_nodes_detailed, onto_discovery, values_of,
  record_of,
}

-- The address of the node is the normal form of an http URL without credentials.
pub record HasSafeAddress (p : UrlPlatform) (n : DiscoveredNode) : Type 0 where
  pub source : Text
  pub url : ParsedUrl
  pub parse_eq : p.parse source ≡ some url
  pub http : is_http_url url ≡ true
  pub no_credentials : url.has_credentials ≡ false
  pub address : n.address ≡ url.href

abbrev HasSafeResult : UrlPlatform → Decoded → Type 0
HasSafeResult p (reject r) = Unit
HasSafeResult p (accept n) = HasSafeAddress p n

module _ (p : UrlPlatform) where
  decode_url-HasSafeResult :
      (name source : Text) (o : Option ParsedUrl)
      → p.parse source ≡ o
      → HasSafeResult p (decode_url p name o)
  decode_url-HasSafeResult name source none e = tt
  decode_url-HasSafeResult name source (some u) e = elim (Bool-cases (is_http_url u)) [
    | inr h ↦ rw h tt
    | inl h ↦ elim (Bool-cases u.has_credentials) [
      | inl c ↦ rw (h, c) tt
      | inr c ↦
          rw (h, c)
            (record {
              source = source;
              url = u;
              parse_eq = e;
              http = h;
              no_credentials = c;
              address = refl;
            })
    ]
  ]

  decode_named-HasSafeResult :
      (name address : Option Text) → HasSafeResult p (decode_named p name address)
  decode_named-HasSafeResult (some name) (some a) = decode_url-HasSafeResult name a (p.parse a) refl
  decode_named-HasSafeResult (some name) none = tt
  decode_named-HasSafeResult none a = tt

  decode_entry-HasSafeResult : (v : Value) → HasSafeResult p (decode_entry p v)
  unfolding decode_entry
  decode_entry-HasSafeResult (object raw) = decode_named-HasSafeResult _ _
  decode_entry-HasSafeResult v = tt

  -- Every entry is a node or a reason.
  abbrev IsAccount : List Value → Discovery p → Type 0
  IsAccount vs d = (length d.nodes + length d.reasons ≡ length vs) × All (HasSafeAddress p) d.nodes

  onto_discovery-IsAccount :
      (v : Value) (vs : List Value) (r : Decoded) (d : Discovery p)
      → HasSafeResult p r
      → IsAccount vs d
      → IsAccount (v ∷ vs) (onto_discovery p r d)
  onto_discovery-IsAccount v vs (reject r) d h k = (omega (arith, k.0), k.1)
  onto_discovery-IsAccount v vs (accept n) d h k = (omega (arith, k.0), (h, k.1))

  pub decode_entries-IsAccount : (vs : List Value) → IsAccount vs (decode_entries p vs)
  unfolding decode_entries
  decode_entries-IsAccount [] = (omega arith, tt)
  decode_entries-IsAccount (v ∷ vs) =
      onto_discovery-IsAccount v vs (decode_entry p v) (decode_entries p vs)
        (decode_entry-HasSafeResult v) (decode_entries-IsAccount vs)

  -- The entries of a response: the elements of an array, the values of an object.
  abbrev pub entries_in : Value → List Value
  entries_in (array vs) = items vs
  entries_in (object fs) = values_of p fs
  entries_in v = []

  -- A discovery that is decoded has, for every entry of the response, a node or a reason, and the
  -- address of every node is that of an http or https URL without credentials.
  pub decode_discovered_lem :
      (value : Value) (d : Discovery p)
      → decode_discovered_nodes_detailed p value ≡ ok d
      → (length d.nodes + length d.reasons ≡ length (entries_in value))
        × All (HasSafeAddress p) d.nodes
  unfolding decode_discovered_nodes_detailed record_of
  decode_discovered_lem (array vs) d h =
      let e : decode_entries p (items vs) ≡ d = cc in
      subst (λ x. IsAccount (items vs) x) e (decode_entries-IsAccount (items vs))
  decode_discovered_lem (object fs) d h =
      let e : decode_entries p (values_of p fs) ≡ d = cc in
      subst (λ x. IsAccount (values_of p fs) x) e (decode_entries-IsAccount (values_of p fs))
  decode_discovered_lem v d h = ground (arith, h)
