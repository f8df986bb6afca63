-- ===== src/Resolver.antt =====
-- src/nodel/resolution/resolver.ts: the search for a node, locally, by discovery and in a cache.
-- The host is a parameter: what it answers to a request, its time, and how it goes on during a wait.
-- Requests that the code sends at once are sent one after the other.
pub mod Actions
pub mod Discovering
pub mod Search
pub mod Bounded
pub mod Allowed
mod Tests
use nodel_mcp.Base.{
  ℕ, suc, zero, ◌+◌, ◌*◌, Bool, true, false, ◌&&◌, ◌||◌, not, Option, none, some, or_else, List, [],
  ◌∷◌, ◌++◌, Text, codes, text_eq, is_empty, trim, ltb, leb, ◌==◌, if◌then◌else◌, Result, ok, err,
  Error, system, public_error, validation, any, all, keep, map, length, split, ◌>>=◌,
}
use nodel_mcp.Values.{Value}
use nodel_mcp.Config.{AppConfig}
use nodel_mcp.Points.Patterns.{is_digit}
use nodel_mcp.Messages.{behind}
use nodel_mcp.Decoders.{ParsedUrl, UrlPlatform, is_http_url, until_slash, non_empty}
use nodel_mcp.Resolution.{Address, Locale, DiscoveredNode, NodeUrlInput, same_runtime_origin}

abbrev pub retry_delays_ms : List ℕ
retry_delays_ms = 0 ∷ 250 ∷ 750 ∷ []

abbrev pub cache_ttl_ms : ℕ
cache_ttl_ms = 5 * 60 * 1000

abbrev pub cache_max_entries : ℕ
cache_max_entries = 256

pub record CacheEntry : Type 0 where
  pub candidate : DiscoveredNode
  pub expires_at : ℕ

abbrev pub Cache : Type 0
Cache = List (Text × CacheEntry)

unfoldable pub cached_at : Text → Cache → Option CacheEntry
cached_at k [] = none
cached_at k ((j, e) ∷ c) = if text_eq j k then some e else cached_at k c

unfoldable pub without : Text → Cache → Cache
without k [] = []
without k ((j, e) ∷ c) = let rest = without k c in if text_eq j k then rest else (j, e) ∷ rest

-- The loop of `remember`: the entry that was set first goes first.
unfoldable pub evict : Cache → Cache
evict [] = []
evict (e ∷ c) = let rest = evict c in if ltb cache_max_entries (suc (length c)) then rest else e ∷ c

unfoldable pub remembered : Text → DiscoveredNode → ℕ → Cache → Cache
unfolding without evict
remembered key candidate now cache = evict (
    without key cache
    ++ (key, record { candidate = candidate; expires_at = now + cache_ttl_ms }) ∷ [])

-- Of the ParsedUrl of an input `parse_url` keeps the runtime, and `parse` the rest.
pub record Platform : Type 0 where
  pub locale : Locale
  pub urls : UrlPlatform

module _ (p : Platform) where
  -- `/^127(?:\.\d{1,3}){3}$/u`
  abbrev is_byte : Text → Bool
  is_byte s = not (is_empty s) && leb (length s) 3 && all is_digit s

  abbrev is_loopback_quad : List Text → Bool
  is_loopback_quad (a ∷ b ∷ c ∷ d ∷ []) =
      text_eq a (codes "127") && is_byte b && is_byte c && is_byte d
  is_loopback_quad _ = false

  unfoldable pub is_loopback : Text → Bool
  unfolding text_eq split
  is_loopback hostname =
      let normalized = p.locale.lower hostname in
      text_eq normalized (codes "localhost")
      || text_eq normalized (codes "::1")
      || is_loopback_quad (split b'.' normalized)

  unfoldable pub is_configured_local_runtime : Address → Address → Bool
  unfolding same_runtime_origin is_loopback text_eq
  is_configured_local_runtime left configured =
      same_runtime_origin p.locale left configured
      || (text_eq left.protocol configured.protocol
          && text_eq left.port configured.port
          && is_loopback left.hostname
          && is_loopback configured.hostname)

  abbrev checked_origin : Option ParsedUrl → Result Text
  checked_origin none = err system
  checked_origin (some u) =
      if not (is_http_url u)
      then err (public_error validation)
      else if u.has_credentials
      then err (public_error validation)
      else ok u.origin

  -- `new URL(normalizeRuntimeBaseUrl(input)).origin`
  unfoldable pub runtime_origin : Text → Result Text
  unfolding text_eq
  runtime_origin input = checked_origin (p.urls.parse input)

  unfoldable pub is_allowed_runtime_origin : Text → Text → List Text → Result Bool
  unfolding runtime_origin text_eq
  is_allowed_runtime_origin runtime_url configured allowed_origins = do
    origin ← runtime_origin runtime_url
    own ← runtime_origin configured
    ok (text_eq origin own || any (λ o. text_eq o origin) allowed_origins)

  -- `/(?:^|\/)nodes\/([^/]+)/u`: the segment behind `nodes/` at the start or behind a slash.
  abbrev segment_behind : Option Text → Option Text
  segment_behind none = none
  segment_behind (some s) = non_empty (some (until_slash s))

  unfoldable pub later_segment : Text → Option Text
  unfolding behind
  later_segment [] = none
  later_segment (c ∷ s) =
      let rest = later_segment s in
      elim (segment_behind (behind (codes "/nodes/") (c ∷ s))) [ some t ↦ some t | none ↦ rest ]

  unfoldable pub path_node : Text → Option Text
  unfolding later_segment behind
  path_node s = elim (segment_behind (behind (codes "nodes/") s)) [
    | some t ↦ some t
    | none ↦ later_segment s
  ]

  abbrev safe_decode : Option Text → Option Text
  safe_decode none = none
  safe_decode (some s) = some (or_else (p.urls.decode_component s) s)

  -- Where neither the path nor the query names a node, the input is no address of one.
  abbrev url_input : Address → Option Text → Option Text → Option NodeUrlInput
  url_input address none none = none
  url_input address segment query =
      some (record { url = address; path_segment = segment; query_node = query })

  abbrev input_of : Option Address → Option ParsedUrl → Option NodeUrlInput
  input_of (some address) (some u) =
      if not (is_http_url u) || u.has_credentials
      then none
      else url_input address (non_empty (safe_decode (path_node u.pathname)))
          (non_empty u.query_node)
  input_of _ _ = none

  unfoldable pub parse_node_url_input : Text → Option NodeUrlInput
  unfolding path_node text_eq
  parse_node_url_input input = input_of (p.locale.parse_url input) (p.urls.parse input)
