-- ===== src/Resolver/Tests.antt =====
-- src/nodel/resolution/resolver.ts with a host that has one node.
use nodel_mcp.Base.{text_eq, ℕ, ◌+◌, ◌≡◌, refl, true, false, none, some, [], codes, Result, ok}
use nodel_mcp.Values.{Value, array, object, field, end, nil}
use nodel_mcp.Config.{sample}
use nodel_mcp.Resolution.{DiscoveredNode}
use nodel_mcp.Resolver.{Platform, cached_at, remembered, without, evict}
use nodel_mcp.Resolver.Actions.{Host, Request, host_status}
use nodel_mcp.Resolver.Search.{resolve}
use nodel_mcp.Resolver.Bounded.{Ensures}
use nodel_mcp.Resolver.Allowed.{IsAllowed, resolve-IsAllowed}

-- Names are no addresses here, but for the one of the host itself.
abbrev platform : Platform
platform = record {
  locale = record {
    lower = λ s. s;
    letters_and_numbers = λ s. s;
    parse_url =
        λ s. some (record { protocol = codes "http:"; hostname = codes "localhost"; port = [] });
  };
  urls = record { parse = λ s. none; decode_component = λ s. some s };
}

abbrev answer : Request → ℕ → Result Value × ℕ
answer host_status t = (
  ok (object (field (codes "nodes") (object (field (codes "Lamp") (object end) end)) end)),
  t + 1,
)
answer _ t = (ok (array nil), t + 1)

abbrev one_node : Host ℕ
one_node = record { answer = answer; clock = λ t. t; wait = λ ms t. t + ms }

abbrev lamp : DiscoveredNode
lamp = record { name = codes "Lamp"; address = codes "http://h/"; rest_path_segment = none }

cached_again :
    cached_at (codes "lamp") (remembered (codes "lamp") lamp 5 [])
    ≡ some (record { candidate = lamp; expires_at = 300005 })
unfolding cached_at remembered without evict text_eq
cached_again = refl

resolve-IsAllowed_example :
    Ensures
      (resolve platform sample one_node (codes "Lamp") true false)
      (IsAllowed platform sample one_node)
resolve-IsAllowed_example = resolve-IsAllowed platform sample one_node (codes "Lamp") true false
