-- ===== src/Resolution/Tests.antt =====
-- Matches, and instances of the theorems about them.
use nodel_mcp.Base.{◌≡◌, refl, none, some, List, [], ◌∷◌, Text, codes, ok, to_lower, text_eq}
use nodel_mcp.Base.{trim, trim_start, is_space, starts_with, includes, is_space}
use nodel_mcp.Resolution.{
  Locale, Address, NormalizedNode, DiscoveredNode, best_local_match, local_score, remote_score,
}
use nodel_mcp.Resolution.{
  get_very_simple_name, before_bracket, same_text, normalize_text, contains_text, unique_best,
  best_score, same_runtime_origin,
}
use nodel_mcp.Resolution.Best.{IsBest, best_local_match_lem}
use nodel_mcp.Resolution.Origins.{unknown_segment_matches}

abbrev host : Address
host = record { protocol = codes "http:"; hostname = codes "h"; port = [] }

abbrev ascii : Locale
ascii = record { lower = to_lower; letters_and_numbers = λ s. s; parse_url = λ s. some host }

abbrev node_named : Text → NormalizedNode
node_named name = record { name = name; key = name; rest_path_segment = name }

abbrev nodes : List NormalizedNode
nodes = node_named (codes "Lobby") ∷ node_named (codes "Lobby Screen") ∷ []

finds : best_local_match ascii nodes (codes "lobby") ≡ ok (some (node_named (codes "Lobby")))
unfolding best_local_match local_score unique_best best_score get_very_simple_name before_bracket
    same_text normalize_text contains_text text_eq trim trim_start is_space starts_with includes
finds = refl

best_local_match_lem_example :
    IsBest (local_score ascii (codes "lobby")) nodes (node_named (codes "Lobby"))
best_local_match_lem_example = best_local_match_lem ascii nodes (codes "lobby") finds

abbrev candidate : DiscoveredNode
candidate = record { name = codes "Foyer"; address = codes "http://h/"; rest_path_segment = none }

unknown_segment_matches_example :
    remote_score ascii []
      (some (record { url = host; path_segment = none; query_node = some (codes "Lobby") }))
      candidate
    ≡ ok 100
unfolding same_runtime_origin normalize_text text_eq trim trim_start is_space
unknown_segment_matches_example =
    unknown_segment_matches ascii [] (codes "Lobby") candidate host host refl refl refl
