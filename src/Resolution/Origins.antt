-- ===== src/Resolution/Origins.antt =====
-- Addresses without a path segment.
use nodel_mcp.Base.{◌≡◌, refl, true, none, some, Text, ok, text_eq_refl}
use nodel_mcp.Resolution.{
  Locale, DiscoveredNode, Address, remote_score, same_text, same_runtime_origin, normalize_text,
}

-- An address that names its node in the query only has the full score with every node of the same
-- runtime whose path segment is unknown, whatever the node's name.
pub unknown_segment_matches :
    (l : Locale) (input query : Text) (candidate : DiscoveredNode) (address url : Address)
    → candidate.rest_path_segment ≡ none
    → l.parse_url candidate.address ≡ some address
    → same_runtime_origin l address url ≡ true
    → remote_score l input
        (some (record { url = url; path_segment = none; query_node = some query }))
        candidate
      ≡ ok 100
unfolding remote_score same_text
unknown_segment_matches l input query candidate address url unknown parsed same =
    rw (parsed, same, unknown, text_eq_refl (normalize_text l none)) refl
