-- ===== src/Decoders/Tests.antt =====
-- src/nodel/contracts/decoders.ts on a small response.
use nodel_mcp.Base.{◌≡◌, refl, ◌+◌, false, none, some, [], ◌∷◌, codes, All, length}
use nodel_mcp.Values.{Value, array, object, cons, nil, field, end, text, null}
use nodel_mcp.Messages.{behind}
use nodel_mcp.Decoders.{
  UrlPlatform, Discovery, decode_discovered_nodes_detailed, nodes_segment, entry_not_object,
  decode_entries, rest_path_segment_from_address, decode_entry,
}
use nodel_mcp.Decoders.Discovered.{HasSafeAddress, decode_discovered_lem, entries_in}

-- Every text is an address of one host.
abbrev one_host : UrlPlatform
one_host = record {
  parse = λ s. some (record {
    protocol = codes "http:";
    has_credentials = false;
    href = s;
    pathname = codes "/nodes/Lamp/";
    origin = s;
    query_node = none;
  });
  decode_component = λ s. some s;
}

abbrev response : Value
response = array (
    cons
      (object (
        field (codes "node") (text (codes "Lamp"))
          (field (codes "address") (text (codes "http://h/nodes/Lamp/")) end)))
      (cons null nil))

abbrev found : Discovery one_host
found = record {
  nodes =
      record {
        name = codes "Lamp";
        address = codes "http://h/nodes/Lamp/";
        rest_path_segment = some (codes "Lamp");
      }
      ∷ [];
  reasons = entry_not_object ∷ [];
}

decode_discovered_lem_example :
    (length found.nodes + length found.reasons ≡ length (entries_in one_host response))
    × All (HasSafeAddress one_host) found.nodes
unfolding decode_discovered_nodes_detailed decode_entries decode_entry
    rest_path_segment_from_address nodes_segment behind
decode_discovered_lem_example = decode_discovered_lem one_host response found refl
