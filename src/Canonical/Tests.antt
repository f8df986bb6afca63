-- ===== src/Canonical/Tests.antt =====
-- Canonical texts, and an instance of the theorem about them.
use nodel_mcp.Base.{◌≡◌, refl, some, codes, text_eq, text_lt, join, join_rest}
use nodel_mcp.Values.{
  Value, object, array, text, integer, pos, undefined, nil, cons, Fields, field, end,
}
use nodel_mcp.Platform.{plain}
use nodel_mcp.Canonical.{
  stable_stringify, stable_json_hash, serialize, quote, integer_text, insert_entry,
}
use nodel_mcp.Canonical.Order.{in_object, swapped, canonical_order}

abbrev rest : Fields
rest = field (codes "c") (array (cons undefined nil)) (field (codes "d") undefined end)

abbrev first : Value
first =
    object (field (codes "b") (text (codes "x\"y")) (field (codes "a") (integer (pos 120)) rest))

abbrev second : Value
second =
    object (field (codes "a") (integer (pos 120)) (field (codes "b") (text (codes "x\"y")) rest))

stringifies : stable_stringify first ≡ some (codes "{\"a\":120,\"b\":\"x\\\"y\",\"c\":[null]}")
unfolding stable_stringify serialize quote integer_text insert_entry text_lt join join_rest
stringifies = refl

canonical_order_example :
    (stable_stringify first ≡ stable_stringify second)
    × (stable_json_hash plain first ≡ stable_json_hash plain second)
unfolding text_eq
canonical_order_example =
    canonical_order plain (in_object (swapped (codes "b") (codes "a") _ _ rest refl))
