-- ===== src/Canonical/Order.antt =====
-- The order of the fields of objects does not matter to the canonical text.
use nodel_mcp.Base.{
  ◌≡◌, ◌∙◌, refl, ap, Bool, true, false, not, Option, none, some, List, [], ◌∷◌, Text,
}
use nodel_mcp.Base.{text_lt, text_eq, arith}
use nodel_mcp.Values.{Value, array, object, Items, nil, cons, Fields, end, field}
use nodel_mcp.Platform.{Platform}
use nodel_mcp.Canonical.{
  Serialized, refused, dropped, written, insert_entry, add_entry, array_text, object_text,
}
use nodel_mcp.Canonical.{
  serialize, serialize_items, serialize_fields, stable_stringify, stable_json_hash,
}

text_lt_total : (a b : Text) → text_eq a b ≡ false → text_lt a b ≡ not (text_lt b a)
unfolding text_lt text_eq
text_lt_total [] [] h = ground arith
text_lt_total [] (y ∷ b) h = refl
text_lt_total (x ∷ a) [] h = refl
text_lt_total (x ∷ a) (y ∷ b) h = ground (arith, text_lt_total a b)

text_lt_trans : (a b c : Text) → text_lt a b ≡ true → text_lt b c ≡ true → text_lt a c ≡ true
unfolding text_lt
text_lt_trans a [] c h k = ground arith
text_lt_trans a (y ∷ b) [] h k = ground arith
text_lt_trans [] (y ∷ b) (z ∷ c) h k = refl
text_lt_trans (x ∷ a) (y ∷ b) (z ∷ c) h k = ground (arith, text_lt_trans a b c)

insert_entry_swap :
    (j k s t : Text) (es : List (Text × Text))
    → text_eq j k ≡ false
    → insert_entry j s (insert_entry k t es) ≡ insert_entry k t (insert_entry j s es)
unfolding insert_entry
insert_entry_swap j k s t [] h = ground (arith, text_lt_total j k h)
insert_entry_swap j k s t ((m, u) ∷ es) h = ground (
  arith,
  text_lt_total j k h,
  text_lt_trans j k m,
  text_lt_trans k j m,
  insert_entry_swap j k s t es h,
)

add_entry_swap :
    (j k : Text) (a b : Serialized) (r : Option (List (Text × Text)))
    → text_eq j k ≡ false
    → add_entry j a (add_entry k b r) ≡ add_entry k b (add_entry j a r)
add_entry_swap j k refused refused r h = refl
add_entry_swap j k refused dropped none h = refl
add_entry_swap j k refused dropped (some es) h = refl
add_entry_swap j k refused (written t) none h = refl
add_entry_swap j k refused (written t) (some es) h = refl
add_entry_swap j k dropped refused none h = refl
add_entry_swap j k dropped refused (some es) h = refl
add_entry_swap j k dropped dropped none h = refl
add_entry_swap j k dropped dropped (some es) h = refl
add_entry_swap j k dropped (written t) none h = refl
add_entry_swap j k dropped (written t) (some es) h = refl
add_entry_swap j k (written s) refused none h = refl
add_entry_swap j k (written s) refused (some es) h = refl
add_entry_swap j k (written s) dropped none h = refl
add_entry_swap j k (written s) dropped (some es) h = refl
add_entry_swap j k (written s) (written t) none h = refl
add_entry_swap j k (written s) (written t) (some es) h = ap some (insert_entry_swap j k s t es h)

-- The same value, with the fields of its objects, at any depth, in another order.
mutual
  pub data Reordered : Value → Value → Type 0 where
    same : {v : Value} → Reordered v v
    in_array : {vs ws : Items} → ReorderedItems vs ws → Reordered (array vs) (array ws)
    in_object : {fs gs : Fields} → ReorderedFields fs gs → Reordered (object fs) (object gs)

  pub data ReorderedItems : Items → Items → Type 0 where
    no_items : ReorderedItems nil nil
    items :
        {v w : Value} {vs ws : Items}
        → Reordered v w
        → ReorderedItems vs ws
        → ReorderedItems (cons v vs) (cons w ws)

  pub data ReorderedFields : Fields → Fields → Type 0 where
    no_fields : ReorderedFields end end
    fields :
        {k : Text} {v w : Value} {fs gs : Fields}
        → Reordered v w
        → ReorderedFields fs gs
        → ReorderedFields (field k v fs) (field k w gs)
    swapped :
        (j k : Text) (v w : Value) (fs : Fields)
        → text_eq j k ≡ false
        → ReorderedFields (field j v (field k w fs)) (field k w (field j v fs))
    again :
        {fs gs hs : Fields} → ReorderedFields fs gs → ReorderedFields gs hs → ReorderedFields fs hs

mutual
  unfolding serialize

  serialize-Reordered : (b : Bool) {v w : Value} → Reordered v w → serialize b v ≡ serialize b w
  serialize-Reordered b same = refl
  serialize-Reordered b (in_array r) = ap array_text (items-Reordered r)
  serialize-Reordered b (in_object r) = ap object_text (fields-Reordered r)

  items-Reordered : {vs ws : Items} → ReorderedItems vs ws → serialize_items vs ≡ serialize_items ws
  items-Reordered no_items = refl
  items-Reordered (items r rs) = cc (serialize-Reordered true r, items-Reordered rs)

  fields-Reordered :
      {fs gs : Fields} → ReorderedFields fs gs → serialize_fields fs ≡ serialize_fields gs
  fields-Reordered no_fields = refl
  fields-Reordered (fields r rs) = cc (serialize-Reordered false r, fields-Reordered rs)
  fields-Reordered (swapped j k v w fs h) =
      add_entry_swap j k (serialize false v) (serialize false w) (serialize_fields fs) h
  fields-Reordered (again r s) = fields-Reordered r ∙ fields-Reordered s

-- Two values that differ only in the order of the fields of their objects, at any depth, have one
-- canonical text, and so one hash.
pub canonical_order :
    (p : Platform) {v w : Value}
    → Reordered v w
    → (stable_stringify v ≡ stable_stringify w) × (stable_json_hash p v ≡ stable_json_hash p w)
unfolding stable_json_hash
canonical_order p r = rw (serialize-Reordered false r) (refl, refl)
