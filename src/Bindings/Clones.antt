-- ===== src/Bindings/Clones.antt =====
-- src/domain/bindings/directPlanner.ts: what `cloneRecord` returns is cloned to itself.
use nodel_mcp.Base.{
  ◌≡◌, refl, ap, ◌∙◌, subst, Option, none, some, Result, ok, err, Text, Bool-cases, text_eq, ◌>>=◌,
  codes, inl, inr,
}
use nodel_mcp.Values.{
  Value, null, undefined, not_finite, unsupported, boolean, integer, fraction, text, array, object,
  Items, nil, cons, Fields, end, field, put, get,
}
use nodel_mcp.Plans.{
  Cloned, fails, absent, copied, clone, clone_items, clone_fields, clone_item, clone_field,
  cloned_array, cloned_object, reparsed, clone_unknown,
}
use nodel_mcp.Bindings.Definitions.{record_fields, clone_record, normalize_bindings}

-- What a clone holds is cloned to itself.
abbrev pub IsPlain : Cloned → Type 0
IsPlain fails = Unit
IsPlain absent = Unit
IsPlain (copied v) = clone v ≡ copied v

abbrev ArePlain : Option Items → Type 0
ArePlain none = Unit
ArePlain (some vs) = clone_items vs ≡ some vs

abbrev pub HasPlainFields : Fields → Type 0
HasPlainFields end = Unit
HasPlainFields (field k v fs) = (clone v ≡ copied v) × HasPlainFields fs

abbrev HavePlain : Option Fields → Type 0
HavePlain none = Unit
HavePlain (some fs) = HasPlainFields fs

clone_fields_eq : (fs : Fields) → HasPlainFields fs → clone_fields fs ≡ some fs
unfolding clone
clone_fields_eq end h = refl
clone_fields_eq (field k v fs) h =
    ap (λ c. clone_field k c (clone_fields fs)) (h.0)
    ∙ ap (clone_field k (copied v)) (clone_fields_eq fs h.1)

cloned_array-IsPlain : (o : Option Items) → ArePlain o → IsPlain (cloned_array o)
unfolding clone
cloned_array-IsPlain none h = tt
cloned_array-IsPlain (some vs) h = ap cloned_array h

cloned_object-IsPlain : (o : Option Fields) → HavePlain o → IsPlain (cloned_object o)
unfolding clone
cloned_object-IsPlain none h = tt
cloned_object-IsPlain (some fs) h = ap cloned_object (clone_fields_eq fs h)

clone_item-ArePlain :
    (c : Cloned) (o : Option Items) → IsPlain c → ArePlain o → ArePlain (clone_item c o)
unfolding clone
clone_item-ArePlain fails o hc h = tt
clone_item-ArePlain absent none hc h = tt
clone_item-ArePlain (copied v) none hc h = tt
clone_item-ArePlain absent (some vs) hc h = ap (clone_item (copied null)) h
clone_item-ArePlain (copied v) (some vs) hc h =
    ap (λ c. clone_item c (clone_items vs)) hc ∙ ap (clone_item (copied v)) h

clone_field-HavePlain :
    (k : Text) (c : Cloned) (o : Option Fields)
    → IsPlain c
    → HavePlain o
    → HavePlain (clone_field k c o)
unfolding clone
clone_field-HavePlain k fails o hc h = tt
clone_field-HavePlain k absent none hc h = tt
clone_field-HavePlain k (copied v) none hc h = tt
clone_field-HavePlain k absent (some fs) hc h = h
clone_field-HavePlain k (copied v) (some fs) hc h = (hc, h)

mutual
  unfolding clone

  pub clone-IsPlain : (v : Value) → IsPlain (clone v)
  clone-IsPlain null = refl
  clone-IsPlain undefined = tt
  clone-IsPlain not_finite = refl
  clone-IsPlain unsupported = tt
  clone-IsPlain (boolean b) = refl
  clone-IsPlain (integer i) = refl
  clone-IsPlain (fraction t) = refl
  clone-IsPlain (text s) = refl
  clone-IsPlain (array vs) = cloned_array-IsPlain (clone_items vs) (clone_items-ArePlain vs)
  clone-IsPlain (object fs) = cloned_object-IsPlain (clone_fields fs) (clone_fields-HavePlain fs)

  clone_items-ArePlain : (vs : Items) → ArePlain (clone_items vs)
  clone_items-ArePlain nil = refl
  clone_items-ArePlain (cons v vs) =
      clone_item-ArePlain (clone v) (clone_items vs) (clone-IsPlain v) (clone_items-ArePlain vs)

  clone_fields-HavePlain : (fs : Fields) → HavePlain (clone_fields fs)
  clone_fields-HavePlain end = tt
  clone_fields-HavePlain (field k v fs) =
      clone_field-HavePlain k (clone v) (clone_fields fs) (clone-IsPlain v)
        (clone_fields-HavePlain fs)

put-HasPlainFields :
    (k : Text) (v : Value) (fs : Fields)
    → clone v ≡ copied v
    → HasPlainFields fs
    → HasPlainFields (put k v fs)
unfolding put
put-HasPlainFields k v end hv h = (hv, tt)
put-HasPlainFields k v (field j w fs) hv h = elim (Bool-cases (text_eq j k)) [
  | inl e ↦ rw e (hv, h.1)
  | inr e ↦ rw e (h.0, put-HasPlainFields k v fs hv h.1)
]

object-IsPlain : (fs : Fields) → HasPlainFields fs → clone (object fs) ≡ copied (object fs)
unfolding clone
object-IsPlain fs h = ap cloned_object (clone_fields_eq fs h)

abbrev IsPlainResult : Result Fields → Type 0
IsPlainResult (ok fs) = HasPlainFields fs
IsPlainResult (err e) = Unit

reparsed-IsPlain :
    (o : Option Fields)
    → HavePlain o
    → IsPlainResult (reparsed (cloned_object o) >>= λ w. ok (record_fields w))
reparsed-IsPlain none h = tt
reparsed-IsPlain (some fs) h = h

clone_record-IsPlain : (v : Value) → IsPlainResult (clone_record v)
unfolding clone_record clone_unknown clone
clone_record-IsPlain v =
    reparsed-IsPlain (clone_fields (record_fields v)) (clone_fields-HavePlain (record_fields v))

bind-IsPlain :
    (r : Result Fields) (k : Fields → Result Fields)
    → IsPlainResult r
    → ((fs : Fields) → HasPlainFields fs → IsPlainResult (k fs))
    → IsPlainResult (r >>= k)
bind-IsPlain (err e) k h f = tt
bind-IsPlain (ok fs) k h f = f fs h

normalize_bindings-IsPlain : (v : Value) → IsPlainResult (normalize_bindings v)
unfolding normalize_bindings
normalize_bindings-IsPlain v = bind-IsPlain (clone_record v) _ (clone_record-IsPlain v) λ fs h.
    let a = get (codes "actions") fs in
    let e = get (codes "events") fs in
    bind-IsPlain (clone_record a) _ (clone_record-IsPlain a) λ on_actions ha.
      bind-IsPlain (clone_record e) _ (clone_record-IsPlain e) λ on_events he.
        put-HasPlainFields (codes "events") (object on_events)
          (put (codes "actions") (object on_actions) fs) (object-IsPlain on_events he)
          (put-HasPlainFields (codes "actions") (object on_actions) fs
            (object-IsPlain on_actions ha) h)

-- Bindings that are normalized are cloned to themselves.
pub clone_record-normalize_bindings :
    (v : Value) (fs : Fields) → normalize_bindings v ≡ ok fs → clone_record (object fs) ≡ ok fs
unfolding clone_record clone_unknown
clone_record-normalize_bindings v fs h =
    let plain = subst IsPlainResult h (normalize_bindings-IsPlain v) in
    ap (λ c. reparsed c >>= λ w. ok (record_fields w)) (object-IsPlain fs plain)
