-- ===== src/Plans/Merge.antt =====
-- The merge of a patch.
use nodel_mcp.Base.{
  ◌≡◌, ◌∙◌, refl, ap, true, false, ◌&&◌, Text, text_eq, text_eq_iff, if◌then◌else◌, arith,
  Bool-cases, inl, inr,
}
use nodel_mcp.Values.{
  Value, null, undefined, not_finite, unsupported, boolean, integer, fraction, text, array,
  is_record, object, Fields, end, field, get, has_own, put,
}
use nodel_mcp.Values.Keys.{get-put, IsFresh, HasDistinctKeys, get_of_not_own}
use nodel_mcp.Plans.{
  proto, deep_merge, merge_fields, read_field, inherited, is_accessor, object_prototype,
}

-- The fields of a merge whose patch does not set the prototype.
abbrev pub merged : Fields → Fields → Fields
merged fs gs = (merge_fields fs object_prototype gs).0

read_own : (k : Text) (fs : Fields) → read_field k fs object_prototype ≡ get k fs
unfolding read_field inherited
read_own k fs = elim (Bool-cases (has_own k fs)) [
  | inl own ↦ rw own refl
  | inr other ↦ rw (other, get_of_not_own k fs other) refl
]

merged-field :
    (k : Text) (v : Value) (fs gs : Fields)
    → text_eq k proto ≡ false
    → merged fs (field k v gs) ≡ merged (put k (deep_merge (get k fs) v) fs) gs
unfolding deep_merge is_accessor
merged-field k v fs gs h = rw (h, read_own k fs) refl

-- A key that the patch does not have is left as it is.
get-merged_fresh :
    (j : Text) (fs gs : Fields)
    → has_own proto gs ≡ false
    → has_own j gs ≡ false
    → get j (merged fs gs) ≡ get j fs
unfolding deep_merge has_own
get-merged_fresh j fs end p f = refl
get-merged_fresh j fs (field k v gs) p f =
    let next = put k (deep_merge (get k fs) v) fs in
    ap (get j) (merged-field k v fs gs (ground arith))
    ∙ get-merged_fresh j next gs (ground arith) (ground arith)
    ∙ get-put k j (deep_merge (get k fs) v) fs
    ∙ ground arith

has_own-IsFresh :
    (k j : Text) (fs : Fields) → text_eq k j ≡ true → IsFresh k fs → has_own j fs ≡ false
unfolding has_own
has_own-IsFresh k j end e f = refl
has_own-IsFresh k j (field i w fs) e f =
    let (apart, later) = f in
    ground
      (arith, text_eq_iff k j, text_eq_iff i k, text_eq_iff i j, has_own-IsFresh k j fs e later)

get-merged :
    (j : Text) (fs gs : Fields)
    → has_own proto gs ≡ false
    → HasDistinctKeys gs
    → get j (merged fs gs) ≡ (if has_own j gs then deep_merge (get j fs) (get j gs) else get j fs)
unfolding deep_merge has_own get
get-merged j fs end p d = refl
get-merged j fs (field k v gs) p d =
    let next = put k (deep_merge (get k fs) v) fs in
    let step = merged-field k v fs gs (ground arith) in
    let later : has_own proto gs ≡ false = ground arith in
    let written = get-put k j (deep_merge (get k fs) v) fs in
    elim (Bool-cases (text_eq k j)) [
      | inl same ↦
          let at_j = (text_eq_iff k j).0 same in
          let here : get j next ≡ deep_merge (get j fs) v = rw (written, same, at_j) refl in
          rw (same, has_own, get)
            (ap (get j) step
              ∙ get-merged_fresh j next gs later (has_own-IsFresh k j gs same d.0)
              ∙ here)
      | inr other ↦
          let own : get j next ≡ get j fs = rw (written, other) refl in
          rw (other, has_own, get)
            (ap (get j) step
              ∙ get-merged j next gs later d.1
              ∙ ap (λ x. if has_own j gs then deep_merge x (get j gs) else x) own)
    ]

-- The second value takes the place of the first, unless both are objects.
deep_merge-other :
    (base patch : Value)
    → (is_record base && is_record patch) ≡ false
    → deep_merge base patch ≡ patch
unfolding deep_merge
deep_merge-other (object fs) (object gs) h = ground arith
deep_merge-other (object fs) null h = refl
deep_merge-other (object fs) undefined h = refl
deep_merge-other (object fs) not_finite h = refl
deep_merge-other (object fs) unsupported h = refl
deep_merge-other (object fs) (boolean b) h = refl
deep_merge-other (object fs) (integer i) h = refl
deep_merge-other (object fs) (fraction t) h = refl
deep_merge-other (object fs) (text s) h = refl
deep_merge-other (object fs) (array vs) h = refl
deep_merge-other null patch h = refl
deep_merge-other undefined patch h = refl
deep_merge-other not_finite patch h = refl
deep_merge-other unsupported patch h = refl
deep_merge-other (boolean b) patch h = refl
deep_merge-other (integer i) patch h = refl
deep_merge-other (fraction t) patch h = refl
deep_merge-other (text s) patch h = refl
deep_merge-other (array vs) patch h = refl

-- Merging a patch without a key `__proto__` into an object gives an object that has, at every key, the
-- merge of the two values where the patch has the key, and the first object's own value elsewhere; and
-- of two values that are not both objects the merge is the second. The keys of the patch are distinct.
pub deep_merge_lem :
    (j : Text) (fs gs : Fields) (base patch : Value)
    → has_own proto gs ≡ false
    → HasDistinctKeys gs
    → (is_record base && is_record patch) ≡ false
    → (deep_merge (object fs) (object gs) ≡ object (merged fs gs))
      × (get j (merged fs gs)
          ≡ (if has_own j gs then deep_merge (get j fs) (get j gs) else get j fs))
      × (deep_merge base patch ≡ patch)
unfolding deep_merge
deep_merge_lem j fs gs base patch h d other =
    (refl, get-merged j fs gs h d, deep_merge-other base patch other)
