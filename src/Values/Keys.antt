-- ===== src/Values/Keys.antt =====
-- The laws of reading and writing the fields of an object.
use nodel_mcp.Base.{◌≡◌, refl, true, false, List, [], ◌∷◌, Text, text_eq, text_eq_iff, arith}
use nodel_mcp.Base.{if◌then◌else◌, ap, sym, ◌∙◌, Bool, ◌&&◌, keep, Bool-cases, inl, inr}
use nodel_mcp.Values.{Fields, end, field, Value, undefined, get, put, delete, has_own}
use nodel_mcp.Values.{items, from_items, entries, put_all, from_entries}

-- No key stands twice.
abbrev pub IsFresh : Text → Fields → Type 0
IsFresh k end = Unit
IsFresh k (field j v fs) = (text_eq j k ≡ false) × IsFresh k fs

abbrev pub HasDistinctKeys : Fields → Type 0
HasDistinctKeys end = Unit
HasDistinctKeys (field k v fs) = IsFresh k fs × HasDistinctKeys fs

pub get-put :
    (k j : Text) (v : Value) (fs : Fields)
    → get j (put k v fs) ≡ (if text_eq k j then v else get j fs)
unfolding get put
get-put k j v end = refl
get-put k j v (field i w fs) =
    ground (arith, text_eq_iff k j, text_eq_iff i k, text_eq_iff i j, get-put k j v fs)

pub has_own-put :
    (k j : Text) (v : Value) (fs : Fields)
    → has_own j (put k v fs) ≡ (if text_eq k j then true else has_own j fs)
unfolding has_own put
has_own-put k j v end = refl
has_own-put k j v (field i w fs) =
    ground (arith, text_eq_iff k j, text_eq_iff i k, text_eq_iff i j, has_own-put k j v fs)

pub get_of_IsFresh : (k : Text) (fs : Fields) → IsFresh k fs → get k fs ≡ undefined
unfolding get
get_of_IsFresh k end h = refl
get_of_IsFresh k (field j v fs) h = ground (arith, get_of_IsFresh k fs h.1)

pub IsFresh-of_eq : (k j : Text) (fs : Fields) → text_eq j k ≡ true → IsFresh j fs → IsFresh k fs
IsFresh-of_eq k j end e h = tt
IsFresh-of_eq k j (field i v fs) e h =
    (ground (arith, text_eq_iff j k, text_eq_iff i k, text_eq_iff i j), IsFresh-of_eq k j fs e h.1)

pub get-delete :
    (k j : Text) (fs : Fields)
    → HasDistinctKeys fs
    → get j (delete k fs) ≡ (if text_eq k j then undefined else get j fs)
unfolding get delete
get-delete k j end h = ground arith
get-delete k j (field i w fs) (f, h) = ground (
  arith,
  text_eq_iff k j,
  text_eq_iff i k,
  text_eq_iff i j,
  get-delete k j fs h,
  get_of_IsFresh i fs f,
)

pub IsFresh-put :
    (k j : Text) (v : Value) (fs : Fields)
    → IsFresh j fs
    → text_eq k j ≡ false
    → IsFresh j (put k v fs)
unfolding put
IsFresh-put k j v end h e = (e, tt)
IsFresh-put k j v (field i w fs) h e = ground (arith, IsFresh-put k j v fs h.1 e)

pub IsFresh-delete : (k j : Text) (fs : Fields) → IsFresh j fs → IsFresh j (delete k fs)
unfolding delete
IsFresh-delete k j end h = tt
IsFresh-delete k j (field i w fs) h = ground (arith, IsFresh-delete k j fs h.1)

-- Writing and deleting keep the keys distinct.
pub HasDistinctKeys-put :
    (k : Text) (v : Value) (fs : Fields) → HasDistinctKeys fs → HasDistinctKeys (put k v fs)
unfolding put
HasDistinctKeys-put k v end h = (tt, tt)
HasDistinctKeys-put k v (field i w fs) (f, h) =
    ground (
      arith,
      HasDistinctKeys-put k v fs h,
      IsFresh-put k i v fs f,
      text_eq_iff i k,
      text_eq_iff k i,
    )

pub HasDistinctKeys-delete :
    (k : Text) (fs : Fields) → HasDistinctKeys fs → HasDistinctKeys (delete k fs)
unfolding delete
HasDistinctKeys-delete k end h = tt
HasDistinctKeys-delete k (field i w fs) (f, h) =
    ground (arith, HasDistinctKeys-delete k fs h, IsFresh-delete k i fs f)

pub items-from_items : (vs : List Value) → items (from_items vs) ≡ vs
unfolding items from_items
items-from_items [] = refl
items-from_items (v ∷ vs) = ap (λ r. v ∷ r) (items-from_items vs)

pub has_own_of_IsFresh : (k : Text) (fs : Fields) → IsFresh k fs → has_own k fs ≡ false
unfolding has_own
has_own_of_IsFresh k end h = refl
has_own_of_IsFresh k (field j v fs) h = ground (arith, has_own_of_IsFresh k fs h.1)

pub get_of_not_own : (k : Text) (fs : Fields) → has_own k fs ≡ false → get k fs ≡ undefined
unfolding get has_own
get_of_not_own k end h = refl
get_of_not_own k (field j v fs) h = ground (arith, get_of_not_own k fs)

-- Entries that pass a test of their key, written over other fields.
get-put_all :
    (p : Text → Bool) (j : Text) (fs acc : Fields)
    → HasDistinctKeys fs
    → get j (put_all (keep (λ e. p e.0) (entries fs)) acc)
      ≡ (if p j && has_own j fs then get j fs else get j acc)
unfolding put_all entries has_own get
get-put_all p j end acc h = ground arith
get-put_all p j (field k v fs) acc (f, h) = elim (Bool-cases (p k)) [
  | inl e ↦ rw e (
      ground (
        arith,
        get-put_all p j fs (put k v acc) h,
        get-put k j v acc,
        text_eq_iff k j,
        has_own_of_IsFresh k fs f,
      ))
  | inr e ↦
      rw e (ground (arith, get-put_all p j fs acc h, text_eq_iff k j, has_own_of_IsFresh k fs f))
]

pub get-from_entries :
    (p : Text → Bool) (j : Text) (fs : Fields)
    → HasDistinctKeys fs
    → get j (from_entries (keep (λ e. p e.0) (entries fs))) ≡ (if p j then get j fs else undefined)
unfolding from_entries get
get-from_entries p j fs h = ground (arith, get-put_all p j fs end h, get_of_not_own j fs)

keep-true : (es : List (Text × Value)) → keep (λ e. true) es ≡ es
keep-true [] = refl
keep-true (e ∷ es) = ap (λ r. e ∷ r) (keep-true es)

-- `{ ...acc, ...fs }`
pub get-put_all-entries :
    (j : Text) (fs acc : Fields)
    → HasDistinctKeys fs
    → get j (put_all (entries fs) acc) ≡ (if has_own j fs then get j fs else get j acc)
get-put_all-entries j fs acc h =
    ap (λ es. get j (put_all es acc)) (sym (keep-true (entries fs)))
    ∙ get-put_all (λ k. true) j fs acc h
