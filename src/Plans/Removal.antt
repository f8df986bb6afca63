-- ===== src/Plans/Removal.antt =====
-- The removal of a path.
use nodel_mcp.Base.{
  ◌≡◌, ◌∙◌, refl, ap, Bool, true, false, List, [], ◌∷◌, Text, text_eq, text_eq_refl, arith,
  Bool-cases, inl, inr, codes, if◌then◌else◌,
}
use nodel_mcp.Values.{Value, undefined, object, Fields, get, has_own, put}
use nodel_mcp.Values.Keys.{get-put, get-delete, HasDistinctKeys}
use nodel_mcp.Plans.{
  proto, Removed, missing, throws, removed, builtin_deleted, has_builtin, checked, remove_builtin,
  within, remove_at, remove_path,
}

-- The value at the end of a path.
unfoldable pub at_path : Value → Text → List Text → Value
at_path (object fs) last [] = get last fs
at_path (object fs) segment (s ∷ ss) = at_path (get segment fs) s ss
at_path _ segment path = undefined

-- The object in which the path ends has distinct keys.
abbrev pub AreDistinct : Value → Text → List Text → Type 0
AreDistinct (object fs) last [] = HasDistinctKeys fs
AreDistinct (object fs) segment (s ∷ ss) = AreDistinct (get segment fs) s ss
AreDistinct _ segment path = Unit

checked-removed :
    (builtins : List Text) (own : Bool) {v w : Value}
    → checked builtins own (removed v) ≡ removed w
    → v ≡ w
checked-removed builtins own h = ground arith

within-removed :
    (segment : Text) (fs : Fields) (r : Removed) {w : Value}
    → within segment fs r ≡ removed w
    → (v : Value) × (r ≡ removed v) × (w ≡ object (put segment v fs))
within-removed segment fs missing h = cc
within-removed segment fs throws h = cc
within-removed segment fs (removed v) h = (v, refl, cc)
within-removed segment fs (builtin_deleted n) h = cc

get-put_same : (k : Text) (v : Value) (fs : Fields) → get k (put k v fs) ≡ v
get-put_same k v fs = get-put k k v fs ∙ ap (λ b. if b then v else get k fs) (text_eq_refl k)

never :
    (builtins : List Text) (s : Text) (ss : List Text) {w : Value} {X : Type 0}
    → remove_builtin builtins s ss ≡ removed w
    → X
never builtins s [] h = ground arith
never builtins s (t ∷ ss) h = cc

remove_at_gone :
    (builtins : List Text) (v : Value) (s : Text) (ss : List Text) {w : Value}
    → AreDistinct v s ss
    → remove_at builtins v s ss ≡ removed w
    → at_path w s ss ≡ undefined
unfolding remove_at at_path
remove_at_gone builtins (object fs) last [] d h =
    let e = checked-removed builtins (has_own last fs) h in
    rw (← e) (
      get-delete last last fs d
      ∙ ap (λ b. if b then undefined else get last fs) (text_eq_refl last))
remove_at_gone builtins (object fs) segment (s ∷ ss) {w} d h =
    elim (Bool-cases (has_own segment fs)) [
      | inl own ↦
          let h' : within segment fs (remove_at builtins (get segment fs) s ss) ≡ removed w =
            rw (own, remove_at) at h in
          let (v, inner, e) =
            within-removed segment fs (remove_at builtins (get segment fs) s ss) h' in
          let gone = remove_at_gone builtins (get segment fs) s ss d inner in
          rw (e, at_path) (ap (λ x. at_path x s ss) (get-put_same segment v fs) ∙ gone)
      | inr other ↦
          let h' : (if text_eq segment proto then remove_builtin builtins s ss else missing)
              ≡ removed w =
            rw (other, remove_at) at h in
          elim (Bool-cases (text_eq segment proto)) [
            | inl is_proto ↦
                let bad : remove_builtin builtins s ss ≡ removed w = rw is_proto at h' in
                never builtins s ss bad
            | inr is_other ↦ let bad : missing ≡ removed w = rw is_other at h' in cc
          ]
    ]
remove_at_gone builtins _ segment path d h = cc

-- A path that is removed is gone: nothing is found at its end any more, if the object in which it
-- ends had distinct keys.
pub removed_is_gone :
    (builtins : List Text) (v : Value) (s : Text) (ss : List Text) {w : Value}
    → AreDistinct v s ss
    → remove_path builtins v (s ∷ ss) ≡ removed w
    → at_path w s ss ≡ undefined
unfolding remove_path
removed_is_gone builtins v s ss d h = remove_at_gone builtins v s ss d h

-- The path `__proto__`, `name`, in an object without a key `__proto__`, deletes the property `name` of
-- the prototype of every object, if the prototype has it and `hasOwnProperty`.
pub prototype_is_reached :
    (builtins : List Text) (fs : Fields) (name : Text)
    → has_own proto fs ≡ false
    → has_builtin (codes "hasOwnProperty") builtins ≡ true
    → has_builtin name builtins ≡ true
    → remove_path builtins (object fs) (proto ∷ name ∷ []) ≡ builtin_deleted name
unfolding remove_path remove_at
prototype_is_reached builtins fs name own check there = ground (arith, text_eq_refl proto)
