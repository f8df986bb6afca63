-- ===== src/Plans/Conflict.antt =====
-- The expected hash of a plan.
use nodel_mcp.Base.{
  ◌≡◌, ◌∙◌, refl, sym, ap, false, Option, none, some, List, Text, text_eq, text_eq_iff, is_empty,
}
use nodel_mcp.Base.{ok, err, public_error, conflict, system, inl, inr, Bool-cases, Option-cases}
use nodel_mcp.Values.{Value}
use nodel_mcp.Platform.{Platform}
use nodel_mcp.Canonical.{stable_stringify, stable_json_hash, hash_of}
use nodel_mcp.Plans.{plan_config_write, ConfigPlan, Mode}

hash_of-some :
    (p : Platform) (o : Option Text) {h : Text}
    → hash_of p o ≡ some h
    → (t : Text) × (o ≡ some t) × (p.digest t ≡ h)
hash_of-some p none e = cc
hash_of-some p (some t) e = (t, refl, cc)

-- One hash, one canonical text.
same_hash :
    (p : Platform) (a b : Option Text) {h : Text}
    → hash_of p a ≡ some h
    → hash_of p b ≡ some h
    → a ≡ b
same_hash p a b e f =
    let (s, here, d) = hash_of-some p a e in
    let (t, there, d') = hash_of-some p b f in
    let same = p.digest-injective s t (d ∙ sym d') in here ∙ ap some same ∙ sym there

expected_hash_lem :
    (p : Platform) (builtins : List Text) (current patch : Value) (mode : Mode) (h : Text)
    (paths : List (List Text)) {r : ConfigPlan}
    → is_empty h ≡ false
    → plan_config_write p builtins current patch mode (some h) paths ≡ ok r
    → stable_json_hash p current ≡ some h
unfolding plan_config_write
expected_hash_lem p builtins current patch mode h paths {r} full e =
    elim (Option-cases (stable_json_hash p current)) [
      | inl none_there ↦ let bad : err system ≡ ok r = rw none_there at e in cc
      | inr (t, there) ↦ elim (Bool-cases (text_eq h t)) [
        | inl same ↦ there ∙ ap some (sym ((text_eq_iff h t).0 same))
        | inr other ↦
            let bad : err (public_error conflict) ≡ ok r = rw (there, full, other) at e in cc
      ]
    ]

-- A plan with an expected hash is only made when the current state has the same canonical text as the
-- state that was hashed.
pub plan_is_current :
    (p : Platform) (builtins : List Text) (seen current patch : Value) (mode : Mode) (h : Text)
    (paths : List (List Text)) {r : ConfigPlan}
    → stable_json_hash p seen ≡ some h
    → is_empty h ≡ false
    → plan_config_write p builtins current patch mode (some h) paths ≡ ok r
    → stable_stringify current ≡ stable_stringify seen
unfolding stable_json_hash
plan_is_current p builtins seen current patch mode h paths seen_hash full e =
    same_hash p (stable_stringify current) (stable_stringify seen)
      (expected_hash_lem p builtins current patch mode h paths full e) seen_hash
