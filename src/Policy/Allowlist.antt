-- ===== src/Policy/Allowlist.antt =====
-- The allowlist of node names.
use nodel_mcp.Base.{
  ◌≡◌, refl, true, List, [], ◌∷◌, ◌++◌, Text, starts_with, any, ok, ◌↔◌, ◌⊎◌, inl, inr,
}
use nodel_mcp.Base.{arith, ==_iff, Bool-cases}
use nodel_mcp.Policy.{is_node_allowed, assert_node_allowed}

-- A text begins with a prefix.
abbrev pub Extends : Text → Text → Type 0
Extends name prefix = (rest : Text) × (name ≡ prefix ++ rest)

starts_with-Extends : (name prefix : Text) → starts_with name prefix ≡ true → Extends name prefix
unfolding starts_with
starts_with-Extends name [] h = (name, refl)
starts_with-Extends [] (d ∷ p) h = cc
starts_with-Extends (c ∷ s) (d ∷ p) h =
    let (rest, e) = starts_with-Extends s p (ground arith) in
    let same : c ≡ d = ground (arith, ==_iff c d) in (rest, cc)

Extends-starts_with : (prefix rest : Text) → starts_with (prefix ++ rest) prefix ≡ true
unfolding starts_with
Extends-starts_with [] rest = refl
Extends-starts_with (c ∷ p) rest = ground (arith, Extends-starts_with p rest)

-- One of the prefixes.
abbrev pub IsUnder : Text → List Text → Type 0
IsUnder name [] = ⊥
IsUnder name (p ∷ ps) = Extends name p ⊎ IsUnder name ps

any-IsUnder : (name : Text) (ps : List Text) → any (starts_with name) ps ≡ true → IsUnder name ps
any-IsUnder name [] h = cc
any-IsUnder name (p ∷ ps) h = elim (Bool-cases (starts_with name p)) [
  | inl begins ↦ inl (starts_with-Extends name p begins)
  | inr other ↦ inr (any-IsUnder name ps (ground arith))
]

IsUnder-any : (name : Text) (ps : List Text) → IsUnder name ps → any (starts_with name) ps ≡ true
IsUnder-any name [] u = elim u [ ]
IsUnder-any name (p ∷ ps) (inl (rest, e)) =
    let begins : starts_with name p ≡ true = rw e (Extends-starts_with p rest) in ground arith
IsUnder-any name (p ∷ ps) (inr u) = let later = IsUnder-any name ps u in ground arith

-- A node passes the allowlist exactly when the list is empty or the name of the node begins with one
-- of its prefixes.
pub node_allowed_iff :
    (name : Text) (prefixes : List Text)
    → (assert_node_allowed name prefixes ≡ ok tt) ↔ ((prefixes ≡ []) ⊎ IsUnder name prefixes)
unfolding assert_node_allowed is_node_allowed
node_allowed_iff name [] = (λ h. inl refl, λ h. refl)
node_allowed_iff name (p ∷ ps) = (
  λ h. inr (any-IsUnder name (p ∷ ps) (ground arith)),
  λ h. elim h [ inl e ↦ cc | inr u ↦ let begins = IsUnder-any name (p ∷ ps) u in ground arith ],
)
