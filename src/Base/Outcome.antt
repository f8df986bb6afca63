-- ===== src/Base/Outcome.antt =====
-- Exceptions as values: shared/publicErrors.ts `PublicError` by its code, other errors by kind.
use mathlib.Core.List.{List, [], ◌∷◌}
use mathlib.Core.Path.{◌≡◌, refl}
use mathlib.Core.Logic.{◌⊎◌, inl, inr}
use mathlib.Core.Bool.{Bool, true, false}

-- `PublicErrorCode`
pub data Code : Type 0 where
  validation conflict approval_required policy state remote internal : Code

-- `PublicError` with its `ambiguous` flag, or an `Error` of the platform.
pub data Error : Type 0 where
  public : Code → Bool → Error
  system : Error

-- `publicError(code, message)`; messages are not modelled.
abbrev pub public_error : Code → Error
public_error code = public code false

pub data Result {ℓ} (A : Type ℓ) : Type ℓ where
  err : Error → Result A
  ok : A → Result A

-- The action after the checks before it, and after one that returns nothing.
infixl 5 ◌>>=◌ ◌>>◌
abbrev pub ◌>>=◌ {ℓ κ} : {X : Type ℓ} {Y : Type κ} → Result X → (X → Result Y) → Result Y
outcome >>= next = elim outcome [ err problem ↦ err problem | ok x ↦ next x ]

abbrev pub ◌>>◌ {ℓ} : {Y : Type ℓ} → Result (Unit {0}) → Result Y → Result Y
err problem >> rest = err problem
ok _ >> rest = rest

-- `if (!passes) throw problem`
abbrev pub guard : Bool → Error → Result (Unit {0})
guard passes problem = elim passes [ false ↦ err problem | true ↦ ok tt ]

abbrev pub is_ok {ℓ} : {X : Type ℓ} → Result X → Bool
is_ok (err _) = false
is_ok (ok _) = true

pub ok_or_err {ℓ} :
    {X : Type ℓ} (r : Result X) → ((x : X) × (r ≡ ok x)) ⊎ ((e : Error) × (r ≡ err e))
ok_or_err (err e) = inr (e, refl)
ok_or_err (ok x) = inl (x, refl)

-- `map` of a function that may throw
unfoldable pub traverse : {A B : Type 0} → (A → Result B) → List A → Result (List B)
traverse f [] = ok []
traverse f (x ∷ xs) = do y ← f x; ys ← traverse f xs; ok (y ∷ ys)
