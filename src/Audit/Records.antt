-- ===== src/Audit/Records.antt =====
-- src/state/audit.ts: the records of the audit files, in order of age.
use nodel_mcp.Base.{
  ℕ, suc, zero, ◌≤◌, ◌≡◌, refl, ap, Bool, true, false, Option, none, some, List, [], ◌∷◌, ◌++◌,
  Text, arith, leb, if◌then◌else◌, drop, length, not,
}
use nodel_mcp.Values.{Value}
use nodel_mcp.Files.{Content, lines, World}
use nodel_mcp.Audit.Log.{no_lines, events_of}
use nodel_mcp.Audit.Views.{View, Shows, set_at, moved}
use nodel_mcp.Audit.Rotation.{shifted}

-- The records of a number of files, the oldest first.
abbrev pub records : Option Content → List Value
records none = []
records (some c) = events_of c

unfoldable pub log : ℕ → View → List Value
log zero f = []
log (suc k) f = records (f k) ++ log k f

abbrev pub rotated : View → ℕ → View
rotated f n zero = some no_lines
rotated f n (suc i) = if leb i n then f i else f (suc i)

pub rotated_lem :
    (f : View) (n i : ℕ)
    → set_at (moved (shifted (set_at f (suc n) none) n) 0) 0 (some no_lines) i ≡ rotated f n i
rotated_lem f n zero = ground arith
rotated_lem f n (suc zero) = ground arith
rotated_lem f n (suc (suc i)) = ground arith

pub log-rotated : (f : View) (n k : ℕ) → k ≤ suc n → log (suc k) (rotated f n) ≡ log k f
unfolding log events_of
log-rotated f n zero h = refl
log-rotated f n (suc k) h =
    let there : rotated f n (suc k) ≡ f k = ground arith in
    rw (there, log-rotated f n k (omega arith)) refl

pub drop-append : (xs ys : List Value) → drop (length xs) (xs ++ ys) ≡ ys
drop-append [] ys = refl
drop-append (x ∷ xs) ys = drop-append xs ys

pub drop-length : (xs : List Value) → drop (length xs) xs ≡ []
drop-length [] = refl
drop-length (x ∷ xs) = drop-length xs

-- The file has no line without an end.
abbrev pub is_tidy : Option Content → Bool
is_tidy none = true
is_tidy (some (lines vs torn)) = not torn
is_tidy (some c) = false

-- The files hold the records of `f` without some of the oldest, and then the records `added`.
pub record Extends (path : Text) (files : ℕ) (f : View) (added : List Value) (w : World)
    : Type 0 where
  pub view : View
  pub forgotten : ℕ
  pub shows : Shows path view w
  pub tidy : is_tidy (view 0) ≡ true
  pub kept : log files view ≡ drop forgotten (log files f) ++ added

pub append-nil : (xs : List Value) → xs ++ [] ≡ xs
append-nil [] = refl
append-nil (x ∷ xs) = ap (λ r. x ∷ r) (append-nil xs)
