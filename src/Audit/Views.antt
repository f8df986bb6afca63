-- ===== src/Audit/Views.antt =====
-- src/state/audit.ts: the audit files as contents at places.
use nodel_mcp.Base.{
  ℕ, suc, ◌≡◌, refl, false, Option, none, some, Text, arith, ==_iff, ◌==◌, if◌then◌else◌, is_some,
  Result, ok, err, Bool-cases, inl, inr,
}
use nodel_mcp.Files.{Content, World, Exec}
use nodel_mcp.Files.Triple.{Triple, Post}
use nodel_mcp.Files.Laws.{Holds}
use nodel_mcp.Audit.Paths.{file_at}

-- The contents of the audit files, by their place; the active file has place 0.
abbrev pub View : Type 0
View = ℕ → Option Content

abbrev pub Shows : Text → View → World → Type 0
Shows path f w = (i : ℕ) → Holds (file_at path i) (f i) w

Post-all :
    {A : Type 0} (Q : ℕ → A → World → Type 0) (r : Result A) (w : World)
    → ((i : ℕ) → Post (Q i) (λ _ _. Unit {0}) (r, w))
    → Post (λ a v. (i : ℕ) → Q i a v) (λ _ _. Unit {0}) (r, w)
Post-all Q (ok a) w h = h
Post-all Q (err e) w h = tt

-- A statement about each place.
pub Triple-all :
    {A : Type 0} {P : World → Type 0} {m : Exec A} (Q : ℕ → A → World → Type 0)
    → ((i : ℕ) → Triple P m (Q i) (λ _ _. Unit {0}))
    → Triple P m (λ a w. (i : ℕ) → Q i a w) (λ _ _. Unit {0})
Triple-all {m} Q t = record { at = λ w h. let (r, w') = m w in Post-all Q r w' (λ i. (t i).at w h) }

-- `f` with the file at one place set, and with the file at a place moved one place back.
abbrev pub set_at : View → ℕ → Option Content → View
set_at f k c i = if i == k then c else f i

abbrev pub moved : View → ℕ → View
moved f k i = if i == suc k then f k else if i == k then none else f i

pub absent : (o : Option Content) → is_some o ≡ false → o ≡ none
absent none h = refl
absent (some c) h = ground arith

pub set_none : (f : View) (k : ℕ) → f k ≡ none → (i : ℕ) → f i ≡ set_at f k none i
set_none f k h i = elim (Bool-cases (i == k)) [
  | inl e ↦ rw (e, (==_iff i k).0 e) h
  | inr e ↦ rw e refl
]
