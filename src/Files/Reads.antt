-- ===== src/Files/Reads.antt =====
-- What the calls of node:fs report, and where a rename takes the contents from.
use nodel_mcp.Base.{ℕ, ◌≡◌, false, Option, none, some, Text, text_eq, text_eq_refl}
use nodel_mcp.Base.{arith, is_some, Option-cases, inl, inr}
use nodel_mcp.Files.{Content, World, lookup, remove, call, exists_sync, read_file, rename_sync, now}
use nodel_mcp.Files.Triple.{Triple}
use nodel_mcp.Files.Laws.{Holds, contents, lookup-insert, lookup-remove}

module _ (p : Text) (v : Option Content) where
  pub exists_sync_lem :
      Triple (Holds p v) (exists_sync p) (λ b w. (b ≡ is_some v) × Holds p v w) (λ _. Holds p v)
  unfolding exists_sync contents
  exists_sync_lem = record {
    at = λ w h. elim (Option-cases (lookup p w.disk)) [
      | inl missing ↦ ground arith
      | inr (g, found) ↦ ground arith
    ];
  }

  pub read_file_lem :
      Triple (Holds p v) (read_file p) (λ c w. (v ≡ some c) × Holds p v w) (λ _. Holds p v)
  unfolding read_file call contents
  read_file_lem = record {
    at = λ w h. elim (Option-cases (lookup p w.disk)) [
      | inl missing ↦ ground arith
      | inr (g, found) ↦ ground arith
    ];
  }

  -- A file that is renamed is gone from its old path.
  pub rename_away :
      (q : Text)
      → text_eq q p ≡ false
      → Triple (Holds p v) (rename_sync p q) (λ _. Holds p none) (λ _. Holds p v)
  unfolding rename_sync call contents
  rename_away q apart = record {
    at = λ w h. elim (Option-cases (lookup p w.disk)) [
      | inl missing ↦ ground arith
      | inr (g, found) ↦
          ground
            (arith, lookup-insert q p g (remove p w.disk), lookup-remove p p w.disk, text_eq_refl p)
    ];
  }

-- The time that `now` reports.
pub now_lem :
    (P : World → Type 0) (t : ℕ)
    → Triple (λ w. (w.clock ≡ t) × P w) now (λ t' w. (t' ≡ t) × P w) (λ _ _. Unit {0})
unfolding now
now_lem P t = record { at = λ w h. h }
