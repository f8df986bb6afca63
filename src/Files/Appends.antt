-- ===== src/Files/Appends.antt =====
-- appendFileSync: the records of a file, and the other files.
use nodel_mcp.Base.{
  ℕ, ◌≡◌, false, Option, none, some, [], Text, text_eq, text_eq_refl, arith, Option-cases, inl, inr,
}
use nodel_mcp.Values.{Value}
use nodel_mcp.Files.{Content, lines, lookup, append_file, appended, half_appended}
use nodel_mcp.Files.Triple.{Triple, Keeps}
use nodel_mcp.Files.Laws.{Holds, contents, lookup-insert}

-- The contents that an append starts from.
abbrev pub or_no_lines : Option Content → Content
or_no_lines none = lines [] false
or_no_lines (some c) = c

module _ (p : Text) (mode : ℕ) (r : Value) where
  pub append_file_lem :
      (v : Option Content)
      → Triple
          (Holds p v)
          (append_file p mode r)
          (λ _. Holds p (some (appended r (or_no_lines v))))
          (λ _ _. Unit {0})
  unfolding append_file contents
  append_file_lem v = record {
    at = λ w h. elim (Option-cases (lookup p w.disk)) [
      | inl missing ↦ ground (
        arith,
        lookup-insert p p
            (record { content = appended r (lines [] false); mode = mode; mtime = w.clock }) w.disk,
        text_eq_refl p,
      )
      | inr (g, found) ↦ ground (
        arith,
        lookup-insert p p (record g { content = appended r g.content; mtime = w.clock }) w.disk,
        text_eq_refl p,
      )
    ];
  }

  pub Keeps-append_file :
      (q : Text) (v : Option Content)
      → text_eq p q ≡ false
      → Keeps (Holds q v) (append_file p mode r)
  unfolding append_file contents
  Keeps-append_file q v e = record {
    at = λ w h. elim (Option-cases (lookup p w.disk)) [
      | inl missing ↦ ground (
        arith,
        lookup-insert p q
            (record { content = appended r (lines [] false); mode = mode; mtime = w.clock }) w.disk,
        lookup-insert p q
            (record { content = half_appended (lines [] false); mode = mode; mtime = w.clock })
            w.disk,
      )
      | inr (g, found) ↦ ground (
        arith,
        lookup-insert p q (record g { content = appended r g.content; mtime = w.clock }) w.disk,
        lookup-insert p q (record g { content = half_appended g.content; mtime = w.clock }) w.disk,
      )
    ];
  }
