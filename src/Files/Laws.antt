-- ===== src/Files/Laws.antt =====
-- What the calls of node:fs change, and what they leave alone.
use nodel_mcp.Base.{ℕ, ◌≡◌, refl, false, Option, none, some, List, [], ◌∷◌, Text}
use nodel_mcp.Base.{
  text_eq, text_eq_iff, text_eq_refl, if◌then◌else◌, arith, inl, inr, Option-cases,
}
use nodel_mcp.Files.{Content, torn, File, Disk, lookup, insert, remove, World, touch, exists_sync}
use nodel_mcp.Files.{open_new, write_open, chmod_sync, rename_sync, unlink_sync, read_file, call}
use nodel_mcp.Files.{draw, stat_sync, now, random_uuid}
use nodel_mcp.Files.Triple.{Triple, Keeps, Post}

pub lookup-insert :
    (p q : Text) (f : File) (d : Disk)
    → lookup q (insert p f d) ≡ (if text_eq p q then some f else lookup q d)
unfolding lookup insert
lookup-insert p q f [] = refl
lookup-insert p q f ((r, g) ∷ d) =
    ground (arith, text_eq_iff p q, text_eq_iff r p, text_eq_iff r q, lookup-insert p q f d)

pub lookup-remove :
    (p q : Text) (d : Disk) → lookup q (remove p d) ≡ (if text_eq p q then none else lookup q d)
unfolding lookup remove
lookup-remove p q [] = ground arith
lookup-remove p q ((r, g) ∷ d) =
    ground (arith, text_eq_iff p q, text_eq_iff r p, text_eq_iff r q, lookup-remove p q d)

abbrev pub content_of : Option File → Option Content
content_of none = none
content_of (some g) = some g.content

-- What a reader of the path finds.
unfoldable pub contents : Text → World → Option Content
contents p w = content_of (lookup p w.disk)

abbrev pub Holds : Text → Option Content → World → Type 0
Holds p v w = contents p w ≡ v

-- What is true of the disk stays true where only a uuid is drawn.
module _ (P : World → Type 0)
    (P-uuids : (w : World) (us : List Text) → P w → P (record w { uuids = us })) where
  draw_keeps : (us : List Text) (w : World) → P w → Post (λ _. P) (λ _. P) (draw us w)
  draw_keeps [] w h = h
  draw_keeps (u ∷ us) w h = P-uuids w us h

  pub Keeps-random_uuid_of : Keeps P random_uuid
  unfolding random_uuid
  Keeps-random_uuid_of = record { at = λ w h. draw_keeps w.uuids w h }

module _ (p : Text) (v : Option Content) where
  pub Keeps-touch : Keeps (Holds p v) touch
  unfolding touch call contents
  Keeps-touch = record { at = λ w h. ground arith }

  pub Keeps-open_new :
      (q : Text) (mode : ℕ) → text_eq q p ≡ false → Keeps (Holds p v) (open_new q mode)
  unfolding open_new call contents
  Keeps-open_new q mode e = record {
    at = λ w h.
        ground (
          arith,
          lookup-insert q p (record { content = torn; mode = mode; mtime = w.clock }) w.disk,
        );
  }

  pub Keeps-write_open :
      (q : Text) (c : Content) → text_eq q p ≡ false → Keeps (Holds p v) (write_open q c)
  unfolding write_open contents
  Keeps-write_open q c e = record {
    at = λ w h. elim (Option-cases (lookup q w.disk)) [
      | inl missing ↦ ground arith
      | inr (g, found) ↦ ground (
        arith,
        lookup-insert q p (record g { content = c; mtime = w.clock }) w.disk,
        lookup-insert q p (record g { content = torn; mtime = w.clock }) w.disk,
      )
    ];
  }

  -- Permission bits are no contents.
  pub Keeps-chmod_sync : (q : Text) (mode : ℕ) → Keeps (Holds p v) (chmod_sync q mode)
  unfolding chmod_sync call contents
  Keeps-chmod_sync q mode = record {
    at = λ w h. elim (Option-cases (lookup q w.disk)) [
      | inl missing ↦ ground arith
      | inr (g, found) ↦
          ground (arith, lookup-insert q p (record g { mode = mode }) w.disk, text_eq_iff q p)
    ];
  }

  pub Keeps-unlink_sync : (q : Text) → text_eq q p ≡ false → Keeps (Holds p v) (unlink_sync q)
  unfolding unlink_sync call contents
  Keeps-unlink_sync q e = record {
    at = λ w h. elim (Option-cases (lookup q w.disk)) [
      | inl missing ↦ ground arith
      | inr (g, found) ↦ ground (arith, lookup-remove q p w.disk)
    ];
  }

  pub Keeps-rename_sync :
      (q r : Text) → text_eq q p ≡ false → text_eq r p ≡ false → Keeps (Holds p v) (rename_sync q r)
  unfolding rename_sync call contents
  Keeps-rename_sync q r e e' = record {
    at = λ w h. elim (Option-cases (lookup q w.disk)) [
      | inl missing ↦ ground arith
      | inr (g, found) ↦
          ground (arith, lookup-insert r p g (remove q w.disk), lookup-remove q p w.disk)
    ];
  }

  pub Keeps-exists_sync : (q : Text) → Keeps (Holds p v) (exists_sync q)
  unfolding exists_sync
  Keeps-exists_sync q = record { at = λ w h. h }

  pub Keeps-now : Keeps (Holds p v) now
  unfolding now
  Keeps-now = record { at = λ w h. h }

  pub Keeps-random_uuid : Keeps (Holds p v) random_uuid
  unfolding random_uuid contents
  Keeps-random_uuid = record { at = λ w h. ground arith }

  pub Keeps-read_file : (q : Text) → Keeps (Holds p v) (read_file q)
  unfolding read_file call contents
  Keeps-read_file q = record { at = λ w h. ground arith }

  pub Keeps-stat_sync : (q : Text) → Keeps (Holds p v) (stat_sync q)
  unfolding stat_sync call contents
  Keeps-stat_sync q = record { at = λ w h. ground arith }

-- A write that returns leaves the whole contents.
pub write_open_lem :
    (p : Text) (c : Content) (P : World → Type 0)
    → Triple P (write_open p c) (λ _. Holds p (some c)) (λ _ _. Unit {0})
unfolding write_open contents
write_open_lem p c P = record {
  at = λ w h. elim (Option-cases (lookup p w.disk)) [
    | inl missing ↦ ground arith
    | inr (g, found) ↦ ground (
      arith,
      lookup-insert p p (record g { content = c; mtime = w.clock }) w.disk,
      text_eq_refl p,
    )
  ];
}

-- A rename moves the contents, or changes nothing.
pub rename_sync_lem :
    (p q : Text) (v u : Option Content)
    → Triple
        (λ w. Holds p v w × Holds q u w)
        (rename_sync p q)
        (λ _. Holds q v)
        (λ _ w. Holds p v w × Holds q u w)
unfolding rename_sync call contents
rename_sync_lem p q v u = record {
  at = λ w h. elim (Option-cases (lookup p w.disk)) [
    | inl missing ↦ ground arith
    | inr (g, found) ↦ ground (arith, lookup-insert q q g (remove p w.disk), text_eq_refl q)
  ];
}
