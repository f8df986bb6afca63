-- ===== src/Files/Disk.antt =====
-- The calls that read: they leave the disk as it is.
use nodel_mcp.Files.Laws.{content_of}
use nodel_mcp.Base.{
  ◌≡◌, refl, Bool, true, false, Option, none, some, List, [], ◌∷◌, Text, Result, ok,
}
use nodel_mcp.Files.{
  Disk, File, World, touch, exists_sync, read_file, stat_sync, read_dir, now, call, after_fault,
  change, lookup,
}
use nodel_mcp.Files.Triple.{Triple, Keeps, Post}

module _ (P : Disk → Type 0) where
  abbrev pub OnDisk : World → Type 0
  OnDisk w = P w.disk

  after_fault_lem :
      {A : Type 0} (Q : A → World → Type 0) (fs : List Bool) (f : World → Result A × World)
      (w : World)
      → ((v : World) → OnDisk v → Post Q (λ _. OnDisk) (f v))
      → OnDisk w
      → Post Q (λ _. OnDisk) (after_fault fs f w)
  after_fault_lem Q [] f w k h = k w h
  after_fault_lem Q (true ∷ r) f w k h = h
  after_fault_lem Q (false ∷ r) f w k h = k (record w { faults = r }) h

  change_lem :
      {A : Type 0} (o : Option File) (f : File → Result A × World) (w : World)
      → ((g : File) → Post (λ _. OnDisk) (λ _. OnDisk) (f g))
      → OnDisk w
      → Post (λ _. OnDisk) (λ _. OnDisk) (change o f w)
  change_lem none f w k h = h
  change_lem (some g) f w k h = k g

  pub OnDisk-touch : Keeps OnDisk touch
  unfolding touch call
  OnDisk-touch = record { at = λ w h. after_fault_lem (λ _. OnDisk) w.faults _ w (λ v k. k) h }

  pub OnDisk-exists_sync : (p : Text) → Keeps OnDisk (exists_sync p)
  unfolding exists_sync
  OnDisk-exists_sync p = record { at = λ w h. h }

  pub OnDisk-now : Keeps OnDisk now
  unfolding now
  OnDisk-now = record { at = λ w h. h }

  pub OnDisk-read_dir : (p : Text) → Keeps OnDisk (read_dir p)
  unfolding read_dir call
  OnDisk-read_dir p = record { at = λ w h. after_fault_lem (λ _. OnDisk) w.faults _ w (λ v k. k) h }

  pub OnDisk-read_file : (p : Text) → Keeps OnDisk (read_file p)
  unfolding read_file call
  OnDisk-read_file p = record {
    at = λ w h.
        after_fault_lem (λ _. OnDisk) w.faults _ w
          (λ v k. change_lem (lookup p v.disk) _ v (λ g. k) k) h;
  }

  pub OnDisk-stat_sync : (p : Text) → Keeps OnDisk (stat_sync p)
  unfolding stat_sync call
  OnDisk-stat_sync p = record {
    at = λ w h.
        after_fault_lem (λ _. OnDisk) w.faults _ w
          (λ v k. change_lem (lookup p v.disk) _ v (λ g. k) k) h;
  }

module _ (P : Disk → Type 0) (p : Text) where
  held :
      (o : Option File) (w : World)
      → lookup p w.disk ≡ o
      → P w.disk
      → Post
          (λ c v. (content_of (lookup p v.disk) ≡ some c) × P v.disk)
          (λ _. OnDisk P)
          (change o (λ g. (ok g.content, w)) w)
  held none w e h = h
  held (some g) w e h = (rw e refl, h)

  -- What is read is what the disk holds.
  pub read_file_held :
      Triple
        (OnDisk P)
        (read_file p)
        (λ c w. (content_of (lookup p w.disk) ≡ some c) × P w.disk)
        (λ _. OnDisk P)
  unfolding read_file call
  read_file_held = record {
    at = λ w h. after_fault_lem P _ w.faults _ w (λ v k. held (lookup p v.disk) v refl k) h;
  }
