-- ===== src/Audit/Unended.antt =====
-- src/state/audit.ts: the operations that no record says have ended.
use nodel_mcp.Base.{◌≡◌, refl, false, Option, none, some, List, [], ◌∷◌, ◌++◌, Text, arith}
use nodel_mcp.Files.{Content, Disk, lookup, read_file}
use nodel_mcp.Files.Triple.{
  Triple, Keeps, Triple-handle, Triple-pure, Triple-throw, Triple-weaken, Triple-fact, Keeps-pure,
  Keeps-bind,
}
use nodel_mcp.Files.Laws.{content_of}
use nodel_mcp.Files.Disk.{OnDisk, OnDisk-exists_sync, OnDisk-read_dir, read_file_held}
use nodel_mcp.Audit.Log.{
  audit_path, audit_file_paths, read_ids, terminal_audit_operation_ids, ids_of, events_of,
}
use nodel_mcp.Audit.Backups.{ended_in}

-- No file holds a record of an end of this operation.
abbrev pub IsUnended : Option Text → Disk → Type 0
IsUnended o d =
    (q : Text) (c : Content)
    → content_of (lookup q d) ≡ some c
    → ended_in (ids_of (events_of c)) o ≡ false

none_ended : (o : Option Text) → ended_in [] o ≡ false
none_ended none = refl
none_ended (some id) = ground arith

ended_in-append :
    (xs ys : List Text) (o : Option Text)
    → ended_in xs o ≡ false
    → ended_in ys o ≡ false
    → ended_in (xs ++ ys) o ≡ false
ended_in-append xs ys none h k = refl
ended_in-append [] ys (some id) h k = k
ended_in-append (x ∷ xs) ys (some id) h k = ground (arith, ended_in-append xs ys (some id))

-- The path of a backup, what it holds, and that its operation has not ended.
module _ (p : Text) (v : Option Content) (o : Option Text) where
  abbrev IsKept : Disk → Type 0
  IsKept d = (content_of (lookup p d) ≡ v) × IsUnended o d

  read_unended :
      (q : Text)
      → Triple
          (OnDisk IsKept)
          (read_file q)
          (λ c w. (ended_in (ids_of (events_of c)) o ≡ false) × OnDisk IsKept w)
          (λ _. OnDisk IsKept)
  read_unended q =
      Triple-weaken (read_file_held IsKept q) (λ w h. h) (λ c w h. (h.1.1 q c h.0, h.1))
        (λ _ w h. h)

  read_ids_unended :
      (qs : List Text)
      → Triple
          (OnDisk IsKept)
          (read_ids qs)
          (λ ids w. (ended_in ids o ≡ false) × OnDisk IsKept w)
          (λ _. OnDisk IsKept)
  unfolding read_ids
  read_ids_unended [] = Triple-pure [] (λ w h. (none_ended o, h))
  read_ids_unended (q ∷ qs) =
      Triple-handle (read_unended q) (λ e. Triple-throw e (λ w h. h))
        λ c. Triple-fact λ hc.
          Triple-handle (read_ids_unended qs) (λ e. Triple-throw e (λ w h. h))
            λ ids. Triple-fact λ hi.
              Triple-pure (ids_of (events_of c) ++ ids)
                (λ w h. (ended_in-append (ids_of (events_of c)) ids o hc hi, h))

  audit_file_paths-Keeps : (dir : Text) → Keeps (OnDisk IsKept) (audit_file_paths dir)
  unfolding audit_file_paths
  audit_file_paths-Keeps dir =
      Keeps-bind (OnDisk-read_dir IsKept dir)
        λ names. Keeps-bind (OnDisk-exists_sync IsKept (audit_path dir)) λ active. Keeps-pure _

  pub terminal_ids_unended :
      (dir : Text)
      → Triple
          (OnDisk IsKept)
          (terminal_audit_operation_ids dir)
          (λ ids w. (ended_in ids o ≡ false) × OnDisk IsKept w)
          (λ _. OnDisk IsKept)
  unfolding terminal_audit_operation_ids
  terminal_ids_unended dir =
      Triple-handle (audit_file_paths-Keeps dir) (λ e. Triple-throw e (λ w h. h)) read_ids_unended
