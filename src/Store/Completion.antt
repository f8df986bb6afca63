-- ===== src/Store/Completion.antt =====
-- `atomicWrite` of src/state/store.ts where no call fails.
use nodel_mcp.Base.{ℕ, ◌≡◌, none, some, Text}
use nodel_mcp.Base.{List, [], ◌∷◌, arith}
use nodel_mcp.Base.{ok, text_eq_refl}
use nodel_mcp.Files.{Content, File, World, handle, touch, lookup, insert}
use nodel_mcp.Files.{open_new, write_open, chmod_sync, rename_sync, random_uuid, call}
use nodel_mcp.Files.{torn, Disk, remove}
use nodel_mcp.Files.Laws.{lookup-insert}
use nodel_mcp.Store.{fill, publish, write_through, atomic_write, temporary_name}

abbrev pub or_empty : List Text → Text
or_empty [] = []
or_empty (u ∷ us) = u

-- Nothing fails any more, and the temporary name is free.
abbrev pub CanWrite : Text → World → Type 0
CanWrite path w = (w.faults ≡ []) × (lookup (temporary_name path (or_empty w.uuids)) w.disk ≡ none)

abbrev pub file_of : Content → ℕ → File
file_of c t = record { content = c; mode = 0o600; mtime = t }

module _ (t : Text) (w : World) (quiet : w.faults ≡ []) where
  open_new_returns :
      lookup t w.disk ≡ none
      → open_new t 0o600 w ≡ (ok tt, record w { disk = insert t (file_of torn w.clock) w.disk })
  unfolding open_new call
  open_new_returns free = ground arith

  fill_returns :
      (c : Content) (f : File)
      → lookup t w.disk ≡ some f
      → fill t c w
        ≡ (ok tt, record w { disk = insert t (record f { content = c; mtime = w.clock }) w.disk })
  unfolding fill write_open touch call handle
  fill_returns c f there = ground arith

  publish_returns :
      (path : Text) (f : File)
      → lookup t w.disk ≡ some f
      → publish t path w ≡ (
        ok tt,
        record w {
          disk = insert path (record f { mode = 0o600 }) (insert path f (remove t w.disk));
        },
      )
  unfolding publish touch call handle rename_sync chmod_sync
  publish_returns path f there =
      ground (arith, lookup-insert path path f (remove t w.disk), text_eq_refl path)

-- The disks that a write passes through.
abbrev opened : Text → World → Disk
opened t w = insert t (file_of torn w.clock) w.disk

abbrev filled : Text → Content → World → Disk
filled t c w = insert t (file_of c w.clock) (opened t w)

abbrev renamed : Text → Text → Content → World → Disk
renamed t path c w = insert path (file_of c w.clock) (remove t (filled t c w))

write_through_returns :
    (t path : Text) (c : Content) (w : World)
    → w.faults ≡ []
    → lookup t w.disk ≡ none
    → write_through t path c w
      ≡ (ok tt, record w { disk = insert path (file_of c w.clock) (renamed t path c w) })
unfolding write_through handle
write_through_returns t path c w quiet free = ground (
  arith,
  open_new_returns t w quiet free,
  lookup-insert t t (file_of torn w.clock) w.disk,
  lookup-insert t t (file_of c w.clock) (opened t w),
  text_eq_refl t,
  fill_returns t (record w { disk = opened t w }) quiet c (file_of torn w.clock),
  publish_returns t (record w { disk = filled t c w }) quiet path (file_of c w.clock),
)

abbrev rest_of : List Text → List Text
rest_of [] = []
rest_of (u ∷ us) = us

-- With no fault to come and a free temporary name, a write returns, and leaves the contents under
-- the mode 0600 with the present time.
pub atomic_write_returns :
    (path : Text) (c : Content) (w : World)
    → CanWrite path w
    → ((atomic_write path c w).0 ≡ ok tt)
      × (lookup path (atomic_write path c w).1.disk ≡ some (file_of c w.clock))
unfolding atomic_write touch call random_uuid handle
atomic_write_returns path c w (quiet, free) =
    let t = temporary_name path (or_empty w.uuids) in
    let w' : World = record w { uuids = rest_of w.uuids } in
    let done = write_through_returns t path c w' quiet free in
    ground (
      arith,
      done,
      lookup-insert path path (file_of c w.clock) (renamed t path c w'),
      text_eq_refl path,
    )
