-- ===== src/Store/Tests.antt =====
-- Instances of the theorems about the state store.
use nodel_mcp.Base.{◌≡◌, refl, true, false, none, some, [], ◌∷◌, codes, arith}
use nodel_mcp.Base.{ok, err, state, public_error, text_eq}
use nodel_mcp.Values.{null, get, prop}
use nodel_mcp.Files.{document, File, World, lookup, insert, handle, call, touch}
use nodel_mcp.Files.{exists_sync, open_new, write_open, chmod_sync, now, random_uuid}
use nodel_mcp.Files.Triple.{Triple}
use nodel_mcp.Files.Laws.{Holds}
use nodel_mcp.Store.{StateStore, Runtime, lock_path, lock_record, parse_lock, valid, atomic_write}
use nodel_mcp.Store.{acquire_startup_lock, initialize, recover_stale_lock, write_lock}
use nodel_mcp.Store.Writes.{OldOrNew, IsApart, atomic_write_atomic}
use nodel_mcp.Store.Completion.{file_of, atomic_write_returns}
use nodel_mcp.Store.Exclusion.{acquire_excludes}
use nodel_mcp.Store.Reads.{acquire_unread}

abbrev everyone_lives : Runtime
everyone_lives = record { pid = 7; is_process_alive = λ _. true; to_iso_string = λ t. t ∷ [] }

abbrev idle : StateStore
idle = record { dir = codes "s"; runtime = everyone_lives; lock_held = false }

abbrev second : StateStore
second = record idle { runtime = record everyone_lives { pid = 8 } }

abbrev empty : World
empty = record { disk = []; faults = []; clock = 500000; uuids = codes "a" ∷ [] }

abbrev lock_file : File
lock_file = record { content = lock_record 7 (1 ∷ []) (codes "i"); mode = 0o600; mtime = 10 }

abbrev locked : World
locked = record empty { disk = (lock_path idle, lock_file) ∷ [] }

atomic_example :
    Triple
      (Holds (codes "s/a") none)
      (atomic_write (codes "s/a") (document null))
      (λ _. Holds (codes "s/a") (some (document null)))
      (λ _. OldOrNew (codes "s/a") none (document null))
atomic_example = atomic_write_atomic (codes "s/a") (document null) none

apart : IsApart (codes "s/b") (codes "s/a")
unfolding text_eq
apart = (refl, λ u. refl)

returns_example :
    ((atomic_write (codes "s/a") (document null) empty).0 ≡ ok tt)
    × (lookup (codes "s/a") (atomic_write (codes "s/a") (document null) empty).1.disk
        ≡ some (file_of (document null) 500000))
unfolding lookup
returns_example = atomic_write_returns (codes "s/a") (document null) empty (refl, refl)

locked_lookup : lookup (lock_path idle) locked.disk ≡ some lock_file
unfolding lookup text_eq
locked_lookup = refl

lock_parses : parse_lock (lock_record 7 (1 ∷ []) (codes "i")) ≡ valid 7
unfolding parse_lock prop get text_eq
lock_parses = refl

abbrev acquired : World
acquired = (acquire_startup_lock idle empty).1

acquires : acquire_startup_lock idle empty ≡ (ok (record idle { lock_held = true }), acquired)
unfolding acquire_startup_lock initialize recover_stale_lock write_lock handle call touch
    exists_sync open_new write_open chmod_sync now random_uuid lookup insert text_eq
acquires = refl

excludes_example : acquire_startup_lock second acquired ≡ (err (public_error state), acquired)
unfolding acquire_startup_lock initialize recover_stale_lock write_lock handle call touch
    exists_sync open_new write_open chmod_sync now random_uuid lookup insert text_eq
excludes_example =
    acquire_excludes idle second (record idle { lock_held = true }) empty acquired acquired refl
      refl refl refl (omega arith) (omega arith) acquires refl refl

-- The lock of the live process 7, at a time past the grace period.
unread_example :
    (acquire_startup_lock second (record locked { faults = false ∷ false ∷ true ∷ [] })).0
    ≡ ok (record second { lock_held = true })
unread_example =
    acquire_unread second (record locked { faults = false ∷ false ∷ true ∷ [] }) lock_file refl refl
      locked_lookup (omega arith)
