-- ===== src/Store/Exclusion.antt =====
-- Two processes on one state directory, the release of the lock, and a read of it that fails.
use nodel_mcp.Base.{ℕ, ◌^◌, ◌<◌, ◌≡◌, ◌∙◌, true, false, none, some, Text}
use nodel_mcp.Base.{[], text_eq, text_eq_refl, arith}
use nodel_mcp.Base.{ok, err, state, public_error, Option-cases, inl, inr}
use nodel_mcp.Values.{get, prop}
use nodel_mcp.Files.{File, World, lookup, handle, touch, call, unlink_sync}
use nodel_mcp.Files.Laws.{contents, lookup-remove}
use nodel_mcp.Store.{StateStore, valid, parse_lock, lock_path, lock_record}
use nodel_mcp.Store.{acquire_startup_lock, close}
use nodel_mcp.Store.Locking.{acquire_blocked, acquire_HoldsLock}

parse_lock-lock_record :
    (pid : ℕ) (t id : Text) → 0 < pid → pid < 2 ^ 53 → parse_lock (lock_record pid t id) ≡ valid pid
unfolding parse_lock prop get text_eq
parse_lock-lock_record pid t id h k = ground arith

contents-eq-some :
    (path : Text) (w : World) {c : _}
    → contents path w ≡ some c
    → (f : File) × (lookup path w.disk ≡ some f) × (f.content ≡ c)
unfolding contents
contents-eq-some path w e = elim (Option-cases (lookup path w.disk)) [
  | inl missing ↦ ground arith
  | inr (f, there) ↦ (f, there, ground arith)
]

-- While the process that took the lock lives and the lock file holds what it wrote there, a second
-- store on the same directory is refused with STATE and changes nothing, whatever else has happened
-- on the disk and however much later it tries, if its own calls do not fail.
pub acquire_excludes :
    (s t s' : StateStore) (w w' v : World)
    → s.lock_held ≡ false
    → t.lock_held ≡ false
    → t.dir ≡ s.dir
    → t.runtime.is_process_alive s.runtime.pid ≡ true
    → 0 < s.runtime.pid
    → s.runtime.pid < 2 ^ 53
    → acquire_startup_lock s w ≡ (ok s', w')
    → contents (lock_path s) v ≡ contents (lock_path s) w'
    → v.faults ≡ []
    → acquire_startup_lock t v ≡ (err (public_error state), v)
acquire_excludes s t s' w w' v si ti same live low high e kept quiet =
    let (_, (created, id, held)) = rw e at ((acquire_HoldsLock s si).at w tt) in
    let (f, there, read) = contents-eq-some (lock_path s) v (kept ∙ held) in
    acquire_blocked t v f ti quiet (rw same there) (
      inl (s.runtime.pid, rw read (parse_lock-lock_record s.runtime.pid created id low high), live))

-- `close` of the store that holds the lock frees it: the file is gone, and the store is idle.
pub close_releases :
    (s : StateStore) (w : World) (f : File)
    → s.lock_held ≡ true
    → w.faults ≡ []
    → lookup (lock_path s) w.disk ≡ some f
    → ((close s w).0 ≡ ok (record s { lock_held = false }))
      × (contents (lock_path s) (close s w).1 ≡ none)
unfolding close handle touch call unlink_sync contents
close_releases s w f held quiet there =
    ground (arith, lookup-remove (lock_path s) (lock_path s) w.disk, text_eq_refl (lock_path s))
