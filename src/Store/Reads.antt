-- ===== src/Store/Reads.antt =====
-- A lock that cannot be read: `readLock` of src/state/store.ts takes any failure for a malformed text.
use nodel_mcp.Base.{◌+◌, ◌≤◌, ◌≡◌, refl, true, false, none, some, Text, List, [], ◌∷◌}
use nodel_mcp.Base.{
  ◌++◌, codes, text_eq, text_eq_iff, text_eq_refl, arith, length, length-append, ap,
}
use nodel_mcp.Base.{Result, ok, Bool-cases, inl, inr}
use nodel_mcp.Files.{
  torn, File, World, Disk, lookup, insert, remove, handle, touch, call, exists_sync, chmod_sync,
}
use nodel_mcp.Files.{read_file, stat_sync, now, random_uuid, rename_sync, open_new, write_open}
use nodel_mcp.Files.Laws.{lookup-insert, lookup-remove}
use nodel_mcp.Store.{StateStore, Runtime, lock_path, acquire_startup_lock, malformed_lock_grace_ms}
use nodel_mcp.Store.{
  quarantine_name, move_lock, quarantine_lock, read_lock, judge_lock, recover_stale_lock,
  write_lock,
}
use nodel_mcp.Store.{initialize, lock_record}

quarantine_name-ne : (path r u : Text) → text_eq (quarantine_name path r u) path ≡ false
quarantine_name-ne path r u = elim (Bool-cases (text_eq (quarantine_name path r u) path)) [
  | inl same ↦
      let e : length (path ++ (codes "." ++ (r ++ (codes "-" ++ u)))) ≡ length path =
        ap length ((text_eq_iff _ _).0 same) in
      absurd (
        omega (
          arith,
          e,
          length-append path (codes "." ++ (r ++ (codes "-" ++ u))),
          length-append (codes ".") (r ++ (codes "-" ++ u)),
          length-append r (codes "-" ++ u),
          length-append (codes "-") u,
        ))
  | inr other ↦ other
]

module _ (path target : Text) (w : World) (f : File) (quiet : w.faults ≡ [])
    (there : lookup path w.disk ≡ some f) where
  moved : Disk
  moved = insert target (record f { mode = 0o600 }) (insert target f (remove path w.disk))

  move_lock_returns : move_lock path target w ≡ (ok tt, record w { disk = moved })
  unfolding move_lock handle rename_sync chmod_sync touch call moved
  move_lock_returns =
      ground (arith, lookup-insert target target f (remove path w.disk), text_eq_refl target)

  lookup-moved : text_eq target path ≡ false → lookup path moved ≡ none
  unfolding moved
  lookup-moved apart = ground (
    arith,
    lookup-insert target path (record f { mode = 0o600 }) (insert target f (remove path w.disk)),
    lookup-insert target path f (remove path w.disk),
    lookup-remove path path w.disk,
    text_eq_refl path,
  )

-- The lock is gone, and nothing fails any more.
abbrev IsFreed : Text → Result (Unit {0}) × World → Type 0
IsFreed path (r, w) = (r ≡ ok tt) × (w.faults ≡ []) × (lookup path w.disk ≡ none)

quarantine_lock_returns :
    (path r : Text) (w : World) (f : File)
    → w.faults ≡ []
    → lookup path w.disk ≡ some f
    → IsFreed path (quarantine_lock path r w)
unfolding quarantine_lock handle random_uuid
quarantine_lock_returns path r w f quiet there = go w.uuids refl
  where
    free :
        (u : Text) (v : World)
        → v.faults ≡ []
        → lookup path v.disk ≡ some f
        → IsFreed path (move_lock path (quarantine_name path r u) v)
    free u v q h = rw (move_lock_returns path (quarantine_name path r u) v f q h) (
      refl,
      q,
      lookup-moved path (quarantine_name path r u) v f q h (quarantine_name-ne path r u),
    )

    go : (us : List Text) → w.uuids ≡ us → IsFreed path (quarantine_lock path r w)
    go [] e = let h = free [] w quiet there in ground (arith, h)
    go (u ∷ us) e = let h = free u (record w { uuids = us }) quiet there in ground (arith, h)

recover_unread :
    (r : Runtime) (path : Text) (w : World) (f : File)
    → w.faults ≡ true ∷ []
    → lookup path w.disk ≡ some f
    → f.mtime + malformed_lock_grace_ms ≤ w.clock
    → IsFreed path (recover_stale_lock r path w)
unfolding recover_stale_lock read_lock judge_lock handle exists_sync read_file call now stat_sync
recover_unread r path w f fails there old =
    let h =
      quarantine_lock_returns path (codes "malformed") (record w { faults = [] }) f refl there in
    ground (arith, h)

write_lock_returns :
    (r : Runtime) (path : Text) (us : List Text) (w : World) (f : File)
    → w.faults ≡ []
    → w.uuids ≡ us
    → lookup path w.disk ≡ some f
    → (write_lock r path w).0 ≡ ok tt
unfolding write_lock handle now random_uuid write_open touch chmod_sync call
write_lock_returns r path [] w f quiet e there = ground (
  arith,
  lookup-insert path path
      (record f { content = lock_record r.pid (r.to_iso_string w.clock) []; mtime = w.clock })
      w.disk,
  text_eq_refl path,
)
write_lock_returns r path (u ∷ us) w f quiet e there = ground (
  arith,
  lookup-insert path path
      (record f { content = lock_record r.pid (r.to_iso_string w.clock) u; mtime = w.clock })
      w.disk,
  text_eq_refl path,
)

-- A read that fails makes a lock malformed: where the lock is older than the grace period, a store
-- takes it, whatever it holds, so also from a live process.
pub acquire_unread :
    (s : StateStore) (w : World) (f : File)
    → s.lock_held ≡ false
    → w.faults ≡ false ∷ false ∷ true ∷ []
    → lookup (lock_path s) w.disk ≡ some f
    → f.mtime + malformed_lock_grace_ms ≤ w.clock
    → (acquire_startup_lock s w).0 ≡ ok (record s { lock_held = true })
unfolding acquire_startup_lock initialize handle touch open_new call
acquire_unread s w f idle fails there old =
    let path = lock_path s in
    let v : World = record w { faults = true ∷ [] } in
    let (done, quiet, free) = recover_unread s.runtime path v f refl there old in
    let u = (recover_stale_lock s.runtime path v).1 in
    let g : File = record { content = torn; mode = 0o600; mtime = u.clock } in
    let x : World = record u { disk = insert path g u.disk } in
    let h =
      write_lock_returns s.runtime path u.uuids x g quiet refl
        (rw (lookup-insert path path g u.disk, text_eq_refl path)) in
    ground (arith, done, quiet, free, h)
