-- ===== src/Store/Locking.antt =====
-- `acquireStartupLock` and `close` of src/state/store.ts: one live process per state directory.
use nodel_mcp.Base.{ℕ, ◌+◌, ◌<◌, ◌≡◌, refl, true, false, some}
use nodel_mcp.Base.{Text, [], arith}
use nodel_mcp.Base.{ok, err, Error, state, public_error, lt→ltb}
use nodel_mcp.Base.{◌⊎◌, inl, inr}
use nodel_mcp.Files.{File, World, Exec, lookup, handle, touch, call, read_file}
use nodel_mcp.Files.{
  exists_sync, stat_sync, now, throw, unlink_sync, random_uuid, attempt, open_new,
}
use nodel_mcp.Files.Triple.{Triple, Triple-handle, Triple-throw, Triple-pure, Triple-weaken}
use nodel_mcp.Files.Triple.{Keeps-bind, Triple-trivial}
use nodel_mcp.Files.Laws.{contents, Keeps-touch, Keeps-chmod_sync, write_open_lem}
use nodel_mcp.Store.{StateStore, Runtime, Lock, valid, malformed, parse_lock, lock_path}
use nodel_mcp.Store.{lock_record, read_lock, judge_lock, recover_stale_lock, acquire_startup_lock}
use nodel_mcp.Store.{malformed_lock_grace_ms, initialize, write_lock}

-- What stands in the way of a process that starts: the lock of a live process, or a text that is
-- not yet known to be rubbish.
abbrev pub Blocks : Runtime → ℕ → File → Type 0
Blocks r t f =
    ((pid : ℕ) × (parse_lock f.content ≡ valid pid) × (r.is_process_alive pid ≡ true))
    ⊎ ((parse_lock f.content ≡ malformed) × (t < f.mtime + malformed_lock_grace_ms))

module _ (r : Runtime) (path : Text) (w : World) (f : File) (quiet : w.faults ≡ [])
    (there : lookup path w.disk ≡ some f) where
  read_lock_lem : read_lock path w ≡ (ok (parse_lock f.content), w)
  unfolding read_lock handle read_file call
  read_lock_lem = ground arith

  judge_lock_blocked :
      (l : Lock)
      → parse_lock f.content ≡ l
      → Blocks r w.clock f
      → judge_lock r path l w ≡ (err (public_error state), w)
  unfolding judge_lock handle now stat_sync call
  judge_lock_blocked (valid p) e (inl (pid, parsed, live)) = ground arith
  judge_lock_blocked (valid p) e (inr (bad, recent)) = ground arith
  judge_lock_blocked malformed e (inl (pid, parsed, live)) = ground arith
  judge_lock_blocked malformed e (inr (bad, recent)) =
      ground (arith, lt→ltb w.clock (f.mtime + malformed_lock_grace_ms) recent)

  recover_blocked : Blocks r w.clock f → recover_stale_lock r path w ≡ (err (public_error state), w)
  unfolding recover_stale_lock handle exists_sync
  recover_blocked b =
      ground (arith, read_lock_lem, judge_lock_blocked (parse_lock f.content) refl b)

-- Where the lock belongs to a live process, or is malformed and younger than the grace period, and
-- no call fails, a store that does not hold it is refused with STATE, and nothing changes.
pub acquire_blocked :
    (s : StateStore) (w : World) (f : File)
    → s.lock_held ≡ false
    → w.faults ≡ []
    → lookup (lock_path s) w.disk ≡ some f
    → Blocks s.runtime w.clock f
    → acquire_startup_lock s w ≡ (err (public_error state), w)
unfolding acquire_startup_lock initialize handle touch call
acquire_blocked s w f idle quiet there b =
    ground (arith, recover_blocked s.runtime (lock_path s) w f quiet there b)

-- The lock on disk is a record that this process wrote.
abbrev pub HoldsLock : StateStore → World → Type 0
HoldsLock s w =
    (created_at : Text) × (id : Text) × (contents (lock_path s) w
      ≡ some (lock_record s.runtime.pid created_at id))

-- After an action of no account the rest decides.
then_only :
    {A B : Type 0} (P : World → Type 0) (m : Exec A) (k : A → Exec B) {Q : B → World → Type 0}
    → ((a : A) → Triple (λ _. Unit {0}) (k a) Q (λ _ _. Unit {0}))
    → Triple P (handle m throw k) Q (λ _ _. Unit {0})
then_only P m k f = Triple-handle (Triple-trivial P m) (λ e. Triple-throw e (λ w h. tt)) f

write_lock_lem :
    (s : StateStore) (P : World → Type 0)
    → Triple P (write_lock s.runtime (lock_path s)) (λ _. HoldsLock s) (λ _ _. Unit {0})
unfolding write_lock
write_lock_lem s P = then_only P now _ λ t. then_only _ random_uuid _ λ id.
    let c = lock_record s.runtime.pid (s.runtime.to_iso_string t) id in
    Triple-handle (write_open_lem (lock_path s) c (λ _. Unit {0})) (λ e. Triple-throw e (λ w h. tt))
      λ _.
        Triple-weaken
          (Keeps-bind (Keeps-touch (lock_path s) (some c))
            (λ _. Keeps-chmod_sync (lock_path s) (some c) (lock_path s) 0o600))
          (λ w h. h) (λ _ w h. (s.runtime.to_iso_string t, id, h)) (λ _ w h. tt)

-- An exception of the handler says nothing.
throws_only :
    {A B : Type 0} (m : Exec A) (e : Error) {Q : B → World → Type 0}
    → Triple (λ _. Unit {0}) (handle m throw (λ _. throw e)) Q (λ _ _. Unit {0})
throws_only m e = then_only _ m _ (λ _. Triple-throw e (λ w h. tt))

-- From any world, whatever fails: a store that comes back from `acquireStartupLock`, and did not
-- hold the lock before, holds it, and the lock on disk is a record with its own process id.
pub acquire_HoldsLock :
    (s : StateStore)
    → s.lock_held ≡ false
    → Triple
        (λ _. Unit {0})
        (acquire_startup_lock s)
        (λ s' w. (s'.lock_held ≡ true) × HoldsLock s w)
        (λ _ _. Unit {0})
unfolding acquire_startup_lock
acquire_HoldsLock s idle = rw idle (
    then_only _ initialize _ λ _. then_only _ (recover_stale_lock s.runtime (lock_path s)) _ λ _.
      Triple-handle (Triple-trivial _ (open_new (lock_path s) 0o600))
        (λ _. Triple-throw (public_error state) (λ w h. tt))
        λ _.
          Triple-handle (write_lock_lem s _)
            (λ _. then_only _ touch _ (λ _. throws_only (attempt (unlink_sync (lock_path s))) _))
            (λ _. Triple-pure _ (λ w h. (refl, h))))
