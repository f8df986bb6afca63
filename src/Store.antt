-- ===== src/Store.antt =====
-- src/state/store.ts: the state directory with its startup lock, and durable writes.
-- The descriptor of the lock is kept as whether it is held. A name that the code makes unique by
-- process, time and randomness ends in a fresh uuid here.
pub mod Writes
pub mod Completion
pub mod Locking
pub mod Exclusion
pub mod Reads
mod Tests
use nodel_mcp.Base.{ℕ, ◌+◌, ◌-◌, ◌*◌, ◌^◌, Bool, true, false, not, ◌&&◌, Option, none, some, List}
use nodel_mcp.Base.{[], ◌∷◌, ◌++◌, Text, codes, trim, leb, ltb, if◌then◌else◌, all, Result, ok, err}
use nodel_mcp.Base.{Error, Code, state, public, public_error, or_else}
use nodel_mcp.Values.{Value, object, field, end, integer, pos, text, prop}
use nodel_mcp.Files.{Content, torn, document, unreadable, World, Exec, pure, throw, ◌>>=◌, ◌>>◌}
use nodel_mcp.Files.{catch, attempt, finally, handle, touch, open_new, write_open, chmod_sync, lift}
use nodel_mcp.Files.{rename_sync, unlink_sync, read_file, stat_sync, exists_sync, now, random_uuid}

-- `error instanceof PublicError ? error : publicError("STATE", …)`
abbrev pub state_error : Error → Error
state_error (public c a) = public c a
state_error _ = public_error state

pub record Runtime : Type 0 where
  pub pid : ℕ
  pub is_process_alive : ℕ → Bool
  pub to_iso_string : ℕ → Text

pub record StateStore : Type 0 where
  pub dir : Text
  pub runtime : Runtime
  pub lock_held : Bool

unfoldable pub initialize : Exec (Unit {0})
initialize = catch (touch >> touch) (λ e. throw (state_error e))

-- mkdirSync and chmodSync of a directory.
unfoldable pub ensure_directory : Exec (Unit {0})
ensure_directory = touch >> touch

-- openSync of the directory, then `try { fsyncSync } finally { closeSync }`
unfoldable pub sync_directory : Exec (Unit {0})
sync_directory = touch >> finally touch touch

unfoldable pub durable_rename : Text → Text → Exec (Unit {0})
unfolding sync_directory
durable_rename source target = rename_sync source target >> sync_directory

abbrev pub temporary_name : Text → Text → Text
temporary_name path unique = path ++ (codes ".tmp-" ++ unique)

-- The `catch` of `atomicWrite`; `fd` says whether the descriptor is still open.
unfoldable pub abandon : Bool → Text → Error → Exec (Unit {0})
abandon fd temporary e = do
  if fd then touch else pure tt
  attempt (unlink_sync temporary)
  throw (state_error e)

unfoldable pub fill : Text → Content → Exec (Unit {0})
fill temporary c = do write_open temporary c; touch; touch

unfoldable pub publish : Text → Text → Exec (Unit {0})
unfolding sync_directory
publish temporary path = do rename_sync temporary path; chmod_sync path 0o600; sync_directory

-- The `try` of `atomicWrite`.
unfoldable pub write_through : Text → Text → Content → Exec (Unit {0})
unfolding abandon fill publish
write_through temporary path c = handle (open_new temporary 0o600) (abandon false temporary) λ _.
    handle (fill temporary c) (abandon true temporary)
      λ _. handle (publish temporary path) (abandon false temporary) pure

unfoldable pub atomic_write : Text → Content → Exec (Unit {0})
unfolding ensure_directory
atomic_write path c = do
  ensure_directory
  unique ← random_uuid
  write_through (temporary_name path unique) path c

abbrev pub lock_path : StateStore → Text
lock_path s = s.dir ++ codes "/.instance.lock"

pub data Lock : Type 0 where
  valid : ℕ → Lock
  malformed : Lock

abbrev pub malformed_lock_grace_ms : ℕ
malformed_lock_grace_ms = 5 * 60 * 1000

-- `Number.isSafeInteger(pid) && pid > 0`
unfoldable pub read_pid : Value → Lock
read_pid (integer (pos n)) = if ltb 0 n && ltb n (2 ^ 53) then valid n else malformed
read_pid _ = malformed

abbrev is_digit : ℕ → Bool
is_digit c = leb b'0' c && leb c b'9'

unfoldable pub number_of : ℕ → Text → ℕ
number_of n [] = n
number_of n (c ∷ s) = number_of (n * 10 + (c - b'0')) s

-- A text of digits is the process id itself; another text is an object that holds it.
abbrev lock_text : Text → Lock
lock_text [] = malformed
lock_text (c ∷ s) =
    if all is_digit (c ∷ s) then read_pid (integer (pos (number_of 0 (c ∷ s)))) else malformed

unfoldable pub parse_lock : Content → Lock
unfolding read_pid number_of
parse_lock (document (integer (pos n))) = read_pid (integer (pos n))
parse_lock (document v) = read_pid (prop (codes "pid") v)
parse_lock (unreadable t) = lock_text (trim t)
parse_lock _ = malformed

unfoldable pub read_lock : Text → Exec Lock
read_lock path = catch (read_file path >>= λ c. pure (parse_lock c)) (λ _. pure malformed)

abbrev pub quarantine_name : Text → Text → Text → Text
quarantine_name path reason unique = path ++ (codes "." ++ (reason ++ (codes "-" ++ unique)))

-- Moves the lock away, if its process is gone or its text has been malformed for long.
unfoldable pub move_lock : Text → Text → Exec (Unit {0})
unfolding durable_rename
move_lock path target =
    catch (durable_rename path target >> chmod_sync target 0o600) (λ _. throw (public_error state))

unfoldable pub quarantine_lock : Text → Text → Exec (Unit {0})
quarantine_lock path reason = do
  unique ← random_uuid
  move_lock path (quarantine_name path reason unique)

unfoldable pub judge_lock : Runtime → Text → Lock → Exec (Unit {0})
judge_lock runtime path (valid pid) =
    if runtime.is_process_alive pid
    then throw (public_error state)
    else quarantine_lock path (codes "stale")
judge_lock runtime path malformed = do
  t ← now
  f ← stat_sync path
  (if ltb t (f.mtime + malformed_lock_grace_ms)
      then throw (public_error state)
      else quarantine_lock path (codes "malformed"))

unfoldable pub recover_stale_lock : Runtime → Text → Exec (Unit {0})
unfolding judge_lock read_lock
recover_stale_lock runtime path = do
  there ← exists_sync path
  if there then (do parsed ← read_lock path; judge_lock runtime path parsed) else pure tt

abbrev pub lock_record : ℕ → Text → Text → Content
lock_record pid created_at instance_id = document (
    object (
      field (codes "version") (integer (pos 1)) (
        field (codes "pid") (integer (pos pid)) (
          field (codes "createdAt") (text created_at)
            (field (codes "instanceId") (text instance_id) end)))))

unfoldable pub write_lock : Runtime → Text → Exec (Unit {0})
write_lock runtime path = do
  t ← now
  id ← random_uuid
  write_open path (lock_record runtime.pid (runtime.to_iso_string t) id)
  touch
  chmod_sync path 0o600

-- `acquireStartupLock`; the store comes back with the lock held.
unfoldable pub acquire_startup_lock : StateStore → Exec StateStore
unfolding initialize recover_stale_lock write_lock
acquire_startup_lock s = do
  initialize
  if s.lock_held then pure s else do
    recover_stale_lock s.runtime (lock_path s)
    handle (open_new (lock_path s) 0o600) (λ _. throw (public_error state))
        λ _.
          handle (write_lock s.runtime (lock_path s))
            (λ _. do touch; attempt (unlink_sync (lock_path s)); throw (public_error state))
            (λ _. pure (record s { lock_held = true }))

unfoldable pub close : StateStore → Exec StateStore
close s =
    if s.lock_held
    then (do touch; attempt (unlink_sync (lock_path s)); pure (record s { lock_held = false }))
    else pure s
