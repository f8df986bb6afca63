-- ===== src/Audit/Log.antt =====
-- src/state/audit.ts: the records in the audit files, and their rotation.
-- `Buffer.byteLength`, `statSync(path).size` and `JSON.stringify` measure a record and a file.
use nodel_mcp.Base.{
  ℕ, suc, zero, ◌+◌, ◌-◌, ◌*◌, Bool, false, ◌||◌, Option, none, some, List, [], ◌∷◌, ◌++◌, Text,
  codes, text_eq, leb, ltb, if◌then◌else◌, all, map,
}
use nodel_mcp.Values.{
  Value, text, object, Fields, end, field, integer, pos, put_all, entries, get, prop, null,
  undefined,
}
use nodel_mcp.Canonical.{integer_text}
use nodel_mcp.Config.{AppConfig}
use nodel_mcp.Files.{
  Content, lines, document, Exec, pure, ◌>>=◌, ◌>>◌, touch, finally, exists_sync, unlink_sync,
  chmod_sync, append_file, read_dir, read_file, stat_sync, now, random_uuid,
}
use nodel_mcp.Store.{ensure_directory, durable_rename, atomic_write}
use nodel_mcp.Points.Patterns.{is_digit}
use nodel_mcp.Messages.{behind}
use nodel_mcp.Audit.{outcome_text, attempted, redact_fields}

pub record Measure : Type 0 where
  pub to_iso_string : ℕ → Text
  pub line_bytes : Value → ℕ
  pub size : Content → ℕ

abbrev pub audit_path : Text → Text
audit_path dir = dir ++ codes "/audit.jsonl"

-- `${path}.${index}`
unfoldable pub rotated_path : Text → ℕ → Text
unfolding integer_text
rotated_path path index = path ++ (b'.' ∷ integer_text (pos index))

-- The loop of `rotateAudit`, from the index down to 1.
unfoldable pub shift : Text → ℕ → Exec (Unit {0})
unfolding rotated_path durable_rename
shift path zero = pure tt
shift path (suc n) = do
  let rest = shift path n
  there ← exists_sync (rotated_path path (suc n))
  if there
      then (durable_rename (rotated_path path (suc n)) (rotated_path path (suc (suc n))) >> rest)
      else rest

unfoldable pub drop_oldest : Text → Exec (Unit {0})
drop_oldest oldest = do there ← exists_sync oldest; if there then unlink_sync oldest else pure tt

-- `atomicWrite(path, "")`: no lines.
abbrev pub no_lines : Content
no_lines = lines [] false

unfoldable pub rotate : Text → ℕ → Exec (Unit {0})
unfolding drop_oldest shift rotated_path durable_rename
rotate path files = if leb files 1 then atomic_write path no_lines else do
  drop_oldest (rotated_path path (files - 1))
  shift path (files - 2)
  durable_rename path (rotated_path path 1)
  atomic_write path no_lines

unfoldable pub rotate_audit : Measure → AppConfig → Text → ℕ → Exec (Unit {0})
unfolding rotate
rotate_audit m config path incoming_bytes = do
  there ← exists_sync path
  if there
      then (do
        f ← stat_sync path
        (if leb (m.size f.content + incoming_bytes) config.audit_max_bytes
            then pure tt
            else rotate path config.audit_retention_files))
      else pure tt

abbrev or_attempted : Value → Value
or_attempted undefined = text (outcome_text attempted)
or_attempted null = text (outcome_text attempted)
or_attempted v = v

abbrev with_request : Option Text → Fields → Fields
with_request none fs = fs
with_request (some id) fs = field (codes "requestId") (text id) fs

-- The record: the fields of the event, redacted, over the ones that every record has.
unfoldable pub audit_record : Measure → ℕ → Text → Option Text → Fields → Value
unfolding get put_all entries redact_fields
audit_record m time operation_id request_id event = object (
    put_all (entries (redact_fields 0 event)) (
      field (codes "version") (integer (pos 3)) (
        field (codes "time") (text (m.to_iso_string time)) (
          field (codes "operationId") (text operation_id) (
            field (codes "outcome") (or_attempted (get (codes "outcome") event))
              (with_request request_id end))))))

abbrev pub known_id : Value → Option Text
known_id (text s) = some s
known_id _ = none

abbrev pub the_id : Option Text → Exec Text
the_id none = random_uuid
the_id (some s) = pure s

-- appendFileSync, chmodSync, and fsyncSync of the descriptor that openSync gives.
unfoldable pub append_line : Text → Value → Exec (Unit {0})
append_line path r = do append_file path 0o600 r; chmod_sync path 0o600; touch; finally touch touch

unfoldable pub audit_write : Measure → AppConfig → Option Text → Fields → Exec Text
unfolding rotate_audit append_line audit_record get
audit_write m config request_id event = do
  operation_id ← the_id (known_id (get (codes "operationId") event))
  t ← now
  let r = audit_record m t operation_id request_id event
  let path = audit_path config.state_dir
  ensure_directory
  rotate_audit m config path (m.line_bytes r)
  append_line path r
  pure operation_id

-- `/^audit\.jsonl\.(\d+)$/`
abbrev digits_only : Text → Bool
digits_only [] = false
digits_only (c ∷ s) = all is_digit (c ∷ s)

number_from : ℕ → Text → ℕ
number_from n [] = n
number_from n (c ∷ s) = number_from (n * 10 + (c - b'0')) s

abbrev sequence_of : Option Text → Option ℕ
sequence_of none = none
sequence_of (some s) = if digits_only s then some (number_from 0 s) else none

unfoldable pub sequences : List Text → List (ℕ × Text)
unfolding behind number_from
sequences [] = []
sequences (name ∷ names) =
    let rest = sequences names in
    elim (sequence_of (behind (codes "audit.jsonl.") name)) [
      | none ↦ rest
      | some n ↦ (n, name) ∷ rest
    ]

-- The sort is stable: a name stays behind those before it with the same number.
unfoldable pub insert_down : ℕ × Text → List (ℕ × Text) → List (ℕ × Text)
insert_down e [] = e ∷ []
insert_down e (f ∷ fs) = let rest = insert_down e fs in if ltb e.0 f.0 then f ∷ rest else e ∷ f ∷ fs

unfoldable pub sorted_down : List (ℕ × Text) → List (ℕ × Text)
unfolding insert_down
sorted_down [] = []
sorted_down (e ∷ es) = insert_down e (sorted_down es)

-- A directory that is not there has no names.
unfoldable pub audit_file_paths : Text → Exec (List Text)
unfolding sequences sorted_down
audit_file_paths dir = do
  names ← read_dir dir
  let rotated = map (λ (e : ℕ × Text). dir ++ (b'/' ∷ e.1)) (sorted_down (sequences names))
  active ← exists_sync (audit_path dir)
  pure (if active then rotated ++ audit_path dir ∷ [] else rotated)

-- The operation of a record that ended: succeeded or failed.
abbrev ended : Value → Bool
ended (text s) = text_eq s (codes "succeeded") || text_eq s (codes "failed")
ended _ = false

abbrev terminal_id : Value → Option Text
terminal_id event =
    if ended (prop (codes "outcome") event)
    then known_id (prop (codes "operationId") event)
    else none

abbrev onto_ids : Option Text → List Text → List Text
onto_ids none ids = ids
onto_ids (some id) ids = id ∷ ids

unfoldable pub ids_of : List Value → List Text
unfolding text_eq prop
ids_of [] = []
ids_of (event ∷ events) = onto_ids (terminal_id event) (ids_of events)

-- The lines of a file that are JSON.
unfoldable pub events_of : Content → List Value
events_of (lines vs torn) = vs
events_of (document v) = v ∷ []
events_of _ = []

unfoldable pub read_ids : List Text → Exec (List Text)
unfolding ids_of events_of
read_ids [] = pure []
read_ids (path ∷ paths) = do
  c ← read_file path
  ids ← read_ids paths
  pure (ids_of (events_of c) ++ ids)

unfoldable pub terminal_audit_operation_ids : Text → Exec (List Text)
unfolding audit_file_paths read_ids
terminal_audit_operation_ids dir = do paths ← audit_file_paths dir; read_ids paths
