-- ===== src/Audit/Backups.antt =====
-- src/state/audit.ts: the backups of bindings and parameters, and their retention.
-- base64url of `Buffer` is a parameter.
use nodel_mcp.Base.{
  ℕ, ◌-◌, ◌*◌, Bool, false, ◌&&◌, ◌||◌, not, Option, none, some, List, [], ◌∷◌, ◌++◌, Text, codes,
  text_eq, ltb, ◌==◌, if◌then◌else◌, any, keep, take, length, ends_with, public_error, state, guard,
  is_empty,
}
use nodel_mcp.Values.{Value}
use nodel_mcp.Config.{AppConfig}
use nodel_mcp.Files.{
  document, Exec, pure, lift, ◌>>=◌, ◌>>◌, unlink_sync, read_dir, stat_sync, now, random_uuid,
}
use nodel_mcp.Store.{ensure_directory, atomic_write}
use nodel_mcp.Audit.{safe_name, backup_operation_id, contains_sidecar_token}
use nodel_mcp.Audit.Log.{terminal_audit_operation_ids}

pub record Encoding : Type 0 where
  pub to_iso_string : ℕ → Text
  pub encode : Text → Text
  pub decode : Text → Text

pub data BackupKind : Type 0 where
  bindings parameters : BackupKind

abbrev pub kind_name : BackupKind → Text
kind_name bindings = codes "bindings"
kind_name parameters = codes "parameters"

pub record Backup : Type 0 where
  pub name : Text
  pub mtime : ℕ
  pub operation_id : Option Text

abbrev pub backup_suffix : Text → Text
backup_suffix encoded = codes "--node_b64_" ++ (encoded ++ codes ".json")

abbrev legacy_suffix : Text → Text
legacy_suffix safe = codes "--" ++ (safe ++ codes ".json")

module _ (e : Encoding) where
  unfoldable pub is_backup_of : Text → Text → Bool
  unfolding ends_with safe_name
  is_backup_of node name =
      ends_with name (backup_suffix (e.encode node))
      || ends_with name (legacy_suffix (safe_name node))

  -- The stat of each name.
  unfoldable pub stat_all : Text → List Text → Exec (List Backup)
  unfolding backup_operation_id
  stat_all dir [] = pure []
  stat_all dir (name ∷ names) = do
    f ← stat_sync (dir ++ (b'/' ∷ name))
    rest ← stat_all dir names
    pure (
        record { name = name; mtime = f.mtime; operation_id = backup_operation_id e.decode name }
        ∷ rest)

-- By age, the oldest first.
unfoldable pub insert_by_age : Backup → List Backup → List Backup
insert_by_age b [] = b ∷ []
insert_by_age b (c ∷ cs) =
    let rest = insert_by_age b cs in if ltb c.mtime b.mtime then c ∷ rest else b ∷ c ∷ cs

unfoldable pub sort_by_age : List Backup → List Backup
unfolding insert_by_age
sort_by_age [] = []
sort_by_age (b ∷ bs) = insert_by_age b (sort_by_age bs)

abbrev pub ended_in : List Text → Option Text → Bool
ended_in ids none = false
ended_in ids (some id) = not (is_empty id) && any (λ i. text_eq i id) ids

-- Its operation is known to have ended.
unfoldable pub is_removable : List Text → Backup → Bool
is_removable ids b = ended_in ids b.operation_id

abbrev pub day : ℕ
day = 86400000

unfoldable pub is_expired : ℕ → ℕ → List Text → Backup → Bool
unfolding is_removable
is_expired t days ids b = is_removable ids b && ltb (days * day) (t - b.mtime)

-- The backups to remove, of those of a node in order of age: first the expired ones, then as many
-- of the oldest others as are too many.
unfoldable pub too_old : ℕ → ℕ → List Text → List Backup → List Backup
unfolding is_expired
too_old t days ids matching = keep (is_expired t days ids) matching

unfoldable pub retained : ℕ → ℕ → List Text → List Backup → List Backup
unfolding is_expired
retained t days ids matching = keep (λ b. not (is_expired t days ids b)) matching

unfoldable pub too_many : ℕ → List Text → List Backup → List Backup
unfolding is_removable
too_many cap ids kept = take (length kept - cap) (keep (is_removable ids) kept)

unfoldable pub unlink_all : Text → List Backup → Exec (Unit {0})
unlink_all dir [] = pure tt
unlink_all dir (b ∷ bs) = do unlink_sync (dir ++ (b'/' ∷ b.name)); unlink_all dir bs

module _ (e : Encoding) (config : AppConfig) where
  unfoldable pub prune_backups : Text → Text → Exec (Unit {0})
  unfolding is_backup_of stat_all sort_by_age too_old retained too_many unlink_all
      terminal_audit_operation_ids
  prune_backups dir node = do
    t ← now
    ids ← terminal_audit_operation_ids config.state_dir
    names ← read_dir dir
    found ← stat_all e dir (keep (is_backup_of e node) names)
    let matching = sort_by_age found
    unlink_all dir (too_old t config.backup_retention_days ids matching)
    unlink_all dir (
        too_many config.backup_retention_per_node_kind ids
          (retained t config.backup_retention_days ids matching))

  abbrev pub backup_dir : BackupKind → Text
  backup_dir kind = config.state_dir ++ (codes "/backups/" ++ kind_name kind)

  -- `toISOString().replace(/[:.]/gu, "-")`
  unfoldable pub dashed : Text → Text
  dashed [] = []
  dashed (c ∷ s) = (if c == b':' || c == b'.' then b'-' else c) ∷ dashed s

  unfoldable pub backup_name : ℕ → Text → Text → Text → Text
  unfolding dashed
  backup_name t operation_id unique node =
      dashed (e.to_iso_string t)
      ++ (codes "--op_"
          ++ (e.encode operation_id ++ (codes "--" ++ (unique ++ backup_suffix (e.encode node)))))

  unfoldable pub backup_state : BackupKind → Text → Value → Text → Exec Text
  unfolding backup_name contains_sidecar_token prune_backups
  backup_state kind node value operation_id = do
    ensure_directory
    t ← now
    unique ← random_uuid
    let path = backup_dir kind ++ (b'/' ∷ backup_name t operation_id unique node)
    lift (guard (not (contains_sidecar_token value config.mcp_token)) (public_error state))
    atomic_write path (document value)
    prune_backups (backup_dir kind) node
    pure path

  unfoldable pub backup_binding_state : Text → Value → Text → Exec Text
  unfolding backup_state
  backup_binding_state = backup_state bindings

  unfoldable pub backup_parameter_state : Text → Value → Text → Exec Text
  unfolding backup_state
  backup_parameter_state = backup_state parameters
