-- ===== src/Audit/Tests.antt =====
-- src/state/audit.ts on small inputs.
use nodel_mcp.Base.{
  ℕ, ◌≡◌, refl, sym, subst, arith, true, none, some, List, [], ◌∷◌, Text, codes, ◌⊎◌, inl,
}
use nodel_mcp.Values.{text, object, Fields, end, field, null}
use nodel_mcp.Config.{sample}
use nodel_mcp.Store.{ensure_directory}
use nodel_mcp.Base.{text_eq}
use nodel_mcp.Files.{
  handle, random_uuid, now, touch, exists_sync, append_file, chmod_sync, insert, stat_sync, World,
  document, lookup,
}
use nodel_mcp.Files.Disk.{OnDisk}
use nodel_mcp.Files.Laws.{Holds, content_of, contents}
use nodel_mcp.Files.Triple.{Triple}
use nodel_mcp.Messages.{folded, behind}
use nodel_mcp.Audit.{
  safe_name, backup_operation_id, redact, contains_sidecar_token, is_sensitive, underscored,
  without_underscores, split_dashes, contains_token,
}
use nodel_mcp.Audit.Log.{Measure, audit_path, audit_write, audit_record}
use nodel_mcp.Messages.Words.{is_word}
use nodel_mcp.Audit.Mutation.{done, RemoteError, audited_mutation}
use nodel_mcp.Audit.Backups.{Encoding, Backup, too_many, retained, prune_backups}
use nodel_mcp.Audit.Views.{View, Shows}
use nodel_mcp.Audit.Records.{Extends}
use nodel_mcp.Audit.Refines.{audit_write_refines}
use nodel_mcp.Audit.Recorded.{IsReported, HasWordId, audited_mutation-IsReported}
use nodel_mcp.Audit.Retention.{IsCapped, too_many_bounds}
use nodel_mcp.Audit.Unended.{IsUnended}
use nodel_mcp.Audit.Pruning.{prune_backups_keeps}

abbrev measure : Measure
measure = record { to_iso_string = λ t. t ∷ []; line_bytes = λ v. 100; size = λ c. 0 }

abbrev event : Fields
event = field (codes "operation") (text (codes "node.restart")) end

abbrev blank : View
blank i = none

abbrev empty : World
empty = record { disk = []; faults = []; clock = 7; uuids = codes "id" ∷ [] }

redacted :
    redact 0 (object (field (codes "MCP-Token") (text (codes "secret")) end))
    ≡ object (field (codes "MCP-Token") (text (codes "[redacted]")) end)
unfolding redact is_sensitive behind folded
redacted = refl

token_found : contains_sidecar_token (object (field (codes "t") null end)) (some (codes "t")) ≡ true
unfolding contains_sidecar_token contains_token
token_found = refl

safe_name_runs : safe_name (codes "  Lamp #1 / Hall ") ≡ codes "Lamp_1_Hall"
unfolding safe_name underscored without_underscores
safe_name_runs = refl

operation_id_runs :
    backup_operation_id (λ s. s) (codes "2026--op_ab--u--node_b64_TGFtcA.json") ≡ some (codes "ab")
unfolding backup_operation_id split_dashes behind
operation_id_runs = refl

audit_write_refines_example :
    Triple
      (Shows (audit_path sample.state_dir) blank)
      (audit_write measure sample none event)
      (λ id w.
        (t : ℕ) × Extends
          (audit_path sample.state_dir)
          5
          blank
          (audit_record measure t id none event ∷ [])
          w)
      (λ _ _. Unit {0})
audit_write_refines_example = audit_write_refines measure sample none event 4 blank refl refl

abbrev restart : World → (Unit {0} ⊎ RemoteError) × World
restart w = (inl tt, w)

ends : (audited_mutation measure sample none event restart empty).0 ≡ done (codes "id") tt
unfolding audited_mutation handle text_eq random_uuid now ensure_directory touch exists_sync lookup
    append_file chmod_sync insert stat_sync
ends = refl

-- The operation is reported under the id `id`.
word : HasWordId (audited_mutation measure sample none event restart empty).0
unfolding is_word
word = subst HasWordId (sym ends) (record { is_plain = refl; is_short = omega arith })

audited_mutation-IsReported_example :
    IsReported
      (audit_path sample.state_dir)
      5
      (audited_mutation measure sample none event restart empty).0
      (audited_mutation measure sample none event restart empty).1
unfolding contents lookup
audited_mutation-IsReported_example =
    audited_mutation-IsReported measure sample none 4 refl (Unit {0}) event (tt, tt) restart
      (λ g v h. h) blank empty refl (λ i. refl) word

abbrev backup : ℕ → Text → Backup
backup mtime id = record { name = id; mtime = mtime; operation_id = some id }

abbrev backups : List Backup
backups = backup 1 (codes "a") ∷ backup 2 (codes "b") ∷ backup 3 (codes "c") ∷ []

too_many_bounds_example :
    let kept = retained 10 30 (codes "a" ∷ []) backups in
    IsCapped 1 (codes "a" ∷ []) kept (too_many 1 (codes "a" ∷ []) kept)
too_many_bounds_example = too_many_bounds 1 10 30 (codes "a" ∷ []) backups

abbrev encoding : Encoding
encoding = record { to_iso_string = λ t. t ∷ []; encode = λ s. s; decode = λ s. s }

prune_backups_keeps_example :
    Triple
      (OnDisk (λ d.
        (content_of (lookup (codes "b/2026--op_ab--u--node_b64_L.json") d) ≡ some (document null))
        × IsUnended (some (codes "ab")) d))
      (prune_backups encoding sample (codes "b") (codes "L"))
      (λ _. Holds (codes "b/2026--op_ab--u--node_b64_L.json") (some (document null)))
      (λ _. Holds (codes "b/2026--op_ab--u--node_b64_L.json") (some (document null)))
unfolding backup_operation_id split_dashes behind
prune_backups_keeps_example =
    prune_backups_keeps encoding sample (codes "b") (codes "L")
      (codes "2026--op_ab--u--node_b64_L.json") (some (document null))
