-- ===== src/Approvals/Effects.antt =====
-- The operations of src/state/approvals.ts on the approvals file.
use nodel_mcp.Base.{ℕ, ◌+◌, ◌*◌, Bool, false, not, ◌&&◌, Option, none, some, List, [], ◌∷◌, ◌++◌}
use nodel_mcp.Base.{
  Text, codes, is_empty, length, ltb, ◌==◌, if◌then◌else◌, any, keep, find, drop_first,
}
use nodel_mcp.Base.{guard, public_error, map, or_else}
use nodel_mcp.Base.{conflict, approval_required, policy, state}
use nodel_mcp.Values.{
  Value, undefined, object, array, text, integer, pos, Fields, end, field, from_items,
}
use nodel_mcp.Values.{is_array}
use nodel_mcp.Platform.{Platform}
use nodel_mcp.Config.{AppConfig}
use nodel_mcp.Files.{
  Content, document, Exec, pure, throw, lift, handle, catch, ◌>>=◌, ◌>>◌, read_file,
}
use nodel_mcp.Files.{exists_sync, chmod_sync, now, random_uuid}
use nodel_mcp.Store.{initialize, durable_rename, atomic_write}
use nodel_mcp.Approvals.{
  ApprovalDetails, StoredApproval, approvals_path, confirm_text, read_envelope,
}
use nodel_mcp.Approvals.{timing_safe_equal, assert_no_bearer, assert_approval_details}

-- JSON.stringify leaves a field out whose value is undefined.
abbrev pub field_of : Text → Value → Fields → Fields
field_of k undefined fs = fs
field_of k v fs = field k v fs

unfoldable pub write_approval : StoredApproval → Value
write_approval a = object (
    field (codes "id") (text a.id) (
      field (codes "operation") (text a.operation) (
        field (codes "target") (text a.target) (
          field (codes "proposalHash") (text a.proposal_hash) (
            field_of (codes "reason") a.reason (
              field_of (codes "approvedBy") a.approved_by (
                field (codes "createdAt") (text a.created_at)
                  (field (codes "expiresAt") (text a.expires_at) end))))))))

unfoldable pub write_envelope : List StoredApproval → Value
unfolding write_approval
write_envelope approvals = object (
    field (codes "version") (integer (pos 2))
      (field (codes "approvals") (array (from_items (map write_approval approvals))) end))

abbrev pub saved : List StoredApproval → Content
saved approvals = document (write_envelope approvals)

unfoldable pub save_approvals : AppConfig → List StoredApproval → Exec (Unit {0})
save_approvals config approvals = atomic_write (approvals_path config) (saved approvals)

abbrev pub moved_name : Text → Text → Text → Text
moved_name path reason unique = path ++ (codes "." ++ (reason ++ (codes "-" ++ unique)))

-- A rename that fails is STATE, whichever of the two paths then holds the file.
unfoldable pub quarantine : Text → Text → Exec (Unit {0})
quarantine path reason = do
  unique ← random_uuid
  handle (durable_rename path (moved_name path reason unique)) (λ _. throw (public_error state))
      (λ _.
        catch (chmod_sync (moved_name path reason unique) 0o600) (λ _. throw (public_error state)))

-- `JSON.parse` of the text of a file.
abbrev pub parse_json : Content → Option Value
parse_json (document v) = some v
parse_json _ = none

abbrev pub discard : Text → Exec (List StoredApproval)
discard path = quarantine path (codes "corrupt") >> throw (public_error state)

abbrev pub text_or_undefined : Option Text → Value
text_or_undefined none = undefined
text_or_undefined (some s) = text s

pub record Receipt : Type 0 where
  pub approval_id : Text
  pub details : ApprovalDetails
  pub expires_at : Text

module _ (p : Platform) (config : AppConfig) where
  -- An array is the file of an earlier release, whose approvals are not trusted.
  unfoldable pub invalidate_legacy : Exec (List StoredApproval)
  invalidate_legacy = do
    quarantine (approvals_path config) (codes "legacy-invalidated")
    save_approvals config []
    pure []

  abbrev pub judge_envelope : Option (List StoredApproval) → Exec (List StoredApproval)
  judge_envelope none = discard (approvals_path config)
  judge_envelope (some approvals) = pure approvals

  unfoldable pub judge_approvals : Option Value → Exec (List StoredApproval)
  judge_approvals none = discard (approvals_path config)
  judge_approvals (some v) =
      if is_array v then invalidate_legacy else judge_envelope (read_envelope p v)

  unfoldable pub load_approvals : Exec (List StoredApproval)
  load_approvals = do
    initialize
    there ← exists_sync (approvals_path config)
    if there
        then (do
          chmod_sync (approvals_path config) 0o600
          handle (read_file (approvals_path config)) (λ _. discard (approvals_path config))
              (λ c. judge_approvals (parse_json c)))
        else pure []

  abbrev pub is_live : ℕ → StoredApproval → Bool
  is_live t a = elim (p.parse_date a.expires_at) [ none ↦ false | some e ↦ ltb t e ]

  abbrev pub has_id : Text → StoredApproval → Bool
  has_id id a = timing_safe_equal p a.id id

  unfoldable pub is_for : ApprovalDetails → StoredApproval → Bool
  is_for details a =
      timing_safe_equal p a.operation details.operation
      && timing_safe_equal p a.target details.target
      && timing_safe_equal p a.proposal_hash details.proposal_hash

  abbrev pub new_approval : ApprovalDetails → Option Text → Option Text → ℕ → Text → StoredApproval
  new_approval details reason approved_by t id = record {
    details = details;
    id = id;
    reason = text_or_undefined reason;
    approved_by = text_or_undefined approved_by;
    created_at = p.to_iso_string t;
    expires_at = p.to_iso_string (t + config.write_approval_ttl_seconds * 1000);
  }

  -- The checks of `approveWrite` before it reads the file; an argument left out is never checked.
  unfoldable pub check_request :
      ApprovalDetails → Text → Option Text → Option Text → Exec (Unit {0})
  check_request details provided reason approved_by = do
    lift (guard config.writes_enabled (public_error policy))
    lift (assert_no_bearer details.operation)
    lift (assert_no_bearer details.target)
    lift (assert_no_bearer (or_else reason []))
    lift (assert_no_bearer (or_else approved_by []))
    lift (
        guard (timing_safe_equal p provided (confirm_text details.proposal_hash))
          (public_error approval_required))
    lift (assert_approval_details details)

  unfoldable pub approve_write : ApprovalDetails → Text → Option Text → Option Text → Exec Receipt
  approve_write details provided reason approved_by = do
    check_request details provided reason approved_by
    t ← now
    stored ← load_approvals
    let approvals = keep (is_live t) stored
    id ← random_uuid
    lift (guard (not (any (has_id id) approvals)) (public_error state))
    let approval = new_approval details reason approved_by t id
    save_approvals config (approvals ++ approval ∷ [])
    pure (record { approval_id = id; details = details; expires_at = approval.expires_at })

  -- Approvals that expired are dropped from the file, if there were any.
  unfoldable pub report_missing : List StoredApproval → List StoredApproval → Exec (Unit {0})
  report_missing stored approvals = do
    (if length approvals == length stored then pure tt else save_approvals config approvals)
    throw (public_error approval_required)

  unfoldable pub spend :
      Text → ApprovalDetails → List StoredApproval → StoredApproval → Exec (Unit {0})
  spend id details approvals approval =
      if is_for details approval
      then save_approvals config (drop_first (has_id id) approvals)
      else throw (public_error conflict)

  abbrev pub judge_found :
      Text
      → ApprovalDetails
      → List StoredApproval
      → List StoredApproval
      → Option StoredApproval
      → Exec (Unit {0})
  judge_found id details stored approvals none = report_missing stored approvals
  judge_found id details stored approvals (some approval) = spend id details approvals approval

  unfoldable pub consume : Text → ApprovalDetails → ℕ → List StoredApproval → Exec (Unit {0})
  consume id details t stored =
      let approvals = keep (is_live t) stored in
      judge_found id details stored approvals (find (has_id id) approvals)

  unfoldable pub assert_write_approved : ApprovalDetails → Option Text → Exec (Unit {0})
  assert_write_approved details approval_id =
      if config.write_approval_required
      then (if is_empty (or_else approval_id [])
          then throw (public_error approval_required)
          else (do
            t ← now
            stored ← load_approvals
            consume (or_else approval_id []) details t stored))
      else pure tt
