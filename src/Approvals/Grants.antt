-- ===== src/Approvals/Grants.antt =====
-- An approval that is held is honoured.
use nodel_mcp.Base.{
  ℕ, ◌≡◌, ◌∙◌, refl, true, false, some, List, [], Text, is_empty, text_eq, text_eq_refl,
  text_eq_iff, arith,
}
use nodel_mcp.Base.{All, find, keep, ok, drop_first}
use nodel_mcp.Platform.{Platform}
use nodel_mcp.Config.{AppConfig}
use nodel_mcp.Files.{
  World, File, lookup, insert, handle, call, touch, exists_sync, chmod_sync, read_file, now,
}
use nodel_mcp.Files.Laws.{lookup-insert}
use nodel_mcp.Store.{initialize}
use nodel_mcp.Store.{temporary_name}
use nodel_mcp.Store.Writes.{temporary_name-ne}
use nodel_mcp.Store.Completion.{or_empty, CanWrite, file_of, atomic_write_returns}
use nodel_mcp.Approvals.{ApprovalDetails, StoredApproval, approvals_path}
use nodel_mcp.Approvals.Records.{IsStorable, read-write_envelope}
use nodel_mcp.Approvals.Effects.{
  assert_write_approved, load_approvals, judge_approvals, consume, spend, is_live, has_id, is_for,
  saved, save_approvals, write_envelope,
}

module _ (p : Platform) (config : AppConfig) where
  abbrev path : Text
  path = approvals_path config

  abbrev opened : File → World → World
  opened f w = record w { disk = insert path (record f { mode = 0o600 }) w.disk }

  judge_saved :
      (bs : List StoredApproval) (w : World)
      → All (IsStorable p) bs
      → judge_approvals p config (some (write_envelope bs)) w ≡ (ok bs, w)
  unfolding judge_approvals write_envelope
  judge_saved bs w h = rw (read-write_envelope p bs h) refl

  load_saved :
      (bs : List StoredApproval) (f : File) (w : World)
      → w.faults ≡ []
      → lookup path w.disk ≡ some f
      → f.content ≡ saved bs
      → All (IsStorable p) bs
      → load_approvals p config w ≡ (ok bs, opened f w)
  unfolding load_approvals initialize touch call exists_sync chmod_sync read_file handle
  load_saved bs f w quiet there held h = ground (
    arith,
    judge_saved bs (opened f w) h,
    lookup-insert path path (record f { mode = 0o600 }) w.disk,
    text_eq_refl path,
  )

  can_write : (f : File) (w : World) → CanWrite path w → CanWrite path (opened f w)
  can_write f w (quiet, free) = (
    quiet,
    lookup-insert path (temporary_name path (or_empty w.uuids)) (record f { mode = 0o600 }) w.disk
        ∙ (rw (temporary_name-ne' (or_empty w.uuids)) free),
  )
    where
      temporary_name-ne' : (u : Text) → text_eq path (temporary_name path u) ≡ false
      temporary_name-ne' u = ground (
        arith,
        text_eq_iff path (temporary_name path u),
        text_eq_iff (temporary_name path u) path,
        temporary_name-ne path u,
      )

  consume_found :
      (bs : List StoredApproval) (a : StoredApproval) (id : Text) (d : ApprovalDetails) (t : ℕ)
      (w : World)
      → find (has_id p config id) (keep (is_live p config t) bs) ≡ some a
      → is_for p config d a ≡ true
      → consume p config id d t bs w
        ≡ save_approvals config (drop_first (has_id p config id) (keep (is_live p config t) bs)) w
  unfolding consume spend
  consume_found bs a id d t w found matching = rw (found, matching) refl

  assert_consumes :
      (bs : List StoredApproval) (id : Text) (d : ApprovalDetails) (f : File) (w : World)
      → config.write_approval_required ≡ true
      → is_empty id ≡ false
      → load_approvals p config w ≡ (ok bs, opened f w)
      → assert_write_approved p config d (some id) w ≡ consume p config id d w.clock bs (opened f w)
  unfolding assert_write_approved now handle
  assert_consumes bs id d f w required named loads = ground (arith, loads)

  -- An approval that the file holds, that has not expired, and that was granted under this id for this
  -- operation, target and hash, passes the check, where no call fails and the name of the temporary
  -- file is free; the file then holds the other live approvals.
  pub assert_write_approved_passes :
      (bs : List StoredApproval) (a : StoredApproval) (id : Text) (d : ApprovalDetails) (f : File)
      (w : World)
      → config.write_approval_required ≡ true
      → is_empty id ≡ false
      → CanWrite path w
      → lookup path w.disk ≡ some f
      → f.content ≡ saved bs
      → All (IsStorable p) bs
      → find (has_id p config id) (keep (is_live p config w.clock) bs) ≡ some a
      → is_for p config d a ≡ true
      → ((assert_write_approved p config d (some id) w).0 ≡ ok tt)
        × (lookup path (assert_write_approved p config d (some id) w).1.disk
            ≡ some (
                file_of
                  (saved (drop_first (has_id p config id) (keep (is_live p config w.clock) bs)))
                  w.clock))
  unfolding save_approvals
  assert_write_approved_passes bs a id d f w required named can there held h found matching =
      let loads = load_saved bs f w can.0 there held h in
      let rest = drop_first (has_id p config id) (keep (is_live p config w.clock) bs) in
      let writes = atomic_write_returns path (saved rest) (opened f w) (can_write f w can) in
      rw
        (
          assert_consumes bs id d f w required named loads,
          consume_found bs a id d w.clock (opened f w) found matching,
        )
        writes
