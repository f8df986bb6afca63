-- ===== src/Approvals/Once.antt =====
-- An approval is consumed once.
use nodel_mcp.Base.{ℕ, ◌≡◌, ◌≢◌, refl, subst, ◌∙◌, true, Option, none, some, List, Text}
use nodel_mcp.Base.{All-keep, find, find-eq-none, keep, drop_first, ok}
use nodel_mcp.Platform.{Platform}
use nodel_mcp.Config.{AppConfig}
use nodel_mcp.Files.{Content, World}
use nodel_mcp.Files.Triple.{Triple-ok}
use nodel_mcp.Files.Laws.{contents}
use nodel_mcp.Approvals.{ApprovalDetails, StoredApproval, approvals_path, read_envelope}
use nodel_mcp.Approvals.Records.{read-write_envelope_eq}
use nodel_mcp.Approvals.Effects.{saved, is_live, has_id, assert_write_approved, write_envelope}
use nodel_mcp.Approvals.Loading.{loaded, kept_as}
use nodel_mcp.Approvals.Consume.{HasDistinctIds, HasDistinctIds-keep, drop_first_clears}
use nodel_mcp.Approvals.Consume.{assert_write_approved_spends}

module _ (p : Platform) (config : AppConfig) where
  abbrev path : Text
  path = approvals_path config

  -- The ids of the approvals that the contents hold are distinct.
  abbrev pub IsSoundAt : Option Content → Type 0
  IsSoundAt v =
      (bs : List StoredApproval) (c : Option Content)
      → loaded p config v ≡ some (bs, c)
      → HasDistinctIds p config bs

  kept_as_eq :
      (v : _) (o : Option (List StoredApproval)) {cs : List StoredApproval} {c : Option Content}
      → kept_as p config v o ≡ some (cs, c)
      → o ≡ some cs
  kept_as_eq v none h = cc
  kept_as_eq v (some bs) h = cc

  -- What is loaded from saved contents is what was saved.
  pub loaded-saved_eq :
      (bs : List StoredApproval) {cs : List StoredApproval} {c : Option Content}
      → loaded p config (some (saved bs)) ≡ some (cs, c)
      → cs ≡ bs
  unfolding write_envelope
  loaded-saved_eq bs h =
      read-write_envelope_eq p bs
        (kept_as_eq (write_envelope bs) (read_envelope p (write_envelope bs)) h)

  none_left :
      (t t' : ℕ) (id : Text) (bs : List StoredApproval)
      → HasDistinctIds p config bs
      → find (has_id p config id) (
          keep
            (is_live p config t')
            (drop_first (has_id p config id) (keep (is_live p config t) bs)))
        ≡ none
  none_left t t' id bs h =
      find-eq-none _ _
        (All-keep _ _ _ (drop_first_clears p config id _ (HasDistinctIds-keep p config _ bs h)))

  -- After a check passed by an id, no check passes by this id again while the file is as that check
  -- left it, for whatever operation, at whatever time and with whatever faults, if the ids in the
  -- file were distinct.
  pub assert_write_approved_once :
      (id : Text) (d d' : ApprovalDetails) (w u : World)
      → config.write_approval_required ≡ true
      → IsSoundAt (contents path w)
      → (assert_write_approved p config d (some id) w).0 ≡ ok tt
      → contents path u ≡ contents path (assert_write_approved p config d (some id) w).1
      → (assert_write_approved p config d' (some id) u).0 ≢ ok tt
  assert_write_approved_once id d d' w u required sound passed same again =
      let first =
        Triple-ok (assert_write_approved_spends p config (contents path w) w.clock id d required) w
          (refl, refl) passed in
      let second =
        Triple-ok (assert_write_approved_spends p config (contents path u) u.clock id d' required) u
          (refl, refl) again in
      let rest = drop_first (has_id p config id) (keep (is_live p config w.clock) first.stored) in
      let now_held : contents path u ≡ some (saved rest) = same ∙ first.left in
      let e : second.stored ≡ rest =
        loaded-saved_eq rest (
          subst (λ v. loaded p config v ≡ some (second.stored, second.kept)) now_held
            second.read) in
      let h =
        none_left w.clock u.clock id first.stored (sound first.stored first.kept first.read) in
      cc (h, e, second.found)
