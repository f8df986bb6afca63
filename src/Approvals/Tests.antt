-- ===== src/Approvals/Tests.antt =====
-- Runs of the approvals and instances of the theorems about them.
use nodel_mcp.Base.{◌≡◌, ◌≢◌, refl, sym, subst, none, some, [], ◌∷◌, Text, codes}
use nodel_mcp.Base.{ok, err, public_error, conflict, trim, is_space, text_eq}
use nodel_mcp.Values.{undefined, items, from_items, get}
use nodel_mcp.Platform.{plain}
use nodel_mcp.Config.{sample}
use nodel_mcp.Files.{
  World, handle, call, touch, exists_sync, chmod_sync, read_file, now, random_uuid,
}
use nodel_mcp.Files.{open_new, write_open, rename_sync, lookup, insert, remove}
use nodel_mcp.Files.Triple.{Triple}
use nodel_mcp.Files.Laws.{Holds, contents}
use nodel_mcp.Store.{initialize, atomic_write, write_through}
use nodel_mcp.Approvals.{ApprovalDetails, StoredApproval, approvals_path, is_sha256}
use nodel_mcp.Approvals.{timing_safe_equal, read_envelope}
use nodel_mcp.Approvals.Records.{IsStorable, read-write_envelope}
use nodel_mcp.Approvals.Loading.{loaded, Loaded, Interrupted, load_approvals_lem}
use nodel_mcp.Approvals.Consume.{Spent, HasDistinctIds, assert_write_approved_spends}
use nodel_mcp.Approvals.Once.{IsSoundAt, loaded-saved_eq, assert_write_approved_once}
use nodel_mcp.Approvals.Invariant.{IsSound}
use nodel_mcp.Store.Completion.{file_of}
use nodel_mcp.Approvals.Grants.{assert_write_approved_passes}
use nodel_mcp.Approvals.Granting.{IsGranted, approve_write_grants}
use nodel_mcp.Approvals.Reach.{here, next, approves, Reach-IsSound}
use nodel_mcp.Approvals.Effects.{
  approve_write, assert_write_approved, load_approvals, saved, is_for, consume, spend,
}
use nodel_mcp.Approvals.Effects.{report_missing, save_approvals, write_envelope, judge_approvals}

abbrev hash : Text
hash = codes "0123456789abcdef0123456789abcdef0123456789abcdef0123456789abcdef"

abbrev details : ApprovalDetails
details = record {
  operation = codes "set_node_params";
  target = codes "Lobby Screen";
  proposal_hash = hash;
}

abbrev other : ApprovalDetails
other = record details { target = codes "Foyer Screen" }

abbrev start : World
start = record {
  disk = [];
  faults = [];
  clock = 1000;
  uuids = codes "u1" ∷ codes "id" ∷ codes "u2" ∷ codes "u3" ∷ codes "u4" ∷ [];
}

abbrev granted : World
granted = (approve_write plain sample details (codes "APPROVE 0123456789ab") none none start).1

abbrev approval : StoredApproval
approval = record {
  details = details;
  id = codes "id";
  reason = undefined;
  approved_by = undefined;
  created_at = 1000 ∷ [];
  expires_at = 601000 ∷ [];
}

-- A state directory with one live approval.
abbrev held : World
held = record start {
  disk =
      (
        approvals_path sample,
        record { content = saved (approval ∷ []); mode = 0o600; mtime = 1000 },
      )
      ∷ [];
}

passes : (assert_write_approved plain sample details (some (codes "id")) held).0 ≡ ok tt
unfolding assert_write_approved load_approvals judge_approvals consume spend report_missing is_for
    save_approvals read_envelope timing_safe_equal initialize atomic_write write_through
    write_envelope items from_items handle call touch exists_sync chmod_sync read_file now
    random_uuid open_new write_open rename_sync lookup insert remove trim is_space is_sha256 text_eq
    get
passes = refl

refused :
    (assert_write_approved plain sample other (some (codes "id")) held).0
    ≡ err (public_error conflict)
unfolding assert_write_approved load_approvals judge_approvals consume spend report_missing is_for
    save_approvals read_envelope timing_safe_equal initialize atomic_write write_through
    write_envelope items from_items handle call touch exists_sync chmod_sync read_file now
    random_uuid open_new write_open rename_sync lookup insert remove trim is_space is_sha256 text_eq
    get
refused = refl

approval-IsStorable : IsStorable plain approval
unfolding trim is_space is_sha256
approval-IsStorable = record {
  has_name = refl;
  has_operation = refl;
  has_target = refl;
  has_hash = refl;
  has_span = refl;
}

read-write_envelope_example :
    read_envelope plain (write_envelope (approval ∷ [])) ≡ some (approval ∷ [])
read-write_envelope_example = read-write_envelope plain (approval ∷ []) (approval-IsStorable, tt)

load_approvals_example :
    Triple
      (Holds (approvals_path sample) (some (saved (approval ∷ []))))
      (load_approvals plain sample)
      (λ bs. Loaded plain sample (some (saved (approval ∷ []))) bs)
      (λ _. Interrupted plain sample (some (saved (approval ∷ []))))
load_approvals_example = load_approvals_lem plain sample (some (saved (approval ∷ [])))

spends_example :
    Triple
      (λ w. (w.clock ≡ 1000) × Holds (approvals_path sample) (some (saved (approval ∷ []))) w)
      (assert_write_approved plain sample details (some (codes "id")))
      (λ _. Spent plain sample (some (saved (approval ∷ []))) 1000 (codes "id") details)
      (λ _ _. Unit {0})
spends_example =
    assert_write_approved_spends plain sample (some (saved (approval ∷ []))) 1000 (codes "id")
      details refl

held-contents : contents (approvals_path sample) held ≡ some (saved (approval ∷ []))
unfolding contents lookup text_eq
held-contents = refl

held_sound : IsSoundAt plain sample (contents (approvals_path sample) held)
held_sound bs c e =
    let e' = subst (λ v. loaded plain sample v ≡ some (bs, c)) held-contents e in
    subst (HasDistinctIds plain sample) (sym (loaded-saved_eq plain sample (approval ∷ []) e'))
      (tt, tt)

abbrev after : World
after = (assert_write_approved plain sample details (some (codes "id")) held).1

once_example : (assert_write_approved plain sample other (some (codes "id")) after).0 ≢ ok tt
once_example =
    assert_write_approved_once plain sample (codes "id") details other held after refl held_sound
      passes refl

start_empty : contents (approvals_path sample) start ≡ none
unfolding contents lookup
start_empty = refl

Reach-IsSound_example : IsSound plain sample granted
Reach-IsSound_example =
    Reach-IsSound plain sample start_empty
      (next here (approves details (codes "APPROVE 0123456789ab") none none start))

passes_example :
    ((assert_write_approved plain sample details (some (codes "id")) held).0 ≡ ok tt)
    × (lookup
          (approvals_path sample)
          (assert_write_approved plain sample details (some (codes "id")) held).1.disk
        ≡ some (file_of (saved []) 1000))
unfolding lookup is_for timing_safe_equal text_eq
passes_example =
    assert_write_approved_passes plain sample (approval ∷ []) approval (codes "id") details
      (record { content = saved (approval ∷ []); mode = 0o600; mtime = 1000 }) held refl refl
      (refl, refl) refl refl (approval-IsStorable, tt) refl refl

approve_write_grants_example :
    Triple
      (λ w. (w.clock ≡ 1000) × Holds (approvals_path sample) none w)
      (approve_write plain sample details (codes "APPROVE 0123456789ab") none none)
      (λ r. IsGranted plain sample none 1000 details (codes "APPROVE 0123456789ab") none none r)
      (λ _ _. Unit {0})
approve_write_grants_example =
    approve_write_grants plain sample none 1000 details (codes "APPROVE 0123456789ab") none none
