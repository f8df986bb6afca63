-- ===== src/Approvals/Loading.antt =====
-- `loadApprovals` and `quarantine` of src/state/approvals.ts, whatever call fails.
use nodel_mcp.Base.{◌≡◌, refl, Bool, true, false, Option, none, some, List, [], ◌++◌, Text, codes}
use nodel_mcp.Base.{
  text_eq, text_eq_iff, arith, ◌⊎◌, inl, inr, length, length-append, ap, Bool-cases,
}
use nodel_mcp.Base.{if◌then◌else◌, is_some, public_error, state}
use nodel_mcp.Values.{Value, is_array}
use nodel_mcp.Platform.{Platform}
use nodel_mcp.Config.{AppConfig}
use nodel_mcp.Files.{Content, document, World, pure, handle, ◌>>◌, chmod_sync, read_file}
use nodel_mcp.Files.Triple.{
  Triple, Keeps, Triple-handle, Triple-throw, Triple-pure, Triple-weaken, Keeps-bind,
}
use nodel_mcp.Files.Triple.{Triple-fact}
use nodel_mcp.Files.Laws.{Holds, contents, Keeps-touch, Keeps-chmod_sync, Keeps-random_uuid}
use nodel_mcp.Files.Reads.{exists_sync_lem, read_file_lem, rename_away}
use nodel_mcp.Store.{initialize, durable_rename}
use nodel_mcp.Store.Writes.{atomic_write_atomic, Keeps-sync_directory}
use nodel_mcp.Approvals.{StoredApproval, approvals_path, read_envelope}
use nodel_mcp.Approvals.Effects.{
  moved_name, quarantine, discard, judge_approvals, load_approvals, saved,
}
use nodel_mcp.Approvals.Effects.{invalidate_legacy, judge_envelope}
use nodel_mcp.Approvals.Effects.{save_approvals, parse_json}

moved_name-ne : (path r u : Text) → text_eq (moved_name path r u) path ≡ false
moved_name-ne path r u = elim (Bool-cases (text_eq (moved_name path r u) path)) [
  | inl same ↦
      let e : length (path ++ (codes "." ++ (r ++ (codes "-" ++ u)))) ≡ length path =
        ap length ((text_eq_iff _ _).0 same) in
      absurd (
        omega (
          arith,
          e,
          length-append path (codes "." ++ (r ++ (codes "-" ++ u))),
          length-append (codes ".") (r ++ (codes "-" ++ u)),
          length-append r (codes "-" ++ u),
          length-append (codes "-") u,
        ))
  | inr other ↦ other
]

pub Keeps-initialize : (p : Text) (v : Option Content) → Keeps (Holds p v) initialize
unfolding initialize
Keeps-initialize p v =
    Triple-handle (Keeps-bind (Keeps-touch p v) (λ _. Keeps-touch p v))
      (λ e. Triple-throw _ (λ w h. h)) (λ a. Triple-pure a (λ w h. h))

-- The path still has its contents, or its file was moved away.
abbrev pub KeptOrGone : Text → Option Content → World → Type 0
KeptOrGone p v w = Holds p v w ⊎ Holds p none w

durable_rename_away :
    (p q : Text) (v : Option Content)
    → text_eq q p ≡ false
    → Triple (Holds p v) (durable_rename p q) (λ _. Holds p none) (λ _. KeptOrGone p v)
unfolding durable_rename
durable_rename_away p q v d =
    Triple-handle (rename_away p v q d) (λ e. Triple-throw e (λ w h. inl h))
      (λ _. Triple-weaken (Keeps-sync_directory p none) (λ w h. h) (λ _ w h. h) (λ _ w h. inr h))

quarantine_lem :
    (p r : Text) (v : Option Content)
    → Triple (Holds p v) (quarantine p r) (λ _. Holds p none) (λ _. KeptOrGone p v)
unfolding quarantine
quarantine_lem p r v =
    Triple-handle (Keeps-random_uuid p v) (λ e. Triple-throw e (λ w h. inl h))
      λ u.
        Triple-handle (durable_rename_away p (moved_name p r u) v (moved_name-ne p r u))
          (λ _. Triple-throw (public_error state) (λ w h. h))
          λ _.
            Triple-handle (Keeps-chmod_sync p none (moved_name p r u) 0o600)
              (λ _. Triple-throw (public_error state) (λ w h. inr h))
              (λ a. Triple-pure a (λ w h. h))

discard_lem :
    (p : Text) (v : Option Content) {Q : List StoredApproval → World → Type 0}
    → Triple (Holds p v) (discard p) Q (λ _. KeptOrGone p v)
discard_lem p v =
    Triple-handle (quarantine_lem p (codes "corrupt") v) (λ e. Triple-throw e (λ w h. h))
      (λ _. Triple-throw (public_error state) (λ w h. inr h))

module _ (p : Platform) (config : AppConfig) where
  abbrev pub kept_as :
      Value → Option (List StoredApproval) → Option (List StoredApproval × Option Content)
  kept_as v none = none
  kept_as v (some approvals) = some (approvals, some (document v))

  -- What `loadApprovals` returns on the contents of the file, and what it leaves there; `none`
  -- where it does not return.
  abbrev pub judged : Content → Option (List StoredApproval × Option Content)
  judged (document v) =
      if is_array v then some ([], some (saved [])) else kept_as v (read_envelope p v)
  judged _ = none

  abbrev pub loaded : Option Content → Option (List StoredApproval × Option Content)
  loaded none = some ([], none)
  loaded (some c) = judged c

  -- Where loading throws, the file is as it was, or gone, or the new empty one.
  abbrev pub Interrupted : Option Content → World → Type 0
  Interrupted v w =
      KeptOrGone (approvals_path config) v w ⊎ Holds (approvals_path config) (some (saved [])) w

  -- What is returned stands on disk.
  abbrev pub Loaded : Option Content → List StoredApproval → World → Type 0
  Loaded v bs w = loaded v ≡ some (bs, contents (approvals_path config) w)

  discarded :
      (c : Content) {Q : List StoredApproval → World → Type 0}
      → Triple
          (Holds (approvals_path config) (some c))
          (discard (approvals_path config))
          Q
          (λ _. Interrupted (some c))
  discarded c =
      Triple-weaken (discard_lem (approvals_path config) (some c)) (λ w h. h) (λ _ w h. h)
        (λ _ w h. inl h)

  invalidate_legacy_lem :
      (c : Content)
      → Triple
          (Holds (approvals_path config) (some c))
          (invalidate_legacy p config)
          (λ bs w. (bs ≡ []) × Holds (approvals_path config) (some (saved [])) w)
          (λ _. Interrupted (some c))
  unfolding invalidate_legacy save_approvals
  invalidate_legacy_lem c =
      Triple-handle (quarantine_lem (approvals_path config) (codes "legacy-invalidated") (some c))
        (λ e. Triple-throw e (λ w h. inl h))
        λ _.
          Triple-handle (atomic_write_atomic (approvals_path config) (saved []) none)
            (λ e. Triple-throw e (λ w h. elim h [ inl gone ↦ inl (inr gone) | inr new ↦ inr new ]))
            (λ _. Triple-pure [] (λ w h. (refl, h)))

  judge_envelope_lem :
      (v : Value) (o : Option (List StoredApproval))
      → Triple
          (Holds (approvals_path config) (some (document v)))
          (judge_envelope p config o)
          (λ bs w. kept_as v o ≡ some (bs, contents (approvals_path config) w))
          (λ _. Interrupted (some (document v)))
  judge_envelope_lem v none = discarded (document v)
  judge_envelope_lem v (some bs) = Triple-pure bs (λ w h. rw h)

  judge_lem :
      (c : Content)
      → Triple
          (Holds (approvals_path config) (some c))
          (judge_approvals p config (parse_json c))
          (λ bs w. judged c ≡ some (bs, contents (approvals_path config) w))
          (λ _. Interrupted (some c))
  unfolding judge_approvals
  judge_lem (document v) = elim (Bool-cases (is_array v)) [
    | inl legacy ↦ rw legacy (
        Triple-weaken (invalidate_legacy_lem (document v)) (λ w h. h) (λ bs w h. rw (h.0, h.1))
          (λ _ w h. h))
    | inr other ↦ rw other (judge_envelope_lem v (read_envelope p v))
  ]
  judge_lem c = discarded c

  abbrev path : Text
  path = approvals_path config

  read_present :
      (v : Option Content) (b : Bool)
      → b ≡ is_some v
      → Triple
          (Holds path v)
          (if b
            then (do
              chmod_sync path 0o600
              handle
                  (read_file path)
                  (λ _. discard path)
                  (λ c. judge_approvals p config (parse_json c)))
            else pure [])
          (λ bs. Loaded v bs)
          (λ _. Interrupted v)
  read_present none true same = cc
  read_present none false same = Triple-pure [] (λ w h. rw h)
  read_present (some c) false same = cc
  read_present (some c) true same =
      Triple-handle (Keeps-chmod_sync path (some c) path 0o600)
        (λ e. Triple-throw e (λ w h. inl (inl h)))
        λ _.
          Triple-handle (read_file_lem path (some c)) (λ _. discarded c)
            λ d. Triple-fact (λ same. let e : c ≡ d = cc in rw (← e) (judge_lem c))

  -- From any contents of the approvals file and any faults: what `loadApprovals` returns is what the
  -- file holds, and nothing is returned from a file that is no envelope.
  pub load_approvals_lem :
      (v : Option Content)
      → Triple
          (Holds (approvals_path config) v)
          (load_approvals p config)
          (λ bs. Loaded v bs)
          (λ _. Interrupted v)
  unfolding load_approvals
  load_approvals_lem v =
      Triple-handle (Keeps-initialize path v) (λ e. Triple-throw e (λ w h. inl (inl h)))
        λ _.
          Triple-handle (exists_sync_lem path v) (λ e. Triple-throw e (λ w h. inl (inl h)))
            λ b. Triple-fact (λ same. read_present v b same)
