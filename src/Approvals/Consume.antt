-- ===== src/Approvals/Consume.antt =====
-- `assertWriteApproved` of src/state/approvals.ts: what it takes to pass, and that it passes once.
use nodel_mcp.Base.{ℕ, ◌≡◌, refl, Bool, true, false, Option, none, some, List, [], ◌∷◌, Text}
use nodel_mcp.Base.{text_eq_iff, arith, All, All-keep, find, find_passes, keep}
use nodel_mcp.Base.{and₃, drop_first, Bool-cases, inl, inr, is_empty, to_well_formed}
use nodel_mcp.Base.{public_error, approval_required, conflict}
use nodel_mcp.Platform.{Platform, sha256, sha256-injective}
use nodel_mcp.Config.{AppConfig}
use nodel_mcp.Files.{Content, World}
use nodel_mcp.Files.Triple.{Triple, Triple-handle, Triple-throw, Triple-weaken, Triple-fact}
use nodel_mcp.Files.Triple.{Triple-trivial, Triple-if}
use nodel_mcp.Files.Laws.{Holds, contents}
use nodel_mcp.Files.Reads.{now_lem}
use nodel_mcp.Store.Writes.{atomic_write_lem}
use nodel_mcp.Approvals.{ApprovalDetails, StoredApproval, approvals_path, timing_safe_equal}
use nodel_mcp.Approvals.Effects.{saved, save_approvals, is_live, has_id, is_for}
use nodel_mcp.Approvals.Effects.{assert_write_approved, consume, judge_found, spend, report_missing}
use nodel_mcp.Approvals.Loading.{loaded, Loaded, load_approvals_lem}

module _ (p : Platform) (config : AppConfig) where
  abbrev path : Text
  path = approvals_path config

  timing_safe_equal→eq :
      (a b : Text) → timing_safe_equal p a b ≡ true → to_well_formed a ≡ to_well_formed b
  unfolding timing_safe_equal
  timing_safe_equal→eq a b h = sha256-injective p a b ((text_eq_iff _ _).0 h)

  -- Two proposals with one operation, one target and one hash, as UTF-8 has them.
  pub record SameDetails (c d : ApprovalDetails) : Type 0 where
    pub operation : to_well_formed c.operation ≡ to_well_formed d.operation
    pub target : to_well_formed c.target ≡ to_well_formed d.target
    pub proposal_hash : to_well_formed c.proposal_hash ≡ to_well_formed d.proposal_hash

  is_for→eq :
      (d : ApprovalDetails) (a : StoredApproval)
      → is_for p config d a ≡ true
      → SameDetails a.details d
  unfolding is_for
  is_for→eq d a h =
      let (o, t, k) =
        and₃ (timing_safe_equal p a.operation d.operation) (timing_safe_equal p a.target d.target)
          (timing_safe_equal p a.proposal_hash d.proposal_hash) h in
      record {
        operation = timing_safe_equal→eq a.operation d.operation o;
        target = timing_safe_equal→eq a.target d.target t;
        proposal_hash = timing_safe_equal→eq a.proposal_hash d.proposal_hash k;
      }

  -- What a passed check rests on: `v` is what the file held, `t` the time, `w` the world afterwards.
  pub record Spent (v : Option Content) (t : ℕ) (id : Text) (details : ApprovalDetails) (w : World)
      : Type 0 where
    pub stored : List StoredApproval
    pub kept : Option Content
    pub approval : StoredApproval
    pub read : loaded p config v ≡ some (stored, kept)
    pub found : find (has_id p config id) (keep (is_live p config t) stored) ≡ some approval
    pub same_id : to_well_formed approval.id ≡ to_well_formed id
    pub same_details : SameDetails approval.details details
    pub left :
        Holds path
          (some (saved (drop_first (has_id p config id) (keep (is_live p config t) stored))))
          w

  spend_lem :
      (v : Option Content) (t : ℕ) (id : Text) (d : ApprovalDetails) (bs : List StoredApproval)
      (c : Option Content) (a : StoredApproval)
      → loaded p config v ≡ some (bs, c)
      → find (has_id p config id) (keep (is_live p config t) bs) ≡ some a
      → Triple
          (λ _. Unit {0})
          (spend p config id d (keep (is_live p config t) bs) a)
          (λ _. Spent v t id d)
          (λ _ _. Unit {0})
  unfolding spend save_approvals
  spend_lem v t id d bs c a read found = elim (Bool-cases (is_for p config d a)) [
    | inl good ↦ rw good (
        Triple-weaken
          (atomic_write_lem path
            (saved (drop_first (has_id p config id) (keep (is_live p config t) bs)))
            (λ _. Unit {0}))
          (λ w h. h)
          (λ _ w h. record {
            stored = bs;
            kept = c;
            approval = a;
            read = read;
            found = found;
            same_id = timing_safe_equal→eq a.id id (find_passes (has_id p config id) _ found);
            same_details = is_for→eq d a good;
            left = h;
          })
          (λ _ w h. h))
    | inr bad ↦ rw bad (Triple-throw (public_error conflict) (λ w h. tt))
  ]

  consume_lem :
      (v : Option Content) (t : ℕ) (id : Text) (d : ApprovalDetails) (bs : List StoredApproval)
      (c : Option Content)
      → loaded p config v ≡ some (bs, c)
      → (o : Option StoredApproval) → find (has_id p config id) (keep (is_live p config t) bs) ≡ o
      → Triple
          (λ _. Unit {0})
          (judge_found p config id d bs (keep (is_live p config t) bs) o)
          (λ _. Spent v t id d)
          (λ _ _. Unit {0})
  unfolding report_missing
  consume_lem v t id d bs c read none found =
      Triple-handle (Triple-trivial _ _) (λ e. Triple-throw e (λ w h. tt))
        (λ _. Triple-throw (public_error approval_required) (λ w h. tt))
  consume_lem v t id d bs c read (some a) found = spend_lem v t id d bs c a read found

  known :
      (v : Option Content) (t : ℕ) (id : Text) (d : ApprovalDetails) (bs : List StoredApproval)
      → Triple
          (Loaded p config v bs)
          (consume p config id d t bs)
          (λ _. Spent v t id d)
          (λ _ _. Unit {0})
  unfolding consume
  known v t id d bs = record {
    at = λ w h. (consume_lem v t id d bs (contents path w) h _ refl).at w tt;
  }

  -- Where approval is required, `assertWriteApproved` passes only by an approval that the file holds,
  -- that has not expired, and that was granted under this id for this operation, target and proposal
  -- hash, where texts are the same if they are once lone surrogates are U+FFFD; the file then holds
  -- the other live approvals. Whatever fails, and whatever the file was.
  pub assert_write_approved_spends :
      (v : Option Content) (t : ℕ) (id : Text) (d : ApprovalDetails)
      → config.write_approval_required ≡ true
      → Triple
          (λ w. (w.clock ≡ t) × Holds path v w)
          (assert_write_approved p config d (some id))
          (λ _. Spent v t id d)
          (λ _ _. Unit {0})
  unfolding assert_write_approved
  assert_write_approved_spends v t id d required =
      Triple-if config.write_approval_required
        (λ _.
          Triple-if (is_empty id) (λ _. Triple-throw (public_error approval_required) (λ w h. tt))
            (λ _.
              Triple-handle (now_lem (Holds path v) t) (λ e. Triple-throw e (λ w h. tt))
                λ t'. Triple-fact λ same.
                  Triple-handle (load_approvals_lem p config v) (λ e. Triple-throw e (λ w h. tt))
                    λ bs. rw same (known v t id d bs)))
        (λ optional. cc)

  -- No two stored approvals share an id.
  abbrev pub HasDistinctIds : List StoredApproval → Type 0
  HasDistinctIds [] = Unit
  HasDistinctIds (a ∷ bs) = All (λ b. has_id p config a.id b ≡ false) bs × HasDistinctIds bs

  pub has_id_of_eq :
      (x y : Text) (bs : List StoredApproval)
      → timing_safe_equal p x y ≡ true
      → All (λ b. has_id p config x b ≡ false) bs
      → All (λ b. has_id p config y b ≡ false) bs
  unfolding timing_safe_equal
  has_id_of_eq x y [] e h = tt
  has_id_of_eq x y (b ∷ bs) e h = (
    ground (
      arith,
      text_eq_iff (sha256 p x) (sha256 p y),
      text_eq_iff (sha256 p b.id) (sha256 p x),
      text_eq_iff (sha256 p b.id) (sha256 p y),
    ),
    has_id_of_eq x y bs e h.1,
  )

  -- Once the approval with an id is taken out, none has that id.
  pub drop_first_clears :
      (id : Text) (bs : List StoredApproval)
      → HasDistinctIds bs
      → All (λ b. has_id p config id b ≡ false) (drop_first (has_id p config id) bs)
  drop_first_clears id [] h = tt
  drop_first_clears id (a ∷ bs) h = elim (Bool-cases (has_id p config id a)) [
    | inl here ↦ rw here (has_id_of_eq a.id id bs here h.0)
    | inr later ↦ rw later (later, drop_first_clears id bs h.1)
  ]

  pub HasDistinctIds-keep :
      (q : StoredApproval → Bool) (bs : List StoredApproval)
      → HasDistinctIds bs
      → HasDistinctIds (keep q bs)
  HasDistinctIds-keep q [] h = tt
  HasDistinctIds-keep q (a ∷ bs) h = elim (Bool-cases (q a)) [
    | inl in_ ↦ rw in_ (All-keep _ q bs h.0, HasDistinctIds-keep q bs h.1)
    | inr out ↦ rw out (HasDistinctIds-keep q bs h.1)
  ]
