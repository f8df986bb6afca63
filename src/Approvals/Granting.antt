-- ===== src/Approvals/Granting.antt =====
-- What an approval is granted for.
use nodel_mcp.Base.{
  ℕ, ◌≡◌, refl, Bool, true, false, Option, some, List, [], ◌∷◌, ◌++◌, Text, any, keep, Result, ok,
  err, Error, public_error,
}
use nodel_mcp.Base.{policy, approval_required, state, guard}
use nodel_mcp.Platform.{Platform}
use nodel_mcp.Config.{AppConfig}
use nodel_mcp.Files.{World, Content, Exec, ◌>>=◌, lift, random_uuid}
use nodel_mcp.Files.Triple.{
  Triple, Triple-handle, Triple-throw, Triple-pure, Triple-fact, Triple-weaken, Triple-trivial,
  Keeps,
}
use nodel_mcp.Files.Laws.{Holds, contents}
use nodel_mcp.Files.Reads.{now_lem}
use nodel_mcp.Store.Writes.{atomic_write_lem}
use nodel_mcp.Approvals.{
  ApprovalDetails, StoredApproval, approvals_path, confirm_text, timing_safe_equal,
  assert_approval_details,
}
use nodel_mcp.Approvals.Effects.{
  is_live, has_id, check_request, approve_write, new_approval, saved, save_approvals,
  load_approvals, Receipt,
}
use nodel_mcp.Approvals.Loading.{loaded, load_approvals_lem}
use nodel_mcp.Approvals.Reach.{Keeps-lift, lift-guard, not-eq-true}

-- Any error is possible.
after_keep :
    {A B : Type 0} {P : World → Type 0} {Q : B → World → Type 0} {m : Exec A} {k : A → Exec B}
    → Keeps P m
    → ((a : A) → Triple P (k a) Q (λ _ _. Unit {0}))
    → Triple P (m >>= k) Q (λ _ _. Unit {0})
after_keep m f = Triple-handle m (λ e. Triple-throw e (λ w h. tt)) f

after_guard :
    {B : Type 0} {P : World → Type 0} {Q : B → World → Type 0} (b : Bool) (e : Error) {k : Exec B}
    → (b ≡ true → Triple P k Q (λ _ _. Unit {0}))
    → Triple P (lift (guard b e) >>= λ _. k) Q (λ _ _. Unit {0})
after_guard b e f =
    Triple-handle (lift-guard b e) (λ x. Triple-throw x (λ w h. tt)) (λ _. Triple-fact f)

lift_fact :
    {P : World → Type 0} {X : Type 0} (r : Result (Unit {0}))
    → X
    → Triple P (lift r) (λ _ w. X × P w) (λ _ _. Unit {0})
lift_fact (ok a) x = record { at = λ w h. (x, h) }
lift_fact (err e) x = record { at = λ w h. tt }

module _ (p : Platform) (config : AppConfig) where
  abbrev path : Text
  path = approvals_path config

  -- What a receipt stands for: writes are enabled, the confirmation was given, the file held what was
  -- loaded, and now holds the live approvals and the new one, whose id none of them has.
  pub record IsGranted (v : Option Content) (t : ℕ) (d : ApprovalDetails) (provided : Text)
      (reason approved_by : Option Text) (r : Receipt) (w : World) : Type 0 where
    pub stored : List StoredApproval
    pub kept : Option Content
    pub read : loaded p config v ≡ some (stored, kept)
    pub is_enabled : config.writes_enabled ≡ true
    pub is_confirmed : timing_safe_equal p provided (confirm_text d.proposal_hash) ≡ true
    pub is_new : any (has_id p config r.approval_id) (keep (is_live p config t) stored) ≡ false
    pub details : r.details ≡ d
    pub left :
        contents path w
        ≡ some (
            saved (
              keep (is_live p config t) stored
              ++ (new_approval p config d reason approved_by t r.approval_id ∷ [])))

  check_lem :
      {P : World → Type 0} (d : ApprovalDetails) (provided : Text)
      (reason approved_by : Option Text)
      → Triple P
          (check_request p config d provided reason approved_by)
          (λ _ w.
            ((config.writes_enabled ≡ true)
              × (timing_safe_equal p provided (confirm_text d.proposal_hash) ≡ true))
            × P w)
          (λ _ _. Unit {0})
  unfolding check_request
  check_lem d provided reason approved_by =
      after_guard config.writes_enabled (public_error policy) λ enabled.
        after_keep (Keeps-lift _) λ _. after_keep (Keeps-lift _) λ _. after_keep (Keeps-lift _) λ _.
          after_keep (Keeps-lift _) λ _.
            after_guard _ (public_error approval_required)
              λ confirmed. lift_fact (assert_approval_details d) (enabled, confirmed)

  -- What was loaded, as a fact.
  load_fact :
      (v : Option Content)
      → Triple
          (Holds path v)
          (load_approvals p config)
          (λ bs w. ((kept : Option Content) × (loaded p config v ≡ some (bs, kept))) × Unit {0})
          (λ _ _. Unit {0})
  load_fact v =
      Triple-weaken (load_approvals_lem p config v) (λ w h. h)
        (λ bs w h. ((contents path w, h), tt)) (λ e w h. tt)

  -- An approval is only granted where writes are enabled and the confirmation text of the proposal was
  -- given; the file then holds the approvals that were loaded and have not expired, and the new one, for
  -- this operation, target and hash, under an id that none of the others has. Whatever fails, and
  -- whatever the file was.
  pub approve_write_grants :
      (v : Option Content) (t : ℕ) (d : ApprovalDetails) (provided : Text)
      (reason approved_by : Option Text)
      → Triple
          (λ w. (w.clock ≡ t) × Holds path v w)
          (approve_write p config d provided reason approved_by)
          (λ r. IsGranted v t d provided reason approved_by r)
          (λ _ _. Unit {0})
  unfolding approve_write save_approvals
  approve_write_grants v t d provided reason approved_by =
      Triple-handle (check_lem d provided reason approved_by) (λ e. Triple-throw e (λ w h. tt))
        λ _. Triple-fact λ checked.
          Triple-handle (now_lem (Holds path v) t) (λ e. Triple-throw e (λ w h. tt))
            λ t'. Triple-fact λ at_t.
              Triple-handle (load_fact v) (λ e. Triple-throw e (λ w h. tt))
                λ stored. Triple-fact λ read.
                  Triple-handle (Triple-trivial (λ _. Unit {0}) random_uuid)
                    (λ e. Triple-throw e (λ w h. tt))
                    λ id. after_guard _ (public_error state) λ fresh.
                      Triple-handle (atomic_write_lem path _ (λ _. Unit {0}))
                        (λ e. Triple-throw e (λ w h. tt))
                        λ _. Triple-pure _ λ w held. record {
                          stored = stored;
                          kept = read.0;
                          read = read.1;
                          is_enabled = checked.0;
                          is_confirmed = checked.1;
                          is_new = rw (← at_t) (not-eq-true _ fresh);
                          details = refl;
                          left = rw (← at_t) held;
                        }
