-- ===== src/Writes/Barred.antt =====
-- src/domain/config/writes.ts: calls that must not change the host.
use nodel_mcp.Base.{
  ◌≡◌, refl, Bool, true, false, ◌&&◌, ◌||◌, not, Option, or_else, Text, is_empty, arith, [],
  text_eq, Bool-cases, inl, inr, ◌⊎◌, if◌then◌else◌,
}
use nodel_mcp.Values.{Value}
use nodel_mcp.Config.{AppConfig}
use nodel_mcp.Files.{World}
use nodel_mcp.Policy.{assert_writes_enabled}
use nodel_mcp.Plans.{ConfigPlan}
use nodel_mcp.Approvals.{ApprovalDetails}
use nodel_mcp.Approvals.Effects.{assert_write_approved}
use nodel_mcp.Writes.{Tool, Fault, proceed, ◌>>=◌, run, lift}
use nodel_mcp.Writes.Requests.{ActionRequest}
use nodel_mcp.Writes.Tools.{
  Reads, Changes, Services, Node, ParametersInput, ActionInput, set_parameters, call_action,
  commit_parameters, commit_action,
}

-- A dry run, writes that are not enabled, or a required approval without an id.
abbrev pub is_barred : AppConfig → Bool → Option Text → Bool
is_barred config is_dry_run approval_id =
    is_dry_run
    || (not config.writes_enabled
        || (config.write_approval_required && is_empty (or_else approval_id [])))

proceed_same :
    {A B : Type 0} (r : Fault ⊎ A) (k k' : A → Tool B) (w : World)
    → ((a : A) (v : World) → k a v ≡ k' a v)
    → proceed r k w ≡ proceed r k' w
proceed_same (inl f) k k' w h = refl
proceed_same (inr a) k k' w h = h a w

-- Two actions do the same in every world.
pub record Same {A : Type 0} (m m' : Tool A) : Type 0 where
  pub at : (w : World) → m w ≡ m' w

Same-bind :
    {A B : Type 0} (m : Tool A) (k k' : A → Tool B)
    → ((a : A) → Same (k a) (k' a))
    → Same (m >>= k) (m >>= k')
unfolding ◌>>=◌
Same-bind m k k' h = record {
  at = λ w. let (r, v) = m w in proceed_same r k k' v (λ a u. (h a).at u);
}

Same-self : {A : Type 0} (m : Tool A) → Same m m
Same-self m = record { at = λ w. refl }

-- The branch of a call that goes on past the plan.
Same-branch :
    {A : Type 0} (b : Bool) (n m m' : Tool A)
    → (b ≡ false → Same m m')
    → Same (if b then n else m) (if b then n else m')
Same-branch true n m m' h = Same-self n
Same-branch false n m m' h = h refl

module _ (env : Services) (config : AppConfig) (reads : Reads) (c c' : Changes) where
  -- Past the dry run, one of the two checks throws.
  abbrev IsRefused : Option Text → Type 0
  IsRefused approval_id =
      (config.writes_enabled ≡ false)
      ⊎ ((config.write_approval_required ≡ true) × (is_empty (or_else approval_id []) ≡ true))

  checks-Same :
      {B : Type 0} (details : ApprovalDetails) (approval_id : Option Text) (k k' : Tool B)
      → IsRefused approval_id
      → Same
          (lift (assert_writes_enabled config) >>= λ _.
            run (assert_write_approved env.platform config details approval_id) >>= λ _. k)
          (lift (assert_writes_enabled config) >>= λ _.
            run (assert_write_approved env.platform config details approval_id) >>= λ _. k')
  unfolding ◌>>=◌ run assert_writes_enabled assert_write_approved
  checks-Same details approval_id k k' (inl e) = record { at = λ w. rw e refl }
  checks-Same details approval_id k k' (inr (r, e)) = elim (Bool-cases config.writes_enabled) [
    | inl on ↦ record { at = λ w. rw (on, r, e) refl }
    | inr off ↦ record { at = λ w. rw off refl }
  ]

  commit_parameters-Same :
      (input : ParametersInput) (node : Node) (current : Value) (planned : ConfigPlan)
      (details : ApprovalDetails)
      → IsRefused input.approval_id
      → Same
          (commit_parameters env config reads c input node current planned details)
          (commit_parameters env config reads c' input node current planned details)
  unfolding commit_parameters
  commit_parameters-Same input node current planned details h =
      checks-Same details input.approval_id _ _ h

  commit_action-Same :
      (input : ActionInput) (node : Node) (action : Text) (request : ActionRequest)
      (details : ApprovalDetails)
      → IsRefused input.approval_id
      → Same
          (commit_action env config reads c input node action request details)
          (commit_action env config reads c' input node action request details)
  unfolding commit_action
  commit_action-Same input node action request details h =
      checks-Same details input.approval_id _ _ h

  -- Where the call is no dry run, what bars it is one of the checks.
  barred-IsRefused :
      (is_dry_run : Bool) (approval_id : Option Text)
      → is_barred config is_dry_run approval_id ≡ true
      → is_dry_run ≡ false
      → IsRefused approval_id
  barred-IsRefused is_dry_run approval_id h e = elim (Bool-cases config.writes_enabled) [
    | inr off ↦ inl off
    | inl on ↦ inr (ground arith)
  ]

  -- A call of setParameters that is a dry run, or is made while writes are not enabled, or without an
  -- approval id where approval is required, does the same whatever the host would do to save
  -- parameters, so it never has it saved; and so with callAction and the call of an action.
  pub barred-Same :
      (i : ParametersInput) (a : ActionInput)
      → is_barred config i.is_dry_run i.approval_id ≡ true
      → is_barred config a.is_dry_run a.approval_id ≡ true
      → Same (set_parameters env config reads c i) (set_parameters env config reads c' i)
        × Same (call_action env config reads c a) (call_action env config reads c' a)
  unfolding set_parameters call_action
  barred-Same i a hi ha = (
    Same-bind _ _ _ λ node. Same-bind _ _ _ λ current. Same-bind _ _ _ λ planned.
        Same-bind _ _ _ λ details.
          Same-branch (text_eq planned.current_hash planned.next_hash) _ _ _ λ _.
            Same-branch i.is_dry_run _ _ _ λ e.
              commit_parameters-Same i node current planned details
                (barred-IsRefused i.is_dry_run i.approval_id hi e),
    Same-bind _ _ _ λ node. Same-bind _ _ _ λ actions. Same-bind _ _ _ λ action.
        Same-bind _ _ _ λ request. Same-bind _ _ _ λ details. Same-branch a.is_dry_run _ _ _ λ e.
          commit_action-Same a node action request details
            (barred-IsRefused a.is_dry_run a.approval_id ha e),
  )
