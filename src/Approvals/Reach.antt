-- ===== src/Approvals/Reach.antt =====
-- The approvals file over any sequence of operations.
use nodel_mcp.Base.{ℕ, ◌≡◌, ◌≢◌, refl, sym, subst, Bool, true, false, not, Option, none, some}
use nodel_mcp.Base.{List, [], Text, any, keep, arith, Result, ok, err}
use nodel_mcp.Base.{
  Error, length, is_empty, or_else, public_error, guard, find, ◌==◌, state, conflict,
}
use nodel_mcp.Base.{approval_required}
use nodel_mcp.Platform.{Platform}
use nodel_mcp.Config.{AppConfig}
use nodel_mcp.Files.{World, lift, now, random_uuid}
use nodel_mcp.Files.Triple.{Triple, Keeps, Triple-handle, Triple-throw}
use nodel_mcp.Files.Triple.{Triple-fact, Triple-if, Keeps-bind, Keeps-throw, Keeps-pure, Keeps-end}
use nodel_mcp.Files.Laws.{contents, Keeps-random_uuid_of}
use nodel_mcp.Approvals.{ApprovalDetails, StoredApproval, approvals_path}
use nodel_mcp.Approvals.Effects.{is_live, has_id}
use nodel_mcp.Approvals.Effects.{
  check_request, approve_write, assert_write_approved, consume, spend,
}
use nodel_mcp.Approvals.Effects.{report_missing, judge_found, is_for}
use nodel_mcp.Approvals.Consume.{HasDistinctIds, HasDistinctIds-keep}
use nodel_mcp.Approvals.Once.{assert_write_approved_once, IsSoundAt}
use nodel_mcp.Approvals.Invariant.{IsSound, IsSoundAt-none, load-IsSound, save-IsSound}
use nodel_mcp.Approvals.Invariant.{HasDistinctIds-append, HasDistinctIds-drop_first}

pub Keeps-lift : {P : World → Type 0} (r : Result (Unit {0})) → Keeps P (lift r)
Keeps-lift (ok a) = Keeps-pure a
Keeps-lift (err e) = Keeps-throw e

pub lift-guard :
    {P : World → Type 0} (b : Bool) (e : Error)
    → Triple P (lift (guard b e)) (λ _ w. (b ≡ true) × P w) (λ _. P)
lift-guard true e = record { at = λ w h. (refl, h) }
lift-guard false e = record { at = λ w h. h }

pub not-eq-true : (b : Bool) → not b ≡ true → b ≡ false
not-eq-true b h = ground arith

module _ (p : Platform) (config : AppConfig) where
  abbrev path : Text
  path = approvals_path config

  Keeps-now : Keeps (IsSound p config) now
  unfolding now
  Keeps-now = record { at = λ w h. h }

  Keeps-random_uuid : Keeps (IsSound p config) random_uuid
  unfolding contents
  Keeps-random_uuid = Keeps-random_uuid_of (IsSound p config) (λ w us h. h)

  Keeps-check_request :
      (d : ApprovalDetails) (provided : Text) (reason approved_by : Option Text)
      → Keeps (IsSound p config) (check_request p config d provided reason approved_by)
  unfolding check_request
  Keeps-check_request d provided reason approved_by = search (Keeps-bind, Keeps-lift) depth 20

  -- `approveWrite` keeps the ids distinct, whatever fails.
  approve_write-IsSound :
      (d : ApprovalDetails) (provided : Text) (reason approved_by : Option Text)
      → Keeps (IsSound p config) (approve_write p config d provided reason approved_by)
  unfolding approve_write
  approve_write-IsSound d provided reason approved_by =
      Keeps-bind (Keeps-check_request d provided reason approved_by) λ _. Keeps-bind Keeps-now λ t.
        Triple-handle (load-IsSound p config) (λ e. Triple-throw e (λ w h. h))
          λ bs. Triple-fact λ distinct. Keeps-bind Keeps-random_uuid λ id.
            Triple-handle
              (lift-guard (not (any (has_id p config id) (keep (is_live p config t) bs)))
                (public_error state))
              (λ e. Triple-throw e (λ w h. h))
              λ _. Triple-fact λ fresh.
                Keeps-bind
                  (save-IsSound p config _ (
                    HasDistinctIds-append p config (keep (is_live p config t) bs) _
                      (not-eq-true _ fresh) (HasDistinctIds-keep p config _ bs distinct)))
                  (λ _. Keeps-pure _)

  found-IsSound :
      (id : Text) (d : ApprovalDetails) (stored bs : List StoredApproval)
      → HasDistinctIds p config bs
      → (o : Option StoredApproval)
      → Keeps (IsSound p config) (judge_found p config id d stored bs o)
  unfolding report_missing spend
  found-IsSound id d stored bs h none =
      Keeps-bind
        (Triple-if (length bs == length stored) (λ _. Keeps-pure tt)
          (λ _. save-IsSound p config bs h))
        (λ _. Keeps-throw (public_error approval_required))
  found-IsSound id d stored bs h (some a) =
      Triple-if (is_for p config d a)
        (λ _.
          save-IsSound p config _ (HasDistinctIds-drop_first p config (has_id p config id) bs h))
        (λ _. Keeps-throw (public_error conflict))

  consume-IsSound :
      (id : Text) (d : ApprovalDetails) (t : ℕ) (bs : List StoredApproval)
      → HasDistinctIds p config bs
      → Keeps (IsSound p config) (consume p config id d t bs)
  unfolding consume
  consume-IsSound id d t bs h =
      found-IsSound id d bs (keep (is_live p config t) bs)
        (HasDistinctIds-keep p config (is_live p config t) bs h)
        (find (has_id p config id) (keep (is_live p config t) bs))

  -- So does `assertWriteApproved`.
  assert_write_approved-IsSound :
      (d : ApprovalDetails) (id : Option Text)
      → Keeps (IsSound p config) (assert_write_approved p config d id)
  unfolding assert_write_approved
  assert_write_approved-IsSound d id =
      Triple-if config.write_approval_required
        (λ _.
          Triple-if (is_empty (or_else id [])) (λ _. Keeps-throw (public_error approval_required))
            (λ _. Keeps-bind Keeps-now λ t.
              Triple-handle (load-IsSound p config) (λ e. Triple-throw e (λ w h. h))
                λ bs. Triple-fact (λ distinct. consume-IsSound (or_else id []) d t bs distinct)))
        (λ _. Keeps-pure tt)

  -- What can happen: an approval is granted or refused, a check passes or fails, or anything else
  -- goes on that leaves the approvals file alone, time and other files included.
  pub data Step : World → World → Type 0 where
    approves :
        (d : ApprovalDetails) (provided : Text) (reason approved_by : Option Text) (w : World)
        → Step w (approve_write p config d provided reason approved_by w).1
    checks :
        (d : ApprovalDetails) (id : Option Text) (w : World)
        → Step w (assert_write_approved p config d id w).1
    elsewhere : {w w' : World} → contents path w' ≡ contents path w → Step w w'

  pub data Reach (s : World) : World → Type 0 where
    here : Reach s s
    next : {t u : World} → Reach s t → Step t u → Reach s u

  Step-IsSound : {w w' : World} → Step w w' → IsSound p config w → IsSound p config w'
  Step-IsSound (approves d provided reason approved_by w) h =
      Keeps-end (approve_write-IsSound d provided reason approved_by) w h
  Step-IsSound (checks d id w) h = Keeps-end (assert_write_approved-IsSound d id) w h
  Step-IsSound (elsewhere same) h = subst (IsSoundAt p config) (sym same) h

  -- From a state directory without approvals, every world that the operations reach, failed ones
  -- included, holds approvals with distinct ids.
  pub Reach-IsSound : {s w : World} → contents path s ≡ none → Reach s w → IsSound p config w
  Reach-IsSound empty here = subst (IsSoundAt p config) (sym empty) (IsSoundAt-none p config)
  Reach-IsSound empty (next r st) = Step-IsSound st (Reach-IsSound empty r)

  -- So in every such world a check passes at most once by one approval.
  pub Reach-once :
      (id : Text) (d d' : ApprovalDetails) (s w u : World)
      → config.write_approval_required ≡ true
      → contents path s ≡ none
      → Reach s w
      → (assert_write_approved p config d (some id) w).0 ≡ ok tt
      → contents path u ≡ contents path (assert_write_approved p config d (some id) w).1
      → (assert_write_approved p config d' (some id) u).0 ≢ ok tt
  Reach-once id d d' s w u required empty r =
      assert_write_approved_once p config id d d' w u required (Reach-IsSound empty r)
