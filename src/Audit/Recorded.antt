-- ===== src/Audit/Recorded.antt =====
-- src/state/audit.ts: the records around a change of the remote host.
use nodel_mcp.Base.{
  ℕ, suc, ◌≡◌, refl, ◌∙◌, ap, subst, true, Option, List, [], ◌∷◌, Text, codes, inl, inr, ◌⊎◌,
  Result, ok, err, drop,
}
use nodel_mcp.Values.{Value, text, Fields, get, put}
use nodel_mcp.Values.Keys.{HasDistinctKeys}
use nodel_mcp.Config.{AppConfig}
use nodel_mcp.Files.{World}
use nodel_mcp.Files.Triple.{Triple, Post, Triple-weaken}
use nodel_mcp.Messages.{folded, behind}
use nodel_mcp.Messages.Words.{IsWord}
use nodel_mcp.Audit.{sanitized, AuditOutcome, attempted, succeeded, outcome_text, is_sensitive}
use nodel_mcp.Audit.Log.{Measure, audit_path, audit_record, audit_write}
use nodel_mcp.Audit.Mutation.{
  RemoteError, Mutation, done, not_started, unrecorded, unresolved, remote_failed, post_side_effect,
  with_outcome, with_error, outcome_of, record_end, audited_with, audited_mutation, after_success,
  after_failure, start,
}
use nodel_mcp.Audit.Views.{View, Shows}
use nodel_mcp.Audit.Records.{log, is_tidy, Extends}
use nodel_mcp.Audit.Refines.{audit_write_refines}
use nodel_mcp.Audit.Redacted.{
  sanitized-IsWord, outcome-IsWord, IsOnRecord, audit_record-get, with_error_fields,
  with_outcome_fields,
}

-- What a mutation reports is the last record, under what `shown` makes of the id.
abbrev IsReportedBy : {T : Type 0} → (Text → Text) → Text → ℕ → Mutation T → World → Type 0
IsReportedBy shown path files (done id x) w = IsOnRecord path files (shown id) succeeded w
IsReportedBy shown path files (remote_failed id e) w =
    IsOnRecord path files (shown id) (outcome_of e) w
IsReportedBy shown path files _ w = Unit

-- What a mutation reports is the last record, under its id.
abbrev pub IsReported : {T : Type 0} → Text → ℕ → Mutation T → World → Type 0
IsReported path files (done id x) w = IsOnRecord path files id succeeded w
IsReported path files (remote_failed id e) w = IsOnRecord path files id (outcome_of e) w
IsReported path files _ w = Unit

-- The id that a mutation reports, if it does, is a word of at most 500 letters, digits, dashes and
-- underscores, as a UUID is.
abbrev pub HasWordId : {T : Type 0} → Mutation T → Type 0
HasWordId (done id x) = IsWord id
HasWordId (remote_failed id e) = IsWord id
HasWordId _ = Unit

exact-IsReported :
    {T : Type 0} (path : Text) (files : ℕ) (r : Mutation T) (w : World)
    → HasWordId r
    → IsReportedBy (sanitized 2) path files r w
    → IsReported path files r w
exact-IsReported path files (done id x) w k h =
    subst (λ s. IsOnRecord path files s succeeded w) (sanitized-IsWord 2 id k) h
exact-IsReported path files (remote_failed id e) w k h =
    subst (λ s. IsOnRecord path files s (outcome_of e) w) (sanitized-IsWord 2 id k) h
exact-IsReported path files (not_started e) w k h = tt
exact-IsReported path files (unrecorded id) w k h = tt
exact-IsReported path files (unresolved id e) w k h = tt

module _ (m : Measure) (config : AppConfig) (request_id : Option Text) (n : ℕ)
    (few : config.audit_retention_files ≡ suc n) where
  path : Text
  path = audit_path config.state_dir

  write-IsOnRecord :
      (event : Fields) (f : View) (id : Text) (o : AuditOutcome)
      → is_tidy (f 0) ≡ true
      → HasDistinctKeys event
        × (get (codes "operationId") event ≡ text id)
        × (get (codes "outcome") event ≡ text (outcome_text o))
      → Triple
          (Shows path f)
          (audit_write m config request_id event)
          (λ _. IsOnRecord path (suc n) (sanitized 2 id) o)
          (λ _ _. Unit {0})
  unfolding path is_sensitive folded behind
  write-IsOnRecord event f id o tidy d =
      Triple-weaken (audit_write_refines m config request_id event n f few tidy) (λ w h. h)
        (λ id' w h.
          let x = h.1 in
          record {
            view = x.view;
            before = drop x.forgotten (log (suc n) f);
            last = audit_record m h.0 id' request_id event;
            shows = x.shows;
            tidy = x.tidy;
            at_end = x.kept;
            operation_id =
                audit_record-get m h.0 id' request_id event (codes "operationId") id d.0 refl d.1;
            outcome =
                audit_record-get m h.0 id' request_id event (codes "outcome") (outcome_text o) d.0
                  refl d.2
                ∙ ap text (sanitized-IsWord 2 (outcome_text o) (outcome-IsWord o));
          })
        (λ _ w h. tt)

  module _ (T : Type 0) (event : Fields) (d : HasDistinctKeys event) where
    success-IsReported :
        (id : Text) (result : T) (r : Result Text) (w : World)
        → Post (λ _. IsOnRecord path (suc n) (sanitized 2 id) succeeded) (λ _ _. Unit {0}) (r, w)
        → IsReportedBy (sanitized 2) path (suc n) (after_success id result r) w
    unfolding after_success
    success-IsReported id result (ok _) w h = h
    success-IsReported id result (err _) w h = h

    failure-IsReported :
        (id : Text) (e : RemoteError) (r : Result Text) (w : World)
        → Post
            (λ _. IsOnRecord path (suc n) (sanitized 2 id) (outcome_of e))
            (λ _ _. Unit {0})
            (r, w)
        → IsReportedBy {T = T} (sanitized 2) path (suc n) (after_failure id e r) w
    unfolding after_failure
    failure-IsReported id e (ok _) w h = h
    failure-IsReported id e (err _) w h = h

    end-IsReported :
        (f : View) (id : Text) (r : T ⊎ RemoteError) (w : World)
        → is_tidy (f 0) ≡ true
        → Shows path f w
        → let (x, v) = record_end (audit_write m config request_id) event id r w in
          IsReportedBy (sanitized 2) path (suc n) x v
    unfolding record_end
    end-IsReported f id (inl result) w t s =
        let (r, v) = audit_write m config request_id (with_outcome event id succeeded) w in
        success-IsReported id result r v (
          (write-IsOnRecord (with_outcome event id succeeded) f id succeeded t
              (with_outcome_fields event id succeeded d)).at
            w s)
    end-IsReported f id (inr (post_side_effect id')) w t s = tt
    end-IsReported f id (inr e) w t s =
        let (r, v) = audit_write m config request_id (with_error event id e) w in
        failure-IsReported id e r v (
          (write-IsOnRecord (with_error event id e) f id (outcome_of e) t
              (with_error_fields event id e d)).at
            w s)

    -- After the first record the audit files are in order.
    begun-IsReported :
        (remote : World → (T ⊎ RemoteError) × World)
        → ((g : View) (v : World) → Shows path g v → Shows path g (remote v).1)
        → (f : View) (added : Text → ℕ → List Value) (r : Result Text) (w : World)
        → Post (λ id v. (t : ℕ) × Extends path (suc n) f (added id t) v) (λ _ _. Unit {0}) (r, w)
        → let (x, v) = start (audit_write m config request_id) event r remote w in
          IsReportedBy (sanitized 2) path (suc n) x v
    begun-IsReported remote k f added (err e) w h = tt
    begun-IsReported remote k f added (ok id) w h =
        let (r, v) = remote w in end-IsReported h.1.view id r v h.1.tidy (k h.1.view w h.1.shows)

    -- From audit files whose active one ends with a whole line, and for remote code that leaves the
    -- audit files alone: a mutation that returns its result has `succeeded` on record, and one that
    -- throws the remote error has on record `ambiguous` where this error leaves open whether the
    -- change was made, and `failed` otherwise; the record is the last one of the audit files, under
    -- the id of the operation. The id is one of letters, digits, dashes and underscores, at most 500.
    pub audited_mutation-IsReported :
        (remote : World → (T ⊎ RemoteError) × World)
        → ((g : View) (v : World)
            → Shows (audit_path config.state_dir) g v
            → Shows (audit_path config.state_dir) g (remote v).1)
        → (f : View) (w : World) → is_tidy (f 0) ≡ true
        → Shows (audit_path config.state_dir) f w
        → HasWordId (audited_mutation m config request_id event remote w).0
        → IsReported
            (audit_path config.state_dir)
            (suc n)
            (audited_mutation m config request_id event remote w).0
            (audited_mutation m config request_id event remote w).1
    unfolding audited_mutation audited_with path
    audited_mutation-IsReported remote k f w tidy s word =
        let first = put (codes "outcome") (text (outcome_text attempted)) event in
        let (r, v) = audit_write m config request_id first w in
        let (x, u) = start (audit_write m config request_id) event r remote v in
        exact-IsReported path (suc n) x u word (
          begun-IsReported remote k f (λ id t. audit_record m t id request_id first ∷ []) r v
            ((audit_write_refines m config request_id first n f few tidy).at w s))
