-- ===== src/Audit/Redacted.antt =====
-- src/state/audit.ts: what redaction leaves of the record of an event.
use nodel_mcp.Base.{
  ℕ, zero, suc, ap, ◌≡◌, refl, ◌∙◌, true, false, Option, List, [], ◌∷◌, ◌++◌, Text, codes, text_eq,
  text_eq_iff, arith, Bool-cases, inl, inr,
}
use nodel_mcp.Values.{Value, text, Fields, end, field, get, has_own, put, prop}
use nodel_mcp.Values.Keys.{
  HasDistinctKeys, IsFresh, HasDistinctKeys-put, get-put, get-put_all-entries,
}
use nodel_mcp.Files.{World}
use nodel_mcp.Messages.{folded}
use nodel_mcp.Audit.{
  AuditOutcome, attempted, succeeded, failed, ambiguous, outcome_text, redact_fields, sanitized,
  is_sensitive,
}
use nodel_mcp.Messages.{sanitize_sensitive_message}
use nodel_mcp.Messages.Words.{IsWord, is_word, sanitize-IsWord}
use nodel_mcp.Audit.Log.{Measure, audit_record}
use nodel_mcp.Audit.Mutation.{RemoteError, with_outcome, with_error, outcome_of}
use nodel_mcp.Audit.Views.{View, Shows}
use nodel_mcp.Audit.Records.{log, is_tidy}

has_own-redact : (n : ℕ) (k : Text) (fs : Fields) → has_own k (redact_fields n fs) ≡ has_own k fs
unfolding has_own redact_fields
has_own-redact n k end = refl
has_own-redact n k (field j v fs) = ground (arith, has_own-redact n k fs)

IsFresh-redact : (n : ℕ) (k : Text) (fs : Fields) → IsFresh k fs → IsFresh k (redact_fields n fs)
unfolding redact_fields
IsFresh-redact n k end h = tt
IsFresh-redact n k (field j v fs) h = (h.0, IsFresh-redact n k fs h.1)

HasDistinctKeys-redact :
    (n : ℕ) (fs : Fields) → HasDistinctKeys fs → HasDistinctKeys (redact_fields n fs)
unfolding redact_fields
HasDistinctKeys-redact n end h = tt
HasDistinctKeys-redact n (field k v fs) h =
    (IsFresh-redact n k fs h.0, HasDistinctKeys-redact n fs h.1)

-- A text under a key that is not sensitive.
get-redact :
    (n : ℕ) (k s : Text) (fs : Fields)
    → is_sensitive (folded k) ≡ false
    → get k fs ≡ text s
    → (get k (redact_fields n fs) ≡ text (sanitized (suc (suc n)) s)) × (has_own k fs ≡ true)
unfolding get has_own redact_fields sanitized
get-redact n k s end q h = ground arith
get-redact n k s (field j v fs) q h = elim (Bool-cases (text_eq j k)) [
  | inl e ↦
      let same : j ≡ k = (text_eq_iff j k).0 e in
      let value : v ≡ text s = rw e at h in rw (e, same, q, value) (refl, refl)
  | inr e ↦ rw e (get-redact n k s fs q (rw e at h))
]

-- What a record holds under such a key of its event.
pub audit_record-get :
    (m : Measure) (t : ℕ) (id : Text) (request_id : Option Text) (event : Fields) (k s : Text)
    → HasDistinctKeys event
    → is_sensitive (folded k) ≡ false
    → get k event ≡ text s
    → prop k (audit_record m t id request_id event) ≡ text (sanitized 2 s)
unfolding audit_record prop
audit_record-get m t id request_id event k s d q h =
    let fs = redact_fields 0 event in
    let there = get-redact 0 k s event q h in
    get-put_all-entries k fs _ (HasDistinctKeys-redact 0 event d)
    ∙ rw (has_own-redact 0 k event, there.1, there.0) refl

-- A word is recorded as it is.
pub sanitized-IsWord : (n : ℕ) (s : Text) → IsWord s → sanitized n s ≡ s
unfolding sanitized
sanitized-IsWord zero s w = refl
sanitized-IsWord (suc n) s w =
    ap sanitize_sensitive_message (sanitized-IsWord n s w) ∙ sanitize-IsWord s w

pub outcome-IsWord : (o : AuditOutcome) → IsWord (outcome_text o)
unfolding is_word
outcome-IsWord attempted = record { is_plain = refl; is_short = omega arith }
outcome-IsWord succeeded = record { is_plain = refl; is_short = omega arith }
outcome-IsWord failed = record { is_plain = refl; is_short = omega arith }
outcome-IsWord ambiguous = record { is_plain = refl; is_short = omega arith }

-- The last record of the audit files has this text as its id, and this outcome.
pub record IsOnRecord (path : Text) (files : ℕ) (id : Text) (o : AuditOutcome) (w : World)
    : Type 0 where
  pub view : View
  pub before : List Value
  pub last : Value
  pub shows : Shows path view w
  pub tidy : is_tidy (view 0) ≡ true
  pub at_end : log files view ≡ before ++ (last ∷ [])
  pub operation_id : prop (codes "operationId") last ≡ text id
  pub outcome : prop (codes "outcome") last ≡ text (outcome_text o)

pub with_outcome_fields :
    (event : Fields) (id : Text) (o : AuditOutcome)
    → HasDistinctKeys event
    → HasDistinctKeys (with_outcome event id o)
      × (get (codes "operationId") (with_outcome event id o) ≡ text id)
      × (get (codes "outcome") (with_outcome event id o) ≡ text (outcome_text o))
unfolding with_outcome text_eq
with_outcome_fields event id o d =
    let e1 = put (codes "operationId") (text id) event in
    (
      HasDistinctKeys-put (codes "outcome") _ e1
          (HasDistinctKeys-put (codes "operationId") (text id) event d),
      get-put (codes "outcome") (codes "operationId") (text (outcome_text o)) e1
          ∙ get-put (codes "operationId") (codes "operationId") (text id) event,
      get-put (codes "outcome") (codes "outcome") (text (outcome_text o)) e1,
    )

pub with_error_fields :
    (event : Fields) (id : Text) (e : RemoteError)
    → HasDistinctKeys event
    → HasDistinctKeys (with_error event id e)
      × (get (codes "operationId") (with_error event id e) ≡ text id)
      × (get (codes "outcome") (with_error event id e) ≡ text (outcome_text (outcome_of e)))
unfolding with_error text_eq
with_error_fields event id e d =
    let base = with_outcome_fields event id (outcome_of e) d in
    let fs = with_outcome event id (outcome_of e) in
    (
      HasDistinctKeys-put (codes "error") _ fs base.0,
      get-put (codes "error") (codes "operationId") _ fs ∙ base.1,
      get-put (codes "error") (codes "outcome") _ fs ∙ base.2,
    )
