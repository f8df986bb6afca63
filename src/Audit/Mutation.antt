-- ===== src/Audit/Mutation.antt =====
-- src/state/audit.ts: a change of the remote host between two audit records.
-- What the remote code does is a parameter, an action on the world; the errors it throws are
-- NodelTransportError with its codes, of src/nodel/http/errors.ts, and others.
use nodel_mcp.Base.{
  Bool, true, false, Option, ◌⊎◌, inl, inr, Text, codes, Result, ok, err, Error, public, system,
  if◌then◌else◌,
}
use nodel_mcp.Values.{text, Fields, put}
use nodel_mcp.Config.{AppConfig}
use nodel_mcp.Files.{World, Exec}
use nodel_mcp.Audit.{AuditOutcome, attempted, succeeded, failed, ambiguous, outcome_text}
use nodel_mcp.Audit.Log.{Measure, audit_write}

pub data TransportCode : Type 0 where
  timeout network http invalid_json not_found redirect : TransportCode

pub data RemoteError : Type 0 where
  transport : TransportCode → RemoteError
  thrown : Error → RemoteError
  post_side_effect : Text → RemoteError
  not_an_error : RemoteError

-- How a mutation ends: with the result; with the error of the first record, before the remote code
-- ran; with PostSideEffectAuditError; with RemoteFailureAuditError; with the remote error.
pub data Mutation (T : Type 0) : Type 0 where
  done : Text → T → Mutation T
  not_started : Error → Mutation T
  unrecorded : Text → Mutation T
  unresolved : Text → RemoteError → Mutation T
  remote_failed : Text → RemoteError → Mutation T

-- `error.name`
unfoldable pub classify_error : RemoteError → Text
classify_error (transport timeout) = codes "NodelTimeoutError"
classify_error (transport network) = codes "NodelNetworkError"
classify_error (transport http) = codes "NodelHttpError"
classify_error (transport invalid_json) = codes "NodelInvalidJsonError"
classify_error (transport not_found) = codes "NodelNotFoundError"
classify_error (transport redirect) = codes "NodelRedirectError"
classify_error (thrown (public c a)) = codes "PublicError"
classify_error (thrown system) = codes "Error"
classify_error (post_side_effect id) = codes "PostSideEffectAuditError"
classify_error not_an_error = codes "unknown"

unfoldable pub is_ambiguous_mutation_error : RemoteError → Bool
is_ambiguous_mutation_error (transport timeout) = true
is_ambiguous_mutation_error (transport network) = true
is_ambiguous_mutation_error (transport invalid_json) = true
is_ambiguous_mutation_error (transport redirect) = true
is_ambiguous_mutation_error (thrown (public c a)) = a
is_ambiguous_mutation_error _ = false

abbrev pub outcome_of : RemoteError → AuditOutcome
outcome_of e = if is_ambiguous_mutation_error e then ambiguous else failed

-- `{ ...event, operationId, outcome }` and `{ …, error }`
unfoldable pub with_outcome : Fields → Text → AuditOutcome → Fields
unfolding put
with_outcome event id outcome =
    put (codes "outcome") (text (outcome_text outcome)) (put (codes "operationId") (text id) event)

unfoldable pub with_error : Fields → Text → RemoteError → Fields
unfolding with_outcome is_ambiguous_mutation_error classify_error put
with_error event id e =
    put (codes "error") (text (classify_error e)) (with_outcome event id (outcome_of e))

module _ {T : Type 0} where
  unfoldable pub after_success : Text → T → Result Text → Mutation T
  after_success id result (ok _) = done id result
  after_success id result (err _) = unrecorded id

  unfoldable pub after_failure : Text → RemoteError → Result Text → Mutation T
  after_failure id e (ok _) = remote_failed id e
  after_failure id e (err _) = unresolved id e

  -- `write` is what records an event.
  module _ (write : Fields → Exec Text) (event : Fields) where
    unfoldable pub record_end : Text → T ⊎ RemoteError → World → Mutation T × World
    unfolding with_outcome with_error after_success after_failure
    record_end id (inl result) w =
        let (r, w') = write (with_outcome event id succeeded) w in (after_success id result r, w')
    record_end id (inr (post_side_effect id')) w = (unrecorded id', w)
    record_end id (inr e) w =
        let (r, w') = write (with_error event id e) w in (after_failure id e r, w')

    abbrev pub start :
        Result Text → (World → (T ⊎ RemoteError) × World) → World → Mutation T × World
    start (err e) remote w = (not_started e, w)
    start (ok id) remote w = let (r, w') = remote w in record_end id r w'

    unfoldable pub audited_with : (World → (T ⊎ RemoteError) × World) → World → Mutation T × World
    unfolding record_end put
    audited_with remote w =
        let (r, w') = write (put (codes "outcome") (text (outcome_text attempted)) event) w in
        start r remote w'

  unfoldable pub audited_mutation :
      Measure
      → AppConfig
      → Option Text
      → Fields
      → (World → (T ⊎ RemoteError) × World)
      → World
      → Mutation T × World
  unfolding audited_with audit_write
  audited_mutation m config request_id event = audited_with (audit_write m config request_id) event
