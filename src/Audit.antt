-- ===== src/Audit.antt =====
-- src/state/audit.ts: what an audit record holds, and the names of backups.
pub mod Log
pub mod Mutation
pub mod Backups
pub mod Paths
pub mod Views
pub mod Rotation
pub mod Records
pub mod Refines
pub mod Redacted
pub mod Recorded
pub mod Retention
pub mod Unended
pub mod Pruning
mod Tests
use nodel_mcp.Base.{
  ℕ, suc, zero, Bool, true, false, ◌&&◌, ◌||◌, not, Option, none, some, List, [], ◌∷◌, ◌++◌, Text,
  codes, text_eq, starts_with, leb, ◌==◌, if◌then◌else◌, reverse, take, is_empty, lower, Error,
  public, system, length, ltb,
}
use nodel_mcp.Messages.{fold, folded, behind, sanitize_sensitive_message}
use nodel_mcp.Values.{
  Value, text, array, object, Items, nil, cons, Fields, end, field, integer, pos, put_all, entries,
  get, undefined, null,
}

pub data AuditOutcome : Type 0 where
  attempted succeeded failed ambiguous : AuditOutcome

abbrev pub outcome_text : AuditOutcome → Text
outcome_text attempted = codes "attempted"
outcome_text succeeded = codes "succeeded"
outcome_text failed = codes "failed"
outcome_text ambiguous = codes "ambiguous"

-- A character that `.` matches.
abbrev is_dot : ℕ → Bool
is_dot c = not (c == 10 || c == 13 || c == 0x2028 || c == 0x2029)

-- `.?token`
abbrev token_follows : Text → Bool
token_follows [] = false
token_follows (c ∷ s) =
    starts_with (c ∷ s) (codes "token") || (is_dot c && starts_with s (codes "token"))

abbrev follows : Option Text → Bool
follows none = false
follows (some s) = token_follows s

-- `/(?:authorization|bearer.?token|mcp.?token)/iu.test(key)`, of a folded key
unfoldable pub is_sensitive : Text → Bool
unfolding starts_with behind
is_sensitive [] = false
is_sensitive (c ∷ s) =
    starts_with (c ∷ s) (codes "authorization")
    || follows (behind (codes "bearer") (c ∷ s))
    || follows (behind (codes "mcp") (c ∷ s))
    || is_sensitive s

unfoldable pub sanitized : ℕ → Text → Text
sanitized zero s = s
sanitized (suc n) s = sanitize_sensitive_message (sanitized n s)

-- `redactAuditValues`, of a value that the objects around it have sanitized `n` times: each one
-- passes its children through `sanitizeSensitiveValue`.
unfoldable mutual
  unfolding folded is_sensitive sanitized

  pub redact : ℕ → Value → Value
  redact n (text s) = text (sanitized (suc n) s)
  redact n (array vs) = array (redact_items n vs)
  redact n (object fs) = object (redact_fields n fs)
  redact n v = v

  pub redact_items : ℕ → Items → Items
  redact_items n nil = nil
  redact_items n (cons v vs) = cons (redact n v) (redact_items n vs)

  pub redact_fields : ℕ → Fields → Fields
  redact_fields n end = end
  redact_fields n (field k v fs) =
      field k (if is_sensitive (folded k) then text (codes "[redacted]") else redact (suc n) v)
        (redact_fields n fs)

-- `containsSidecarToken(value, token)`, for a token that is there
unfoldable mutual
  unfolding text_eq

  pub contains_token : Value → Text → Bool
  contains_token (text s) token = text_eq s token
  contains_token (array vs) token = items_contain vs token
  contains_token (object fs) token = fields_contain fs token
  contains_token v token = false

  pub items_contain : Items → Text → Bool
  items_contain nil token = false
  items_contain (cons v vs) token = contains_token v token || items_contain vs token

  pub fields_contain : Fields → Text → Bool
  fields_contain end token = false
  fields_contain (field k v fs) token =
      text_eq k token || contains_token v token || fields_contain fs token

unfoldable pub contains_sidecar_token : Value → Option Text → Bool
unfolding contains_token
contains_sidecar_token value none = false
contains_sidecar_token value (some token) = not (is_empty token) && contains_token value token

-- `[^a-z0-9._-]` under `iu`
abbrev is_name_code : ℕ → Bool
is_name_code c =
    (leb b'a' (fold c) && leb (fold c) b'z')
    || (leb b'0' c && leb c b'9')
    || c == b'.'
    || c == b'_'
    || c == b'-'

-- Each run of other characters becomes one underscore; `inside` says that one has begun.
unfoldable pub underscored : Bool → Text → Text
underscored inside [] = []
underscored inside (c ∷ s) =
    let next = underscored false s in
    let skip = underscored true s in
    if is_name_code c then c ∷ next else if inside then skip else b'_' ∷ skip

unfoldable pub without_underscores : Text → Text
without_underscores [] = []
without_underscores (c ∷ s) = let rest = without_underscores s in if c == b'_' then rest else c ∷ s

unfoldable pub safe_name : Text → Text
unfolding underscored without_underscores
safe_name value =
    let s = without_underscores (underscored false value) in
    let t = take 120 (reverse (without_underscores (reverse s))) in
    if is_empty t then codes "node" else t

-- `filename.split("--")`: what stands before the first separator, and the parts after it.
unfoldable pub split_dashes : Text → Text × List Text
split_dashes [] = ([], [])
split_dashes (c ∷ []) = (c ∷ [], [])
split_dashes (c ∷ d ∷ s) =
    let rest = split_dashes s in
    let next = split_dashes (d ∷ s) in
    if c == b'-' && d == b'-' then ([], rest.0 ∷ rest.1) else (c ∷ next.0, next.1)

abbrev id_of_part : (Text → Text) → Text → Text
id_of_part decode part = elim (behind (codes "op_") part) [
  | none ↦ part
  | some encoded ↦ decode encoded
]

-- `backupOperationId`: the second of four parts or more; base64url is decoded by the platform.
unfoldable pub backup_operation_id : (Text → Text) → Text → Option Text
unfolding behind split_dashes
backup_operation_id decode filename = elim (split_dashes filename).1 [
  | [] ↦ none
  | part ∷ [] ↦ none
  | part ∷ second ∷ [] ↦ none
  | part ∷ second ∷ third ∷ more ↦ some (id_of_part decode part)
]
