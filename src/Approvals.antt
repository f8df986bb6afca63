-- ===== src/Approvals.antt =====
-- src/state/approvals.ts: write approvals, granted by the operator and consumed once.
-- The approvals file is a JSON document; keys of a stored approval other than the eight of
-- `StoredApproval` are not kept.
pub mod Records
pub mod Effects
pub mod Loading
pub mod Consume
pub mod Once
pub mod Invariant
pub mod Reach
pub mod Grants
pub mod Granting
mod Tests
use nodel_mcp.Base.{
  ℕ, ◌+◌, ◌*◌, Bool, true, false, not, ◌&&◌, ◌||◌, Option, none, some, List, [], ◌∷◌,
}
use nodel_mcp.Base.{
  ◌++◌, Text, codes, trim, is_empty, is_space, lower, leb, ltb, ◌==◌, if◌then◌else◌,
}
use nodel_mcp.Base.{text_eq, take, length, any, all, keep, find, drop_first, map, has_code}
use nodel_mcp.Base.{Result, ok, err, guard, ◌>>◌ as ◌then_check◌, Error, public_error}
use nodel_mcp.Base.{validation, conflict, approval_required, policy, state, or_else}
use nodel_mcp.Values.{
  Value, undefined, object, array, text, integer, pos, Fields, end, field, get, prop,
}
use nodel_mcp.Values.{Items, items, from_items, is_undefined}
use nodel_mcp.Platform.{Platform, sha256}
use nodel_mcp.Config.{AppConfig}
use nodel_mcp.Files.{Content, document, World, Exec, pure, throw, lift, handle, catch, ◌>>=◌, ◌>>◌}
use nodel_mcp.Files.{read_file, exists_sync, chmod_sync, now, random_uuid}
use nodel_mcp.Store.{initialize, durable_rename, atomic_write}

pub record ApprovalDetails : Type 0 where
  pub operation : Text
  pub target : Text
  pub proposal_hash : Text

pub record StoredApproval : Type 0 where
  pub details : ApprovalDetails
  pub open details use *
  pub id : Text
  pub reason : Value
  pub approved_by : Value
  pub created_at : Text
  pub expires_at : Text

abbrev pub approvals_path : AppConfig → Text
approvals_path config = config.state_dir ++ codes "/approvals.json"

abbrev pub confirm_text : Text → Text
confirm_text proposal_hash = codes "APPROVE " ++ take 12 proposal_hash

pub record ApprovalRequest : Type 0 where
  pub required : Bool
  pub details : ApprovalDetails
  pub confirm_text : Text
  pub expires_in_seconds : ℕ

unfoldable pub approval_request : AppConfig → ApprovalDetails → ApprovalRequest
approval_request config details = record {
  required = config.writes_enabled && config.write_approval_required;
  details = details;
  confirm_text = confirm_text details.proposal_hash;
  expires_in_seconds = config.write_approval_ttl_seconds;
}

-- `/Bearer\s+[A-Za-z0-9._~+/=-]+/iu`; with `iu`, `[a-z]` holds the long s and the kelvin sign too.
abbrev is_token_code : ℕ → Bool
is_token_code c =
    (leb b'a' (lower c) && leb (lower c) b'z')
    || (leb b'0' c && leb c b'9')
    || has_code c (codes "._~+/=-")
    || c == 0x17f
    || c == 0x212a

after_spaces : Text → Bool
after_spaces [] = false
after_spaces (c ∷ s) = if is_space c then after_spaces s else is_token_code c

abbrev after_scheme : Text → Bool
after_scheme [] = false
after_scheme (c ∷ s) = is_space c && after_spaces s

matches_scheme : Text → Text → Bool
matches_scheme s [] = after_scheme s
matches_scheme [] (p ∷ ps) = false
matches_scheme (c ∷ s) (p ∷ ps) = lower c == p && matches_scheme s ps

unfoldable pub has_bearer : Text → Bool
unfolding matches_scheme after_spaces is_space has_code
has_bearer [] = false
has_bearer (c ∷ s) = matches_scheme (c ∷ s) (codes "bearer") || has_bearer s

abbrev pub is_non_empty : Text → Bool
is_non_empty s = not (is_empty (trim s))

abbrev is_hex : ℕ → Bool
is_hex c = (leb b'0' c && leb c b'9') || (leb b'a' (lower c) && leb (lower c) b'f')

-- `/^[a-f0-9]{64}$/iu`
unfoldable pub is_sha256 : Text → Bool
is_sha256 s = length s == 64 && all is_hex s

abbrev text_test : (Text → Bool) → Value → Bool
text_test p (text s) = p s
text_test p _ = false

abbrev text_of : Value → Text
text_of (text s) = s
text_of _ = []

abbrev pub assert_approval_details : ApprovalDetails → Result (Unit {0})
assert_approval_details details =
    guard
      (is_non_empty details.operation
        && is_non_empty details.target
        && is_sha256 details.proposal_hash)
      (public_error validation)

abbrev pub assert_no_bearer : Text → Result (Unit {0})
assert_no_bearer value = guard (not (has_bearer value)) (public_error validation)

unfoldable pub read_approval : Value → StoredApproval
unfolding prop
read_approval v = record {
  details = record {
    operation = text_of (prop (codes "operation") v);
    target = text_of (prop (codes "target") v);
    proposal_hash = text_of (prop (codes "proposalHash") v);
  };
  id = text_of (prop (codes "id") v);
  reason = prop (codes "reason") v;
  approved_by = prop (codes "approvedBy") v;
  created_at = text_of (prop (codes "createdAt") v);
  expires_at = text_of (prop (codes "expiresAt") v);
}

abbrev pub after : Option ℕ → Option ℕ → Bool
after (some e) (some c) = ltb c e
after _ _ = false

module _ (p : Platform) where
  -- `timingSafeStringEqual`
  unfoldable pub timing_safe_equal : Text → Text → Bool
  unfolding sha256 text_eq
  timing_safe_equal left right = text_eq (sha256 p left) (sha256 p right)

  -- `isStoredApproval`, on the fields of an object
  unfoldable pub is_stored_approval : Value → Bool
  unfolding prop
  is_stored_approval v =
      text_test is_non_empty (prop (codes "id") v)
      && text_test is_non_empty (prop (codes "operation") v)
      && text_test is_non_empty (prop (codes "target") v)
      && text_test is_sha256 (prop (codes "proposalHash") v)
      && text_test (λ s. true) (prop (codes "createdAt") v)
      && text_test (λ s. true) (prop (codes "expiresAt") v)
      && after (p.parse_date (text_of (prop (codes "expiresAt") v)))
          (p.parse_date (text_of (prop (codes "createdAt") v)))

  -- `isEnvelope` on the version and the approvals of an object, and what these are then read as.
  unfoldable pub envelope_of : Value → Value → Option (List StoredApproval)
  unfolding is_stored_approval read_approval
  envelope_of (integer (pos n)) (array vs) =
      if n == 2 && all is_stored_approval (items vs)
      then some (map read_approval (items vs))
      else none
  envelope_of _ _ = none

  unfoldable pub read_envelope : Value → Option (List StoredApproval)
  unfolding envelope_of prop
  read_envelope v = envelope_of (prop (codes "version") v) (prop (codes "approvals") v)
