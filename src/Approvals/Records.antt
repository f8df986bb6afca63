-- ===== src/Approvals/Records.antt =====
-- What is written to the approvals file is read back from it.
use nodel_mcp.Base.{◌≡◌, refl, Bool, true, ◌&&◌, some, List, [], ◌∷◌, map, Text}
use nodel_mcp.Base.{
  ◌∙◌, text_eq_iff, codes, text_eq, All, all, arith, if◌then◌else◌, ap, ◌==◌, if-eq-some,
}
use mathlib.Core.Bool.{and-eq-true_iff}
use nodel_mcp.Values.{Value, undefined, null, text, array, integer, pos, items, from_items}
use nodel_mcp.Values.{get, prop, Fields, field, end}
use nodel_mcp.Values.Keys.{items-from_items}
use nodel_mcp.Platform.{Platform}
use nodel_mcp.Approvals.{
  StoredApproval, is_stored_approval, read_approval, read_envelope, envelope_of, is_non_empty,
}
use nodel_mcp.Approvals.{is_sha256, after, text_test, text_of}
use nodel_mcp.Approvals.Effects.{field_of, write_approval, write_envelope}

-- A field that was left out reads as undefined.
get-field_of :
    (k j : Text) (v : Value) (fs : Fields)
    → get j fs ≡ undefined
    → get k (field_of j v fs) ≡ (if text_eq j k then v else get k fs)
unfolding get
get-field_of k j undefined fs h = ground (arith, text_eq_iff j k)
get-field_of k j _ fs h = refl

-- The six fields that stand before and behind the optional ones.
module _ (a : StoredApproval) where
  abbrev tail_fields : Fields
  tail_fields =
      field (codes "createdAt") (text a.created_at)
        (field (codes "expiresAt") (text a.expires_at) end)

  abbrev optional_fields : Fields
  optional_fields =
      field_of (codes "reason") a.reason (field_of (codes "approvedBy") a.approved_by tail_fields)

  get-approved_by :
      (k : Text)
      → get k (field_of (codes "approvedBy") a.approved_by tail_fields)
        ≡ (if text_eq (codes "approvedBy") k then a.approved_by else get k tail_fields)
  get-approved_by k =
      get-field_of k (codes "approvedBy") a.approved_by tail_fields (unfold get text_eq in refl)

  get-optional :
      (k : Text)
      → get k optional_fields ≡ (
          if text_eq (codes "reason") k
          then a.reason
          else if text_eq (codes "approvedBy") k
          then a.approved_by
          else get k tail_fields)
  get-optional k =
      get-field_of k (codes "reason") a.reason _
        (get-approved_by (codes "reason") ∙ (unfold get text_eq in refl))
      ∙ ap (λ v. if text_eq (codes "reason") k then a.reason else v) (get-approved_by k)

  read-write_approval : read_approval (write_approval a) ≡ a
  unfolding read_approval write_approval prop get text_eq
  read-write_approval = cc (
    get-optional (codes "reason"),
    get-optional (codes "approvedBy"),
    get-optional (codes "createdAt"),
    get-optional (codes "expiresAt"),
  )

-- What `isStoredApproval` asks of the approval that it is read as.
abbrev pub lasts : Platform → StoredApproval → Bool
lasts p a = after (p.parse_date a.expires_at) (p.parse_date a.created_at)

pub record IsStorable (p : Platform) (a : StoredApproval) : Type 0 where
  pub has_name : is_non_empty a.id ≡ true
  pub has_operation : is_non_empty a.operation ≡ true
  pub has_target : is_non_empty a.target ≡ true
  pub has_hash : is_sha256 a.proposal_hash ≡ true
  pub has_span : lasts p a ≡ true

text_test-text_of : (t : Text → Bool) (v : Value) → text_test t v ≡ true → t (text_of v) ≡ true
text_test-text_of t (text s) h = h
text_test-text_of t null h = cc
text_test-text_of t _ h = cc

and₇ :
    {a b c d e f g : Bool}
    → (a && b && c && d && e && f && g) ≡ true
    → (a ≡ true) × (b ≡ true) × (c ≡ true) × (d ≡ true) × (e ≡ true) × (f ≡ true) × (g ≡ true)
and₇ h = ground arith

module _ (p : Platform) where
  is_stored-write_approval :
      (a : StoredApproval) → IsStorable p a → is_stored_approval p (write_approval a) ≡ true
  unfolding is_stored_approval write_approval prop get text_eq
  is_stored-write_approval a s =
      ground (arith, get-optional a (codes "createdAt"), get-optional a (codes "expiresAt"))

  IsStorable-read_approval :
      (v : Value) → is_stored_approval p v ≡ true → IsStorable p (read_approval v)
  unfolding is_stored_approval read_approval
  IsStorable-read_approval v h =
      let (name, operation, target, hash, created, expires, span) = and₇ h in
      record {
        has_name = text_test-text_of is_non_empty (prop (codes "id") v) name;
        has_operation = text_test-text_of is_non_empty (prop (codes "operation") v) operation;
        has_target = text_test-text_of is_non_empty (prop (codes "target") v) target;
        has_hash = text_test-text_of is_sha256 (prop (codes "proposalHash") v) hash;
        has_span = span;
      }

  read-write_approvals : (bs : List StoredApproval) → map read_approval (map write_approval bs) ≡ bs
  read-write_approvals [] = refl
  read-write_approvals (a ∷ bs) = cc (read-write_approval a, read-write_approvals bs)

  all_stored :
      (bs : List StoredApproval)
      → All (IsStorable p) bs
      → all (is_stored_approval p) (map write_approval bs) ≡ true
  all_stored [] h = refl
  all_stored (a ∷ bs) h = rw (is_stored-write_approval a h.0) (all_stored bs h.1)

  -- An envelope that is written is read back, if its approvals are well formed.
  pub read-write_envelope :
      (bs : List StoredApproval)
      → All (IsStorable p) bs
      → read_envelope p (write_envelope bs) ≡ some bs
  unfolding read_envelope write_envelope prop get text_eq
  read-write_envelope bs h =
      ground
        (arith, items-from_items (map write_approval bs), all_stored bs h, read-write_approvals bs)

  All-read_approval :
      (vs : List Value)
      → all (is_stored_approval p) vs ≡ true
      → All (IsStorable p) (map read_approval vs)
  All-read_approval [] h = tt
  All-read_approval (v ∷ vs) h =
      let (here, later) = (and-eq-true_iff _ _).0 h in
      (IsStorable-read_approval v here, All-read_approval vs later)

  envelope_of-IsStorable :
      (version approvals : Value) {bs : List StoredApproval}
      → envelope_of p version approvals ≡ some bs
      → All (IsStorable p) bs
  unfolding envelope_of
  envelope_of-IsStorable (integer (pos n)) (array vs) {bs} h =
      let (good, e) = if-eq-some (n == 2 && all (is_stored_approval p) (items vs)) h in
      rw (← e) (All-read_approval (items vs) ((and-eq-true_iff _ _).0 good).1)
  envelope_of-IsStorable _ _ h = cc

  -- What is read is well formed.
  pub read_envelope-IsStorable :
      (v : Value) {bs : List StoredApproval} → read_envelope p v ≡ some bs → All (IsStorable p) bs
  unfolding read_envelope
  read_envelope-IsStorable v h =
      envelope_of-IsStorable (prop (codes "version") v) (prop (codes "approvals") v) h

  envelope_of-write :
      (bs : List StoredApproval) {cs : List StoredApproval}
      → envelope_of p (integer (pos 2)) (array (from_items (map write_approval bs))) ≡ some cs
      → cs ≡ bs
  unfolding envelope_of
  envelope_of-write bs h =
      let items = items (from_items (map write_approval bs)) in
      let (_, e) = if-eq-some (2 == 2 && all (is_stored_approval p) items) h in
      cc (e, items-from_items (map write_approval bs), read-write_approvals bs)

  -- Whatever is read from a written envelope is what was written.
  pub read-write_envelope_eq :
      (bs : List StoredApproval) {cs : List StoredApproval}
      → read_envelope p (write_envelope bs) ≡ some cs
      → cs ≡ bs
  unfolding read_envelope write_envelope prop get text_eq
  read-write_envelope_eq bs h = envelope_of-write bs h
