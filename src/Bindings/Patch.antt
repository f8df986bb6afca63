-- ===== src/Bindings/Patch.antt =====
-- src/domain/bindings/directPlanner.ts: the patch of a plan and the bindings it plans.
use nodel_mcp.Base.{
  ◌≡◌, refl, ap, Bool, true, false, ◌&&◌, Bool-cases, inl, inr, List, [], ◌∷◌, ◌++◌, if◌then◌else◌,
  Text, text_eq, text_eq_iff, arith,
}
use nodel_mcp.Values.{Value, Fields, end, get, has_own}
use nodel_mcp.Values.Keys.{get-put, has_own-put}
use nodel_mcp.Plans.{proto, set_field}
use nodel_mcp.Points.Names.{BindingKind, actions, events, kind_text}
use nodel_mcp.Bindings.Definitions.{
  BindingPlanInput, BindingProposal, record_fields, get_in, set_in, binding_value, patch_from,
  bindings_patch_from_proposals,
}
use nodel_mcp.Bindings.Direct.{drafted, proposal}
use nodel_mcp.Bindings.Loop.{drafted-Inv}

unfoldable pub has_in : BindingKind → Text → Fields → Bool
unfolding has_own get
has_in kind name fs = has_own name (record_fields (get (kind_text kind) fs))

abbrev pub same_kind : BindingKind → BindingKind → Bool
same_kind actions actions = true
same_kind events events = true
same_kind _ _ = false

pub same_kind_eq : (k j : BindingKind) → same_kind k j ≡ true → k ≡ j
same_kind_eq actions actions h = refl
same_kind_eq events events h = refl
same_kind_eq actions events h = ground arith
same_kind_eq events actions h = ground arith

get-set_field :
    (k j : Text) (v : Value) (fs : Fields)
    → text_eq j proto ≡ false
    → get j (set_field k v fs) ≡ (if text_eq k j then v else get j fs)
unfolding set_field
get-set_field k j v fs h = ground (arith, get-put k j v fs, text_eq_iff k j, text_eq_iff k proto)

has_own-set_field :
    (k j : Text) (v : Value) (fs : Fields)
    → text_eq j proto ≡ false
    → has_own j (set_field k v fs) ≡ (if text_eq k j then true else has_own j fs)
unfolding set_field
has_own-set_field k j v fs h =
    ground (arith, has_own-put k j v fs, text_eq_iff k j, text_eq_iff k proto)

-- The group of a kind after a write.
group-set_in :
    (k j : BindingKind) (n : Text) (v : Value) (fs : Fields)
    → record_fields (get (kind_text j) (set_in k n v fs)) ≡ (
        let group = record_fields (get (kind_text j) fs) in
        if same_kind k j then set_field n v group else group)
unfolding set_in text_eq
group-set_in actions actions n v fs =
    ap record_fields (get-put (kind_text actions) (kind_text actions) _ fs)
group-set_in actions events n v fs =
    ap record_fields (get-put (kind_text actions) (kind_text events) _ fs)
group-set_in events actions n v fs =
    ap record_fields (get-put (kind_text events) (kind_text actions) _ fs)
group-set_in events events n v fs =
    ap record_fields (get-put (kind_text events) (kind_text events) _ fs)

-- A binding that is written is read back, and the others are as they were.
pub get_in-set_in :
    (k j : BindingKind) (n m : Text) (v : Value) (fs : Fields)
    → text_eq m proto ≡ false
    → get_in j m (set_in k n v fs) ≡ (if same_kind k j && text_eq n m then v else get_in j m fs)
unfolding get_in
get_in-set_in k j n m v fs h = elim (Bool-cases (same_kind k j)) [
  | inl e ↦
      rw (group-set_in k j n v fs, e) (get-set_field n m v (record_fields (get (kind_text j) fs)) h)
  | inr e ↦ rw (group-set_in k j n v fs, e) refl
]

has_in-set_in :
    (k j : BindingKind) (n m : Text) (v : Value) (fs : Fields)
    → text_eq m proto ≡ false
    → has_in j m (set_in k n v fs) ≡ (if same_kind k j && text_eq n m then true else has_in j m fs)
unfolding has_in
has_in-set_in k j n m v fs h = elim (Bool-cases (same_kind k j)) [
  | inl e ↦
      rw (group-set_in k j n v fs, e)
        (has_own-set_field n m v (record_fields (get (kind_text j) fs)) h)
  | inr e ↦ rw (group-set_in k j n v fs, e) refl
]

-- The value of a proposal.
abbrev pub value_of : BindingProposal → Value
value_of p = binding_value p.target_node p.target_field p.target_name

patch_from-snoc :
    (ps : List BindingProposal) (p : BindingProposal) (patch : Fields)
    → patch_from (ps ++ p ∷ []) patch
      ≡ set_in p.kind p.binding_name (value_of p) (patch_from ps patch)
unfolding patch_from
patch_from-snoc [] p patch = refl
patch_from-snoc (q ∷ ps) p patch =
    patch_from-snoc ps p (set_in q.kind q.binding_name (value_of q) patch)

-- Every binding of `next` is that of `patch`, where it has one, else that of `current`.
pub Patches : Fields → Fields → Fields → Type 0
Patches current patch next =
    (kind : BindingKind) (name : Text)
    → text_eq name proto ≡ false
    → get_in kind name next
      ≡ (if has_in kind name patch then get_in kind name patch else get_in kind name current)

Patches-set_in :
    (k : BindingKind) (n : Text) (v : Value) (current patch next : Fields)
    → Patches current patch next
    → Patches current (set_in k n v patch) (set_in k n v next)
unfolding Patches
Patches-set_in k n v current patch next h kind name e = ground (
  arith,
  get_in-set_in k kind n name v next e,
  get_in-set_in k kind n name v patch e,
  has_in-set_in k kind n name v patch e,
  h kind name e,
)

initial-Patches : (current : Fields) → Patches current end current
unfolding Patches has_in has_own get
initial-Patches current actions name e = refl
initial-Patches current events name e = refl

module _ (lower : Text → Text) (input : BindingPlanInput) (current : Fields) where
  pub drafted-Patches :
      Patches current
        (bindings_patch_from_proposals (drafted lower input current current).proposals)
        (drafted lower input current current).next_bindings
  unfolding bindings_patch_from_proposals
  drafted-Patches =
      drafted-Inv lower input current
        (λ d. Patches current (patch_from d.proposals end) d.next_bindings) (λ d kind b m h. h)
        (λ d kind b v h. h)
        (λ d kind b existing m a h.
          let p = proposal lower input current kind b existing m in
          rw (patch_from-snoc d.proposals p end) (
            Patches-set_in p.kind p.binding_name (value_of p) current (patch_from d.proposals end)
              d.next_bindings h))
        current (initial-Patches current)
