-- ===== src/Bindings/Kept.antt =====
-- src/domain/bindings/directPlanner.ts: what a plan of bindings promises.
use nodel_mcp.Base.{
  ◌≡◌, refl, sym, ap, ◌∙◌, subst, true, false, not, ◌&&◌, Bool-cases, inl, inr, some, is_some, Text,
  text_eq, text_eq_iff, arith, Result, ok, err, ◌>>=◌, All, ◌≤◌,
}
use nodel_mcp.Values.{Value, object, Fields}
use nodel_mcp.Platform.{Platform}
use nodel_mcp.Canonical.{stable_json_hash}
use nodel_mcp.Plans.{proto, or_throw}
use nodel_mcp.Points.Names.{BindingKind}
use nodel_mcp.Bindings.{binding_score}
use mathlib.Core.List.{Memᴰ}
use nodel_mcp.Values.{entries}
use nodel_mcp.Bindings.Definitions.{
  title_of, binding_group, BindingPlanInput, BindingProposal, get_in, read_binding,
  normalize_bindings, clone_record, bindings_patch_from_proposals,
}
use nodel_mcp.Bindings.Direct.{
  is_requested, BindingPlan, drafted, build_direct_binding_plan, targets_of,
}
use nodel_mcp.Bindings.Loop.{drafted-Inv}
use nodel_mcp.Bindings.Clones.{clone_record-normalize_bindings}
use nodel_mcp.Bindings.Patch.{Patches, drafted-Patches, get_in-set_in, same_kind, same_kind_eq}

bind-eq-ok :
    {X Y : Type 0} (r : Result X) (k : X → Result Y) (y : Y)
    → (r >>= k) ≡ ok y
    → (x : X) × (r ≡ ok x) × (k x ≡ ok y)
bind-eq-ok (err e) k y h = let bad : err e ≡ ok y = h in cc
bind-eq-ok (ok x) k y h = (x, refl, h)

ok-injective : {X : Type 0} {x y : X} → ok x ≡ ok y → x ≡ y
ok-injective h = cc

module _ (p : Platform) (lower : Text → Text) (input : BindingPlanInput) where
  -- The parts of a plan that is made.
  pub record IsDrafted (plan : BindingPlan) : Type 0 where
    pub draft_eq : plan.draft ≡ drafted lower input plan.current plan.current
    pub patch_eq : plan.binding_patch ≡ bindings_patch_from_proposals plan.draft.proposals
    pub current_hashed : or_throw (stable_json_hash p (object plan.current)) ≡ ok plan.current_hash
    pub next_hashed :
        or_throw (stable_json_hash p (object plan.draft.next_bindings)) ≡ ok plan.next_hash

  build-IsDrafted :
      (plan : BindingPlan) → build_direct_binding_plan p lower input ≡ ok plan → IsDrafted plan
  unfolding build_direct_binding_plan
  build-IsDrafted plan h =
      let (current, n, h1) = bind-eq-ok (normalize_bindings input.current_bindings) _ plan h in
      let (next, c, h2) = bind-eq-ok (clone_record (object current)) _ plan h1 in
      let (current_hash, hc, h3) =
        bind-eq-ok (or_throw (stable_json_hash p (object current))) _ plan h2 in
      let draft = drafted lower input current next in
      let (next_hash, hn, h4) =
        bind-eq-ok (or_throw (stable_json_hash p (object draft.next_bindings))) _ plan h3 in
      let cloned =
        ok-injective (sym c ∙ clone_record-normalize_bindings input.current_bindings current n) in
      subst IsDrafted (ok-injective h4) (record {
        draft_eq = ap (drafted lower input current) cloned;
        patch_eq = refl;
        current_hashed = hc;
        next_hashed = hn;
      })

  -- The binding of a kind and a name is read from `next` as from `current`, if it is there.
  KeptIn : Fields → BindingKind → Text → Value → Fields → Type 0
  KeptIn current kind name v next =
      read_binding current kind name ≡ some v → get_in kind name next ≡ get_in kind name current

  same_binding :
      (k j : BindingKind) (n m : Text) → (same_kind k j && text_eq n m) ≡ true → (k ≡ j) × (n ≡ m)
  same_binding k j n m h = (same_kind_eq k j (ground arith), (text_eq_iff n m).0 (ground arith))

  drafted-KeptIn :
      (current : Fields) (kind : BindingKind) (name : Text) (v : Value)
      → input.overwrite ≡ false
      → text_eq name proto ≡ false
      → KeptIn current kind name v (drafted lower input current current).next_bindings
  unfolding KeptIn
  drafted-KeptIn current kind name v off e =
      drafted-Inv lower input current (λ d. KeptIn current kind name v d.next_bindings)
        (λ d k b m h. h) (λ d k b w h. h)
        (λ d k b existing m a h there. elim (Bool-cases (same_kind k kind && text_eq b.name name)) [
          | inr other ↦ rw (get_in-set_in k kind b.name name _ d.next_bindings e, other) (h there)
          | inl same ↦
              let (ek, en) = same_binding k kind b.name name same in
              let at : existing ≡ some v = rw (a.is_read, ek, en) there in
              let free = a.is_free in let bad : true ≡ false = rw (at, off) at free in cc
        ])
        current (λ there. refl)

  -- Where bindings are not to be overwritten, a binding that is there, under a name that is not
  -- `__proto__`, is in the planned bindings as it was.
  pub plan_keeps :
      (plan : BindingPlan) (kind : BindingKind) (name : Text) (v : Value)
      → build_direct_binding_plan p lower input ≡ ok plan
      → input.overwrite ≡ false
      → text_eq name proto ≡ false
      → read_binding plan.current kind name ≡ some v
      → read_binding plan.draft.next_bindings kind name ≡ some v
  unfolding read_binding KeptIn
  plan_keeps plan kind name v made off e there =
      let d = build-IsDrafted plan made in
      let kept = drafted-KeptIn plan.current kind name v off e there in rw (d.draft_eq, kept) there

  -- The planned bindings are those that the node has, with those of the patch in their place: what is
  -- read at a kind and a name that is not `__proto__` is what the patch holds there, if it does, and
  -- else what the node's bindings hold.
  pub plan-Patches :
      (plan : BindingPlan)
      → build_direct_binding_plan p lower input ≡ ok plan
      → Patches plan.current plan.binding_patch plan.draft.next_bindings
  plan-Patches plan made =
      let d = build-IsDrafted plan made in
      rw (d.patch_eq, d.draft_eq) (drafted-Patches lower input plan.current)

  -- A proposal is for a binding of the schema that was asked for, and was free or may be overwritten;
  -- by its name and its title in the schema, its target has at least the least score and no smaller
  -- score than any other target of the kind.
  pub record IsBest (current : Fields) (q : BindingProposal) : Type 0 where
    pub definition : Value
    pub stands : Memᴰ (q.binding_name, definition) (entries (binding_group input.schema q.kind))
    pub is_asked : is_requested lower input current q.binding_name ≡ true
    pub existing_read : q.existing ≡ read_binding current q.kind q.binding_name
    pub is_free : (is_some q.existing && not input.overwrite) ≡ false
    pub has_score :
        q.score
        ≡ binding_score lower q.binding_name
            (some (title_of q.binding_name definition))
            q.target_name
    pub is_enough : input.min_score ≤ q.score
    pub tops :
        All
          (λ t.
            binding_score lower q.binding_name (some (title_of q.binding_name definition)) t.name
            ≤ q.score)
          (targets_of lower input current q.kind)
