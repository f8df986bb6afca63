-- ===== src/Bindings/Definitions.antt =====
-- src/domain/bindings/directPlanner.ts: the bindings, the points they may have, and the patch of a
-- plan. A target keeps the name and the definition of its point.
use nodel_mcp.Base.{
  ℕ, suc, Bool, Option, none, some, is_some, or_else, List, [], ◌∷◌, if◌then◌else◌, Text, codes,
  Result, ok, ◌>>=◌, ◌<|>◌,
}
use nodel_mcp.Values.{
  Value, text, array, object, Items, nil, cons, Fields, end, field, get, prop, put, read_string,
  pos,
}
use nodel_mcp.Canonical.{integer_text}
use nodel_mcp.Plans.{clone_unknown, set_field}
use nodel_mcp.Points.Names.{BindingKind, actions, events, kind_text}
use nodel_mcp.Bindings.{BindingTarget, BindingMatch}

pub record BindingDefinition : Type 0 where
  pub name : Text
  pub title : Text
  pub definition : Value

pub data Kinds : Type 0 where
  one_kind : BindingKind → Kinds
  both : Kinds

pub record BindingPlanInput : Type 0 where
  pub target_node : Value
  pub schema : Value
  pub current_bindings : Value
  pub target_actions : Value
  pub target_signals : Value
  pub kinds : Kinds
  pub binding_names : List Text
  pub overwrite : Bool
  pub min_score : ℕ

pub record BindingProposal : Type 0 where
  pub kind : BindingKind
  pub binding_name : Text
  pub target_node : Text
  pub target_name : Text
  pub target_field : Text
  pub score : ℕ
  pub existing : Option Value

pub record SkippedBinding : Type 0 where
  pub kind : BindingKind
  pub binding_name : Text
  pub existing : Value

pub record UnresolvedBinding : Type 0 where
  pub kind : BindingKind
  pub binding_name : Text
  pub best_candidate : Option BindingMatch

-- What the loop has made so far.
pub record Draft : Type 0 where
  pub next_bindings : Fields
  pub proposals : List BindingProposal
  pub skipped : List SkippedBinding
  pub unresolved : List UnresolvedBinding

abbrev pub initial_draft : Fields → Draft
initial_draft next = record { next_bindings = next; proposals = []; skipped = []; unresolved = [] }

-- `isRecord(value) ? value : {}`
abbrev pub record_fields : Value → Fields
record_fields (object fs) = fs
record_fields _ = end

abbrev pub title_of : Text → Value → Text
title_of name definition = or_else (read_string (prop (codes "title") definition)) name

unfoldable pub definitions_in : Fields → List BindingDefinition
unfolding prop
definitions_in end = []
definitions_in (field name d fs) =
    record { name = name; title = title_of name d; definition = d } ∷ definitions_in fs

-- `schema.properties[kind].properties`
abbrev pub binding_group : Value → BindingKind → Fields
binding_group schema kind =
    record_fields
      (prop (codes "properties") (prop (kind_text kind) (prop (codes "properties") schema)))

unfoldable pub extract_remote_binding_names : Value → BindingKind → List BindingDefinition
unfolding prop definitions_in
extract_remote_binding_names schema kind = definitions_in (binding_group schema kind)

unfoldable pub targets_from : ℕ → Items → List BindingTarget
unfolding prop integer_text
targets_from index nil = []
targets_from index (cons d ds) =
    record {
      name = or_else (read_string (prop (codes "name") d)) (integer_text (pos index));
      definition = d;
    }
    ∷ targets_from (suc index) ds

unfoldable pub targets_in : Fields → List BindingTarget
targets_in end = []
targets_in (field name d fs) = record { name = name; definition = d } ∷ targets_in fs

unfoldable pub normalize_targets : Value → List BindingTarget
unfolding targets_from targets_in
normalize_targets (array ds) = targets_from 0 ds
normalize_targets (object fs) = targets_in fs
normalize_targets _ = []

unfoldable pub clone_record : Value → Result Fields
unfolding clone_unknown
clone_record value = do v ← clone_unknown (object (record_fields value)); ok (record_fields v)

unfoldable pub normalize_bindings : Value → Result Fields
unfolding clone_record get put
normalize_bindings value = do
  fs ← clone_record value
  on_actions ← clone_record (get (codes "actions") fs)
  on_events ← clone_record (get (codes "events") fs)
  ok (put (codes "events") (object on_events) (put (codes "actions") (object on_actions) fs))

abbrev pub target_field_of : BindingKind → Text
target_field_of actions = codes "action"
target_field_of events = codes "event"

-- `bindings[kind][name]`
unfoldable pub get_in : BindingKind → Text → Fields → Value
unfolding get
get_in kind name fs = get name (record_fields (get (kind_text kind) fs))

-- A binding counts where it names a node or a point.
abbrev pub bound : BindingKind → Value → Option Value
bound kind (object fs) =
    if is_some (read_string (get (codes "node") fs) <|> read_string (get (target_field_of kind) fs))
    then some (object fs)
    else none
bound kind _ = none

unfoldable pub read_binding : Fields → BindingKind → Text → Option Value
unfolding get_in get
read_binding bindings kind name = bound kind (get_in kind name bindings)

-- `ensureRecord(record, kind)[name] = value`
unfoldable pub set_in : BindingKind → Text → Value → Fields → Fields
unfolding set_field get put
set_in kind name v fs =
    put (kind_text kind) (object (set_field name v (record_fields (get (kind_text kind) fs)))) fs

unfoldable pub binding_value : Text → Text → Text → Value
binding_value node target_field target_name =
    object (field (codes "node") (text node) (field target_field (text target_name) end))

unfoldable pub patch_from : List BindingProposal → Fields → Fields
unfolding set_in binding_value
patch_from [] patch = patch
patch_from (p ∷ ps) patch =
    patch_from ps (
      set_in p.kind p.binding_name (binding_value p.target_node p.target_field p.target_name) patch)

unfoldable pub bindings_patch_from_proposals : List BindingProposal → Fields
unfolding patch_from
bindings_patch_from_proposals proposals = patch_from proposals end
