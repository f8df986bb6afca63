-- ===== src/Writes/Tests.antt =====
-- Two calls of the tools of src/domain/config/writes.ts that must not reach the host.
use nodel_mcp.Base.{refl, true, false, none, [], ◌∷◌, codes, inl}
use nodel_mcp.Values.{Value, null, integer, object, end, field, pos}
use nodel_mcp.Config.{sample}
use nodel_mcp.Platform.{plain}
use nodel_mcp.Plans.{merge}
use nodel_mcp.Writes.Requests.{post}
use nodel_mcp.Writes.Tools.{
  Node, Reads, Changes, Services, ParametersInput, ActionInput, set_parameters, call_action,
}
use nodel_mcp.Writes.Barred.{Same, barred-Same}

abbrev lamp : Node
lamp = record { name = codes "Lamp"; node_base_url = codes "http://h/nodes/Lamp" }

abbrev state : Value
state = object (field (codes "level") (integer (pos 1)) end)

abbrev reads : Reads
reads = record {
  resolve_node = λ name w. (inl lamp, w);
  get_params = λ node w. (inl state, w);
  get_actions = λ node w. (inl (object (field (codes "On") null end)), w);
  get_activity = λ node from w. (inl null, w);
  wait_ready = λ node w. (true, w);
}

-- One host saves and calls, the other one takes the time on its clock for it.
abbrev prompt : Changes
prompt = record { save_params = λ node v w. (inl v, w); send = λ node r w. (inl null, w) }

abbrev late : Changes
late = record {
  save_params = λ node v w. (inl null, record w { clock = 9 });
  send = λ node r w. (inl null, record w { clock = 9 });
}

abbrev env : Services
env = record {
  platform = plain;
  measure = record { to_iso_string = λ t. t ∷ []; line_bytes = λ v. 100; size = λ c. 0 };
  encoding = record { to_iso_string = λ t. t ∷ []; encode = λ s. s; decode = λ s. s };
  web = record { encode_component = λ s. s; arg_query = λ v. []; lower = λ s. s };
  request_id = none;
  builtins = [];
}

abbrev dim : ParametersInput
dim = record {
  operation = codes "set_node_params";
  node = codes "Lamp";
  values = field (codes "level") (integer (pos 2)) end;
  mode = merge;
  remove_paths = [];
  expected_hash = none;
  is_dry_run = false;
  approval_id = none;
}

abbrev turn_on : ActionInput
turn_on = record {
  node = codes "Lamp";
  action = codes "On";
  args = null;
  method = post;
  is_dry_run = true;
  approval_id = none;
}

barred-Same_example :
    Same (set_parameters env sample reads prompt dim) (set_parameters env sample reads late dim)
    × Same (call_action env sample reads prompt turn_on) (call_action env sample reads late turn_on)
barred-Same_example = barred-Same env sample reads prompt late dim turn_on refl refl
