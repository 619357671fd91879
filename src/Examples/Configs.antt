-- ===== src/Examples/Configs.antt =====
-- Triggers, rules and interpolation on a small configuration.
use honeydipper.Common.{◌≡◌, refl, true, some, none, List, [], ◌∷◌, String, arith}
use honeydipper.Common.Assoc.{Assoc, lookup, insert}
use honeydipper.Common.Groups.{add_to}
use honeydipper.Outcome.{Outcome, done, panic}
use honeydipper.Text.Split.{split}
use honeydipper.Text.Search.{contains, starts_with, cut_quote}
use honeydipper.Value.{Value, null, str, obj, list, Fields, field, end, put, get, cons, nil}
use honeydipper.Dipper.Interpolate.{Rendered, buffer, interpolate}
use honeydipper.Dipper.Interpolate.First.{IsLiteral, first_value, or_else}
use honeydipper.Dipper.Interpolate.Defaults.{interpolate-keys}
use honeydipper.Dipper.MapData.{get_map_data, walk, step}
use honeydipper.Dipper.Copy.{deep_copy, deep_copy_map}
use honeydipper.Dipper.Merge.{merge_map, combine_map, merge_modifier}
use honeydipper.Dipper.Recursive.{recursive, visit_fields}
use honeydipper.Workflow.Types.{Workflow, workflow, unset}
use honeydipper.Workflow.Hooks.{blank}
use honeydipper.Config.{Trigger, System, DataSet}
use honeydipper.Config.Collapse.{
  no_system, CollapsedTrigger, collapse_trigger, collapse_onto, climb, copied, add_layers,
  add_layer, merged_layer, merge_copy, interpolated, filled, verified, source_trigger,
  source_system,
}
use honeydipper.Config.Chain.{Chain, raw, based, turned, exports_of, collapse_trigger-Chain}
use honeydipper.Service.Rules.{CollapsedRule, build_rules, rule_entry, add_rule}

program : Unit {0}
unfolding lookup insert contains starts_with cut_quote split get_map_data walk step put get
    deep_copy deep_copy_map merge_map combine_map merge_modifier collapse_trigger collapse_onto
    climb copied add_layers add_layer merged_layer merge_copy interpolated filled verified
    source_trigger source_system recursive build_rules rule_entry add_rule add_to
program = tt

-- Interpolation in which nothing is a template.
abbrev no_template : String → Value → Outcome Rendered
no_template s v = done (buffer s)

abbrev no_yaml : String → Outcome Value
no_yaml s = done (str s)

abbrev shown : Value → String
shown (str s) = s
shown _ = "?"

abbrev content : Value
content = obj (field "ctx" (obj (field "b" (str "found") end)) end)

keys-IsLiteral : IsLiteral "ctx.a,ctx.b"
unfolding program
keys-IsLiteral = record { no_dollar = refl; no_template = refl; no_yaml = refl; no_escape = refl }

whole-IsLiteral : IsLiteral "ctx.a,ctx.b,'c'"
unfolding program
whole-IsLiteral = record { no_dollar = refl; no_template = refl; no_yaml = refl; no_escape = refl }

interpolate-keys_example :
    (interpolate no_template no_yaml shown content 2 (str "$ctx.a,ctx.b")
      ≡ or_else
          (first_value content (split b',' "ctx.a,ctx.b"))
          (panic honeydipper.Outcome.interpolation_error))
    × (interpolate no_template no_yaml shown content 2 (str "$?ctx.a,ctx.b")
        ≡ or_else (first_value content (split b',' "ctx.a,ctx.b")) (done null))
    × (interpolate no_template no_yaml shown content 2 (str "$ctx.a,ctx.b,'c'")
        ≡ or_else (first_value content (split b',' "ctx.a,ctx.b")) (done (str "c")))
unfolding program
interpolate-keys_example =
    interpolate-keys no_template no_yaml shown content (λ s. refl) 0 "ctx.a,ctx.b" "'" "c" refl
      keys-IsLiteral refl (refl, (refl, tt)) refl whole-IsLiteral

-- A merge that lets the source's map follow the target's.
abbrev join : Fields → Value → Outcome Fields
join fs v = done fs

abbrev as_given : Value → Fields → Outcome Value
as_given v env = done v

abbrev raw_trigger : Trigger
raw_trigger = record {
  driver = "webhook";
  raw_event = "";
  criteria = none;
  parameters = none;
  source = record { system = ""; trigger = "" };
  exports = some (field "a" null end);
  description = "";
  meta = null;
}

abbrev hit : Trigger
hit = record {
  driver = "";
  raw_event = "";
  criteria = none;
  parameters = none;
  source = record { system = "repo"; trigger = "push" };
  exports = none;
  description = "";
  meta = null;
}

abbrev systems : Assoc System
systems = ("repo", record no_system { triggers = ("push", raw_trigger) ∷ [] }) ∷ []

abbrev flow : Workflow
flow = workflow blank unset unset

abbrev set : DataSet
set = record { systems = systems; rules = record { on_event = hit; action = flow } ∷ [] }

abbrev empty_set : DataSet
empty_set = record { systems = systems; rules = [] }

hit-Chain : Chain empty_set hit raw_trigger (hit ∷ [])
unfolding program
hit-Chain = based refl (raw refl)

abbrev hit_collapsed : CollapsedTrigger
hit_collapsed = record {
  criteria = some end;
  exports = raw_trigger.exports ∷ hit.exports ∷ [];
  sys_data = some end;
  parameters = some end;
  sys_name = "repo";
}

hit_collapses : collapse_trigger join as_given 2 empty_set hit ≡ done (raw_trigger, hit_collapsed)
unfolding program
hit_collapses = refl

collapse_trigger-Chain_example :
    (raw_trigger ≡ raw_trigger)
    × (hit_collapsed.exports ≡ raw_trigger.exports ∷ exports_of (turned (hit ∷ []) []))
    × (hit_collapsed.sys_name ≡ "repo")
collapse_trigger-Chain_example =
    collapse_trigger-Chain join as_given 2 empty_set (raw_trigger, hit_collapsed) hit-Chain
      (omega arith) hit_collapses

abbrev push_rule : CollapsedRule
push_rule = record { trigger = hit_collapsed; original = record { on_event = hit; action = flow } }

abbrev table : Assoc (List CollapsedRule)
table = ("webhook.", push_rule ∷ []) ∷ []

abbrev payload : Value
payload = obj (field "events" (list (cons (str "webhook.") nil)) end)

table_built : build_rules join as_given (λ s. true) 2 set set.rules [] ≡ some table
unfolding program visit_fields
table_built = refl
