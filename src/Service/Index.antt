-- ===== src/Service/Index.antt =====
-- The map of the rules is an index: an event fires the rules that a scan over all rules would find.
use honeydipper.Common.{◌<◌, ℕ, Bool, List, [], ◌∷◌, ◌++◌, String, str_eq, if◌then◌else◌}
use honeydipper.Common.Assoc.{Assoc}
use honeydipper.Outcome.{Outcome, done, panic}
use honeydipper.Value.{Value, Fields}
use honeydipper.Config.{Trigger, Rule, DataSet}
use honeydipper.Config.Chain.{Chain, steps}
use honeydipper.Service.Rules.{CollapsedRule, rule_entry}

module _ (merge : Fields → Value → Outcome Fields) (interpolate : Value → Fields → Outcome Value)
    (compiles : String → Bool) (fuel : ℕ) (c : DataSet) where
  abbrev selected : String → Outcome (String × CollapsedRule) → List CollapsedRule
  selected key (done (k, r)) = if str_eq k key then r ∷ [] else []
  selected key (panic e) = []

  -- The collapsed rules with that key, in the order of the configuration.
  unfoldable pub scan_rules : String → List Rule → List CollapsedRule
  scan_rules key [] = []
  scan_rules key (rule ∷ rules) =
      selected key (rule_entry merge interpolate compiles fuel c rule) ++ scan_rules key rules

-- The sources of the trigger lead, in fewer steps than the fuel, to one that a driver raises.
abbrev pub Grounded : ℕ → DataSet → Rule → Type 0
Grounded fuel c rule =
    (root : Trigger) × (path : List Trigger) × Chain c rule.on_event root path × steps path < fuel
