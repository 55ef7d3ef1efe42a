-- ===== src/Examples/Rules.antt =====
-- A rule comes into being and changes.
use nodepulse.Text.{is_space, trim_space}
use nodepulse.Base.{ℕ, ◌≡◌, refl, List, [], ◌∷◌, All, some, true, false, str_eq}
use nodepulse.Base.Int.{pos, negsuc}
use nodepulse.AlertRules.{
  MetricAlertRuleRequest, Rules, validate_alert_rule_request, bad_for_seconds,
}
use nodepulse.AlertRules.Valid.{IsRule}
use nodepulse.AlertRules.History.{Op, create, change, delete, fired, apply_all, apply_all-All}

abbrev request : MetricAlertRuleRequest ℕ
request = record {
  node_id = " n1 ";
  tag_selector = "";
  scope = "node";
  metric = "cpu_pct";
  op = "gt";
  threshold = 90;
  for_seconds = pos 60;
  severity = "critical";
  title = "CPU";
  enabled = true;
}

abbrev no_rules : Rules ℕ
no_rules = record { rows = []; next_id = 1; faults = false ∷ true ∷ [] }

abbrev edits : List (Op ℕ)
edits =
    create (pos 2) request 10
    ∷ create (pos 3) request 11
    ∷ change (pos 2) 1 (record request { for_seconds = negsuc 0 }) 12
    ∷ fired 1 13
    ∷ delete (pos 3) 1
    ∷ []

apply_all-All_example : All IsRule (apply_all no_rules edits).rows
apply_all-All_example = apply_all-All no_rules edits tt

past_refused :
    validate_alert_rule_request (record request { for_seconds = negsuc 0 }) ≡ some bad_for_seconds
unfolding validate_alert_rule_request str_eq trim_space is_space
past_refused = refl
