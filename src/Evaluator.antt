-- ===== src/Evaluator.antt =====
-- The metric alerts: MetricsAlertRulesForNode of pkg/store/alert_rules.go and
-- pkg/store/alert_evaluator.go, with what it calls. `F` is the type of floats.
pub mod Turns
pub mod Dwell
pub mod Fire
pub mod Calm
use nodepulse.Base.{
  String, ℕ, zero, suc, ◌+◌, ◌-◌, ◌*◌, ◌/◌, ◌%◌, ◌^◌, ◌≤◌, ◌<◌, ◌≡◌, refl, sym, ap, ◌∙◌, ◌≢◌, ◌↔◌,
  ◌⊎◌, inl, inr, Bool, true, false, not, ◌&&◌, ◌||◌, Option, none, some, List, [], ◌∷◌, ◌++◌, map,
  arith, ltb, leb, ◌==◌, if◌then◌else◌, ltb→lt, lt→ltb, leb→le, ==_iff, str_eq, str_eq_iff,
  str_eq_refl, Bool-cases, Option-cases, length, length-append, All, All-append, All-map, update,
  update_self, update_ne,
}
use nodepulse.Base.Int.{ℤ, pos, negsuc, leb_ℤ, eq_ℤ}
use nodepulse.Breaker.{second}
use nodepulse.Text.{is_empty, trim_space}
use nodepulse.Store.{Store, Incident, fails, spent, next_fault}
use nodepulse.Incident.{IncidentError, create_incident, newest_open}
use nodepulse.AlertRules.{
  MetricAlertRule, Rules, mark_alert_rule_fired, mark_alert_rule_cleared, used,
}
use nodepulse.Tags.{Tags, node_matches_tag_selector}
use Prim.Native.String.{◌++◌ as join}

pub record MetricSample (F : Type 0) : Type 0 where
  pub node_id : String
  pub timestamp : ℤ
  pub cpu_percent : F
  pub load1 : F
  pub mem_used_pct : F
  pub disk_used_pct : F

-- When the breach of a key began, in nanoseconds, and the open incident of a key, with 0 for none.
pub record AlertEvaluator : Type 0 where
  pub breached : String → Option ℕ
  pub firing : String → ℕ

abbrev pub new_alert_evaluator : AlertEvaluator
new_alert_evaluator = record { breached = λ k. none; firing = λ k. 0 }

-- The tables that an evaluation reads and writes, and the evaluator.
pub record World (F : Type 0) : Type 0 where
  pub store : Store
  pub rules : Rules F
  pub tags : Tags
  pub eval : AlertEvaluator

-- The readings of the clock for a rule: of the evaluator in nanoseconds, of CreateIncident and of the
-- stamps of the rule in unix seconds.
pub record Readings : Type 0 where
  pub now : ℕ
  pub created_at : ℕ
  pub marked_at : ℕ

-- `crashed` is the fatal error of the runtime on the unlock of a mutex that is not locked.
pub data Outcome (F : Type 0) : Type 0 where
  done : World F → Outcome F
  crashed : Outcome F

-- int(now.Sub(start).Seconds()).
unfoldable pub seconds_since : ℕ → ℕ → ℤ
seconds_since start now =
    if leb start now
    then pos ((now - start) / second)
    else let s = (start - now) / second in if s == 0 then pos 0 else negsuc (s - 1)

unfoldable pub metric_sample_value : {F : Type 0} → MetricSample F → String → Option F
metric_sample_value s metric =
    let m = trim_space metric in
    if str_eq m "cpu_pct"
    then some s.cpu_percent
    else if str_eq m "mem_pct"
    then some s.mem_used_pct
    else if str_eq m "disk_pct"
    then some s.disk_used_pct
    else if str_eq m "load1"
    then some s.load1
    else none

abbrev id_or_zero : Option Incident → ℕ
id_or_zero none = 0
id_or_zero (some row) = row.id

-- 0 on an error or without a row.
unfoldable pub incident_id_after_create : Store → String → String → Store × ℕ
incident_id_after_create p node_id title =
    (spent p, if fails p then 0 else id_or_zero (newest_open node_id title p.incidents))

-- The owner of the node, with `none` for the empty text. `is_one` is what SQLite answers to `? = 1`
-- for an owner as a text.
module _ {F : Type 0} (is_one : ℤ → Bool) where
  unfoldable pub is_owned : Option ℤ → MetricAlertRule F → Bool
  is_owned none r = false
  is_owned (some owner) r = eq_ℤ r.user_id owner || is_one owner

  -- The WHERE clauses of the two queries.
  unfoldable pub applies : String → Option ℤ → MetricAlertRule F → Bool
  unfolding is_owned
  applies node_id owner r =
      r.enabled
      && ((str_eq r.scope "node" && str_eq r.node_id node_id)
          || eq_ℤ r.user_id (pos 0)
          || is_owned owner r)

  -- The loop over the rows, which are in the order of their ids.
  unfoldable pub selected_rules :
      Tags → String → Option ℤ → List (MetricAlertRule F) → Tags × List (MetricAlertRule F)
  unfolding applies
  selected_rules t node_id owner [] = (t, [])
  selected_rules t node_id owner (r ∷ rs) =
      let (u, matches) = node_matches_tag_selector t r.tag_selector node_id in
      let (skipped, others) = selected_rules t node_id owner rs in
      let (asked, others') = selected_rules u node_id owner rs in
      if not (applies node_id owner r)
      then (skipped, others)
      else if str_eq r.scope "fleet"
      then (asked, if matches then r ∷ others' else others')
      else (skipped, r ∷ others)

  unfoldable pub metrics_alert_rules_for_node :
      World F → String → Option ℤ → World F × List (MetricAlertRule F)
  unfolding selected_rules
  metrics_alert_rules_for_node w node_id owner =
      let (t, rules) = selected_rules w.tags node_id owner w.rules.rows in
      if next_fault w.rules.faults
      then (record w { rules = used w.rules }, [])
      else (record w { rules = used w.rules; tags = t }, rules)

-- `show_id` is a number in digits.
abbrev pub rule_key : (ℕ → String) → ℕ → String → String
rule_key show_id rule_id node_id = join (show_id rule_id) (String.◌∷◌ "|" node_id)

-- `is_gt` and `is_lt` compare floats.
unfoldable pub rule_breach : {F : Type 0} → (F → F → Bool) → (F → F → Bool) → String → F → F → Bool
rule_breach is_gt is_lt op value threshold =
    let o = trim_space op in
    if str_eq o "gt"
    then is_gt value threshold
    else if str_eq o "lt"
    then is_lt value threshold
    else false

abbrev pub start_or : ℕ → Option ℕ → ℕ
start_or now none = now
start_or now (some start) = start

unfoldable pub note_breach : AlertEvaluator → String → ℕ → AlertEvaluator
note_breach ev key now = elim (ev.breached key) [
  | none ↦ record ev { breached = update ev.breached key (some now) }
  | some start ↦ ev
]

abbrev pub is_some : Option ℕ → Bool
is_some none = false
is_some (some n) = true

module _ {F : Type 0} where
  -- Behind CreateIncident: an error unlocks the mutex a second time.
  unfoldable pub after_report :
      World F
      → String
      → String
      → MetricAlertRule F
      → Readings
      → Store × Option IncidentError
      → Outcome F
  unfolding incident_id_after_create
  after_report w key node_id rule at (p, some e) = crashed
  after_report w key node_id rule at (p, none) =
      let (q, id) = incident_id_after_create p node_id rule.title in
      done (record w {
        store = q;
        rules = mark_alert_rule_fired w.rules rule.id at.marked_at;
        eval = record w.eval { firing = update w.eval.firing key id };
      })

  abbrev pub noted : World F → String → ℕ → World F
  noted w key now = record w { eval = note_breach w.eval key now }

  -- The default case: the sample is inside.
  unfoldable pub clearing : World F → String → MetricAlertRule F → Readings → Outcome F
  clearing w key rule at =
      if is_some (w.eval.breached key) || not (w.eval.firing key == 0)
      then done (record w {
        rules = mark_alert_rule_cleared w.rules rule.id at.marked_at;
        eval = record {
          breached = update w.eval.breached key none;
          firing = update w.eval.firing key 0;
        };
      })
      else done w

-- `detail` is the text of an incident, `parse_chat` as for CreateIncident.
module _ {F : Type 0} (is_gt is_lt : F → F → Bool) (detail : String → F → F → ℤ → String)
    (show_id : ℕ → String) (parse_chat : String → Option ℤ) where
  -- What CreateIncident gives for a rule.
  unfoldable pub report_rule :
      World F → String → MetricAlertRule F → F → Readings → Store × Option IncidentError
  report_rule w node_id rule value at =
      create_incident parse_chat w.store node_id rule.severity rule.title
        (detail rule.metric value rule.threshold rule.for_seconds) at.created_at

  -- The case of a breach.
  unfoldable pub breaching :
      World F → String → String → MetricAlertRule F → F → Readings → Outcome F
  unfolding note_breach after_report report_rule
  breaching w key node_id rule value at =
      let start = start_or at.now (w.eval.breached key) in
      let w' = noted w key at.now in
      if w.eval.firing key == 0
      then (if leb_ℤ rule.for_seconds (seconds_since start at.now)
          then after_report w' key node_id rule at (report_rule w' node_id rule value at)
          else done w')
      else done w'

  -- A rule whose metric is not known is passed over.
  unfoldable pub judge : World F → String → MetricAlertRule F → Readings → Option F → Outcome F
  unfolding breaching clearing
  judge w node_id rule at none = done w
  judge w node_id rule at (some value) =
      let key = rule_key show_id rule.id node_id in
      if rule_breach is_gt is_lt rule.op value rule.threshold
      then breaching w key node_id rule value at
      else clearing w key rule at

  -- The body of the loop over the rules.
  unfoldable pub evaluate_rule :
      World F → String → MetricSample F → MetricAlertRule F → Readings → Outcome F
  unfolding judge
  evaluate_rule w node_id sample rule at =
      if not rule.enabled
      then done w
      else judge w node_id rule at (metric_sample_value sample rule.metric)

  -- The loop, with the readings of the clock by rule.
  unfoldable pub evaluate_rules :
      Outcome F → String → MetricSample F → (ℕ → Readings) → List (MetricAlertRule F) → Outcome F
  unfolding evaluate_rule
  evaluate_rules crashed node_id sample at rules = crashed
  evaluate_rules (done w) node_id sample at [] = done w
  evaluate_rules (done w) node_id sample at (r ∷ rs) =
      evaluate_rules (evaluate_rule w node_id sample r (at r.id)) node_id sample at rs

  unfoldable pub evaluate_metric_alert :
      (ℤ → Bool) → World F → String → Option ℤ → MetricSample F → (ℕ → Readings) → Outcome F
  unfolding metrics_alert_rules_for_node evaluate_rules
  evaluate_metric_alert is_one w node_id owner sample at =
      let (u, rules) = metrics_alert_rules_for_node is_one w node_id owner in
      if is_empty node_id then done w else evaluate_rules (done u) node_id sample at rules
