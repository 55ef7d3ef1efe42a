-- ===== src/AlertRules.antt =====
-- The metric alert rules of pkg/store/alert_rules.go: their validation and the operations that
-- change them. `F` is the type of floats.
pub mod Valid
pub mod History
use nodepulse.Base.{
  ℕ, zero, suc, ◌+◌, ◌-◌, ◌*◌, ◌/◌, ◌%◌, ◌^◌, ◌≤◌, ◌<◌, String, ◌≡◌, refl, sym, ap, ◌∙◌, ◌≢◌, ◌↔◌,
  ◌⊎◌, inl, inr, Bool, true, false, not, ◌&&◌, ◌||◌, Option, none, some, List, [], ◌∷◌, ◌++◌, map,
  arith, ltb, leb, ◌==◌, if◌then◌else◌, ltb→lt, lt→ltb, leb→le, ==_iff, str_eq, str_eq_iff,
  str_eq_refl, Bool-cases, Option-cases, length, length-append, All, All-append, All-map, update,
  update_self, update_ne,
}
use nodepulse.Base.Int.{ℤ, pos, leb_ℤ, ltb_ℤ, eq_ℤ}
use nodepulse.Text.{is_empty, trim_space}
use nodepulse.Store.{next_fault, later_faults}

pub record MetricAlertRule (F : Type 0) : Type 0 where
  pub id : ℕ
  pub user_id : ℤ
  pub node_id : String
  pub tag_selector : String
  pub scope : String
  pub metric : String
  pub op : String
  pub threshold : F
  pub for_seconds : ℤ
  pub severity : String
  pub title : String
  pub enabled : Bool
  pub created_at : ℕ
  pub updated_at : ℕ
  pub last_fired_at : ℕ
  pub last_cleared_at : ℕ

pub record MetricAlertRuleRequest (F : Type 0) : Type 0 where
  pub node_id : String
  pub tag_selector : String
  pub scope : String
  pub metric : String
  pub op : String
  pub threshold : F
  pub for_seconds : ℤ
  pub severity : String
  pub title : String
  pub enabled : Bool

-- What validateAlertRuleRequest finds first, or an error of the driver, or a missing row.
pub data RuleError : Type 0 where
  bad_scope no_node no_tags bad_metric bad_op bad_severity bad_for_seconds no_title : RuleError
  database row_missing : RuleError

unfoldable pub is_metric : String → Bool
is_metric s = str_eq s "cpu_pct" || str_eq s "mem_pct" || str_eq s "disk_pct" || str_eq s "load1"

unfoldable pub is_op : String → Bool
is_op s = str_eq s "gt" || str_eq s "lt"

unfoldable pub is_severity : String → Bool
is_severity s = str_eq s "warning" || str_eq s "critical"

module _ {F : Type 0} where
  unfoldable pub validate_alert_rule_request : MetricAlertRuleRequest F → Option RuleError
  unfolding is_metric is_op is_severity
  validate_alert_rule_request req =
      if not (str_eq req.scope "node") && not (str_eq req.scope "fleet")
      then some bad_scope
      else if str_eq req.scope "node" && is_empty (trim_space req.node_id)
      then some no_node
      else if str_eq req.scope "fleet" && is_empty (trim_space req.tag_selector)
      then some no_tags
      else if not (is_metric req.metric)
      then some bad_metric
      else if not (is_op req.op)
      then some bad_op
      else if not (is_severity req.severity)
      then some bad_severity
      else if ltb_ℤ req.for_seconds (pos 0) || ltb_ℤ (pos 3600) req.for_seconds
      then some bad_for_seconds
      else if is_empty (trim_space req.title)
      then some no_title
      else none

-- The table metric_alert_rules, the id of the next row, and the outcomes of the statements to come:
-- `true` is an error of the driver.
pub record Rules (F : Type 0) : Type 0 where
  pub rows : List (MetricAlertRule F)
  pub next_id : ℕ
  pub faults : List Bool

module _ {F : Type 0} where
  abbrev pub used : Rules F → Rules F
  used t = record t { faults = later_faults t.faults }

  pub new_rule : ℕ → ℤ → MetricAlertRuleRequest F → ℕ → MetricAlertRule F
  new_rule id user_id req now = record {
    id = id;
    user_id = user_id;
    node_id = trim_space req.node_id;
    tag_selector = trim_space req.tag_selector;
    scope = req.scope;
    metric = req.metric;
    op = req.op;
    threshold = req.threshold;
    for_seconds = req.for_seconds;
    severity = req.severity;
    title = trim_space req.title;
    enabled = req.enabled;
    created_at = now;
    updated_at = now;
    last_fired_at = 0;
    last_cleared_at = 0;
  }

  -- The new id, or an error.
  insert_rule :
      Rules F → ℤ → MetricAlertRuleRequest F → ℕ → Option RuleError → Rules F × (RuleError ⊎ ℕ)
  unfolding new_rule
  insert_rule t user_id req now (some e) = (t, inl e)
  insert_rule t user_id req now none = if next_fault t.faults then (used t, inl database) else (
    record (used t) {
      rows = t.rows ++ new_rule t.next_id user_id req now ∷ [];
      next_id = suc t.next_id;
    },
    inr t.next_id,
  )

  unfoldable pub create_metric_alert_rule :
      Rules F → ℤ → MetricAlertRuleRequest F → ℕ → Rules F × (RuleError ⊎ ℕ)
  unfolding insert_rule validate_alert_rule_request
  create_metric_alert_rule t user_id req now =
      insert_rule t user_id req now (validate_alert_rule_request req)

  -- `WHERE id = ? AND user_id = ?`.
  unfoldable pub is_own : ℤ → ℕ → MetricAlertRule F → Bool
  is_own user_id id r = r.id == id && eq_ℤ r.user_id user_id

  unfoldable pub set_rule : MetricAlertRuleRequest F → ℕ → MetricAlertRule F → MetricAlertRule F
  set_rule req now r = record r {
    node_id = trim_space req.node_id;
    tag_selector = trim_space req.tag_selector;
    scope = req.scope;
    metric = req.metric;
    op = req.op;
    threshold = req.threshold;
    for_seconds = req.for_seconds;
    severity = req.severity;
    title = trim_space req.title;
    enabled = req.enabled;
    updated_at = now;
  }

  unfoldable pub update_rules :
      ℤ → ℕ → MetricAlertRuleRequest F → ℕ → List (MetricAlertRule F) → List (MetricAlertRule F)
  update_rules user_id id req now [] = []
  update_rules user_id id req now (r ∷ rs) =
      (if is_own user_id id r then set_rule req now r else r) ∷ update_rules user_id id req now rs

  unfoldable pub has_own : ℤ → ℕ → List (MetricAlertRule F) → Bool
  has_own user_id id [] = false
  has_own user_id id (r ∷ rs) = is_own user_id id r || has_own user_id id rs

  change_rule :
      Rules F → ℤ → ℕ → MetricAlertRuleRequest F → ℕ → Option RuleError → Rules F × Option RuleError
  unfolding update_rules has_own
  change_rule t user_id id req now (some e) = (t, some e)
  change_rule t user_id id req now none = if next_fault t.faults then (used t, some database) else (
    record (used t) { rows = update_rules user_id id req now t.rows },
    if has_own user_id id t.rows then none else some row_missing,
  )

  unfoldable pub update_metric_alert_rule :
      Rules F → ℤ → ℕ → MetricAlertRuleRequest F → ℕ → Rules F × Option RuleError
  unfolding change_rule validate_alert_rule_request
  update_metric_alert_rule t user_id id req now =
      change_rule t user_id id req now (validate_alert_rule_request req)

  unfoldable pub without_rule : ℤ → ℕ → List (MetricAlertRule F) → List (MetricAlertRule F)
  without_rule user_id id [] = []
  without_rule user_id id (r ∷ rs) =
      let rest = without_rule user_id id rs in if is_own user_id id r then rest else r ∷ rest

  unfoldable pub delete_metric_alert_rule : Rules F → ℤ → ℕ → Rules F × Option RuleError
  unfolding without_rule
  delete_metric_alert_rule t user_id id =
      if next_fault t.faults
      then (used t, some database)
      else (record (used t) { rows = without_rule user_id id t.rows }, none)

  unfoldable pub stamp_rule :
      (MetricAlertRule F → MetricAlertRule F)
      → ℕ
      → List (MetricAlertRule F)
      → List (MetricAlertRule F)
  stamp_rule stamp id [] = []
  stamp_rule stamp id (r ∷ rs) = (if r.id == id then stamp r else r) ∷ stamp_rule stamp id rs

  -- An error of the driver is dropped.
  unfoldable pub mark_alert_rule_fired : Rules F → ℕ → ℕ → Rules F
  unfolding stamp_rule
  mark_alert_rule_fired t id now =
      if next_fault t.faults
      then used t
      else record (used t) { rows = stamp_rule (λ r. record r { last_fired_at = now }) id t.rows }

  unfoldable pub mark_alert_rule_cleared : Rules F → ℕ → ℕ → Rules F
  unfolding stamp_rule
  mark_alert_rule_cleared t id now =
      if next_fault t.faults
      then used t
      else record (used t) { rows = stamp_rule (λ r. record r { last_cleared_at = now }) id t.rows }
