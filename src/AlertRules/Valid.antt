-- ===== src/AlertRules/Valid.antt =====
-- What the alert rules in the table satisfy.
use nodepulse.Base.{
  ℕ, ◌≤◌, String, ◌≡◌, refl, ◌⊎◌, inl, inr, true, false, ◌&&◌, ◌||◌, none, arith, str_eq,
  str_eq_iff, Bool-cases, List, [], ◌∷◌, ◌==◌, All,
}
use nodepulse.Base.Int.{ℤ, pos, negsuc, ltb_ℤ}
use nodepulse.Text.{is_empty, trim_space, trim_space_idem}
use nodepulse.AlertRules.{
  MetricAlertRule, MetricAlertRuleRequest, is_metric, is_op, is_severity,
  validate_alert_rule_request, stamp_rule, without_rule, update_rules, is_own, set_rule,
}

-- Fields that the evaluator can read: a node or a tag selector as the scope says, a known metric,
-- test and severity, a delay of at most an hour, and a title; no texts with space at their ends.
pub record AreFields (scope node_id tag_selector metric op severity title : String)
    (for_seconds : ℤ) : Type 0 where
  pub target :
      ((scope ≡ "node") × (is_empty node_id ≡ false))
      ⊎ ((scope ≡ "fleet") × (is_empty tag_selector ≡ false))
  pub known_metric :
      ((metric ≡ "cpu_pct") ⊎ (metric ≡ "mem_pct")) ⊎ ((metric ≡ "disk_pct") ⊎ (metric ≡ "load1"))
  pub known_op : (op ≡ "gt") ⊎ (op ≡ "lt")
  pub known_severity : (severity ≡ "warning") ⊎ (severity ≡ "critical")
  pub delay : (n : ℕ) × (for_seconds ≡ pos n) × (n ≤ 3600)
  pub titled : is_empty title ≡ false
  pub trimmed :
      (trim_space node_id ≡ node_id)
      × (trim_space tag_selector ≡ tag_selector)
      × (trim_space title ≡ title)

abbrev pub IsRule : {F : Type 0} → MetricAlertRule F → Type 0
IsRule r = AreFields r.scope r.node_id r.tag_selector r.metric r.op r.severity r.title r.for_seconds

-- The eight checks of a request, passed.
record Checked {F : Type 0} (req : MetricAlertRuleRequest F) : Type 0 where
  scope : (str_eq req.scope "node" || str_eq req.scope "fleet") ≡ true
  node : (str_eq req.scope "node" && is_empty (trim_space req.node_id)) ≡ false
  tags : (str_eq req.scope "fleet" && is_empty (trim_space req.tag_selector)) ≡ false
  metric : is_metric req.metric ≡ true
  op : is_op req.op ≡ true
  severity : is_severity req.severity ≡ true
  delay : (ltb_ℤ req.for_seconds (pos 0) || ltb_ℤ (pos 3600) req.for_seconds) ≡ false
  title : is_empty (trim_space req.title) ≡ false

checked :
    {F : Type 0} (req : MetricAlertRuleRequest F)
    → validate_alert_rule_request req ≡ none
    → Checked req
unfolding validate_alert_rule_request
checked req h = record {
  scope = ground (arith, h);
  node = ground (arith, h);
  tags = ground (arith, h);
  metric = ground (arith, h);
  op = ground (arith, h);
  severity = ground (arith, h);
  delay = ground (arith, h);
  title = ground (arith, h);
}

within :
    (s : ℤ) → (ltb_ℤ s (pos 0) || ltb_ℤ (pos 3600) s) ≡ false → (n : ℕ) × (s ≡ pos n) × (n ≤ 3600)
within (pos n) h = (n, refl, ground (arith, h))
within (negsuc n) h = ground (arith, h)

either_name : (s a b : String) → (str_eq s a || str_eq s b) ≡ true → (s ≡ a) ⊎ (s ≡ b)
either_name s a b h = elim (Bool-cases (str_eq s a)) [
  | inl y ↦ inl ((str_eq_iff s a).0 y)
  | inr n ↦ inr ((str_eq_iff s b).0 (rw n at h))
]

metric_name :
    (s : String)
    → is_metric s ≡ true
    → ((s ≡ "cpu_pct") ⊎ (s ≡ "mem_pct")) ⊎ ((s ≡ "disk_pct") ⊎ (s ≡ "load1"))
unfolding is_metric
metric_name s h = elim (Bool-cases (str_eq s "cpu_pct" || str_eq s "mem_pct")) [
  | inl y ↦ inl (either_name s "cpu_pct" "mem_pct" y)
  | inr n ↦ inr (either_name s "disk_pct" "load1" (ground (arith, n, h)))
]

targeted :
    {F : Type 0} (req : MetricAlertRuleRequest F)
    → Checked req
    → ((req.scope ≡ "node") × (is_empty (trim_space req.node_id) ≡ false))
      ⊎ ((req.scope ≡ "fleet") × (is_empty (trim_space req.tag_selector) ≡ false))
targeted req c = elim (Bool-cases (str_eq req.scope "node")) [
  | inl y ↦ inl ((str_eq_iff req.scope "node").0 y, rw y at c.node)
  | inr n ↦
      let fleet : str_eq req.scope "fleet" ≡ true = rw n at c.scope in
      inr ((str_eq_iff req.scope "fleet").0 fleet, rw fleet at c.tags)
]

pub request-AreFields :
    {F : Type 0} (req : MetricAlertRuleRequest F)
    → validate_alert_rule_request req ≡ none
    → AreFields req.scope
        (trim_space req.node_id)
        (trim_space req.tag_selector)
        req.metric
        req.op
        req.severity
        (trim_space req.title)
        req.for_seconds
unfolding is_op is_severity
request-AreFields req h =
    let c = checked req h in
    record {
      target = targeted req c;
      known_metric = metric_name req.metric c.metric;
      known_op = either_name req.op "gt" "lt" c.op;
      known_severity = either_name req.severity "warning" "critical" c.severity;
      delay = within req.for_seconds c.delay;
      titled = c.title;
      trimmed = (
        trim_space_idem req.node_id,
        trim_space_idem req.tag_selector,
        trim_space_idem req.title,
      );
    }

module _ {F : Type 0} where
  pub update-All :
      (user_id : ℤ) (id : ℕ) (req : MetricAlertRuleRequest F) (now : ℕ)
      (rs : List (MetricAlertRule F))
      → validate_alert_rule_request req ≡ none
      → All IsRule rs
      → All IsRule (update_rules user_id id req now rs)
  unfolding update_rules set_rule
  update-All user_id id req now [] h w = tt
  update-All user_id id req now (r ∷ rs) h w = elim (Bool-cases (is_own user_id id r)) [
    | inl own ↦ rw own (request-AreFields req h, update-All user_id id req now rs h w.1)
    | inr other ↦ rw other (w.0, update-All user_id id req now rs h w.1)
  ]

  pub without-All :
      (user_id : ℤ) (id : ℕ) (rs : List (MetricAlertRule F))
      → All IsRule rs
      → All IsRule (without_rule user_id id rs)
  unfolding without_rule
  without-All user_id id [] w = tt
  without-All user_id id (r ∷ rs) w = elim (Bool-cases (is_own user_id id r)) [
    | inl own ↦ rw own (without-All user_id id rs w.1)
    | inr other ↦ rw other (w.0, without-All user_id id rs w.1)
  ]

  pub stamp-All :
      (stamp : MetricAlertRule F → MetricAlertRule F) (id : ℕ) (rs : List (MetricAlertRule F))
      → ((r : MetricAlertRule F) → IsRule r → IsRule (stamp r))
      → All IsRule rs
      → All IsRule (stamp_rule stamp id rs)
  unfolding stamp_rule
  stamp-All stamp id [] k w = tt
  stamp-All stamp id (r ∷ rs) k w = elim (Bool-cases (r.id == id)) [
    | inl y ↦ rw y (k r w.0, stamp-All stamp id rs k w.1)
    | inr n ↦ rw n (w.0, stamp-All stamp id rs k w.1)
  ]
