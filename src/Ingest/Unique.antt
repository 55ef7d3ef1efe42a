-- ===== src/Ingest/Unique.antt =====
-- The open incidents through a heartbeat.
use nodepulse.Base.{
  String, ℕ, ◌≡◌, sym, ap, ◌∙◌, inl, inr, Bool, Option, none, some, List, [], ◌∷◌, Bool-cases,
}
use nodepulse.Base.Int.{ℤ}
use nodepulse.Text.{is_empty}
use nodepulse.Store.{Store}
use mathlib.Core.Path.{subst}
use nodepulse.Network.{
  NetworkRate, errors_rise, drops_rise, report_errors, report_drops, evaluate_network_alerts,
}
use nodepulse.Evaluator.{
  World, MetricSample, Readings, Outcome, done, crashed, evaluate_metric_alert, evaluate_rules,
  noted, after_report, report_rule, incident_id_after_create, metrics_alert_rules_for_node,
}
use nodepulse.Evaluator.Calm.{selected_store}
use nodepulse.AlertRules.{MetricAlertRule}
use nodepulse.Evaluator.Turns.{
  Turn, turn_key, evaluate, evaluate_cases, breaching_cases, done_inj, crashed_not_done,
  Outcome-cases, clearing_store, store_after,
}
use nodepulse.Incident.{IncidentError}
use nodepulse.Incident.Unique.{OneOpen, OneOpen-same, create-OneOpen}

some_store : (p q : Store) → ◌≡◌ {A = Option Store} (some p) (some q) → p ≡ q
some_store p q e = cc e

module _ {F : Type 0} (at_least : F → ℕ → Bool) (whole : F → ℤ) (tenths : F → ℤ → ℤ)
    (parse_chat : String → Option ℤ) where
  errors-OneOpen :
      (p : Store) (node_id : String) (r : NetworkRate F) (now : ℕ)
      → OneOpen p
      → OneOpen (report_errors at_least whole tenths parse_chat p node_id r now)
  unfolding report_errors
  errors-OneOpen p node_id r now h =
      elim (Bool-cases (errors_rise at_least whole tenths parse_chat r)) [
        | inl y ↦ rw y (create-OneOpen parse_chat p node_id "critical" _ _ now h)
        | inr n ↦ rw n h
      ]

  drops-OneOpen :
      (p : Store) (node_id : String) (r : NetworkRate F) (now : ℕ)
      → OneOpen p
      → OneOpen (report_drops at_least whole tenths parse_chat p node_id r now)
  unfolding report_drops
  drops-OneOpen p node_id r now h =
      elim (Bool-cases (drops_rise at_least whole tenths parse_chat r)) [
        | inl y ↦ rw y (create-OneOpen parse_chat p node_id "warning" _ _ now h)
        | inr n ↦ rw n h
      ]

  pub alerts-OneOpen :
      (rates : List (NetworkRate F)) (p : Store) (node_id : String) (now : ℕ)
      → OneOpen p
      → OneOpen (evaluate_network_alerts at_least whole tenths parse_chat p node_id rates now)
  unfolding evaluate_network_alerts
  alerts-OneOpen [] p node_id now h = h
  alerts-OneOpen (r ∷ rs) p node_id now h =
      let q = report_errors at_least whole tenths parse_chat p node_id r now in
      alerts-OneOpen rs (report_drops at_least whole tenths parse_chat q node_id r now) node_id now
        (drops-OneOpen q node_id r now (errors-OneOpen p node_id r now h))

module _ {F : Type 0} (is_gt is_lt : F → F → Bool) (detail : String → F → F → ℤ → String)
    (show_id : ℕ → String) (parse_chat : String → Option ℤ) where
  report-OneOpen :
      (w w' : World F) (key node_id : String) (rule : MetricAlertRule F) (at : Readings)
      (o : Store × Option IncidentError)
      → OneOpen o.0
      → after_report w key node_id rule at o ≡ done w'
      → OneOpen w'.store
  unfolding after_report incident_id_after_create
  report-OneOpen w w' key node_id rule at (p, some e) h d = absurd (crashed_not_done w' d)
  report-OneOpen w w' key node_id rule at (p, none) h d =
      OneOpen-same p w'.store (ap (λ v. v.store.incidents) (sym (done_inj _ w' d))) h

  evaluate-OneOpen :
      (w w' : World F) (t : Turn F)
      → OneOpen w.store
      → evaluate is_gt is_lt detail show_id parse_chat w t ≡ done w'
      → OneOpen w'.store
  unfolding report_rule
  evaluate-OneOpen w w' t h e = elim (evaluate_cases is_gt is_lt detail show_id parse_chat w t) [
    | inl (_, g) ↦ same w (sym g ∙ e) h
    | inr (inl (value, _, _, g)) ↦
        elim (breaching_cases is_gt is_lt detail show_id parse_chat w
          (turn_key is_gt is_lt detail show_id parse_chat t) t.node_id t.rule value t.at) [
            | inl (_, d) ↦
                report-OneOpen (noted w (turn_key is_gt is_lt detail show_id parse_chat t) t.at.now)
                  w' (turn_key is_gt is_lt detail show_id parse_chat t) t.node_id t.rule t.at
                  (report_rule is_gt is_lt detail show_id parse_chat
                    (noted w (turn_key is_gt is_lt detail show_id parse_chat t) t.at.now) t.node_id
                    t.rule value t.at)
                  (create-OneOpen parse_chat w.store t.node_id t.rule.severity t.rule.title _
                    t.at.created_at h)
                  (sym d ∙ sym g ∙ e)
            | inr (_, d) ↦
                same (noted w (turn_key is_gt is_lt detail show_id parse_chat t) t.at.now)
                  (sym d ∙ sym g ∙ e) h
          ]
    | inr (inr (_, g)) ↦
        subst OneOpen
          (some_store w.store w'.store (
            sym (clearing_store w (turn_key is_gt is_lt detail show_id parse_chat t) t.rule t.at)
            ∙ ap store_after (sym g ∙ e)))
          h
  ]
    where
      same : (v : World F) → done v ≡ done w' → OneOpen v.store → OneOpen w'.store
      same v d k = subst (λ u. OneOpen u.store) (done_inj v w' d) k

  rules-OneOpen :
      (rules : List (MetricAlertRule F)) (w w' : World F) (node_id : String)
      (sample : MetricSample F) (at : ℕ → Readings)
      → OneOpen w.store
      → evaluate_rules is_gt is_lt detail show_id parse_chat (done w) node_id sample at rules
        ≡ done w'
      → OneOpen w'.store
  unfolding evaluate_rules
  rules-OneOpen [] w w' node_id sample at h e = subst (λ u. OneOpen u.store) (done_inj w w' e) h
  rules-OneOpen (r ∷ rs) w w' node_id sample at h e =
      elim (Outcome-cases (evaluate is_gt is_lt detail show_id parse_chat w (turn_of r))) [
        | inl c ↦ absurd (
            stopped (
              ap (λ o. evaluate_rules is_gt is_lt detail show_id parse_chat o node_id sample at rs)
                (sym c)
              ∙ e))
        | inr (u, d) ↦
            rules-OneOpen rs u w' node_id sample at (evaluate-OneOpen w u (turn_of r) h d) (
              ap (λ o. evaluate_rules is_gt is_lt detail show_id parse_chat o node_id sample at rs)
                (sym d)
              ∙ e)
      ]
    where
      turn_of : MetricAlertRule F → Turn F
      turn_of q = record { node_id = node_id; sample = sample; rule = q; at = at q.id }

      stopped :
          ◌≡◌ {A = Outcome F}
            (evaluate_rules is_gt is_lt detail show_id parse_chat crashed node_id sample at rs)
            (done w')
          → ⊥
      stopped d = crashed_not_done w' d

  pub metric-OneOpen :
      (is_one : ℤ → Bool) (w w' : World F) (node_id : String) (owner : Option ℤ)
      (sample : MetricSample F) (at : ℕ → Readings)
      → OneOpen w.store
      → evaluate_metric_alert is_gt is_lt detail show_id parse_chat is_one w node_id owner sample at
        ≡ done w'
      → OneOpen w'.store
  unfolding evaluate_metric_alert
  metric-OneOpen is_one w w' node_id owner sample at h e = elim (Bool-cases (is_empty node_id)) [
    | inl y ↦ subst (λ u. OneOpen u.store) (done_inj w w' (rw y at e)) h
    | inr n ↦
        let (u, rules) = metrics_alert_rules_for_node is_one w node_id owner in
        rules-OneOpen rules u w' node_id sample at
          (subst OneOpen
            (sym (selected_store is_gt is_lt detail show_id parse_chat is_one w node_id owner)) h)
          (rw n at e)
  ]
