-- ===== src/Evaluator/Calm.antt =====
-- Evaluations where no SQL statement on the tables of the incidents meets an error.
use mathlib.Core.Path.{subst}
use nodepulse.Base.{
  String, ℕ, ◌≡◌, refl, sym, ap, ◌∙◌, ◌≢◌, inl, inr, Bool, Option, none, some, List, [], ◌∷◌,
  Bool-cases, update_self,
}
use nodepulse.Base.Int.{ℤ}
use nodepulse.Text.{is_empty}
use nodepulse.Store.{next_fault, Store, Incident}
use nodepulse.Incident.{IncidentError, newest_open}
use nodepulse.Incident.Calm.{Calm, Calm-succeeds, spent-Calm, Opened, create-Opened}
use nodepulse.AlertRules.{MetricAlertRule}
use nodepulse.Evaluator.{
  World, Readings, MetricSample, Outcome, done, crashed, clearing, noted, after_report, report_rule,
  incident_id_after_create, evaluate_rules, evaluate_metric_alert, metrics_alert_rules_for_node,
}
use nodepulse.Evaluator.Turns.{
  Turn, turn_key, evaluate, evaluate_cases, breaching_cases, Outcome-cases, clearing_store,
  store_after,
}
use nodepulse.Evaluator.Fire.{not_crashed, none_error, clearing_runs, Due, reported, Due-reported}

some_store : (p q : Store) → ◌≡◌ {A = Option Store} (some p) (some q) → p ≡ q
some_store p q e = cc e

module _ {F : Type 0} (is_gt is_lt : F → F → Bool) (detail : String → F → F → ℤ → String)
    (show_id : ℕ → String) (parse_chat : String → Option ℤ) where
  -- A report with no error of the driver.
  record Fired (w : World F) (t : Turn F) (w' : World F) : Type 0 where
    calm : Calm w'.store
    row : Incident
    newest : newest_open t.node_id t.rule.title w'.store.incidents ≡ some row
    held : w'.eval.firing (turn_key is_gt is_lt detail show_id parse_chat t) ≡ row.id

  fired :
      (w : World F) (t : Turn F) (o : Store × Option IncidentError)
      → Opened parse_chat t.node_id t.rule.title o
      → (w' : World F) × (after_report w
            (turn_key is_gt is_lt detail show_id parse_chat t)
            t.node_id
            t.rule
            t.at
            o
          ≡ done w')
        × Fired w t w'
  unfolding after_report incident_id_after_create
  fired w t (p, some e) h = absurd (none_error e (sym h.no_error))
  fired w t (p, none) h = (
    _,
    refl,
    record {
      calm = spent-Calm p h.calm;
      row = h.row;
      newest = h.newest;
      held =
          update_self w.eval.firing (turn_key is_gt is_lt detail show_id parse_chat t) _
          ∙ rw (Calm-succeeds p h.calm, h.newest) refl;
    },
  )

  -- If no SQL statement meets an error, then the evaluation of a due rule ends with an open incident of
  -- the node with the title of the rule, the newest of which is held for the key.
  pub Due-opens :
      (w : World F) (t : Turn F) (value : F)
      → Calm w.store
      → Due is_gt is_lt detail show_id parse_chat w t value
      → (w' : World F) × (row : Incident) × (evaluate is_gt is_lt detail show_id parse_chat w t
          ≡ done w')
        × (newest_open t.node_id t.rule.title w'.store.incidents ≡ some row)
        × (w'.eval.firing (turn_key is_gt is_lt detail show_id parse_chat t) ≡ row.id)
  unfolding report_rule
  Due-opens w t value c due =
      let (w', e, f) =
        fired (noted w (turn_key is_gt is_lt detail show_id parse_chat t) t.at.now) t
          (reported is_gt is_lt detail show_id parse_chat w t value)
          (create-Opened parse_chat w.store t.node_id t.rule.severity t.rule.title _ t.at.created_at
            c) in
      (
        w',
        f.row,
        Due-reported is_gt is_lt detail show_id parse_chat w t value due ∙ e,
        f.newest,
        f.held,
      )

  -- A calm evaluation of a rule ends, and leaves the store calm.
  abbrev Runs : Outcome F → Type 0
  Runs o = (w : World F) × (o ≡ done w) × Calm w.store

  evaluate-Runs :
      (w : World F) (t : Turn F)
      → Calm w.store
      → Runs (evaluate is_gt is_lt detail show_id parse_chat w t)
  unfolding report_rule
  evaluate-Runs w t c = elim (evaluate_cases is_gt is_lt detail show_id parse_chat w t) [
    | inl (_, g) ↦ (w, g, c)
    | inr (inl (value, _, _, g)) ↦
        elim (breaching_cases is_gt is_lt detail show_id parse_chat w
          (turn_key is_gt is_lt detail show_id parse_chat t) t.node_id t.rule value t.at) [
            | inl (_, d) ↦
                let (w', e, f) =
                  fired (noted w (turn_key is_gt is_lt detail show_id parse_chat t) t.at.now) t
                    (reported is_gt is_lt detail show_id parse_chat w t value)
                    (create-Opened parse_chat w.store t.node_id t.rule.severity t.rule.title _
                      t.at.created_at c) in
                (w', g ∙ d ∙ e, f.calm)
            | inr (_, d) ↦
                (noted w (turn_key is_gt is_lt detail show_id parse_chat t) t.at.now, g ∙ d, c)
          ]
    | inr (inr (_, g)) ↦
        elim (Outcome-cases
          (clearing w (turn_key is_gt is_lt detail show_id parse_chat t) t.rule t.at)) [
            | inl x ↦
                absurd
                  (clearing_runs w (turn_key is_gt is_lt detail show_id parse_chat t) t.rule t.at x)
            | inr (u, x) ↦ (u, g ∙ x, same_store u x)
          ]
  ]
    where
      same_store :
          (u : World F)
          → clearing w (turn_key is_gt is_lt detail show_id parse_chat t) t.rule t.at ≡ done u
          → Calm u.store
      same_store u x =
          subst Calm
            (some_store w.store u.store (
              sym (clearing_store w (turn_key is_gt is_lt detail show_id parse_chat t) t.rule t.at)
              ∙ ap store_after x))
            c

  rules-Runs :
      (w : World F) (node_id : String) (sample : MetricSample F) (at : ℕ → Readings)
      (rules : List (MetricAlertRule F))
      → Calm w.store
      → Runs (evaluate_rules is_gt is_lt detail show_id parse_chat (done w) node_id sample at rules)
  unfolding evaluate_rules
  rules-Runs w node_id sample at [] c = (w, refl, c)
  rules-Runs w node_id sample at (r ∷ rs) c =
      let (u, e, d) =
        evaluate-Runs w (record { node_id = node_id; sample = sample; rule = r; at = at r.id }) c in
      let (v, f, k) = rules-Runs u node_id sample at rs d in
      (
        v,
        ap (λ o. evaluate_rules is_gt is_lt detail show_id parse_chat o node_id sample at rs) e ∙ f,
        k,
      )

  pub selected_store :
      (is_one : ℤ → Bool) (w : World F) (node_id : String) (owner : Option ℤ)
      → (metrics_alert_rules_for_node is_one w node_id owner).0.store ≡ w.store
  unfolding metrics_alert_rules_for_node
  selected_store is_one w node_id owner = elim (Bool-cases (next_fault w.rules.faults)) [
    | inl f ↦ rw f refl
    | inr f ↦ rw f refl
  ]

  -- If no SQL statement on the tables of the incidents meets an error, then EvaluateMetricAlert does not
  -- crash, whatever the rules, the tags, the sample and the clock.
  pub Calm-evaluates :
      (is_one : ℤ → Bool) (w : World F) (node_id : String) (owner : Option ℤ)
      (sample : MetricSample F) (at : ℕ → Readings)
      → Calm w.store
      → evaluate_metric_alert is_gt is_lt detail show_id parse_chat is_one w node_id owner sample at
        ≢ crashed
  unfolding evaluate_metric_alert
  Calm-evaluates is_one w node_id owner sample at c e = elim (Bool-cases (is_empty node_id)) [
    | inl y ↦ not_crashed w (rw y at e)
    | inr n ↦
        let (u, rules) = metrics_alert_rules_for_node is_one w node_id owner in
        let (v, f, _) =
          rules-Runs u node_id sample at rules
            (subst Calm (sym (selected_store is_one w node_id owner)) c) in
        not_crashed v (sym f ∙ rw n at e)
  ]
