-- ===== src/Evaluator/Fire.antt =====
-- When an evaluation crashes, and what it does where a rule is due.
use nodepulse.Base.{
  String, ℕ, ◌≡◌, refl, sym, ap, ◌∙◌, ◌↔◌, inl, inr, Bool, true, false, Option, none, some,
}
use nodepulse.Base.Int.{ℤ}
use nodepulse.Store.{Store}
use nodepulse.Incident.{IncidentError}
use nodepulse.AlertRules.{MetricAlertRule}
use nodepulse.Evaluator.{
  World, Readings, Outcome, done, crashed, metric_sample_value, clearing, noted, after_report,
  report_rule,
}
use nodepulse.Evaluator.Turns.{
  Turn, turn_key, verdict, evaluate, evaluate_cases, breaching_cases, Ripe, clearing_store,
  store_after,
}

pub not_crashed : {F : Type 0} (w : World F) → ◌≡◌ {A = Outcome F} (done w) crashed → ⊥
not_crashed w e = cc e

nothing_some : (p : Store) → ◌≡◌ {A = Option Store} none (some p) → ⊥
nothing_some p e = cc e

pub none_error : (e : IncidentError) → ◌≡◌ {A = Option IncidentError} none (some e) → ⊥
none_error e h = cc h

nothing_found : ◌≡◌ {A = Option Bool} none (some true) → ⊥
nothing_found e = cc e

other_found : ◌≡◌ {A = Option Bool} (some false) (some true) → ⊥
other_found e = cc e

pub clearing_runs :
    {F : Type 0} (w : World F) (key : String) (rule : MetricAlertRule F) (at : Readings)
    → clearing w key rule at ≡ crashed
    → ⊥
clearing_runs w key rule at e =
    nothing_some w.store (sym (ap store_after e) ∙ clearing_store w key rule at)

module _ {F : Type 0} (is_gt is_lt : F → F → Bool) (detail : String → F → F → ℤ → String)
    (show_id : ℕ → String) (parse_chat : String → Option ℤ) where
  -- The turn finds a breach by `value` that is to be reported.
  pub record Due (w : World F) (t : Turn F) (value : F) : Type 0 where
    pub read_ : metric_sample_value t.sample t.rule.metric ≡ some value
    pub found : verdict is_gt is_lt detail show_id parse_chat t ≡ some true
    pub ripe :
        Ripe is_gt is_lt detail show_id parse_chat w
          (turn_key is_gt is_lt detail show_id parse_chat t)
          t.rule
          t.at.now

  -- What CreateIncident gives for the turn.
  abbrev pub reported : World F → Turn F → F → Store × Option IncidentError
  reported w t value =
      report_rule is_gt is_lt detail show_id parse_chat
        (noted w (turn_key is_gt is_lt detail show_id parse_chat t) t.at.now) t.node_id t.rule value
        t.at

  report_crashed :
      (w : World F) (key node_id : String) (rule : MetricAlertRule F) (at : Readings)
      (o : Store × Option IncidentError)
      → (after_report w key node_id rule at o ≡ crashed) ↔ ((e : IncidentError) × (o.1 ≡ some e))
  unfolding after_report
  report_crashed w key node_id rule at (p, none) =
      ((λ e. absurd (not_crashed _ e)), (λ (e, h). absurd (none_error e h)))
  report_crashed w key node_id rule at (p, some e) = ((λ _. (e, refl)), (λ _. refl))

  own_reading :
      (t : Turn F) (v value : F)
      → metric_sample_value t.sample t.rule.metric ≡ some v
      → metric_sample_value t.sample t.rule.metric ≡ some value
      → v ≡ value
  own_reading t v value e h = cc (e, h)

  -- What a due turn evaluates to.
  pub Due-reported :
      (w : World F) (t : Turn F) (value : F)
      → Due w t value
      → evaluate is_gt is_lt detail show_id parse_chat w t
        ≡ after_report
            (noted w (turn_key is_gt is_lt detail show_id parse_chat t) t.at.now)
            (turn_key is_gt is_lt detail show_id parse_chat t)
            t.node_id
            t.rule
            t.at
            (reported w t value)
  Due-reported w t value due = elim (evaluate_cases is_gt is_lt detail show_id parse_chat w t) [
    | inl (v, _) ↦ absurd (nothing_found (sym v ∙ due.found))
    | inr (inl (u, m, v, g)) ↦
        elim (breaching_cases is_gt is_lt detail show_id parse_chat w
          (turn_key is_gt is_lt detail show_id parse_chat t) t.node_id t.rule u t.at) [
            | inl (r, d) ↦
                g
                ∙ d
                ∙ ap
                    (λ x.
                      after_report
                        (noted w (turn_key is_gt is_lt detail show_id parse_chat t) t.at.now)
                        (turn_key is_gt is_lt detail show_id parse_chat t) t.node_id t.rule t.at
                        (reported w t x))
                    (own_reading t u value m due.read_)
            | inr (n, _) ↦ absurd (n due.ripe)
          ]
    | inr (inr (v, _)) ↦ absurd (other_found (sym v ∙ due.found))
  ]

  -- The evaluation of a rule for a sample crashes exactly if the rule is enabled and reads a value from
  -- the sample that breaches it, no incident is held for its key, the breach has lasted for_seconds, and
  -- CreateIncident meets an error.
  pub evaluate_crashes_iff :
      (w : World F) (t : Turn F)
      → (evaluate is_gt is_lt detail show_id parse_chat w t ≡ crashed)
        ↔ ((value : F) × Due w t value × ((e : IncidentError) × ((reported w t value).1 ≡ some e)))
  evaluate_crashes_iff w t = (crash, crash_back)
    where
      crash :
          evaluate is_gt is_lt detail show_id parse_chat w t ≡ crashed
          → (value : F) × Due w t value × ((e : IncidentError) × ((reported w t value).1 ≡ some e))
      crash c = elim (evaluate_cases is_gt is_lt detail show_id parse_chat w t) [
        | inl (_, g) ↦ absurd (not_crashed w (sym g ∙ c))
        | inr (inl (value, m, v, g)) ↦
            elim (breaching_cases is_gt is_lt detail show_id parse_chat w
              (turn_key is_gt is_lt detail show_id parse_chat t) t.node_id t.rule value t.at) [
                | inl (r, d) ↦ (
                  value,
                  record { read_ = m; found = v; ripe = r },
                  (report_crashed
                        (noted w (turn_key is_gt is_lt detail show_id parse_chat t) t.at.now)
                        (turn_key is_gt is_lt detail show_id parse_chat t) t.node_id t.rule t.at
                        (reported w t value)).0
                      (sym d ∙ sym g ∙ c),
                )
                | inr (_, d) ↦ absurd (
                    not_crashed
                      (noted w (turn_key is_gt is_lt detail show_id parse_chat t) t.at.now)
                      (sym d ∙ sym g ∙ c))
              ]
        | inr (inr (_, g)) ↦ absurd (
            clearing_runs w (turn_key is_gt is_lt detail show_id parse_chat t) t.rule t.at
              (sym g ∙ c))
      ]

      crash_back :
          (value : F) × Due w t value × ((e : IncidentError) × ((reported w t value).1 ≡ some e))
          → evaluate is_gt is_lt detail show_id parse_chat w t ≡ crashed
      crash_back (value, due, (e, h)) =
          Due-reported w t value due
          ∙ (report_crashed (noted w (turn_key is_gt is_lt detail show_id parse_chat t) t.at.now)
                (turn_key is_gt is_lt detail show_id parse_chat t) t.node_id t.rule t.at
                (reported w t value)).1
              (e, h)
