-- ===== src/Evaluator/Turns.antt =====
-- Histories of evaluations, one rule at a time, with whatever else happens to the tables in between.
use mathlib.Core.Option
use nodepulse.Base.{
  String, ℕ, ◌≡◌, refl, sym, ap, ◌∙◌, ◌≢◌, inl, inr, Bool, false, not, ◌||◌, Option, none, some,
  List, [], ◌∷◌, arith, ◌==◌, if◌then◌else◌, Bool-cases, Option-cases, update_self, update_ne, ◌⊎◌,
  true, ==_iff,
}
use nodepulse.Base.Int.{ℤ, leb_ℤ}
use nodepulse.Store.{Store}
use nodepulse.AlertRules.{MetricAlertRule, Rules}
use nodepulse.Tags.{Tags}
use nodepulse.Incident.{IncidentError}
use nodepulse.Evaluator.{
  AlertEvaluator, World, Readings, MetricSample, Outcome, done, crashed, metric_sample_value,
  rule_key, rule_breach, evaluate_rule, breaching, noted, clearing, is_some, seconds_since,
  note_breach, after_report, start_or, report_rule, judge,
}

-- A rule that meets a sample of a node.
pub record Turn (F : Type 0) : Type 0 where
  pub node_id : String
  pub sample : MetricSample F
  pub rule : MetricAlertRule F
  pub at : Readings

-- Other operations leave any tables behind; they do not touch the evaluator.
pub data Step (F : Type 0) : Type 0 where
  outside : Store → Rules F → Tags → Step F
  turn : Turn F → Step F

pub done_inj : {F : Type 0} (v w : World F) → ◌≡◌ {A = Outcome F} (done v) (done w) → v ≡ w
done_inj v w e = cc e

pub crashed_not_done : {F : Type 0} (w : World F) → ◌≡◌ {A = Outcome F} crashed (done w) → ⊥
crashed_not_done w e = cc e

pub noted_own :
    (ev : AlertEvaluator) (key : String) (now : ℕ)
    → (note_breach ev key now).breached key ≡ some (start_or now (ev.breached key))
unfolding note_breach
noted_own ev key now = elim (Option-cases (ev.breached key)) [
  | inl e ↦ rw (e, note_breach) (update_self ev.breached key (some now))
  | inr (s, e) ↦ rw (e, note_breach) e
]

pub noted_other :
    (ev : AlertEvaluator) (key k : String) (now : ℕ)
    → key ≢ k
    → (note_breach ev key now).breached k ≡ ev.breached k
unfolding note_breach
noted_other ev key k now n = elim (Option-cases (ev.breached key)) [
  | inl e ↦ rw (e, note_breach) (update_ne ev.breached key k (some now) n)
  | inr (s, e) ↦ rw (e, note_breach) refl
]

pub Outcome-cases : {F : Type 0} (o : Outcome F) → (o ≡ crashed) ⊎ ((w : World F) × (o ≡ done w))
Outcome-cases (done w) = inr (w, refl)
Outcome-cases crashed = inl refl

-- The tables of the incidents behind an evaluation.
abbrev pub store_after : {F : Type 0} → Outcome F → Option Store
store_after (done w) = some w.store
store_after crashed = none

pub clearing_store :
    {F : Type 0} (w : World F) (key : String) (rule : MetricAlertRule F) (at : Readings)
    → store_after (clearing w key rule at) ≡ some w.store
unfolding clearing
clearing_store w key rule at = ground arith

module _ {F : Type 0} (is_gt is_lt : F → F → Bool) (detail : String → F → F → ℤ → String)
    (show_id : ℕ → String) (parse_chat : String → Option ℤ) where
  abbrev pub turn_key : Turn F → String
  turn_key t = rule_key show_id t.rule.id t.node_id

  -- Whether a turn finds a breach, with `none` where the rule is passed over.
  abbrev pub verdict : Turn F → Option Bool
  verdict t =
      if not t.rule.enabled
      then none
      else Option.map (λ value. rule_breach is_gt is_lt t.rule.op value t.rule.threshold)
          (metric_sample_value t.sample t.rule.metric)

  abbrev pub evaluate : World F → Turn F → Outcome F
  evaluate w t =
      evaluate_rule is_gt is_lt detail show_id parse_chat w t.node_id t.sample t.rule t.at

  unfoldable pub run : Outcome F → List (Step F) → Outcome F
  run crashed steps = crashed
  run (done w) [] = done w
  run (done w) (outside p r t ∷ steps) =
      run (done (record w { store = p; rules = r; tags = t })) steps
  run (done w) (turn t ∷ steps) = run (evaluate w t) steps

  after_report_breached :
      (w w' : World F) (key node_id k : String) (rule : MetricAlertRule F) (at : Readings)
      (o : Store × Option IncidentError)
      → after_report w key node_id rule at o ≡ done w'
      → w'.eval.breached k ≡ w.eval.breached k
  unfolding after_report
  after_report_breached w w' key node_id k rule at (p, some e) h = absurd (crashed_not_done w' h)
  after_report_breached w w' key node_id k rule at (p, none) h =
      sym (ap (λ v. v.eval.breached k) (done_inj _ w' h))

  -- A breach is reported if no incident is held for the key and the breach has lasted long enough.
  pub record Ripe (w : World F) (key : String) (rule : MetricAlertRule F) (now : ℕ) : Type 0 where
    pub idle : w.eval.firing key ≡ 0
    pub lasted :
        leb_ℤ rule.for_seconds (seconds_since (start_or now (w.eval.breached key)) now) ≡ true

  pub breaching_cases :
      (w : World F) (key node_id : String) (rule : MetricAlertRule F) (value : F) (at : Readings)
      → Ripe w key rule at.now
          × (breaching is_gt is_lt detail show_id parse_chat w key node_id rule value at
              ≡ after_report (noted w key at.now) key node_id rule at (
                  report_rule is_gt is_lt detail show_id parse_chat
                    (noted w key at.now)
                    node_id
                    rule
                    value
                    at))
        ⊎ ¬ Ripe w key rule at.now
          × (breaching is_gt is_lt detail show_id parse_chat w key node_id rule value at
              ≡ done (noted w key at.now))
  unfolding breaching
  breaching_cases w key node_id rule value at = elim (Bool-cases (w.eval.firing key == 0)) [
    | inl y ↦
        elim (Bool-cases
          (leb_ℤ rule.for_seconds (seconds_since (start_or at.now (w.eval.breached key)) at.now))) [
            | inl z ↦
                inl
                  (record { idle = (==_iff (w.eval.firing key) 0).0 y; lasted = z }, rw (y, z) refl)
            | inr z ↦ inr ((λ r. absurd (ground (arith, r.lasted, z))), rw (y, z) refl)
          ]
    | inr n ↦ inr ((λ r. absurd (ground (arith, r.idle, n))), rw n refl)
  ]

  pub breaching_breached :
      (w w' : World F) (key node_id k : String) (rule : MetricAlertRule F) (value : F)
      (at : Readings)
      → breaching is_gt is_lt detail show_id parse_chat w key node_id rule value at ≡ done w'
      → w'.eval.breached k ≡ (note_breach w.eval key at.now).breached k
  breaching_breached w w' key node_id k rule value at h =
      elim (breaching_cases w key node_id rule value at) [
        | inl (r, e) ↦
            after_report_breached (noted w key at.now) w' key node_id k rule at
              (report_rule is_gt is_lt detail show_id parse_chat (noted w key at.now) node_id rule
                value at)
              (sym e ∙ h)
        | inr (r, e) ↦
            sym (ap (λ v. v.eval.breached k) (done_inj (noted w key at.now) w' (sym e ∙ h)))
      ]

  pub clearing_breached :
      (w w' : World F) (key : String) (rule : MetricAlertRule F) (at : Readings)
      → clearing w key rule at ≡ done w'
      → (w'.eval.breached key ≡ none)
        × ((k : String) → key ≢ k → w'.eval.breached k ≡ w.eval.breached k)
  unfolding clearing
  clearing_breached w w' key rule at h =
      elim (Bool-cases (is_some (w.eval.breached key) || not (w.eval.firing key == 0))) [
        | inl y ↦
            let e = done_inj _ w' (rw y at h) in
            (
              sym (ap (λ v. v.eval.breached key) e) ∙ update_self w.eval.breached key none,
              (λ k n. sym (ap (λ v. v.eval.breached k) e) ∙ update_ne w.eval.breached key k none n),
            )
        | inr n ↦
            let e = done_inj w w' (rw n at h) in
            (
              sym (ap (λ v. v.eval.breached key) e)
                  ∙ nothing (w.eval.breached key) (w.eval.firing key == 0) n,
              (λ k m. sym (ap (λ v. v.eval.breached k) e)),
            )
      ]
    where
      nothing : (o : Option ℕ) (b : Bool) → (is_some o || not b) ≡ false → o ≡ none
      nothing none b e = refl
      nothing (some x) b e = absurd (ground (arith, e))

  -- How an evaluation goes: passed over, a breach, or inside.
  pub evaluate_cases :
      (w : World F) (t : Turn F)
      → ((verdict t ≡ none) × (evaluate w t ≡ done w))
        ⊎ ((value : F) × (metric_sample_value t.sample t.rule.metric ≡ some value)
            × (verdict t ≡ some true)
            × (evaluate w t
                ≡ breaching is_gt is_lt detail show_id parse_chat w
                    (turn_key t)
                    t.node_id
                    t.rule
                    value
                    t.at))
        ⊎ ((verdict t ≡ some false) × (evaluate w t ≡ clearing w (turn_key t) t.rule t.at))
  unfolding evaluate_rule judge
  evaluate_cases w t = elim (Bool-cases t.rule.enabled) [
    | inl y ↦ elim (Option-cases (metric_sample_value t.sample t.rule.metric)) [
      | inl e ↦ inl (rw (y, e) refl, rw (y, e) refl)
      | inr (value, e) ↦
          elim (Bool-cases (rule_breach is_gt is_lt t.rule.op value t.rule.threshold)) [
            | inl b ↦ inr (inl (value, e, rw (y, e, b) refl, rw (y, e, b) refl))
            | inr b ↦ inr (inr (rw (y, e, b) refl, rw (y, e, b) refl))
          ]
    ]
    | inr n ↦ inl (rw n refl, rw n refl)
  ]
