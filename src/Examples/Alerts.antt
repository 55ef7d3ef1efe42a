-- ===== src/Examples/Alerts.antt =====
-- A rule on the load of a node, from its first breach to the incident.
use nodepulse.Base.{
  String, ℕ, ◌*◌, Bool, true, false, Option, none, some, [], ◌∷◌, ltb, ◌==◌, if◌then◌else◌, update,
  ◌≡◌, refl, sym, ap, ◌∙◌, ◌≢◌, ◌↔◌, List, arith, str_eq,
}
use nodepulse.Base.Int.{ℤ, pos, leb_ℤ}
use nodepulse.Breaker.{second}
use nodepulse.Text.{is_space, trim_space, trim_left, trim_right}
use nodepulse.Store.{Store, Incident}
use nodepulse.Store.{get_node_owner, get_settings_locked}
use nodepulse.Maintenance.{is_node_silenced, any_silences}
use nodepulse.Incident.{
  IncidentError, newest_open, create_incident, create_or_refresh, insert_incident,
  notify_after_create, with_settings, is_muted, dispatch,
}
use nodepulse.AlertRules.{MetricAlertRule}
use nodepulse.Evaluator.{
  applies, is_owned, World, MetricSample, crashed, done, new_alert_evaluator, evaluate_rule, judge,
  breaching, note_breach, metric_sample_value, rule_breach, seconds_since, after_report,
  report_rule, incident_id_after_create,
}
use nodepulse.Evaluator.Turns.{Turn, Step, turn, run, evaluate, store_after}
use nodepulse.Evaluator.Dwell.{Lasts, dwelt}
use nodepulse.Evaluator.Fire.{Due, reported, evaluate_crashes_iff}
use nodepulse.Evaluator.Calm.{Due-opens}
use nodepulse.Examples.Incidents.{fresh_store, faulty_store, no_chat}

abbrev pub above : ℕ → ℕ → Bool
above a b = ltb b a

abbrev pub no_detail : String → ℕ → ℕ → ℤ → String
no_detail metric value threshold for_seconds = "load"

abbrev pub id_digits : ℕ → String
id_digits n = if n == 1 then "1" else "2"

abbrev pub never : ℤ → Bool
never owner = false

abbrev pub load_rule : MetricAlertRule ℕ
load_rule = record {
  id = 1;
  user_id = pos 0;
  node_id = "";
  tag_selector = "";
  scope = "fleet";
  metric = "load1";
  op = "gt";
  threshold = 8;
  for_seconds = pos 30;
  severity = "critical";
  title = "Load";
  enabled = true;
  created_at = 1;
  updated_at = 1;
  last_fired_at = 0;
  last_cleared_at = 0;
}

abbrev load_sample : ℕ → MetricSample ℕ
load_sample load = record {
  node_id = "n1";
  timestamp = pos 0;
  cpu_percent = 0;
  load1 = load;
  mem_used_pct = 0;
  disk_used_pct = 0;
}

abbrev turn_at : ℕ → ℕ → Turn ℕ
turn_at load seconds = record {
  node_id = "n1";
  sample = load_sample load;
  rule = load_rule;
  at = record { now = seconds * second; created_at = seconds; marked_at = seconds };
}

abbrev pub quiet_world : World ℕ
quiet_world = record {
  store = fresh_store;
  rules = record { rows = load_rule ∷ []; next_id = 2; faults = [] };
  tags = record { rows = λ n. none; faults = [] };
  eval = new_alert_evaluator;
}

-- The breach began at second 10.
abbrev pub pending_world : World ℕ
pending_world = record quiet_world {
  eval = record { breached = update (λ k. none) "1|n1" (some (10 * second)); firing = λ k. 0 };
}

abbrev next_of : Option Store → ℕ
next_of none = 0
next_of (some p) = p.next_id

abbrev early_turns : List (Step ℕ)
early_turns = turn (turn_at 9 10) ∷ []

early_run :
    run above ltb no_detail id_digits no_chat (done quiet_world) early_turns ≡ done pending_world
unfolding run evaluate_rule judge breaching note_breach metric_sample_value rule_breach
    seconds_since str_eq trim_space trim_left trim_right is_space
early_run = refl

late_id :
    next_of
      (store_after (evaluate above ltb no_detail id_digits no_chat pending_world (turn_at 9 40)))
    ≡ 2
unfolding evaluate_rule judge breaching note_breach metric_sample_value rule_breach seconds_since
    str_eq trim_space trim_left trim_right is_space after_report report_rule create_incident
    create_or_refresh insert_incident newest_open incident_id_after_create notify_after_create
    with_settings get_node_owner get_settings_locked is_node_silenced any_silences is_muted dispatch
late_id = refl

late_changes :
    store_after (evaluate above ltb no_detail id_digits no_chat pending_world (turn_at 9 40))
    ≢ some pending_world.store
late_changes e = omega (arith, sym late_id ∙ ap next_of e)

dwelt_example :
    (start : ℕ) × Lasts above ltb no_detail id_digits no_chat "1|n1" start
      (turn (turn_at 9 10) ∷ turn (turn_at 9 40) ∷ [])
    × (leb_ℤ (pos 30) (seconds_since start (40 * second)) ≡ true)
dwelt_example =
    dwelt above ltb no_detail id_digits no_chat quiet_world pending_world early_turns (turn_at 9 40)
      refl early_run late_changes

-- The clock reads second 40.
late-Due : Due above ltb no_detail id_digits no_chat pending_world (turn_at 9 40) 9
unfolding metric_sample_value rule_breach seconds_since str_eq trim_space trim_left trim_right
    is_space
late-Due = record { read_ = refl; found = refl; ripe = record { idle = refl; lasted = refl } }

Due-opens_example :
    (w : World ℕ) × (row : Incident) × (evaluate above ltb no_detail id_digits no_chat pending_world
        (turn_at 9 40)
      ≡ done w)
    × (newest_open "n1" "Load" w.store.incidents ≡ some row)
    × (w.eval.firing "1|n1" ≡ row.id)
Due-opens_example =
    Due-opens above ltb no_detail id_digits no_chat pending_world (turn_at 9 40) 9 refl late-Due

abbrev faulty_world : World ℕ
faulty_world = record pending_world { store = faulty_store }

evaluate_crashes_iff_example :
    (evaluate above ltb no_detail id_digits no_chat faulty_world (turn_at 9 40) ≡ crashed) ↔ (
      (value : ℕ) × Due above ltb no_detail id_digits no_chat faulty_world (turn_at 9 40) value
      × ((e : IncidentError) × ((reported above ltb no_detail id_digits no_chat faulty_world
              (turn_at 9 40)
              value).1
            ≡ some e)))
evaluate_crashes_iff_example =
    evaluate_crashes_iff above ltb no_detail id_digits no_chat faulty_world (turn_at 9 40)

-- An error of the first statement of CreateIncident brings the server down.
faulty_crash : evaluate above ltb no_detail id_digits no_chat faulty_world (turn_at 9 40) ≡ crashed
unfolding evaluate_rule judge breaching note_breach metric_sample_value rule_breach seconds_since
    str_eq trim_space trim_left trim_right is_space after_report report_rule create_incident
faulty_crash = refl

-- The query selects a rule of a user for one node on every other node of that user.
other_node :
    applies
      (λ o. false)
      "n2"
      (some (pos 2))
      (record load_rule { user_id = pos 2; scope = "node"; node_id = "n1" })
    ≡ true
unfolding applies is_owned str_eq
other_node = refl
