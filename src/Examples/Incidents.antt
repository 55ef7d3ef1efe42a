-- ===== src/Examples/Incidents.antt =====
-- A store with a Telegram alerter and one maintenance-free user.
use nodepulse.Base.{
  ℕ, String, ◌≡◌, refl, Option, none, some, List, [], ◌∷◌, arith, str_eq, length, Bool, true, false,
  leb, ◌≢◌,
}
use nodepulse.Base.Int.{ℤ, pos}
use nodepulse.Store.{Store, Incident, plain}
use nodepulse.Maintenance.{is_node_silenced}
use nodepulse.Incident.{notify_after_create, cooldown_for, create_incident, newest_open}
use nodepulse.Incident.Open.{count_open}
use nodepulse.Incident.Actions.{snooze_incident}
use nodepulse.Incident.Unique.{OneOpen}
use nodepulse.Incident.Trace.{
  Op, create, acknowledge, resolve, sweep_fleet, watchdog, close_maintained, apply_ops,
  apply_ops-OneOpen,
}
use nodepulse.Incident.Repeats.{Again, repeat_reports}
use nodepulse.Incident.Rights.{of_node, resolve_foreign}
use nodepulse.Incident.Sweeps.{rows_where}
use nodepulse.Incident.Actions.{resolve_incident}
use nodepulse.Incident.Quiet.{storm_quiet, snooze_quiet}

abbrev pub no_chat : String → Option ℤ
no_chat s = none

abbrev some_time : ℕ → String
some_time n = "120s"

abbrev below : ℕ → ℕ → Bool
below x n = leb x n

abbrev pub fresh_store : Store
fresh_store = record {
  incidents = [];
  next_id = 1;
  owners = λ n. some 2;
  settings = λ u. none;
  windows = [];
  next_window = 1;
  faults = [];
  alerter = some plain;
  has_webhook = true;
  has_recorder = false;
  has_chat = true;
  default_chat_id = pos 7;
  outbox = [];
}

-- The first call of the driver fails, and the fourth one.
abbrev pub faulty_store : Store
faulty_store = record fresh_store { faults = true ∷ false ∷ false ∷ true ∷ [] }

empty-OneOpen : OneOpen faulty_store
unfolding count_open
empty-OneOpen = record { one = λ n t. omega arith }

abbrev busy_day : List (Op ℕ)
busy_day =
    create "n1" "critical" "CPU" "high" 100
    ∷ create "n1" "critical" "CPU" "high" 110
    ∷ acknowledge 1 120
    ∷ create "n1" "critical" "CPU" "higher" 130
    ∷ watchdog (("n1", 0) ∷ []) 500000000000
    ∷ sweep_fleet 9000000000000
    ∷ create "n1" "critical" "CPU" "high" 9100
    ∷ resolve 2 1 9200
    ∷ close_maintained 2 "n1" 9300 9300
    ∷ []

apply_ops-OneOpen_example : OneOpen (apply_ops below no_chat some_time faulty_store busy_day)
apply_ops-OneOpen_example =
    apply_ops-OneOpen below no_chat some_time faulty_store busy_day empty-OneOpen

abbrev storm : List Again
storm =
    record { severity = "critical"; detail = "again"; at = 130 }
    ∷ record { severity = "warning"; detail = "still"; at = 399 }
    ∷ []

abbrev first_report : Store
first_report = (create_incident no_chat fresh_store "n1" "critical" "CPU" "high" 100).0

storm_quiet_example :
    (repeat_reports no_chat first_report "n1" "CPU" storm).outbox ≡ first_report.outbox
unfolding newest_open create_incident cooldown_for str_eq
storm_quiet_example =
    storm_quiet no_chat fresh_store "n1" "critical" "CPU" "high" 100 storm refl refl (omega arith)
      (omega arith, (omega arith, tt))

abbrev opened : Incident
opened = record {
  id = 1;
  node_id = "n1";
  severity = "critical";
  title = "CPU";
  detail = "high";
  started_at = 100;
  resolved = false;
  resolved_at = 0;
  resolution_reason = "";
  last_notified_at = 100;
  acknowledged_at = 0;
  snoozed_until = 0;
}

abbrev snoozed_report : Store
snoozed_report = (snooze_incident first_report 1 (pos 3600) 150 151).0

snooze_quiet_example :
    (repeat_reports no_chat snoozed_report "n1" "CPU" storm).outbox ≡ first_report.outbox
unfolding newest_open create_incident snooze_incident str_eq notify_after_create is_node_silenced
snooze_quiet_example =
    snooze_quiet no_chat first_report "n1" "CPU" opened (pos 3600) 150 151 3750 storm refl refl
      (omega arith, (omega arith, tt))

-- The storm sends one Telegram message and one chat notice.
storm_notices : length first_report.outbox ≡ 2
unfolding newest_open create_incident str_eq notify_after_create is_node_silenced
storm_notices = refl

two_is_not_three : ◌≢◌ {A = Option ℕ} (some 2) (some 3)
two_is_not_three = λ e. ground (arith, e)

-- The node belongs to user 2; user 3 tries to resolve its incident.
resolve_foreign_example :
    rows_where (of_node "n1") (resolve_incident first_report 1 3 500).0.incidents
    ≡ rows_where (of_node "n1") first_report.incidents
unfolding create_incident newest_open notify_after_create is_node_silenced str_eq
resolve_foreign_example =
    resolve_foreign first_report 1 3 500 "n1" (omega arith) (λ e. two_is_not_three e)
