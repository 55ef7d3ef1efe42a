-- ===== src/Examples/Heartbeats.antt =====
-- A heartbeat with a full memory, a stopped container and errors on an interface.
use nodepulse.Base.{ℕ, ◌*◌, ◌/◌, ◌≡◌, refl, false, none, some, [], ◌∷◌, arith, ltb, leb}
use nodepulse.Base.Int.{pos}
use nodepulse.Incident.Open.{count_open}
use nodepulse.Incident.Unique.{OneOpen}
use nodepulse.Uptime.{new_uptime}
use nodepulse.Ingest.{Server, Heartbeat, Clock, Floats, ingest}
use nodepulse.Ingest.Whole.{ingest-OneOpen, Calm-ingest}
use nodepulse.Examples.Incidents.{fresh_store, no_chat}
use nodepulse.Examples.Alerts.{above, no_detail, id_digits, never, pending_world}

abbrev whole_numbers : Floats ℕ
whole_numbers = record {
  nothing = 0;
  one = 1;
  divide = λ x n. x / n;
  hundred_times = λ x. x * 100;
  exceeds = above;
  below = ltb;
  is_above = above;
  is_loaded = λ x n. ltb (n * 3) (x * 2);
  at_most = leb;
  at_least = λ x n. leb n x;
  per = λ d w. d / w;
  whole = pos;
  tenths = λ x n. pos 0;
  detail = no_detail;
  memory_detail = λ x. "RAM";
}

abbrev server : Server ℕ
server = record {
  memory = λ n. none;
  world = pending_world;
  uptime = new_uptime [];
  metrics = record { rows = []; faults = [] };
  network = record { last = λ k. none; rows = []; faults = [] };
}

abbrev bad_news : Heartbeat ℕ
bad_news = record {
  node_id = "n1";
  timestamp = pos 40;
  tags = "env=prod" ∷ [];
  load1 = 9;
  cores = 4;
  used_percent = 95;
  disks = 50 ∷ [];
  services = record { name = "web"; kind = "docker"; status = "exited"; active = false } ∷ [];
  network =
      record {
        node_id = "";
        iface = "eth0";
        timestamp = pos 0;
        counters = record {
          rx_bytes = 1;
          tx_bytes = 1;
          rx_packets = 1;
          tx_packets = 1;
          rx_errors = 1;
          tx_errors = 1;
          rx_drops = 1;
          tx_drops = 1;
        };
      }
      ∷ [];
}

abbrev second_40 : Clock
second_40 = record {
  memory_at = 40000000000;
  heartbeat_at = 40000000000;
  sample_cutoff = pos 0;
  rule_at = λ id. record { now = 40000000000; created_at = 40; marked_at = 40 };
  network_now = pos 40;
  network_cutoff = pos 0;
  alert_at = 40;
  incident_at = 40;
  sweep_at = 40000000000;
}

Calm-ingest_example :
    (t : Server ℕ) × (ingest whole_numbers never id_digits no_chat server bad_news second_40
      ≡ some t)
Calm-ingest_example =
    Calm-ingest whole_numbers never id_digits no_chat server bad_news second_40 refl

taken :
    (t : Server ℕ) × (ingest whole_numbers never id_digits no_chat server bad_news second_40
      ≡ some t)
taken = Calm-ingest whole_numbers never id_digits no_chat server bad_news second_40 refl

none-OneOpen : OneOpen fresh_store
unfolding count_open
none-OneOpen = record { one = λ n t. omega arith }

ingest-OneOpen_example : OneOpen taken.0.world.store
ingest-OneOpen_example =
    ingest-OneOpen whole_numbers never id_digits no_chat server taken.0 bad_news second_40
      none-OneOpen taken.1
