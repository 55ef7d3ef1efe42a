-- ===== src/Ingest.antt =====
-- Ingest of pkg/store/sqlite.go: what a heartbeat does to the store. `F` is the type of floats.
pub mod Unique
pub mod Whole
use nodepulse.Base.{
  String, ℕ, zero, suc, ◌+◌, ◌-◌, ◌*◌, ◌/◌, ◌%◌, ◌^◌, ◌≤◌, ◌<◌, ◌≡◌, refl, sym, ap, ◌∙◌, ◌≢◌, ◌↔◌,
  ◌⊎◌, inl, inr, Bool, true, false, not, ◌&&◌, ◌||◌, Option, none, some, List, [], ◌∷◌, ◌++◌, map,
  arith, ltb, leb, ◌==◌, if◌then◌else◌, ltb→lt, lt→ltb, leb→le, ==_iff, str_eq, str_eq_iff,
  str_eq_refl, Bool-cases, Option-cases, length, length-append, All, All-append, All-map, update,
  update_self, update_ne,
}
use nodepulse.Base.Int.{ℤ, pos}
use nodepulse.Store.{Store, get_node_owner}
use nodepulse.Memory.{NodeState, Heartbeat as MemoryHeartbeat, ingest as ingest_memory}
use nodepulse.Tags.{Tags, upsert_node_tags}
use nodepulse.Uptime.{Uptime, record_heartbeat}
use nodepulse.Metrics.{Metrics, record_sample}
use nodepulse.Network.{Network, NetworkSample, record_network_samples, evaluate_network_alerts}
use nodepulse.Evaluator.{
  World, MetricSample, Readings, Outcome, done, crashed, evaluate_metric_alert,
}
use nodepulse.Incident.{create_incident}
use nodepulse.Incident.Sweeps.{ServiceStatus, Heartbeat as SweepHeartbeat, resolve_stale_incidents}
use Prim.Native.String.{◌++◌ as join}

-- protocol.ServiceStatus, as far as Ingest reads it.
pub record Service : Type 0 where
  pub name : String
  pub kind : String
  pub status : String
  pub active : Bool

pub record Heartbeat (F : Type 0) : Type 0 where
  pub node_id : String
  pub timestamp : ℤ
  pub tags : List String
  pub load1 : F
  pub cores : ℕ
  pub used_percent : F
  pub disks : List F
  pub services : List Service
  pub network : List NetworkSample

-- The floats and their texts: `nothing` and `one` are 0.0 and 1.0, `divide x n` is x / float64(n),
-- `hundred_times` and `exceeds` are * 100.0 and >, `is_above x n` and `at_least x n` compare with
-- float64(n), `is_loaded x n` is x > float64(n)*1.5, `at_most x n` is x <= float64(n); the others are
-- as for Network and Evaluator.
pub record Floats (F : Type 0) : Type 0 where
  pub nothing : F
  pub one : F
  pub divide : F → ℕ → F
  pub hundred_times : F → F
  pub exceeds : F → F → Bool
  pub below : F → F → Bool
  pub is_above : F → ℕ → Bool
  pub is_loaded : F → ℕ → Bool
  pub at_most : F → ℕ → Bool
  pub at_least : F → ℕ → Bool
  pub per : ℕ → ℕ → F
  pub whole : F → ℤ
  pub tenths : F → ℤ → ℤ
  pub detail : String → F → F → ℤ → String
  pub memory_detail : F → String

-- The readings of the clock, in the order of the code; a cutoff is one less seven days.
pub record Clock : Type 0 where
  pub memory_at : ℕ
  pub heartbeat_at : ℕ
  pub sample_cutoff : ℤ
  pub rule_at : ℕ → Readings
  pub network_now : ℤ
  pub network_cutoff : ℤ
  pub alert_at : ℕ
  pub incident_at : ℕ
  pub sweep_at : ℕ

pub record Server (F : Type 0) : Type 0 where
  pub memory : String → Option (NodeState F)
  pub world : World F
  pub uptime : Uptime
  pub metrics : Metrics F
  pub network : Network

abbrev first_or : {F : Type 0} → F → List F → F
first_or d [] = d
first_or d (x ∷ xs) = x

abbrev is_filled : {A : Type 0} → List A → Bool
is_filled [] = false
is_filled (x ∷ xs) = true

abbrev timed : ℤ → NetworkSample → NetworkSample
timed ts s = record s { node_id = ""; timestamp = ts }

module _ {F : Type 0} (floats : Floats F) (is_one : ℤ → Bool) (show_id : ℕ → String)
    (parse_chat : String → Option ℤ) where
  -- The load for each core, in percent, at most 100.
  unfoldable pub cpu_pct : Heartbeat F → F
  cpu_pct hb =
      let ratio = floats.divide hb.load1 hb.cores in
      if hb.cores == 0
      then floats.nothing
      else floats.hundred_times (if floats.exceeds ratio floats.one then floats.one else ratio)

  unfoldable pub sample_of : Heartbeat F → MetricSample F
  unfolding cpu_pct
  sample_of hb = record {
    node_id = hb.node_id;
    timestamp = hb.timestamp;
    cpu_percent = cpu_pct hb;
    load1 = hb.load1;
    mem_used_pct = hb.used_percent;
    disk_used_pct = first_or floats.nothing hb.disks;
  }

  abbrev memory_view : Heartbeat F → MemoryHeartbeat F
  memory_view hb = record {
    node_id = hb.node_id;
    timestamp = hb.timestamp;
    load1 = hb.load1;
    cores = hb.cores;
    used_percent = hb.used_percent;
    disks = hb.disks;
  }

  abbrev sweep_view : Heartbeat F → SweepHeartbeat F
  sweep_view hb = record {
    node_id = hb.node_id;
    used_percent = hb.used_percent;
    services = map (λ s. record { name = s.name; active = s.active }) hb.services;
  }

  -- The samples of the interfaces with the time of the heartbeat.
  abbrev network_view : Heartbeat F → List NetworkSample
  network_view hb = map (timed hb.timestamp) hb.network

  -- The owner that the rules are asked for.
  abbrev asked_owner : ℕ → Option ℤ
  asked_owner owner = if ltb 0 owner then some (pos owner) else none

  -- Up to the samples: memory, tags, uptime, metrics, and the read of the owner.
  unfoldable pub record_parts : Server F → Heartbeat F → Clock → Server F
  unfolding sample_of
  record_parts s hb c = record {
    memory =
        ingest_memory floats.is_loaded floats.is_above floats.nothing s.memory (memory_view hb)
          c.memory_at;
    world = record s.world {
      tags =
          if is_filled hb.tags
          then (upsert_node_tags s.world.tags hb.node_id hb.tags).0
          else s.world.tags;
      store = (get_node_owner s.world.store hb.node_id).0;
    };
    uptime = (record_heartbeat s.uptime hb.node_id c.heartbeat_at).0;
    metrics = (record_sample s.metrics (sample_of hb) c.sample_cutoff).0;
    network = s.network;
  }

  -- The interfaces: their rates and alerts.
  unfoldable pub network_part : Network → Store → Heartbeat F → Clock → Network × Store
  network_part n p hb c =
      let (m, rates) =
        record_network_samples floats.per floats.nothing n hb.node_id (network_view hb)
          c.network_now c.network_cutoff in
      if is_filled hb.network
      then (
        m,
        evaluate_network_alerts floats.at_least floats.whole floats.tenths parse_chat p hb.node_id
            rates c.alert_at,
      )
      else (n, p)

  unfoldable pub memory_part : Store → Heartbeat F → ℕ → Store
  memory_part p hb now =
      if floats.is_above hb.used_percent 92
      then (create_incident parse_chat p hb.node_id "warning" "High Memory Pressure"
          (floats.memory_detail hb.used_percent) now).0
      else p

  -- The loop over the services.
  unfoldable pub container_part : Store → String → List Service → ℕ → Store
  container_part p node_id [] now = p
  container_part p node_id (s ∷ ss) now =
      let q =
        (create_incident parse_chat p node_id "critical" (join "Container Stopped: " s.name)
          s.status now).0 in
      container_part (if not s.active && str_eq s.kind "docker" then q else p) node_id ss now

  -- Behind the samples: the incidents of the heartbeat, and the sweep.
  unfoldable pub incident_part : Store → Heartbeat F → Clock → Store
  unfolding memory_part container_part
  incident_part p hb c =
      resolve_stale_incidents parse_chat floats.at_most
        (container_part (memory_part p hb c.incident_at) hb.node_id hb.services c.incident_at)
        (sweep_view hb) c.sweep_at

  -- Behind the evaluation of the rules, with none where that ended the process.
  unfoldable pub after_rules : Server F → Heartbeat F → Clock → Outcome F → Option (Server F)
  unfolding network_part incident_part
  after_rules s hb c crashed = none
  after_rules s hb c (done w) =
      let (m, p) = network_part s.network w.store hb c in
      some (record s { world = record w { store = incident_part p hb c }; network = m })

  unfoldable pub ingest : Server F → Heartbeat F → Clock → Option (Server F)
  unfolding record_parts after_rules sample_of
  ingest s hb c =
      let q = record_parts s hb c in
      let owner = (get_node_owner s.world.store hb.node_id).1 in
      after_rules q hb c (
        evaluate_metric_alert floats.exceeds floats.below floats.detail show_id parse_chat is_one
          q.world hb.node_id (asked_owner owner) (sample_of hb) c.rule_at)
