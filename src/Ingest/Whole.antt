-- ===== src/Ingest/Whole.antt =====
-- A whole heartbeat: its open incidents, and that it is taken in.
use nodepulse.Base.{
  String, ℕ, ◌≡◌, refl, ap, inl, inr, Bool, not, ◌&&◌, Option, none, some, List, [], ◌∷◌, str_eq,
  Bool-cases,
}
use nodepulse.Base.Int.{ℤ}
use nodepulse.Store.{Store, get_node_owner}
use mathlib.Core.Path.{subst}
use Prim.Native.String.{◌++◌ as join}
use nodepulse.Evaluator.{World, Outcome, done, crashed, evaluate_metric_alert}
use nodepulse.Evaluator.Turns.{Outcome-cases}
use nodepulse.Evaluator.Calm.{Calm-evaluates}
use nodepulse.Incident.{create_incident}
use nodepulse.Incident.Calm.{Calm, spent-Calm}
use nodepulse.Incident.Unique.{OneOpen, OneOpen-same, create-OneOpen}
use nodepulse.Incident.History.{stale-OneOpen}
use nodepulse.Ingest.Unique.{alerts-OneOpen, metric-OneOpen}
use nodepulse.Network.{Network}
use nodepulse.Ingest.{
  Server, Heartbeat, Clock, Floats, Service, ingest, record_parts, network_part, memory_part,
  container_part, incident_part, after_rules, sample_of, asked_owner, is_filled, sweep_view,
}

module _ {F : Type 0} (floats : Floats F) (is_one : ℤ → Bool) (show_id : ℕ → String)
    (parse_chat : String → Option ℤ) where
  network-OneOpen :
      (n : Network) (p : Store) (hb : Heartbeat F) (c : Clock)
      → OneOpen p
      → OneOpen (network_part floats is_one show_id parse_chat n p hb c).1
  unfolding network_part
  network-OneOpen n p hb c h = elim (Bool-cases (is_filled hb.network)) [
    | inl y ↦ rw y (
        alerts-OneOpen floats.at_least floats.whole floats.tenths parse_chat _ p hb.node_id
          c.alert_at h)
    | inr m ↦ rw m h
  ]

  memory-OneOpen :
      (p : Store) (hb : Heartbeat F) (now : ℕ)
      → OneOpen p
      → OneOpen (memory_part floats is_one show_id parse_chat p hb now)
  unfolding memory_part
  memory-OneOpen p hb now h = elim (Bool-cases (floats.is_above hb.used_percent 92)) [
    | inl y ↦ rw y (create-OneOpen parse_chat p hb.node_id "warning" "High Memory Pressure" _ now h)
    | inr m ↦ rw m h
  ]

  containers-OneOpen :
      (services : List Service) (p : Store) (node_id : String) (now : ℕ)
      → OneOpen p
      → OneOpen (container_part floats is_one show_id parse_chat p node_id services now)
  unfolding container_part
  containers-OneOpen [] p node_id now h = h
  containers-OneOpen (s ∷ ss) p node_id now h =
      elim (Bool-cases (not s.active && str_eq s.kind "docker")) [
        | inl y ↦ rw y (
            containers-OneOpen ss
              (create_incident parse_chat p node_id "critical" (join "Container Stopped: " s.name)
                s.status now).0
              node_id now
              (create-OneOpen parse_chat p node_id "critical" (join "Container Stopped: " s.name)
                s.status now h))
        | inr m ↦ rw m (containers-OneOpen ss p node_id now h)
      ]

  incidents-OneOpen :
      (p : Store) (hb : Heartbeat F) (c : Clock)
      → OneOpen p
      → OneOpen (incident_part floats is_one show_id parse_chat p hb c)
  unfolding incident_part
  incidents-OneOpen p hb c h =
      stale-OneOpen parse_chat floats.at_most _ (sweep_view floats is_one show_id parse_chat hb)
        c.sweep_at
        (containers-OneOpen hb.services _ hb.node_id c.incident_at
          (memory-OneOpen p hb c.incident_at h))

  some_inj : (s t : Server F) → ◌≡◌ {A = Option (Server F)} (some s) (some t) → s ≡ t
  some_inj s t e = cc e

  nothing_taken : (t : Server F) → ◌≡◌ {A = Option (Server F)} none (some t) → ⊥
  nothing_taken t e = cc e

  -- The evaluation of the rules in a heartbeat.
  abbrev rules_of : Server F → Heartbeat F → Clock → Outcome F
  rules_of s hb c =
      evaluate_metric_alert floats.exceeds floats.below floats.detail show_id parse_chat is_one
        (record_parts floats is_one show_id parse_chat s hb c).world hb.node_id
        (asked_owner floats is_one show_id parse_chat (get_node_owner s.world.store hb.node_id).1)
        (sample_of floats is_one show_id parse_chat hb) c.rule_at

  after-OneOpen :
      (s t : Server F) (hb : Heartbeat F) (c : Clock) (o : Outcome F)
      → ((w : World F) → o ≡ done w → OneOpen w.store)
      → after_rules floats is_one show_id parse_chat s hb c o ≡ some t
      → OneOpen t.world.store
  unfolding after_rules
  after-OneOpen s t hb c crashed h e = absurd (nothing_taken t e)
  after-OneOpen s t hb c (done w) h e =
      subst (λ u. OneOpen u.world.store) (some_inj _ t e)
        (incidents-OneOpen _ hb c (network-OneOpen s.network w.store hb c (h w refl)))

  -- If a table has at most one open incident for each node and title, then it has at most one behind any
  -- heartbeat that Ingest takes in, with its metric, network, memory and container alerts and its sweep,
  -- whichever SQL statements fail.
  pub ingest-OneOpen :
      (s t : Server F) (hb : Heartbeat F) (c : Clock)
      → OneOpen s.world.store
      → ingest floats is_one show_id parse_chat s hb c ≡ some t
      → OneOpen t.world.store
  unfolding ingest record_parts get_node_owner
  ingest-OneOpen s t hb c h e =
      after-OneOpen (record_parts floats is_one show_id parse_chat s hb c) t hb c (rules_of s hb c)
        (λ w.
          metric-OneOpen floats.exceeds floats.below floats.detail show_id parse_chat is_one _ w
            hb.node_id _ _ c.rule_at (OneOpen-same s.world.store _ refl h))
        e

  -- If no SQL statement on the tables of the incidents meets an error, then Ingest takes in every heartbeat,
  -- whatever the rest of the state, the heartbeat and the clock.
  pub Calm-ingest :
      (s : Server F) (hb : Heartbeat F) (c : Clock)
      → Calm s.world.store
      → (t : Server F) × (ingest floats is_one show_id parse_chat s hb c ≡ some t)
  unfolding ingest record_parts get_node_owner after_rules
  Calm-ingest s hb c h = elim (Outcome-cases (rules_of s hb c)) [
    | inl x ↦ absurd (
        Calm-evaluates floats.exceeds floats.below floats.detail show_id parse_chat is_one _
          hb.node_id _ _ c.rule_at (spent-Calm s.world.store h) x)
    | inr (w, e) ↦ (
      _,
      ap
          (after_rules floats is_one show_id parse_chat
            (record_parts floats is_one show_id parse_chat s hb c) hb c)
          e,
    )
  ]
