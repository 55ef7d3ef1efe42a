-- ===== src/Incident/Runs.antt =====
-- Histories of the operations on the incident table.
use nodepulse.Incident.Sweeps.{rows_where, silent_node_ttl}
use nodepulse.Incident.Watchdog.{
  auto_close_incidents_in_maintenance, after_create, raise_if_new, watch_nodes,
  resolve_silent_node_incident, watch_node, after_resolve, WatchdogResult,
  has_open_silent_node_incident, is_open_on,
}
use nodepulse.Incident.{
  is_open_for, ℤ, is_node_silenced, Store, IncidentError, is_empty, pos, fails, spent,
}
use nodepulse.Base.Int.{leb_ℤ}
use nodepulse.Base.{
  ℕ, suc, ◌+◌, ◌-◌, ◌/◌, String, ◌≡◌, refl, inl, inr, Bool, true, false, Option, none, some, List,
  [], ◌∷◌, arith, ltb, ◌==◌, if◌then◌else◌, Bool-cases,
}
use nodepulse.Maintenance.{is_node_silenced}
use nodepulse.Incident.{is_open_for, create_incident}
use nodepulse.Incident.Open.{Shuts}
use nodepulse.Incident.Unique.{OneOpen, OneOpen-same, OneOpen-shut, create-OneOpen}
use nodepulse.Breaker.{second}
use nodepulse.Incident.History.{close_rows-OneOpen}

module _ (parse_chat : String → Option ℤ) (silence_detail : ℕ → String) where
  silent_resolve-OneOpen :
      (p : Store) (node_id : String) (at : ℕ)
      → OneOpen p
      → OneOpen (resolve_silent_node_incident parse_chat silence_detail p node_id at).0
  unfolding resolve_silent_node_incident
  silent_resolve-OneOpen p node_id at v = elim (Bool-cases (fails p)) [
    | inl f ↦ rw f (OneOpen-same p _ refl v)
    | inr f ↦ rw f (
        close_rows-OneOpen parse_chat silence_detail (spent p)
          (rows_where (is_open_for node_id "Node Silent") p.incidents) at (OneOpen-same p _ refl v))
  ]

  after_create_rows :
      (res : WatchdogResult) (n : String) (c : Store × Option IncidentError)
      → (after_create parse_chat silence_detail res n c).0 ≡ c.0
  unfolding after_create
  after_create_rows res n (p, none) = refl
  after_create_rows res n (p, some e) = refl

  after_resolve_rows :
      (res : WatchdogResult) (n : String) (c : Store × Option Bool)
      → (after_resolve parse_chat silence_detail res n c).0 ≡ c.0
  unfolding after_resolve
  after_resolve_rows res n (p, none) = refl
  after_resolve_rows res n (p, some false) = refl
  after_resolve_rows res n (p, some true) = refl

  raise-OneOpen :
      (res : WatchdogResult) (n : String) (last now : ℕ) (c : Store × Option Bool)
      → OneOpen c.0
      → OneOpen (raise_if_new parse_chat silence_detail res n last now c).0
  unfolding raise_if_new
  raise-OneOpen res n last now (p, none) v = v
  raise-OneOpen res n last now (p, some true) v = v
  raise-OneOpen res n last now (p, some false) v =
      rw
        (after_create_rows res n (
          create_incident parse_chat p n "critical" "Node Silent" (silence_detail (now - last))
            (now / second)))
        (create-OneOpen parse_chat p n "critical" "Node Silent" (silence_detail (now - last))
          (now / second) v)

  watch_node-OneOpen :
      (p : Store) (res : WatchdogResult) (n : String) (last now : ℕ)
      → OneOpen p
      → OneOpen (watch_node parse_chat silence_detail p res n last now).0
  unfolding watch_node has_open_silent_node_incident
  watch_node-OneOpen p res n last now v = elim (Bool-cases (ltb (last + silent_node_ttl) now)) [
    | inl silent ↦ rw silent (
        raise-OneOpen (record res { nodes_checked = suc res.nodes_checked }) n last now
          (has_open_silent_node_incident p n) (OneOpen-same p _ refl v))
    | inr alive ↦
        rw
          (
            alive,
            after_resolve_rows (record res { nodes_checked = suc res.nodes_checked }) n
                (resolve_silent_node_incident parse_chat silence_detail p n (now / second)),
          )
          (silent_resolve-OneOpen p n (now / second) v)
  ]

  pub watch_nodes-OneOpen :
      (p : Store) (res : WatchdogResult) (nodes : List (String × ℕ)) (now : ℕ)
      → OneOpen p
      → OneOpen (watch_nodes parse_chat silence_detail p res nodes now).0
  unfolding watch_nodes
  watch_nodes-OneOpen p res [] now v = v
  watch_nodes-OneOpen p res ((n, last) ∷ nodes) now v =
      let q = watch_node parse_chat silence_detail p res n last now in
      watch_nodes-OneOpen q.0 q.1 nodes now (watch_node-OneOpen p res n last now v)

maintenance-Shuts :
    (at : ℕ)
    → Shuts (λ r. record r {
      resolved = true;
      resolved_at = at;
      resolution_reason =
          if is_empty r.resolution_reason then "maintenance" else r.resolution_reason;
    })
unfolding is_open_for
maintenance-Shuts at n t r h = ground arith

silenced_rows :
    (p : Store) (user_id : ℤ) (n : String) (now wall : ℤ)
    → (is_node_silenced p user_id n now wall).0.incidents ≡ p.incidents
unfolding is_node_silenced
silenced_rows p user_id n now wall = elim (Bool-cases (leb_ℤ user_id (pos 0))) [
  | inl none_ ↦ rw none_
  | inr some_ ↦ rw some_
]

pub auto_close-OneOpen :
    (p : Store) (user_id : ℕ) (node_id : String) (now wall : ℕ)
    → OneOpen p
    → OneOpen (auto_close_incidents_in_maintenance p user_id node_id now wall)
unfolding auto_close_incidents_in_maintenance
auto_close-OneOpen p user_id node_id now wall v = elim (Bool-cases (user_id == 0)) [
  | inl nobody ↦ rw nobody v
  | inr user ↦ elim (Bool-cases quiet.1) [
    | inr loud ↦ rw (user, loud) kept
    | inl silent ↦ elim (Bool-cases (fails quiet.0)) [
      | inl f ↦ rw (user, silent, f) (OneOpen-same quiet.0 _ refl kept)
      | inr f ↦
          rw (user, silent, f)
            (OneOpen-shut quiet.0 _ (is_open_on node_id) _ refl
              (maintenance-Shuts (if now == 0 then wall else now)) kept)
    ]
  ]
]
  where
    quiet : Store × Bool
    quiet =
        is_node_silenced p (pos user_id) node_id (pos (if now == 0 then wall else now)) (pos wall)

    kept : OneOpen quiet.0
    kept =
        OneOpen-same p quiet.0
          (silenced_rows p (pos user_id) node_id (pos (if now == 0 then wall else now)) (pos wall))
          v
