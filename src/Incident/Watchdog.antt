-- ===== src/Incident/Watchdog.antt =====
-- pkg/store/silent_watchdog.go, and AutoCloseIncidentsInMaintenance of pkg/store/maintenance.go.
use nodepulse.Base.{
  ℕ, suc, ◌+◌, ◌-◌, ◌/◌, String, Bool, true, false, not, ◌&&◌, Option, none, some, List, [], ◌∷◌,
  ◌++◌, ltb, ◌==◌, if◌then◌else◌, str_eq,
}
use nodepulse.Base.Int.{ℤ, pos}
use nodepulse.Breaker.{second}
use nodepulse.Text.{is_empty}
use nodepulse.Store.{Store, Incident, fails, spent}
use nodepulse.Maintenance.{is_node_silenced}
use nodepulse.Incident.{IncidentError, update_where, is_open_for, create_incident}
use nodepulse.Incident.Sweeps.{silent_node_ttl, mark_resolved_and_notify, rows_where}
use nodepulse.Incident.Actions.{any_row}

pub record WatchdogResult : Type 0 where
  pub nodes_checked : ℕ
  pub incidents_raised : ℕ
  pub incidents_resolved : ℕ
  pub raised_node_ids : List String
  pub resolved_node_ids : List String

abbrev pub nothing_done : WatchdogResult
nothing_done = record {
  nodes_checked = 0;
  incidents_raised = 0;
  incidents_resolved = 0;
  raised_node_ids = [];
  resolved_node_ids = [];
}

-- `none` is an error of the driver.
unfoldable pub has_open_silent_node_incident : Store → String → Store × Option Bool
unfolding any_row is_open_for
has_open_silent_node_incident p node_id = (
  spent p,
  if fails p then none else some (any_row (is_open_for node_id "Node Silent") p.incidents),
)

abbrev raised : WatchdogResult → String → WatchdogResult
raised res node_id = record res {
  incidents_raised = suc res.incidents_raised;
  raised_node_ids = res.raised_node_ids ++ node_id ∷ [];
}

abbrev resolved : WatchdogResult → String → WatchdogResult
resolved res node_id = record res {
  incidents_resolved = suc res.incidents_resolved;
  resolved_node_ids = res.resolved_node_ids ++ node_id ∷ [];
}

module _ (parse_chat : String → Option ℤ) (silence_detail : ℕ → String) where
  -- Each of the open rows is closed with its own statements.
  unfoldable pub close_rows : Store → List Incident → ℕ → Store
  close_rows p [] at = p
  close_rows p (r ∷ rs) at =
      close_rows (mark_resolved_and_notify parse_chat p r "auto:heartbeat_restored" at) rs at

  abbrev any_found : List Incident → Bool
  any_found [] = false
  any_found (r ∷ rs) = true

  -- `none` is an error of the query.
  unfoldable pub resolve_silent_node_incident : Store → String → ℕ → Store × Option Bool
  unfolding close_rows rows_where is_open_for
  resolve_silent_node_incident p node_id at =
      let open_rows = rows_where (is_open_for node_id "Node Silent") p.incidents in
      if fails p
      then (spent p, none)
      else (close_rows (spent p) open_rows at, some (any_found open_rows))

  unfoldable pub after_create :
      WatchdogResult → String → Store × Option IncidentError → Store × WatchdogResult
  after_create res node_id (p, none) = (p, raised res node_id)
  after_create res node_id (p, some e) = (p, res)

  -- `silence_detail` stands for the text of the time since the last heartbeat.
  unfoldable pub raise_if_new :
      WatchdogResult → String → ℕ → ℕ → Store × Option Bool → Store × WatchdogResult
  unfolding after_create
  raise_if_new res node_id last now (p, none) = (p, res)
  raise_if_new res node_id last now (p, some true) = (p, res)
  raise_if_new res node_id last now (p, some false) = after_create res node_id (
      create_incident parse_chat p node_id "critical" "Node Silent" (silence_detail (now - last))
        (now / second))

  unfoldable pub after_resolve :
      WatchdogResult → String → Store × Option Bool → Store × WatchdogResult
  after_resolve res node_id (p, none) = (p, res)
  after_resolve res node_id (p, some false) = (p, res)
  after_resolve res node_id (p, some true) = (p, resolved res node_id)

  -- The memory holds no nil state and no zero time, so that neither test stands here.
  -- One round of the loop: a node and the instant of its last heartbeat. `last.Before(cutoff)` is
  -- `last + silent_node_ttl < now`.
  unfoldable pub watch_node : Store → WatchdogResult → String → ℕ → ℕ → Store × WatchdogResult
  unfolding raise_if_new after_resolve has_open_silent_node_incident resolve_silent_node_incident
  watch_node p res node_id last now =
      let res' = record res { nodes_checked = suc res.nodes_checked } in
      if ltb (last + silent_node_ttl) now
      then raise_if_new res' node_id last now (has_open_silent_node_incident p node_id)
      else after_resolve res' node_id (resolve_silent_node_incident p node_id (now / second))

  -- The loop over the nodes in the order in which the map gives them.
  unfoldable pub watch_nodes :
      Store → WatchdogResult → List (String × ℕ) → ℕ → Store × WatchdogResult
  watch_nodes p res [] now = (p, res)
  watch_nodes p res ((node_id, last) ∷ nodes) now =
      let (q, res') = watch_node p res node_id last now in watch_nodes q res' nodes now

  unfoldable pub silent_node_watchdog : Store → List (String × ℕ) → ℕ → Store × WatchdogResult
  unfolding watch_nodes
  silent_node_watchdog p nodes now = watch_nodes p nothing_done nodes now

-- `WHERE resolved = 0 AND node_id = ?`.
unfoldable pub is_open_on : String → Incident → Bool
is_open_on node_id r = not r.resolved && str_eq r.node_id node_id

abbrev maintenance_row : ℕ → Incident → Incident
maintenance_row at r = record r {
  resolved = true;
  resolved_at = at;
  resolution_reason = if is_empty r.resolution_reason then "maintenance" else r.resolution_reason;
}

-- `wall` is the clock, read where `now` is 0. The number of rows is left out.
unfoldable pub auto_close_incidents_in_maintenance : Store → ℕ → String → ℕ → ℕ → Store
unfolding is_open_on
auto_close_incidents_in_maintenance p user_id node_id now wall =
    let at = if now == 0 then wall else now in
    let (q, silenced) = is_node_silenced p (pos user_id) node_id (pos at) (pos wall) in
    if user_id == 0
    then p
    else if not silenced
    then q
    else if fails q
    then spent q
    else record (spent q) {
      incidents = update_where (is_open_on node_id) (maintenance_row at) q.incidents;
    }
