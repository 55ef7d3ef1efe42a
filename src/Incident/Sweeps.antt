-- ===== src/Incident/Sweeps.antt =====
-- The automatic resolutions: pkg/store/resolve.go, pkg/store/silent_watchdog.go and
-- AutoCloseIncidentsInMaintenance of pkg/store/maintenance.go. `now` is in nanoseconds; a sweep reads
-- the clock once.
use nodepulse.Base.{
  ℕ, ◌+◌, ◌*◌, ◌/◌, String, Bool, true, not, ◌&&◌, Option, none, some, List, [], ◌∷◌, ◌++◌, ltb,
  ◌==◌, if◌then◌else◌, str_eq,
}
use nodepulse.Base.Int.{ℤ}
use nodepulse.Breaker.{second}
use nodepulse.Text.{is_empty, after_prefix}
use nodepulse.Store.{
  Store, Incident, Settings, Alerter, Report, Notice, telegram_resolved, webhook, fails, spent,
  get_node_owner, get_settings_locked,
}
use nodepulse.Incident.{update_where, chat_of}
use nodepulse.Incident.Actions.{any_row}

pub record ServiceStatus : Type 0 where
  pub name : String
  pub active : Bool

-- The heartbeat, over a type `F` of floats.
pub record Heartbeat (F : Type 0) : Type 0 where
  pub node_id : String
  pub used_percent : F
  pub services : List ServiceStatus

abbrev pub abandoned_container_ttl : ℕ
abandoned_container_ttl = 1800 * second

abbrev pub silent_node_ttl : ℕ
silent_node_ttl = 120 * second

-- The loop over the services: the first one of that name decides.
unfoldable pub container_reason : String → List ServiceStatus → ℕ → ℕ → String
container_reason name [] now started_at = "auto:service_absent"
container_reason name (s ∷ ss) now started_at =
    let rest = container_reason name ss now started_at in
    if str_eq s.name name
    then (if s.active
        then "auto:service_recovered"
        else if ltb 0 started_at && ltb (started_at * second + abandoned_container_ttl) now
        then "auto:abandoned_ttl"
        else "")
    else rest

abbrev container_title : Option String → List ServiceStatus → ℕ → ℕ → String
container_title none services now started_at = ""
container_title (some name) services now started_at =
    if is_empty name then "" else container_reason name services now started_at

-- `at_most x n` stands for the comparison x <= n of floats. "" means that the incident goes on.
unfoldable pub incident_resolution_reason :
    {F : Type 0} → (F → ℕ → Bool) → String → Heartbeat F → ℕ → ℕ → String
unfolding container_reason after_prefix
incident_resolution_reason at_most title hb now started_at =
    if str_eq title "High Memory Pressure"
    then (if at_most hb.used_percent 90 then "auto:metric_recovered" else "")
    else container_title (after_prefix "Container Stopped: " title) hb.services now started_at

-- `WHERE id = ? AND resolved = 0`.
unfoldable pub is_open_id : ℕ → Incident → Bool
is_open_id id r = r.id == id && not r.resolved

abbrev pub close_row : ℕ → String → Incident → Incident
close_row at reason r = record r { resolved = true; resolved_at = at; resolution_reason = reason }

abbrev resolved_notices : Option Alerter → ℤ → Report → List Notice
resolved_notices none to r = []
resolved_notices (some a) to r = telegram_resolved to r ∷ []

unfoldable pub rows_where : (Incident → Bool) → List Incident → List Incident
rows_where matches [] = []
rows_where matches (r ∷ rs) =
    let rest = rows_where matches rs in if matches r then r ∷ rest else rest

-- `started_at > 0 AND started_at < cutoff`, with the cutoff in whole seconds.
unfoldable pub is_abandoned : ℕ → Incident → Bool
is_abandoned now r =
    not r.resolved
    && ltb 0 r.started_at
    && ltb (r.started_at + abandoned_container_ttl / second) (now / second)

module _ (parse_chat : String → Option ℤ) where
  pub notify_resolved : Store → Option Settings → Report → Store
  notify_resolved p none r = p
  notify_resolved p (some s) r = record p {
    outbox =
        p.outbox
        ++ (resolved_notices p.alerter (chat_of parse_chat p s) r
            ++ (if p.has_webhook && not (is_empty s.webhook_url)
                then webhook "incident.resolved" s.webhook_url s.webhook_secret r ∷ []
                else []));
  }

  unfoldable pub mark_resolved_and_notify : Store → Incident → String → ℕ → Store
  unfolding notify_resolved get_node_owner get_settings_locked is_open_id any_row
  mark_resolved_and_notify p row reason at =
      let q = record (spent p) {
        incidents = update_where (is_open_id row.id) (close_row at reason) p.incidents;
      } in
      let (q1, owner) = get_node_owner q row.node_id in
      let (q2, settings) = get_settings_locked q1 owner in
      if fails p
      then spent p
      else if any_row (is_open_id row.id) p.incidents
      then notify_resolved q2 settings (record {
        id = row.id;
        node_id = row.node_id;
        severity = row.severity;
        title = row.title;
        detail = "";
        ts = at;
      })
      else q

  -- One resolution for each row that the query gave, where the row has a reason.
  unfoldable pub resolve_rows : (Incident → String) → ℕ → Store → List Incident → Store
  resolve_rows reason_of at p [] = p
  resolve_rows reason_of at p (r ∷ rs) =
      resolve_rows reason_of at
        (if is_empty (reason_of r) then p else mark_resolved_and_notify p r (reason_of r) at) rs

  unfoldable pub resolve_stale_incidents :
      {F : Type 0} → (F → ℕ → Bool) → Store → Heartbeat F → ℕ → Store
  unfolding resolve_rows rows_where
  resolve_stale_incidents at_most p hb now =
      if fails p
      then spent p
      else resolve_rows (λ r. incident_resolution_reason at_most r.title hb now r.started_at)
          (now / second) (spent p)
          (rows_where (λ r. not r.resolved && str_eq r.node_id hb.node_id) p.incidents)

  -- The number of rows found, which the function also returns, is left out.
  unfoldable pub resolve_abandoned_across_fleet : Store → ℕ → Store
  unfolding resolve_rows rows_where is_abandoned
  resolve_abandoned_across_fleet p now =
      if fails p
      then spent p
      else resolve_rows (λ r. "auto:abandoned_ttl") (now / second) (spent p)
          (rows_where (is_abandoned now) p.incidents)
