-- ===== src/Incident.antt =====
-- The life of an incident row: CreateIncident, notifyAfterCreate and ResolveIncident of
-- pkg/store/sqlite.go. A reading of the clock is an argument, in unix seconds.
pub mod Actions
pub mod Sweeps
pub mod Watchdog
pub mod Open
pub mod Unique
pub mod History
pub mod Runs
pub mod Trace
pub mod Newest
pub mod Repeats
pub mod Quiet
pub mod Rights
pub mod Calm
use nodepulse.Base.{
  ℕ, suc, ◌+◌, String, Bool, false, not, ◌&&◌, ◌||◌, Option, none, some, List, [], ◌∷◌, ◌++◌, ltb,
  leb, ◌==◌, if◌then◌else◌, str_eq, zero, ◌-◌, ◌*◌, ◌/◌, ◌%◌, ◌^◌, ◌≤◌, ◌<◌, ◌≡◌, refl, sym, ap,
  ◌∙◌, ◌≢◌, ◌↔◌, ◌⊎◌, inl, inr, true, map, arith, ltb→lt, lt→ltb, leb→le, ==_iff, str_eq_iff,
  str_eq_refl, Bool-cases, Option-cases, length, length-append, All, All-append, All-map, update,
  update_self, update_ne,
}
use nodepulse.Base.Int.{ℤ, pos}
use nodepulse.Text.{is_empty}
use nodepulse.Store.{
  Report, Store, Incident, Settings, Notice, Alerter, plain, rich, telegram, telegram_buttons,
  webhook, recorded_webhook, chat, fails, spent, get_node_owner, get_settings_locked,
}
use nodepulse.Maintenance.{is_node_silenced}

unfoldable pub cooldown_for : String → ℕ
cooldown_for severity = if str_eq severity "critical" then 60 else 300

-- Errors of the driver, by the statement that met one.
pub data IncidentError : Type 0 where
  lookup_failed create_failed refresh_failed notified_failed : IncidentError

-- `node_id = ? AND title = ? AND resolved = 0`.
unfoldable pub is_open_for : String → String → Incident → Bool
is_open_for node_id title r = not r.resolved && str_eq r.node_id node_id && str_eq r.title title

newer : Incident → Option Incident → Option Incident
newer r none = some r
newer r (some q) = if ltb q.id r.id then some r else some q

-- `... ORDER BY id DESC LIMIT 1`.
unfoldable pub newest_open : String → String → List Incident → Option Incident
unfolding is_open_for newer
newest_open node_id title [] = none
newest_open node_id title (r ∷ rs) =
    let rest = newest_open node_id title rs in
    if is_open_for node_id title r then newer r rest else rest

-- `UPDATE incidents SET ... WHERE` a test on the row.
unfoldable pub update_where :
    (Incident → Bool) → (Incident → Incident) → List Incident → List Incident
update_where matches change [] = []
update_where matches change (r ∷ rs) =
    (if matches r then change r else r) ∷ update_where matches change rs

abbrev pub has_id : ℕ → Incident → Bool
has_id id r = r.id == id

-- The settings mute this severity.
unfoldable pub is_muted : Settings → String → Bool
is_muted s severity =
    (str_eq severity "critical" && not s.notify_critical)
    || (str_eq severity "warning" && not s.notify_warning)

pub fresh_row : ℕ → String → String → String → String → ℕ → Incident
fresh_row id node_id severity title detail now = record {
  id = id;
  node_id = node_id;
  severity = severity;
  title = title;
  detail = detail;
  started_at = now;
  resolved = false;
  resolved_at = 0;
  resolution_reason = "";
  last_notified_at = now;
  acknowledged_at = 0;
  snoozed_until = 0;
}

abbrev pub report : ℕ → String → String → String → String → ℕ → Report
report id node_id severity title detail now = record {
  id = id;
  node_id = node_id;
  severity = severity;
  title = title;
  detail = detail;
  ts = now;
}

-- Whether the snooze and the cooldown gate let a notification of the open incident through.
unfoldable pub is_due : Incident → String → ℕ → Bool
is_due row severity now =
    not (ltb now row.snoozed_until)
    && (row.last_notified_at == 0 || leb (row.last_notified_at + cooldown_for severity) now)

abbrev pub alert_notices : Option Alerter → ℤ → Report → List Notice
alert_notices none to r = []
alert_notices (some plain) to r = telegram to r ∷ []
alert_notices (some rich) to r = telegram_buttons to r ∷ []

abbrev pub webhook_notices : Store → Settings → Report → List Notice
webhook_notices p s r =
    if p.has_webhook && not (is_empty s.webhook_url)
    then (if p.has_recorder
        then recorded_webhook "incident.created" s.webhook_url s.webhook_secret r
        else webhook "incident.created" s.webhook_url s.webhook_secret r)
      ∷ []
    else []

abbrev pub chat_notices : Store → Settings → Report → List Notice
chat_notices p s r = if p.has_chat then chat s r ∷ [] else []

module _ (parse_chat : String → Option ℤ) where
  -- The chat of the settings, where it parses to a nonzero number, and the configured one else.
  -- `parse_chat` stands for strconv.ParseInt, with `none` for an error and for 0.
  abbrev pub chat_of : Store → Settings → ℤ
  chat_of p s =
      if is_empty s.telegram_chat_id
      then p.default_chat_id
      else elim (parse_chat s.telegram_chat_id) [ none ↦ p.default_chat_id | some id ↦ id ]

  -- The dispatches behind the gates of notifyAfterCreate.
  unfoldable pub dispatch : Store → Settings → Report → Store
  dispatch p s r = record p {
    outbox =
        p.outbox
        ++ (alert_notices p.alerter (chat_of p s) r
            ++ (webhook_notices p s r ++ chat_notices p s r));
  }

  -- The gates in their order: no settings, a muted severity, an active maintenance window.
  unfoldable pub with_settings : Store → ℕ → Option Settings → Report → Store
  unfolding dispatch is_muted
  with_settings p owner none r = p
  with_settings p owner (some s) r =
      let (q, silenced) = is_node_silenced p (pos owner) r.node_id (pos r.ts) (pos r.ts) in
      if is_muted s r.severity then p else if silenced then q else dispatch q s r

  unfoldable pub notify_after_create : Store → Report → Store
  unfolding with_settings get_node_owner get_settings_locked
  notify_after_create p r =
      let (p1, owner) = get_node_owner p r.node_id in
      let (p2, settings) = get_settings_locked p1 owner in with_settings p2 owner settings r

  -- No open incident: create one and notify.
  unfoldable pub insert_incident :
      Store → String → String → String → String → ℕ → Store × Option IncidentError
  unfolding fresh_row
  insert_incident p node_id severity title detail now =
      if fails p then (spent p, some create_failed) else (
        notify_after_create
            (record (spent p) {
              incidents = p.incidents ++ fresh_row p.next_id node_id severity title detail now ∷ [];
              next_id = suc p.next_id;
            })
            (report p.next_id node_id severity title detail now),
        none,
      )

  -- The last step on an open incident: note the time and notify.
  unfoldable pub renotify :
      Store → Incident → String → String → String → String → ℕ → Store × Option IncidentError
  renotify p row node_id severity title detail now =
      if fails p then (spent p, some notified_failed) else (
        notify_after_create
            (record (spent p) {
              incidents =
                  update_where (has_id row.id) (λ r. record r { last_notified_at = now })
                    p.incidents;
            })
            (report row.id node_id severity title detail now),
        none,
      )

  unfoldable pub refresh_incident :
      Store → Incident → String → String → String → String → ℕ → Store × Option IncidentError
  unfolding renotify is_due
  refresh_incident p row node_id severity title detail now =
      let q = record (spent p) {
        incidents = update_where (has_id row.id) (λ r. record r { detail = detail }) p.incidents;
      } in
      if fails p
      then (spent p, some refresh_failed)
      else if is_due row severity now
      then renotify q row node_id severity title detail now
      else (q, none)

  unfoldable pub create_or_refresh :
      Store → Option Incident → String → String → String → String → ℕ → Store × Option IncidentError
  unfolding insert_incident refresh_incident
  create_or_refresh p none node_id severity title detail now =
      insert_incident p node_id severity title detail now
  create_or_refresh p (some row) node_id severity title detail now =
      refresh_incident p row node_id severity title detail now

  unfoldable pub create_incident :
      Store → String → String → String → String → ℕ → Store × Option IncidentError
  unfolding create_or_refresh
  create_incident p node_id severity title detail now =
      if fails p
      then (spent p, some lookup_failed)
      else create_or_refresh (spent p) (newest_open node_id title p.incidents) node_id severity
          title detail now
