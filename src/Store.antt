-- ===== src/Store.antt =====
-- The rows and tables of pkg/store/sqlite.go that the incident code reads and writes, and the
-- outcome of each SQL statement. SQL text is read as what it does to the rows.
use nodepulse.Base.{
  ℕ, String, Bool, true, false, Option, none, some, List, [], ◌∷◌, if◌then◌else◌, update,
}
use nodepulse.Base.Int.{ℤ}

pub record Incident : Type 0 where
  pub id : ℕ
  pub node_id : String
  pub severity : String
  pub title : String
  pub detail : String
  pub started_at : ℕ
  pub resolved : Bool
  pub resolved_at : ℕ
  pub resolution_reason : String
  pub last_notified_at : ℕ
  pub acknowledged_at : ℕ
  pub snoozed_until : ℕ

pub record Settings : Type 0 where
  pub telegram_chat_id : String
  pub webhook_url : String
  pub webhook_secret : String
  pub slack_webhook_url : String
  pub discord_webhook_url : String
  pub notify_critical : Bool
  pub notify_warning : Bool

-- A row of maintenance_windows; `node_ids` is the stored comma-separated text.
pub record MaintenanceRow : Type 0 where
  pub id : ℕ
  pub user_id : ℤ
  pub scope : String
  pub reason : String
  pub node_ids : String
  pub start_unix : ℤ
  pub end_unix : ℤ
  pub created_at : ℕ
  pub created_by : String

-- The kinds of alerter that the store may hold: a plain one, or one with buttons.
pub data Alerter : Type 0 where
  plain rich : Alerter

-- What the notices of an incident say.
pub record Report : Type 0 where
  pub id : ℕ
  pub node_id : String
  pub severity : String
  pub title : String
  pub detail : String
  pub ts : ℕ

-- What leaves the process: a Telegram message to a chat, without or with buttons, or of a
-- resolution; a webhook by event, address and secret, sent straight or through the recorder; the
-- chat webhooks of the settings. `go` and synchronous dispatches are not told apart.
pub data Notice : Type 0 where
  telegram telegram_buttons telegram_resolved : ℤ → Report → Notice
  webhook recorded_webhook : String → String → String → Report → Notice
  chat : Settings → Report → Notice

-- `faults` are the outcomes of the SQL statements to come: `true` is an error of the driver. Past
-- its end no statement fails.
pub record Store : Type 0 where
  pub incidents : List Incident
  pub next_id : ℕ
  pub owners : String → Option ℕ
  pub settings : ℕ → Option Settings
  pub windows : List MaintenanceRow
  pub next_window : ℕ
  pub faults : List Bool
  pub alerter : Option Alerter
  pub has_webhook : Bool
  pub has_recorder : Bool
  pub has_chat : Bool
  pub default_chat_id : ℤ
  pub outbox : List Notice

abbrev pub next_fault : List Bool → Bool
next_fault [] = false
next_fault (f ∷ fs) = f

abbrev pub later_faults : List Bool → List Bool
later_faults [] = []
later_faults (f ∷ fs) = fs

-- One SQL statement: whether it fails, and the store with that outcome used up.
abbrev pub fails : Store → Bool
fails p = next_fault p.faults

abbrev pub spent : Store → Store
spent p = record p { faults = later_faults p.faults }

-- `SELECT user_id FROM node_owners WHERE node_id = ?`, with 1 on a missing row or an error.
abbrev owner_or_admin : Option ℕ → ℕ
owner_or_admin none = 1
owner_or_admin (some uid) = uid

unfoldable pub get_node_owner : Store → String → Store × ℕ
get_node_owner p node_id = (spent p, if fails p then 1 else owner_or_admin (p.owners node_id))

abbrev pub no_settings : Settings
no_settings = record {
  telegram_chat_id = "";
  webhook_url = "";
  webhook_secret = "";
  slack_webhook_url = "";
  discord_webhook_url = "";
  notify_critical = true;
  notify_warning = true;
}

abbrev settings_or_default : Option Settings → Settings
settings_or_default none = no_settings
settings_or_default (some s) = s

-- `none` on an error of the driver; a missing row reads as both notifications on.
unfoldable pub get_settings_locked : Store → ℕ → Store × Option Settings
get_settings_locked p user_id =
    (spent p, if fails p then none else some (settings_or_default (p.settings user_id)))

-- INSERT OR REPLACE INTO node_owners.
unfoldable pub bind_node : Store → String → ℕ → Store × Bool
bind_node p node_id user_id =
    if fails p
    then (spent p, false)
    else (record (spent p) { owners = update p.owners node_id (some user_id) }, true)
