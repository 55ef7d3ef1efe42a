-- ===== src/Incident/Actions.antt =====
-- What operators do to an incident: ResolveIncident of pkg/store/sqlite.go, AcknowledgeIncident of
-- pkg/store/callback_actions.go, SnoozeIncident and IncidentSnoozedUntil of pkg/store/snooze.go.
use nodepulse.Base.{
  ℕ, ◌+◌, ◌*◌, Bool, true, false, not, ◌&&◌, ◌||◌, Option, none, some, List, [], ◌∷◌, ◌==◌,
  if◌then◌else◌,
}
use nodepulse.Base.Int.{ℤ, pos, pos_part, leb_ℤ}
use nodepulse.Store.{Store, Incident, fails, spent}
use nodepulse.Incident.{update_where, has_id}

-- `SELECT ... WHERE id = ?`; the column is the primary key.
unfoldable pub row_by_id : ℕ → List Incident → Option Incident
row_by_id id [] = none
row_by_id id (r ∷ rs) = let rest = row_by_id id rs in if r.id == id then some r else rest

-- The answer of AcknowledgeIncident; `none` is an error of the driver.
unfoldable pub ack_row : Store → ℕ → ℕ → Option Incident → Store × Option Bool
ack_row p id now none = (p, some false)
ack_row p id now (some r) =
    if r.resolved || not (r.acknowledged_at == 0)
    then (p, some false)
    else if fails p
    then (spent p, none)
    else (
      record (spent p) {
        incidents = update_where (has_id id) (λ q. record q { acknowledged_at = now }) p.incidents;
      },
      some true,
    )

-- `WHERE id = ? AND resolved = 0` finds no row where the row is resolved.
unfoldable pub acknowledge_incident : Store → ℕ → ℕ → Store × Option Bool
unfolding ack_row row_by_id
acknowledge_incident p id now =
    if fails p then (spent p, none) else ack_row (spent p) id now (row_by_id id p.incidents)

pub data Snoozed : Type 0 where
  until : ℕ → Snoozed
  duration_invalid incident_not_found database : Snoozed

abbrev pub day_seconds : ℕ
day_seconds = 24 * 3600

-- `now` and `noted` are the two readings of the clock.
unfoldable pub snooze_row : Store → ℕ → ℕ → ℕ → ℕ → Option Incident → Store × Snoozed
snooze_row p id seconds now noted none = (p, incident_not_found)
snooze_row p id seconds now noted (some r) =
    if r.resolved then (p, incident_not_found) else if fails p then (spent p, database) else (
      record (spent p) {
        incidents =
            update_where (has_id id)
              (λ q. record q { snoozed_until = now + seconds; last_notified_at = noted })
              p.incidents;
      },
      until (now + seconds),
    )

unfoldable pub snooze_incident : Store → ℕ → ℤ → ℕ → ℕ → Store × Snoozed
unfolding snooze_row row_by_id
snooze_incident p id seconds now noted =
    if leb_ℤ seconds (pos 0) || not (leb_ℤ seconds (pos day_seconds))
    then (p, duration_invalid)
    else if fails p
    then (spent p, database)
    else snooze_row (spent p) id (pos_part seconds) now noted (row_by_id id p.incidents)

abbrev snooze_of : Option Incident → ℕ
snooze_of none = 0
snooze_of (some r) = r.snoozed_until

unfoldable pub incident_snoozed_until : Store → ℕ → Store × ℕ
unfolding row_by_id
incident_snoozed_until p id = (spent p, if fails p then 0 else snooze_of (row_by_id id p.incidents))

pub data Resolution : Type 0 where
  resolved_now forbidden not_found failed : Resolution

abbrev pub owned_by : ℕ → Option ℕ → Bool
owned_by user_id none = false
owned_by user_id (some uid) = uid == user_id

-- The row, if the user is the admin or owns its node. The row may be resolved already.
unfoldable pub may_resolve : Store → ℕ → ℕ → Incident → Bool
may_resolve p id user_id r = r.id == id && (user_id == 1 || owned_by user_id (p.owners r.node_id))

unfoldable pub any_row : (Incident → Bool) → List Incident → Bool
any_row matches [] = false
any_row matches (r ∷ rs) = matches r || any_row matches rs

-- No row was changed: a missing row, also on an error of the second query, or another's.
no_rows : Store → ℕ → Store × Resolution
no_rows p id =
    (spent p, if not (fails p) && any_row (has_id id) p.incidents then forbidden else not_found)

unfoldable pub resolve_incident : Store → ℕ → ℕ → ℕ → Store × Resolution
unfolding may_resolve any_row no_rows
resolve_incident p id user_id now =
    if fails p
    then (spent p, failed)
    else if any_row (may_resolve p id user_id) p.incidents
    then (
      record (spent p) {
        incidents =
            update_where (may_resolve p id user_id)
              (λ r. record r { resolved = true; resolved_at = now; resolution_reason = "manual" })
              p.incidents;
      },
      resolved_now,
    )
    else no_rows (spent p) id
