-- ===== src/Incident/History.antt =====
-- Histories of operations on the incident table.
use nodepulse.Breaker.{second}
use nodepulse.Base.{
  ℕ, ◌+◌, ◌/◌, String, ◌≡◌, refl, ◌∙◌, inl, inr, Bool, not, ◌||◌, Option, none, some, List, [], ◌∷◌,
  arith, ◌==◌, if◌then◌else◌, Bool-cases, ◌&&◌, str_eq,
}
use nodepulse.Base.Int.{ℤ, pos, pos_part, leb_ℤ}
use nodepulse.Text.{is_empty}
use nodepulse.Store.{Store, Incident, fails, spent}
use nodepulse.Incident.{is_open_for, update_where, has_id}
use nodepulse.Incident.Open.{Shuts}
use nodepulse.Incident.Unique.{OneOpen, OneOpen-same, OneOpen-shut}
use nodepulse.Incident.Actions.{
  acknowledge_incident, ack_row, snooze_incident, snooze_row, resolve_incident, may_resolve,
  any_row, day_seconds, row_by_id,
}
use nodepulse.Incident.Sweeps.{
  Heartbeat, close_row, is_open_id, mark_resolved_and_notify, resolve_rows, resolve_stale_incidents,
  resolve_abandoned_across_fleet, rows_where, incident_resolution_reason, is_abandoned,
}
use nodepulse.Incident.Watchdog.{close_rows}

-- Closing a row opens none.
close-Shuts : (at : ℕ) (reason : String) → Shuts (close_row at reason)
unfolding is_open_for
close-Shuts at reason n t r h = ground arith

ack-OneOpen :
    (p : Store) (id now : ℕ) (o : Option Incident) → OneOpen p → OneOpen (ack_row p id now o).0
unfolding ack_row is_open_for
ack-OneOpen p id now none v = v
ack-OneOpen p id now (some r) v = elim (Bool-cases (r.resolved || not (r.acknowledged_at == 0))) [
  | inl noop ↦ rw noop v
  | inr fresh ↦ elim (Bool-cases (fails p)) [
    | inl f ↦ rw (fresh, f) (OneOpen-same p _ refl v)
    | inr f ↦
        rw (fresh, f)
          (OneOpen-shut p _ (has_id id) (λ q. record q { acknowledged_at = now }) refl
            (λ n t q h. h) v)
  ]
]

pub acknowledge-OneOpen :
    (p : Store) (id now : ℕ) → OneOpen p → OneOpen (acknowledge_incident p id now).0
unfolding acknowledge_incident
acknowledge-OneOpen p id now v = elim (Bool-cases (fails p)) [
  | inl f ↦ rw f (OneOpen-same p _ refl v)
  | inr f ↦ rw f (ack-OneOpen (spent p) id now (row_by_id id p.incidents) (OneOpen-same p _ refl v))
]

snooze_row-OneOpen :
    (p : Store) (id seconds now noted : ℕ) (o : Option Incident)
    → OneOpen p
    → OneOpen (snooze_row p id seconds now noted o).0
unfolding snooze_row is_open_for
snooze_row-OneOpen p id seconds now noted none v = v
snooze_row-OneOpen p id seconds now noted (some r) v = elim (Bool-cases r.resolved) [
  | inl gone ↦ rw gone v
  | inr open_ ↦ elim (Bool-cases (fails p)) [
    | inl f ↦ rw (open_, f) (OneOpen-same p _ refl v)
    | inr f ↦
        rw (open_, f)
          (OneOpen-shut p _ (has_id id)
            (λ q. record q { snoozed_until = now + seconds; last_notified_at = noted }) refl
            (λ n t q h. h) v)
  ]
]

pub snooze-OneOpen :
    (p : Store) (id : ℕ) (seconds : ℤ) (now noted : ℕ)
    → OneOpen p
    → OneOpen (snooze_incident p id seconds now noted).0
unfolding snooze_incident
snooze-OneOpen p id seconds now noted v =
    elim (Bool-cases (leb_ℤ seconds (pos 0) || not (leb_ℤ seconds (pos day_seconds)))) [
      | inl bad ↦ rw bad v
      | inr good ↦ elim (Bool-cases (fails p)) [
        | inl f ↦ rw (good, f) (OneOpen-same p _ refl v)
        | inr f ↦
            rw (good, f)
              (snooze_row-OneOpen (spent p) id (pos_part seconds) now noted
                (row_by_id id p.incidents) (OneOpen-same p _ refl v))
      ]
    ]

pub resolve-OneOpen :
    (p : Store) (id user_id now : ℕ) → OneOpen p → OneOpen (resolve_incident p id user_id now).0
unfolding resolve_incident
resolve-OneOpen p id user_id now v = elim (Bool-cases (fails p)) [
  | inl f ↦ rw f (OneOpen-same p _ refl v)
  | inr f ↦ elim (Bool-cases (any_row (may_resolve p id user_id) p.incidents)) [
    | inl hit ↦
        rw (f, hit)
          (OneOpen-shut p _ (may_resolve p id user_id) (close_row now "manual") refl
            (close-Shuts now "manual") v)
    | inr miss ↦ rw (f, miss) (OneOpen-same p _ refl v)
  ]
]

module _ (parse_chat : String → Option ℤ) where
  marked_rows :
      (p : Store) (row : Incident) (reason : String) (at : ℕ)
      → (mark_resolved_and_notify parse_chat p row reason at).incidents ≡ (
          if fails p
          then p.incidents
          else update_where (is_open_id row.id) (close_row at reason) p.incidents)
  unfolding mark_resolved_and_notify
  marked_rows p row reason at = ground arith

  mark-OneOpen :
      (p : Store) (row : Incident) (reason : String) (at : ℕ)
      → OneOpen p
      → OneOpen (mark_resolved_and_notify parse_chat p row reason at)
  mark-OneOpen p row reason at v = elim (Bool-cases (fails p)) [
    | inl f ↦ OneOpen-same p _ (marked_rows p row reason at ∙ rw f) v
    | inr f ↦
        OneOpen-shut p _ (is_open_id row.id) (close_row at reason)
          (marked_rows p row reason at ∙ rw f) (close-Shuts at reason) v
  ]

  resolve_rows-OneOpen :
      (reason_of : Incident → String) (at : ℕ) (p : Store) (rs : List Incident)
      → OneOpen p
      → OneOpen (resolve_rows parse_chat reason_of at p rs)
  unfolding resolve_rows
  resolve_rows-OneOpen reason_of at p [] v = v
  resolve_rows-OneOpen reason_of at p (r ∷ rs) v = elim (Bool-cases (is_empty (reason_of r))) [
    | inl ongoing ↦ rw ongoing (resolve_rows-OneOpen reason_of at p rs v)
    | inr over ↦ rw over (
        resolve_rows-OneOpen reason_of at (mark_resolved_and_notify parse_chat p r (reason_of r) at)
          rs (mark-OneOpen p r (reason_of r) at v))
  ]

  pub close_rows-OneOpen :
      (detail : ℕ → String) (p : Store) (rs : List Incident) (at : ℕ)
      → OneOpen p
      → OneOpen (close_rows parse_chat detail p rs at)
  unfolding close_rows
  close_rows-OneOpen detail p [] at v = v
  close_rows-OneOpen detail p (r ∷ rs) at v =
      close_rows-OneOpen detail
        (mark_resolved_and_notify parse_chat p r "auto:heartbeat_restored" at) rs at
        (mark-OneOpen p r "auto:heartbeat_restored" at v)

  pub stale-OneOpen :
      {F : Type 0} (at_most : F → ℕ → Bool) (p : Store) (hb : Heartbeat F) (now : ℕ)
      → OneOpen p
      → OneOpen (resolve_stale_incidents parse_chat at_most p hb now)
  unfolding resolve_stale_incidents
  stale-OneOpen at_most p hb now v = elim (Bool-cases (fails p)) [
    | inl f ↦ rw f (OneOpen-same p _ refl v)
    | inr f ↦ rw f (
        resolve_rows-OneOpen (λ r. incident_resolution_reason at_most r.title hb now r.started_at)
          (now / second) (spent p)
          (rows_where (λ r. not r.resolved && str_eq r.node_id hb.node_id) p.incidents)
          (OneOpen-same p _ refl v))
  ]

  pub abandoned-OneOpen :
      (p : Store) (now : ℕ) → OneOpen p → OneOpen (resolve_abandoned_across_fleet parse_chat p now)
  unfolding resolve_abandoned_across_fleet
  abandoned-OneOpen p now v = elim (Bool-cases (fails p)) [
    | inl f ↦ rw f (OneOpen-same p _ refl v)
    | inr f ↦ rw f (
        resolve_rows-OneOpen (λ r. "auto:abandoned_ttl") (now / second) (spent p)
          (rows_where (is_abandoned now) p.incidents) (OneOpen-same p _ refl v))
  ]
