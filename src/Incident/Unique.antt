-- ===== src/Incident/Unique.antt =====
-- CreateIncident and the number of open incidents for a node and a title.
use nodepulse.Base.{
  ℕ, ◌≤◌, String, ◌≡◌, refl, ◌∙◌, inl, inr, Bool, Option, none, some, [], ◌∷◌, ◌++◌, arith,
  if◌then◌else◌, Bool-cases,
}
use nodepulse.Base.Int.{ℤ}
use nodepulse.Store.{Store, Incident, Report, fails, spent}
use nodepulse.Maintenance.{is_node_silenced}
use nodepulse.Incident.{
  is_open_for, newest_open, update_where, has_id, fresh_row, notify_after_create, insert_incident,
  renotify, is_due, refresh_incident, create_or_refresh, create_incident,
}
use nodepulse.Incident.Open.{count_open, Shuts, count_open-update_where, count_open-fresh}

pub record OneOpen (p : Store) : Type 0 where
  pub one : (node_id title : String) → count_open node_id title p.incidents ≤ 1

pub OneOpen-same : (p q : Store) → q.incidents ≡ p.incidents → OneOpen p → OneOpen q
OneOpen-same p q e v = record { one = λ n t. rw e (v.one n t) }

pub OneOpen-shut :
    (p q : Store) (matches : Incident → Bool) (f : Incident → Incident)
    → q.incidents ≡ update_where matches f p.incidents
    → Shuts f
    → OneOpen p
    → OneOpen q
OneOpen-shut p q matches f e s v = record {
  one = λ n t. rw e (omega (arith, count_open-update_where n t matches f p.incidents s, v.one n t));
}

module _ (parse_chat : String → Option ℤ) where
  notify_rows :
      (p : Store) (r : Report) → (notify_after_create parse_chat p r).incidents ≡ p.incidents
  unfolding notify_after_create is_node_silenced
  notify_rows p r = ground arith

  pub insert_rows :
      (p : Store) (n s t d : String) (now : ℕ)
      → (insert_incident parse_chat p n s t d now).0.incidents
        ≡ (if fails p then p.incidents else p.incidents ++ fresh_row p.next_id n s t d now ∷ [])
  unfolding insert_incident
  insert_rows p n s t d now = elim (Bool-cases (fails p)) [
    | inl f ↦ rw f
    | inr f ↦ rw f (notify_rows _ _)
  ]

  insert-OneOpen :
      (p : Store) (n s t d : String) (now : ℕ)
      → newest_open n t p.incidents ≡ none
      → OneOpen p
      → OneOpen (insert_incident parse_chat p n s t d now).0
  insert-OneOpen p n s t d now h v = record {
    one = λ n' t'. rw (insert_rows p n s t d now) (elim (Bool-cases (fails p)) [
      | inl f ↦ rw f (v.one n' t')
      | inr f ↦ rw f (count_open-fresh n t n' t' s d p.next_id now p.incidents h (v.one n' t'))
    ]);
  }

  pub renotify_rows :
      (p : Store) (row : Incident) (n s t d : String) (now : ℕ)
      → (renotify parse_chat p row n s t d now).0.incidents ≡ (
          if fails p
          then p.incidents
          else update_where (has_id row.id) (λ r. record r { last_notified_at = now }) p.incidents)
  unfolding renotify
  renotify_rows p row n s t d now = elim (Bool-cases (fails p)) [
    | inl f ↦ rw f
    | inr f ↦ rw f (notify_rows _ _)
  ]

  renotify-OneOpen :
      (p : Store) (row : Incident) (n s t d : String) (now : ℕ)
      → OneOpen p
      → OneOpen (renotify parse_chat p row n s t d now).0
  unfolding is_open_for
  renotify-OneOpen p row n s t d now v = elim (Bool-cases (fails p)) [
    | inl f ↦ OneOpen-same p _ (renotify_rows p row n s t d now ∙ rw f) v
    | inr f ↦
        OneOpen-shut p _ (has_id row.id) (λ r. record r { last_notified_at = now })
          (renotify_rows p row n s t d now ∙ rw f) (λ n' t' r h. h) v
  ]

  refresh-OneOpen :
      (p : Store) (row : Incident) (n s t d : String) (now : ℕ)
      → OneOpen p
      → OneOpen (refresh_incident parse_chat p row n s t d now).0
  unfolding refresh_incident is_open_for
  refresh-OneOpen p row n s t d now v = elim (Bool-cases (fails p)) [
    | inl f ↦ rw f (OneOpen-same p _ refl v)
    | inr f ↦ elim (Bool-cases (is_due row s now)) [
      | inl due ↦ rw (f, due) (renotify-OneOpen _ row n s t d now refreshed)
      | inr quiet ↦ rw (f, quiet) refreshed
    ]
  ]
    where
      refreshed : OneOpen (record (spent p) {
        incidents = update_where (has_id row.id) (λ r. record r { detail = d }) p.incidents;
      })
      refreshed =
          OneOpen-shut p _ (has_id row.id) (λ r. record r { detail = d }) refl (λ n' t' r h. h) v

  pub create-OneOpen :
      (p : Store) (n s t d : String) (now : ℕ)
      → OneOpen p
      → OneOpen (create_incident parse_chat p n s t d now).0
  unfolding create_incident
  create-OneOpen p n s t d now v = elim (Bool-cases (fails p)) [
    | inl f ↦ rw f (OneOpen-same p _ refl v)
    | inr f ↦ rw f (found (newest_open n t p.incidents) refl)
  ]
    where
      found :
          (o : Option Incident)
          → newest_open n t p.incidents ≡ o
          → OneOpen (create_or_refresh parse_chat (spent p) o n s t d now).0
      found none h = insert-OneOpen (spent p) n s t d now h (OneOpen-same p _ refl v)
      found (some row) h = refresh-OneOpen (spent p) row n s t d now (OneOpen-same p _ refl v)
