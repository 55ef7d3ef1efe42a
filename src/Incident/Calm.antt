-- ===== src/Incident/Calm.antt =====
-- CreateIncident where no SQL statement meets an error.
use nodepulse.Base.{String, ℕ, ◌≡◌, refl, inl, inr, false, Option, none, some, List, [], Bool-cases}
use nodepulse.Base.Int.{ℤ, pos, leb_ℤ}
use nodepulse.Store.{
  Store, Incident, Settings, Report, fails, spent, get_node_owner, get_settings_locked,
}
use nodepulse.Maintenance.{is_node_silenced}
use nodepulse.Incident.{
  newest_open, fresh_row, insert_incident, refresh_incident, renotify, create_or_refresh,
  IncidentError, create_incident, notify_after_create, with_settings, dispatch, update_where,
  has_id, is_open_for, is_muted, is_due,
}
use nodepulse.Incident.Newest.{newest_open-fresh, change, changed, Stays, newest_open-change}
use nodepulse.Incident.Unique.{insert_rows, renotify_rows}

-- No statement to come fails.
abbrev pub Calm : Store → Type 0
Calm p = p.faults ≡ []

pub Calm-succeeds : (p : Store) → Calm p → fails p ≡ false
Calm-succeeds p h = rw h refl

pub spent-Calm : (p : Store) → Calm p → Calm (spent p)
spent-Calm p h = rw h refl

silenced-Calm :
    (p : Store) (user : ℤ) (node_id : String) (now wall : ℤ)
    → Calm p
    → Calm (is_node_silenced p user node_id now wall).0
unfolding is_node_silenced
silenced-Calm p user node_id now wall h = elim (Bool-cases (leb_ℤ user (pos 0))) [
  | inl y ↦ rw y h
  | inr n ↦ rw n (spent-Calm p h)
]

-- The answer to a lookup of an open incident: whether there is one is kept by a change of rows.
kept_open :
    (n t : String) (id : ℕ) (f : Incident → Incident) (rs : List Incident) (row : Incident)
    → Stays n t f
    → newest_open n t rs ≡ some row
    → (row' : Incident) × (newest_open n t (update_where (has_id id) f rs) ≡ some row')
unfolding change
kept_open n t id f rs row st e = (changed id f row, rw (newest_open-change n t id f rs st, e) refl)

module _ (parse_chat : String → Option ℤ) where
  settings-Calm :
      (p : Store) (owner : ℕ) (s : Option Settings) (r : Report)
      → Calm p
      → Calm (with_settings parse_chat p owner s r)
  unfolding with_settings dispatch
  settings-Calm p owner none r h = h
  settings-Calm p owner (some s) r h =
      let q = is_node_silenced p (pos owner) r.node_id (pos r.ts) (pos r.ts) in
      let c = silenced-Calm p (pos owner) r.node_id (pos r.ts) (pos r.ts) h in
      elim (Bool-cases (is_muted s r.severity)) [
        | inl y ↦ rw y h
        | inr n ↦ elim (Bool-cases q.1) [ inl y ↦ rw (n, y) c | inr m ↦ rw (n, m) c ]
      ]

  notify-Calm : (p : Store) (r : Report) → Calm p → Calm (notify_after_create parse_chat p r)
  unfolding notify_after_create get_node_owner get_settings_locked
  notify-Calm p r h = settings-Calm _ _ _ r (spent-Calm (spent p) (spent-Calm p h))

  -- CreateIncident succeeds, and leaves an open incident of the node and the title behind.
  pub record Opened (n t : String) (o : Store × Option IncidentError) : Type 0 where
    pub calm : Calm o.0
    pub no_error : o.1 ≡ none
    pub row : Incident
    pub newest : newest_open n t o.0.incidents ≡ some row

  insert-Opened :
      (p : Store) (n s t d : String) (now : ℕ)
      → Calm p
      → newest_open n t p.incidents ≡ none
      → Opened n t (insert_incident parse_chat p n s t d now)
  unfolding insert_incident
  insert-Opened p n s t d now h e = record {
    calm = rw (Calm-succeeds p h) (notify-Calm _ _ (spent-Calm p h));
    no_error = rw (Calm-succeeds p h) refl;
    row = fresh_row p.next_id n s t d now;
    newest =
        rw (insert_rows parse_chat p n s t d now, Calm-succeeds p h)
          (newest_open-fresh n s t d p.next_id now p.incidents e);
  }

  renotify-Opened :
      (p : Store) (row r : Incident) (n s t d : String) (now : ℕ)
      → Calm p
      → newest_open n t p.incidents ≡ some r
      → Opened n t (renotify parse_chat p row n s t d now)
  unfolding renotify is_open_for
  renotify-Opened p row r n s t d now h e =
      let (row', found) =
        kept_open n t row.id (λ q. record q { last_notified_at = now }) p.incidents r
          (record { same_id = λ q. refl; same_open = λ q. refl }) e in
      record {
        calm = rw (Calm-succeeds p h) (notify-Calm _ _ (spent-Calm p h));
        no_error = rw (Calm-succeeds p h) refl;
        row = row';
        newest = rw (renotify_rows parse_chat p row n s t d now, Calm-succeeds p h) found;
      }

  refresh-Opened :
      (p : Store) (row : Incident) (n s t d : String) (now : ℕ)
      → Calm p
      → newest_open n t p.incidents ≡ some row
      → Opened n t (refresh_incident parse_chat p row n s t d now)
  unfolding refresh_incident is_open_for
  refresh-Opened p row n s t d now h e =
      let (row', found) =
        kept_open n t row.id (λ q. record q { detail = d }) p.incidents row
          (record { same_id = λ q. refl; same_open = λ q. refl }) e in
      elim (Bool-cases (is_due row s now)) [
        | inl due ↦
            rw (Calm-succeeds p h, due)
              (renotify-Opened _ row row' n s t d now (spent-Calm p h) found)
        | inr quiet ↦
            rw (Calm-succeeds p h, quiet)
              (record { calm = spent-Calm p h; no_error = refl; row = row'; newest = found })
      ]

  pub create-Opened :
      (p : Store) (n s t d : String) (now : ℕ)
      → Calm p
      → Opened n t (create_incident parse_chat p n s t d now)
  unfolding create_incident create_or_refresh
  create-Opened p n s t d now h = rw (Calm-succeeds p h) (found (newest_open n t p.incidents) refl)
    where
      found :
          (o : Option Incident)
          → newest_open n t p.incidents ≡ o
          → Opened n t (create_or_refresh parse_chat (spent p) o n s t d now)
      found none e = (insert-Opened (spent p) n s t d now (spent-Calm p h) e)
      found (some row) e = (refresh-Opened (spent p) row n s t d now (spent-Calm p h) e)
