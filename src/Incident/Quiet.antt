-- ===== src/Incident/Quiet.antt =====
-- When repeated reports of an incident reach nobody.
use nodepulse.Base.{
  ℕ, ◌+◌, ◌<◌, String, ◌≡◌, refl, ◌∙◌, inl, inr, Option, none, List, [], ◌∷◌, ◌++◌, arith,
  Bool-cases, All, All-map, sym, true, not, ◌||◌, some, ◌==◌,
}
use nodepulse.Base.Int.{ℤ}
use nodepulse.Store.{Store, fails, spent}
use nodepulse.Incident.{
  newest_open, cooldown_for, fresh_row, insert_incident, create_or_refresh, create_incident,
  Incident, is_open_for, update_where, has_id,
}
use nodepulse.Base.Int.{pos, pos_part, leb_ℤ}
use nodepulse.Incident.Actions.{day_seconds, until, snooze_incident, snooze_row, row_by_id}
use nodepulse.Incident.Newest.{newest_open-fresh, change, newest_open-change}
use nodepulse.Incident.Repeats.{Again, Early, cooling, Held, repeat_reports, quiet_reports, snoozed}
use nodepulse.Incident.Unique.{insert_rows}

abbrev snoozing : ℕ → ℕ → Incident → Incident
snoozing end_ noted r = record r { snoozed_until = end_; last_notified_at = noted }

until_same : (a b : ℕ) → until a ≡ until b → a ≡ b
until_same a b e = ground (arith, e)

same_id : (n : ℕ) → (n == n) ≡ true
same_id n = ground arith

row_snoozed :
    (p : Store) (id seconds now noted end_ : ℕ) (o : Option Incident)
    → (snooze_row p id seconds now noted o).1 ≡ until end_
    → ((snooze_row p id seconds now noted o).0.incidents
        ≡ update_where (has_id id) (snoozing end_ noted) p.incidents)
      × ((snooze_row p id seconds now noted o).0.outbox ≡ p.outbox)
unfolding snooze_row
row_snoozed p id seconds now noted end_ none e = ground (arith, e)
row_snoozed p id seconds now noted end_ (some r) e = elim (Bool-cases r.resolved) [
  | inl gone ↦ ground (arith, gone, e)
  | inr open_ ↦ elim (Bool-cases (fails p)) [
    | inl f ↦ ground (arith, open_, f, e)
    | inr f ↦ rw (open_, f, sym (until_same (now + seconds) end_ (rw (open_, f) at e))) (refl, refl)
  ]
]

snoozed_rows :
    (p : Store) (id : ℕ) (seconds : ℤ) (now noted end_ : ℕ)
    → (snooze_incident p id seconds now noted).1 ≡ until end_
    → ((snooze_incident p id seconds now noted).0.incidents
        ≡ update_where (has_id id) (snoozing end_ noted) p.incidents)
      × ((snooze_incident p id seconds now noted).0.outbox ≡ p.outbox)
unfolding snooze_incident
snoozed_rows p id seconds now noted end_ e =
    elim (Bool-cases (leb_ℤ seconds (pos 0) || not (leb_ℤ seconds (pos day_seconds)))) [
      | inl bad ↦ ground (arith, bad, e)
      | inr good ↦ elim (Bool-cases (fails p)) [
        | inl f ↦ ground (arith, good, f, e)
        | inr f ↦
            rw (good, f)
              (row_snoozed (spent p) id (pos_part seconds) now noted end_ (row_by_id id p.incidents)
                (rw (good, f) at e))
      ]
    ]

snoozed-Held :
    (p : Store) (n t : String) (row : Incident) (noted end_ : ℕ) (q : Store)
    → newest_open n t p.incidents ≡ some row
    → q.incidents ≡ update_where (has_id row.id) (snoozing end_ noted) p.incidents
    → Held n t noted end_ q
unfolding change is_open_for
snoozed-Held p n t row noted end_ q h e = record {
  row = snoozing end_ noted row;
  newest =
      rw
        (
          e,
          newest_open-change n t row.id (snoozing end_ noted) p.incidents
              (record { same_id = λ r. refl; same_open = λ r. refl }),
          h,
        )
        (rw (same_id row.id) refl);
  notified = refl;
  snooze = refl;
}

module _ (parse_chat : String → Option ℤ) where
  created_rows :
      (p : Store) (n s t d : String) (now : ℕ)
      → newest_open n t p.incidents ≡ none
      → (create_incident parse_chat p n s t d now).1 ≡ none
      → (create_incident parse_chat p n s t d now).0.incidents
        ≡ p.incidents ++ fresh_row p.next_id n s t d now ∷ []
  unfolding create_incident create_or_refresh insert_incident
  created_rows p n s t d now h e = elim (Bool-cases (fails p)) [
    | inl f ↦ ground (arith, f, e)
    | inr f ↦ elim (Bool-cases (fails (spent p))) [
      | inl g ↦ ground (arith, f, g, h, e)
      | inr g ↦ rw (f, h) (insert_rows parse_chat (spent p) n s t d now ∙ rw g)
    ]
  ]

  fresh-Held :
      (p : Store) (n s t d : String) (now : ℕ)
      → newest_open n t p.incidents ≡ none
      → (create_incident parse_chat p n s t d now).1 ≡ none
      → Held n t now 0 (create_incident parse_chat p n s t d now).0
  unfolding fresh_row
  fresh-Held p n s t d now h e = record {
    row = fresh_row p.next_id n s t d now;
    newest =
        rw (created_rows p n s t d now h e) (newest_open-fresh n s t d p.next_id now p.incidents h);
    notified = refl;
    snooze = refl;
  }

  -- If no incident of a node and a title is open and a call of CreateIncident opens one at a time
  -- after 0, then further reports of it, as many as there may be, each before the cooldown of its
  -- severity has passed since that time, send nothing, whichever SQL statements fail.
  pub storm_quiet :
      (p : Store) (n s t d : String) (now : ℕ) (more : List Again)
      → newest_open n t p.incidents ≡ none
      → (create_incident parse_chat p n s t d now).1 ≡ none
      → 0 < now
      → All (λ a. a.at < now + cooldown_for a.severity) more
      → (repeat_reports parse_chat (create_incident parse_chat p n s t d now).0 n t more).outbox
        ≡ (create_incident parse_chat p n s t d now).0.outbox
  storm_quiet p n s t d now more h e g w =
      quiet_reports parse_chat (create_incident parse_chat p n s t d now).0 n t now 0 more
        (fresh-Held p n s t d now h e)
        (All-map (λ a. a.at < now + cooldown_for a.severity) (Early now 0) more (λ a k. cooling g k)
          w)

  -- If a snooze of the newest open incident of a node and a title answers with its end, then the
  -- reports of that incident before the end, as many as there may be, send nothing, whichever SQL
  -- statements fail.
  pub snooze_quiet :
      (p : Store) (n t : String) (row : Incident) (seconds : ℤ) (now noted end_ : ℕ)
      (more : List Again)
      → newest_open n t p.incidents ≡ some row
      → (snooze_incident p row.id seconds now noted).1 ≡ until end_
      → All (λ a. a.at < end_) more
      → (repeat_reports parse_chat (snooze_incident p row.id seconds now noted).0 n t more).outbox
        ≡ p.outbox
  snooze_quiet p n t row seconds now noted end_ more h e w =
      quiet_reports parse_chat (snooze_incident p row.id seconds now noted).0 n t noted end_ more
        (snoozed-Held p n t row noted end_ (snooze_incident p row.id seconds now noted).0 h
          (snoozed_rows p row.id seconds now noted end_ e).0)
        (All-map (λ a. a.at < end_) (Early noted end_) more (λ a k. snoozed k) w)
      ∙ (snoozed_rows p row.id seconds now noted end_ e).1
