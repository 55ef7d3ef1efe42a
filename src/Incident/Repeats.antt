-- ===== src/Incident/Repeats.antt =====
-- Repeated reports of one incident: what the snooze and the cooldown gate let through.
use nodepulse.Base.{
  ℕ, String, ◌≡◌, refl, inl, inr, Option, some, List, [], ◌∷◌, arith, ◌==◌, Bool-cases, ◌+◌, ◌<◌,
  ◌∙◌, false, All,
}
use nodepulse.Incident.Newest.{Stays, changed, change, newest_open-change}
use nodepulse.Store.{Incident}
use nodepulse.Incident.{
  is_open_for, newest_open, update_where, has_id, is_due, Store, cooldown_for, ℤ, create_incident,
  create_or_refresh, refresh_incident, fails, spent,
}

abbrev detailed : String → Incident → Incident
detailed d r = record r { detail = d }

detailed-Stays : (n t d : String) → Stays n t (detailed d)
unfolding is_open_for
detailed-Stays n t d = record { same_id = λ r. refl; same_open = λ r. refl }

-- One more report of an incident, with its reading of the clock.
pub record Again : Type 0 where
  pub severity : String
  pub detail : String
  pub at : ℕ

-- The last notification was at `l` and the snooze ends at `u`: a report that the gates hold back.
pub data Early (l u : ℕ) (a : Again) : Type 0 where
  snoozed : a.at < u → Early l u a
  cooling : 0 < l → a.at < l + cooldown_for a.severity → Early l u a

-- The newest open incident of a node and a title was last notified at `l` and is snoozed to `u`.
pub record Held (n t : String) (l u : ℕ) (p : Store) : Type 0 where
  pub row : Incident
  pub newest : newest_open n t p.incidents ≡ some row
  pub notified : row.last_notified_at ≡ l
  pub snooze : row.snoozed_until ≡ u

Held-same :
    (n t : String) (l u : ℕ) (p q : Store)
    → q.incidents ≡ p.incidents
    → Held n t l u p
    → Held n t l u q
Held-same n t l u p q e h = record {
  row = h.row;
  newest = rw e h.newest;
  notified = h.notified;
  snooze = h.snooze;
}

detailed_gate :
    (id : ℕ) (d : String) (r : Incident)
    → ((changed id (detailed d) r).last_notified_at ≡ r.last_notified_at)
      × ((changed id (detailed d) r).snoozed_until ≡ r.snoozed_until)
detailed_gate id d r = elim (Bool-cases (r.id == id)) [
  | inl y ↦ rw y (refl, refl)
  | inr y ↦ rw y (refl, refl)
]

Held-detailed :
    (n t d : String) (l u id : ℕ) (p q : Store)
    → q.incidents ≡ update_where (has_id id) (λ r. record r { detail = d }) p.incidents
    → Held n t l u p
    → Held n t l u q
unfolding change
Held-detailed n t d l u id p q e h = record {
  row = changed id (detailed d) h.row;
  newest =
      rw (e, newest_open-change n t id (detailed d) p.incidents (detailed-Stays n t d), h.newest)
        refl;
  notified = (detailed_gate id d h.row).0 ∙ h.notified;
  snooze = (detailed_gate id d h.row).1 ∙ h.snooze;
}

Early-not_due :
    (row : Incident) (a : Again)
    → Early row.last_notified_at row.snoozed_until a
    → is_due row a.severity a.at ≡ false
unfolding is_due
Early-not_due row a (snoozed h) = ground arith
Early-not_due row a (cooling g h) = ground arith

module _ (parse_chat : String → Option ℤ) where
  unfoldable pub repeat_reports : Store → String → String → List Again → Store
  repeat_reports p n t [] = p
  repeat_reports p n t (a ∷ more) =
      repeat_reports (create_incident parse_chat p n a.severity t a.detail a.at).0 n t more

  quiet_report :
      (p : Store) (n t : String) (l u : ℕ) (a : Again) (h : Held n t l u p)
      → is_due h.row a.severity a.at ≡ false
      → Held n t l u (create_incident parse_chat p n a.severity t a.detail a.at).0
        × ((create_incident parse_chat p n a.severity t a.detail a.at).0.outbox ≡ p.outbox)
  unfolding create_incident create_or_refresh refresh_incident
  quiet_report p n t l u a h e = elim (Bool-cases (fails p)) [
    | inl f ↦ rw f (Held-same n t l u p _ refl h, refl)
    | inr f ↦
        rw (f, h.newest)
          (elim (Bool-cases (fails (spent p))) [
            | inl g ↦ rw g (Held-same n t l u p _ refl h, refl)
            | inr g ↦ rw (g, e) (Held-detailed n t a.detail l u h.row.id p _ refl h, refl)
          ])
  ]

  pub quiet_reports :
      (p : Store) (n t : String) (l u : ℕ) (more : List Again)
      → Held n t l u p
      → All (Early l u) more
      → (repeat_reports p n t more).outbox ≡ p.outbox
  unfolding repeat_reports
  quiet_reports p n t l u [] h w = refl
  quiet_reports p n t l u (a ∷ more) h w =
      let step =
        quiet_report p n t l u a h (Early-not_due h.row a (rw (h.notified, h.snooze) w.0)) in
      quiet_reports (create_incident parse_chat p n a.severity t a.detail a.at).0 n t l u more
        step.0 w.1
      ∙ step.1
