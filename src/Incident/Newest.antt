-- ===== src/Incident/Newest.antt =====
-- The newest open incident of a node and a title, through the changes of rows.
use nodepulse.Base.{
  ℕ, String, ◌≡◌, refl, inl, inr, Option, none, some, List, [], ◌∷◌, ◌++◌, arith, ◌==◌,
  if◌then◌else◌, str_eq_refl, Bool-cases,
}
use nodepulse.Store.{Incident}
use nodepulse.Incident.{is_open_for, newest_open, newer, update_where, has_id, fresh_row}

-- A change of rows that keeps the id, and what is open for a node and a title.
pub record Stays (n t : String) (f : Incident → Incident) : Type 0 where
  pub same_id : (r : Incident) → (f r).id ≡ r.id
  pub same_open : (r : Incident) → is_open_for n t (f r) ≡ is_open_for n t r

abbrev pub changed : ℕ → (Incident → Incident) → Incident → Incident
changed id f r = if r.id == id then f r else r

-- The answer of newest_open after a change of the rows of one id.
unfoldable pub change : ℕ → (Incident → Incident) → Option Incident → Option Incident
change id f none = none
change id f (some r) = some (changed id f r)

newer-changed :
    (n t : String) (id : ℕ) (f : Incident → Incident) (r : Incident) (o : Option Incident)
    → Stays n t f
    → newer (changed id f r) (change id f o) ≡ change id f (newer r o)
unfolding change newer
newer-changed n t id f r none h = refl
newer-changed n t id f r (some q) h = ground (arith, h.same_id r, h.same_id q)

open_changed :
    (n t : String) (id : ℕ) (f : Incident → Incident) (r : Incident)
    → Stays n t f
    → is_open_for n t (changed id f r) ≡ is_open_for n t r
open_changed n t id f r h = elim (Bool-cases (r.id == id)) [
  | inl y ↦ rw y (h.same_open r)
  | inr y ↦ rw y
]

pub newest_open-change :
    (n t : String) (id : ℕ) (f : Incident → Incident) (rs : List Incident)
    → Stays n t f
    → newest_open n t (update_where (has_id id) f rs) ≡ change id f (newest_open n t rs)
unfolding newest_open update_where change
newest_open-change n t id f [] h = refl
newest_open-change n t id f (r ∷ rs) h =
    rw (open_changed n t id f r h, newest_open-change n t id f rs h)
      (elim (Bool-cases (is_open_for n t r)) [
        | inl yes_ ↦ rw yes_ (newer-changed n t id f r (newest_open n t rs) h)
        | inr no_ ↦ rw no_
      ])

pub newest_open-fresh :
    (n s t d : String) (id now : ℕ) (rs : List Incident)
    → newest_open n t rs ≡ none
    → newest_open n t (rs ++ fresh_row id n s t d now ∷ []) ≡ some (fresh_row id n s t d now)
unfolding newest_open newer is_open_for fresh_row
newest_open-fresh n s t d id now [] h = rw (str_eq_refl n, str_eq_refl t)
newest_open-fresh n s t d id now (r ∷ rs) h = ground (arith, newest_open-fresh n s t d id now rs)
