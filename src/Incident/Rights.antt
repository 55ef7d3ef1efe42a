-- ===== src/Incident/Rights.antt =====
-- ResolveIncident of pkg/store/sqlite.go and the incidents of other users.
use nodepulse.Base.{
  ℕ, String, ◌≡◌, refl, ap, ◌≢◌, inl, inr, Bool, true, false, ◌&&◌, ◌||◌, Option, none, some, List,
  [], ◌∷◌, arith, ◌==◌, str_eq, str_eq_iff, Bool-cases,
}
use nodepulse.Store.{Store, Incident, fails}
use nodepulse.Incident.{update_where}
use nodepulse.Incident.Actions.{resolve_incident, may_resolve, any_row, owned_by}
use nodepulse.Incident.Sweeps.{rows_where, close_row}

-- The incidents of a node.
abbrev pub of_node : String → Incident → Bool
of_node node_id r = str_eq r.node_id node_id

rows_where-update_where :
    (keep matches : Incident → Bool) (f : Incident → Incident) (rs : List Incident)
    → ((r : Incident) → keep r ≡ true → matches r ≡ false)
    → ((r : Incident) → keep (f r) ≡ keep r)
    → rows_where keep (update_where matches f rs) ≡ rows_where keep rs
unfolding rows_where update_where
rows_where-update_where keep matches f [] h k = refl
rows_where-update_where keep matches f (r ∷ rs) h k = elim (Bool-cases (matches r)) [
  | inr n ↦ rw (n, rows_where-update_where keep matches f rs h k) refl
  | inl y ↦
      rw
        (y, k r, rows_where-update_where keep matches f rs h k, barred (keep r) (matches r) (h r) y)
        refl
]
  where
    barred : (a b : Bool) → (a ≡ true → b ≡ false) → b ≡ true → a ≡ false
    barred a b g y = ground (arith, g, y)

same_user : (a b : ℕ) → (a == b) ≡ true → a ≡ b
same_user a b h = ground (arith, h)

not_owner : (user_id : ℕ) (o : Option ℕ) → o ≢ some user_id → owned_by user_id o ≡ false
not_owner user_id none h = refl
not_owner user_id (some uid) h = elim (Bool-cases (uid == user_id)) [
  | inl y ↦ elim (h (ap (λ k. some k) (same_user uid user_id y))) [ ]
  | inr n ↦ n
]

not_admin : (user_id : ℕ) → user_id ≢ 1 → (user_id == 1) ≡ false
not_admin user_id h = ground (arith, h)

never : (b : Bool) → (b && (false || false)) ≡ false
never b = ground arith

foreign :
    (p : Store) (id user_id : ℕ) (node_id : String) (r : Incident)
    → user_id ≢ 1
    → p.owners node_id ≢ some user_id
    → of_node node_id r ≡ true
    → may_resolve p id user_id r ≡ false
unfolding may_resolve
foreign p id user_id node_id r a o e =
    rw
      (
        (str_eq_iff r.node_id node_id).0 e,
        not_owner user_id (p.owners node_id) o,
        not_admin user_id a,
      )
      (never (r.id == id))

-- A user that is not the admin and does not own a node changes no incident of that node by
-- ResolveIncident, whatever the id.
pub resolve_foreign :
    (p : Store) (id user_id now : ℕ) (node_id : String)
    → user_id ≢ 1
    → p.owners node_id ≢ some user_id
    → rows_where (of_node node_id) (resolve_incident p id user_id now).0.incidents
      ≡ rows_where (of_node node_id) p.incidents
unfolding resolve_incident
resolve_foreign p id user_id now node_id a o = elim (Bool-cases (fails p)) [
  | inl f ↦ rw f refl
  | inr f ↦ elim (Bool-cases (any_row (may_resolve p id user_id) p.incidents)) [
    | inr miss ↦ rw (f, miss) refl
    | inl hit ↦
        rw (f, hit)
          (rows_where-update_where (of_node node_id) (may_resolve p id user_id)
            (close_row now "manual") p.incidents (λ r e. foreign p id user_id node_id r a o e)
            (λ r. refl))
  ]
]
