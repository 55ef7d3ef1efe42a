-- ===== src/Incident/Open.antt =====
-- The number of open incidents for a node and a title, through changes of the table.
use nodepulse.Base.{
  ℕ, suc, ◌+◌, ◌≤◌, String, ◌≡◌, refl, Bool, true, none, List, [], ◌∷◌, ◌++◌, arith, if◌then◌else◌,
  inl, inr, str_eq_iff, Bool-cases,
}
use nodepulse.Store.{Incident}
use nodepulse.Incident.{is_open_for, newest_open, update_where, fresh_row}

-- The number of open rows for a node and a title.
unfoldable pub count_open : String → String → List Incident → ℕ
count_open node_id title [] = 0
count_open node_id title (r ∷ rs) =
    let rest = count_open node_id title rs in if is_open_for node_id title r then suc rest else rest

pub count_open-append :
    (node_id title : String) (xs ys : List Incident)
    → count_open node_id title (xs ++ ys)
      ≡ count_open node_id title xs + count_open node_id title ys
unfolding count_open
count_open-append node_id title [] ys = omega arith
count_open-append node_id title (r ∷ xs) ys = ground (arith, count_open-append node_id title xs ys)

-- A change of rows that opens none for any node and title.
abbrev pub Shuts : (Incident → Incident) → Type 0
Shuts f =
    (node_id title : String) (r : Incident)
    → is_open_for node_id title (f r) ≡ true
    → is_open_for node_id title r ≡ true

pub count_open-update_where :
    (node_id title : String) (matches : Incident → Bool) (f : Incident → Incident)
    (rs : List Incident)
    → Shuts f
    → count_open node_id title (update_where matches f rs) ≤ count_open node_id title rs
unfolding count_open update_where
count_open-update_where node_id title matches f [] s = omega arith
count_open-update_where node_id title matches f (r ∷ rs) s =
    ground (arith, s node_id title r, count_open-update_where node_id title matches f rs s)

pub newest_open-none :
    (node_id title : String) (rs : List Incident)
    → newest_open node_id title rs ≡ none
    → count_open node_id title rs ≡ 0
unfolding newest_open count_open
newest_open-none node_id title [] h = refl
newest_open-none node_id title (r ∷ rs) h = ground (arith, newest_open-none node_id title rs)

open_fresh :
    (n t n' t' s d : String) (id now : ℕ)
    → is_open_for n' t' (fresh_row id n s t d now) ≡ true
    → (n ≡ n') × (t ≡ t')
unfolding is_open_for fresh_row
open_fresh n t n' t' s d id now h = ground (arith, str_eq_iff n n', str_eq_iff t t')

-- A fresh row joins a table that has no open row for its node and title.
pub count_open-fresh :
    (n t n' t' s d : String) (id now : ℕ) (rs : List Incident)
    → newest_open n t rs ≡ none
    → count_open n' t' rs ≤ 1
    → count_open n' t' (rs ++ fresh_row id n s t d now ∷ []) ≤ 1
unfolding count_open
count_open-fresh n t n' t' s d id now rs h v =
    rw (count_open-append n' t' rs (fresh_row id n s t d now ∷ []))
      (elim (Bool-cases (is_open_for n' t' (fresh_row id n s t d now))) [
        | inl yes_ ↦
            let same = open_fresh n t n' t' s d id now yes_ in
            rw yes_ (omega (arith, (rw (same.0, same.1) at (newest_open-none n t rs h))))
        | inr no_ ↦ rw no_ (omega arith)
      ])
