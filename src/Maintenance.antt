-- ===== src/Maintenance.antt =====
-- pkg/store/maintenance.go: planned silence windows.
pub mod Silence
use nodepulse.Base.{
  ℕ, suc, String, Bool, true, false, not, ◌&&◌, ◌||◌, Option, none, some, List, [], ◌∷◌, ◌++◌, map,
  ◌==◌, if◌then◌else◌, str_eq, zero, ◌+◌, ◌-◌, ◌*◌, ◌/◌, ◌%◌, ◌^◌, ◌≤◌, ◌<◌, ◌≡◌, refl, sym, ap,
  ◌∙◌, ◌≢◌, ◌↔◌, ◌⊎◌, inl, inr, arith, ltb, leb, ltb→lt, lt→ltb, leb→le, ==_iff, str_eq_iff,
  str_eq_refl, Bool-cases, Option-cases, length, length-append, All, All-append, All-map, update,
  update_self, update_ne,
}
use nodepulse.Base.Int.{ℤ, pos, leb_ℤ, ltb_ℤ, eq_ℤ}
use nodepulse.Text.{is_empty}
use nodepulse.Text.Split.{split_on, join_with}
use nodepulse.Store.{Store, MaintenanceRow, fails, spent}

pub record MaintenanceWindowRequest : Type 0 where
  pub node_ids : List String
  pub reason : String
  pub start_unix : ℤ
  pub end_unix : ℤ
  pub scope : String

pub data WindowError : Type 0 where
  bad_scope node_ids_required end_before_start database : WindowError

-- The row that was stored; the code answers with the list of node ids in place of their text.
pub data Created : Type 0 where
  ok : MaintenanceRow → Created
  err : WindowError → Created

scope_or_user : String → String
scope_or_user scope = if is_empty scope then "user" else scope

has_none : List String → Bool
has_none [] = true
has_none (s ∷ parts) = false

-- The three checks of a request, on its scope with the default put in.
unfoldable pub request_error : MaintenanceWindowRequest → String → Option WindowError
unfolding has_none
request_error req scope =
    if not (str_eq scope "user") && not (str_eq scope "node")
    then some bad_scope
    else if str_eq scope "node" && has_none req.node_ids
    then some node_ids_required
    else if not (eq_ℤ req.end_unix (pos 0)) && ltb_ℤ req.end_unix req.start_unix
    then some end_before_start
    else none

insert_window : Store → ℤ → MaintenanceWindowRequest → String → String → ℕ → Store × Created
insert_window p user_id req scope created_by now =
    let row : MaintenanceRow = record {
      id = p.next_window;
      user_id = user_id;
      scope = scope;
      reason = req.reason;
      node_ids = join_with "," req.node_ids;
      start_unix = req.start_unix;
      end_unix = req.end_unix;
      created_at = now;
      created_by = created_by;
    } in
    if fails p then (spent p, err database) else (
      record (spent p) { windows = p.windows ++ row ∷ []; next_window = suc p.next_window },
      ok row,
    )

checked_insert :
    Store
    → ℤ
    → MaintenanceWindowRequest
    → String
    → String
    → ℕ
    → Option WindowError
    → Store × Created
unfolding insert_window
checked_insert p user_id req scope created_by now (some e) = (p, err e)
checked_insert p user_id req scope created_by now none =
    insert_window p user_id req scope created_by now

unfoldable pub create_maintenance_window :
    Store → ℤ → MaintenanceWindowRequest → String → ℕ → Store × Created
unfolding checked_insert request_error scope_or_user
create_maintenance_window p user_id req created_by now =
    let scope = scope_or_user req.scope in
    checked_insert p user_id req scope created_by now (request_error req scope)

-- `user_id = ? AND start_unix <= ? AND (end_unix = 0 OR end_unix > ?)`.
unfoldable pub is_active : ℤ → ℤ → MaintenanceRow → Bool
is_active user_id now w =
    eq_ℤ w.user_id user_id
    && leb_ℤ w.start_unix now
    && (eq_ℤ w.end_unix (pos 0) || ltb_ℤ now w.end_unix)

unfoldable pub has_part : String → List String → Bool
has_part node_id [] = false
has_part node_id (n ∷ parts) = str_eq n node_id || has_part node_id parts

-- The body of the loop over the active rows.
unfoldable pub silences : String → MaintenanceRow → Bool
unfolding has_part split_on
silences node_id w =
    str_eq w.scope "user" || (str_eq w.scope "node" && has_part node_id (split_on "," w.node_ids))

unfoldable pub any_silences : ℤ → ℤ → String → List MaintenanceRow → Bool
unfolding is_active silences
any_silences user_id now node_id [] = false
any_silences user_id now node_id (w ∷ ws) =
    (is_active user_id now w && silences node_id w) || any_silences user_id now node_id ws

-- `now == 0` reads the clock, here `wall`. An error of the query gives false with the error, which
-- the alert path ignores.
unfoldable pub is_node_silenced : Store → ℤ → String → ℤ → ℤ → Store × Bool
unfolding any_silences
is_node_silenced p user_id node_id now wall = if leb_ℤ user_id (pos 0) then (p, false) else (
  spent p,
  if fails p
      then false
      else any_silences user_id (if eq_ℤ now (pos 0) then wall else now) node_id p.windows,
)

-- `id = ? AND user_id = ?`, without the second test for an admin (uid at most 1).
unfoldable pub may_change : ℤ → ℕ → MaintenanceRow → Bool
may_change user_id id w = w.id == id && (leb_ℤ user_id (pos 1) || eq_ℤ w.user_id user_id)

unfoldable pub closes : ℤ → ℕ → MaintenanceRow → Bool
unfolding may_change
closes user_id id w = may_change user_id id w && eq_ℤ w.end_unix (pos 0)

close_row : ℤ → ℤ → ℕ → MaintenanceRow → MaintenanceRow
close_row user_id now id w = if closes user_id id w then record w { end_unix = now } else w

-- RowsAffected: the rows that the WHERE clause matches.
unfoldable pub affected : (MaintenanceRow → Bool) → List MaintenanceRow → ℕ
affected matches [] = 0
affected matches (w ∷ ws) = let rest = affected matches ws in if matches w then suc rest else rest

-- The number of rows closed; `none` is an error of the driver.
unfoldable pub close_maintenance_window : Store → ℤ → ℕ → ℤ → Store × Option ℕ
unfolding close_row closes affected
close_maintenance_window p user_id id now = if fails p then (spent p, none) else (
  record (spent p) { windows = map (close_row user_id now id) p.windows },
  some (affected (closes user_id id) p.windows),
)

unfoldable pub keep_unless : (MaintenanceRow → Bool) → List MaintenanceRow → List MaintenanceRow
keep_unless matches [] = []
keep_unless matches (w ∷ ws) =
    let rest = keep_unless matches ws in if matches w then rest else w ∷ rest

unfoldable pub delete_maintenance_window : Store → ℤ → ℕ → Store × Option ℕ
unfolding keep_unless may_change affected
delete_maintenance_window p user_id id = if fails p then (spent p, none) else (
  record (spent p) { windows = keep_unless (may_change user_id id) p.windows },
  some (affected (may_change user_id id) p.windows),
)
