-- ===== src/Maintenance/Silence.antt =====
-- Windows from CreateMaintenanceWindow to IsNodeSilenced of pkg/store/maintenance.go.
use nodepulse.Base.{
  ℕ, String, ◌≡◌, refl, ap, ◌∙◌, inl, inr, true, false, ◌||◌, Option, none, some, List, [], ◌∷◌,
  ◌++◌, arith, Bool-cases, All, suc, str_eq,
}
use nodepulse.Base.Int.{ℤ, pos, eq_ℤ, leb_ℤ, ltb_ℤ}
use nodepulse.Text.Split.{split_on-join_with, has_char, join_with}
use nodepulse.Store.{Store, MaintenanceRow, fails}
use nodepulse.Maintenance.{
  is_active, silences, any_silences, MaintenanceWindowRequest, WindowError, ok, checked_insert,
  insert_window, scope_or_user, create_maintenance_window, is_node_silenced, has_part,
  request_error,
}

last_silences :
    (user_id now : ℤ) (node_id : String) (w : MaintenanceRow) (ws : List MaintenanceRow)
    → is_active user_id now w ≡ true
    → silences node_id w ≡ true
    → any_silences user_id now node_id (ws ++ w ∷ []) ≡ true
unfolding any_silences
last_silences user_id now node_id w [] a s = rw (a, s)
last_silences user_id now node_id w (v ∷ ws) a s =
    ground (arith, last_silences user_id now node_id w ws a s)

-- What CreateMaintenanceWindow answers and stores when it accepts a request for nodes.
Stored : Store → MaintenanceWindowRequest → ℤ → Store → Type 0
Stored p req user_id q =
    (w : MaintenanceRow) × (q.windows ≡ p.windows ++ w ∷ [])
    × (w.scope ≡ scope_or_user req.scope)
    × (w.node_ids ≡ join_with "," req.node_ids)
    × (w.user_id ≡ user_id)
    × (w.start_unix ≡ req.start_unix)
    × (w.end_unix ≡ req.end_unix)

inserted :
    (p : Store) (user_id : ℤ) (req : MaintenanceWindowRequest) (by_ : String) (at : ℕ)
    (o : Option WindowError) (row : MaintenanceRow)
    → (checked_insert p user_id req (scope_or_user req.scope) by_ at o).1 ≡ ok row
    → Stored p req user_id (checked_insert p user_id req (scope_or_user req.scope) by_ at o).0
unfolding checked_insert insert_window Stored
inserted p user_id req by_ at (some e) row h = ground (arith, h)
inserted p user_id req by_ at none row h = elim (Bool-cases (fails p)) [
  | inl f ↦ ground (arith, f, h)
  | inr f ↦ rw f (_, refl, refl, refl, refl, refl, refl)
]

active :
    (user : ℕ) (now : ℤ) (w : MaintenanceRow)
    → w.user_id ≡ pos user
    → leb_ℤ w.start_unix now ≡ true
    → (eq_ℤ w.end_unix (pos 0) || ltb_ℤ now w.end_unix) ≡ true
    → is_active (pos user) now w ≡ true
unfolding is_active
active user now w e s t = rw (e, s, t) (ground arith)

listed :
    (node_id s : String) (parts : List String) (w : MaintenanceRow)
    → w.scope ≡ "node"
    → w.node_ids ≡ join_with "," (s ∷ parts)
    → All (λ n. has_char "," n ≡ false) (s ∷ parts)
    → has_part node_id (s ∷ parts) ≡ true
    → silences node_id w ≡ true
unfolding silences str_eq
listed node_id s parts w k e c h = rw (k, e, split_on-join_with "," s parts c, h) refl

owned : (user : ℕ) → leb_ℤ (pos (suc user)) (pos 0) ≡ false
owned user = ground arith

silenced_by :
    (q : Store) (user : ℕ) (node_id : String) (now wall : ℤ)
    → fails q ≡ false
    → eq_ℤ now (pos 0) ≡ false
    → any_silences (pos (suc user)) now node_id q.windows ≡ true
    → (is_node_silenced q (pos (suc user)) node_id now wall).1 ≡ true
unfolding is_node_silenced
silenced_by q user node_id now wall f n h = rw (f, n, owned user) h

-- If CreateMaintenanceWindow accepts a request with the scope "node" of a user, whose node ids have no
-- comma, then IsNodeSilenced says for every node of the request that it is silenced, at any instant
-- but 0 from the start of the window on and before its end, or with no end, where its query meets no
-- error.
pub created_silences :
    (p : Store) (user : ℕ) (req : MaintenanceWindowRequest) (by_ s node_id : String)
    (parts : List String) (at : ℕ) (row : MaintenanceRow) (now wall : ℤ)
    → (create_maintenance_window p (pos (suc user)) req by_ at).1 ≡ ok row
    → req.scope ≡ "node"
    → req.node_ids ≡ s ∷ parts
    → All (λ n. has_char "," n ≡ false) (s ∷ parts)
    → has_part node_id (s ∷ parts) ≡ true
    → leb_ℤ req.start_unix now ≡ true
    → (eq_ℤ req.end_unix (pos 0) || ltb_ℤ now req.end_unix) ≡ true
    → eq_ℤ now (pos 0) ≡ false
    → fails (create_maintenance_window p (pos (suc user)) req by_ at).0 ≡ false
    → (is_node_silenced
        (create_maintenance_window p (pos (suc user)) req by_ at).0
        (pos (suc user))
        node_id
        now
        wall).1
      ≡ true
unfolding create_maintenance_window Stored scope_or_user
created_silences p user req by_ s node_id parts at row now wall a k ids c h from_ to_ n f =
    let (w, rows, scope, nodes, owner, start, end_) =
      inserted p (pos (suc user)) req by_ at (request_error req (scope_or_user req.scope)) row a in
    silenced_by (create_maintenance_window p (pos (suc user)) req by_ at).0 user node_id now wall f
      n
      (rw rows (
        last_silences (pos (suc user)) now node_id w p.windows
          (active (suc user) now w owner (rw start from_) (rw end_ to_))
          (listed node_id s parts w (scope ∙ rw k refl) (nodes ∙ ap (join_with ",") ids) c h)))
