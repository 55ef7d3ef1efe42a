-- ===== src/AlertRules/History.antt =====
-- Histories of the operations on the alert rules.
use nodepulse.Base.{
  ℕ, ◌≡◌, refl, inl, inr, Option, none, some, List, [], ◌∷◌, if◌then◌else◌, Bool-cases, All,
  All-append,
}
use nodepulse.Base.Int.{ℤ}
use nodepulse.AlertRules.{
  MetricAlertRule, MetricAlertRuleRequest, Rules, RuleError, used, validate_alert_rule_request,
  new_rule, insert_rule, change_rule, create_metric_alert_rule, update_metric_alert_rule,
  delete_metric_alert_rule, mark_alert_rule_fired, mark_alert_rule_cleared, stamp_rule, next_fault,
}
use nodepulse.AlertRules.Valid.{IsRule, request-AreFields, update-All, without-All, stamp-All}

pub data Op (F : Type 0) : Type 0 where
  create : ℤ → MetricAlertRuleRequest F → ℕ → Op F
  change : ℤ → ℕ → MetricAlertRuleRequest F → ℕ → Op F
  delete : ℤ → ℕ → Op F
  fired cleared : ℕ → ℕ → Op F

module _ {F : Type 0} where
  unfoldable pub apply : Rules F → Op F → Rules F
  apply t (create user_id req now) = (create_metric_alert_rule t user_id req now).0
  apply t (change user_id id req now) = (update_metric_alert_rule t user_id id req now).0
  apply t (delete user_id id) = (delete_metric_alert_rule t user_id id).0
  apply t (fired id now) = mark_alert_rule_fired t id now
  apply t (cleared id now) = mark_alert_rule_cleared t id now

  unfoldable pub apply_all : Rules F → List (Op F) → Rules F
  apply_all t [] = t
  apply_all t (op ∷ ops) = apply_all (apply t op) ops

  insert-All :
      (t : Rules F) (user_id : ℤ) (req : MetricAlertRuleRequest F) (now : ℕ) (o : Option RuleError)
      → validate_alert_rule_request req ≡ o
      → All IsRule t.rows
      → All IsRule (insert_rule t user_id req now o).0.rows
  unfolding insert_rule new_rule
  insert-All t user_id req now (some e) h w = w
  insert-All t user_id req now none h w = elim (Bool-cases (next_fault t.faults)) [
    | inl f ↦ rw f w
    | inr f ↦ rw f (
        All-append IsRule t.rows (new_rule t.next_id user_id req now ∷ []) w
          (request-AreFields req h, tt))
  ]

  change-All :
      (t : Rules F) (user_id : ℤ) (id : ℕ) (req : MetricAlertRuleRequest F) (now : ℕ)
      (o : Option RuleError)
      → validate_alert_rule_request req ≡ o
      → All IsRule t.rows
      → All IsRule (change_rule t user_id id req now o).0.rows
  unfolding change_rule
  change-All t user_id id req now (some e) h w = w
  change-All t user_id id req now none h w = elim (Bool-cases (next_fault t.faults)) [
    | inl f ↦ rw f w
    | inr f ↦ rw f (update-All user_id id req now t.rows h w)
  ]

  marked-All :
      (t : Rules F) (stamp : MetricAlertRule F → MetricAlertRule F) (id : ℕ)
      → ((r : MetricAlertRule F) → IsRule r → IsRule (stamp r))
      → All IsRule t.rows
      → All IsRule
          (if next_fault t.faults
            then used t
            else record (used t) { rows = stamp_rule stamp id t.rows }).rows
  marked-All t stamp id k w = elim (Bool-cases (next_fault t.faults)) [
    | inl f ↦ rw f w
    | inr f ↦ rw f (stamp-All stamp id t.rows k w)
  ]

  deleted-All :
      (t : Rules F) (user_id : ℤ) (id : ℕ)
      → All IsRule t.rows
      → All IsRule (delete_metric_alert_rule t user_id id).0.rows
  unfolding delete_metric_alert_rule
  deleted-All t user_id id w = elim (Bool-cases (next_fault t.faults)) [
    | inl f ↦ rw f w
    | inr f ↦ rw f (without-All user_id id t.rows w)
  ]

  apply-All : (t : Rules F) (op : Op F) → All IsRule t.rows → All IsRule (apply t op).rows
  unfolding apply create_metric_alert_rule update_metric_alert_rule delete_metric_alert_rule
      mark_alert_rule_fired mark_alert_rule_cleared
  apply-All t (create user_id req now) w =
      insert-All t user_id req now (validate_alert_rule_request req) refl w
  apply-All t (change user_id id req now) w =
      change-All t user_id id req now (validate_alert_rule_request req) refl w
  apply-All t (delete user_id id) w = deleted-All t user_id id w
  apply-All t (fired id now) w =
      marked-All t (λ r. record r { last_fired_at = now }) id (λ r h. h) w
  apply-All t (cleared id now) w =
      marked-All t (λ r. record r { last_cleared_at = now }) id (λ r h. h) w

  -- If every alert rule of a table is one that the evaluator can read, then so is every rule after any
  -- history of creations, updates, deletions and stamps by any users, whichever SQL statements fail:
  -- a scope with its node or its tag selector, a known metric, test and severity, a delay between 0
  -- and an hour, a title, and no text with space at its ends.
  pub apply_all-All :
      (t : Rules F) (ops : List (Op F)) → All IsRule t.rows → All IsRule (apply_all t ops).rows
  unfolding apply_all
  apply_all-All t [] w = w
  apply_all-All t (op ∷ ops) w = apply_all-All (apply t op) ops (apply-All t op w)
