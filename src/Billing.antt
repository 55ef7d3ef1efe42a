-- ===== src/Billing.antt =====
-- Invoices and plans: pkg/store/billing.go, but for the probes. An instant is in unix seconds, as
-- SQLite's datetime has them.
pub mod Once
use nodepulse.Base.{
  String, ℕ, zero, suc, ◌+◌, ◌-◌, ◌*◌, ◌/◌, ◌%◌, ◌^◌, ◌≤◌, ◌<◌, ◌≡◌, refl, sym, ap, ◌∙◌, ◌≢◌, ◌↔◌,
  ◌⊎◌, inl, inr, Bool, true, false, not, ◌&&◌, ◌||◌, Option, none, some, List, [], ◌∷◌, ◌++◌, map,
  arith, ltb, leb, ◌==◌, if◌then◌else◌, ltb→lt, lt→ltb, leb→le, ==_iff, str_eq, str_eq_iff,
  str_eq_refl, Bool-cases, Option-cases, length, length-append, All, All-append, All-map, update,
  update_self, update_ne,
}
use nodepulse.Store.{next_fault, later_faults}

-- A row of invoices; `paid_at` is none until it is paid.
pub record Invoice : Type 0 where
  pub invoice_id : String
  pub user_id : ℕ
  pub plan : String
  pub amount : String
  pub status : String
  pub pay_url : String
  pub paid_at : Option ℕ

-- The columns of users that the plans add.
pub record Plan : Type 0 where
  pub plan : String
  pub pro_until : Option ℕ

-- The invoices, the plans by user id with none for no user, the owners of the nodes, and the outcomes of
-- the statements to come: `true` is an error.
pub record Billing : Type 0 where
  pub invoices : List Invoice
  pub plans : ℕ → Option Plan
  pub owned : ℕ → ℕ
  pub faults : List Bool

-- What MarkInvoicePaid answers: an error by its statement, or the user and whether anything changed.
pub data Marked : Type 0 where
  lookup_failed stamp_failed extend_failed : Marked
  marked : ℕ → Bool → Marked

abbrev later : Billing → Billing
later p = record p { faults = later_faults p.faults }

unfoldable pub find_invoice : String → List Invoice → Option Invoice
find_invoice id [] = none
find_invoice id (r ∷ rs) =
    let rest = find_invoice id rs in if str_eq r.invoice_id id then some r else rest

abbrev pub is_found : Option Invoice → Bool
is_found none = false
is_found (some r) = true

-- `true` without an error; invoice_id is unique.
unfoldable pub save_invoice : Billing → String → ℕ → String → String → String → Billing × Bool
unfolding find_invoice
save_invoice p id user_id plan amount pay_url =
    if next_fault p.faults || is_found (find_invoice id p.invoices) then (later p, false) else (
      record (later p) {
        invoices =
            p.invoices
            ++ record {
              invoice_id = id;
              user_id = user_id;
              plan = plan;
              amount = amount;
              status = "created";
              pay_url = pay_url;
              paid_at = none;
            }
              ∷ [];
      },
      true,
    )

-- UPDATE invoices ... WHERE invoice_id = ?
unfoldable pub stamp_paid : String → ℕ → List Invoice → List Invoice
stamp_paid id now [] = []
stamp_paid id now (r ∷ rs) =
    (if str_eq r.invoice_id id then record r { status = "paid"; paid_at = some now } else r)
    ∷ stamp_paid id now rs

abbrev pub thirty_days : ℕ
thirty_days = 2592000

abbrev pub extended : Option Plan → ℕ → Option Plan
extended none now = none
extended (some u) now = some (record {
  plan = "pro";
  pro_until =
      some (elim u.pro_until [ none ↦ now + thirty_days | some until ↦ until + thirty_days ]);
})

-- UPDATE users ... WHERE id = ?
unfoldable pub extend_plan : (ℕ → Option Plan) → ℕ → ℕ → ℕ → Option Plan
extend_plan plans user_id now id = if id == user_id then extended (plans id) now else plans id

-- Behind the lookup.
unfoldable pub mark_found : Billing → Option Invoice → ℕ → Billing × Marked
unfolding stamp_paid extend_plan
mark_found p none now = (p, lookup_failed)
mark_found p (some r) now =
    let q = record (later p) { invoices = stamp_paid r.invoice_id now p.invoices } in
    elim r.paid_at [
      | some at ↦ (p, marked r.user_id false)
      | none ↦
          if next_fault p.faults
          then (later p, stamp_failed)
          else if next_fault q.faults
          then (later q, extend_failed)
          else (
            record (later q) { plans = extend_plan p.plans r.user_id now },
            marked r.user_id true,
          )
    ]

unfoldable pub mark_invoice_paid : Billing → String → ℕ → Billing × Marked
unfolding mark_found find_invoice
mark_invoice_paid p id now =
    mark_found (later p) (if next_fault p.faults then none else find_invoice id p.invoices) now

abbrev plan_of : Option Plan → String
plan_of none = "free"
plan_of (some u) = u.plan

-- GetUserPlan without its error, which the callers drop.
unfoldable pub get_user_plan : Billing → ℕ → Billing × String
get_user_plan p user_id =
    (later p, if next_fault p.faults then "free" else plan_of (p.plans user_id))

unfoldable pub is_pro : Billing → ℕ → Billing × Bool
unfolding get_user_plan
is_pro p user_id = let (q, plan) = get_user_plan p user_id in (q, str_eq plan "pro")

-- 0 on an error.
unfoldable pub user_node_count : Billing → ℕ → Billing × ℕ
user_node_count p user_id = (later p, if next_fault p.faults then 0 else p.owned user_id)

abbrev pub free_node_limit : ℕ
free_node_limit = 3

unfoldable pub can_add_node : Billing → ℕ → Billing × Bool
unfolding is_pro user_node_count
can_add_node p user_id =
    let (q, pro) = is_pro p user_id in
    let (r, n) = user_node_count q user_id in
    if user_id == 1 then (p, true) else if pro then (q, true) else (r, ltb n free_node_limit)
