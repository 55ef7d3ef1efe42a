-- ===== src/Billing/Once.antt =====
-- How often an invoice extends a plan.
use mathlib.Core.Option
use nodepulse.Base.{
  String, ℕ, ◌≡◌, some, List, [], ◌∷◌, ◌++◌, arith, refl, ap, inl, inr, ◌||◌, Option, none,
  if◌then◌else◌, str_eq, Bool-cases, Option-cases, ◌⊎◌, Bool, true, false, str_eq_refl,
}
use nodepulse.Billing.{
  Billing, Invoice, Marked, marked, lookup_failed, stamp_failed, find_invoice, save_invoice,
  stamp_paid, mark_found, mark_invoice_paid, is_found, later_faults, next_fault,
}

-- The invoice is there, and paid.
record Paid (id : String) (rows : List Invoice) : Type 0 where
  row : Invoice
  at : ℕ
  found : find_invoice id rows ≡ some row
  stamped : row.paid_at ≡ some at

found_append :
    (id : String) (xs ys : List Invoice) (r : Invoice)
    → find_invoice id xs ≡ some r
    → find_invoice id (xs ++ ys) ≡ some r
unfolding find_invoice
found_append id [] ys r h = absurd (ground (arith, h))
found_append id (x ∷ xs) ys r h = ground (arith, h, found_append id xs ys r)

no_invoice : (r : Invoice) → ◌≡◌ {A = Option Invoice} none (some r) → ⊥
no_invoice r e = cc e

abbrev stamp_one : String → ℕ → Invoice → Invoice
stamp_one j now r =
    if str_eq r.invoice_id j then record r { status = "paid"; paid_at = some now } else r

stamp_one_id : (j : String) (now : ℕ) (r : Invoice) → (stamp_one j now r).invoice_id ≡ r.invoice_id
stamp_one_id j now r = elim (Bool-cases (str_eq r.invoice_id j)) [
  | inl y ↦ rw y refl
  | inr n ↦ rw n refl
]

stamped_found :
    (id j : String) (now : ℕ) (rs : List Invoice) (r : Invoice)
    → find_invoice id rs ≡ some r
    → find_invoice id (stamp_paid j now rs) ≡ some (stamp_one j now r)
unfolding find_invoice stamp_paid
stamped_found id j now [] r h = absurd (no_invoice r h)
stamped_found id j now (x ∷ xs) r h = elim (Bool-cases (str_eq x.invoice_id id)) [
  | inl y ↦ rw (stamp_one_id j now x, y) (ap (λ o. Option.map (stamp_one j now) o) (rw y at h))
  | inr n ↦ rw (stamp_one_id j now x, n) (stamped_found id j now xs r (rw n at h))
]

stamp_one-paid :
    (j : String) (now at : ℕ) (r : Invoice)
    → r.paid_at ≡ some at
    → (t : ℕ) × ((stamp_one j now r).paid_at ≡ some t)
stamp_one-paid j now at r h = elim (Bool-cases (str_eq r.invoice_id j)) [
  | inl y ↦ (now, rw y refl)
  | inr n ↦ (at, rw n h)
]

stamp-Paid :
    (id j : String) (now : ℕ) (rs : List Invoice) → Paid id rs → Paid id (stamp_paid j now rs)
stamp-Paid id j now rs h =
    let (t, e) = stamp_one-paid j now h.at h.row h.stamped in
    record {
      row = stamp_one j now h.row;
      at = t;
      found = stamped_found id j now rs h.row h.found;
      stamped = e;
    }

save-Paid :
    (p : Billing) (id j : String) (user : ℕ) (plan amount url : String)
    → Paid id p.invoices
    → Paid id (save_invoice p j user plan amount url).0.invoices
unfolding save_invoice
save-Paid p id j user plan amount url h =
    elim (Bool-cases (next_fault p.faults || is_found (find_invoice j p.invoices))) [
      | inl y ↦ rw y h
      | inr n ↦ rw n (record {
        row = h.row;
        at = h.at;
        found = found_append id p.invoices _ h.row h.found;
        stamped = h.stamped;
      })
    ]

mark_found-Paid :
    (p : Billing) (id : String) (o : Option Invoice) (now : ℕ)
    → Paid id p.invoices
    → Paid id (mark_found p o now).0.invoices
unfolding mark_found
mark_found-Paid p id none now h = h
mark_found-Paid p id (some r) now h = elim (Option-cases r.paid_at) [
  | inl e ↦ elim (Bool-cases (next_fault p.faults)) [
    | inl y ↦ rw (e, y, mark_found) h
    | inr n ↦ elim (Bool-cases (next_fault (later_faults p.faults))) [
      | inl y ↦ rw (e, n, y, mark_found) (stamp-Paid id r.invoice_id now p.invoices h)
      | inr m ↦ rw (e, n, m, mark_found) (stamp-Paid id r.invoice_id now p.invoices h)
    ]
  ]
  | inr (at, e) ↦ rw (e, mark_found) h
]

not_changed : (u v : ℕ) → ◌≡◌ {A = Marked} (marked u false) (marked v true) → ⊥
not_changed u v e = cc e

no_lookup : (v : ℕ) (b : Bool) → ◌≡◌ {A = Marked} lookup_failed (marked v b) → ⊥
no_lookup v b e = cc e

-- An invoice that was found and not paid is paid behind a statement that stamps it.
found_marked :
    (p : Billing) (id : String) (r : Invoice) (now user : ℕ)
    → find_invoice id p.invoices ≡ some r
    → (mark_found p (some r) now).1 ≡ marked user true
    → Paid id (mark_found p (some r) now).0.invoices
unfolding mark_found
found_marked p id r now user f e = elim (Option-cases r.paid_at) [
  | inl d ↦ elim (Bool-cases (next_fault p.faults)) [
    | inl y ↦ absurd (no_stamp user (rw (d, y, mark_found) at e))
    | inr n ↦ elim (Bool-cases (next_fault (later_faults p.faults))) [
      | inl y ↦ rw (d, n, y, mark_found) now_paid
      | inr m ↦ rw (d, n, m, mark_found) now_paid
    ]
  ]
  | inr (at, d) ↦ absurd (not_changed r.user_id user (rw (d, mark_found) at e))
]
  where
    no_stamp : (v : ℕ) → ◌≡◌ {A = Marked} stamp_failed (marked v true) → ⊥
    no_stamp v h = cc h

    now_paid : Paid id (stamp_paid r.invoice_id now p.invoices)
    now_paid = record {
      row = stamp_one r.invoice_id now r;
      at = now;
      found = stamped_found id r.invoice_id now p.invoices r f;
      stamped = rw (str_eq_refl r.invoice_id) refl;
    }

first-Paid :
    (p : Billing) (id : String) (now user : ℕ)
    → (mark_invoice_paid p id now).1 ≡ marked user true
    → Paid id (mark_invoice_paid p id now).0.invoices
unfolding mark_invoice_paid
first-Paid p id now user e = elim (Bool-cases (next_fault p.faults)) [
  | inl y ↦ absurd (no_lookup user true (rw y at e))
  | inr n ↦ elim (Option-cases (find_invoice id p.invoices)) [
    | inl f ↦ absurd (no_lookup user true (rw (n, f) at e))
    | inr (r, f) ↦
        rw (n, f)
          (found_marked (record p { faults = later_faults p.faults }) id r now user f
            (rw (n, f) at e))
  ]
]

-- A call of the billing tables.
pub data Op : Type 0 where
  save : String → ℕ → String → String → String → Op
  mark : String → ℕ → Op

unfoldable pub run : Billing → List Op → Billing
run p [] = p
run p (save id user plan amount url ∷ ops) = run (save_invoice p id user plan amount url).0 ops
run p (mark id now ∷ ops) = run (mark_invoice_paid p id now).0 ops

run-Paid :
    (ops : List Op) (p : Billing) (id : String) → Paid id p.invoices → Paid id (run p ops).invoices
unfolding run mark_invoice_paid
run-Paid [] p id h = h
run-Paid (save j user plan amount url ∷ ops) p id h =
    run-Paid ops (save_invoice p j user plan amount url).0 id
      (save-Paid p id j user plan amount url h)
run-Paid (mark j now ∷ ops) p id h =
    run-Paid ops (mark_invoice_paid p j now).0 id
      (mark_found-Paid (record p { faults = later_faults p.faults }) id _ now h)

-- Nothing is paid: an error of the lookup, or no change.
abbrev pub Unchanged : Marked → Type 0
Unchanged m = (m ≡ lookup_failed) ⊎ ((user : ℕ) × (m ≡ marked user false))

Paid-again :
    (p : Billing) (id : String) (now : ℕ)
    → Paid id p.invoices
    → Unchanged (mark_invoice_paid p id now).1 × ((mark_invoice_paid p id now).0.plans ≡ p.plans)
unfolding mark_invoice_paid mark_found
Paid-again p id now h = elim (Bool-cases (next_fault p.faults)) [
  | inl y ↦ rw y (inl refl, refl)
  | inr n ↦ rw (n, h.found, h.stamped, mark_found) (inr (h.row.user_id, refl), refl)
]

-- Once a call of MarkInvoicePaid for an invoice has changed something, every later call for it, behind any
-- calls of SaveInvoice and MarkInvoicePaid, answers an error of its lookup or that nothing changed, and
-- leaves every plan as it was, whichever SQL statements fail.
pub extends_once :
    (p : Billing) (id : String) (now user again : ℕ) (ops : List Op)
    → (mark_invoice_paid p id now).1 ≡ marked user true
    → Unchanged (mark_invoice_paid (run (mark_invoice_paid p id now).0 ops) id again).1
      × ((mark_invoice_paid (run (mark_invoice_paid p id now).0 ops) id again).0.plans
          ≡ (run (mark_invoice_paid p id now).0 ops).plans)
extends_once p id now user again ops e =
    Paid-again (run (mark_invoice_paid p id now).0 ops) id again
      (run-Paid ops (mark_invoice_paid p id now).0 id (first-Paid p id now user e))
