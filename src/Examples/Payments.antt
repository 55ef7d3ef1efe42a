-- ===== src/Examples/Payments.antt =====
-- An invoice that is paid, and told twice.
use nodepulse.Base.{
  ◌≡◌, refl, Bool, true, false, none, some, List, [], ◌∷◌, ◌==◌, if◌then◌else◌, str_eq,
}
use nodepulse.Billing.{
  Billing, marked, extend_failed, find_invoice, stamp_paid, mark_found, mark_invoice_paid,
  can_add_node, is_pro, get_user_plan, user_node_count,
}
use nodepulse.Billing.Once.{Op, save, mark, run, Unchanged, extends_once}

abbrev free_user : List Bool → Billing
free_user faults = record {
  invoices = [];
  plans = λ id. if id == 2 then some (record { plan = "free"; pro_until = none }) else none;
  owned = λ id. 3;
  faults = faults;
}

abbrev invoiced : List Bool → Billing
invoiced faults = record (free_user faults) {
  invoices =
      record {
        invoice_id = "a";
        user_id = 2;
        plan = "pro";
        amount = "5";
        status = "created";
        pay_url = "";
        paid_at = none;
      }
      ∷ [];
}

abbrev told_again : List Op
told_again = mark "b" 12 ∷ save "b" 3 "pro" "5" "" ∷ mark "a" 13 ∷ []

extends_once_example :
    Unchanged
      (mark_invoice_paid (run (mark_invoice_paid (invoiced []) "a" 10).0 told_again) "a" 99).1
    × ((mark_invoice_paid
          (run (mark_invoice_paid (invoiced []) "a" 10).0 told_again)
          "a"
          99).0.plans
        ≡ (run (mark_invoice_paid (invoiced []) "a" 10).0 told_again).plans)
unfolding mark_invoice_paid mark_found find_invoice str_eq
extends_once_example = extends_once (invoiced []) "a" 10 2 99 told_again refl

-- The third statement of a payment fails: the user has paid, and stays on the free plan for good.
lost : (mark_invoice_paid (invoiced (false ∷ false ∷ true ∷ [])) "a" 10).1 ≡ extend_failed
unfolding mark_invoice_paid mark_found find_invoice str_eq
lost = refl

abbrev after_loss : Billing
after_loss = (mark_invoice_paid (invoiced (false ∷ false ∷ true ∷ [])) "a" 10).0

told_late : (mark_invoice_paid after_loss "a" 11).1 ≡ marked 2 false
unfolding mark_invoice_paid mark_found find_invoice stamp_paid str_eq
told_late = refl

no_fourth_node : (can_add_node (mark_invoice_paid after_loss "a" 11).0 2).1 ≡ false
unfolding mark_invoice_paid mark_found find_invoice stamp_paid str_eq can_add_node is_pro
    get_user_plan user_node_count
no_fourth_node = refl
