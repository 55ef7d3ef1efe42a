-- ===== src/Examples/Breakers.antt =====
-- A breaker with a cooldown of 10, a burst limit of 2, a burst window of 100 and 50 open.
use nodepulse.Base.{◌≡◌, refl, false, none, some, List, [], ◌∷◌, arith, str_eq}
use nodepulse.Window.{recent}
use nodepulse.Base.Int.{pos}
use nodepulse.Breaker.{
  Breaker, Strategy, Call, allows, records, record_crashes, new_breaker_with_strategy, allow,
  record_crash, record_outcome, step,
}
use nodepulse.Breaker.Ledger.{blank, reasons, ledger_reasons}
use nodepulse.Breaker.Gate.{run}
use nodepulse.Breaker.Spacing.{allow_spacing, tripped_stays_open, crash_tripped_stays_open}
use nodepulse.Breaker.Bounds.{IsBounded, run-new-IsBounded}
use nodepulse.Breaker.History.{reasons-ledger_reasons}

abbrev quick : Strategy
quick = record { cooldown = pos 10; burst_limit = pos 2; burst_window = pos 100; open_for = pos 50 }

abbrev history : List Call
history =
    allows "a" 5 5 5
    ∷ records "a" (some "boom") 6
    ∷ allows "a" 7 7 7
    ∷ allows "b" 8 8 8
    ∷ allows "a" 20 20 20
    ∷ records "a" (some "boom") 21
    ∷ allows "a" 40 40 40
    ∷ allows "a" 90 90 90
    ∷ []

history_run :
    reasons "a" (new_breaker_with_strategy quick) history
    ≡ "ok" ∷ "cooldown" ∷ "ok" ∷ "circuit_open" ∷ "ok" ∷ []
unfolding reasons new_breaker_with_strategy allow step record_outcome recent str_eq
history_run = refl

reasons-ledger_reasons_example :
    reasons "a" (new_breaker_with_strategy quick) history
    ≡ ledger_reasons (new_breaker_with_strategy quick) "a" blank history
reasons-ledger_reasons_example = reasons-ledger_reasons quick "a" history (omega arith)

abbrev failing : Breaker
failing = run (new_breaker_with_strategy quick) (records "a" (some "boom") 6 ∷ [])

allow_spacing_example :
    (allow
      (run (allow (new_breaker_with_strategy quick) "a" 5 5 5).0 (records "a" none 6 ∷ []))
      "a"
      12
      12
      12).1.allowed
    ≡ false
unfolding new_breaker_with_strategy allow
allow_spacing_example =
    allow_spacing (new_breaker_with_strategy quick) "a" 5 5 5 (records "a" none 6 ∷ []) 12 12 12
      refl (omega arith) (omega arith)

tripped_stays_open_example :
    let r =
      (allow
        (run (record_outcome failing "a" (some "boom") 20) (allows "b" 30 30 30 ∷ []))
        "a"
        60
        60
        60).1 in
    (r.allowed ≡ false) × (r.reason ≡ "circuit_open")
unfolding new_breaker_with_strategy run step record_outcome recent str_eq
tripped_stays_open_example =
    tripped_stays_open failing "a" (some "boom") 20 (allows "b" 30 30 30 ∷ []) 60 60 60
      (omega arith) (omega arith) (omega arith) (omega arith)

abbrev crashing : Breaker
crashing = run (new_breaker_with_strategy quick) (record_crashes "a" 6 ∷ [])

crash_tripped_stays_open_example :
    let r =
      (allow (run (record_crash crashing "a" 20) (allows "b" 30 30 30 ∷ [])) "a" 60 60 60).1 in
    (r.allowed ≡ false) × (r.reason ≡ "circuit_open")
unfolding new_breaker_with_strategy run step record_crash recent str_eq
crash_tripped_stays_open_example =
    crash_tripped_stays_open crashing "a" 20 (allows "b" 30 30 30 ∷ []) 60 60 60 (omega arith)
      (omega arith) (omega arith) (omega arith)

run-new-IsBounded_example : IsBounded (run (new_breaker_with_strategy quick) history) "a"
run-new-IsBounded_example = run-new-IsBounded quick history "a"
