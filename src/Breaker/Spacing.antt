-- ===== src/Breaker/Spacing.antt =====
-- Headline guarantees of the breaker over histories.
use nodepulse.Base.{
  ℕ, ◌+◌, ◌≤◌, ◌<◌, String, ◌≡◌, true, false, Option, List, [], ◌∷◌, arith, str_eq_refl, length,
  length-append,
}
use nodepulse.Window.{recent}
use nodepulse.Breaker.{Breaker, Call, allow, record_crash, record_outcome, with_failure}
use nodepulse.Breaker.Frame.{allow-SameParams, outcome-SameParams, crash-SameParams}
use nodepulse.Breaker.Ledger.{IsTimed}
use nodepulse.Breaker.Gate.{
  run, Attempted, OpenUntil, ends, run-Attempted, run-OpenUntil, run-SameParams,
}

pub admitted_attempt :
    (b : Breaker) (key : String) (p n a : ℕ)
    → (allow b key p n a).1.allowed ≡ true
    → Attempted n ((allow b key p n a).0.last_attempt key)
unfolding allow
admitted_attempt b key p n a h = ground (arith, str_eq_refl key)

pub cooling_refused :
    (b : Breaker) (key : String) (p n a since : ℕ)
    → Attempted since (b.last_attempt key)
    → n < since + b.cooldown
    → (allow b key p n a).1.allowed ≡ false
unfolding allow
cooling_refused b key p n a since t h = ground (arith, str_eq_refl key)

open_refused :
    (b : Breaker) (key : String) (p n a until : ℕ)
    → OpenUntil until (b.opens_at key)
    → n < until
    → ((allow b key p n a).1.allowed ≡ false) × ((allow b key p n a).1.reason ≡ "circuit_open")
unfolding allow
open_refused b key p n a until t h = ground (arith, str_eq_refl key)

-- After an allowed attempt at `n`, whatever calls follow on a clock that does not run backwards,
-- the same target is refused until a cooldown after `n`.
pub allow_spacing :
    (b : Breaker) (key : String) (p n a : ℕ) (cs : List Call) (p' n' a' : ℕ)
    → (allow b key p n a).1.allowed ≡ true
    → IsTimed n cs
    → n' < n + b.cooldown
    → (allow (run (allow b key p n a).0 cs) key p' n' a').1.allowed ≡ false
allow_spacing b key p n a cs p' n' a' h t late =
    let b' = (allow b key p n a).0 in
    cooling_refused (run b' cs) key p' n' a' n
      (run-Attempted b' key cs n n t (omega arith) (admitted_attempt b key p n a h))
      (omega (arith, (run-SameParams b' cs).cooldown, (allow-SameParams b key p n a).cooldown))

tripped_open :
    (b : Breaker) (key : String) (e : Option String) (n : ℕ)
    → b.burst_limit ≤ length (recent n b.burst_window (with_failure e (b.failures key) n))
    → OpenUntil (n + b.open_for) ((record_outcome b key e n).opens_at key)
unfolding record_outcome
tripped_open b key e n h = ground (arith, str_eq_refl key)

crash_tripped_open :
    (b : Breaker) (key : String) (n : ℕ)
    → b.burst_limit ≤ length (recent n b.burst_window (b.crashes key)) + 1
    → OpenUntil (n + b.open_for) ((record_crash b key n).opens_at key)
unfolding record_crash
crash_tripped_open b key n h =
    ground
      (arith, str_eq_refl key, length-append (recent n b.burst_window (b.crashes key)) (n ∷ []))

-- When an outcome brings the failures inside the burst window up to the burst limit, the circuit
-- stays open for the whole of `open_for`: whatever calls follow on a clock that does not run
-- backwards, `Allow` for the target is refused with "circuit_open" until then.
pub tripped_stays_open :
    (b : Breaker) (key : String) (e : Option String) (n : ℕ) (cs : List Call) (p' n' a' : ℕ)
    → b.burst_limit ≤ length (recent n b.burst_window (with_failure e (b.failures key) n))
    → IsTimed n cs
    → ends n cs ≤ n'
    → n' < n + b.open_for
    → let r = (allow (run (record_outcome b key e n) cs) key p' n' a').1 in
      (r.allowed ≡ false) × (r.reason ≡ "circuit_open")
tripped_stays_open b key e n cs p' n' a' h t later early =
    let b' = record_outcome b key e n in
    open_refused (run b' cs) key p' n' a' (n + b.open_for)
      (run-OpenUntil b' key cs n (n + b.open_for) t (omega arith)
        (omega (arith, (outcome-SameParams b key e n).open_for)) (tripped_open b key e n h))
      early

-- The same for crashes seen after a restart: one crash that brings those inside the burst window
-- up to the limit opens the circuit for the whole of `open_for`.
pub crash_tripped_stays_open :
    (b : Breaker) (key : String) (n : ℕ) (cs : List Call) (p' n' a' : ℕ)
    → b.burst_limit ≤ length (recent n b.burst_window (b.crashes key)) + 1
    → IsTimed n cs
    → ends n cs ≤ n'
    → n' < n + b.open_for
    → let r = (allow (run (record_crash b key n) cs) key p' n' a').1 in
      (r.allowed ≡ false) × (r.reason ≡ "circuit_open")
crash_tripped_stays_open b key n cs p' n' a' h t later early =
    let b' = record_crash b key n in
    open_refused (run b' cs) key p' n' a' (n + b.open_for)
      (run-OpenUntil b' key cs n (n + b.open_for) t (omega arith)
        (omega (arith, (crash-SameParams b key n).open_for)) (crash_tripped_open b key n h))
      early
