-- ===== src/Breaker/Bounds.antt =====
-- The logs that decide on the circuit stay below the burst limit, and deadlines are never too early.
use nodepulse.Base.{
  ℕ, ◌≤◌, ◌<◌, String, ◌≡◌, inl, inr, Option, none, some, List, [], ◌∷◌, arith, str_eq, str_eq_iff,
  str_eq_refl, Bool-cases, length,
}
use nodepulse.Window.{recent, length-recent-le}
use nodepulse.Breaker.{
  Breaker, Strategy, Call, allows, records, record_crashes, new_breaker_with_strategy, allow,
  record_crash, record_outcome, step,
}
use nodepulse.Breaker.Frame.{step-SameParams, step_frame, target_of}
use nodepulse.Breaker.Gate.{run}

-- A stored deadline is `open_for` after some instant.
abbrev pub Dated : ℕ → Option ℕ → Type 0
Dated open_for none = Unit {0}
Dated open_for (some until) = open_for ≤ until

pub record IsBounded (b : Breaker) (key : String) : Type 0 where
  pub limited : 0 < b.burst_limit
  pub failed : length (b.failures key) < b.burst_limit
  pub crashed : length (b.crashes key) < b.burst_limit
  pub dated : Dated b.open_for (b.opens_at key)

new-IsBounded : (s : Strategy) (key : String) → IsBounded (new_breaker_with_strategy s) key
unfolding new_breaker_with_strategy
new-IsBounded s key = ground arith

allow-IsBounded :
    (b : Breaker) (key : String) (p n a : ℕ) → IsBounded b key → IsBounded (allow b key p n a).0 key
unfolding allow
allow-IsBounded b key p n a v = ground (
  arith,
  str_eq_refl key,
  length-recent-le p b.burst_window (b.failures key),
  length-recent-le p b.burst_window (b.crashes key),
)

outcome-IsBounded :
    (b : Breaker) (key : String) (e : Option String) (n : ℕ)
    → IsBounded b key
    → IsBounded (record_outcome b key e n) key
unfolding record_outcome
outcome-IsBounded b key e n v = ground (arith, str_eq_refl key)

crash-IsBounded :
    (b : Breaker) (key : String) (n : ℕ) → IsBounded b key → IsBounded (record_crash b key n) key
unfolding record_crash
crash-IsBounded b key n v = ground (arith, str_eq_refl key)

own-IsBounded :
    (b : Breaker) (key : String) (c : Call)
    → target_of c ≡ key
    → IsBounded b key
    → IsBounded (step b c) key
unfolding step
own-IsBounded b key (allows k p n a) e v = rw e (allow-IsBounded b key p n a v)
own-IsBounded b key (records k err n) e v = rw e (outcome-IsBounded b key err n v)
own-IsBounded b key (record_crashes k n) e v = rw e (crash-IsBounded b key n v)

step-IsBounded :
    (b : Breaker) (key : String) (c : Call) → IsBounded b key → IsBounded (step b c) key
step-IsBounded b key c v = elim (Bool-cases (str_eq (target_of c) key)) [
  | inl e ↦ own-IsBounded b key c ((str_eq_iff _ _).0 e) v
  | inr ne ↦
      let same = step_frame b c key (λ p. cc ((str_eq_iff _ _).1 p)) in
      let params = step-SameParams b c in
      record {
        limited = rw params.burst_limit v.limited;
        failed = rw (params.burst_limit, same.failed) v.failed;
        crashed = rw (params.burst_limit, same.crashed) v.crashed;
        dated = rw (params.open_for, same.opens) v.dated;
      }
]

run-IsBounded :
    (b : Breaker) (key : String) (cs : List Call) → IsBounded b key → IsBounded (run b cs) key
unfolding run
run-IsBounded b key [] v = v
run-IsBounded b key (c ∷ cs) v = run-IsBounded (step b c) key cs (step-IsBounded b key c v)

-- After any history of calls, whatever the clock does, a breaker holds for every target fewer
-- failures and fewer crashes than the burst limit, and only deadlines at or after `open_for`.
pub run-new-IsBounded :
    (s : Strategy) (cs : List Call) (key : String)
    → IsBounded (run (new_breaker_with_strategy s) cs) key
run-new-IsBounded s cs key = run-IsBounded _ key cs (new-IsBounded s key)

success_untripped :
    (b : Breaker) (key : String) (n : ℕ)
    → IsBounded b key
    → ((record_outcome b key none n).opens_at key ≡ b.opens_at key)
      × ((record_outcome b key none n).failures key ≡ recent n b.burst_window (b.failures key))
unfolding record_outcome
success_untripped b key n v =
    ground (arith, str_eq_refl key, length-recent-le n b.burst_window (b.failures key))

-- After any history, recording a success opens no circuit and drops no failure of the window.
pub run_success_untripped :
    (s : Strategy) (cs : List Call) (key : String) (n : ℕ)
    → let b = run (new_breaker_with_strategy s) cs in
      ((record_outcome b key none n).opens_at key ≡ b.opens_at key)
      × ((record_outcome b key none n).failures key ≡ recent n b.burst_window (b.failures key))
run_success_untripped s cs key n = success_untripped _ key n (run-new-IsBounded s cs key)
