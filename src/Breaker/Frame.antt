-- ===== src/Breaker/Frame.antt =====
-- What each call of the breaker changes, field by field.
use nodepulse.Base.{ℕ, String, ◌≡◌, ◌≢◌, Option, arith, str_eq_iff}
use nodepulse.Breaker.{
  Breaker, Call, allows, records, record_crashes, allow, record_crash, record_outcome, step,
}

-- The state that belongs to one target, and the parameters.
pub record SameTarget (b c : Breaker) (key : String) : Type 0 where
  pub last : c.last_attempt key ≡ b.last_attempt key
  pub tries : c.attempts key ≡ b.attempts key
  pub failed : c.failures key ≡ b.failures key
  pub crashed : c.crashes key ≡ b.crashes key
  pub opens : c.opens_at key ≡ b.opens_at key

pub record SameParams (b c : Breaker) : Type 0 where
  pub cooldown : c.cooldown ≡ b.cooldown
  pub burst_window : c.burst_window ≡ b.burst_window
  pub burst_limit : c.burst_limit ≡ b.burst_limit
  pub open_for : c.open_for ≡ b.open_for

-- The target that a call names.
abbrev pub target_of : Call → String
target_of (allows k purged_at now asked_at) = k
target_of (records k err now) = k
target_of (record_crashes k now) = k

pub allow-SameParams : (b : Breaker) (k : String) (p n a : ℕ) → SameParams b (allow b k p n a).0
unfolding allow
allow-SameParams b k p n a = ground arith

pub outcome-SameParams :
    (b : Breaker) (k : String) (e : Option String) (n : ℕ) → SameParams b (record_outcome b k e n)
unfolding record_outcome
outcome-SameParams b k e n = ground arith

pub crash-SameParams : (b : Breaker) (k : String) (n : ℕ) → SameParams b (record_crash b k n)
unfolding record_crash
crash-SameParams b k n = ground arith

-- No call changes the parameters.
pub step-SameParams : (b : Breaker) (c : Call) → SameParams b (step b c)
unfolding step
step-SameParams b (allows k p n a) = allow-SameParams b k p n a
step-SameParams b (records k e n) = outcome-SameParams b k e n
step-SameParams b (record_crashes k n) = crash-SameParams b k n

allow_frame : (b : Breaker) (k j : String) (p n a : ℕ) → k ≢ j → SameTarget b (allow b k p n a).0 j
unfolding allow
allow_frame b k j p n a h = ground (arith, str_eq_iff k j)

outcome_frame :
    (b : Breaker) (k j : String) (e : Option String) (n : ℕ)
    → k ≢ j
    → SameTarget b (record_outcome b k e n) j
unfolding record_outcome
outcome_frame b k j e n h = ground (arith, str_eq_iff k j)

crash_frame : (b : Breaker) (k j : String) (n : ℕ) → k ≢ j → SameTarget b (record_crash b k n) j
unfolding record_crash
crash_frame b k j n h = ground (arith, str_eq_iff k j)

-- A call for one target leaves all that the breaker knows of every other target as it was.
pub step_frame : (b : Breaker) (c : Call) (j : String) → target_of c ≢ j → SameTarget b (step b c) j
unfolding step
step_frame b (allows k p n a) j h = allow_frame b k j p n a h
step_frame b (records k e n) j h = outcome_frame b k j e n h
step_frame b (record_crashes k n) j h = crash_frame b k j n h
