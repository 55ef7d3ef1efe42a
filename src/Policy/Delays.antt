-- ===== src/Policy/Delays.antt =====
-- Retry delays and escalation of the strategies that the table gives out.
use nodepulse.Base.{
  ℕ, zero, suc, ◌+◌, ◌*◌, ◌≤◌, ◌<◌, String, ◌≡◌, refl, arith, All, ◌^◌, false, leb,
}
use nodepulse.Base.Int.{pos, negsuc, pos_part}
use native.Mathlib.Nat.{add-zero, add-suc, le_refl, le_trans}
use nodepulse.Policy.{Strategy, strategies, strategy_for, next_delay, should_escalate}
use nodepulse.Policy.Classes.{strategy_for_cases}

-- Limits of a strategy under which it is fit for use: positive parameters, a delay of eight
-- cooldowns that an int64 holds, and an escalation no later than the circuit and the soft cap.
pub record IsSound (s : Strategy) : Type 0 where
  pub delays : s.cooldown ≡ pos (pos_part s.cooldown)
  pub positive : 0 < pos_part s.cooldown
  pub bounded : pos_part s.cooldown * 8 < 2 ^ 63
  pub escalates : 0 < pos_part s.escalate_after
  pub early : pos_part s.escalate_after ≤ pos_part s.burst_limit
  pub capped : pos_part s.burst_limit ≤ pos_part s.max_attempts

rows-IsSound : All (λ (row : String × Strategy). IsSound row.1) strategies
unfolding strategies
rows-IsSound = ground arith

pub strategy_for-IsSound : (class : String) → IsSound (strategy_for class)
strategy_for-IsSound class = strategy_for_cases IsSound rows-IsSound class

escalates_from :
    (s : Strategy) (n : ℕ)
    → IsSound s
    → (should_escalate s (pos n) ≡ leb (pos_part s.escalate_after) n)
      × (should_escalate s (negsuc n) ≡ false)
unfolding should_escalate
escalates_from s n v = ground (arith, v.escalates)

-- For every class, known or not, there is a number of failures from which on ShouldEscalate asks for a
-- human, and below which, negative counts included, it does not; it is at least one, at most the failures
-- that open the circuit of the class, and these are at most the soft cap of its attempts.
pub should_escalate_onset :
    (class : String)
    → let s = strategy_for class in
      (onset : ℕ) × (0 < onset)
      × (onset ≤ pos_part s.burst_limit)
      × (pos_part s.burst_limit ≤ pos_part s.max_attempts)
      × ((n : ℕ) → should_escalate s (pos n) ≡ leb onset n)
      × ((n : ℕ) → should_escalate s (negsuc n) ≡ false)
should_escalate_onset class =
    let s = strategy_for class in
    let v = strategy_for-IsSound class in
    (
      pos_part s.escalate_after,
      v.escalates,
      v.early,
      v.capped,
      (λ n. (escalates_from s n v).0),
      (λ n. (escalates_from s n v).1),
    )

-- The delay curve of the documentation, over unbounded numbers.
abbrev pub curve : ℕ → ℕ → ℕ
curve cooldown zero = 0
curve cooldown (suc zero) = cooldown
curve cooldown (suc (suc zero)) = cooldown * 2
curve cooldown (suc (suc (suc zero))) = cooldown * 4
curve cooldown (suc (suc (suc (suc n)))) = cooldown * 8

next_delay-curve :
    (s : Strategy) (n : ℕ) → IsSound s → next_delay s (pos n) ≡ pos (curve (pos_part s.cooldown) n)
unfolding next_delay
next_delay-curve s zero v = refl
next_delay-curve s (suc zero) v = ground arith
next_delay-curve s (suc (suc zero)) v = ground arith
next_delay-curve s (suc (suc (suc zero))) v = ground arith
next_delay-curve s (suc (suc (suc (suc zero)))) v = ground arith
next_delay-curve s (suc (suc (suc (suc (suc n))))) v = ground arith

curve_step : (k n : ℕ) → curve k n ≤ curve k (suc n)
curve_step k zero = omega arith
curve_step k (suc zero) = omega arith
curve_step k (suc (suc zero)) = omega arith
curve_step k (suc (suc (suc zero))) = omega arith
curve_step k (suc (suc (suc (suc n)))) = omega arith

curve_mono : (k n m : ℕ) → curve k n ≤ curve k (n + m)
curve_mono k n zero = rw add-zero (le_refl _)
curve_mono k n (suc m) = rw add-suc (le_trans (curve_mono k n m) (curve_step k (n + m)))

curve_bounded : (k n : ℕ) → curve k n ≤ k * 8
curve_bounded k zero = omega arith
curve_bounded k (suc zero) = omega arith
curve_bounded k (suc (suc zero)) = omega arith
curve_bounded k (suc (suc (suc zero))) = omega arith
curve_bounded k (suc (suc (suc (suc n)))) = omega arith

-- For every class, known or not, the delay before the n-th retry follows the documented curve with
-- no overflow: nothing for n at most 0, the cooldown, twice, four times, and eight times it from the
-- fourth retry on. It never falls as n grows, and never exceeds eight cooldowns.
pub next_delay_lem :
    (class : String) (n m : ℕ)
    → let s = strategy_for class in
      let k = pos_part s.cooldown in
      (next_delay s (negsuc n) ≡ pos 0)
      × (next_delay s (pos n) ≡ pos (curve k n))
      × (curve k n ≤ curve k (n + m))
      × (curve k n ≤ k * 8)
unfolding next_delay
next_delay_lem class n m =
    let s = strategy_for class in
    (
      refl,
      next_delay-curve s n (strategy_for-IsSound class),
      curve_mono (pos_part s.cooldown) n m,
      curve_bounded (pos_part s.cooldown) n,
    )
