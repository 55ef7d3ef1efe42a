-- ===== src/Agent/Spacing.antt =====
-- How soon a command is executed again.
use nodepulse.Breaker.Gate.{Attempted}
use nodepulse.Base.{
  ◌*◌, ◌≤◌, String, ◌≡◌, inl, inr, false, some, arith, str_eq, str_eq_iff, Bool-cases, Option-cases,
  ℕ, ◌+◌, ◌<◌, sym, ap, ◌∙◌, true, Option, List, [], ◌∷◌, All,
}
use Prim.Native.Char.{Char}
use nodepulse.Breaker.{new_breaker_with_strategy, Breaker, second, allow}
use nodepulse.Command.{command_key}
use nodepulse.Policy.{Strategy as ClassStrategy, strategy_for, strategies}
use nodepulse.Policy.Classes.{strategy_for_cases}
use nodepulse.Heal.{ExecError}
use nodepulse.Agent.{
  Agent, Turn, for_key, class_of, admits, handle, handle_all, breaker_strategy, new_agent,
}
use nodepulse.Breaker.Spacing.{cooling_refused}
use mathlib.Core.Path.{subst}
use nodepulse.Agent.Pinned.{
  advance_admitted, admits-pinned, advance, pinned, handle_own, handle_other, advance-Attempted,
  advance_cooldown, pinned_held,
}

-- The readings of the clock by commands do not run backwards.
abbrev pub InOrder : ℕ → List Turn → Type 0
InOrder clock [] = Unit
InOrder clock (t ∷ ts) =
    (clock ≤ t.now)
    × (t.now ≤ t.recorded_at)
    × (t.recorded_at ≤ t.crashed_at)
    × InOrder t.crashed_at ts

-- A breaker with a cooldown of at least fifteen seconds.
abbrev IsSlow : Breaker → Type 0
IsSlow b = 15 * second ≤ b.cooldown

-- An attempted key stays attempted, with a slow breaker.
record Cooling (a : Agent) (key : String) (since : ℕ) : Type 0 where
  breaker : Breaker
  held : a.breakers key ≡ some breaker
  attempted : Attempted since (breaker.last_attempt key)
  slow : IsSlow breaker

-- Every breaker of the cache is slow.
abbrev AllSlow : Agent → Type 0
AllSlow a = (key : String) (b : Breaker) → a.breakers key ≡ some b → IsSlow b

rows_slow :
    All
      (λ (row : String × ClassStrategy).
        15 * second ≤ (new_breaker_with_strategy (breaker_strategy row.1)).cooldown)
      strategies
unfolding strategies new_breaker_with_strategy breaker_strategy
rows_slow = ground arith

for_key-IsSlow :
    (a : Agent) (key class : String) → AllSlow a → IsSlow (for_key a key (strategy_for class)).1
unfolding for_key
for_key-IsSlow a key class h = elim (Option-cases (a.breakers key)) [
  | inl e ↦
      rw (e, for_key)
        (strategy_for_cases
          (λ s. 15 * second ≤ (new_breaker_with_strategy (breaker_strategy s)).cooldown) rows_slow
          class)
  | inr (b, e) ↦ rw (e, for_key) (h key b e)
]

some_same : (b c : Breaker) → ◌≡◌ {A = Option Breaker} (some b) (some c) → b ≡ c
some_same b c e = cc e

module _ (lower : Char → Char) (message : ExecError → String) where
  own-Cooling :
      (a : Agent) (t : Turn) (since : ℕ)
      → since ≤ t.now
      → t.now ≤ t.recorded_at
      → Cooling a (command_key t.cmd) since
      → Cooling (handle lower message a t) (command_key t.cmd) since
  own-Cooling a t since h k c = record {
    breaker = advance lower message (pinned lower message a t) t;
    held = handle_own lower message a t;
    attempted =
        advance-Attempted lower message (pinned lower message a t) t since h k
          (rw (pinned_held lower message a t c.breaker c.held) c.attempted);
    slow =
        rw
          (
            advance_cooldown lower message (pinned lower message a t) t,
            pinned_held lower message a t c.breaker c.held,
          )
          c.slow;
  }

  handle-Cooling :
      (a : Agent) (t : Turn) (key : String) (since : ℕ)
      → since ≤ t.now
      → t.now ≤ t.recorded_at
      → Cooling a key since
      → Cooling (handle lower message a t) key since
  handle-Cooling a t key since h k c = elim (Bool-cases (str_eq (command_key t.cmd) key)) [
    | inl y ↦
        let e = (str_eq_iff (command_key t.cmd) key).0 y in
        subst (λ j. Cooling (handle lower message a t) j since) e
          (own-Cooling a t since h k (subst (λ j. Cooling a j since) (sym e) c))
    | inr n ↦ record {
      breaker = c.breaker;
      held =
          handle_other lower message a t key (λ e. cc ((str_eq_iff (command_key t.cmd) key).1 e))
          ∙ c.held;
      attempted = c.attempted;
      slow = c.slow;
    }
  ]

  handle_all-Cooling :
      (a : Agent) (ts : List Turn) (key : String) (clock since : ℕ)
      → since ≤ clock
      → InOrder clock ts
      → Cooling a key since
      → Cooling (handle_all lower message a ts) key since
  unfolding handle_all
  handle_all-Cooling a [] key clock since h w c = c
  handle_all-Cooling a (t ∷ ts) key clock since h w c =
      handle_all-Cooling (handle lower message a t) ts key t.crashed_at since (omega arith) w.3
        (handle-Cooling a t key since (omega arith) w.1 c)

  refused :
      (a : Agent) (t : Turn) (since : ℕ)
      → Cooling a (command_key t.cmd) since
      → t.now < since + 15 * second
      → admits lower message a t ≡ false
  refused a t since c h =
      let key = command_key t.cmd in
      admits-pinned lower message a t
      ∙ ap (λ b. (allow b key t.purged_at t.now t.asked_at).1.allowed)
          (pinned_held lower message a t c.breaker c.held)
      ∙ cooling_refused c.breaker key t.purged_at t.now t.asked_at since c.attempted
          (omega (arith, c.slow))

  advance-IsSlow :
      (a : Agent) (t : Turn)
      → AllSlow a
      → IsSlow (advance lower message (pinned lower message a t) t)
  unfolding pinned
  advance-IsSlow a t h =
      rw (advance_cooldown lower message (pinned lower message a t) t)
        (for_key-IsSlow a (command_key t.cmd) (class_of lower message t.cmd t.services) h)

  handle-AllSlow : (a : Agent) (t : Turn) → AllSlow a → AllSlow (handle lower message a t)
  handle-AllSlow a t h key b e = elim (Bool-cases (str_eq (command_key t.cmd) key)) [
    | inl y ↦
        let same = (str_eq_iff (command_key t.cmd) key).0 y in
        let held =
          sym (handle_own lower message a t)
          ∙ subst (λ j. (handle lower message a t).breakers j ≡ some b) (sym same) e in
        subst IsSlow (some_same (advance lower message (pinned lower message a t) t) b held)
          (advance-IsSlow a t h)
    | inr n ↦ h key b (
        sym
          (handle_other lower message a t key (λ k. cc ((str_eq_iff (command_key t.cmd) key).1 k)))
        ∙ e)
  ]

  handle_all-AllSlow :
      (a : Agent) (ts : List Turn) → AllSlow a → AllSlow (handle_all lower message a ts)
  unfolding handle_all
  handle_all-AllSlow a [] h = h
  handle_all-AllSlow a (t ∷ ts) h =
      handle_all-AllSlow (handle lower message a t) ts (handle-AllSlow a t h)

  first-Cooling :
      (a : Agent) (t : Turn)
      → AllSlow a
      → admits lower message a t ≡ true
      → t.now ≤ t.recorded_at
      → Cooling (handle lower message a t) (command_key t.cmd) t.now
  first-Cooling a t h y k = record {
    breaker = advance lower message (pinned lower message a t) t;
    held = handle_own lower message a t;
    attempted =
        advance_admitted lower message (pinned lower message a t) t
          (sym (admits-pinned lower message a t) ∙ y) k;
    slow = advance-IsSlow a t h;
  }

  -- An agent from its start on, whatever commands it has had: if it executes a command, then it skips
  -- every command of the same key until fifteen seconds later, whatever commands come in between, of
  -- whatever classes, as long as its clock does not run backwards.
  pub admits_spacing :
      (before : List Turn) (t : Turn) (between : List Turn) (t' : Turn)
      → admits lower message (handle_all lower message new_agent before) t ≡ true
      → InOrder t.now (t ∷ between)
      → command_key t'.cmd ≡ command_key t.cmd
      → t'.now < t.now + 15 * second
      → admits lower message
          (handle_all lower message (handle_all lower message new_agent before) (t ∷ between))
          t'
        ≡ false
  unfolding handle_all
  admits_spacing before t between t' y w same soon =
      let a = handle_all lower message new_agent before in
      let a' = handle lower message a t in
      let slow = handle_all-AllSlow new_agent before (λ key b e. cc e) in
      refused (handle_all lower message a' between) t' t.now
        (subst (λ key. Cooling (handle_all lower message a' between) key t.now) (sym same)
          (handle_all-Cooling a' between (command_key t.cmd) t.crashed_at t.now (omega arith) w.3
            (first-Cooling a t slow y w.1)))
        soon
