-- ===== src/Agent/Pinned.antt =====
-- The breaker of a key, from command to command.
use nodepulse.Breaker.Frame.{crash-SameParams, allow-SameParams, outcome-SameParams}
use nodepulse.Breaker.Gate.{Attempted, outcome-Attempted, allow-Attempted, crash-Attempted}
use mathlib.Core.Option
use nodepulse.Base.{
  ◌≤◌, String, ◌≡◌, refl, ◌≢◌, inl, inr, false, some, arith, if◌then◌else◌, str_eq, str_eq_iff,
  str_eq_refl, Bool-cases, Option-cases, ℕ, ◌∙◌, true, Option, none,
}
use Prim.Native.Char.{Char}
use nodepulse.Breaker.{Breaker, allow, record_outcome}
use nodepulse.Command.{command_key}
use nodepulse.Policy.{Strategy as ClassStrategy, strategy_for}
use nodepulse.Heal.{ExecError, execute_command}
use nodepulse.Agent.{
  Agent, Turn, for_key, class_of, after_crash, settle, skip, admits, handle, is_down,
}

for_key_other :
    (a : Agent) (key j : String) (s : ClassStrategy)
    → key ≢ j
    → (for_key a key s).0.breakers j ≡ a.breakers j
unfolding for_key
for_key_other a key j s h = elim (Option-cases (a.breakers key)) [
  | inl e ↦ rw (e, for_key) (ground (arith, h, str_eq_iff key j))
  | inr (b, e) ↦ rw (e, for_key) refl
]

for_key_held :
    (a : Agent) (key : String) (s : ClassStrategy) (b : Breaker)
    → a.breakers key ≡ some b
    → (for_key a key s).1 ≡ b
unfolding for_key
for_key_held a key s b e = rw (e, for_key) refl

after_crash-Attempted :
    (b : Breaker) (key : String) (e : Option ExecError) (at since : ℕ)
    → Attempted since (b.last_attempt key)
    → Attempted since ((after_crash b key e at).last_attempt key)
unfolding after_crash
after_crash-Attempted b key none at since h = h
after_crash-Attempted b key (some e) at since h = elim (Bool-cases (is_down e)) [
  | inl y ↦ rw y (crash-Attempted b key at since h)
  | inr n ↦ rw n h
]

after_crash_cooldown :
    (b : Breaker) (key : String) (e : Option ExecError) (at : ℕ)
    → (after_crash b key e at).cooldown ≡ b.cooldown
unfolding after_crash
after_crash_cooldown b key none at = refl
after_crash_cooldown b key (some e) at = elim (Bool-cases (is_down e)) [
  | inl y ↦ rw y ((crash-SameParams b key at).cooldown)
  | inr n ↦ rw n refl
]

module _ (lower : Char → Char) (message : ExecError → String) where
  -- What a command makes of the breaker of its key.
  unfoldable pub advance : Breaker → Turn → Breaker
  unfolding after_crash
  advance b t =
      let key = command_key t.cmd in
      let e = execute_command t.outside t.cmd in
      let (b', d) = allow b key t.purged_at t.now t.asked_at in
      if d.allowed
      then after_crash (record_outcome b' key (Option.map message e) t.recorded_at) key e
          t.crashed_at
      else b'

  unfoldable pub pinned : Agent → Turn → Breaker
  unfolding for_key
  pinned a t =
      (for_key a (command_key t.cmd) (strategy_for (class_of lower message t.cmd t.services))).1

  pub handle_own :
      (a : Agent) (t : Turn)
      → (handle lower message a t).breakers (command_key t.cmd) ≡ some (advance (pinned a t) t)
  unfolding handle advance pinned admits settle skip
  handle_own a t = elim (Bool-cases (admits lower message a t)) [
    | inl y ↦ rw (y, str_eq_refl (command_key t.cmd)) refl
    | inr n ↦ rw (n, str_eq_refl (command_key t.cmd)) refl
  ]

  pub handle_other :
      (a : Agent) (t : Turn) (key : String)
      → command_key t.cmd ≢ key
      → (handle lower message a t).breakers key ≡ a.breakers key
  unfolding handle admits settle skip
  handle_other a t key h = elim (Bool-cases (admits lower message a t)) [
    | inl y ↦
        rw (y, different)
          (for_key_other a (command_key t.cmd) key
            (strategy_for (class_of lower message t.cmd t.services)) h)
    | inr n ↦
        rw (n, different)
          (for_key_other a (command_key t.cmd) key
            (strategy_for (class_of lower message t.cmd t.services)) h)
  ]
    where
      different : str_eq (command_key t.cmd) key ≡ false
      different = ground (arith, h, str_eq_iff (command_key t.cmd) key)

  pub advance-Attempted :
      (b : Breaker) (t : Turn) (since : ℕ)
      → since ≤ t.now
      → t.now ≤ t.recorded_at
      → Attempted since (b.last_attempt (command_key t.cmd))
      → Attempted since ((advance b t).last_attempt (command_key t.cmd))
  unfolding advance
  advance-Attempted b t since h k w =
      let key = command_key t.cmd in
      let e = execute_command t.outside t.cmd in
      let b' = (allow b key t.purged_at t.now t.asked_at).0 in
      elim (Bool-cases (allow b key t.purged_at t.now t.asked_at).1.allowed) [
        | inl y ↦ rw y (
            after_crash-Attempted (record_outcome b' key (Option.map message e) t.recorded_at) key e
              t.crashed_at since
              (outcome-Attempted b' key (Option.map message e) t.recorded_at since (omega arith)))
        | inr n ↦ rw n (allow-Attempted b key t.purged_at t.now t.asked_at since h w)
      ]

  pub advance_cooldown : (b : Breaker) (t : Turn) → (advance b t).cooldown ≡ b.cooldown
  unfolding advance
  advance_cooldown b t =
      let key = command_key t.cmd in
      let e = execute_command t.outside t.cmd in
      let b' = (allow b key t.purged_at t.now t.asked_at).0 in
      let same = (allow-SameParams b key t.purged_at t.now t.asked_at).cooldown in
      elim (Bool-cases (allow b key t.purged_at t.now t.asked_at).1.allowed) [
        | inl y ↦ rw y (
            after_crash_cooldown (record_outcome b' key (Option.map message e) t.recorded_at) key e
              t.crashed_at
            ∙ (outcome-SameParams b' key (Option.map message e) t.recorded_at).cooldown
            ∙ same)
        | inr n ↦ rw n same
      ]

  pub pinned_held :
      (a : Agent) (t : Turn) (b : Breaker)
      → a.breakers (command_key t.cmd) ≡ some b
      → pinned a t ≡ b
  unfolding pinned
  pinned_held a t b e =
      for_key_held a (command_key t.cmd) (strategy_for (class_of lower message t.cmd t.services)) b
        e

  pub admits-pinned :
      (a : Agent) (t : Turn)
      → admits lower message a t
        ≡ (allow (pinned a t) (command_key t.cmd) t.purged_at t.now t.asked_at).1.allowed
  unfolding admits pinned
  admits-pinned a t = refl

  pub advance_admitted :
      (b : Breaker) (t : Turn)
      → (allow b (command_key t.cmd) t.purged_at t.now t.asked_at).1.allowed ≡ true
      → t.now ≤ t.recorded_at
      → Attempted t.now ((advance b t).last_attempt (command_key t.cmd))
  unfolding advance
  advance_admitted b t y k =
      let key = command_key t.cmd in
      let e = execute_command t.outside t.cmd in
      let b' = (allow b key t.purged_at t.now t.asked_at).0 in
      rw y (
        after_crash-Attempted (record_outcome b' key (Option.map message e) t.recorded_at) key e
          t.crashed_at t.now
          (outcome-Attempted b' key (Option.map message e) t.recorded_at t.now k))
