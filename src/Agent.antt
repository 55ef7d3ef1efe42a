-- ===== src/Agent.antt =====
-- cmd/agent/main.go: what the agent does with the commands of a heartbeat's answer.
pub mod Pinned
pub mod Spacing
pub mod Logs
use mathlib.Core.Option
use nodepulse.Base.{
  ℕ, zero, suc, ◌+◌, ◌-◌, ◌*◌, ◌/◌, ◌%◌, ◌^◌, ◌≤◌, ◌<◌, String, ◌≡◌, refl, sym, ap, ◌∙◌, ◌≢◌, ◌↔◌,
  ◌⊎◌, inl, inr, Bool, true, false, not, ◌&&◌, ◌||◌, Option, none, some, List, [], ◌∷◌, ◌++◌, map,
  arith, ltb, leb, ◌==◌, if◌then◌else◌, ltb→lt, lt→ltb, leb→le, ==_iff, str_eq, str_eq_iff,
  str_eq_refl, Bool-cases, Option-cases, length, length-append, All, All-append, All-map, update,
  update_self, update_ne,
}
use Prim.Native.Char.{Char}
use nodepulse.Base.Int.{ℤ, pos, negsuc}
use nodepulse.Breaker.{
  Strategy, Breaker, second, Result, allow, record_outcome, record_crash, new_breaker_with_strategy,
}
use nodepulse.Command.{Parsed, ok, err, parse_command, command_key}
use nodepulse.Text.{is_empty, split_at}
use nodepulse.Policy.{Strategy as ClassStrategy, classify, strategy_for}
use nodepulse.Heal.{ExecError, down, Outside, execute_command}

-- protocol.ServiceStatus, as the inventory of the last collection holds it.
pub record Service : Type 0 where
  pub name : String
  pub kind : String
  pub message : String
  pub labels : String → String

-- protocol.AutoHealLog.
pub record Log : Type 0 where
  pub command : String
  pub status : String
  pub reason : String
  pub error : String
  pub ts : ℕ
  pub retry_sec : ℤ
  pub class : String

-- The breakers and their classes by key, and the logs that are not flushed yet.
pub record Agent : Type 0 where
  pub breakers : String → Option Breaker
  pub classes : String → Option String
  pub pending : List Log

abbrev pub new_agent : Agent
new_agent = record { breakers = λ k. none; classes = λ k. none; pending = [] }

-- A command of an answer, with the inventory at that moment, the readings of the clock that the agent
-- makes, and what the execution finds outside.
pub record Turn : Type 0 where
  pub cmd : String
  pub services : List Service
  pub purged_at : ℕ
  pub now : ℕ
  pub asked_at : ℕ
  pub ts : ℕ
  pub outside : Outside
  pub recorded_at : ℕ
  pub crashed_at : ℕ

-- int64(d.Seconds()): whole seconds towards zero.
unfoldable pub whole_seconds : ℤ → ℤ
whole_seconds (pos n) = pos (n / second)
whole_seconds (negsuc n) = let s = suc n / second in if s == 0 then pos 0 else negsuc (s - 1)

unfoldable pub is_down : ExecError → Bool
is_down (down name state s) = true
is_down _ = false

-- `policy.Strategy` to `autoheal.Strategy`.
unfoldable pub breaker_strategy : ClassStrategy → Strategy
breaker_strategy s = record {
  cooldown = s.cooldown;
  burst_limit = s.burst_limit;
  burst_window = s.burst_window;
  open_for = s.open_for;
}

-- The pinned breaker of a key, and the cache with it.
unfoldable pub for_key : Agent → String → ClassStrategy → Agent × Breaker
unfolding breaker_strategy
for_key a key s = elim (a.breakers key) [
  | some b ↦ (a, b)
  | none ↦
      let b = new_breaker_with_strategy (breaker_strategy s) in
      (
        record a {
          breakers = update a.breakers key (some b);
          classes = update a.classes key (some s.class);
        },
        b,
      )
]

unfoldable pub outcome_status : Option ExecError → String
outcome_status none = "ok"
outcome_status (some e) = "failed"

unfoldable pub after_crash : Breaker → String → Option ExecError → ℕ → Breaker
after_crash b key none at = b
after_crash b key (some e) at = if is_down e then record_crash b key at else b

module _ (lower : Char → Char) (message : ExecError → String) where
  -- The first docker service of that name.
  class_of_docker : String → List Service → String
  class_of_docker target [] = "default"
  class_of_docker target (s ∷ ss) =
      let rest = class_of_docker target ss in
      if str_eq s.kind "docker" && str_eq s.name target
      then classify lower s.message s.name s.labels
      else rest

  class_of_target : String → List Service → Parsed (String × String) → String
  unfolding class_of_docker
  class_of_target cmd services (err e) = "default"
  class_of_target cmd services (ok (action, target)) =
      let first = (split_at ":" cmd).0 in
      if is_empty target
      then "default"
      else if str_eq first "restart_docker"
      then class_of_docker target services
      else if str_eq first "restart_systemd"
      then classify lower "" target (λ l. "")
      else "default"

  -- classifyCommandFunc: the action is the part before the first colon of the command as it came.
  unfoldable pub class_of : String → List Service → String
  unfolding class_of_target
  class_of cmd services = class_of_target cmd services (parse_command cmd)

  unfoldable pub error_text : Option ExecError → String
  error_text none = ""
  error_text (some e) = message e

  -- Recording what the execution gave.
  unfoldable pub settle : Agent → Breaker → Turn → String → String → Option ExecError → Agent
  unfolding error_text outcome_status after_crash
  settle a b t key class e = record a {
    breakers = update a.breakers key (
        some (
          after_crash (record_outcome b key (Option.map message e) t.recorded_at) key e
            t.crashed_at));
    pending =
        a.pending
        ++ record {
          command = key;
          status = outcome_status e;
          reason = "";
          error = error_text e;
          ts = t.ts;
          retry_sec = pos 0;
          class = class;
        }
          ∷ [];
  }

  unfoldable pub skip : Agent → Breaker → Turn → String → String → Result → Agent
  skip a b t key class d = record a {
    breakers = update a.breakers key (some b);
    pending =
        a.pending
        ++ record {
          command = key;
          status = "skipped";
          reason = d.reason;
          error = "";
          ts = t.ts;
          retry_sec = whole_seconds d.retry_after;
          class = class;
        }
          ∷ [];
  }

  -- Whether a command is executed.
  unfoldable pub admits : Agent → Turn → Bool
  unfolding for_key class_of
  admits a t =
      let key = command_key t.cmd in
      let breaker = (for_key a key (strategy_for (class_of t.cmd t.services))).1 in
      (allow breaker key t.purged_at t.now t.asked_at).1.allowed

  -- The body of the loop over the commands.
  unfoldable pub handle : Agent → Turn → Agent
  unfolding for_key skip settle class_of
  handle a t =
      let key = command_key t.cmd in
      let class = class_of t.cmd t.services in
      let (a', breaker) = for_key a key (strategy_for class) in
      let (b, decision) = allow breaker key t.purged_at t.now t.asked_at in
      if decision.allowed
      then settle a' b t key class (execute_command t.outside t.cmd)
      else skip a' b t key class decision

  unfoldable pub handle_all : Agent → List Turn → Agent
  unfolding handle
  handle_all a [] = a
  handle_all a (t ∷ ts) = handle_all (handle a t) ts

  -- flushLogs: the batch that is posted, if there is any. It is gone whether or not it arrives.
  unfoldable pub flush_logs : Agent → Agent × List Log
  flush_logs a = (record a { pending = [] }, a.pending)

  -- A round of the heartbeat loop behind the post of the heartbeat; no answer has no commands.
  unfoldable pub beat : Agent → List Turn → Agent × List Log
  unfolding handle_all flush_logs
  beat a ts = flush_logs (handle_all a ts)
