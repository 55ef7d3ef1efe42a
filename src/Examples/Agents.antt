-- ===== src/Examples/Agents.antt =====
-- An agent that restarts a container which dies again.
use nodepulse.Base.{
  ℕ, zero, suc, ◌+◌, ◌*◌, ◌/◌, String, ◌≡◌, refl, ◌≢◌, ◌↔◌, true, false, none, some, List, [], ◌∷◌,
  ◌++◌, map, arith,
}
use nodepulse.Base.Int.{pos}
use Prim.Native.Char.{Char}
use nodepulse.Breaker.{second, allow, new_breaker_with_strategy}
use nodepulse.Text.{is_empty, trim_space, is_space, replace_char}
use nodepulse.Command.{command_key}
use nodepulse.Heal.{
  Snapshot, Sample, unread, read, Outside, answered, ExecError, down, state_of,
  restart_docker_container, post_restart_grace, watch, watch_fuel, out_of_fuel,
}
use nodepulse.Heal.Watch.{Dies, restart_down_iff, Accepts, watch_ends}
use nodepulse.Agent.{Turn, new_agent, admits, handle_all, beat}
use nodepulse.Agent.Spacing.{admits_spacing}
use nodepulse.Agent.Logs.{told, fates, beat-told}

abbrev running : Snapshot
running = record {
  status = "running";
  running = true;
  restarting = false;
  exit_code = pos 0;
  error = "";
  finished_at = "";
}

abbrev exited : Snapshot
exited = record running { status = "exited"; running = false; exit_code = pos 1 }

-- The third round reads that the container is gone.
abbrev samples : ℕ → Sample
samples zero = unread
samples (suc zero) = read running
samples (suc (suc n)) = read exited

abbrev flapping : Outside
flapping = record {
  restart = answered 204;
  started = 100 * second;
  sample = samples;
  takes = λ r. 1000;
  systemctl = none;
}

restart_down_iff_example :
    (restart_docker_container flapping "db" ≡ some (down "db" (state_of exited) exited)) ↔ (
      (is_empty "db" ≡ false)
      × Accepts (answered 204)
      × Dies flapping (100 * second + post_restart_grace) exited (100 * second) 0)
restart_down_iff_example = restart_down_iff flapping "db" exited

abbrev keep : Char → Char
keep c = c

abbrev text : ExecError → String
text e = "error"

abbrev turn : String → ℕ → Turn
turn cmd now = record {
  cmd = cmd;
  services = [];
  purged_at = now;
  now = now;
  asked_at = now;
  ts = now / second;
  outside = flapping;
  recorded_at = now + 10;
  crashed_at = now + 20;
}

abbrev first : Turn
first = turn "restart_docker:db" (200 * second)

abbrev others : List Turn
others = turn "restart_docker:web" (201 * second) ∷ turn " restart_docker:db" (202 * second) ∷ []

abbrev again : Turn
again = turn "restart_docker:db\n" (210 * second)

first_admitted : admits keep text (handle_all keep text new_agent []) first ≡ true
unfolding admits handle_all allow new_breaker_with_strategy
first_admitted = refl

same_key : command_key again.cmd ≡ command_key first.cmd
unfolding command_key trim_space is_space replace_char
same_key = refl

admits_spacing_example :
    admits keep text
      (handle_all keep text (handle_all keep text new_agent []) (first ∷ others))
      again
    ≡ false
admits_spacing_example =
    admits_spacing keep text [] first others again first_admitted (omega arith) same_key
      (omega arith)

beat-told_example :
    let (a, batch) = beat keep text new_agent (first ∷ others) in
    (a.pending ≡ []) × (map told batch ≡ [] ++ fates keep text new_agent (first ∷ others))
beat-told_example = beat-told keep text new_agent (first ∷ others)

watch_ends_example :
    watch flapping (100 * second + post_restart_grace) watch_fuel (100 * second) 0 none
    ≢ out_of_fuel
watch_ends_example = watch_ends flapping
