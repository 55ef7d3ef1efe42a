-- ===== src/Heal.antt =====
-- pkg/collector/autoheal.go: the executor of remediation commands, with the watch over a container
-- after its restart. Instants and durations are nanoseconds.
pub mod Watch
use nodepulse.Base.{
  ℕ, zero, suc, ◌+◌, ◌-◌, ◌*◌, ◌/◌, ◌%◌, ◌^◌, ◌≤◌, ◌<◌, String, ◌≡◌, refl, sym, ap, ◌∙◌, ◌≢◌, ◌↔◌,
  ◌⊎◌, inl, inr, Bool, true, false, not, ◌&&◌, ◌||◌, Option, none, some, List, [], ◌∷◌, ◌++◌, map,
  arith, ltb, leb, ◌==◌, if◌then◌else◌, ltb→lt, lt→ltb, leb→le, ==_iff, str_eq, str_eq_iff,
  str_eq_refl, Bool-cases, Option-cases, length, length-append, All, All-append, All-map, update,
  update_self, update_ne,
}
use nodepulse.Base.Int.{ℤ}
use nodepulse.Breaker.{second}
use nodepulse.Text.{is_empty, trim_space}
use nodepulse.Command.{CommandError, Parsed, ok, err, parse_command}

-- dockerStateSnapshot.
pub record Snapshot : Type 0 where
  pub status : String
  pub running : Bool
  pub restarting : Bool
  pub exit_code : ℤ
  pub error : String
  pub finished_at : String

-- What a round of the watch gets from the daemon: nothing that it can read, or a snapshot.
pub data Sample : Type 0 where
  unread : Sample
  read : Snapshot → Sample

-- The errors of ExecuteCommand. `down` is what wraps ErrPostRestartDown.
pub data ExecError : Type 0 where
  command : CommandError → ExecError
  unknown_action : String → ExecError
  name_required service_required : ExecError
  unreachable systemctl_failed : String → ExecError
  bad_status : ℕ → ExecError
  down : String → String → Snapshot → ExecError

-- The answer of the daemon to the restart: an error before or in the call, or a status.
pub data Answer : Type 0 where
  no_answer : String → Answer
  answered : ℕ → Answer

-- What is outside the process, for one command: the answer to the restart, the clock behind it, for
-- each round of the watch its sample and the time that the round takes without its pause, and the
-- failure of systemctl.
pub record Outside : Type 0 where
  pub restart : Answer
  pub started : ℕ
  pub sample : ℕ → Sample
  pub takes : ℕ → ℕ
  pub systemctl : Option String

abbrev pub post_restart_grace : ℕ
post_restart_grace = 5 * second

abbrev pub post_restart_poll : ℕ
post_restart_poll = 1 * second

unfoldable pub state_of : Snapshot → String
state_of s = let state = trim_space s.status in if is_empty state then "exited" else state

-- How the watch ends.
pub data Watched : Type 0 where
  healthy out_of_fuel : Watched
  died : Snapshot → Watched

-- Behind the loop: the last snapshot read.
unfoldable pub conclude : Option Snapshot → Watched
conclude none = healthy
conclude (some s) = if s.running then healthy else died s

-- The poll loop, with `clock` the reading that its test makes and `round` the number of rounds so far.
module _ (w : Outside) (deadline : ℕ) where
  unfoldable pub watch : ℕ → ℕ → ℕ → Option Snapshot → Watched
  unfolding conclude
  watch zero clock round last = out_of_fuel
  watch (suc fuel) clock round last =
      let next = clock + w.takes round + post_restart_poll in
      let idle = watch fuel next (suc round) last in
      elim (ltb clock deadline) [
        | false ↦ conclude last
        | true ↦ elim (w.sample round) [
          | unread ↦ idle
          | read s ↦
              let more = watch fuel next (suc round) (some s) in
              if s.restarting then healthy else if s.running then more else died s
        ]
      ]

-- Six rounds of at least a second pass the grace of five seconds.
abbrev pub watch_fuel : ℕ
watch_fuel = 6

watched_error : String → Watched → Option ExecError
watched_error name healthy = none
watched_error name out_of_fuel = none
watched_error name (died s) = some (down name (state_of s) s)

after_answer : Outside → String → Answer → Option ExecError
unfolding watched_error watch state_of
after_answer w name (no_answer e) = some (unreachable e)
after_answer w name (answered code) =
    if not (code == 204) && not (code == 200)
    then some (bad_status code)
    else watched_error name (watch w (w.started + post_restart_grace) watch_fuel w.started 0 none)

unfoldable pub restart_docker_container : Outside → String → Option ExecError
unfolding after_answer
restart_docker_container w name =
    if is_empty name then some name_required else after_answer w name w.restart

abbrev systemctl_error : Option String → Option ExecError
systemctl_error none = none
systemctl_error (some out) = some (systemctl_failed out)

unfoldable pub restart_systemd_service : Outside → String → Option ExecError
restart_systemd_service w service =
    if is_empty service then some service_required else systemctl_error w.systemctl

-- The `switch` of ExecuteCommand.
execute : Outside → Parsed (String × String) → Option ExecError
unfolding restart_docker_container restart_systemd_service
execute w (err e) = some (command e)
execute w (ok (action, target)) =
    if str_eq action "restart_docker"
    then restart_docker_container w target
    else if str_eq action "restart_systemd"
    then restart_systemd_service w target
    else some (unknown_action action)

unfoldable pub execute_command : Outside → String → Option ExecError
unfolding execute
execute_command w cmd = execute w (parse_command cmd)
