-- ===== src/Examples/Commands.antt =====
-- Remediation commands.
use nodepulse.Base.{◌≡◌, refl, ◌↔◌, ◌⊎◌, true, false, [], ◌∷◌, str_eq}
use nodepulse.Text.{is_empty, replace_char}
use nodepulse.Text.{trim_space, split_at, is_space}
use nodepulse.Command.{
  CommandError, not_allowed, needs_target, ok, err, is_allowed, parse_command, Plan, plan_command,
  command_key,
}
use nodepulse.Command.Grammar.{
  Accepts, command_line, parse_command_iff, plan_command_lem, parse_command-command_line,
}

parse_docker : parse_command "  restart_docker : my app:1 " ≡ ok ("restart_docker", "my app:1")
unfolding parse_command trim_space split_at is_space is_allowed str_eq
parse_docker = refl

parse_refused : parse_command "rm:/" ≡ err (not_allowed "rm")
unfolding parse_command trim_space split_at is_space is_allowed str_eq
parse_refused = refl

parse_no_target : parse_command "restart_docker:  " ≡ err (needs_target "restart_docker")
unfolding parse_command trim_space split_at is_space is_allowed str_eq
parse_no_target = refl

key_spaces : command_key " restart_docker:a\tb\r\n" ≡ "restart_docker:a b"
unfolding command_key trim_space is_space replace_char
key_spaces = refl

parse_command_iff_example :
    (parse_command "restart_systemd:nginx" ≡ ok ("restart_systemd", "nginx"))
    ↔ Accepts "restart_systemd:nginx" "restart_systemd" "nginx"
parse_command_iff_example = parse_command_iff "restart_systemd:nginx" "restart_systemd" "nginx"

plan_command_lem_example :
    ((e : CommandError) × (parse_command "rm:/" ≡ err e) × (plan_command "rm:/" ≡ err e))
    ⊎ ((plan : Plan) × (parse_command "rm:/" ≡ ok (plan.action, plan.target))
        × (plan_command "rm:/" ≡ ok plan)
        × (plan.args ≡ "restart" ∷ plan.target ∷ [])
        × (is_allowed plan.action ≡ true)
        × (is_empty plan.target ≡ false))
plan_command_lem_example = plan_command_lem "rm:/"

parse_command-command_line_example :
    parse_command (command_line "restart_docker" "my app:1") ≡ ok ("restart_docker", "my app:1")
unfolding is_allowed trim_space is_space str_eq
parse_command-command_line_example =
    parse_command-command_line "restart_docker" "my app:1" refl refl refl
