-- ===== src/Command.antt =====
-- pkg/collector/autoheal_plan.go: the grammar of remediation commands and the dry-run plan; and
-- `Key` of pkg/autoheal/cooldown.go, the breaker's name for a command.
pub mod Grammar
use nodepulse.Base.{
  ℕ, zero, suc, ◌+◌, ◌-◌, ◌*◌, ◌/◌, ◌%◌, ◌≤◌, ◌<◌, String, ◌≡◌, refl, sym, ap, ◌∙◌, ◌≢◌, ◌↔◌, ◌⊎◌,
  inl, inr, Bool, true, false, not, ◌&&◌, ◌||◌, Option, none, some, List, [], ◌∷◌, ◌++◌, map, arith,
  ltb, leb, ◌==◌, if◌then◌else◌, ltb→lt, lt→ltb, leb→le, ==_iff, str_eq, str_eq_iff, str_eq_refl,
  Bool-cases, Option-cases, length, length-append, All, All-append, All-map, update, update_self,
  update_ne,
}
use Prim.Native.String.{◌++◌ as join}
use nodepulse.Text.{is_empty, trim_space, split_at, replace_char}

-- The errors of `ParseCommand` and of the fall-through of `PlanCommand`, by their messages.
pub data CommandError : Type 0 where
  empty_command missing_action : CommandError
  not_allowed needs_target : String → CommandError

pub data Parsed {ℓ} (A : Type ℓ) : Type ℓ where
  ok : A → Parsed A
  err : CommandError → Parsed A

infixl 5 ◌>>=◌ ◌>>◌
abbrev pub ◌>>=◌ {ℓ κ} : {A : Type ℓ} {B : Type κ} → Parsed A → (A → Parsed B) → Parsed B
ok a >>= f = f a
err e >>= f = err e

abbrev pub ◌>>◌ {ℓ} : {B : Type ℓ} → Parsed (Unit {0}) → Parsed B → Parsed B
m >> k = m >>= λ _. k

abbrev pub fail_if : Bool → CommandError → Parsed (Unit {0})
fail_if true e = err e
fail_if false e = ok tt

-- The keys of the map `AllowedActions`.
unfoldable pub is_allowed : String → Bool
is_allowed action = str_eq action "restart_docker" || str_eq action "restart_systemd"

-- `parts[1]`, trimmed; the empty text where there is no colon.
abbrev pub target_part : Option String → String
target_part none = ""
target_part (some part) = trim_space part

unfoldable pub parse_command : String → Parsed (String × String)
parse_command cmd = do
  let line = trim_space cmd
  fail_if (is_empty line) empty_command
  let parts = split_at ":" line
  let action = trim_space parts.0
  fail_if (is_empty action) missing_action
  fail_if (not (is_allowed action)) (not_allowed action)
  let target = target_part parts.1
  fail_if (is_empty target) (needs_target action)
  ok (action, target)

pub record Plan : Type 0 where
  pub action : String
  pub target : String
  pub caller : String
  pub args : List String
  pub reason : String

-- The `switch` of `PlanCommand` and the error behind it.
plan_for : String → String → Parsed Plan
plan_for action target =
    if str_eq action "restart_docker"
    then ok (record {
      action = action;
      target = target;
      caller = "docker";
      args = "restart" ∷ target ∷ [];
      reason = join "POST /containers/" (join target "/restart via docker.sock");
    })
    else if str_eq action "restart_systemd"
    then ok (record {
      action = action;
      target = target;
      caller = "systemctl";
      args = "restart" ∷ target ∷ [];
      reason = join "systemctl restart " (join target " (5s timeout)");
    })
    else err (not_allowed action)

unfoldable pub plan_command : String → Parsed Plan
unfolding plan_for
plan_command cmd = do (action, target) ← parse_command cmd; plan_for action target

-- autoheal.Key.
unfoldable pub command_key : String → String
command_key cmd =
    replace_char "\t" (some " ")
      (replace_char "\n" (some " ") (replace_char "\r" none (trim_space cmd)))
