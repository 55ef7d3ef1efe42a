-- ===== src/Command/Grammar.antt =====
-- What the parser of remediation commands accepts, and what the plan of an accepted one is.
use nodepulse.Base.{
  String, ◌≡◌, refl, ◌∙◌, ◌↔◌, ◌⊎◌, inl, inr, Bool, true, false, ◌||◌, Option, none, some, [], ◌∷◌,
  arith, ◌==◌, str_eq, str_eq_iff, Bool-cases,
}
use Prim.Native.Char.{Char, code}
use Prim.Native.String.{◌++◌ as join}
use text.Mathlib.TextLemmas.{cons-append, nil-append}
use nodepulse.Text.{
  trim_space_of_bare, is_empty, trim_space, split_at, starts_spaced, ends_spaced, trim_space_bare,
  trim_space_idem, is_space,
}
use nodepulse.Command.{
  CommandError, Parsed, ok, err, is_allowed, target_part, parse_command, Plan, plan_for,
  plan_command,
}

-- A command is accepted with `action` and `target` exactly when its trimmed text, split at the
-- first colon, has the allowed `action` before the colon and the nonempty `target` behind it, both
-- up to space.
abbrev pub Accepts : String → String → String → Type 0
Accepts cmd action target =
    let parts = split_at ":" (trim_space cmd) in
    (trim_space parts.0 ≡ action)
    × (target_part parts.1 ≡ target)
    × (is_allowed action ≡ true)
    × (is_empty target ≡ false)

nonempty_allowed : (s : String) → is_allowed s ≡ true → is_empty s ≡ false
unfolding is_allowed str_eq
nonempty_allowed String.[] h = cc
nonempty_allowed (String.◌∷◌ c s) h = refl

parse-Accepts :
    (cmd action target : String)
    → parse_command cmd ≡ ok (action, target)
    → Accepts cmd action target
unfolding parse_command
parse-Accepts cmd action target h = ground arith

split_line :
    (line : String) → is_empty (target_part (split_at ":" line).1) ≡ false → is_empty line ≡ false
unfolding split_at trim_space
split_line String.[] h = cc
split_line (String.◌∷◌ c s) h = refl

Accepts-parse :
    (cmd action target : String)
    → Accepts cmd action target
    → parse_command cmd ≡ ok (action, target)
unfolding parse_command
Accepts-parse cmd action target h = ground (
  arith,
  split_line (trim_space cmd),
  nonempty_allowed (trim_space (split_at ":" (trim_space cmd)).0),
)

-- The parser accepts a command with an action and a target exactly when, in the trimmed text split
-- at its first colon, the trimmed part before is the action and is allowed, and the trimmed part
-- behind is the target and is not empty.
pub parse_command_iff :
    (cmd action target : String)
    → (parse_command cmd ≡ ok (action, target)) ↔ Accepts cmd action target
parse_command_iff cmd action target =
    (parse-Accepts cmd action target, Accepts-parse cmd action target)

plan_for_allowed :
    (action target : String)
    → is_allowed action ≡ true
    → (plan : Plan) × (plan_for action target ≡ ok plan)
      × (plan.action ≡ action)
      × (plan.target ≡ target)
      × (plan.args ≡ "restart" ∷ target ∷ [])
unfolding plan_for is_allowed
plan_for_allowed action target h = elim (Bool-cases (str_eq action "restart_docker")) [
  | inl d ↦ rw d (_, refl, refl, refl, refl)
  | inr d ↦ elim (Bool-cases (str_eq action "restart_systemd")) [
    | inl s ↦ rw (d, s) (_, refl, refl, refl, refl)
    | inr s ↦ absurd (ground arith)
  ]
]

-- The plan of a command succeeds exactly when the command parses, with the same error if not: its
-- own last error is never reached. It names the parsed action and target, and the argument vector is
-- "restart" and the target, whatever characters the target has.
pub plan_command_lem :
    (cmd : String)
    → ((e : CommandError) × (parse_command cmd ≡ err e) × (plan_command cmd ≡ err e))
      ⊎ ((plan : Plan) × (parse_command cmd ≡ ok (plan.action, plan.target))
          × (plan_command cmd ≡ ok plan)
          × (plan.args ≡ "restart" ∷ plan.target ∷ [])
          × (is_allowed plan.action ≡ true)
          × (is_empty plan.target ≡ false))
unfolding plan_command
plan_command_lem cmd = plan_of (parse_command cmd) refl
  where
    plan_of :
        (r : Parsed (String × String))
        → parse_command cmd ≡ r
        → ((e : CommandError) × (parse_command cmd ≡ err e) × (plan_command cmd ≡ err e))
          ⊎ ((plan : Plan) × (parse_command cmd ≡ ok (plan.action, plan.target))
              × (plan_command cmd ≡ ok plan)
              × (plan.args ≡ "restart" ∷ plan.target ∷ [])
              × (is_allowed plan.action ≡ true)
              × (is_empty plan.target ≡ false))
    plan_of (err e) h = inl (e, h, rw (h, plan_command))
    plan_of (ok (action, target)) h =
        let a = parse-Accepts cmd action target h in
        let (plan, made, same, there, argv) = plan_for_allowed action target a.2 in
        inr (
          plan,
          rw (same, there) h,
          rw (h, plan_command) made,
          rw there argv,
          rw same a.2,
          rw there a.3,
        )

-- Whether a text has a colon.
abbrev pub has_colon : String → Bool
has_colon String.[] = false
has_colon (String.◌∷◌ c s) = (code c == code ":") || has_colon s

split_at-join :
    (s t : String) → has_colon s ≡ false → split_at ":" (join s (String.◌∷◌ ":" t)) ≡ (s, some t)
unfolding split_at
split_at-join String.[] t h = rw nil-append
split_at-join (String.◌∷◌ c s) t h = rw cons-append (ground (arith, split_at-join s t))

ends_spaced-cons :
    (c : Char) (s : String) → is_empty s ≡ false → ends_spaced (String.◌∷◌ c s) ≡ ends_spaced s
ends_spaced-cons c s h = rw h

nonempty_join : (s t : String) → is_empty t ≡ false → is_empty (join s t) ≡ false
nonempty_join String.[] t h = rw nil-append h
nonempty_join (String.◌∷◌ c s) t h = rw cons-append

ends_spaced-join : (s t : String) → is_empty t ≡ false → ends_spaced (join s t) ≡ ends_spaced t
ends_spaced-join String.[] t h = rw nil-append
ends_spaced-join (String.◌∷◌ c s) t h =
    rw cons-append (ends_spaced-cons c (join s t) (nonempty_join s t h) ∙ ends_spaced-join s t h)

-- The text `action:target`.
unfoldable pub command_line : String → String → String
command_line action target = join action (String.◌∷◌ ":" target)

action_facts :
    (action target : String)
    → is_allowed action ≡ true
    → (has_colon action ≡ false)
      × (trim_space action ≡ action)
      × (starts_spaced (command_line action target) ≡ false)
unfolding command_line is_allowed trim_space is_space
action_facts action target h = elim (Bool-cases (str_eq action "restart_docker")) [
  | inl d ↦ rw ((str_eq_iff _ _).0 d) (refl, refl, rw cons-append)
  | inr d ↦
      let s : str_eq action "restart_systemd" ≡ true = ground arith in
      rw ((str_eq_iff _ _).0 s) (refl, refl, rw cons-append)
]

bare_ends : (s : String) → trim_space s ≡ s → ends_spaced s ≡ false
bare_ends s h = rw h at ((trim_space_bare s).1)

bare_line :
    (action target : String)
    → is_allowed action ≡ true
    → is_empty target ≡ false
    → trim_space target ≡ target
    → trim_space (command_line action target) ≡ command_line action target
unfolding command_line
bare_line action target h full bare = trim_space_of_bare _ (action_facts action target h).2 (
    ends_spaced-join action (String.◌∷◌ ":" target) refl
    ∙ ends_spaced-cons ":" target full
    ∙ bare_ends target bare)

-- An allowed action and a nonempty target with no space at its ends, joined by a colon, parse back
-- to that action and target, whatever colons and spaces the target has inside.
pub parse_command-command_line :
    (action target : String)
    → is_allowed action ≡ true
    → is_empty target ≡ false
    → trim_space target ≡ target
    → parse_command (command_line action target) ≡ ok (action, target)
unfolding command_line
parse_command-command_line action target h full bare =
    let parts = split_at-join action target (action_facts action target h).0 in
    Accepts-parse (command_line action target) action target (
      rw (bare_line action target h full bare, parts)
        ((action_facts action target h).1, bare, h, full))

target_part_idem : (part : Option String) → trim_space (target_part part) ≡ target_part part
unfolding trim_space
target_part_idem none = refl
target_part_idem (some part) = trim_space_idem part

-- What the parser accepts has a normal form, `action:target`, which it accepts with the same result.
pub parse_command_normal :
    (cmd action target : String)
    → parse_command cmd ≡ ok (action, target)
    → parse_command (command_line action target) ≡ ok (action, target)
parse_command_normal cmd action target h =
    let a = parse-Accepts cmd action target h in
    parse_command-command_line action target a.2 a.3
      (rw (← a.1) (target_part_idem (split_at ":" (trim_space cmd)).1))
