-- ===== src/Breaker.antt =====
-- pkg/autoheal/cooldown.go: the breaker that gates remediation actions, keyed by target.
pub mod Frame
pub mod Ledger
pub mod Refine
pub mod History
pub mod Gate
pub mod Spacing
pub mod Bounds
use nodepulse.Base.{
  ℕ, ◌+◌, ◌-◌, String, Bool, true, false, ◌&&◌, Option, none, some, List, [], ◌∷◌, ◌++◌, ltb, leb,
  if◌then◌else◌, length, update, ◌*◌,
}
use nodepulse.Base.Int.{ℤ, pos, pos_part, sub_ℕ, is_pos}
use nodepulse.Window.{recent}

-- Durations are nanoseconds.
abbrev pub second : ℕ
second = 1000000000

pub record Strategy : Type 0 where
  pub cooldown : ℤ
  pub burst_limit : ℤ
  pub burst_window : ℤ
  pub open_for : ℤ

abbrev pub default_strategy : Strategy
default_strategy = record {
  cooldown = pos (60 * second);
  burst_limit = pos 5;
  burst_window = pos (600 * second);
  open_for = pos (300 * second);
}

pub record Breaker : Type 0 where
  pub cooldown : ℕ
  pub burst_window : ℕ
  pub burst_limit : ℕ
  pub open_for : ℕ
  pub last_attempt : String → Option ℕ
  pub attempts : String → List ℕ
  pub failures : String → List ℕ
  pub crashes : String → List ℕ
  pub opens_at : String → Option ℕ

unfoldable pub is_complete : Strategy → Bool
is_complete s =
    is_pos s.cooldown && is_pos s.burst_limit && is_pos s.burst_window && is_pos s.open_for

build : Strategy → Breaker
build s = record {
  cooldown = pos_part s.cooldown;
  burst_window = pos_part s.burst_window;
  burst_limit = pos_part s.burst_limit;
  open_for = pos_part s.open_for;
  last_attempt = λ _. none;
  attempts = λ _. [];
  failures = λ _. [];
  crashes = λ _. [];
  opens_at = λ _. none;
}

unfoldable pub new_breaker_with_strategy : Strategy → Breaker
unfolding build is_complete
new_breaker_with_strategy s = build (if is_complete s then s else default_strategy)

unfoldable pub new_breaker : Breaker
unfolding new_breaker_with_strategy
new_breaker = new_breaker_with_strategy default_strategy

unfoldable pub strategy : Breaker → Strategy
strategy b = record {
  cooldown = pos b.cooldown;
  burst_limit = pos b.burst_limit;
  burst_window = pos b.burst_window;
  open_for = pos b.open_for;
}

-- `opened_at` is `none` for the zero time.
pub record Result : Type 0 where
  pub allowed : Bool
  pub target : String
  pub reason : String
  pub opened_at : Option ℕ
  pub retry_after : ℤ

unfoldable pub purge_locked : Breaker → String → ℕ → Breaker
purge_locked b key now = record b {
  attempts = update b.attempts key (recent now b.burst_window (b.attempts key));
  failures = update b.failures key (recent now b.burst_window (b.failures key));
  crashes = update b.crashes key (recent now b.burst_window (b.crashes key));
}

admit : Breaker → String → ℕ → Breaker × Result
admit b key now = (
  record b { last_attempt = update b.last_attempt key (some now) },
  record { allowed = true; target = key; reason = "ok"; opened_at = none; retry_after = pos 0 },
)

-- The cooldown gate of `Allow`: `b.cooldown - now.Sub(last) > 0` is `now < last + b.cooldown`.
cooldown_gate : Breaker → String → ℕ → Option ℕ → Breaker × Result
unfolding admit
cooldown_gate b key now none = admit b key now
cooldown_gate b key now (some last) =
    if ltb now (last + b.cooldown)
    then (
      b,
      record {
        allowed = false;
        target = key;
        reason = "cooldown";
        opened_at = none;
        retry_after = pos (last + b.cooldown - now);
      },
    )
    else admit b key now

-- The circuit gate of `Allow`. A deadline is `open_for` after some instant, so `until - b.open_for`
-- is exact. An expired deadline is deleted.
circuit_gate : Breaker → String → ℕ → ℕ → Option ℕ → Breaker × Result
unfolding cooldown_gate
circuit_gate b key now asked_at none = cooldown_gate b key now (b.last_attempt key)
circuit_gate b key now asked_at (some until) =
    if ltb now until
    then (
      b,
      record {
        allowed = false;
        target = key;
        reason = "circuit_open";
        opened_at = some (until - b.open_for);
        retry_after = sub_ℕ until asked_at;
      },
    )
    else cooldown_gate (record b { opens_at = update b.opens_at key none }) key now
        (b.last_attempt key)

-- `Allow` reads the clock up to three times: in `purgeLocked`, for `now`, and in `time.Until`.
unfoldable pub allow : Breaker → String → ℕ → ℕ → ℕ → Breaker × Result
unfolding circuit_gate purge_locked
allow b key purged_at now asked_at =
    let p = purge_locked b key purged_at in circuit_gate p key now asked_at (p.opens_at key)

unfoldable pub record_crash : Breaker → String → ℕ → Breaker
record_crash b key now =
    let window = recent now b.burst_window (b.crashes key) ++ now ∷ [] in
    if leb b.burst_limit (length window)
    then record b {
      crashes = update b.crashes key [];
      opens_at = update b.opens_at key (some (now + b.open_for));
    }
    else record b { crashes = update b.crashes key window }

-- `failures = append(failures, now)` when `err != nil`.
abbrev pub with_failure : Option String → List ℕ → ℕ → List ℕ
with_failure none failures now = failures
with_failure (some err) failures now = failures ++ now ∷ []

unfoldable pub record_outcome : Breaker → String → Option String → ℕ → Breaker
record_outcome b key err now =
    let out = recent now b.burst_window (with_failure err (b.failures key) now) in
    let window = recent now b.burst_window (b.attempts key) ++ now ∷ [] in
    if leb b.burst_limit (length out)
    then record b {
      last_attempt = update b.last_attempt key (some now);
      attempts = update b.attempts key [];
      failures = update b.failures key [];
      opens_at = update b.opens_at key (some (now + b.open_for));
    }
    else record b {
      last_attempt = update b.last_attempt key (some now);
      attempts = update b.attempts key window;
      failures = update b.failures key out;
    }

-- One call of the breaker by an agent, with the readings of the clock that it makes.
pub data Call : Type 0 where
  allows : String → ℕ → ℕ → ℕ → Call
  records : String → Option String → ℕ → Call
  record_crashes : String → ℕ → Call

unfoldable pub step : Breaker → Call → Breaker
step b (allows key purged_at now asked_at) = (allow b key purged_at now asked_at).0
step b (records key err now) = record_outcome b key err now
step b (record_crashes key now) = record_crash b key now
