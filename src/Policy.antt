-- ===== src/Policy.antt =====
-- pkg/policy/policy.go: the remediation class of a service and the strategy of a class. A class is
-- its text, as in the source; `unicode.ToLower` is the parameter `lower`.
pub mod Classes
pub mod Delays
use nodepulse.Base.{
  ℕ, zero, suc, ◌+◌, ◌-◌, ◌*◌, ◌/◌, ◌%◌, ◌≤◌, ◌<◌, String, ◌≡◌, refl, sym, ap, ◌∙◌, ◌≢◌, ◌↔◌, ◌⊎◌,
  inl, inr, Bool, true, false, not, ◌&&◌, ◌||◌, Option, none, some, List, [], ◌∷◌, ◌++◌, map, arith,
  ltb, leb, ◌==◌, if◌then◌else◌, ltb→lt, lt→ltb, leb→le, ==_iff, str_eq, str_eq_iff, str_eq_refl,
  Bool-cases, Option-cases, length, length-append, All, All-append, All-map, update, update_self,
  update_ne, ◌^◌,
}
use Prim.Native.Char.{Char}
use nodepulse.Base.Int.{leb_ℤ, ℤ, pos, negsuc}
use nodepulse.Text.{is_empty, trim_space, contains, to_lower}

abbrev pub second : ℕ
second = 1000000000

pub record Strategy : Type 0 where
  pub class : String
  pub cooldown : ℤ
  pub burst_limit : ℤ
  pub burst_window : ℤ
  pub open_for : ℤ
  pub max_attempts : ℤ
  pub escalate_after : ℤ

abbrev pub default_class_strategy : Strategy
default_class_strategy = record {
  class = "default";
  cooldown = pos (60 * second);
  burst_limit = pos 5;
  burst_window = pos (600 * second);
  open_for = pos (300 * second);
  max_attempts = pos 8;
  escalate_after = pos 4;
}

-- The map `strategies`.
unfoldable pub strategies : List (String × Strategy)
strategies =
    ("default", default_class_strategy)
    ∷ (
      "stateless",
      record {
        class = "stateless";
        cooldown = pos (15 * second);
        burst_limit = pos 6;
        burst_window = pos (600 * second);
        open_for = pos (180 * second);
        max_attempts = pos 10;
        escalate_after = pos 6;
      },
    )
    ∷ (
      "cache",
      record {
        class = "cache";
        cooldown = pos (30 * second);
        burst_limit = pos 4;
        burst_window = pos (600 * second);
        open_for = pos (300 * second);
        max_attempts = pos 6;
        escalate_after = pos 3;
      },
    )
    ∷ (
      "db",
      record {
        class = "db";
        cooldown = pos (120 * second);
        burst_limit = pos 3;
        burst_window = pos (900 * second);
        open_for = pos (900 * second);
        max_attempts = pos 4;
        escalate_after = pos 2;
      },
    )
    ∷ (
      "critical",
      record {
        class = "critical";
        cooldown = pos (300 * second);
        burst_limit = pos 2;
        burst_window = pos (1800 * second);
        open_for = pos (1800 * second);
        max_attempts = pos 2;
        escalate_after = pos 1;
      },
    )
    ∷ []

unfoldable pub image_hints : List (String × String)
image_hints =
    ("postgres", "db")
    ∷ ("postgresql", "db")
    ∷ ("mariadb", "db")
    ∷ ("mysql", "db")
    ∷ ("mongo", "db")
    ∷ ("cockroach", "db")
    ∷ ("tidb", "db")
    ∷ ("yugabyte", "db")
    ∷ ("clickhouse", "db")
    ∷ ("redis", "cache")
    ∷ ("keydb", "cache")
    ∷ ("memcached", "cache")
    ∷ ("dragonfly", "cache")
    ∷ ("valkey", "cache")
    ∷ ("nginx", "stateless")
    ∷ ("caddy", "stateless")
    ∷ ("traefik", "stateless")
    ∷ ("envoy", "stateless")
    ∷ ("haproxy", "stateless")
    ∷ ("caddy", "stateless")
    ∷ []

unfoldable pub name_hints : List (String × String)
name_hints =
    ("postgres", "db")
    ∷ ("postgresql", "db")
    ∷ ("mariadb", "db")
    ∷ ("mysql", "db")
    ∷ ("mongo", "db")
    ∷ ("redis", "cache")
    ∷ ("memcached", "cache")
    ∷ ("keydb", "cache")
    ∷ ("valkey", "cache")
    ∷ ("nginx", "stateless")
    ∷ ("caddy", "stateless")
    ∷ ("traefik", "stateless")
    ∷ []

-- The first hint whose text is contained in `text`.
unfoldable pub first_hint : String → List (String × String) → Option String
first_hint text [] = none
first_hint text ((part, class) ∷ hints) =
    let rest = first_hint text hints in if contains part text then some class else rest

-- The `switch` on the label.
unfoldable pub is_class : String → Bool
is_class v =
    str_eq v "default"
    || str_eq v "stateless"
    || str_eq v "cache"
    || str_eq v "db"
    || str_eq v "critical"

abbrev pub or_else : Option String → String → String
or_else none v = v
or_else (some u) v = u

unfoldable pub by_hints : (Char → Char) → String → String → String
unfolding first_hint image_hints name_hints
by_hints lower image name =
    or_else (first_hint (to_lower lower image) image_hints)
      (or_else (first_hint (to_lower lower name) name_hints) "default")

-- A nil label map reads as the empty text at every label, which `v != ""` passes over.
unfoldable pub classify : (Char → Char) → String → String → (String → String) → String
unfolding by_hints is_class
classify lower image name labels =
    let v = to_lower lower (trim_space (labels "policy.nodepulse/class")) in
    if not (is_empty v) && is_class v then v else by_hints lower image name

-- A read of the map `strategies` with `ok`.
unfoldable pub lookup : String → List (String × Strategy) → Option Strategy
lookup class [] = none
lookup class ((c, s) ∷ rest) = if str_eq c class then some s else lookup class rest

abbrev pub or_default : Option Strategy → Strategy
or_default none = default_class_strategy
or_default (some s) = s

unfoldable pub strategy_for : String → Strategy
unfolding lookup strategies
strategy_for class = or_default (lookup class strategies)

-- A signed 64-bit result: the residue modulo 2^64, read as a two's complement number.
unfoldable pub to_i64 : ℕ → ℤ
to_i64 m = let r = m % 2 ^ 64 in if ltb r (2 ^ 63) then pos r else negsuc (2 ^ 64 - r - 1)

-- time.Duration times a small positive number, wrapping as int64 does.
unfoldable pub scale : ℤ → ℕ → ℤ
unfolding to_i64
scale (pos n) k = to_i64 (n * k)
scale (negsuc n) k = to_i64 (2 ^ 64 - (suc n * k) % 2 ^ 64)

unfoldable pub next_delay : Strategy → ℤ → ℤ
unfolding scale
next_delay s (negsuc n) = pos 0
next_delay s (pos n) =
    if n == 0 then pos 0 else if ltb 4 n then scale s.cooldown 8 else scale s.cooldown (2 ^ (n - 1))

unfoldable pub should_escalate : Strategy → ℤ → Bool
should_escalate s failures = leb_ℤ s.escalate_after failures && not (leb_ℤ s.escalate_after (pos 0))
