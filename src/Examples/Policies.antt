-- ===== src/Examples/Policies.antt =====
-- Classes and delays.
use nodepulse.Base.{
  ◌+◌, ◌*◌, ◌≤◌, String, ◌≡◌, refl, ◌==◌, if◌then◌else◌, str_eq, ℕ, ◌<◌, false, leb,
}
use Prim.Native.Char.{Char, code}
use nodepulse.Base.Int.{pos, negsuc, pos_part}
use nodepulse.Text.{trim_space, is_space, contains, to_lower}
use nodepulse.Policy.{classify, strategy_for, next_delay, should_escalate}
use nodepulse.Policy.Classes.{IsNamed, classify-strategy_for}
use nodepulse.Policy.Delays.{curve, should_escalate_onset, next_delay_lem}

-- A mapping that lowers two letters.
abbrev lower : Char → Char
lower c = if code c == b'P' then "p" else if code c == b'D' then "d" else c

abbrev no_labels : String → String
no_labels _ = ""

abbrev label : String → String
label _ = " Db "

hinted_run : classify lower "Postgres:16" "cache-redis" no_labels ≡ "db"
unfolding classify trim_space is_space contains to_lower str_eq
hinted_run = refl

labelled_run : classify lower "nginx" "web" label ≡ "db"
unfolding classify trim_space is_space contains to_lower str_eq
labelled_run = refl

classify-strategy_for_example :
    let class = classify lower "Postgres:16" "cache-redis" no_labels in
    IsNamed class × ((strategy_for class).class ≡ class)
classify-strategy_for_example = classify-strategy_for lower "Postgres:16" "cache-redis" no_labels

should_escalate_onset_example :
    let s = strategy_for "db" in
    (onset : ℕ) × (0 < onset)
    × (onset ≤ pos_part s.burst_limit)
    × (pos_part s.burst_limit ≤ pos_part s.max_attempts)
    × ((n : ℕ) → should_escalate s (pos n) ≡ leb onset n)
    × ((n : ℕ) → should_escalate s (negsuc n) ≡ false)
should_escalate_onset_example = should_escalate_onset "db"

next_delay_lem_example :
    let s = strategy_for "db" in
    let k = pos_part s.cooldown in
    (next_delay s (negsuc 3) ≡ pos 0)
    × (next_delay s (pos 3) ≡ pos (curve k 3))
    × (curve k 3 ≤ curve k (3 + 2))
    × (curve k 3 ≤ k * 8)
next_delay_lem_example = next_delay_lem "db" 3 2
