-- ===== src/Examples/Uptimes.antt =====
-- A node that is away for half a day.
use nodepulse.Base.{
  ℕ, ◌*◌, ◌/◌, String, ◌≡◌, refl, some, List, [], ◌∷◌, arith, str_eq, length, none,
}
use nodepulse.Base.Int.{pos}
use nodepulse.Breaker.{second}
use nodepulse.Uptime.{
  Uptime, UptimeSummary, UptimeDayBucket, new_uptime, node_uptime, node_uptime_daily,
  record_heartbeat, credit_gap, upsert_uptime, add_secs, sum_where, clamp_days, percent, buckets,
  bucket, by_day_from,
}
use nodepulse.Uptime.Even.{record_all}
use nodepulse.Uptime.Online.{online_secs, record_all_online}
use nodepulse.Uptime.Keys.{IsKeyed}
use nodepulse.Uptime.Days.{daily_adds_up, total_of, up_of}

-- Percents in whole numbers.
abbrev whole_pct : ℕ → ℕ → ℕ
whole_pct up total = up * 100 / total

abbrev beats : List (String × ℕ)
beats =
    ("n1", 86000 * second)
    ∷ ("n1", 86030 * second)
    ∷ ("n1", 129000 * second)
    ∷ ("n1", 129010 * second)
    ∷ []

abbrev noon : ℕ
noon = 129600 * second

abbrev answer : UptimeSummary ℕ
answer = record { node_id = "n1"; days = 2; total_secs = 40; up_secs = 40; uptime_pct = 100 }

answered :
    (node_uptime whole_pct 0 (record_all (new_uptime []) beats) "n1" (pos 2) noon).1 ≡ some answer
unfolding node_uptime record_all record_heartbeat credit_gap upsert_uptime add_secs sum_where
    clamp_days percent str_eq
answered = refl

record_all_online_example :
    (answer.up_secs ≡ online_secs "n1" (noon / 86_400_000_000_000) answer.days none beats)
    × (answer.total_secs ≡ online_secs "n1" (noon / 86_400_000_000_000) answer.days none beats)
record_all_online_example = record_all_online whole_pct 0 beats "n1" (pos 2) noon answer answered

-- The half of a day away is in no sum.
forty : online_secs "n1" 1 2 none beats ≡ 40
unfolding online_secs str_eq
forty = refl

abbrev days : List (UptimeDayBucket ℕ)
days =
    record { day = pos 0; total_secs = 30; up_secs = 30; uptime_pct = 100 }
    ∷ record { day = pos 1; total_secs = 10; up_secs = 10; uptime_pct = 100 }
    ∷ []

abbrev stored : Uptime
stored = record (new_uptime []) {
  rows =
      record { node_id = "n1"; day = 0; total_secs = 30; up_secs = 30 }
      ∷ record { node_id = "n1"; day = 1; total_secs = 10; up_secs = 10 }
      ∷ [];
}

daily_adds_up_example :
    (length days ≡ answer.days)
    × (total_of days ≡ answer.total_secs)
    × (up_of days ≡ answer.up_secs)
unfolding node_uptime node_uptime_daily sum_where clamp_days percent str_eq IsKeyed buckets bucket
    by_day_from
daily_adds_up_example =
    daily_adds_up whole_pct 0 stored "n1" (pos 2) noon answer days (omega arith, (omega arith, tt))
      ((refl, tt), (tt, tt)) refl refl
