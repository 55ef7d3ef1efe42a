-- ===== src/Uptime.antt =====
-- pkg/store/uptime.go: the seconds of uptime by node and day. `F` is the type of floats. A day stands
-- for its text YYYY-MM-DD in UTC, as the number of days since the epoch, in the same order.
pub mod Even
pub mod Online
pub mod Keys
pub mod Days
use nodepulse.Base.{
  String, ℕ, zero, suc, ◌+◌, ◌-◌, ◌*◌, ◌/◌, ◌%◌, ◌^◌, ◌≤◌, ◌<◌, ◌≡◌, refl, sym, ap, ◌∙◌, ◌≢◌, ◌↔◌,
  ◌⊎◌, inl, inr, Bool, true, false, not, ◌&&◌, ◌||◌, Option, none, some, List, [], ◌∷◌, ◌++◌, map,
  arith, ltb, leb, ◌==◌, if◌then◌else◌, ltb→lt, lt→ltb, leb→le, ==_iff, str_eq, str_eq_iff,
  str_eq_refl, Bool-cases, Option-cases, length, length-append, All, All-append, All-map, update,
  update_self, update_ne,
}
use nodepulse.Base.Int.{ℤ, pos, negsuc, sub_ℕ, eq_ℤ}
use nodepulse.Breaker.{second}
use nodepulse.Text.{is_empty}
use nodepulse.Store.{next_fault, later_faults}

-- A row of node_uptime_daily.
pub record UptimeRow : Type 0 where
  pub node_id : String
  pub day : ℕ
  pub total_secs : ℕ
  pub up_secs : ℕ

pub record UptimeSummary (F : Type 0) : Type 0 where
  pub node_id : String
  pub days : ℕ
  pub total_secs : ℕ
  pub up_secs : ℕ
  pub uptime_pct : F

pub record UptimeDayBucket (F : Type 0) : Type 0 where
  pub day : ℤ
  pub total_secs : ℕ
  pub up_secs : ℕ
  pub uptime_pct : F

-- The tracker, the table, and the outcomes of the statements to come: `true` is an error.
pub record Uptime : Type 0 where
  pub last_seen : String → Option ℕ
  pub rows : List UptimeRow
  pub faults : List Bool

abbrev pub new_uptime : List Bool → Uptime
new_uptime faults = record { last_seen = λ n. none; rows = []; faults = faults }

abbrev pub online_window : ℕ
online_window = 35 * second

abbrev pub is_row : String → ℕ → UptimeRow → Bool
is_row node_id day r = str_eq r.node_id node_id && r.day == day

-- INSERT ... ON CONFLICT(node_id, day) DO UPDATE.
unfoldable pub add_secs : String → ℕ → ℕ → ℕ → List UptimeRow → List UptimeRow
add_secs node_id day total up [] =
    record { node_id = node_id; day = day; total_secs = total; up_secs = up } ∷ []
add_secs node_id day total up (r ∷ rs) =
    let rest = add_secs node_id day total up rs in
    if is_row node_id day r
    then record r { total_secs = r.total_secs + total; up_secs = r.up_secs + up } ∷ rs
    else r ∷ rest

-- `true` without an error. The transaction begins, executes and commits; it is rolled back on an
-- error.
unfoldable pub upsert_uptime : Uptime → String → ℕ → ℕ → ℕ → Uptime × Bool
unfolding add_secs
upsert_uptime p node_id day total up =
    let f1 = later_faults p.faults in
    let f2 = later_faults f1 in
    let f3 = later_faults f2 in
    if next_fault p.faults
    then (record p { faults = f1 }, false)
    else if next_fault f1
    then (record p { faults = f2 }, false)
    else if next_fault f2
    then (record p { faults = f3 }, false)
    else (record p { rows = add_secs node_id day total up p.rows; faults = f3 }, true)

abbrev pub day_of : ℕ → ℕ
day_of now = now / (86400 * second)

-- The seconds that a gap is worth.
abbrev pub credit : ℕ → ℕ
credit delta = let secs = delta / second in if ltb secs 1 then 1 else secs

-- Behind the tracker: the gap that was credited, 0 for none, or an error.
unfoldable pub credit_gap : Uptime → String → ℕ → Option ℕ → Uptime × Option ℕ
unfolding upsert_uptime
credit_gap p node_id now none = (p, some 0)
credit_gap p node_id now (some last) =
    let delta = now - last in
    let (q, ok) = upsert_uptime p node_id (day_of now) (credit delta) (credit delta) in
    if leb now last
    then (p, some 0)
    else if ltb online_window delta
    then (p, some 0)
    else if ok
    then (q, some delta)
    else (q, none)

unfoldable pub record_heartbeat : Uptime → String → ℕ → Uptime × Option ℕ
unfolding credit_gap
record_heartbeat p node_id now =
    credit_gap (record p { last_seen = update p.last_seen node_id (some now) }) node_id now
      (p.last_seen node_id)

-- The days asked for, from 1 to 90.
unfoldable pub clamp_days : ℤ → ℕ
clamp_days (negsuc n) = 1
clamp_days (pos n) = if ltb n 1 then 1 else if ltb 90 n then 90 else n

-- `day >= cutoff`, where the cutoff is days - 1 days before today.
abbrev pub is_since : ℕ → ℕ → UptimeRow → Bool
is_since today days r = leb (today + 1) (r.day + days)

abbrev pub is_own_since : String → ℕ → ℕ → UptimeRow → Bool
is_own_since node_id today days r = str_eq r.node_id node_id && is_since today days r

unfoldable pub sum_where : (UptimeRow → Bool) → (UptimeRow → ℕ) → List UptimeRow → ℕ
sum_where matches secs [] = 0
sum_where matches secs (r ∷ rs) =
    let rest = sum_where matches secs rs in if matches r then secs r + rest else rest

abbrev pub is_day : ℤ → UptimeRow → Bool
is_day key r = eq_ℤ (pos r.day) key

-- `byDay[day]` behind the loop over the rows that a query answers, of which a later one replaces an
-- earlier one, from `found` on; (0, 0) stands for a missing key.
unfoldable pub by_day_from : (UptimeRow → Bool) → List UptimeRow → ℕ × ℕ → ℤ → ℕ × ℕ
by_day_from matches [] found key = found
by_day_from matches (r ∷ rs) found key =
    by_day_from matches rs (if matches r && is_day key r then (r.total_secs, r.up_secs) else found)
      key

-- SUM(total_secs), SUM(up_secs) GROUP BY day, (0, 0) for a missing day.
unfoldable pub by_day_where : (UptimeRow → Bool) → List UptimeRow → ℤ → ℕ × ℕ
unfolding sum_where
by_day_where matches rows key = (
  sum_where (λ r. matches r && is_day key r) (λ r. r.total_secs) rows,
  sum_where (λ r. matches r && is_day key r) (λ r. r.up_secs) rows,
)

-- The day that is `i` days behind the cutoff.
abbrev pub bucket_day : ℕ → ℕ → ℕ → ℤ
bucket_day today days i = sub_ℕ (today + 1 + i) days

-- `pct u t` stands for float64(u) / float64(t) * 100.0, `nothing` for 0.0.
module _ {F : Type 0} (pct : ℕ → ℕ → F) (nothing : F) where
  unfoldable pub percent : ℕ → ℕ → F
  percent up total = if ltb 0 total then pct up total else nothing

  -- `none` on an error of the driver.
  unfoldable pub node_uptime : Uptime → String → ℤ → ℕ → Uptime × Option (UptimeSummary F)
  unfolding percent sum_where clamp_days
  node_uptime p node_id asked now =
      let days = clamp_days asked in
      let own = is_own_since node_id (day_of now) days in
      let total = sum_where own (λ r. r.total_secs) p.rows in
      let up = sum_where own (λ r. r.up_secs) p.rows in
      (
        record p { faults = later_faults p.faults },
        if next_fault p.faults
            then none
            else some (record {
              node_id = node_id;
              days = days;
              total_secs = total;
              up_secs = up;
              uptime_pct = percent up total;
            }),
      )

  -- A bucket from the sums of its day.
  unfoldable pub bucket : ℤ → (ℤ → ℕ × ℕ) → UptimeDayBucket F
  unfolding percent
  bucket key by_day =
      let (total, up) = by_day key in
      record { day = key; total_secs = total; up_secs = up; uptime_pct = percent up total }

  -- The loop over the days, of which `left` are left, from the `i`-th on.
  unfoldable pub buckets : ℕ → ℕ → (ℤ → ℕ × ℕ) → ℕ → ℕ → List (UptimeDayBucket F)
  unfolding bucket
  buckets today days by_day zero i = []
  buckets today days by_day (suc left) i =
      bucket (bucket_day today days i) by_day ∷ buckets today days by_day left (suc i)

  -- An empty node id and an error of the driver give none.
  unfoldable pub node_uptime_daily :
      Uptime → String → ℤ → ℕ → Uptime × Option (List (UptimeDayBucket F))
  unfolding buckets by_day_from clamp_days
  node_uptime_daily p node_id asked now =
      let days = clamp_days asked in
      let own = is_own_since node_id (day_of now) days in
      if is_empty node_id then (p, none) else (
        record p { faults = later_faults p.faults },
        if next_fault p.faults
            then none
            else some (buckets (day_of now) days (by_day_from own p.rows (0, 0)) days 0),
      )

  unfoldable pub fleet_uptime_daily : Uptime → ℤ → ℕ → Uptime × Option (List (UptimeDayBucket F))
  unfolding buckets by_day_where clamp_days
  fleet_uptime_daily p asked now =
      let days = clamp_days asked in
      (
        record p { faults = later_faults p.faults },
        if next_fault p.faults
            then none
            else some (
                buckets (day_of now) days (by_day_where (is_since (day_of now) days) p.rows) days
                  0),
      )
