-- ===== src/Uptime/Days.antt =====
-- The buckets of NodeUptimeDaily against the sums of NodeUptime.
use nodepulse.Base.{
  ℕ, suc, ◌+◌, ◌≡◌, Bool, ◌&&◌, List, ◌∷◌, arith, ltb, leb, ◌==◌, if◌then◌else◌, zero, ◌≤◌, String,
  refl, sym, ap, ◌∙◌, inl, inr, Option, none, some, [], str_eq, Bool-cases, length, All,
}
use nodepulse.Uptime.Keys.{IsKeyed, by_day-sums}
use nodepulse.Uptime.{
  by_day_from, clamp_days, UptimeRow, sum_where, is_day, bucket_day, is_own_since, UptimeDayBucket,
  buckets, ℤ, bucket, is_since, by_day_where, node_uptime, node_uptime_daily, Uptime, UptimeSummary,
  day_of, next_fault, is_empty, clamp_days,
}

-- A row whose day is one of the `left` days from the `i`-th on.
abbrev in_days : ℕ → ℕ → ℕ → ℕ → UptimeRow → Bool
in_days today days i left r =
    leb (today + 1 + i) (r.day + days) && ltb (r.day + days) (today + 1 + i + left)

day_test :
    (today days i : ℕ) (r : UptimeRow)
    → is_day (bucket_day today days i) r ≡ (r.day + days == today + 1 + i)
day_test today days i r = ground arith

abbrev weigh : Bool → ℕ → ℕ
weigh b n = if b then n else 0

one_more :
    (today days i left n : ℕ) (r : UptimeRow)
    → weigh (is_day (bucket_day today days i) r) n + weigh (in_days today days (suc i) left r) n
      ≡ weigh (in_days today days i (suc left) r) n
one_more today days i left n r = rw (day_test today days i r) (ground arith)

sum_step :
    (matches : UptimeRow → Bool) (secs : UptimeRow → ℕ) (r : UptimeRow) (rs : List UptimeRow)
    → sum_where matches secs (r ∷ rs) ≡ weigh (matches r) (secs r) + sum_where matches secs rs
unfolding sum_where
sum_step matches secs r rs = ground arith

weigh_both : (a b : Bool) (n : ℕ) → weigh (a && b) n ≡ (if a then weigh b n else 0)
weigh_both a b n = ground arith

-- One day more in front of some days.
day_more :
    (m : UptimeRow → Bool) (secs : UptimeRow → ℕ) (today days i left : ℕ) (rs : List UptimeRow)
    → sum_where (λ r. m r && is_day (bucket_day today days i) r) secs rs
        + sum_where (λ r. m r && in_days today days (suc i) left r) secs rs
      ≡ sum_where (λ r. m r && in_days today days i (suc left) r) secs rs
unfolding sum_where
day_more m secs today days i left [] = refl
day_more m secs today days i left (r ∷ rs) =
    rw
      (
        sum_step (λ q. m q && is_day (bucket_day today days i) q) secs r rs,
        sum_step (λ q. m q && in_days today days (suc i) left q) secs r rs,
        sum_step (λ q. m q && in_days today days i (suc left) q) secs r rs,
        weigh_both (m r) (is_day (bucket_day today days i) r) (secs r),
        weigh_both (m r) (in_days today days (suc i) left r) (secs r),
        weigh_both (m r) (in_days today days i (suc left) r) (secs r),
      )
      (elim (Bool-cases (m r)) [
        | inl y ↦ rw y (
            omega
              (arith, one_more today days i left (secs r) r, day_more m secs today days i left rs))
        | inr n ↦ rw n (omega (arith, day_more m secs today days i left rs))
      ])

no_days :
    (m : UptimeRow → Bool) (secs : UptimeRow → ℕ) (today days i : ℕ) (rs : List UptimeRow)
    → sum_where (λ r. m r && in_days today days i 0 r) secs rs ≡ 0
unfolding sum_where
no_days m secs today days i [] = refl
no_days m secs today days i (r ∷ rs) = ground (arith, no_days m secs today days i rs)

abbrev pub total_of : {F : Type 0} → List (UptimeDayBucket F) → ℕ
total_of [] = 0
total_of (b ∷ bs) = b.total_secs + total_of bs

abbrev pub up_of : {F : Type 0} → List (UptimeDayBucket F) → ℕ
up_of [] = 0
up_of (b ∷ bs) = b.up_secs + up_of bs

module _ {F : Type 0} (pct : ℕ → ℕ → F) (nothing : F) where
  buckets_total :
      (m : UptimeRow → Bool) (today days left i : ℕ) (rs : List UptimeRow)
      → total_of (buckets pct nothing today days (by_day_where m rs) left i)
        ≡ sum_where (λ r. m r && in_days today days i left r) (λ r. r.total_secs) rs
  unfolding buckets bucket by_day_where
  buckets_total m today days zero i rs = sym (no_days m (λ r. r.total_secs) today days i rs)
  buckets_total m today days (suc left) i rs =
      rw (buckets_total m today days left (suc i) rs)
        (day_more m (λ r. r.total_secs) today days i left rs)

  buckets_up :
      (m : UptimeRow → Bool) (today days left i : ℕ) (rs : List UptimeRow)
      → up_of (buckets pct nothing today days (by_day_where m rs) left i)
        ≡ sum_where (λ r. m r && in_days today days i left r) (λ r. r.up_secs) rs
  unfolding buckets bucket by_day_where
  buckets_up m today days zero i rs = sym (no_days m (λ r. r.up_secs) today days i rs)
  buckets_up m today days (suc left) i rs =
      rw (buckets_up m today days left (suc i) rs)
        (day_more m (λ r. r.up_secs) today days i left rs)

-- No row of a later day.
abbrev pub NotLater : ℕ → UptimeRow → Type 0
NotLater today r = r.day ≤ today

every_day :
    (node_id : String) (secs : UptimeRow → ℕ) (today days : ℕ) (rs : List UptimeRow)
    → All (NotLater today) rs
    → sum_where (λ r. is_own_since node_id today days r && in_days today days 0 days r) secs rs
      ≡ sum_where (is_own_since node_id today days) secs rs
unfolding sum_where
every_day node_id secs today days [] h = refl
every_day node_id secs today days (r ∷ rs) h =
    rw
      (
        sum_step (λ q. is_own_since node_id today days q && in_days today days 0 days q) secs r rs,
        sum_step (is_own_since node_id today days) secs r rs,
        every_day node_id secs today days rs h.1,
        within (str_eq r.node_id node_id) h.0,
      )
      refl
  where
    within :
        (b : Bool)
        → r.day ≤ today
        → ((b && is_since today days r) && in_days today days 0 days r)
          ≡ (b && is_since today days r)
    within b l = ground (arith, l)

length-buckets :
    {F : Type 0} (pct : ℕ → ℕ → F) (nothing : F) (today days : ℕ) (by_day : ℤ → ℕ × ℕ) (left i : ℕ)
    → length (buckets pct nothing today days by_day left i) ≡ left
unfolding buckets
length-buckets pct nothing today days by_day zero i = refl
length-buckets pct nothing today days by_day (suc left) i =
    omega (arith, length-buckets pct nothing today days by_day left (suc i))

nothing_there : {A : Type 0} (x : A) → ◌≡◌ {A = Option A} none (some x) → ⊥
nothing_there x e = cc e

there : {A : Type 0} (x y : A) → ◌≡◌ {A = Option A} (some x) (some y) → x ≡ y
there x y e = cc e

summed :
    (node_id : String) (today days : ℕ) (rs : List UptimeRow)
    → IsKeyed rs
    → by_day_from (is_own_since node_id today days) rs (0, 0)
      ≡ by_day_where (is_own_since node_id today days) rs
summed node_id today days rs h i key = by_day-sums node_id today days key rs h i

-- NodeUptimeDaily answers as many buckets as NodeUptime counts days, and their seconds add up to the sums
-- of NodeUptime, for any node and any number of days asked, where both answer and the table has no row
-- of a later day than today and, as its primary key demands, each row has a node and a day of its own.
pub daily_adds_up :
    {F : Type 0} (pct : ℕ → ℕ → F) (nothing : F) (p : Uptime) (node_id : String) (asked : ℤ)
    (now : ℕ) (s : UptimeSummary F) (bs : List (UptimeDayBucket F))
    → All (NotLater (day_of now)) p.rows
    → IsKeyed p.rows
    → (node_uptime pct nothing p node_id asked now).1 ≡ some s
    → (node_uptime_daily pct nothing p node_id asked now).1 ≡ some bs
    → (length bs ≡ s.days) × (total_of bs ≡ s.total_secs) × (up_of bs ≡ s.up_secs)
unfolding node_uptime node_uptime_daily
daily_adds_up {F = F} pct nothing p node_id asked now s bs h keyed e d =
    elim (Bool-cases (next_fault p.faults)) [
      | inl f ↦ absurd (nothing_there s (rw f at e))
      | inr f ↦ elim (Bool-cases (is_empty node_id)) [
        | inl y ↦ absurd (nothing_there bs (rw y at d))
        | inr n ↦
            let days = clamp_days asked in
            let own = is_own_since node_id (day_of now) days in
            let same = there _ s (rw f at e) in
            let list =
              ap (λ m. buckets pct nothing (day_of now) days m days 0)
                (sym (summed node_id (day_of now) days p.rows keyed))
              ∙ there _ bs (rw (n, f) at d) in
            (
              ap length (sym list)
                  ∙ length-buckets pct nothing (day_of now) days (by_day_where own p.rows) days 0
                  ∙ ap (λ t. t.days) same,
              ap total_of (sym list)
                  ∙ buckets_total pct nothing own (day_of now) days days 0 p.rows
                  ∙ every_day node_id (λ r. r.total_secs) (day_of now) days p.rows h
                  ∙ ap (λ t. t.total_secs) same,
              ap up_of (sym list)
                  ∙ buckets_up pct nothing own (day_of now) days days 0 p.rows
                  ∙ every_day node_id (λ r. r.up_secs) (day_of now) days p.rows h
                  ∙ ap (λ t. t.up_secs) same,
            )
      ]
    ]
