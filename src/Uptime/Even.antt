-- ===== src/Uptime/Even.antt =====
-- Every credit of pkg/store/uptime.go goes to both sums of a row.
use nodepulse.Base.{
  String, ℕ, ◌+◌, ◌-◌, ◌≡◌, refl, ap, inl, inr, Bool, Option, none, some, List, [], ◌∷◌, arith,
  Bool-cases, All, update,
}
use nodepulse.Uptime.{
  Uptime, UptimeRow, add_secs, upsert_uptime, credit_gap, credit, day_of, record_heartbeat,
  sum_where, is_row,
}

-- The seconds up are all the seconds of a row.
abbrev pub IsEven : UptimeRow → Type 0
IsEven r = r.up_secs ≡ r.total_secs

add_secs-IsEven :
    (node_id : String) (day secs : ℕ) (rs : List UptimeRow)
    → All IsEven rs
    → All IsEven (add_secs node_id day secs secs rs)
unfolding add_secs
add_secs-IsEven node_id day secs [] h = (refl, tt)
add_secs-IsEven node_id day secs (r ∷ rs) h = elim (Bool-cases (is_row node_id day r)) [
  | inl y ↦ rw y (ap (λ n. n + secs) h.0, h.1)
  | inr n ↦ rw n (h.0, add_secs-IsEven node_id day secs rs h.1)
]

upsert-IsEven :
    (p : Uptime) (node_id : String) (day secs : ℕ)
    → All IsEven p.rows
    → All IsEven (upsert_uptime p node_id day secs secs).0.rows
unfolding upsert_uptime
upsert-IsEven p node_id day secs h = ground (arith, add_secs-IsEven node_id day secs p.rows h)

credit-IsEven :
    (p : Uptime) (node_id : String) (now : ℕ) (last : Option ℕ)
    → All IsEven p.rows
    → All IsEven (credit_gap p node_id now last).0.rows
unfolding credit_gap
credit-IsEven p node_id now none h = h
credit-IsEven p node_id now (some last) h =
    ground (arith, upsert-IsEven p node_id (day_of now) (credit (now - last)) h)

-- Heartbeats with the node and the reading of the clock of each.
unfoldable pub record_all : Uptime → List (String × ℕ) → Uptime
record_all p [] = p
record_all p ((node_id, now) ∷ hs) = record_all (record_heartbeat p node_id now).0 hs

pub record_all-IsEven :
    (p : Uptime) (hs : List (String × ℕ)) → All IsEven p.rows → All IsEven (record_all p hs).rows
unfolding record_all record_heartbeat
record_all-IsEven p [] h = h
record_all-IsEven p ((node_id, now) ∷ hs) h =
    record_all-IsEven (record_heartbeat p node_id now).0 hs (
      credit-IsEven (record p { last_seen = update p.last_seen node_id (some now) }) node_id now
        (p.last_seen node_id) h)

pub sums_even :
    (matches : UptimeRow → Bool) (rs : List UptimeRow)
    → All IsEven rs
    → sum_where matches (λ r. r.up_secs) rs ≡ sum_where matches (λ r. r.total_secs) rs
unfolding sum_where
sums_even matches [] h = refl
sums_even matches (r ∷ rs) h = rw (sums_even matches rs h.1, h.0) refl
