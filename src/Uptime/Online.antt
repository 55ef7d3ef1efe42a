-- ===== src/Uptime/Online.antt =====
-- The sums of NodeUptime of pkg/store/uptime.go against the heartbeats of the node.
use nodepulse.Base.{
  ℕ, ◌+◌, ◌-◌, ◌/◌, String, ◌≡◌, refl, ap, ◌∙◌, inl, inr, true, ◌&&◌, Option, none, some, List, [],
  ◌∷◌, arith, ltb, leb, if◌then◌else◌, ==_iff, str_eq, str_eq_iff, Bool-cases, update,
}
use mathlib.Core.Path.{subst}
use nodepulse.Uptime.{
  Uptime, UptimeRow, UptimeSummary, new_uptime, add_secs, upsert_uptime, credit_gap, credit, day_of,
  record_heartbeat, is_row, is_own_since, sum_where, clamp_days, node_uptime, ℤ, next_fault,
}
use nodepulse.Uptime.Even.{record_all, record_all-IsEven, sums_even}

-- The seconds that a heartbeat at `now` behind one at `last` shows the node to be up: those of a gap of at
-- most 35 seconds, but at least one, where `now` is on one of the `days` days up to `today`.
abbrev pub gap_secs : ℕ → ℕ → Option ℕ → ℕ → ℕ
gap_secs today days none now = 0
gap_secs today days (some last) now =
    if ltb last now
      && leb now (last + 35_000_000_000)
      && leb (today + 1) (now / 86_400_000_000_000 + days)
    then (if ltb (now - last) 1_000_000_000 then 1 else (now - last) / 1_000_000_000)
    else 0

-- The seconds that heartbeats show a node to be up, the one before them at `last`.
unfoldable pub online_secs : String → ℕ → ℕ → Option ℕ → List (String × ℕ) → ℕ
online_secs node_id today days last [] = 0
online_secs node_id today days last ((n, now) ∷ hs) =
    let behind = online_secs node_id today days (some now) hs in
    let passed = online_secs node_id today days last hs in
    if str_eq n node_id then gap_secs today days last now + behind else passed

total_of : String → ℕ → ℕ → List UptimeRow → ℕ
total_of node_id today days rs = sum_where (is_own_since node_id today days) (λ r. r.total_secs) rs

module _ (node_id : String) (today days : ℕ) where
  own_row :
      (n : String) (day : ℕ) (r : UptimeRow)
      → is_row n day r ≡ true
      → is_own_since node_id today days r ≡ (str_eq n node_id && leb (today + 1) (day + days))
  own_row n day r h =
      let same : r.node_id ≡ n = (str_eq_iff r.node_id n).0 (ground (arith, h)) in
      let dated : r.day ≡ day = (==_iff r.day day).0 (ground (arith, h)) in rw (same, dated) refl

  add_secs_total :
      (n : String) (day total up : ℕ) (rs : List UptimeRow)
      → total_of node_id today days (add_secs n day total up rs)
        ≡ total_of node_id today days rs
          + (if str_eq n node_id && leb (today + 1) (day + days) then total else 0)
  unfolding total_of add_secs sum_where
  add_secs_total n day total up [] = ground arith
  add_secs_total n day total up (r ∷ rs) = elim (Bool-cases (is_row n day r)) [
    | inl y ↦ rw y (ground (arith, own_row n day r y))
    | inr m ↦ rw m (ground (arith, add_secs_total n day total up rs))
  ]

  credit_gap_total :
      (p : Uptime) (n : String) (now : ℕ) (last : Option ℕ)
      → p.faults ≡ []
      → total_of node_id today days (credit_gap p n now last).0.rows
        ≡ total_of node_id today days p.rows
          + (if str_eq n node_id then gap_secs today days last now else 0)
  unfolding credit_gap upsert_uptime
  credit_gap_total p n now none f = ground arith
  credit_gap_total p n now (some last) f = rw f (
      ground
        (arith, add_secs_total n (day_of now) (credit (now - last)) (credit (now - last)) p.rows))

credit_gap_faults :
    (p : Uptime) (n : String) (now : ℕ) (last : Option ℕ)
    → p.faults ≡ []
    → (credit_gap p n now last).0.faults ≡ []
unfolding credit_gap upsert_uptime
credit_gap_faults p n now none f = f
credit_gap_faults p n now (some last) f = ground (arith, f)

credit_gap_seen :
    (p : Uptime) (n : String) (now : ℕ) (last : Option ℕ)
    → (credit_gap p n now last).0.last_seen ≡ p.last_seen
unfolding credit_gap upsert_uptime
credit_gap_seen p n now none = refl
credit_gap_seen p n now (some last) = ground arith

record_all_total :
    (node_id : String) (today days : ℕ) (p : Uptime) (hs : List (String × ℕ))
    → p.faults ≡ []
    → total_of node_id today days (record_all p hs).rows
      ≡ total_of node_id today days p.rows + online_secs node_id today days (p.last_seen node_id) hs
unfolding record_all record_heartbeat online_secs
record_all_total node_id today days p [] f = omega arith
record_all_total node_id today days p ((n, now) ∷ hs) f =
    let q = record p { last_seen = update p.last_seen n (some now) } in
    let u = (credit_gap q n now (p.last_seen n)).0 in
    let more = credit_gap_total node_id today days q n now (p.last_seen n) f in
    let rest =
      record_all_total node_id today days u hs (credit_gap_faults q n now (p.last_seen n) f) in
    let seen = ap (λ l. l node_id) (credit_gap_seen q n now (p.last_seen n)) in
    elim (Bool-cases (str_eq n node_id)) [
      | inl y ↦ rest ∙ rw (more, seen, y, ap p.last_seen ((str_eq_iff n node_id).0 y)) (omega arith)
      | inr m ↦ rest ∙ rw (more, seen, m) (omega arith)
    ]

from_nothing : (n : ℕ) → 0 + n ≡ n
from_nothing n = omega arith

there : {A : Type 0} (x y : A) → ◌≡◌ {A = Option A} (some x) (some y) → x ≡ y
there x y e = cc e

nothing_there : {A : Type 0} (x : A) → ◌≡◌ {A = Option A} none (some x) → ⊥
nothing_there x e = cc e

-- After any heartbeats at any readings of the clock on an empty table, where no statement fails, the
-- seconds of NodeUptime, both those up and those in total, are those that the heartbeats show the node to
-- be up on the days asked for: at least one and else the whole seconds of each gap of at most 35 seconds
-- between two heartbeats of the node that follow each other. A longer gap is in neither sum.
pub record_all_online :
    {F : Type 0} (pct : ℕ → ℕ → F) (nothing : F) (hs : List (String × ℕ)) (node_id : String)
    (asked : ℤ) (now : ℕ) (s : UptimeSummary F)
    → (node_uptime pct nothing (record_all (new_uptime []) hs) node_id asked now).1 ≡ some s
    → (s.up_secs ≡ online_secs node_id (now / 86_400_000_000_000) s.days none hs)
      × (s.total_secs ≡ online_secs node_id (now / 86_400_000_000_000) s.days none hs)
unfolding node_uptime total_of sum_where
record_all_online {F = F} pct nothing hs node_id asked now s e =
    let p = record_all (new_uptime []) hs in
    let own = is_own_since node_id (day_of now) (clamp_days asked) in
    let total =
      record_all_total node_id (day_of now) (clamp_days asked) (new_uptime []) hs refl
      ∙ from_nothing (online_secs node_id (day_of now) (clamp_days asked) none hs) in
    elim (Bool-cases (next_fault p.faults)) [
      | inl f ↦ absurd (nothing_there s (rw f at e))
      | inr f ↦
          subst
            (λ t.
              (t.up_secs ≡ online_secs node_id (now / 86_400_000_000_000) t.days none hs)
              × (t.total_secs ≡ online_secs node_id (now / 86_400_000_000_000) t.days none hs))
            (there _ s (rw f at e))
            (sums_even own p.rows (record_all-IsEven (new_uptime []) hs tt) ∙ total, total)
    ]
