-- ===== src/Memory.antt =====
-- pkg/store/memory.go: the last heartbeat of each node and its recent history. `F` is the type of
-- floats.
pub mod Recent
use nodepulse.Base.{
  ℕ, zero, suc, ◌+◌, ◌-◌, ◌*◌, ◌/◌, ◌%◌, ◌^◌, ◌≤◌, ◌<◌, String, ◌≡◌, refl, sym, ap, ◌∙◌, ◌≢◌, ◌↔◌,
  ◌⊎◌, inl, inr, Bool, true, false, not, ◌&&◌, ◌||◌, Option, none, some, List, [], ◌∷◌, ◌++◌, map,
  arith, ltb, leb, ◌==◌, if◌then◌else◌, ltb→lt, lt→ltb, leb→le, ==_iff, str_eq, str_eq_iff,
  str_eq_refl, Bool-cases, Option-cases, length, length-append, All, All-append, All-map, update,
  update_self, update_ne,
}
use nodepulse.Base.Int.{ℤ}
use nodepulse.Breaker.{second}

-- What Ingest reads of a heartbeat; the info of the node is a part of it that is only copied.
pub record Heartbeat (F : Type 0) : Type 0 where
  pub node_id : String
  pub timestamp : ℤ
  pub load1 : F
  pub cores : ℕ
  pub used_percent : F
  pub disks : List F

pub record MetricPoint (F : Type 0) : Type 0 where
  pub timestamp : ℤ
  pub load1 : F
  pub mem_used_pct : F
  pub disk_used_pct : F

pub record NodeState (F : Type 0) : Type 0 where
  pub last_heartbeat : ℕ
  pub latest : Heartbeat F
  pub status : String
  pub history : List (MetricPoint F)

unfoldable pub drop : {A : Type 0} → ℕ → List A → List A
drop n [] = []
drop zero (x ∷ xs) = x ∷ xs
drop (suc n) (x ∷ xs) = drop n xs

-- `hist[len(hist)-60:]` of a longer history.
unfoldable pub last_sixty : {A : Type 0} → List A → List A
last_sixty hist = if ltb 60 (length hist) then drop (length hist - 60) hist else hist

abbrev first_or : {F : Type 0} → F → List F → F
first_or d [] = d
first_or d (x ∷ xs) = x

abbrev pub history_of : {F : Type 0} → Option (NodeState F) → List (MetricPoint F)
history_of none = []
history_of (some s) = s.history

-- `is_loaded l c` stands for l > float64(c)*1.5, `is_above x n` for x > n, `nothing` for 0.0.
module _ {F : Type 0} (is_loaded : F → ℕ → Bool) (is_above : F → ℕ → Bool) (nothing : F) where
  unfoldable pub status_of : Heartbeat F → String
  status_of hb =
      if is_loaded hb.load1 hb.cores || is_above hb.used_percent 90 then "warning" else "online"

  unfoldable pub point_of : Heartbeat F → MetricPoint F
  point_of hb = record {
    timestamp = hb.timestamp;
    load1 = hb.load1;
    mem_used_pct = hb.used_percent;
    disk_used_pct = first_or nothing hb.disks;
  }

  -- The map of the nodes, with `now` the reading of the clock.
  unfoldable pub ingest :
      (String → Option (NodeState F)) → Heartbeat F → ℕ → String → Option (NodeState F)
  unfolding status_of point_of last_sixty
  ingest nodes hb now = update nodes hb.node_id (
      some (record {
        last_heartbeat = now;
        latest = hb;
        status = status_of hb;
        history = last_sixty (history_of (nodes hb.node_id) ++ point_of hb ∷ []);
      }))

-- A state as GetAll gives it: offline where the heartbeat is more than 35 seconds old.
abbrev seen : {F : Type 0} → ℕ → Option (NodeState F) → Option (NodeState F)
seen now none = none
seen now (some s) =
    some (if ltb (s.last_heartbeat + 35 * second) now then record s { status = "offline" } else s)

unfoldable pub get_all :
    {F : Type 0} → (String → Option (NodeState F)) → ℕ → String → Option (NodeState F)
get_all nodes now node_id = seen now (nodes node_id)
