-- ===== src/Network.antt =====
-- pkg/store/netmetrics.go: the rates of interfaces and their alerts. `F` is the type of floats.
pub mod Tracker
pub mod Totals
pub mod Digits
use nodepulse.Base.{
  String, ℕ, zero, suc, ◌+◌, ◌-◌, ◌*◌, ◌/◌, ◌%◌, ◌^◌, ◌≤◌, ◌<◌, ◌≡◌, refl, sym, ap, ◌∙◌, ◌≢◌, ◌↔◌,
  ◌⊎◌, inl, inr, Bool, true, false, not, ◌&&◌, ◌||◌, Option, none, some, List, [], ◌∷◌, ◌++◌, map,
  arith, ltb, leb, ◌==◌, if◌then◌else◌, ltb→lt, lt→ltb, leb→le, ==_iff, str_eq, str_eq_iff,
  str_eq_refl, Bool-cases, Option-cases, length, length-append, All, All-append, All-map, update,
  update_self, update_ne,
}
use nodepulse.Base.Int.{ℤ, pos, negsuc, leb_ℤ, eq_ℤ}
use nodepulse.Text.{is_empty}
use nodepulse.Text.Split.{split_on}
use nodepulse.Store.{Store}
use nodepulse.Incident.{create_incident}
use nodepulse.Store.{next_fault, later_faults}
use Prim.Native.String.{◌++◌ as join}
use Prim.Native.Char.{Char}

-- A uint64 counter is less than 2 ^ 64.
pub record Counters : Type 0 where
  pub rx_bytes : ℕ
  pub tx_bytes : ℕ
  pub rx_packets : ℕ
  pub tx_packets : ℕ
  pub rx_errors : ℕ
  pub tx_errors : ℕ
  pub rx_drops : ℕ
  pub tx_drops : ℕ

pub record NetworkSample : Type 0 where
  pub node_id : String
  pub iface : String
  pub timestamp : ℤ
  pub counters : Counters

pub record NetworkRate (F : Type 0) : Type 0 where
  pub iface : String
  pub rx_bytes_per_sec : F
  pub tx_bytes_per_sec : F
  pub rx_packets_per_sec : F
  pub tx_packets_per_sec : F
  pub rx_errors_per_sec : F
  pub tx_errors_per_sec : F
  pub rx_drops_per_sec : F
  pub tx_drops_per_sec : F
  pub window_sec : ℕ

unfoldable pub network_key : String → String → String
network_key node_id iface = join node_id (String.◌∷◌ "|" iface)

-- ^uint64(0)
abbrev pub max_uint64 : ℕ
max_uint64 = 18446744073709551615

unfoldable pub diff_uint64 : ℕ → ℕ → ℕ
diff_uint64 now prev =
    if leb prev now then now - prev else (max_uint64 - prev + now) % (max_uint64 + 1)

-- s - p of two timestamps, where it is positive, and 0 else.
unfoldable pub window : ℤ → ℤ → ℕ
window (pos s) (pos p) = s - p
window (pos s) (negsuc p) = s + suc p
window (negsuc s) (pos p) = 0
window (negsuc s) (negsuc p) = p - s

-- What RecordNetworkSamples keeps: the last sample by key, the rows, and the outcomes of the statements to
-- come: `true` is an error.
pub record Network : Type 0 where
  pub last : String → Option NetworkSample
  pub rows : List NetworkSample
  pub faults : List Bool

abbrev later : Network → Network
later p = record p { faults = later_faults p.faults }

-- `per d w` stands for float64(d) / float64(w), `nothing` for 0.0.
module _ {F : Type 0} (per : ℕ → ℕ → F) (nothing : F) where
  unfoldable pub no_rate : String → NetworkRate F
  no_rate iface = record {
    iface = iface;
    rx_bytes_per_sec = nothing;
    tx_bytes_per_sec = nothing;
    rx_packets_per_sec = nothing;
    tx_packets_per_sec = nothing;
    rx_errors_per_sec = nothing;
    tx_errors_per_sec = nothing;
    rx_drops_per_sec = nothing;
    tx_drops_per_sec = nothing;
    window_sec = 0;
  }

  unfoldable pub rate_of : NetworkSample → Option NetworkSample → NetworkRate F
  unfolding no_rate diff_uint64 window
  rate_of s none = no_rate s.iface
  rate_of s (some prev) =
      let w = window s.timestamp prev.timestamp in
      let c = s.counters in
      let d = prev.counters in
      if w == 0 then no_rate s.iface else record {
        iface = s.iface;
        rx_bytes_per_sec = per (diff_uint64 c.rx_bytes d.rx_bytes) w;
        tx_bytes_per_sec = per (diff_uint64 c.tx_bytes d.tx_bytes) w;
        rx_packets_per_sec = per (diff_uint64 c.rx_packets d.rx_packets) w;
        tx_packets_per_sec = per (diff_uint64 c.tx_packets d.tx_packets) w;
        rx_errors_per_sec = per (diff_uint64 c.rx_errors d.rx_errors) w;
        tx_errors_per_sec = per (diff_uint64 c.tx_errors d.tx_errors) w;
        rx_drops_per_sec = per (diff_uint64 c.rx_drops d.rx_drops) w;
        tx_drops_per_sec = per (diff_uint64 c.tx_drops d.tx_drops) w;
        window_sec = w;
      }

  -- A sample with its node, and with the clock where it has no time.
  unfoldable pub stamped : String → ℤ → NetworkSample → NetworkSample
  stamped node_id now s = record s {
    node_id = node_id;
    timestamp = if eq_ℤ s.timestamp (pos 0) then now else s.timestamp;
  }

  -- The body of the loop. A failed insert is passed over.
  unfoldable pub record_sample : Network → NetworkSample → Network × NetworkRate F
  unfolding network_key rate_of
  record_sample p s =
      let key = network_key s.node_id s.iface in
      (
        record {
          last = update p.last key (some s);
          rows = if next_fault p.faults then p.rows else p.rows ++ s ∷ [];
          faults = later_faults p.faults;
        },
        rate_of s (p.last key),
      )

  unfoldable pub record_samples :
      Network → String → ℤ → List NetworkSample → Network × List (NetworkRate F)
  unfolding record_sample stamped
  record_samples p node_id now [] = (p, [])
  record_samples p node_id now (s ∷ ss) =
      let (q, rate) = record_sample p (stamped node_id now s) in
      let (u, rates) = record_samples q node_id now ss in
      let skipped = record_samples p node_id now ss in
      if is_empty s.iface then skipped else (u, rate ∷ rates)

  -- Rows from the cutoff on.
  unfoldable pub rows_since : ℤ → List NetworkSample → List NetworkSample
  rows_since cutoff [] = []
  rows_since cutoff (s ∷ ss) =
      let rest = rows_since cutoff ss in if leb_ℤ cutoff s.timestamp then s ∷ rest else rest

  -- Behind the loop: the commit, and the deletion of the rows before the cutoff. Without the commit
  -- the rows are as `before`.
  unfoldable pub commit : List NetworkSample → ℤ → Network → Network
  unfolding rows_since
  commit before cutoff p =
      if next_fault p.faults
      then record (later p) { rows = before }
      else if next_fault (later_faults p.faults)
      then later (later p)
      else record (later (later p)) { rows = rows_since cutoff p.rows }

  -- The transaction begins and the statement is prepared; `now` and `cutoff` are the readings of the
  -- clock, the second one less seven days.
  unfoldable pub record_network_samples :
      Network → String → List NetworkSample → ℤ → ℤ → Network × List (NetworkRate F)
  unfolding record_samples commit
  record_network_samples p node_id [] now cutoff = (p, [])
  record_network_samples p node_id (s ∷ ss) now cutoff =
      let (q, rates) = record_samples (later (later p)) node_id now (s ∷ ss) in
      if next_fault p.faults
      then (later p, [])
      else if next_fault (later_faults p.faults)
      then (later (later p), [])
      else (commit p.rows cutoff q, rates)

-- The digit of a number below ten.
abbrev pub digit : ℕ → Char
digit n =
    if n == 0
    then "0"
    else if n == 1
    then "1"
    else if n == 2
    then "2"
    else if n == 3
    then "3"
    else if n == 4
    then "4"
    else if n == 5
    then "5"
    else if n == 6
    then "6"
    else if n == 7
    then "7"
    else if n == 8
    then "8"
    else "9"

-- The loop of i64ToA: behind it the bytes of the buffer that are free, and the text behind them. `none` is
-- the panic of a write in front of the buffer.
unfoldable pub digits : ℕ → ℕ → String → Option (ℕ × String)
digits zero n buf = if n == 0 then some (0, buf) else none
digits (suc bytes) n buf =
    let rest = digits bytes (n / 10) (String.◌∷◌ (digit (n % 10)) buf) in
    if n == 0 then some (suc bytes, buf) else rest

-- `buf[i:]`, behind the minus or without one.
unfoldable pub text_of : Option (ℕ × String) → Option String
text_of none = none
text_of (some (bytes, s)) = some s

unfoldable pub minus_of : Option (ℕ × String) → Option String
minus_of none = none
minus_of (some (zero, s)) = none
minus_of (some (suc bytes, s)) = some (String.◌∷◌ "-" s)

-- The buffer has 20 bytes. The least int64 stays negative under `-n`, so that the loop does not run.
unfoldable pub i64_to_a : ℤ → Option String
unfolding digits text_of minus_of
i64_to_a (pos n) = if n == 0 then some "0" else text_of (digits 20 n "")
i64_to_a (negsuc n) =
    minus_of (if n == 9223372036854775807 then some (20, "") else digits 20 (suc n) "")

-- The text, the empty one in place of a panic.
abbrev shown : Option String → String
shown none = ""
shown (some s) = s

-- `at_least v n` stands for v >= float64(n), `whole v` for int64(v), `tenths v w` for
-- int64((v - float64(w)) * 10).
module _ {F : Type 0} (at_least : F → ℕ → Bool) (whole : F → ℤ) (tenths : F → ℤ → ℤ)
    (parse_chat : String → Option ℤ) where
  abbrev abs : ℤ → ℤ
  abs (pos n) = pos n
  abs (negsuc n) = pos (suc n)

  unfoldable pub format_float : F → String
  unfolding i64_to_a
  format_float v =
      if at_least v 100
      then shown (i64_to_a (whole v))
      else if at_least v 10
      then shown (i64_to_a (whole v))
      else join (shown (i64_to_a (whole v)))
          (join "." (shown (i64_to_a (abs (tenths v (whole v))))))

  unfoldable pub format_net_alert : String → F → F → String
  unfolding format_float
  format_net_alert kind rx tx =
      if str_eq kind "errors"
      then join (format_float rx) (join " rx err/s, " (join (format_float tx) " tx err/s"))
      else if str_eq kind "drops"
      then join (format_float rx) (join " rx drop/s, " (join (format_float tx) " tx drop/s"))
      else ""

  -- The thresholds are 1.0 errors and 10.0 drops a second.
  unfoldable pub errors_rise : NetworkRate F → Bool
  errors_rise r = at_least r.rx_errors_per_sec 1 || at_least r.tx_errors_per_sec 1

  unfoldable pub drops_rise : NetworkRate F → Bool
  drops_rise r = at_least r.rx_drops_per_sec 10 || at_least r.tx_drops_per_sec 10

  unfoldable pub report_errors : Store → String → NetworkRate F → ℕ → Store
  unfolding errors_rise format_net_alert
  report_errors p node_id r now =
      if errors_rise r
      then (create_incident parse_chat p node_id "critical"
          (join "Interface Errors Rising: " r.iface)
          (format_net_alert "errors" r.rx_errors_per_sec r.tx_errors_per_sec) now).0
      else p

  unfoldable pub report_drops : Store → String → NetworkRate F → ℕ → Store
  unfolding drops_rise format_net_alert
  report_drops p node_id r now =
      if drops_rise r
      then (create_incident parse_chat p node_id "warning" (join "Interface Drops Rising: " r.iface)
          (format_net_alert "drops" r.rx_drops_per_sec r.tx_drops_per_sec) now).0
      else p

  -- The errors of CreateIncident are passed over.
  unfoldable pub evaluate_network_alerts : Store → String → List (NetworkRate F) → ℕ → Store
  unfolding report_errors report_drops
  evaluate_network_alerts p node_id [] now = p
  evaluate_network_alerts p node_id (r ∷ rs) now =
      evaluate_network_alerts (report_drops (report_errors p node_id r now) node_id r now) node_id
        rs now
