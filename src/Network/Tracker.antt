-- ===== src/Network/Tracker.antt =====
-- What the loop of RecordNetworkSamples in pkg/store/netmetrics.go does to the counters of a key.
use nodepulse.Base.{
  ℕ, ◌+◌, ◌≤◌, String, ◌≡◌, refl, ap, ◌∙◌, inl, inr, Bool, true, false, not, ◌&&◌, Option, none,
  some, List, [], ◌∷◌, arith, leb, ◌==◌, if◌then◌else◌, leb→le, str_eq, str_eq_iff, Bool-cases,
}
use Prim.Native.String.{◌++◌ as join}
use nodepulse.Text.{is_empty}
use nodepulse.Base.Int.{ℤ, pos, negsuc, leb_ℤ}
use nodepulse.Network.{
  Counters, NetworkSample, NetworkRate, Network, network_key, diff_uint64, window, no_rate, rate_of,
  stamped, record_sample, record_samples,
}

-- The eight counters of an interface.
pub data Counter : Type 0 where
  rx_byte tx_byte rx_packet tx_packet rx_error tx_error rx_drop tx_drop : Counter

abbrev pub counter_of : Counter → Counters → ℕ
counter_of rx_byte c = c.rx_bytes
counter_of tx_byte c = c.tx_bytes
counter_of rx_packet c = c.rx_packets
counter_of tx_packet c = c.tx_packets
counter_of rx_error c = c.rx_errors
counter_of tx_error c = c.tx_errors
counter_of rx_drop c = c.rx_drops
counter_of tx_drop c = c.tx_drops

abbrev pub rate_at : Counter → NetworkRate ℕ → ℕ
rate_at rx_byte r = r.rx_bytes_per_sec
rate_at tx_byte r = r.tx_bytes_per_sec
rate_at rx_packet r = r.rx_packets_per_sec
rate_at tx_packet r = r.tx_packets_per_sec
rate_at rx_error r = r.rx_errors_per_sec
rate_at tx_error r = r.tx_errors_per_sec
rate_at rx_drop r = r.rx_drops_per_sec
rate_at tx_drop r = r.tx_drops_per_sec

-- A difference stands for its rate.
abbrev pub whole : ℕ → ℕ → ℕ
whole d w = d

-- The samples of a heartbeat that are not passed over, in front of `later`.
unfoldable pub taken : String → ℤ → List NetworkSample → List NetworkSample → List NetworkSample
taken node_id now [] later = later
taken node_id now (s ∷ ss) later =
    let rest = taken node_id now ss later in
    if is_empty s.iface then rest else stamped whole 0 node_id now s ∷ rest

abbrev pub is_of : String → NetworkSample → Bool
is_of key s = str_eq (join s.node_id (String.◌∷◌ "|" s.iface)) key

-- Whether each sample of the key is later than the one before it, with a counter that did not fall.
unfoldable pub rises : Counter → String → NetworkSample → List NetworkSample → Bool
rises c key prev [] = true
rises c key prev (s ∷ ss) =
    let own = rises c key s ss in
    let other = rises c key prev ss in
    if is_of key s
    then not (leb_ℤ s.timestamp prev.timestamp)
      && leb (counter_of c prev.counters) (counter_of c s.counters)
      && own
    else other

-- The last sample of the key.
unfoldable pub last_of : String → NetworkSample → List NetworkSample → NetworkSample
last_of key prev [] = prev
last_of key prev (s ∷ ss) =
    let own = last_of key s ss in
    let other = last_of key prev ss in if is_of key s then own else other

-- The sum of a counter in the rates of one key.
unfoldable pub sum_rates : Counter → String → String → List (NetworkRate ℕ) → ℕ
sum_rates c key node_id [] = 0
sum_rates c key node_id (r ∷ rs) =
    let rest = sum_rates c key node_id rs in
    if str_eq (join node_id (String.◌∷◌ "|" r.iface)) key then rate_at c r + rest else rest

window_later : (s p : ℤ) → leb_ℤ s p ≡ false → (window s p == 0) ≡ false
unfolding window
window_later (pos s) (pos p) h = ground (arith, h)
window_later (pos s) (negsuc p) h = ground (arith, h)
window_later (negsuc s) (pos p) h = ground (arith, h)
window_later (negsuc s) (negsuc p) h = ground (arith, h)

rate_of_later :
    (c : Counter) (s prev : NetworkSample)
    → (window s.timestamp prev.timestamp == 0) ≡ false
    → rate_at c (rate_of whole 0 s (some prev))
      ≡ diff_uint64 (counter_of c s.counters) (counter_of c prev.counters)
unfolding rate_of
rate_of_later rx_byte s prev h = rw h refl
rate_of_later tx_byte s prev h = rw h refl
rate_of_later rx_packet s prev h = rw h refl
rate_of_later tx_packet s prev h = rw h refl
rate_of_later rx_error s prev h = rw h refl
rate_of_later tx_error s prev h = rw h refl
rate_of_later rx_drop s prev h = rw h refl
rate_of_later tx_drop s prev h = rw h refl

diff_rises : (now prev : ℕ) → prev ≤ now → prev + diff_uint64 now prev ≡ now
unfolding diff_uint64
diff_rises now prev h = ground (arith, h)

rate_iface : (s : NetworkSample) (o : Option NetworkSample) → (rate_of whole 0 s o).iface ≡ s.iface
unfolding rate_of no_rate
rate_iface s none = refl
rate_iface s (some prev) = ground arith

step_rate :
    (c : Counter) (s prev : NetworkSample) (o : Option NetworkSample)
    → o ≡ some prev
    → not (leb_ℤ s.timestamp prev.timestamp) ≡ true
    → leb (counter_of c prev.counters) (counter_of c s.counters) ≡ true
    → counter_of c prev.counters + rate_at c (rate_of whole 0 s o) ≡ counter_of c s.counters
step_rate c s prev o e ahead up =
    rw (e, rate_of_later c s prev (window_later s.timestamp prev.timestamp (ground (arith, ahead))))
      (diff_rises (counter_of c s.counters) (counter_of c prev.counters)
        (leb→le (counter_of c prev.counters) (counter_of c s.counters) up))

all_three : (a b d : Bool) → (a && b && d) ≡ true → (a ≡ true) × (b ≡ true) × (d ≡ true)
all_three a b d h = ground (arith, h)

-- What the loop leaves behind the samples of a heartbeat, in front of `later`.
pub record Recorded (c : Counter) (key node_id : String) (now : ℤ) (ss : List NetworkSample)
    (p : Network) (prev : NetworkSample) (later : List NetworkSample) : Type 0 where
  pub latest : NetworkSample
  pub held : (record_samples whole 0 p node_id now ss).0.last key ≡ some latest
  pub summed :
      counter_of c prev.counters
        + sum_rates c key node_id (record_samples whole 0 p node_id now ss).1
      ≡ counter_of c latest.counters
  pub rising : rises c key latest later ≡ true
  pub same : last_of key prev (taken node_id now ss later) ≡ last_of key latest later

module _ (c : Counter) (key node_id : String) (now : ℤ) (later : List NetworkSample) where
  pub samples-Recorded :
      (ss : List NetworkSample) (p : Network) (prev : NetworkSample)
      → p.last key ≡ some prev
      → rises c key prev (taken node_id now ss later) ≡ true
      → Recorded c key node_id now ss p prev later
  unfolding taken record_samples record_sample network_key rises last_of sum_rates
  samples-Recorded [] p prev h r = record {
    latest = prev;
    held = h;
    summed = omega arith;
    rising = r;
    same = refl;
  }
  samples-Recorded (s ∷ ss) p prev h r = elim (Bool-cases (is_empty s.iface)) [
    | inl y ↦
        let t = samples-Recorded ss p prev h (rw y at r) in
        record {
          latest = t.latest;
          held = rw y t.held;
          summed = rw y t.summed;
          rising = t.rising;
          same = rw y t.same;
        }
    | inr n ↦
        let z = stamped whole 0 node_id now s in
        let q = (record_sample whole 0 p z).0 in
        elim (Bool-cases (is_of key z)) [
          | inr m ↦
              let t = samples-Recorded ss q prev (rw m h) (rw (n, m) at r) in
              record {
                latest = t.latest;
                held = rw n t.held;
                summed = rw (n, rate_iface z (p.last (network_key node_id s.iface)), m) t.summed;
                rising = t.rising;
                same = rw (n, m) t.same;
              }
          | inl o ↦
              let (ahead, up, rest) =
                all_three (not (leb_ℤ z.timestamp prev.timestamp))
                  (leb (counter_of c prev.counters) (counter_of c z.counters))
                  (rises c key z (taken node_id now ss later)) (rw (n, o) at r) in
              let t = samples-Recorded ss q z (rw o refl) rest in
              let known = ap p.last ((str_eq_iff (network_key node_id s.iface) key).0 o) ∙ h in
              record {
                latest = t.latest;
                held = rw n t.held;
                summed =
                    rw (n, rate_iface z (p.last (network_key node_id s.iface)), o)
                      (omega (
                        arith,
                        step_rate c z prev (p.last (network_key node_id s.iface)) known ahead up,
                        t.summed,
                      ));
                rising = t.rising;
                same = rw (n, o) t.same;
              }
        ]
  ]
