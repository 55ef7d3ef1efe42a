-- ===== src/Examples/Networks.antt =====
-- Counters that go up and that go down, and the texts of numbers.
use nodepulse.Base.{
  String, ◌≡◌, refl, arith, some, ℕ, ◌+◌, none, List, [], ◌∷◌, if◌then◌else◌, str_eq,
}
use nodepulse.Base.Int.{pos, negsuc}
use nodepulse.Network.{stamped, Network, NetworkSample, diff_uint64, i64_to_a, digits, minus_of}
use nodepulse.Network.Tracker.{rx_byte, taken, rises, last_of}
use nodepulse.Network.Totals.{NetworkBeat, all_taken, total, total_rise}
use nodepulse.Network.Digits.{Numeral, i64_to_a-Numeral}

i64_to_a-Numeral_example :
    ((s : String) × (i64_to_a (pos 1207) ≡ some s) × Numeral 1207 s)
    × ((s : String) × (i64_to_a (negsuc 1206) ≡ some (String.◌∷◌ "-" s)) × Numeral 1207 s)
i64_to_a-Numeral_example = i64_to_a-Numeral 1207 1206 (omega arith) (omega arith)

text : i64_to_a (negsuc 1206) ≡ some "-1207"
unfolding i64_to_a digits minus_of
text = refl

-- All 20 bytes are written.
longest_text : i64_to_a (negsuc 9223372036854775806) ≡ some "-9223372036854775807"
unfolding i64_to_a digits minus_of
longest_text = refl

-- The least int64 has a text without digits.
least_text : i64_to_a (negsuc 9223372036854775807) ≡ some "-"
unfolding i64_to_a minus_of
least_text = refl

-- A counter of errors that a restart of the node brought from 5 to 0.
after_restart : diff_uint64 0 5 ≡ 18446744073709551610
unfolding diff_uint64
after_restart = refl

abbrev sample : String → ℕ → ℕ → NetworkSample
sample iface at n = record {
  node_id = "";
  iface = iface;
  timestamp = pos at;
  counters = record {
    rx_bytes = n;
    tx_bytes = n + 3;
    rx_packets = 0;
    tx_packets = 0;
    rx_errors = 0;
    tx_errors = 0;
    rx_drops = 0;
    tx_drops = 0;
  };
}

abbrev first : NetworkSample
first = record (sample "eth0" 100 7) { node_id = "n1" }

abbrev tracked : Network
tracked = record {
  last = λ key. if str_eq "n1|eth0" key then some first else none;
  rows = [];
  faults = [];
}

-- A second node has an interface of the same name; a sample without a name is passed over.
abbrev heartbeats : List NetworkBeat
heartbeats =
    record {
      node_id = "n1";
      samples = sample "lo" 110 0 ∷ sample "eth0" 110 20 ∷ sample "" 110 1 ∷ [];
      now = pos 110;
      cutoff = pos 0;
    }
    ∷ record { node_id = "n2"; samples = sample "eth0" 115 90 ∷ []; now = pos 115; cutoff = pos 0 }
    ∷ record { node_id = "n1"; samples = sample "eth0" 120 50 ∷ []; now = pos 120; cutoff = pos 0 }
    ∷ []

total_rise_example : 7 + total rx_byte "n1|eth0" tracked heartbeats ≡ 50
unfolding rises last_of taken all_taken str_eq stamped
total_rise_example = total_rise rx_byte "n1|eth0" heartbeats tracked first refl refl refl
