-- ===== src/Examples/Memories.antt =====
-- Sixty-one heartbeats of one node and one of another.
use nodepulse.Base.{
  ℕ, ◌≡◌, none, List, [], ◌∷◌, ◌++◌, String, zero, suc, Bool, ltb, ◌-◌, ◌≤◌, length,
}
use nodepulse.Base.Int.{pos}
use nodepulse.Memory.{Heartbeat, MetricPoint, history_of}
use nodepulse.Memory.Recent.{points, ingest_all, ingest_all-recent}

abbrev beat : ℕ → String → Heartbeat ℕ
beat n node_id = record {
  node_id = node_id;
  timestamp = pos n;
  load1 = n;
  cores = 2;
  used_percent = 50;
  disks = 30 ∷ [];
}

abbrev is_more : ℕ → ℕ → Bool
is_more x n = ltb n x

abbrev beats : ℕ → List (Heartbeat ℕ × ℕ)
beats zero = []
beats (suc n) = (beat n "n1", n) ∷ beats n

abbrev mixed : List (Heartbeat ℕ × ℕ)
mixed = beats 61 ++ (beat 5 "n2", 70) ∷ []

ingest_all-recent_example :
    (older : List (MetricPoint ℕ)) × (points is_more is_more 0 "n1" mixed
      ≡ older ++ history_of (ingest_all is_more is_more 0 (λ k. none) mixed "n1"))
    × (length (history_of (ingest_all is_more is_more 0 (λ k. none) mixed "n1")) ≤ 60)
    × (length older ≡ length (points is_more is_more 0 "n1" mixed) - 60)
ingest_all-recent_example = ingest_all-recent is_more is_more 0 "n1" mixed
