-- ===== src/Metrics.antt =====
-- RecordSample of pkg/store/metrics.go.
use nodepulse.Base.{Bool, true, false, List, [], ◌∷◌, ◌++◌, if◌then◌else◌}
use nodepulse.Base.Int.{ℤ, leb_ℤ}
use nodepulse.Text.{is_empty}
use nodepulse.Store.{next_fault, later_faults}
use nodepulse.Evaluator.{MetricSample}

-- The rows of metric_samples, and the outcomes of the statements to come: `true` is an error.
pub record Metrics (F : Type 0) : Type 0 where
  pub rows : List (MetricSample F)
  pub faults : List Bool

module _ {F : Type 0} where
  unfoldable pub samples_since : ℤ → List (MetricSample F) → List (MetricSample F)
  samples_since cutoff [] = []
  samples_since cutoff (s ∷ ss) =
      let rest = samples_since cutoff ss in if leb_ℤ cutoff s.timestamp then s ∷ rest else rest

  -- `cutoff` is the reading of the clock less seven days. `true` without an error; one of the deletion
  -- is dropped.
  unfoldable pub record_sample : Metrics F → MetricSample F → ℤ → Metrics F × Bool
  unfolding samples_since
  record_sample p s cutoff =
      let inserted = p.rows ++ s ∷ [] in
      let f1 = later_faults p.faults in
      if is_empty s.node_id
      then (p, true)
      else if next_fault p.faults
      then (record p { faults = f1 }, false)
      else (
        record {
          rows = if next_fault f1 then inserted else samples_since cutoff inserted;
          faults = later_faults f1;
        },
        true,
      )
