-- ===== src/Incident/Trace.antt =====
-- The operations on the incident table as data, and histories of them.
use nodepulse.Base.{ℕ, String, Bool, Option, List, [], ◌∷◌}
use nodepulse.Base.Int.{ℤ}
use nodepulse.Store.{Store}
use nodepulse.Incident.{create_incident}
use nodepulse.Incident.Actions.{acknowledge_incident, snooze_incident, resolve_incident}
use nodepulse.Incident.Sweeps.{Heartbeat, resolve_stale_incidents, resolve_abandoned_across_fleet}
use nodepulse.Incident.Watchdog.{
  silent_node_watchdog, nothing_done, auto_close_incidents_in_maintenance,
}
use nodepulse.Incident.Unique.{OneOpen, create-OneOpen}
use nodepulse.Incident.History.{
  acknowledge-OneOpen, snooze-OneOpen, resolve-OneOpen, stale-OneOpen, abandoned-OneOpen,
}
use nodepulse.Incident.Runs.{watch_nodes-OneOpen, auto_close-OneOpen}

-- One call of the store, with the readings of the clock that it makes. `F` is the type of floats.
pub data Op (F : Type 0) : Type 0 where
  create : String → String → String → String → ℕ → Op F
  acknowledge : ℕ → ℕ → Op F
  snooze : ℕ → ℤ → ℕ → ℕ → Op F
  resolve : ℕ → ℕ → ℕ → Op F
  sweep_node : Heartbeat F → ℕ → Op F
  sweep_fleet : ℕ → Op F
  watchdog : List (String × ℕ) → ℕ → Op F
  close_maintained : ℕ → String → ℕ → ℕ → Op F

module _ {F : Type 0} (at_most : F → ℕ → Bool) (parse_chat : String → Option ℤ)
    (silence_detail : ℕ → String) where
  unfoldable pub apply_op : Store → Op F → Store
  apply_op p (create n s t d now) = (create_incident parse_chat p n s t d now).0
  apply_op p (acknowledge id now) = (acknowledge_incident p id now).0
  apply_op p (snooze id seconds now noted) = (snooze_incident p id seconds now noted).0
  apply_op p (resolve id user_id now) = (resolve_incident p id user_id now).0
  apply_op p (sweep_node hb now) = resolve_stale_incidents parse_chat at_most p hb now
  apply_op p (sweep_fleet now) = resolve_abandoned_across_fleet parse_chat p now
  apply_op p (watchdog nodes now) = (silent_node_watchdog parse_chat silence_detail p nodes now).0
  apply_op p (close_maintained user_id node_id now wall) =
      auto_close_incidents_in_maintenance p user_id node_id now wall

  unfoldable pub apply_ops : Store → List (Op F) → Store
  apply_ops p [] = p
  apply_ops p (op ∷ ops) = apply_ops (apply_op p op) ops

  apply_op-OneOpen : (p : Store) (op : Op F) → OneOpen p → OneOpen (apply_op p op)
  unfolding apply_op silent_node_watchdog
  apply_op-OneOpen p (create n s t d now) v = create-OneOpen parse_chat p n s t d now v
  apply_op-OneOpen p (acknowledge id now) v = acknowledge-OneOpen p id now v
  apply_op-OneOpen p (snooze id seconds now noted) v = snooze-OneOpen p id seconds now noted v
  apply_op-OneOpen p (resolve id user_id now) v = resolve-OneOpen p id user_id now v
  apply_op-OneOpen p (sweep_node hb now) v = stale-OneOpen parse_chat at_most p hb now v
  apply_op-OneOpen p (sweep_fleet now) v = abandoned-OneOpen parse_chat p now v
  apply_op-OneOpen p (watchdog nodes now) v =
      watch_nodes-OneOpen parse_chat silence_detail p nothing_done nodes now v
  apply_op-OneOpen p (close_maintained user_id node_id now wall) v =
      auto_close-OneOpen p user_id node_id now wall v

  -- If a table has at most one open incident for each node and title, then it has at most one after
  -- any history of creations, acknowledgements, snoozes, resolutions, resolution sweeps, watchdog
  -- rounds and maintenance closings, whichever of their SQL statements fail.
  pub apply_ops-OneOpen : (p : Store) (ops : List (Op F)) → OneOpen p → OneOpen (apply_ops p ops)
  unfolding apply_ops
  apply_ops-OneOpen p [] v = v
  apply_ops-OneOpen p (op ∷ ops) v = apply_ops-OneOpen (apply_op p op) ops (apply_op-OneOpen p op v)
