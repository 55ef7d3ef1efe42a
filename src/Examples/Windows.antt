-- ===== src/Examples/Windows.antt =====
-- A deployment of two nodes.
use nodepulse.Base.{◌≡◌, refl, true, [], ◌∷◌, none, str_eq, false}
use nodepulse.Base.Int.{pos}
use nodepulse.Store.{Store, MaintenanceRow}
use nodepulse.Maintenance.{
  MaintenanceWindowRequest, create_maintenance_window, request_error, is_node_silenced, has_part,
}
use nodepulse.Maintenance.Silence.{created_silences}
use nodepulse.Text.Split.{has_char, join_with}

abbrev quiet_store : Store
quiet_store = record {
  incidents = [];
  next_id = 1;
  owners = λ n. none;
  settings = λ u. none;
  windows = [];
  next_window = 1;
  faults = [];
  alerter = none;
  has_webhook = false;
  has_recorder = false;
  has_chat = false;
  default_chat_id = pos 0;
  outbox = [];
}

abbrev deployment : MaintenanceWindowRequest
deployment = record {
  node_ids = "n1" ∷ "n2" ∷ [];
  reason = "deploy";
  start_unix = pos 100;
  end_unix = pos 900;
  scope = "node";
}

abbrev stored_row : MaintenanceRow
stored_row = record {
  id = 1;
  user_id = pos 2;
  scope = "node";
  reason = "deploy";
  node_ids = "n1,n2";
  start_unix = pos 100;
  end_unix = pos 900;
  created_at = 50;
  created_by = "ops";
}

created_silences_example :
    (is_node_silenced
      (create_maintenance_window quiet_store (pos 2) deployment "ops" 50).0
      (pos 2)
      "n2"
      (pos 200)
      (pos 200)).1
    ≡ true
unfolding create_maintenance_window request_error has_char has_part str_eq join_with
created_silences_example =
    created_silences quiet_store 1 deployment "ops" "n1" "n2" ("n2" ∷ []) 50 stored_row (pos 200)
      (pos 200) refl refl refl (refl, (refl, tt)) refl refl refl refl refl
