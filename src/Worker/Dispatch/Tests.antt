-- ===== src/Worker/Dispatch/Tests.antt =====
-- Runs of the worker's commands against a sample backend.
use vpn_management_panel.Prelude.{
  ℕ, ◌+◌, ◌≡◌, refl, String, true, none, some, List, [], ◌∷◌, str_eq, if◌then◌else◌,
}
use vpn_management_panel.Panel.Models.{ProvisionStatus}
use vpn_management_panel.Panel.NodeSnapshot.{Snapshot}
use vpn_management_panel.Worker.NodeClient.{error, http_status_error, done, raised, Io, NodeAgent}
use vpn_management_panel.Worker.Queue.{Command, TargetType, WorkerCommand}
use vpn_management_panel.Worker.Handlers.{
  apply_snapshot, SyncResult, peers_to_put, active_peers, delete_now, peers_to_delete,
}
use vpn_management_panel.Worker.Dispatch.{
  Backend, HandlerResult, synced_all, checked_all, sync_snapshot, sync_each, sync_all,
  handle_health_check_all, handle,
}
use vpn_management_panel.Worker.Dispatch.Loops.{sync_all-raised, handle_health_check_all-done}
use vpn_management_panel.Worker.Dispatch.Reported.{handle-raised}

-- An agent whose nodes answer, but for those with the token "down".
abbrev agent : NodeAgent ℕ
agent = record {
  get_health = λ c s. done tt (s + 1);
  get_status = λ c s. done (record { interface = []; endpoint = none; peers = [] }) (s + 1);
  get_dump = λ c s. done (record { interface = []; peers = [] }) (s + 1);
  put_interface = λ c sent s.
      if str_eq c.token "down" then raised (error "timed out") (s + 1) else done sent (s + 1);
  put_peer = λ c p s. done tt (s + 1);
  delete = λ c path s. done tt (s + 1);
}

abbrev node_with : ℕ → String → Snapshot
node_with id token = record {
  id = id;
  name = "node";
  url = "http://10.0.0.1:8000";
  token = token;
  provision_status = ProvisionStatus.succeeded;
  interface = [];
  peers = [];
}

abbrev up : Snapshot
up = node_with 1 "up"

abbrev down : Snapshot
down = node_with 2 "down"

abbrev backend : Backend ℕ
backend = record {
  start_operation = λ id s.
      if str_eq id "taken"
      then raised (http_status_error 409 "/start" "" "409 Conflict") (s + 1)
      else done tt (s + 1);
  succeed_operation = λ id result s. done tt (s + 1);
  fail_operation = λ id message s. raised (error "backend is down") (s + 1);
  fetch_sync_snapshot = λ s. done (up ∷ up ∷ []) (s + 1);
  fetch_node_sync_snapshot = λ id s. done up (s + 1);
  fetch_node_provision_snapshot = λ id s. done up (s + 1);
  report_sync_result = λ id result s. done tt (s + 1);
  report_provision_result = λ id result s. done tt (s + 1);
  report_heartbeat_result = λ id result s. done tt (s + 1);
}

abbrev command : String → WorkerCommand
command id = record {
  command = Command.sync_node;
  idempotency_key = "key";
  operation_id = id;
  track_operation = true;
  target_type = TargetType.node;
  target_id = some "1";
}

-- The second of three nodes is down.
abbrev trio : Backend ℕ
trio = record backend { fetch_sync_snapshot = λ s. done (up ∷ down ∷ up ∷ []) (s + 1) }

second_fails : apply_snapshot agent down 6 ≡ raised (error "timed out") 7
unfolding apply_snapshot str_eq
second_fails = refl

first_after : (results : List SyncResult) × (sync_each trio agent (up ∷ []) 1 ≡ done results 6)
unfolding sync_each sync_snapshot str_eq peers_to_put active_peers delete_now peers_to_delete
first_after = (_, refl)

sync_all-raised_example : sync_all trio agent 0 ≡ raised (error "timed out") 8
sync_all-raised_example =
    sync_all-raised trio agent (up ∷ []) (up ∷ []) down 0 1 6 7 8 refl first_after.1 second_fails
      refl

all_run : sync_all backend agent 0 ≡ done (synced_all 2 2 0) 11
unfolding sync_all str_eq peers_to_put active_peers delete_now peers_to_delete
all_run = refl

handle_health_check_all-done_example :
    (reachable unreachable : ℕ) × (s' : ℕ) × (handle_health_check_all backend agent 0
      ≡ done (checked_all 2 reachable unreachable) s')
    × (reachable + unreachable ≡ 2)
handle_health_check_all-done_example =
    handle_health_check_all-done backend agent (up ∷ up ∷ []) 0 1 (λ id result s. (s + 1, refl))
      refl

-- A handler that raises.
abbrev broken : WorkerCommand → Io ℕ HandlerResult
broken command s = raised (error "broken") (s + 1)

broken_run : handle backend broken (command "1") 0 ≡ raised (error "backend is down") 3
unfolding handle str_eq
broken_run = refl

handle-raised_example :
    (true ≡ true)
    × (message : String) × (s₁ : ℕ) × (backend.fail_operation "1" message s₁
        ≡ raised (error "backend is down") 3)
handle-raised_example =
    handle-raised backend broken (command "1") 0 3 (error "backend is down") broken_run

taken_start :
    backend.start_operation "taken" 0 ≡ raised (http_status_error 409 "/start" "" "409 Conflict") 1
unfolding str_eq
taken_start = refl
