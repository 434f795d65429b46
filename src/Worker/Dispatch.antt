-- ===== src/Worker/Dispatch.antt =====
-- panel/worker/app/handlers.py: a command's way to its handler and its operation's result, and the
-- handlers of the commands on nodes. The backend is reached over HTTP, and its answers are outside.
pub mod Loops
pub mod Reported
mod Tests
use vpn_management_panel.Prelude.{
  ℕ, suc, ◌+◌, ◌-◌, String, Bool, true, false, Option, none, some, List, [], ◌∷◌, length, count_if,
  filled, text_or, rstrip_char, ◌<>◌, if◌then◌else◌,
}
use vpn_management_panel.Panel.NodeSnapshot.{Snapshot, Fields}
use vpn_management_panel.Worker.NodeClient.{
  Exception, http_status_error, error, message_of, Outcome, done, raised, Io, ◌>>=◌, ◌>>◌, pure,
  raise, catch, trimmed, Connection, NodeAgent,
}
use vpn_management_panel.Worker.Queue.{Command, WorkerCommand}
use vpn_management_panel.Worker.Handlers.{
  SyncResult, PeerResult, Report, peer_results, apply_snapshot, connection, has_status,
}

-- `_provision_result`: what is reported of a provisioning.
pub data ProvisionReport : Type 0 where
  provisioned : Fields → ProvisionReport
  not_provisioned : String → ProvisionReport

unfoldable pub provision_result : Report → ProvisionReport
provision_result (Report.succeeded result) = provisioned result.interface
provision_result (Report.failed message) =
    not_provisioned (text_or (some message) "provision failed")

pub data Heartbeat : Type 0 where
  reached : List PeerResult → Heartbeat
  unreached : String → Heartbeat

abbrev pub is_reached : Heartbeat → Bool
is_reached (reached peers) = true
is_reached (unreached message) = false

-- What a handler answers. The results of the commands on Remnawave and on the Telegram proxy are
-- those of the handlers passed to `operation_handler`.
pub data HandlerResult : Type 0 where
  synced : SyncResult → HandlerResult
  synced_all : (nodes succeeded failed : ℕ) → HandlerResult
  checked : Heartbeat → HandlerResult
  checked_all : (nodes reachable unreachable : ℕ) → HandlerResult
  answered : Fields → HandlerResult

-- `CommandResult`
pub data CommandResult : Type 0 where
  ok : HandlerResult → CommandResult
  skipped : CommandResult
  not_ok : (detail : String) → CommandResult

-- The requests to the backend.
pub record Backend (S : Type 0) : Type 0 where
  pub start_operation : String → Io S (Unit {0})
  pub succeed_operation : String → HandlerResult → Io S (Unit {0})
  pub fail_operation : String → String → Io S (Unit {0})
  pub fetch_sync_snapshot : Io S (List Snapshot)
  pub fetch_node_sync_snapshot : String → Io S Snapshot
  pub fetch_node_provision_snapshot : String → Io S Snapshot
  pub report_sync_result : ℕ → Report → Io S (Unit {0})
  pub report_provision_result : ℕ → ProvisionReport → Io S (Unit {0})
  pub report_heartbeat_result : ℕ → Heartbeat → Io S (Unit {0})

module _ {S : Type 0} (backend : Backend S) (agent : NodeAgent S) where
  -- `try: result = await self._apply_snapshot(snapshot)`
  unfoldable pub attempt : Snapshot → Io S Report
  unfolding apply_snapshot
  attempt snapshot =
      catch (apply_snapshot agent snapshot >>= λ result. pure (Report.succeeded result))
        λ e. pure (Report.failed (message_of e))

  -- `if not result['ok']: raise RuntimeError(...)`
  abbrev pub settle : Report → Io S SyncResult
  settle (Report.succeeded result) = pure result
  settle (Report.failed message) = raise (error message)

  -- `_sync_snapshot`
  unfoldable pub sync_snapshot : Snapshot → Io S SyncResult
  unfolding attempt
  sync_snapshot snapshot =
      attempt snapshot >>= λ result. backend.report_sync_result snapshot.id result >> settle result

  -- `_provision_snapshot`
  unfoldable pub provision_snapshot : Snapshot → Io S SyncResult
  unfolding attempt provision_result
  provision_snapshot snapshot = attempt snapshot >>= λ result.
      backend.report_provision_result snapshot.id (provision_result result) >> settle result

  -- `_heartbeat_snapshot`
  unfoldable pub heartbeat_snapshot : Snapshot → Io S Heartbeat
  unfolding peer_results
  heartbeat_snapshot snapshot =
      let c = trimmed (connection snapshot) in
      catch
        (agent.get_health c >> (agent.get_dump c >>= λ dump. pure (reached (peer_results dump))))
        (λ e. pure (unreached (message_of e)))
      >>= λ result. backend.report_heartbeat_result snapshot.id result >> pure result

  -- The loop of `_sync_all`.
  unfoldable pub sync_each : List Snapshot → Io S (List SyncResult)
  unfolding sync_snapshot
  sync_each [] = pure []
  sync_each (snapshot ∷ snapshots) = sync_snapshot snapshot >>= λ result.
      sync_each snapshots >>= λ results. pure (result ∷ results)

  -- `_sync_all`: every result that the loop returns has `ok`.
  unfoldable pub sync_all : Io S HandlerResult
  unfolding sync_each
  sync_all = backend.fetch_sync_snapshot >>= λ snapshots. sync_each snapshots >>= λ results.
      let succeeded = count_if (λ (r : SyncResult). true) results in
      pure (synced_all (length results) succeeded (length results - succeeded))

  -- The loop of `_handle_health_check_all`.
  unfoldable pub heartbeat_each : List Snapshot → Io S (List Heartbeat)
  unfolding heartbeat_snapshot
  heartbeat_each [] = pure []
  heartbeat_each (snapshot ∷ snapshots) = heartbeat_snapshot snapshot >>= λ result.
      heartbeat_each snapshots >>= λ results. pure (result ∷ results)

  -- `_handle_health_check_all`
  unfoldable pub handle_health_check_all : Io S HandlerResult
  unfolding heartbeat_each
  handle_health_check_all = backend.fetch_sync_snapshot >>= λ snapshots.
      heartbeat_each snapshots >>= λ results.
      let reachable = count_if is_reached results in
      pure (checked_all (length results) reachable (length results - reachable))

  -- `_require_node_id`
  unfoldable pub require_node_id : WorkerCommand → String → Io S String
  unfolding filled
  require_node_id command name =
      let target = text_or command.target_id "" in
      if filled target then pure target else raise (error (name <> " requires target_id"))

  unfoldable pub sync_node : WorkerCommand → Io S HandlerResult
  unfolding require_node_id sync_snapshot
  sync_node command = require_node_id command "sync_node" >>= λ node_id.
      backend.fetch_node_sync_snapshot node_id >>= λ snapshot.
      sync_snapshot snapshot >>= λ result. pure (synced result)

  unfoldable pub provision_node : WorkerCommand → Io S HandlerResult
  unfolding require_node_id provision_snapshot
  provision_node command = require_node_id command "provision_node" >>= λ node_id.
      backend.fetch_node_provision_snapshot node_id >>= λ snapshot.
      provision_snapshot snapshot >>= λ result. pure (synced result)

  unfoldable pub health_check_node : WorkerCommand → Io S HandlerResult
  unfolding require_node_id heartbeat_snapshot
  health_check_node command = require_node_id command "health_check_node" >>= λ node_id.
      backend.fetch_node_sync_snapshot node_id >>= λ snapshot.
      heartbeat_snapshot snapshot >>= λ result. pure (checked result)

  -- `_operation_handlers`, with the handlers of the other commands.
  unfoldable pub operation_handler :
      (WorkerCommand → Io S HandlerResult) → WorkerCommand → Io S HandlerResult
  unfolding sync_all sync_node provision_node handle_health_check_all health_check_node
  operation_handler others command = elim command.command [
    | Command.sync_all ↦ sync_all
    | Command.sync_node ↦ sync_node command
    | Command.provision_node ↦ provision_node command
    | Command.health_check_all ↦ handle_health_check_all
    | Command.health_check_node ↦ health_check_node command
    | _ ↦ others command
  ]

abbrev pub command_result : Option HandlerResult → CommandResult
command_result none = skipped
command_result (some result) = ok result

module _ {S : Type 0} (backend : Backend S) where
  -- The start of a tracked operation: `none` when another worker has it.
  abbrev pub start : WorkerCommand → Io S Bool
  start command =
      if command.track_operation
      then catch (backend.start_operation command.operation_id >> pure true)
          (λ e. if has_status 409 e then pure false else raise e)
      else pure true

  -- `_dispatch`
  unfoldable pub dispatch :
      (WorkerCommand → Io S HandlerResult) → WorkerCommand → Io S (Option HandlerResult)
  dispatch handler command = start command >>= λ started.
      if started
      then (handler command >>= λ result.
          if command.track_operation
          then (backend.succeed_operation command.operation_id result >> pure (some result))
          else pure (some result))
      else pure none

  -- `handle`
  unfoldable pub handle : (WorkerCommand → Io S HandlerResult) → WorkerCommand → Io S CommandResult
  unfolding dispatch
  handle handler command =
      catch (dispatch handler command >>= λ result. pure (command_result result)) λ e.
        if command.track_operation
        then (backend.fail_operation command.operation_id (message_of e)
            >> pure (not_ok (message_of e)))
        else pure (not_ok (message_of e))
