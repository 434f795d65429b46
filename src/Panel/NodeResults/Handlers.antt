-- ===== src/Panel/NodeResults/Handlers.antt =====
-- panel/backend/app/routers/internal_worker_parts/nodes.py: the handlers of sync results and provision
-- results, and the retry rule of provisioning. A handler answers with the owners that it notifies.
use vpn_management_panel.Prelude.{
  ℕ, String, Bool, true, false, not, ◌&&◌, Option, none, some, List, map, ◌==◌, leb, text_or,
  mem_text, union, step_row, row_hit, any, if◌then◌else◌,
}
use vpn_management_panel.Panel.Models.{
  PeerStatus, SyncStatus, ProvisionStatus, OperationStatus, Interface, Node, Device, Peer,
  AsyncOperation, Db, is_deleted, is_pending_delete,
}
use vpn_management_panel.Panel.Errors.{Result, ok, err, M, not_found}
use vpn_management_panel.Panel.Addresses.{hit_ids, release_device_ips}
use vpn_management_panel.Panel.Remnawave.{purge_confirmed_remnawave_deletes}
use vpn_management_panel.Panel.NodeSync.PeerResult.{PeerSyncResult, apply_interface_result}
use vpn_management_panel.Panel.NodeResults.Replies.{
  Env, find_node, write_node, device_key, apply_peer_results, load_node_with_peers,
}

pub record SyncResult : Type 0 where
  pub succeeded : Bool
  pub error : Option String
  pub interface : Option Interface
  pub peers : List PeerSyncResult

pub record ProvisionResult : Type 0 where
  pub succeeded : Bool
  pub error : Option String
  pub interface : Option Interface

abbrev pub is_seen : Option String → List String → Bool
is_seen none seen_public_keys = false
is_seen (some key) seen_public_keys = mem_text key seen_public_keys

-- One round of the loop that confirms removals: a peer on its way out that the node did not report.
unfoldable pub confirm_peer : List Device → List String → Peer → Peer × Bool
confirm_peer devices seen_public_keys peer =
    if is_pending_delete peer.status && not (is_seen (device_key devices peer) seen_public_keys)
    then (record peer { status = PeerStatus.deleted }, true)
    else (peer, false)

-- The peers that were loaded, by their ids.
abbrev pub is_loaded : List Peer → Peer → Bool
is_loaded loaded p = any (λ q. q.id == p.id) loaded

-- The loop: the owners of the confirmed peers, the devices of the peers that are gone, and the
-- database.
unfoldable pub confirm_removals : List Peer → List String → Db → (List ℕ × List ℕ) × Db
unfolding confirm_peer hit_ids
confirm_removals loaded seen_public_keys db =
    let chosen = is_loaded loaded in
    let step = confirm_peer db.devices seen_public_keys in
    let peers = map (step_row chosen step) db.peers in
    (
      (
        hit_ids (row_hit chosen step) (λ p. p.user_id) db.peers,
        hit_ids (λ (p : Peer). chosen p && is_deleted p.status) (λ p. p.device_id) peers,
      ),
      record db { peers = peers },
    )

abbrev pub refreshed_interface : Option Interface → Interface → Interface
refreshed_interface none stored = stored
refreshed_interface (some sent) stored = apply_interface_result stored sent

abbrev pub owners_of : List Peer → List ℕ
owners_of peers = hit_ids (λ (p : Peer). true) (λ p. p.user_id) peers

abbrev pub failed_sync : Option String → Node → Node
failed_sync error n =
    let text = some (text_or error "Worker sync failed") in
    record n { sync_status = SyncStatus.failed; sync_error = text; last_error = text }

abbrev pub succeeded_sync : Option Interface → ℕ → Node → Node
succeeded_sync interface now n = record n {
  sync_status = SyncStatus.succeeded;
  sync_error = none;
  last_synced_at = some now;
  interface = refreshed_interface interface n.interface;
  last_error = none;
}

abbrev pub provisioned : ProvisionResult → Node → Node
provisioned sent n =
    if sent.succeeded
    then record n {
      provision_status = ProvisionStatus.succeeded;
      interface = refreshed_interface sent.interface n.interface;
      last_error = none;
    }
    else record n {
      provision_status = ProvisionStatus.failed;
      last_error = some (text_or sent.error "Worker provision failed");
    }

-- What is not found raises.
abbrev pub then_take : {A B : Type 0} → Result A → (A → Result B) → Result B
then_take (ok a) f = f a
then_take (err e) f = err e

module _ (env : Env) where
  -- The part of `node_sync_result` for a result that is not a failure.
  unfoldable pub apply_sync : Node → List Peer → SyncResult → Db → List ℕ × Db
  unfolding apply_interface_result apply_peer_results confirm_removals release_device_ips
      purge_confirmed_remnawave_deletes
  apply_sync node loaded sent db =
      let db' = write_node node.id (succeeded_sync sent.interface env.now) db in
      let seen = map (λ (r : PeerSyncResult). r.public_key) sent.peers in
      let (acknowledged, replied) = apply_peer_results env loaded sent.peers db' in
      let (confirmed, settled) = confirm_removals loaded seen replied in
      let (_, released) = release_device_ips confirmed.1 env.now settled in
      let (_, purged) = purge_confirmed_remnawave_deletes released in
      (union acknowledged confirmed.0, purged)

  -- Behind the load of the node and its peers.
  unfoldable pub take_sync : SyncResult → Db → Node × List Peer → Result (List ℕ × Db)
  unfolding text_or apply_sync hit_ids
  take_sync sent db (node, loaded) =
      if not sent.succeeded
      then ok (owners_of loaded, write_node node.id (failed_sync sent.error) db)
      else ok (apply_sync node loaded sent db)

  unfoldable pub node_sync_result : ℕ → SyncResult → M (List ℕ)
  unfolding load_node_with_peers take_sync
  node_sync_result node_id sent db =
      then_take (load_node_with_peers env node_id db) (take_sync sent db)

unfoldable pub node_provision_result : ℕ → ProvisionResult → M ProvisionStatus
unfolding apply_interface_result text_or
node_provision_result node_id sent db = elim (find_node node_id db.nodes) [
  | none ↦ err not_found
  | some node ↦
      ok ((provisioned sent node).provision_status, write_node node.id (provisioned sent) db)
]

-- `latest_operation.status in ACTIVE_OPERATION_STATUSES`
abbrev pub is_underway : OperationStatus → Bool
is_underway OperationStatus.queued = true
is_underway OperationStatus.pending = true
is_underway OperationStatus.running = true
is_underway _ = false

abbrev pub retry_after : ProvisionStatus → ℕ → ℕ → ℕ → Bool
retry_after ProvisionStatus.pending updated_at pending_cutoff failed_cutoff =
    leb updated_at pending_cutoff
retry_after ProvisionStatus.failed updated_at pending_cutoff failed_cutoff =
    leb updated_at failed_cutoff
retry_after _ updated_at pending_cutoff failed_cutoff = false

unfoldable pub provision_retry_due : Node → Option AsyncOperation → ℕ → ℕ → Bool
provision_retry_due node none pending_cutoff failed_cutoff = true
provision_retry_due node (some latest) pending_cutoff failed_cutoff =
    if is_underway latest.status
    then false
    else retry_after node.provision_status latest.updated_at pending_cutoff failed_cutoff
