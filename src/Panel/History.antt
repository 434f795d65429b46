-- ===== src/Panel/History.antt =====
-- The transactions of the panel that change devices or peers, as steps between databases, all under
-- panel/backend/app: `create_device`, `create_pending_peers_for_node` and `delete_device` of
-- services/devices.py, the lifecycle passes of services/local_lifecycle.py and
-- services/remnawave_sync.py, the requests on accounts and nodes of routers/api_parts/users.py and
-- nodes.py, the remote deletion of routers/internal_worker_parts/remnawave.py, and the handlers of sync
-- results and heartbeats of routers/internal_worker_parts/nodes.py.
pub mod Addresses
use vpn_management_panel.Prelude.{ℕ, String, ◌≡◌, Option, none, some, List, refl, subst}
use vpn_management_panel.Panel.Models.{RemoteStatus, Node, User, Device, Db}
use vpn_management_panel.Panel.Errors.{Result, ok, err, M}
use vpn_management_panel.Panel.Crypto.{clients}
use vpn_management_panel.Panel.Creation.{Draws, create_device}
use vpn_management_panel.Panel.Provisioning.{Fresh, create_pending_peers_for_node}
use vpn_management_panel.Panel.Deletion.{delete_device}
use vpn_management_panel.Panel.Lifecycle.{enforce_local_lifecycle_for_user}
use vpn_management_panel.Panel.Remnawave.{
  apply_remnawave_lifecycle, enforce_remnawave_combined_limit_for_user,
  reconcile_missing_remnawave_users, purge_confirmed_remnawave_deletes,
}
use vpn_management_panel.Panel.Accounts.{
  LocalUserLifecycleUpdate, block_user, unblock_user, update_local_lifecycle, reset_local_traffic,
  delete_user, delete_node, mark_remnawave_user_deleted,
}
use vpn_management_panel.Panel.Accounts.Kept.{
  block_user-IsKept, unblock_user-IsKept, update_local_lifecycle-IsKept, reset_local_traffic-IsKept,
  delete_user-IsKept, delete_node-IsKept, mark_remnawave_user_deleted-IsWellFormed,
}
use vpn_management_panel.Panel.NodeSync.PeerResult.{PeerSyncResult}
use vpn_management_panel.Panel.NodeResults.Replies.{Env}
use vpn_management_panel.Panel.NodeResults.Handlers.{SyncResult, node_sync_result}
use vpn_management_panel.Panel.NodeResults.Heartbeat.{HeartbeatResult, node_heartbeat_result}
use vpn_management_panel.Panel.NodeResults.Kept.{
  node_sync_result-IsKept, node_heartbeat_result-IsKept,
}
use vpn_management_panel.Panel.Ownership.{IsWellFormed, IsKept}
use vpn_management_panel.Panel.Ownership.Created.{AreFilled, create_device-IsKept}
use vpn_management_panel.Panel.Ownership.Provisioned.{create_pending_peers_for_node-IsWellFormed}
use vpn_management_panel.Panel.Ownership.Released.{delete_device-IsWellFormed}
use vpn_management_panel.Panel.Ownership.Standing.{enforce_local_lifecycle_for_user-IsWellFormed}
use vpn_management_panel.Panel.Ownership.Remote.{
  apply_remnawave_lifecycle-IsWellFormed, enforce_remnawave_combined_limit_for_user-IsWellFormed,
  reconcile_missing_remnawave_users-IsWellFormed, purge_confirmed_remnawave_deletes-IsWellFormed,
}

-- One database is followed by another after some transactions, the last one first. What commits
-- while a device is being created is such a history too, one for each attempt.
pub data Reach (hosts : List String) : Db → Db → Type 0 where
  start : {db : Db} → Reach hosts db db
  device_created :
      {first db after : Db} (others : ℕ → Db → Db)
      (meanwhile : (n : ℕ) (d : Db) → Reach hosts d (others n d)) (draws : Draws) (fresh : Fresh)
      (now user_id : ℕ) (name : String) (answer : Device × List ℕ)
      → Reach hosts first db
      → create_device hosts others draws fresh now user_id name db ≡ ok (answer, after)
      → Reach hosts first after
  device_deleted :
      {first db : Db} (at now device_id : ℕ)
      → Reach hosts first db
      → Reach hosts first (delete_device at now device_id db).1
  node_filled :
      {first db : Db} (fresh : Fresh) (node : Node)
      → Reach hosts first db
      → Reach hosts first (create_pending_peers_for_node fresh node db).1
  local_enforced :
      {first db : Db} (fresh : Fresh) (now user_id : ℕ)
      → Reach hosts first db
      → Reach hosts first (enforce_local_lifecycle_for_user fresh now user_id db).1
  remote_applied :
      {first db : Db} (fresh : Fresh) (now user_id : ℕ) (status : RemoteStatus)
      (expire_at : Option ℕ)
      → Reach hosts first db
      → Reach hosts first (apply_remnawave_lifecycle fresh now user_id status expire_at db).1
  remote_limited :
      {first db : Db} (user_id : ℕ)
      → Reach hosts first db
      → Reach hosts first (enforce_remnawave_combined_limit_for_user user_id db).1
  remote_reconciled :
      {first db : Db} (seen_uuids : List String) (reason : String)
      → Reach hosts first db
      → Reach hosts first (reconcile_missing_remnawave_users seen_uuids reason db).1
  remote_purged :
      {first db : Db}
      → Reach hosts first db
      → Reach hosts first (purge_confirmed_remnawave_deletes db).1
  node_synced :
      {first db after : Db} (env : Env) (node_id : ℕ) (sent : SyncResult) (owners : List ℕ)
      → Reach hosts first db
      → node_sync_result env node_id sent db ≡ ok (owners, after)
      → Reach hosts first after
  node_reported :
      {first db after : Db} (env : Env) (node_id : ℕ) (sent : HeartbeatResult) (owners : List ℕ)
      → Reach hosts first db
      → node_heartbeat_result env node_id sent db ≡ ok (owners, after)
      → Reach hosts first after
  user_blocked :
      {first db after : Db} (fresh : Fresh) (now user_id : ℕ) (nodes : List ℕ)
      → Reach hosts first db
      → block_user fresh now user_id db ≡ ok (nodes, after)
      → Reach hosts first after
  user_unblocked :
      {first db after : Db} (fresh : Fresh) (now user_id : ℕ) (nodes : List ℕ)
      → Reach hosts first db
      → unblock_user fresh now user_id db ≡ ok (nodes, after)
      → Reach hosts first after
  lifecycle_updated :
      {first db after : Db} (fresh : Fresh) (now user_id : ℕ) (sent : LocalUserLifecycleUpdate)
      (nodes : List ℕ)
      → Reach hosts first db
      → update_local_lifecycle fresh now user_id sent db ≡ ok (nodes, after)
      → Reach hosts first after
  traffic_reset :
      {first db after : Db} (fresh : Fresh) (now user_id : ℕ) (nodes : List ℕ)
      → Reach hosts first db
      → reset_local_traffic fresh now user_id db ≡ ok (nodes, after)
      → Reach hosts first after
  user_deleted :
      {first db after : Db} (user_id : ℕ) (nodes : List ℕ)
      → Reach hosts first db
      → delete_user user_id db ≡ ok (nodes, after)
      → Reach hosts first after
  node_deleted :
      {first db after : Db} (env : Env) (node_id : ℕ) (nodes : List ℕ)
      → Reach hosts first db
      → delete_node env node_id db ≡ ok (nodes, after)
      → Reach hosts first after
  remote_deleted :
      {first db : Db} (now : ℕ) (user_uuid : String)
      → Reach hosts first db
      → Reach hosts first (mark_remnawave_user_deleted now user_uuid db).1

-- What a transaction that succeeds leaves.
IsKept-ok :
    {A : Type 0} (r : Result (A × Db)) (a : A) (db : Db)
    → r ≡ ok (a, db)
    → IsKept r
    → IsWellFormed db
IsKept-ok r a db e kept = subst IsKept e kept

module _ (hosts : List String) (host_texts : AreFilled (clients hosts)) where
  -- Every history of transactions keeps the invariant of ownership.
  pub Reach-IsWellFormed :
      (db after : Db) → Reach hosts db after → IsWellFormed db → IsWellFormed after
  Reach-IsWellFormed db after start o = o
  Reach-IsWellFormed first after
        (device_created {db = db} others meanwhile draws fresh now user_id name answer r e) o =
      IsKept-ok _ answer after e (
        create_device-IsKept hosts host_texts others
          (λ n d. Reach-IsWellFormed d (others n d) (meanwhile n d)) draws fresh now user_id name db
          (Reach-IsWellFormed first db r o))
  Reach-IsWellFormed first after (device_deleted {db = db} at now device_id r) o =
      delete_device-IsWellFormed at now device_id db (Reach-IsWellFormed first db r o)
  Reach-IsWellFormed first after (node_filled {db = db} fresh node r) o =
      create_pending_peers_for_node-IsWellFormed fresh node db (Reach-IsWellFormed first db r o)
  Reach-IsWellFormed first after (local_enforced {db = db} fresh now user_id r) o =
      enforce_local_lifecycle_for_user-IsWellFormed fresh now user_id db
        (Reach-IsWellFormed first db r o)
  Reach-IsWellFormed first after (remote_applied {db = db} fresh now user_id status expire_at r) o =
      apply_remnawave_lifecycle-IsWellFormed fresh now user_id status expire_at db
        (Reach-IsWellFormed first db r o)
  Reach-IsWellFormed first after (remote_limited {db = db} user_id r) o =
      enforce_remnawave_combined_limit_for_user-IsWellFormed user_id db
        (Reach-IsWellFormed first db r o)
  Reach-IsWellFormed first after (remote_reconciled {db = db} seen_uuids reason r) o =
      reconcile_missing_remnawave_users-IsWellFormed seen_uuids reason db
        (Reach-IsWellFormed first db r o)
  Reach-IsWellFormed first after (remote_purged {db = db} r) o =
      purge_confirmed_remnawave_deletes-IsWellFormed db (Reach-IsWellFormed first db r o)
  Reach-IsWellFormed first after (node_synced {db = db} env node_id sent owners r e) o =
      IsKept-ok _ owners after e
        (node_sync_result-IsKept env node_id sent db (Reach-IsWellFormed first db r o))
  Reach-IsWellFormed first after (node_reported {db = db} env node_id sent owners r e) o =
      IsKept-ok _ owners after e
        (node_heartbeat_result-IsKept env node_id sent db (Reach-IsWellFormed first db r o))
  Reach-IsWellFormed first after (user_blocked {db = db} fresh now user_id nodes r e) o =
      IsKept-ok _ nodes after e
        (block_user-IsKept fresh now user_id db (Reach-IsWellFormed first db r o))
  Reach-IsWellFormed first after (user_unblocked {db = db} fresh now user_id nodes r e) o =
      IsKept-ok _ nodes after e
        (unblock_user-IsKept fresh now user_id db (Reach-IsWellFormed first db r o))
  Reach-IsWellFormed first after (lifecycle_updated {db = db} fresh now user_id sent nodes r e) o =
      IsKept-ok _ nodes after e
        (update_local_lifecycle-IsKept fresh now user_id sent db (Reach-IsWellFormed first db r o))
  Reach-IsWellFormed first after (traffic_reset {db = db} fresh now user_id nodes r e) o =
      IsKept-ok _ nodes after e
        (reset_local_traffic-IsKept fresh now user_id db (Reach-IsWellFormed first db r o))
  Reach-IsWellFormed first after (user_deleted {db = db} user_id nodes r e) o =
      IsKept-ok _ nodes after e (delete_user-IsKept user_id db (Reach-IsWellFormed first db r o))
  Reach-IsWellFormed first after (node_deleted {db = db} env node_id nodes r e) o =
      IsKept-ok _ nodes after e
        (delete_node-IsKept env node_id db (Reach-IsWellFormed first db r o))
  Reach-IsWellFormed first after (remote_deleted {db = db} now user_uuid r) o =
      mark_remnawave_user_deleted-IsWellFormed now user_uuid db (Reach-IsWellFormed first db r o)
