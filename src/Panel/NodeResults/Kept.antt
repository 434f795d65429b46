-- ===== src/Panel/NodeResults/Kept.antt =====
-- The handlers of a node's results keep the invariant of ownership.
use vpn_management_panel.Prelude.{
  ℕ, String, ◌&&◌, ◌≡◌, inl, inr, Option, List, [], ◌∷◌, map, arith, add, step_row, Option-cases,
  Bool-cases, sorted_texts,
}
use vpn_management_panel.Panel.Models.{Node, Device, Peer, Target, AsyncOperation, Db}
use vpn_management_panel.Panel.Errors.{Result, ok, err}
use vpn_management_panel.Panel.Addresses.{release_device_ips}
use vpn_management_panel.Panel.Lifecycle.{enforce_local_lifecycle_for_user}
use vpn_management_panel.Panel.Operations.{enqueue_operation, new_operation, enqueue_all}
use vpn_management_panel.Panel.NodeSync.PeerResult.{PeerSyncResult, apply_peer_result}
use vpn_management_panel.Panel.NodeResults.Replies.{
  Env, Touched, untouched, peer_by_public_key, current_peer, enforce_limits, apply_reply,
  apply_replies, enqueue_touched, apply_peer_results, write_node, load_node_with_peers, sorted,
}
use vpn_management_panel.Panel.NodeResults.Handlers.{
  SyncResult, confirm_peer, confirm_removals, is_loaded, apply_sync, then_take, take_sync,
  node_sync_result, succeeded_sync,
}
use vpn_management_panel.Panel.NodeResults.Heartbeat.{
  HeartbeatResult, has_replies, apply_node_heartbeat_result, take_heartbeat, node_heartbeat_result,
}
use vpn_management_panel.Panel.Ownership.{IsSafe, IsWellFormed, IsKept}
use vpn_management_panel.Panel.Ownership.Tables.{IsOwned-map}
use vpn_management_panel.Panel.Ownership.Released.{release_device_ips-IsWellFormed}
use vpn_management_panel.Panel.Ownership.Standing.{enforce_local_lifecycle_for_user-IsWellFormed}
use vpn_management_panel.Panel.Ownership.Remote.{
  enforce_remnawave_combined_limit_for_user-IsWellFormed,
  purge_confirmed_remnawave_deletes-IsWellFormed,
}
use vpn_management_panel.Panel.Ownership.Replied.{apply_peer_result-IsWellFormed}

-- Commands that are queued leave the tables of devices and peers alone.
module _ (draw_id : List AsyncOperation → ℕ) (publish : AsyncOperation → Option String) where
  enqueue_operation-tables :
      (operation : AsyncOperation) (db : Db)
      → ((enqueue_operation draw_id publish operation db).devices ≡ db.devices)
        × ((enqueue_operation draw_id publish operation db).peers ≡ db.peers)
  unfolding enqueue_operation
  enqueue_operation-tables operation db = ground arith

  enqueue_all-IsWellFormed :
      (kind : String) (targets : List Target) (now : ℕ) (db : Db)
      → IsWellFormed db
      → IsWellFormed (enqueue_all draw_id publish kind targets now db)
  unfolding enqueue_all
  enqueue_all-IsWellFormed kind [] now db o = o
  enqueue_all-IsWellFormed kind (target ∷ targets) now db o =
      let operation = new_operation draw_id publish kind target now db in
      enqueue_all-IsWellFormed kind targets now (enqueue_operation draw_id publish operation db) (
        rw ((enqueue_operation-tables operation db).0, (enqueue_operation-tables operation db).1) o)

module _ (env : Env) where
  enforce_limits-IsWellFormed :
      (user_id : ℕ) (touched : Touched) (db : Db)
      → IsWellFormed db
      → IsWellFormed (enforce_limits env user_id touched db).1
  unfolding enforce_limits
  enforce_limits-IsWellFormed user_id touched db o =
      enforce_remnawave_combined_limit_for_user-IsWellFormed user_id
        (enforce_local_lifecycle_for_user env.fresh env.now user_id db).1
        (enforce_local_lifecycle_for_user-IsWellFormed env.fresh env.now user_id db o)

  apply_reply-IsWellFormed :
      (peer : Peer) (sent : PeerSyncResult) (touched : Touched) (db : Db)
      → IsWellFormed db
      → IsWellFormed (apply_reply env peer sent touched db).1
  unfolding apply_reply
  apply_reply-IsWellFormed peer sent touched db o =
      let kept = apply_peer_result-IsWellFormed env.draw_session peer sent env.now db o in
      let touched' : Touched = record touched {
        acknowledged_owner_ids = add peer.user_id touched.acknowledged_owner_ids;
      } in
      elim (Option-cases (apply_peer_result env.draw_session peer sent env.now db).0) [
        | inl e ↦ rw (e, apply_reply) kept
        | inr (row, e) ↦
            rw (e, apply_reply)
              (enforce_limits-IsWellFormed peer.user_id touched'
                (apply_peer_result env.draw_session peer sent env.now db).1 kept)
      ]

  apply_replies-IsWellFormed :
      (index : String → Option ℕ) (replies : List PeerSyncResult) (touched : Touched) (db : Db)
      → IsWellFormed db
      → IsWellFormed (apply_replies env index replies touched db).1
  unfolding apply_replies
  apply_replies-IsWellFormed index [] touched db o = o
  apply_replies-IsWellFormed index (sent ∷ replies) touched db o =
      elim (Option-cases (current_peer (index sent.public_key) db.peers)) [
        | inl e ↦ rw (e, apply_replies) (apply_replies-IsWellFormed index replies touched db o)
        | inr (peer, e) ↦
            rw (e, apply_replies)
              (apply_replies-IsWellFormed index replies _ (apply_reply env peer sent touched db).1
                (apply_reply-IsWellFormed peer sent touched db o))
      ]

  enqueue_touched-IsWellFormed :
      (touched : Touched) (db : Db)
      → IsWellFormed db
      → IsWellFormed (enqueue_touched env touched db)
  unfolding enqueue_touched
  enqueue_touched-IsWellFormed touched db o =
      let enqueue = enqueue_all env.draw_operation env.publish in
      let nodes = λ (ids : List ℕ). map Target.node (sorted ids) in
      let step = enqueue_all-IsWellFormed env.draw_operation env.publish in
      let one = enqueue "sync_node" (nodes touched.local_lifecycle_node_ids) env.now db in
      let two = enqueue "sync_node" (nodes touched.limited_node_ids) env.now one in
      step "remnawave_disable_user"
        (map Target.remnawave_user (sorted_texts touched.remote_disable_uuids)) env.now two
        (step "sync_node" (nodes touched.limited_node_ids) env.now one
          (step "sync_node" (nodes touched.local_lifecycle_node_ids) env.now db o))

  apply_peer_results-IsWellFormed :
      (peers : List Peer) (replies : List PeerSyncResult) (db : Db)
      → IsWellFormed db
      → IsWellFormed (apply_peer_results env peers replies db).1
  unfolding apply_peer_results
  apply_peer_results-IsWellFormed peers replies db o =
      let index = peer_by_public_key db.devices peers in
      let (touched, db') = apply_replies env index replies untouched db in
      enqueue_touched-IsWellFormed touched db'
        (apply_replies-IsWellFormed index replies untouched db o)

confirm_peer-IsSafe :
    (devices rows : List Device) (seen : List String) (loaded : List Peer) (p : Peer)
    → IsSafe devices p
    → IsSafe devices (step_row (is_loaded loaded) (confirm_peer rows seen) p)
unfolding confirm_peer
confirm_peer-IsSafe devices rows seen loaded p h = ground arith

confirm_removals-IsWellFormed :
    (loaded : List Peer) (seen : List String) (db : Db)
    → IsWellFormed db
    → IsWellFormed (confirm_removals loaded seen db).1
unfolding confirm_removals
confirm_removals-IsWellFormed loaded seen db =
    IsOwned-map (step_row (is_loaded loaded) (confirm_peer db.devices seen))
      (confirm_peer-IsSafe db.devices db.devices seen loaded)

then_take-IsKept :
    {A B : Type 0} (r : Result A) (f : A → Result (B × Db))
    → ((a : A) → IsKept (f a))
    → IsKept (then_take r f)
then_take-IsKept (ok a) f h = h a
then_take-IsKept (err e) f h = tt

module _ (env : Env) where
  apply_sync-IsWellFormed :
      (node : Node) (loaded : List Peer) (sent : SyncResult) (db : Db)
      → IsWellFormed db
      → IsWellFormed (apply_sync env node loaded sent db).1
  unfolding apply_sync
  apply_sync-IsWellFormed node loaded sent db o =
      let seen = map (λ (r : PeerSyncResult). r.public_key) sent.peers in
      let db' : Db = write_node node.id (succeeded_sync sent.interface env.now) db in
      let replied : Db = (apply_peer_results env loaded sent.peers db').1 in
      let (confirmed, settled) = confirm_removals loaded seen replied in
      purge_confirmed_remnawave_deletes-IsWellFormed
        (release_device_ips confirmed.1 env.now settled).1
        (release_device_ips-IsWellFormed confirmed.1 env.now settled (
          confirm_removals-IsWellFormed loaded seen replied
            (apply_peer_results-IsWellFormed env loaded sent.peers db' o)))

  take_sync-IsKept :
      (found : Node × List Peer) (sent : SyncResult) (db : Db)
      → IsWellFormed db
      → IsKept (take_sync env sent db found)
  unfolding take_sync
  take_sync-IsKept (node, loaded) sent db o = elim (Bool-cases sent.succeeded) [
    | inl e ↦ rw e (apply_sync-IsWellFormed node loaded sent db o)
    | inr e ↦ rw e o
  ]

  take_heartbeat-IsKept :
      (found : Node × List Peer) (sent : HeartbeatResult) (db : Db)
      → IsWellFormed db
      → IsKept (take_heartbeat env sent db found)
  unfolding take_heartbeat
  take_heartbeat-IsKept (node, loaded) sent db o =
      elim (Bool-cases (sent.succeeded && has_replies sent.peers)) [
        | inl e ↦ rw e (
            apply_peer_results-IsWellFormed env loaded sent.peers
              (write_node node.id (apply_node_heartbeat_result sent env.now) db) o)
        | inr e ↦ rw e o
      ]

  -- A sync result of a node, failed or not, with whatever replies, keeps the invariant of ownership.
  pub node_sync_result-IsKept :
      (node_id : ℕ) (sent : SyncResult) (db : Db)
      → IsWellFormed db
      → IsKept (node_sync_result env node_id sent db)
  unfolding node_sync_result
  node_sync_result-IsKept node_id sent db o =
      then_take-IsKept (load_node_with_peers env node_id db) (take_sync env sent db)
        (λ found. take_sync-IsKept found sent db o)

  -- A heartbeat result, with whatever replies, keeps the invariant of ownership.
  pub node_heartbeat_result-IsKept :
      (node_id : ℕ) (sent : HeartbeatResult) (db : Db)
      → IsWellFormed db
      → IsKept (node_heartbeat_result env node_id sent db)
  unfolding node_heartbeat_result
  node_heartbeat_result-IsKept node_id sent db o =
      then_take-IsKept (load_node_with_peers env node_id db) (take_heartbeat env sent db)
        (λ found. take_heartbeat-IsKept found sent db o)
