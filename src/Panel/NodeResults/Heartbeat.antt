-- ===== src/Panel/NodeResults/Heartbeat.antt =====
-- panel/backend/app/routers/internal_worker_parts/nodes.py: the handler of heartbeat results. It
-- answers with the owners that it notifies.
pub mod Repeated
use vpn_management_panel.Prelude.{
  ℕ, ◌+◌, String, Bool, true, false, not, ◌&&◌, ◌||◌, Option, none, some, List, [], ◌∷◌, leb,
  str_eq, same_text, text_or, if◌then◌else◌,
}
use vpn_management_panel.Panel.Models.{Node, Peer, Db}
use vpn_management_panel.Panel.Errors.{Result, ok, err, M}
use vpn_management_panel.Panel.NodeSync.PeerResult.{PeerSyncResult}
use vpn_management_panel.Panel.NodeResults.Handlers.{then_take}
use vpn_management_panel.Panel.NodeResults.Replies.{
  Env, write_node, apply_peer_results, load_node_with_peers,
}

pub record HeartbeatResult : Type 0 where
  pub succeeded : Bool
  pub error : Option String
  pub peers : List PeerSyncResult

-- 60 seconds, in microseconds
abbrev pub heartbeat_timestamp_write_interval : ℕ
heartbeat_timestamp_write_interval = 60_000_000

abbrev pub is_interval_over : Option ℕ → ℕ → Bool
is_interval_over none observed_at = true
is_interval_over (some last) observed_at =
    leb (last + heartbeat_timestamp_write_interval) observed_at

unfoldable pub heartbeat_timestamp_due : Node → ℕ → Bool
heartbeat_timestamp_due node observed_at = is_interval_over node.last_heartbeat_at observed_at

abbrev pub heartbeat_error : HeartbeatResult → Option String
heartbeat_error sent =
    if sent.succeeded then none else some (text_or sent.error "Worker heartbeat failed")

abbrev pub reachability : Bool → String
reachability succeeded = if succeeded then "reachable" else "unreachable"

abbrev pub health : Bool → String
health succeeded = if succeeded then "online" else "offline"

unfoldable pub status_changed : Node → HeartbeatResult → Bool
unfolding str_eq text_or
status_changed node sent =
    not (str_eq node.reachability_status (reachability sent.succeeded))
    || not (str_eq node.health_status (health sent.succeeded))
    || not (same_text node.last_heartbeat_error (heartbeat_error sent))

unfoldable pub apply_node_heartbeat_result : HeartbeatResult → ℕ → Node → Node
unfolding status_changed heartbeat_timestamp_due
apply_node_heartbeat_result sent observed_at node =
    let timestamp_due = status_changed node sent || heartbeat_timestamp_due node observed_at in
    record node {
      health_status = health sent.succeeded;
      last_seen_at =
          if timestamp_due && sent.succeeded then some observed_at else node.last_seen_at;
      reachability_status = reachability sent.succeeded;
      last_heartbeat_at = if timestamp_due then some observed_at else node.last_heartbeat_at;
      last_heartbeat_error = heartbeat_error sent;
    }

abbrev pub has_replies : List PeerSyncResult → Bool
has_replies [] = false
has_replies (r ∷ replies) = true

-- Behind the load of the node and its peers.
unfoldable pub take_heartbeat : Env → HeartbeatResult → Db → Node × List Peer → Result (List ℕ × Db)
unfolding apply_node_heartbeat_result apply_peer_results
take_heartbeat env sent db (node, loaded) =
    let db' = write_node node.id (apply_node_heartbeat_result sent env.now) db in
    if sent.succeeded && has_replies sent.peers
    then ok (apply_peer_results env loaded sent.peers db')
    else ok ([], db')

unfoldable pub node_heartbeat_result : Env → ℕ → HeartbeatResult → M (List ℕ)
unfolding load_node_with_peers take_heartbeat
node_heartbeat_result env node_id sent db =
    then_take (load_node_with_peers env node_id db) (take_heartbeat env sent db)
