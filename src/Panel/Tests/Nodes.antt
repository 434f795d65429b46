-- ===== src/Panel/Tests/Nodes.antt =====
-- What the worker reports for a node, and what is shown of it.
use vpn_management_panel.Prelude.{
  ◌<◌, ◌+◌, ◌⊎◌, ℕ, ℕ, ◌*◌, ◌+◌, In, inl, true, false, ◌&&◌, ◌≡◌, refl, none, some, [], ◌∷◌, any,
  is_some,
}
use vpn_management_panel.Panel.Retention.{cleanup_raw_traffic_samples}
use vpn_management_panel.Panel.Retention.Samples.{cleanup_raw_traffic_samples-In}
use vpn_management_panel.Panel.Models.{PeerTrafficSample, PeerStatus, Node, Db, is_tombstoned}
use vpn_management_panel.Panel.Lifecycle.{load_local_total_bytes}
use vpn_management_panel.Panel.NodeSync.Counters.{counter_delta}
use vpn_management_panel.Panel.NodeSync.PeerResult.{PeerSyncResult, next_status, apply_counters}
use vpn_management_panel.Panel.NodeSync.Totals.{next_status-is_tombstoned, apply_counters-total}
use vpn_management_panel.Panel.NodeResults.Handlers.{SyncResult, node_sync_result}
use vpn_management_panel.Panel.NodeResults.Heartbeat.{HeartbeatResult, apply_node_heartbeat_result}
use vpn_management_panel.Panel.NodeResults.Heartbeat.Repeated.{
  IsUnchanged, apply_node_heartbeat_result-last_heartbeat_at,
}
use vpn_management_panel.Panel.NodeResults.Kept.{node_sync_result-IsKept}
use vpn_management_panel.Panel.Readiness.{is_ready, device_view, peers_by_device, peer_available}
use vpn_management_panel.Panel.Readiness.Views.{device_view-ready}
use vpn_management_panel.Panel.Ownership.{IsKept}
use vpn_management_panel.Panel.Tests.{
  amsterdam, laptop, laptop_peer, small, small-IsWellFormed, env,
}

-- The node reports the laptop, with traffic, and no longer the phone.
abbrev reply : PeerSyncResult
reply = record {
  public_key = "k10";
  status = some PeerStatus.active;
  endpoint_set = true;
  endpoint = some "192.0.2.1:9";
  rx_bytes = some 40;
  tx_bytes = some 30;
  last_handshake = some 55;
}

abbrev sync_result : SyncResult
sync_result = record { succeeded = true; error = none; interface = none; peers = reply ∷ [] }

abbrev heartbeat : HeartbeatResult
heartbeat = record { succeeded = true; error = none; peers = reply ∷ [] }

node_sync_result-IsKept_example : IsKept (node_sync_result env 1 sync_result small)
node_sync_result-IsKept_example = node_sync_result-IsKept env 1 sync_result small small-IsWellFormed

abbrev counted : Db
counted = record small {
  user_lifetime =
      record {
        identity = record { user_id = 7; node_id = none; day = none };
        rx_bytes = 1;
        tx_bytes = 2;
        total_bytes = 3;
        updated_at = 0;
      }
      ∷ [];
}

apply_counters-total_example :
    load_local_total_bytes (apply_counters laptop_peer 40 30 60 counted).1.user_lifetime 7
    ≡ load_local_total_bytes counted.user_lifetime 7
      + (counter_delta (some 10) 40 + counter_delta (some 10) 30)
apply_counters-total_example = apply_counters-total laptop_peer 40 30 60 counted ((refl, refl), tt)

fifty_more :
    load_local_total_bytes (apply_counters laptop_peer 40 30 60 counted).1.user_lifetime 7 ≡ 53
unfolding apply_counters load_local_total_bytes
fifty_more = refl

next_status-is_tombstoned_example :
    is_tombstoned (next_status PeerStatus.deleted false (some PeerStatus.active)) ≡ true
next_status-is_tombstoned_example =
    next_status-is_tombstoned PeerStatus.deleted false (some PeerStatus.active) refl

-- The node's last heartbeat was 59 seconds before.
abbrev recent : Node
recent = apply_node_heartbeat_result heartbeat 60 amsterdam

apply_node_heartbeat_result-last_heartbeat_at_example :
    ((last : ℕ)
      → recent.last_heartbeat_at ≡ some last
      → 59_000_060 < last + 60_000_000
      → IsUnchanged heartbeat recent
      → (apply_node_heartbeat_result heartbeat 59_000_060 recent).last_heartbeat_at ≡ some last)
    × (((apply_node_heartbeat_result heartbeat 59_000_060 recent).last_heartbeat_at
          ≡ some 59_000_060)
        ⊎ ((last : ℕ) × (recent.last_heartbeat_at ≡ some last)
            × (59_000_060 < last + 60_000_000)
            × IsUnchanged heartbeat recent))
apply_node_heartbeat_result-last_heartbeat_at_example =
    apply_node_heartbeat_result-last_heartbeat_at heartbeat 59_000_060 recent

device_view-ready_example :
    (is_ready (device_view (amsterdam ∷ []) (peers_by_device small.peers) laptop).status
      ≡ any
          (λ (n : Node). peer_available n laptop (peers_by_device small.peers 10 n.id))
          (amsterdam ∷ []))
    × ((is_some laptop.deleted_at
          && is_ready (device_view (amsterdam ∷ []) (peers_by_device small.peers) laptop).status)
        ≡ false)
device_view-ready_example = device_view-ready (amsterdam ∷ []) (peers_by_device small.peers) laptop

-- The phone's peer is still reported.
abbrev day : ℕ
day = 86_400_000_000

-- An old sample without a stored delta.
abbrev sample : PeerTrafficSample
sample = record { peer_id = 100; sampled_at = 5; rx_bytes = 1; tx_bytes = 1 }

abbrev sampled : Db
sampled = record small { samples = sample ∷ [] }

cleanup_raw_traffic_samples-In_example :
    In sample (cleanup_raw_traffic_samples (3 * day) 1 sampled).1.samples
cleanup_raw_traffic_samples-In_example =
    cleanup_raw_traffic_samples-In (3 * day) 1 sampled sample (inl refl) refl
