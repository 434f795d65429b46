-- ===== src/Panel/Readiness.antt =====
-- panel/backend/app/services/devices.py: when a configuration can be served, and the states that the
-- admin API and the public page show.
pub mod Views
use vpn_management_panel.Prelude.{
  ℕ, String, Bool, true, false, ◌&&◌, Option, none, some, List, [], ◌∷◌, map, ◌==◌, is_none, truthy,
  any, all, find, select, if◌then◌else◌,
}
use vpn_management_panel.Panel.Models.{
  SyncStatus, Node, Device, Peer, Db, is_pending, is_active, is_tombstoned,
}
use vpn_management_panel.Panel.Provisioning.{is_peer_of, list_live_devices}

-- The states of a device, on one node and over all.
pub data DeviceStatus : Type 0 where
  ready error pending deleting : DeviceStatus

abbrev pub get_device_peer : List Peer → ℕ → ℕ → Option Peer
get_device_peer peers device_id node_id = find (is_peer_of node_id device_id) peers

unfoldable pub node_metadata_cached : Node → Bool
node_metadata_cached node = truthy node.interface.public_key && truthy node.interface.endpoint

unfoldable pub device_credentials_ready : Device → Bool
device_credentials_ready device =
    truthy device.private_key && truthy device.public_key && truthy device.vpn_ip

abbrev pub peer_is_active : Option Peer → Bool
peer_is_active none = false
peer_is_active (some peer) = is_active peer.status

unfoldable pub peer_available : Node → Device → Option Peer → Bool
unfolding node_metadata_cached device_credentials_ready
peer_available node device peer =
    is_none device.deleted_at
    && peer_is_active peer
    && node_metadata_cached node
    && device_credentials_ready device

abbrev pub sync_failed : SyncStatus → Bool
sync_failed SyncStatus.failed = true
sync_failed _ = false

-- `peer is not None and peer.status in DELETING_PEER_STATUSES`
abbrev pub peer_is_deleting : Option Peer → Bool
peer_is_deleting none = false
peer_is_deleting (some peer) = is_tombstoned peer.status

-- `peer is None or peer.status == 'pending'`
abbrev pub peer_is_waiting : Option Peer → Bool
peer_is_waiting none = true
peer_is_waiting (some peer) = is_pending peer.status

unfoldable pub node_status : Node → Device → Option Peer → DeviceStatus
unfolding peer_available
node_status node device peer =
    if peer_is_deleting peer
    then deleting
    else if sync_failed node.sync_status
    then error
    else if peer_is_waiting peer
    then pending
    else if peer_available node device peer
    then ready
    else pending

abbrev pub is_ready : DeviceStatus → Bool
is_ready ready = true
is_ready _ = false

abbrev pub is_error : DeviceStatus → Bool
is_error error = true
is_error _ = false

abbrev pub is_deleting : DeviceStatus → Bool
is_deleting deleting = true
is_deleting _ = false

-- `unique`
abbrev pub has_some : List DeviceStatus → Bool
has_some [] = false
has_some (s ∷ statuses) = true

unfoldable pub aggregate_device_status : List DeviceStatus → Bool → DeviceStatus
aggregate_device_status statuses any_ready =
    if any_ready
    then ready
    else if any is_ready statuses
    then ready
    else if any is_error statuses
    then error
    else if has_some statuses && all is_deleting statuses
    then deleting
    else pending

-- A dictionary of dictionaries, device id → node id → peer.
abbrev pub PeerIndex : Type 0
PeerIndex = ℕ → ℕ → Option Peer

-- `grouped.setdefault(peer.device_id, {})[peer.node_id] = peer`
abbrev pub put_peer : PeerIndex → Peer → PeerIndex
put_peer grouped peer device_id node_id =
    if is_peer_of node_id device_id peer then some peer else grouped device_id node_id

unfoldable pub group_peers : PeerIndex → List Peer → PeerIndex
group_peers grouped [] = grouped
group_peers grouped (peer ∷ peers) = group_peers (put_peer grouped peer) peers

unfoldable pub peers_by_device : List Peer → PeerIndex
unfolding group_peers
peers_by_device peers = group_peers (λ device_id node_id. none) peers

pub record DeviceNodeAvailability : Type 0 where
  pub node_id : ℕ
  pub node_name : String
  pub status : DeviceStatus
  pub ready : Bool

-- One entry of the loop of `device_node_availability`.
abbrev pub node_entry : Device → (ℕ → Option Peer) → Node → DeviceNodeAvailability
node_entry device peer_by_node_id node = record {
  node_id = node.id;
  node_name = node.name;
  status = node_status node device (peer_by_node_id node.id);
  ready = peer_available node device (peer_by_node_id node.id);
}

unfoldable pub device_node_availability :
    Device → List Node → (ℕ → Option Peer) → List DeviceNodeAvailability
unfolding node_status
device_node_availability device nodes peer_by_node_id =
    map (node_entry device peer_by_node_id) nodes

pub record AdminDevice : Type 0 where
  pub id : ℕ
  pub name : String
  pub vpn_ip : Option String
  pub is_legacy_default : Bool
  pub status : DeviceStatus
  pub nodes : List DeviceNodeAvailability

abbrev pub device_view : List Node → PeerIndex → Device → AdminDevice
device_view nodes grouped device =
    let entries = device_node_availability device nodes (grouped device.id) in
    record {
      id = device.id;
      name = device.name;
      vpn_ip = device.vpn_ip;
      is_legacy_default = device.is_legacy_default;
      status =
          aggregate_device_status (map (λ (e : DeviceNodeAvailability). e.status) entries)
            (any (λ (e : DeviceNodeAvailability). e.ready) entries);
      nodes = entries;
    }

unfoldable pub device_views : List Device → List Node → List Peer → List AdminDevice
unfolding device_node_availability aggregate_device_status peers_by_device
device_views devices nodes peers = map (device_view nodes (peers_by_device peers)) devices

-- `Peer.device_id.in_([device.id for device in devices])`
abbrev pub is_peer_among : List Device → Peer → Bool
is_peer_among devices p = any (λ d. d.id == p.device_id) devices

unfoldable pub live_device_views : ℕ → Db → List AdminDevice
unfolding list_live_devices device_views
live_device_views user_id db =
    let devices = list_live_devices db.devices user_id in
    device_views devices db.nodes (select (is_peer_among devices) db.peers)
