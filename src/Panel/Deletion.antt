-- ===== src/Panel/Deletion.antt =====
-- panel/backend/app/services/devices.py: `delete_device`. `at` is the time of the tombstone (`at or
-- now()`), and `now` that of a release.
pub mod Again
use vpn_management_panel.Prelude.{
  ℕ, Bool, true, false, Option, none, some, List, [], map, ◌==◌, is_none, find, update_if, step_row,
  row_hit, if◌then◌else◌,
}
use vpn_management_panel.Panel.Models.{PeerStatus, Device, Peer, Db, is_live}
use vpn_management_panel.Panel.Addresses.{release_device_ip, hit_ids}

abbrev pub find_device : ℕ → List Device → Option Device
find_device device_id = find (λ d. d.id == device_id)

-- `if locked_device.deleted_at is None: locked_device.deleted_at = at or now()`
abbrev pub tombstone : ℕ → Device → Device
tombstone at device =
    if is_none device.deleted_at then record device { deleted_at = some at } else device

-- One round of the loop over the device's peers: the row, and whether its node is affected.
abbrev pub mark_peer : Peer → Peer × Bool
mark_peer peer =
    if is_live peer.status
    then (record peer { status = PeerStatus.pending_delete }, true)
    else (peer, false)

-- The writes to the device's row: the tombstone, and the release of its address if that is safe.
unfoldable pub settle : List Peer → ℕ → ℕ → Device → Device
unfolding release_device_ip
settle peers at now device = (release_device_ip peers now (tombstone at device)).0

-- What happens under the locks, to the device with the id and to its peers.
unfoldable pub delete_locked : ℕ → ℕ → ℕ → Db → List ℕ × Db
unfolding settle hit_ids
delete_locked at now device_id db =
    let chosen = λ (p : Peer). p.device_id == device_id in
    let peers = map (step_row chosen mark_peer) db.peers in
    (
      hit_ids (row_hit chosen mark_peer) (λ p. p.node_id) db.peers,
      record db {
        devices =
            map (update_if (λ (d : Device). d.id == device_id) (settle peers at now)) db.devices;
        peers = peers;
      },
    )

unfoldable pub delete_device : ℕ → ℕ → ℕ → Db → List ℕ × Db
unfolding delete_locked
delete_device at now device_id db = elim (find_device device_id db.devices) [
  | none ↦ ([], db)
  | some locked ↦ delete_locked at now locked.id db
]

-- `None` where the device is not there.
unfoldable pub delete_device_by_id : ℕ → ℕ → ℕ → Db → (Option Device × List ℕ) × Db
unfolding delete_device
delete_device_by_id at now device_id db = elim (find_device device_id db.devices) [
  | none ↦ ((none, []), db)
  | some device ↦
      let (node_ids, db') = delete_device at now device.id db in
      ((find_device device.id db'.devices, node_ids), db')
]
