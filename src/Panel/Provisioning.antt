-- ===== src/Panel/Provisioning.antt =====
-- panel/backend/app/services/devices.py: the pending peers of devices on nodes. The ids and the
-- preshared keys that the code draws at random are a parameter.
use vpn_management_panel.Prelude.{
  ℕ, String, Bool, true, false, not, ◌&&◌, ◌||◌, Option, none, some, List, [], ◌∷◌, ◌++◌, map, ◌==◌,
  is_none, is_some, truthy, mem, add, union, any, select, if◌then◌else◌,
}
use vpn_management_panel.Panel.Models.{PeerStatus, Node, User, Device, Peer, Db}
use vpn_management_panel.Panel.Limits.{find_user, is_live_device_of}

-- `list_live_devices`, and its in-memory twin `live_devices` over one owner's rows.
unfoldable pub list_live_devices : List Device → ℕ → List Device
list_live_devices devices user_id = select (is_live_device_of user_id) devices

-- `uuid4` and `generate_psk` for the peer of a device on a node.
pub record Fresh : Type 0 where
  pub peer_id : (node_id device_id : ℕ) → ℕ
  pub psk : (node_id device_id : ℕ) → String

-- `Peer.node_id == node_id, Peer.device_id == device_id`
abbrev pub is_peer_of : ℕ → ℕ → Peer → Bool
is_peer_of node_id device_id p = p.node_id == node_id && p.device_id == device_id

-- What the database checks when a peer is inserted: the primary key, `uq_peers_node_device`, the
-- node, and the composite ownership key.
unfoldable pub peer_admissible : Db → Peer → Bool
peer_admissible db p =
    not (any (λ q. q.id == p.id) db.peers)
    && not (any (is_peer_of p.node_id p.device_id) db.peers)
    && any (λ n. n.id == p.node_id) db.nodes
    && any (λ d. d.id == p.device_id && d.user_id == p.user_id) db.devices

abbrev pub new_peer : Fresh → ℕ → Device → Peer
new_peer fresh node_id device = record {
  id = fresh.peer_id node_id device.id;
  node_id = node_id;
  user_id = device.user_id;
  device_id = device.id;
  status = PeerStatus.pending;
  psk_key = some (fresh.psk node_id device.id);
  raw_rx = none;
  raw_tx = none;
  last_handshake = none;
  endpoint = none;
}

-- `db.add` and `flush` inside the savepoint; an IntegrityError leaves the database as it was.
unfoldable pub insert_peer : Peer → Db → Bool × Db
unfolding peer_admissible
insert_peer p db =
    if peer_admissible db p then (true, record db { peers = db.peers ++ p ∷ [] }) else (false, db)

-- The inner join with the owner, and `User.is_blocked == False`.
abbrev pub unblocked : Option User → Bool
unblocked none = false
unblocked (some user) = not user.is_blocked

-- `_live_device_filters` over the join of a device with its owner.
unfoldable pub live_device_filters : List User → Device → Bool
live_device_filters users d =
    is_none d.deleted_at
    && is_some d.public_key
    && is_some d.vpn_ip
    && unblocked (find_user d.user_id users)

module _ (fresh : Fresh) where
  unfoldable pub create_pending_peer : ℕ → Device → Db → Bool × Db
  unfolding insert_peer
  create_pending_peer node_id device db =
      if is_some device.deleted_at
      then (false, db)
      else if any (is_peer_of node_id device.id) db.peers
      then (false, db)
      else if not (truthy device.public_key) || not (truthy device.vpn_ip)
      then (false, db)
      else insert_peer (new_peer fresh node_id device) db

  -- The loop over the nodes, with the ids that gained a peer so far.
  unfoldable pub create_on_nodes : List ℕ → Device → List ℕ → Db → List ℕ × Db
  unfolding create_pending_peer
  create_on_nodes [] device created db = (created, db)
  create_on_nodes (node_id ∷ nodes) device created db =
      let (made, db') = create_pending_peer node_id device db in
      create_on_nodes nodes device (if made then add node_id created else created) db'

  unfoldable pub create_pending_peers_for_device : Device → Option (List ℕ) → Db → List ℕ × Db
  unfolding create_on_nodes
  create_pending_peers_for_device device node_ids db = elim node_ids [
    | some nodes ↦ create_on_nodes nodes device [] db
    | none ↦ create_on_nodes (map (λ (n : Node). n.id) db.nodes) device [] db
  ]

  -- The loop over the devices, with the ids that gained a peer so far.
  unfoldable pub create_for_devices : ℕ → List Device → List ℕ → Db → List ℕ × Db
  unfolding create_pending_peer
  create_for_devices node_id [] created db = (created, db)
  create_for_devices node_id (device ∷ devices) created db =
      let (made, db') = create_pending_peer node_id device db in
      create_for_devices node_id devices (if made then add device.id created else created) db'

  unfoldable pub create_pending_peers_for_node : Node → Db → List ℕ × Db
  unfolding create_for_devices live_device_filters
  create_pending_peers_for_node node db =
      create_for_devices node.id (select (live_device_filters db.users) db.devices) [] db

  -- The loop over the owner's live devices, with the nodes that gained a peer so far.
  unfoldable pub restore_devices : List Device → List ℕ → Db → List ℕ × Db
  unfolding create_pending_peers_for_device
  restore_devices [] created db = (created, db)
  restore_devices (device ∷ devices) created db =
      let (nodes, db') = create_pending_peers_for_device device none db in
      restore_devices devices (union created nodes) db'

  unfoldable pub restore_missing_peers_for_user : ℕ → Db → List ℕ × Db
  unfolding restore_devices list_live_devices
  restore_missing_peers_for_user user_id db =
      restore_devices (list_live_devices db.devices user_id) [] db

-- The subset of `device_ids` whose device is tombstoned.
unfoldable pub tombstoned_device_ids : List Device → List ℕ → List ℕ
tombstoned_device_ids devices device_ids =
    map (λ (d : Device). d.id) (select (λ d. mem d.id device_ids && is_some d.deleted_at) devices)
