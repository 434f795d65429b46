-- ===== src/Panel/NodeSnapshot.antt =====
-- panel/backend/app/services/node_config.py: what the panel wants of a node, as the payload that the
-- worker fetches, and the guards of a client's configuration.
use vpn_management_panel.Prelude.{
  ℕ, String, Bool, ◌&&◌, Option, none, some, List, [], ◌∷◌, ◌++◌, map, ◌==◌, select, truthy, filled,
  text_or, if◌then◌else◌,
}
use vpn_management_panel.Panel.Models.{
  PeerStatus, ProvisionStatus, Interface, Node, User, Device, Peer, Db,
}
use vpn_management_panel.Panel.Errors.{Result, ok, err, not_found}
use vpn_management_panel.Panel.Limits.{find_user}
use vpn_management_panel.Panel.Deletion.{find_device}
use vpn_management_panel.Panel.NodeResults.Replies.{find_node}

-- A value of a payload.
pub data Json : Type 0 where
  null : Json
  number : ℕ → Json
  text : String → Json

-- A payload whose keys the code passes on.
abbrev pub Fields : Type 0
Fields = List (String × Json)

-- `value or default` of a nullable number: zero is false too.
abbrev pub number_or : Option ℕ → ℕ → ℕ
number_or none fallback = fallback
number_or (some n) fallback = if n == 0 then fallback else n

unfoldable pub node_kwargs : Interface → Fields
unfolding text_or
node_kwargs i =
    ("jc", number (number_or i.jc 4))
    ∷ ("jmin", number (number_or i.jmin 40))
    ∷ ("jmax", number (number_or i.jmax 70))
    ∷ ("s1", number (number_or i.s1 0))
    ∷ ("s2", number (number_or i.s2 0))
    ∷ ("s3", number (number_or i.s3 0))
    ∷ ("s4", number (number_or i.s4 0))
    ∷ ("h1", text (text_or i.h1 "1"))
    ∷ ("h2", text (text_or i.h2 "2"))
    ∷ ("h3", text (text_or i.h3 "3"))
    ∷ ("h4", text (text_or i.h4 "4"))
    ∷ ("i1", text (text_or i.i1 ""))
    ∷ ("i2", text (text_or i.i2 ""))
    ∷ ("i3", text (text_or i.i3 ""))
    ∷ ("i4", text (text_or i.i4 ""))
    ∷ ("i5", text (text_or i.i5 ""))
    ∷ []

abbrev pub node_mtu : Interface → String
node_mtu i = text_or i.mtu "1376"

abbrev pub node_vpn_address : String
node_vpn_address = "10.8.0.1/24"

abbrev pub post_up : String
post_up =
    "iptables -t nat -A POSTROUTING -s 10.8.0.0/24 -j MASQUERADE; iptables -A FORWARD -i %i -j ACCEPT; iptables -A FORWARD -o %i -j ACCEPT"

abbrev pub post_down : String
post_down =
    "iptables -t nat -D POSTROUTING -s 10.8.0.0/24 -j MASQUERADE; iptables -D FORWARD -i %i -j ACCEPT; iptables -D FORWARD -o %i -j ACCEPT"

abbrev pub nullable : Option String → Json
nullable none = null
nullable (some s) = text s

unfoldable pub node_interface : Node → Fields
unfolding node_kwargs
node_interface node =
    ("private_key", nullable node.private_key)
    ∷ ("address", text node_vpn_address)
    ∷ ("listen_port", number (number_or node.interface.listen_port 51820))
    ∷ (node_kwargs node.interface
        ++ ("mtu", text (node_mtu node.interface))
          ∷ ("post_up", text post_up)
          ∷ ("post_down", text post_down)
          ∷ [])

-- The desired peer of a device on a node.
pub record PeerPayload : Type 0 where
  pub peer_id : ℕ
  pub user_id : ℕ
  pub user_name : String
  pub device_id : ℕ
  pub device_name : String
  pub public_key : String
  pub allowed_ip : String
  pub psk_key : String
  pub status : PeerStatus
  pub is_blocked : Bool

abbrev pub payload_with : Peer → User → Device → String → String → PeerPayload
payload_with peer user device key ip = record {
  peer_id = peer.id;
  user_id = user.id;
  user_name = user.name;
  device_id = device.id;
  device_name = device.name;
  public_key = key;
  allowed_ip = ip;
  psk_key = text_or peer.psk_key "";
  status = peer.status;
  is_blocked = user.is_blocked;
}

-- The value of a text that is there and not empty.
abbrev pub present : Option String → Option String
present none = none
present (some s) = if filled s then some s else none

unfoldable pub peer_payload : Peer → User → Device → Option PeerPayload
peer_payload peer user device = elim (present device.public_key) [
  | none ↦ none
  | some key ↦ elim (present device.vpn_ip) [
    | none ↦ none
    | some ip ↦ some (payload_with peer user device key ip)
  ]
]

-- The payload of a peer row, whose owner and device are rows of the database.
unfoldable pub row_payload : Db → Peer → Option PeerPayload
unfolding peer_payload
row_payload db peer = elim (find_user peer.user_id db.users) [
  | none ↦ none
  | some user ↦ elim (find_device peer.device_id db.devices) [
    | none ↦ none
    | some device ↦ peer_payload peer user device
  ]
]

abbrev pub cons_some : Option PeerPayload → List PeerPayload → List PeerPayload
cons_some none payloads = payloads
cons_some (some payload) payloads = payload ∷ payloads

-- `[payload for peer in peers if (payload := peer_payload(peer))]`
unfoldable pub payloads : Db → List Peer → List PeerPayload
unfolding row_payload
payloads db [] = []
payloads db (peer ∷ peers) = cons_some (row_payload db peer) (payloads db peers)

pub record Snapshot : Type 0 where
  pub id : ℕ
  pub name : String
  pub url : String
  pub token : String
  pub provision_status : ProvisionStatus
  pub interface : Fields
  pub peers : List PeerPayload

unfoldable pub node_snapshot : Db → Node → List Peer → Snapshot
unfolding payloads node_interface
node_snapshot db node peers = record {
  id = node.id;
  name = node.name;
  url = node.url;
  token = node.token;
  provision_status = node.provision_status;
  interface = node_interface node;
  peers = payloads db peers;
}

-- `load_node_with_peers` without `for_update`: all the peers of the node.
abbrev pub node_peers : Node → Db → List Peer
node_peers node db = select (λ (p : Peer). p.node_id == node.id) db.peers

-- GET /nodes/{node_id}/sync-snapshot, and the same for provisioning
unfoldable pub node_sync_snapshot : ℕ → Db → Result Snapshot
unfolding node_snapshot
node_sync_snapshot node_id db = elim (find_node node_id db.nodes) [
  | none ↦ err not_found
  | some node ↦ ok (node_snapshot db node (node_peers node db))
]

-- GET /sync/snapshot
unfoldable pub sync_snapshot : Db → List Snapshot
unfolding node_snapshot
sync_snapshot db = map (λ (node : Node). node_snapshot db node (node_peers node db)) db.nodes

-- The guard of `build_awg_client_config` and `build_amnezia_client_config`.
unfoldable pub is_configurable : Device → Node → Bool
is_configurable identity node =
    truthy node.interface.public_key
    && truthy node.interface.endpoint
    && truthy identity.private_key
    && truthy identity.vpn_ip
