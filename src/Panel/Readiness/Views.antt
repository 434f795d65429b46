-- ===== src/Panel/Readiness/Views.antt =====
-- panel/backend/app/services/devices.py: what the admin views say of a device.
use vpn_management_panel.Prelude.{
  ℕ, Bool, true, false, ◌&&◌, ◌≡◌, refl, sym, ap, ◌∙◌, Option, none, some, List, [], ◌∷◌, map, any,
  is_some, arith, inl, inr, Bool-cases, Option-cases,
}
use vpn_management_panel.Panel.Models.{Node, Device, Peer}
use vpn_management_panel.Panel.Provisioning.{is_peer_of}
use vpn_management_panel.Panel.Readiness.{
  DeviceStatus, is_ready, node_status, peer_available, aggregate_device_status, PeerIndex, put_peer,
  group_peers, peers_by_device, get_device_peer, DeviceNodeAvailability, device_node_availability,
  device_view,
}

-- The node's own state is ready only where a configuration can be served.
entry_ready :
    (node : Node) (d : Device) (p : Option Peer)
    → is_ready (node_status node d p) ≡ true
    → peer_available node d p ≡ true
unfolding node_status
entry_ready node d p e = ground arith

entries_ready :
    (d : Device) (by : ℕ → Option Peer) (nodes : List Node)
    → any is_ready
        (map (λ (e : DeviceNodeAvailability). e.status) (device_node_availability d nodes by))
      ≡ true
    → any (λ (e : DeviceNodeAvailability). e.ready) (device_node_availability d nodes by) ≡ true
unfolding device_node_availability
entries_ready d by [] e = cc
entries_ready d by (n ∷ nodes) e =
    let rest = entries_ready d by nodes in
    let here = entry_ready n d (by n.id) in ground (arith, rest, here)

aggregate_ready :
    (statuses : List DeviceStatus) (b : Bool)
    → (any is_ready statuses ≡ true → b ≡ true)
    → is_ready (aggregate_device_status statuses b) ≡ b
unfolding aggregate_device_status
aggregate_ready statuses b h = ground arith

any_entries :
    (d : Device) (by : ℕ → Option Peer) (nodes : List Node)
    → any (λ (e : DeviceNodeAvailability). e.ready) (device_node_availability d nodes by)
      ≡ any (λ (n : Node). peer_available n d (by n.id)) nodes
unfolding device_node_availability
any_entries d by [] = refl
any_entries d by (n ∷ nodes) = let rest = any_entries d by nodes in ground (arith, rest)

dead_entry :
    (d : Device) (by : ℕ → Option Peer) (nodes : List Node)
    → is_some d.deleted_at ≡ true
    → any (λ (n : Node). peer_available n d (by n.id)) nodes ≡ false
unfolding peer_available
dead_entry d by [] e = refl
dead_entry d by (n ∷ nodes) e = let rest = dead_entry d by nodes e in ground (arith, rest)

-- The view of a device says that it is ready just where, for one of the nodes, its peer is active, the
-- node's key and endpoint are cached and the device has its credentials; it never says so of a
-- tombstoned device. Neither the standing of the owner nor the other nodes are looked at.
pub device_view-ready :
    (nodes : List Node) (grouped : PeerIndex) (d : Device)
    → (is_ready (device_view nodes grouped d).status
        ≡ any (λ (n : Node). peer_available n d (grouped d.id n.id)) nodes)
      × ((is_some d.deleted_at && is_ready (device_view nodes grouped d).status) ≡ false)
device_view-ready nodes grouped d =
    let by = grouped d.id in
    let entries = device_node_availability d nodes by in
    let shown =
      aggregate_ready (map (λ (e : DeviceNodeAvailability). e.status) entries)
        (any (λ (e : DeviceNodeAvailability). e.ready) entries) (entries_ready d by nodes)
      ∙ any_entries d by nodes in
    (
      shown,
      elim (Bool-cases (is_some d.deleted_at)) [
        | inl e ↦ rw (e, shown) (dead_entry d by nodes e)
        | inr e ↦ rw e refl
      ],
    )

-- No two peers are of the same device on the same node: `uq_peers_node_device`.
abbrev pub AreUnique : List Peer → Type 0
AreUnique [] = Unit
AreUnique (p ∷ peers) = (any (is_peer_of p.node_id p.device_id) peers ≡ false) × AreUnique peers

abbrev or_else : Option Peer → Option Peer → Option Peer
or_else none other = other
or_else (some p) other = some p

find_none :
    (n d : ℕ) (p : Peer) (peers : List Peer)
    → is_peer_of n d p ≡ true
    → any (is_peer_of p.node_id p.device_id) peers ≡ false
    → get_device_peer peers d n ≡ none
find_none n d p [] e f = refl
find_none n d p (q ∷ peers) e f = let rest = find_none n d p peers e in ground (arith, rest)

group_peers-find :
    (grouped : PeerIndex) (peers : List Peer) (d n : ℕ)
    → AreUnique peers
    → group_peers grouped peers d n ≡ or_else (get_device_peer peers d n) (grouped d n)
unfolding group_peers
group_peers-find grouped [] d n u = refl
group_peers-find grouped (p ∷ peers) d n (fresh, u) =
    let rest = group_peers-find (put_peer grouped p) peers d n u in
    elim (Bool-cases (is_peer_of n d p)) [
      | inl e ↦ let gone = find_none n d p peers e fresh in ground (arith, rest)
      | inr e ↦ ground (arith, rest)
    ]

-- Where no two peers are of the same device on the same node, the index of the views has the peer that
-- the single query finds.
pub peers_by_device-get_device_peer :
    (peers : List Peer) (d n : ℕ)
    → AreUnique peers
    → peers_by_device peers d n ≡ get_device_peer peers d n
unfolding peers_by_device
peers_by_device-get_device_peer peers d n u = elim (Option-cases (get_device_peer peers d n)) [
  | inl e ↦
      group_peers-find (λ device_id node_id. none) peers d n u
      ∙ ap (λ (o : Option Peer). or_else o none) e
      ∙ sym e
  | inr (p, e) ↦
      group_peers-find (λ device_id node_id. none) peers d n u
      ∙ ap (λ (o : Option Peer). or_else o none) e
      ∙ sym e
]
