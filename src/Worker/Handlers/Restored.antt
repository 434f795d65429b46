-- ===== src/Worker/Handlers/Restored.antt =====
-- A peer whose removal a node has confirmed is put again, as long as its device keeps its address for
-- another node.
use vpn_management_panel.Prelude.{
  String, ◌≡◌, refl, sym, ap, ◌∙◌, inl, inr, true, false, none, some, List, [], ◌∷◌, All, In,
  All-at, Option-cases, filled,
}
use vpn_management_panel.Panel.Models.{PeerStatus, Node, User, Device, Peer, Db}
use vpn_management_panel.Panel.Limits.{find_user}
use vpn_management_panel.Panel.Deletion.{find_device}
use vpn_management_panel.Panel.NodeSnapshot.{
  PeerPayload, payload_with, present, peer_payload, row_payload, payloads, node_snapshot,
}
use vpn_management_panel.Worker.NodeClient.{done, trimmed, AgentStatus, NodeAgent}
use vpn_management_panel.Worker.Handlers.{
  must_go, config_of, current_peer, SyncResult, apply_snapshot, connection,
}
use vpn_management_panel.Worker.Handlers.Requests.{peer_put, Traced, traced}
use vpn_management_panel.Worker.Handlers.Asked.{carried_by, wanted, apply_snapshot-Asked}

-- The payload of a peer is in the snapshot.
payloads-In :
    (db : Db) (peers : List Peer) (peer : Peer) (p : PeerPayload)
    → In peer peers
    → row_payload db peer ≡ some p
    → In p (payloads db peers)
unfolding payloads
payloads-In db [] peer p m e = absurd m
payloads-In db (first ∷ peers) peer p (inl is) e =
    let own : row_payload db first ≡ some p = ap (row_payload db) (sym is) ∙ e in rw own (inl refl)
payloads-In db (first ∷ peers) peer p (inr m) e =
    let rest = payloads-In db peers peer p m e in
    elim (Option-cases (row_payload db first)) [
      | inl absent ↦ rw absent rest
      | inr (q, there) ↦ rw there (inr rest)
    ]

peer_payload-found :
    (peer : Peer) (user : User) (device : Device) (key ip : String)
    → device.public_key ≡ some key
    → device.vpn_ip ≡ some ip
    → filled key ≡ true
    → filled ip ≡ true
    → peer_payload peer user device ≡ some (payload_with peer user device key ip)
unfolding peer_payload
peer_payload-found peer user device key ip has_key has_ip key_full ip_full =
    let has : present device.public_key ≡ some key = rw (has_key, key_full) refl in
    let at : present device.vpn_ip ≡ some ip = rw (has_ip, ip_full) refl in
    rw (peer_payload, has, at) refl

row_payload-found :
    (db : Db) (peer : Peer) (user : User) (device : Device) (key ip : String)
    → find_user peer.user_id db.users ≡ some user
    → find_device peer.device_id db.devices ≡ some device
    → device.public_key ≡ some key
    → device.vpn_ip ≡ some ip
    → filled key ≡ true
    → filled ip ≡ true
    → row_payload db peer ≡ some (payload_with peer user device key ip)
unfolding row_payload
row_payload-found db peer user device key ip owner own has_key has_ip key_full ip_full =
    let rows : row_payload db peer ≡ peer_payload peer user device =
      rw (row_payload, owner, own) refl in
    rows ∙ peer_payload-found peer user device key ip has_key has_ip key_full ip_full

module _ {S : Type 0} (agent : NodeAgent S) (db : Db) (node : Node) (peers : List Peer) where
  -- A synchronisation that succeeds puts every peer of an unblocked owner whose deletion was
  -- confirmed, as long as its device has its key and its address, on a node whose answers never show
  -- it. The keys of the snapshot are filled.
  pub deleted-put :
      (t t' : Traced S) (peer : Peer) (user : User) (device : Device) (key ip : String)
      {r : SyncResult}
      → All (λ (p : PeerPayload). filled p.public_key ≡ true) (payloads db peers)
      → In peer peers
      → peer.status ≡ PeerStatus.deleted
      → find_user peer.user_id db.users ≡ some user
      → user.is_blocked ≡ false
      → find_device peer.device_id db.devices ≡ some device
      → device.public_key ≡ some key
      → device.vpn_ip ≡ some ip
      → filled key ≡ true
      → filled ip ≡ true
      → ((s s' : S) (status : AgentStatus)
          → agent.get_status (trimmed (connection (node_snapshot db node peers))) s ≡ done status s'
          → current_peer key status.peers ≡ none)
      → apply_snapshot (traced agent) (node_snapshot db node peers) t ≡ done r t'
      → In (peer_put (config_of (payload_with peer user device key ip))) t'.0
  unfolding node_snapshot must_go
  deleted-put t t' peer user device key ip full m confirmed owner unblocked own has_key has_ip
        key_full ip_full away run =
      let p = payload_with peer user device key ip in
      let there =
        payloads-In db peers peer p m (
          row_payload-found db peer user device key ip owner own has_key has_ip key_full ip_full) in
      let (status, s₁, s₂, got, asked) =
        apply_snapshot-Asked agent (node_snapshot db node peers) t t' full run in
      let (stays, goes) = All-at _ _ p asked there in
      let absent = away s₁ s₂ status got in
      elim (stays (rw (confirmed, unblocked) refl)) [
        | inr put ↦ put
        | inl shown ↦
            let both : carried_by none ≡ some (wanted (config_of p)) =
              sym (ap carried_by absent) ∙ shown in
            cc
      ]
