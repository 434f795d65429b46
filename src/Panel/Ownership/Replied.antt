-- ===== src/Panel/Ownership/Replied.antt =====
-- What a node's result writes keeps the invariant of ownership.
use vpn_management_panel.Prelude.{
  ℕ, true, ◌&&◌, ◌≡◌, inl, inr, refl, Option, none, some, List, arith, ◌==◌, update_if, Bool-cases,
}
use vpn_management_panel.Panel.Models.{PeerStatus, Device, Peer, PeerEndpointSession, Db}
use vpn_management_panel.Panel.Deletion.{find_device}
use vpn_management_panel.Panel.NodeSync.Counters.{counter_delta}
use vpn_management_panel.Panel.NodeSync.PeerResult.{
  PeerSyncResult, is_dead, next_status, replied_row, write_peer, counted_peer, apply_counters,
  apply_sent_counters, apply_peer_endpoint_session, apply_peer_result,
}
use vpn_management_panel.Panel.Ownership.{agrees, IsSafe, IsOwned, IsWellFormed}
use vpn_management_panel.Panel.Ownership.Tables.{IsOwned-map}

-- The status that a reply leads to agrees with the device's row.
next_status-agrees :
    (status : PeerStatus) (o : Option Device) (reply : Option PeerStatus)
    → agrees status o ≡ true
    → agrees (next_status status (is_dead o) reply) o ≡ true
unfolding next_status
next_status-agrees status none reply h = refl
next_status-agrees status (some d) none h = ground arith
next_status-agrees status (some d) (some reply) h = ground arith

write_peer-IsOwned :
    (devices : List Device) (peer_id : ℕ) (f : Peer → Peer) (peers : List Peer)
    → ((p : Peer) → IsSafe devices p → IsSafe devices (f p))
    → IsOwned devices peers
    → IsOwned devices (write_peer peer_id f peers)
write_peer-IsOwned devices peer_id f peers h =
    IsOwned-map (update_if (λ p. p.id == peer_id) f)
      λ p s. elim (Bool-cases (p.id == peer_id)) [ inl e ↦ rw e (h p s) | inr e ↦ rw e s ]

apply_counters-IsWellFormed :
    (peer : Peer) (rx_bytes tx_bytes now : ℕ) (db : Db)
    → IsWellFormed db
    → IsWellFormed (apply_counters peer rx_bytes tx_bytes now db).1
unfolding apply_counters
apply_counters-IsWellFormed peer rx_bytes tx_bytes now db o =
    let kept =
      write_peer-IsOwned db.devices peer.id (counted_peer rx_bytes tx_bytes) db.peers (λ p h. h)
        o in
    elim (Bool-cases
      (counter_delta peer.raw_rx rx_bytes == 0 && counter_delta peer.raw_tx tx_bytes == 0)) [
        | inl e ↦ rw e kept
        | inr e ↦ rw e kept
      ]

apply_sent_counters-IsWellFormed :
    (peer : Peer) (rx_bytes tx_bytes : Option ℕ) (now : ℕ) (db : Db)
    → IsWellFormed db
    → IsWellFormed (apply_sent_counters peer rx_bytes tx_bytes now db).1
unfolding apply_sent_counters
apply_sent_counters-IsWellFormed peer (some rx_bytes) (some tx_bytes) now db o =
    apply_counters-IsWellFormed peer rx_bytes tx_bytes now db o
apply_sent_counters-IsWellFormed peer _ _ now db o = o

module _ (draw_id : List PeerEndpointSession → ℕ) where
  apply_peer_endpoint_session-tables :
      (peer : Peer) (sent : PeerSyncResult) (at : ℕ) (db : Db)
      → ((apply_peer_endpoint_session draw_id peer sent at db).devices ≡ db.devices)
        × ((apply_peer_endpoint_session draw_id peer sent at db).peers ≡ db.peers)
  unfolding apply_peer_endpoint_session
  apply_peer_endpoint_session-tables peer sent at db = ground arith

  -- Applying a peer's reply keeps the invariant of ownership, whatever the reply says: in particular no
  -- reply gives a live status to the peer of a tombstoned device.
  pub apply_peer_result-IsWellFormed :
      (peer : Peer) (sent : PeerSyncResult) (now : ℕ) (db : Db)
      → IsWellFormed db
      → IsWellFormed (apply_peer_result draw_id peer sent now db).1
  unfolding apply_peer_result
  apply_peer_result-IsWellFormed peer sent now db o =
      let db' : Db = record db {
        peers = write_peer peer.id (replied_row db.devices sent) db.peers;
      } in
      let (same_devices, same_peers) = apply_peer_endpoint_session-tables peer sent now db' in
      apply_sent_counters-IsWellFormed peer sent.rx_bytes sent.tx_bytes now
        (apply_peer_endpoint_session draw_id peer sent now db')
        (rw (same_devices, same_peers)
          (write_peer-IsOwned db.devices peer.id (replied_row db.devices sent) db.peers
            (λ p. next_status-agrees p.status (find_device p.device_id db.devices) sent.status) o))
