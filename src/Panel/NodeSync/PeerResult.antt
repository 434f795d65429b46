-- ===== src/Panel/NodeSync/PeerResult.antt =====
-- panel/backend/app/services/node_sync.py: `apply_interface_result` and `apply_peer_result`, over the
-- payloads of schemas/worker.py.
use vpn_management_panel.Prelude.{
  ℕ, ◌+◌, String, Bool, false, not, ◌&&◌, ◌||◌, Option, none, some, List, [], ◌∷◌, ◌++◌, map, ◌==◌,
  ltb, str_eq, filled, same_num, is_some, or_zero, update_if, if◌then◌else◌,
}
use vpn_management_panel.Panel.Models.{
  PeerStatus, Interface, Device, Peer, PeerTrafficSample, PeerEndpointSession, TrafficDelta, Db,
  is_tombstoned,
}
use vpn_management_panel.Panel.Deletion.{find_device}
use vpn_management_panel.Panel.NodeSync.Counters.{
  counter_delta, reset_detected, apply_local_traffic_aggregates,
}

pub record PeerSyncResult : Type 0 where
  pub public_key : String
  pub status : Option PeerStatus
  -- whether 'endpoint' is in `model_fields_set`
  pub endpoint_set : Bool
  pub endpoint : Option String
  pub rx_bytes : Option ℕ
  pub tx_bytes : Option ℕ
  pub last_handshake : Option ℕ

-- `if value is not None and getattr(node, target) != value: setattr(node, target, value)`
abbrev pub refreshed {ℓ} : {A : Type ℓ} → Option A → Option A → Option A
refreshed stored none = stored
refreshed stored (some value) = some value

unfoldable pub apply_interface_result : Interface → Interface → Interface
apply_interface_result stored sent = record {
  public_key = refreshed stored.public_key sent.public_key;
  endpoint = refreshed stored.endpoint sent.endpoint;
  listen_port = refreshed stored.listen_port sent.listen_port;
  jc = refreshed stored.jc sent.jc;
  jmin = refreshed stored.jmin sent.jmin;
  jmax = refreshed stored.jmax sent.jmax;
  s1 = refreshed stored.s1 sent.s1;
  s2 = refreshed stored.s2 sent.s2;
  s3 = refreshed stored.s3 sent.s3;
  s4 = refreshed stored.s4 sent.s4;
  h1 = refreshed stored.h1 sent.h1;
  h2 = refreshed stored.h2 sent.h2;
  h3 = refreshed stored.h3 sent.h3;
  h4 = refreshed stored.h4 sent.h4;
  i1 = refreshed stored.i1 sent.i1;
  i2 = refreshed stored.i2 sent.i2;
  i3 = refreshed stored.i3 sent.i3;
  i4 = refreshed stored.i4 sent.i4;
  i5 = refreshed stored.i5 sent.i5;
  mtu = refreshed stored.mtu sent.mtu;
}

-- `peer.device is not None and peer.device.deleted_at is not None`
abbrev pub is_dead : Option Device → Bool
is_dead none = false
is_dead (some device) = is_some device.deleted_at

-- The status that a known value of the reply asks for; the tests are in the source's order.
abbrev pub replied : Bool → PeerStatus → Option PeerStatus → PeerStatus
replied tombstone status (some PeerStatus.active) = if tombstone then status else PeerStatus.active
replied tombstone status (some PeerStatus.pending) =
    if tombstone then status else PeerStatus.pending
replied tombstone status (some PeerStatus.pending_delete) = PeerStatus.pending_delete
replied tombstone status (some PeerStatus.deleted) = PeerStatus.deleted
replied tombstone status _ = status

-- The status after the reply: a tombstone of the device is written first.
unfoldable pub next_status : PeerStatus → Bool → Option PeerStatus → PeerStatus
next_status status device_tombstone reply =
    let stored_tombstone = is_tombstoned status in
    let marked =
      if device_tombstone && not stored_tombstone then PeerStatus.pending_delete else status in
    replied (stored_tombstone || device_tombstone) marked reply

-- A later session, or any if there is none.
abbrev pub later_of : PeerEndpointSession → Option PeerEndpointSession → PeerEndpointSession
later_of s none = s
later_of s (some t) = if ltb s.last_seen_at t.last_seen_at then t else s

-- `order_by(last_seen_at.desc())`, the first row.
unfoldable pub latest_session : ℕ → List PeerEndpointSession → Option PeerEndpointSession
latest_session peer_id [] = none
latest_session peer_id (s ∷ sessions) =
    let rest = latest_session peer_id sessions in
    if s.peer_id == peer_id then some (later_of s rest) else rest

abbrev pub new_session : ℕ → Peer → String → Option ℕ → ℕ → PeerEndpointSession
new_session id peer endpoint last_handshake observed_at = record {
  id = id;
  peer_id = peer.id;
  node_id = peer.node_id;
  user_id = peer.user_id;
  endpoint = endpoint;
  first_seen_at = observed_at;
  last_seen_at = observed_at;
  last_handshake = last_handshake;
}

abbrev pub touch_session : ℕ → Option ℕ → PeerEndpointSession → PeerEndpointSession
touch_session observed_at last_handshake s = record s {
  last_seen_at = observed_at;
  last_handshake = last_handshake;
}

-- `data.last_handshake is not None and session.last_handshake != data.last_handshake`
abbrev pub new_handshake : Option ℕ → Option ℕ → Bool
new_handshake stored sent = is_some sent && not (same_num stored sent)

-- The columns of `peer` that the reply writes whatever its counters are.
abbrev pub replied_peer : Peer → Bool → PeerSyncResult → Peer
replied_peer peer device_tombstone sent = record peer {
  status = next_status peer.status device_tombstone sent.status;
  endpoint = if sent.endpoint_set then sent.endpoint else peer.endpoint;
  last_handshake = refreshed peer.last_handshake sent.last_handshake;
}

-- `device_tombstone` is read from the device's row.
abbrev pub replied_row : List Device → PeerSyncResult → Peer → Peer
replied_row devices sent peer =
    replied_peer peer (is_dead (find_device peer.device_id devices)) sent

abbrev pub counted_peer : ℕ → ℕ → Peer → Peer
counted_peer rx_bytes tx_bytes peer = record peer { raw_rx = some rx_bytes; raw_tx = some tx_bytes }

-- A write to the row of a peer.
abbrev pub write_peer : ℕ → (Peer → Peer) → List Peer → List Peer
write_peer peer_id f peers = map (update_if (λ (p : Peer). p.id == peer_id) f) peers

abbrev pub new_delta : Peer → ℕ → ℕ → ℕ → TrafficDelta
new_delta peer rx_bytes tx_bytes now =
    let delta_rx = counter_delta peer.raw_rx rx_bytes in
    let delta_tx = counter_delta peer.raw_tx tx_bytes in
    record {
      peer_id = peer.id;
      node_id = peer.node_id;
      user_id = peer.user_id;
      observed_at = now;
      previous_rx_bytes = or_zero peer.raw_rx;
      previous_tx_bytes = or_zero peer.raw_tx;
      current_rx_bytes = rx_bytes;
      current_tx_bytes = tx_bytes;
      rx_delta_bytes = delta_rx;
      tx_delta_bytes = delta_tx;
      total_delta_bytes = delta_rx + delta_tx;
      rx_reset_detected = reset_detected peer.raw_rx rx_bytes;
      tx_reset_detected = reset_detected peer.raw_tx tx_bytes;
    }

abbrev pub new_sample : Peer → ℕ → ℕ → ℕ → PeerTrafficSample
new_sample peer rx_bytes tx_bytes now = record {
  peer_id = peer.id;
  sampled_at = now;
  rx_bytes = counter_delta peer.raw_rx rx_bytes;
  tx_bytes = counter_delta peer.raw_tx tx_bytes;
}

-- The part of `apply_peer_result` behind the test that both counters were sent. `peer` has the
-- stored counters.
unfoldable pub apply_counters : Peer → ℕ → ℕ → ℕ → Db → Option PeerTrafficSample × Db
unfolding counter_delta reset_detected apply_local_traffic_aggregates
apply_counters peer rx_bytes tx_bytes now db =
    let delta_rx = counter_delta peer.raw_rx rx_bytes in
    let delta_tx = counter_delta peer.raw_tx tx_bytes in
    let db' = record db { peers = write_peer peer.id (counted_peer rx_bytes tx_bytes) db.peers } in
    if delta_rx == 0 && delta_tx == 0 then (none, db') else (
      some (new_sample peer rx_bytes tx_bytes now),
      apply_local_traffic_aggregates peer now delta_rx delta_tx (record db' {
        samples = db.samples ++ new_sample peer rx_bytes tx_bytes now ∷ [];
        deltas = db.deltas ++ new_delta peer rx_bytes tx_bytes now ∷ [];
      }),
    )

-- `if data.rx_bytes is None or data.tx_bytes is None: return None`
unfoldable pub apply_sent_counters :
    Peer → Option ℕ → Option ℕ → ℕ → Db → Option PeerTrafficSample × Db
unfolding apply_counters
apply_sent_counters peer (some rx_bytes) (some tx_bytes) now db =
    apply_counters peer rx_bytes tx_bytes now db
apply_sent_counters peer _ _ now db = (none, db)

-- `draw_id` is the id that is drawn for a new session, given those that there are.
module _ (draw_id : List PeerEndpointSession → ℕ) where
  unfoldable pub apply_session :
      Peer → String → Option ℕ → ℕ → List PeerEndpointSession → List PeerEndpointSession
  unfolding latest_session
  apply_session peer endpoint last_handshake observed_at sessions =
      let added =
        sessions ++ new_session (draw_id sessions) peer endpoint last_handshake observed_at ∷ [] in
      elim (latest_session peer.id sessions) [
        | none ↦ added
        | some session ↦
            if not (str_eq session.endpoint endpoint)
            then added
            else if new_handshake session.last_handshake last_handshake
            then map
                (update_if (λ (s : PeerEndpointSession). s.id == session.id)
                  (touch_session observed_at last_handshake))
                sessions
            else sessions
      ]

  unfoldable pub apply_peer_endpoint_session : Peer → PeerSyncResult → ℕ → Db → Db
  unfolding apply_session filled
  apply_peer_endpoint_session peer sent observed_at db = elim sent.endpoint [
    | none ↦ db
    | some endpoint ↦ if not (filled endpoint) then db else record db {
      sessions = apply_session peer endpoint sent.last_handshake observed_at db.sessions;
    }
  ]

  -- `peer` is the current row of the peer that the reply is about.
  unfoldable pub apply_peer_result : Peer → PeerSyncResult → ℕ → Db → Option PeerTrafficSample × Db
  unfolding next_status apply_peer_endpoint_session apply_sent_counters
  apply_peer_result peer sent now db =
      let db' = record db { peers = write_peer peer.id (replied_row db.devices sent) db.peers } in
      apply_sent_counters peer sent.rx_bytes sent.tx_bytes now
        (apply_peer_endpoint_session peer sent now db')
