-- ===== src/Worker/Handlers.antt =====
-- panel/worker/app/handlers.py: how the worker brings a node to what the panel wants of it.
pub mod Requests
pub mod Asked
pub mod Routed
pub mod Restored
mod Tests
use vpn_management_panel.Prelude.{
  ◌++◌, rstrip_char, ℕ, String, Bool, true, false, not, ◌&&◌, ◌||◌, Option, none, some, List, [],
  ◌∷◌, map, ◌==◌, select, find, str_eq, is_some, truthy, filled, text_or, strip, sorted_texts, ◌<>◌,
  if◌then◌else◌,
}
use vpn_management_panel.Panel.Models.{PeerStatus, is_pending_delete}
use vpn_management_panel.Panel.NodeSnapshot.{Json, text, Fields, PeerPayload, Snapshot}
use vpn_management_panel.Worker.NodeClient.{
  done, raised, trimmed, Exception, http_status_error, error, message_of, Io, ◌>>=◌, ◌>>◌, pure,
  raise, catch, Connection, PeerConfig, user_name, user_id, CurrentPeer, AgentStatus, DumpPeer,
  Dump, NodeAgent, put_peers, delete_peer,
}

-- `peer.get('status') == 'pending_delete' or peer.get('is_blocked')`
unfoldable pub must_go : PeerPayload → Bool
must_go peer = is_pending_delete peer.status || peer.is_blocked

-- `peer.get('user_name') or peer.get('user_id')`, an id being no empty text
unfoldable pub config_of : PeerPayload → PeerConfig
config_of peer = record {
  public_key = peer.public_key;
  allowed_ip = peer.allowed_ip;
  psk_key = peer.psk_key;
  name = if filled peer.user_name then user_name peer.user_name else user_id peer.user_id;
}

-- The two lists of `_split_peers`.
unfoldable pub active_peers : List PeerPayload → List PeerConfig
unfolding must_go config_of
active_peers peers =
    map config_of (select (λ (p : PeerPayload). filled p.public_key && not (must_go p)) peers)

unfoldable pub peers_to_delete : List PeerPayload → List String
unfolding must_go
peers_to_delete peers =
    map (λ (p : PeerPayload). p.public_key)
      (select (λ (p : PeerPayload). filled p.public_key && must_go p) peers)

-- `current_peers.get(key)`: the last entry of the status with the key.
unfoldable pub current_peer : String → List CurrentPeer → Option CurrentPeer
current_peer key [] = none
current_peer key (peer ∷ peers) =
    let later = current_peer key peers in
    elim later [
      | some found ↦ some found
      | none ↦
          if truthy peer.public_key && str_eq (text_or peer.public_key "") key
          then some peer
          else none
    ]

-- `_desired_allowed_ips`
unfoldable pub desired_allowed_ips : PeerConfig → List String
desired_allowed_ips peer =
    let allowed_ip = strip peer.allowed_ip in
    if filled allowed_ip then (allowed_ip <> "/32") ∷ [] else []

abbrev pub texts_eq : List String → List String → Bool
texts_eq [] [] = true
texts_eq (s ∷ ss) (t ∷ ts) = str_eq s t && texts_eq ss ts
texts_eq _ _ = false

-- What the worker compares of a peer of the status.
abbrev pub carried_of : CurrentPeer → List String × String
carried_of peer = (sorted_texts peer.allowed_ips, text_or peer.psk_key "")

-- `_peer_matches_current`
unfoldable pub peer_matches_current : PeerConfig → Option CurrentPeer → Bool
unfolding desired_allowed_ips
peer_matches_current desired none = false
peer_matches_current desired (some current) =
    texts_eq (sorted_texts current.allowed_ips) (desired_allowed_ips desired)
    && str_eq (text_or current.psk_key "") desired.psk_key

-- The two lists of `_reconcile_peers`.
unfoldable pub peers_to_put : List PeerConfig → AgentStatus → List PeerConfig
unfolding peer_matches_current current_peer
peers_to_put active status =
    select
      (λ (p : PeerConfig). not (peer_matches_current p (current_peer p.public_key status.peers)))
      active

unfoldable pub delete_now : List String → AgentStatus → List String
unfolding current_peer
delete_now delete status = select (λ (k : String). is_some (current_peer k status.peers)) delete

-- An entry of `_peer_results`.
pub record PeerResult : Type 0 where
  pub public_key : String
  pub status : String
  pub endpoint : Option String
  pub rx_bytes : Option ℕ
  pub tx_bytes : Option ℕ
  pub last_handshake : Option ℕ

abbrev pub peer_result : DumpPeer → PeerResult
peer_result peer = record {
  public_key = text_or peer.public_key "";
  status = text_or peer.status "active";
  endpoint = peer.endpoint;
  rx_bytes = peer.rx_bytes;
  tx_bytes = peer.tx_bytes;
  last_handshake = peer.last_handshake;
}

unfoldable pub peer_results : Dump → List PeerResult
peer_results dump = map peer_result (select (λ (p : DumpPeer). truthy p.public_key) dump.peers)

abbrev pub has_field : String → Fields → Bool
has_field key fields =
    is_some (find (λ (field : String × Json). let (name, value) = field in str_eq name key) fields)

-- `a or b` of two dictionaries.
abbrev pub or_fields : Fields → Fields → Fields
or_fields [] fields = fields
or_fields (field ∷ fields) _ = field ∷ fields

-- `if endpoint := status.get('endpoint'): result.setdefault('endpoint', endpoint)`
abbrev pub with_endpoint : Option String → Fields → Fields
with_endpoint none fields = fields
with_endpoint (some endpoint) fields =
    if filled endpoint && not (has_field "endpoint" fields)
    then fields ++ ("endpoint", text endpoint) ∷ []
    else fields

-- `_interface_result`
unfoldable pub interface_result : Fields → AgentStatus → Dump → Fields
interface_result interface status dump =
    with_endpoint status.endpoint (or_fields dump.interface (or_fields status.interface interface))

-- The result of a synchronisation that succeeded.
pub record SyncResult : Type 0 where
  pub interface : Fields
  pub peers : List PeerResult

-- `{'ok': True, ...}` and `{'ok': False, 'error': ...}`
pub data Report : Type 0 where
  succeeded : SyncResult → Report
  failed : String → Report

-- `exc.response.status_code == code` of an HTTPStatusError
abbrev pub has_status : ℕ → Exception → Bool
has_status wanted (http_status_error code path body message) = code == wanted
has_status wanted (error message) = false

abbrev pub connection : Snapshot → Connection
connection snapshot = record { endpoint = rstrip_char 47 snapshot.url; token = snapshot.token }

module _ {S : Type 0} (agent : NodeAgent S) where
  -- `_delete_peer_if_present`
  unfoldable pub delete_peer_if_present : Connection → String → Io S (Unit {0})
  unfolding delete_peer
  delete_peer_if_present c public_key =
      catch (delete_peer agent c public_key) λ e. if has_status 404 e then pure tt else raise e

  unfoldable pub delete_peers : Connection → List String → Io S (Unit {0})
  unfolding delete_peer_if_present
  delete_peers c [] = pure tt
  delete_peers c (key ∷ keys) = delete_peer_if_present c key >> delete_peers c keys

  -- The requests that change the peers.
  unfoldable pub reconcile : Connection → List PeerPayload → Io S (Unit {0})
  unfolding put_peers delete_peers
  reconcile c peers = agent.get_status (trimmed c) >>= λ current_status.
      put_peers agent c (peers_to_put (active_peers peers) current_status)
      >> delete_peers c (delete_now (peers_to_delete peers) current_status)

  -- `_apply_snapshot`
  unfoldable pub apply_snapshot : Snapshot → Io S SyncResult
  unfolding reconcile
  apply_snapshot snapshot =
      let c = connection snapshot in
      agent.put_interface (trimmed c) snapshot.interface >>= λ interface.
      reconcile c snapshot.peers
      >> (agent.get_status (trimmed c) >>= λ status. agent.get_dump (trimmed c) >>= λ dump.
          pure (record {
            interface = interface_result interface status dump;
            peers = peer_results dump;
          }))
