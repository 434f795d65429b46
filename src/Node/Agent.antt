-- ===== src/Node/Agent.antt =====
-- node/agent/agent.py: the requests on the peers of the interface. The awg command is outside: it acts on
-- the kernel's interface and says whether it succeeded, and what `awg show` prints is the list of the
-- interface's peers. The decoding and the
-- encoding of base64 are those of the standard library.
pub mod Peers
mod Tests
use vpn_management_panel.Prelude.{
  ℕ, String, Bool, true, false, Option, none, some, List, [], ◌∷◌, map, text_or, filled,
  if◌then◌else◌, length, ◌==◌,
}
use vpn_management_panel.Node.Config.{
  Entry, configured, configured_peers, persist_peer, unpersist_peer,
}

-- `SyncPeerRequest`
pub record SyncPeerRequest : Type 0 where
  pub public_key : String
  pub allowed_ip : String
  pub psk_key : Option String

-- A peer that `awg show` prints.
pub record ShownPeer : Type 0 where
  pub public_key : String
  pub allowed_ips : List String
  pub psk_key : Option String

-- The awg command on an interface of type K.
pub record Awg (K : Type 0) : Type 0 where
  pub show : K → Option (List ShownPeer)
  -- `awg set … peer … [preshared-key …] allowed-ips …`
  pub set_peer : String → String → Option String → K → Bool × K
  -- `awg set … peer … remove`
  pub remove_peer : String → K → Bool × K

pub record Agent (K : Type 0) : Type 0 where
  pub kernel : K
  pub config : Option (List String)

pub data Reply : Type 0 where
  done : Reply
  http_error : ℕ → Reply

abbrev pub present_psk : Option String → Option String
present_psk none = none
present_psk (some psk) = if filled psk then some psk else none

abbrev pub configured_of : Option (List String) → List Entry
configured_of none = []
configured_of (some lines) = configured_peers lines

module _ {K : Type 0} (awg : Awg K) where
  -- `sync_peer`, once awg has shown the interface
  abbrev pub set_and_persist : SyncPeerRequest → Agent K → Bool × K → Reply × Agent K
  set_and_persist req node (true, kernel) = (
    done,
    record {
      kernel = kernel;
      config =
          some (persist_peer req.public_key req.allowed_ip (text_or req.psk_key "") node.config);
    },
  )
  set_and_persist req node (false, kernel) = (http_error 500, record node { kernel = kernel })

  unfoldable pub sync_peer : SyncPeerRequest → Agent K → Reply × Agent K
  unfolding persist_peer text_or
  sync_peer req node = elim (awg.show node.kernel) [
    | none ↦ (http_error 500, node)
    | some peers ↦
        set_and_persist req node
          (awg.set_peer req.public_key req.allowed_ip (present_psk req.psk_key) node.kernel)
  ]

  -- `delete_peer`, once awg has removed the peer: a configuration that does not exist is an error.
  abbrev pub forget : String → Agent K → Bool × K → Reply × Agent K
  forget key node (false, kernel) = (http_error 500, record node { kernel = kernel })
  forget key node (true, kernel) = elim node.config [
    | none ↦ (http_error 500, record node { kernel = kernel })
    | some lines ↦ (done, record { kernel = kernel; config = some (unpersist_peer key lines) })
  ]

  unfoldable pub delete_peer :
      (String → Option (List ℕ)) → (List ℕ → String) → String → Agent K → Reply × Agent K
  unfolding unpersist_peer
  delete_peer urlsafe_decode encode pubkey_b64 node = elim (urlsafe_decode pubkey_b64) [
    | none ↦ (http_error 400, node)
    | some raw ↦
        if length raw == 32
        then forget (encode raw) node (awg.remove_peer (encode raw) node.kernel)
        else (http_error 400, node)
  ]

  -- The key that `status` shows of a peer: the one of the configuration, when the peer is in it.
  abbrev pub with_configured : List Entry → ShownPeer → ShownPeer
  with_configured entries peer = elim (configured peer.public_key entries) [
    | none ↦ peer
    | some entry ↦ record peer { psk_key = some entry.psk_key }
  ]

  -- The peers of `status`, or the error of awg.
  unfoldable pub status : Agent K → Option (List ShownPeer)
  unfolding configured configured_peers
  status node = elim (awg.show node.kernel) [
    | none ↦ none
    | some peers ↦ some (map (with_configured (configured_of node.config)) peers)
  ]
