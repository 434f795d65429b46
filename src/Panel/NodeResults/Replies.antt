-- ===== src/Panel/NodeResults/Replies.antt =====
-- panel/backend/app/routers/internal_worker_parts/nodes.py: the results that the worker reports for a
-- node, up to the loop over its replies. `Env` holds what the
-- handlers take from outside: the clock, what is drawn at random, the message broker's answers, and
-- which peers' owners and devices could be locked.
use vpn_management_panel.Prelude.{
  sorted_texts, ℕ, String, Bool, ◌&&◌, Option, none, some, List, [], ◌∷◌, map, ◌==◌, leb, same_text,
  truthy, mem_text, add, union, select, find, update_if, if◌then◌else◌,
}
use vpn_management_panel.Panel.Models.{
  Node, Device, Peer, PeerEndpointSession, Target, AsyncOperation, Db,
}
use vpn_management_panel.Panel.Errors.{Result, ok, err, not_found}
use vpn_management_panel.Panel.Provisioning.{Fresh}
use vpn_management_panel.Panel.Lifecycle.{enforce_local_lifecycle_for_user}
use vpn_management_panel.Panel.Deletion.{find_device}
use vpn_management_panel.Panel.Remnawave.{enforce_remnawave_combined_limit_for_user}
use vpn_management_panel.Panel.Operations.{enqueue_all}
use vpn_management_panel.Panel.NodeSync.PeerResult.{PeerSyncResult, apply_peer_result}

pub record Env : Type 0 where
  pub now : ℕ
  pub fresh : Fresh
  pub draw_session : List PeerEndpointSession → ℕ
  pub draw_operation : List AsyncOperation → ℕ
  pub publish : AsyncOperation → Option String
  -- whether the owner's and the device's rows of a peer were locked
  pub locked : Peer → Bool

abbrev pub find_node : ℕ → List Node → Option Node
find_node node_id = find (λ n. n.id == node_id)

abbrev pub find_peer : ℕ → List Peer → Option Peer
find_peer peer_id = find (λ p. p.id == peer_id)

abbrev pub write_node : ℕ → (Node → Node) → Db → Db
write_node node_id f db = record db {
  nodes = map (update_if (λ (n : Node). n.id == node_id) f) db.nodes;
}

abbrev pub key_of : Option Device → Option String
key_of none = none
key_of (some device) = device.public_key

-- `peer.device.public_key`, if the peer has a device
abbrev pub device_key : List Device → Peer → Option String
device_key devices peer = key_of (find_device peer.device_id devices)

abbrev pub last_of : Option ℕ → Option ℕ → Option ℕ
last_of none earlier = earlier
last_of (some later) earlier = some later

abbrev pub has_key : List Device → String → Peer → Bool
has_key devices key peer =
    let stored = device_key devices peer in truthy stored && same_text stored (some key)

-- `peers_by_public_key.get(key)`: the id of the last peer whose device has the key.
unfoldable pub peer_by_public_key : List Device → List Peer → String → Option ℕ
peer_by_public_key devices [] key = none
peer_by_public_key devices (peer ∷ peers) key =
    last_of (peer_by_public_key devices peers key)
      (if has_key devices key peer then some peer.id else none)

-- The current row of the peer that a reply is about.
abbrev pub current_peer : Option ℕ → List Peer → Option Peer
current_peer none peers = none
current_peer (some peer_id) peers = find_peer peer_id peers

-- The sets that the loop of `_apply_peer_results` fills.
pub record Touched : Type 0 where
  pub limited_node_ids : List ℕ
  pub local_lifecycle_node_ids : List ℕ
  pub remote_disable_uuids : List String
  pub acknowledged_owner_ids : List ℕ

abbrev pub untouched : Touched
untouched = record {
  limited_node_ids = [];
  local_lifecycle_node_ids = [];
  remote_disable_uuids = [];
  acknowledged_owner_ids = [];
}

abbrev pub add_texts : List String → List String → List String
add_texts set [] = set
add_texts set (t ∷ texts) = add_texts (if mem_text t set then set else t ∷ set) texts

abbrev pub insert_sorted : ℕ → List ℕ → List ℕ
insert_sorted a [] = a ∷ []
insert_sorted a (x ∷ xs) = let rest = insert_sorted a xs in if leb a x then a ∷ x ∷ xs else x ∷ rest

abbrev pub sorted : List ℕ → List ℕ
sorted [] = []
sorted (x ∷ xs) = insert_sorted x (sorted xs)

module _ (env : Env) where
  -- What follows a reply that brought a traffic sample.
  unfoldable pub enforce_limits : ℕ → Touched → Db → Touched × Db
  unfolding enforce_local_lifecycle_for_user enforce_remnawave_combined_limit_for_user
  enforce_limits user_id touched db =
      let (local_nodes, db') = enforce_local_lifecycle_for_user env.fresh env.now user_id db in
      let (limited, db'') = enforce_remnawave_combined_limit_for_user user_id db' in
      (
        record touched {
          local_lifecycle_node_ids = union touched.local_lifecycle_node_ids local_nodes;
          limited_node_ids = union touched.limited_node_ids limited.0;
          remote_disable_uuids = add_texts touched.remote_disable_uuids limited.1;
        },
        db'',
      )

  -- One round of the loop, for a reply whose peer was found.
  unfoldable pub apply_reply : Peer → PeerSyncResult → Touched → Db → Touched × Db
  unfolding enforce_limits apply_peer_result
  apply_reply peer sent touched db =
      let touched' = record touched {
        acknowledged_owner_ids = add peer.user_id touched.acknowledged_owner_ids;
      } in
      let (sample, db') = apply_peer_result env.draw_session peer sent env.now db in
      elim sample [ none ↦ (touched', db') | some row ↦ enforce_limits peer.user_id touched' db' ]

  -- The loop. `index` is `peers_by_public_key`.
  unfoldable pub apply_replies :
      (String → Option ℕ) → List PeerSyncResult → Touched → Db → Touched × Db
  unfolding apply_reply
  apply_replies index [] touched db = (touched, db)
  apply_replies index (sent ∷ replies) touched db =
      elim (current_peer (index sent.public_key) db.peers) [
        | none ↦ apply_replies index replies touched db
        | some peer ↦
            let (touched', db') = apply_reply peer sent touched db in
            apply_replies index replies touched' db'
      ]

  -- The commands that are queued after the loop.
  unfoldable pub enqueue_touched : Touched → Db → Db
  unfolding enqueue_all
  enqueue_touched touched db =
      let enqueue = enqueue_all env.draw_operation env.publish in
      let nodes = λ (ids : List ℕ). map Target.node (sorted ids) in
      enqueue "remnawave_disable_user"
        (map Target.remnawave_user (sorted_texts touched.remote_disable_uuids)) env.now
        (enqueue "sync_node" (nodes touched.limited_node_ids) env.now
          (enqueue "sync_node" (nodes touched.local_lifecycle_node_ids) env.now db))

  -- The acknowledged owners, and the database.
  unfoldable pub apply_peer_results : List Peer → List PeerSyncResult → Db → List ℕ × Db
  unfolding apply_replies peer_by_public_key enqueue_touched
  apply_peer_results peers replies db =
      let (touched, db') =
        apply_replies (peer_by_public_key db.devices peers) replies untouched db in
      (touched.acknowledged_owner_ids, enqueue_touched touched db')

  -- `load_node_with_peers` with `for_update`.
  unfoldable pub load_node_with_peers : ℕ → Db → Result (Node × List Peer)
  load_node_with_peers node_id db = elim (find_node node_id db.nodes) [
    | none ↦ err not_found
    | some node ↦ ok (node, select (λ p. p.node_id == node.id && env.locked p) db.peers)
  ]
