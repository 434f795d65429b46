-- ===== src/Panel/Accounts.antt =====
-- panel/backend/app: the requests that change an account's standing or delete it (api_parts/users.py), the
-- deletion of a node (api_parts/nodes.py) and the remote deletion of an imported account
-- (internal_worker_parts/remnawave.py), all under routers. Each answers with the nodes that are queued for
-- a sync after its commit.
pub mod Kept
pub mod Blocked
use vpn_management_panel.Prelude.{
  ℕ, String, Bool, true, false, not, ◌||◌, ◌&&◌, Option, none, some, List, [], select, find, any,
  map, ◌==◌, str_eq, update_if, step_row, row_hit, is_some, if◌then◌else◌,
}
use vpn_management_panel.Panel.Models.{
  LifecycleStatus, PeerStatus, RemoteSync, Node, User, Peer, RemnawaveUser, Aggregate,
  TelegramProxySettings, Db, is_deleted,
}
use vpn_management_panel.Panel.Errors.{Result, ok, err, M, Reason, not_found, conflict}
use vpn_management_panel.Panel.Addresses.{hit_ids, release_device_ips}
use vpn_management_panel.Panel.Limits.{find_user, find_profile}
use vpn_management_panel.Panel.Provisioning.{Fresh}
use vpn_management_panel.Panel.Lifecycle.{
  local_user_blocked_reason, load_local_total_bytes, apply_local_lifecycle_state,
  reset_local_traffic_usage,
}
use vpn_management_panel.Panel.Remnawave.{is_mine, delete_owner}
use vpn_management_panel.Panel.NodeResults.Replies.{Env, load_node_with_peers}

-- The owner of a request, who must not be an imported account's.
abbrev pub guarded_user : ℕ → Db → Result User
guarded_user user_id db = elim (find_user user_id db.users) [
  | none ↦ err not_found
  | some user ↦ if is_some (find_profile user.id db.remnawave_users) then err conflict else ok user
]

abbrev pub write_user : User → Db → Db
write_user user db = record db {
  users = map (update_if (λ (u : User). u.id == user.id) (λ u. user)) db.users;
}

-- `_enqueue_sync_nodes_for_user`: the nodes that hold one of the owner's peers.
abbrev pub nodes_of : ℕ → Db → List ℕ
nodes_of user_id db = hit_ids (is_mine user_id) (λ (p : Peer). p.node_id) db.peers

-- `{'expired', 'limited'}`
abbrev pub is_constraint : Option Reason → Bool
is_constraint (some Reason.expired) = true
is_constraint (some Reason.limited) = true
is_constraint _ = false

-- `LocalUserLifecycleUpdate`
pub record LocalUserLifecycleUpdate : Type 0 where
  pub expire_at : Option ℕ
  pub traffic_limit_bytes : ℕ
  pub traffic_reset_policy : String

abbrev pub with_status : LifecycleStatus → User → User
with_status status user = record user { lifecycle_status = status }

abbrev pub with_lifecycle : LocalUserLifecycleUpdate → User → User
with_lifecycle sent user = record user {
  expire_at = sent.expire_at;
  traffic_limit_bytes = sent.traffic_limit_bytes;
  traffic_reset_policy = sent.traffic_reset_policy;
}

abbrev pub with_reset : ℕ → User → User
with_reset now user = record user { traffic_reset_at = some now }

module _ (fresh : Fresh) (now : ℕ) where
  -- The row that a request wrote is re-derived, and the owner's nodes are queued.
  abbrev pub rederived : User → Option ℕ → Db → Result (List ℕ × Db)
  rederived user local_total_bytes db =
      let (affected, db') =
        apply_local_lifecycle_state fresh now user local_total_bytes (write_user user db) in
      ok (nodes_of user.id db', db')

  unfoldable pub block_user : ℕ → M (List ℕ)
  unfolding apply_local_lifecycle_state hit_ids
  block_user user_id db = elim (guarded_user user_id db) [
    | err e ↦ err e
    | ok user ↦ rederived (with_status LifecycleStatus.blocked user) none db
  ]

  unfoldable pub unblock_user : ℕ → M (List ℕ)
  unfolding apply_local_lifecycle_state hit_ids
  unblock_user user_id db = elim (guarded_user user_id db) [
    | err e ↦ err e
    | ok user ↦
        let local_total = load_local_total_bytes db.user_lifetime user.id in
        if is_constraint (local_user_blocked_reason now user local_total)
        then err conflict
        else rederived (with_status LifecycleStatus.active user) (some local_total) db
  ]

  unfoldable pub update_local_lifecycle : ℕ → LocalUserLifecycleUpdate → M (List ℕ)
  unfolding apply_local_lifecycle_state hit_ids
  update_local_lifecycle user_id sent db = elim (guarded_user user_id db) [
    | err e ↦ err e
    | ok user ↦ rederived (with_lifecycle sent user) none db
  ]

  unfoldable pub reset_local_traffic : ℕ → M (List ℕ)
  unfolding apply_local_lifecycle_state reset_local_traffic_usage hit_ids
  reset_local_traffic user_id db = elim (guarded_user user_id db) [
    | err e ↦ err e
    | ok user ↦
        if not (str_eq user.traffic_reset_policy "manual")
        then err conflict
        else rederived (with_reset now user) (some 0) (reset_local_traffic_usage user now db)
  ]

-- The nodes of the owner's peers, and the database without the owner.
unfoldable pub delete_user : ℕ → M (List ℕ)
unfolding delete_owner hit_ids
delete_user user_id db = elim (guarded_user user_id db) [
  | err e ↦ err e
  | ok user ↦ ok (nodes_of user.id db, delete_owner user.id db)
]

abbrev pub at_node : ℕ → Option ℕ → Bool
at_node node_id none = false
at_node node_id (some n) = n == node_id

abbrev pub without_primary : ℕ → Option TelegramProxySettings → Option TelegramProxySettings
without_primary node_id none = none
without_primary node_id (some settings) =
    if at_node node_id settings.primary_node_id
    then some (record settings { primary_node_id = none })
    else some settings

-- `db.delete(node)`, with what the relationships and the foreign keys cascade to.
unfoldable pub delete_node_rows : ℕ → Db → Db
delete_node_rows node_id db =
    let mine = λ (p : Peer). p.node_id == node_id in
    let kept = λ (a : Aggregate). not (at_node node_id a.identity.node_id) in
    record db {
      nodes = select (λ (n : Node). not (n.id == node_id)) db.nodes;
      peers = select (λ (p : Peer). not (mine p)) db.peers;
      samples = select (λ s. not (any (λ p. p.id == s.peer_id && mine p) db.peers)) db.samples;
      sessions = select (λ s. not (s.node_id == node_id)) db.sessions;
      deltas = select (λ d. not (d.node_id == node_id)) db.deltas;
      user_node_daily = select kept db.user_node_daily;
      user_node_lifetime = select kept db.user_node_lifetime;
      proxy_settings = without_primary node_id db.proxy_settings;
      proxy_states = select (λ s. not (s.node_id == node_id)) db.proxy_states;
    }

-- The addresses are handed back of the devices whose peers were loaded.
unfoldable pub delete_node : Env → ℕ → M (List ℕ)
unfolding load_node_with_peers delete_node_rows release_device_ips hit_ids
delete_node env node_id db = elim (load_node_with_peers env node_id db) [
  | err e ↦ err e
  | ok (node, peers) ↦
      let device_ids = hit_ids (λ (p : Peer). true) (λ p. p.device_id) peers in
      ok (release_device_ips device_ids env.now (delete_node_rows node.id db))
]

-- One round of the loop of `mark_remnawave_user_deleted`.
unfoldable pub request_removal : Peer → Peer × Bool
request_removal peer =
    if not (is_deleted peer.status)
    then (record peer { status = PeerStatus.pending_delete }, true)
    else (peer, false)

abbrev pub delete_requested : ℕ → RemnawaveUser → RemnawaveUser
delete_requested now row = record row {
  delete_requested_at = elim row.delete_requested_at [
    | none ↦ some now
    | some before ↦ some before
  ];
  sync_status = RemoteSync.missing;
  sync_reason = some "delete requested";
}

unfoldable pub mark_remnawave_user_deleted : ℕ → String → Db → List ℕ × Db
unfolding request_removal hit_ids
mark_remnawave_user_deleted now user_uuid db =
    elim (find (λ (r : RemnawaveUser). str_eq r.remnawave_uuid user_uuid) db.remnawave_users) [
      | none ↦ ([], db)
      | some row ↦
          let mine = is_mine row.user_id in
          (
            hit_ids (row_hit mine request_removal) (λ p. p.node_id) db.peers,
            record db {
              remnawave_users =
                  map (update_if (λ (r : RemnawaveUser). r.id == row.id) (delete_requested now))
                    db.remnawave_users;
              users =
                  map
                    (update_if (λ (u : User). u.id == row.user_id)
                      (λ u. record u { is_blocked = true }))
                    db.users;
              peers = map (step_row mine request_removal) db.peers;
            },
          )
    ]
