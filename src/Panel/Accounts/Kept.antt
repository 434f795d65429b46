-- ===== src/Panel/Accounts/Kept.antt =====
-- The requests on accounts and nodes keep the invariant of ownership.
use vpn_management_panel.Prelude.{
  ℕ, String, Bool, true, not, inl, inr, Option, none, some, List, ◌==◌, find, str_eq, All-select,
  step_row, Option-cases, Bool-cases, arith,
}
use vpn_management_panel.Panel.Models.{LifecycleStatus, User, Device, Peer, RemnawaveUser, Db}
use vpn_management_panel.Panel.Errors.{Result-cases}
use vpn_management_panel.Panel.Addresses.{hit_ids}
use vpn_management_panel.Panel.Provisioning.{Fresh}
use vpn_management_panel.Panel.Lifecycle.{
  local_user_blocked_reason, load_local_total_bytes, reset_local_traffic_usage,
}
use vpn_management_panel.Panel.Remnawave.{is_mine}
use vpn_management_panel.Panel.NodeResults.Replies.{Env, load_node_with_peers}
use vpn_management_panel.Panel.Ownership.{IsSafe, IsWellFormed, IsKept}
use vpn_management_panel.Panel.Ownership.Tables.{IsOwned-map}
use vpn_management_panel.Panel.Ownership.Standing.{apply_local_lifecycle_state-IsWellFormed}
use vpn_management_panel.Panel.Ownership.Released.{release_device_ips-IsWellFormed}
use vpn_management_panel.Panel.Ownership.Remote.{delete_owner-IsWellFormed}
use vpn_management_panel.Panel.Accounts.{
  with_status, with_lifecycle, with_reset, guarded_user, write_user, is_constraint,
  LocalUserLifecycleUpdate, rederived, block_user, unblock_user, update_local_lifecycle,
  reset_local_traffic, delete_user, delete_node_rows, delete_node, request_removal,
  mark_remnawave_user_deleted,
}

module _ (fresh : Fresh) (now : ℕ) where
  rederived-IsKept :
      (user : User) (total : Option ℕ) (db : Db)
      → IsWellFormed db
      → IsKept (rederived fresh now user total db)
  rederived-IsKept user total db o =
      apply_local_lifecycle_state-IsWellFormed fresh now user total (write_user user db) o

  pub block_user-IsKept :
      (user_id : ℕ) (db : Db) → IsWellFormed db → IsKept (block_user fresh now user_id db)
  unfolding block_user
  block_user-IsKept user_id db o = elim (Result-cases (guarded_user user_id db)) [
    | inl (e, q) ↦ rw (block_user, q) tt
    | inr (user, q) ↦
        rw (block_user, q) (rederived-IsKept (with_status LifecycleStatus.blocked user) none db o)
  ]

  pub unblock_user-IsKept :
      (user_id : ℕ) (db : Db) → IsWellFormed db → IsKept (unblock_user fresh now user_id db)
  unfolding unblock_user
  unblock_user-IsKept user_id db o = elim (Result-cases (guarded_user user_id db)) [
    | inl (e, q) ↦ rw (unblock_user, q) tt
    | inr (user, q) ↦
        let total = load_local_total_bytes db.user_lifetime user.id in
        elim (Bool-cases (is_constraint (local_user_blocked_reason now user total))) [
          | inl refused ↦ rw (unblock_user, q, refused) tt
          | inr free ↦
              rw (unblock_user, q, free)
                (rederived-IsKept (with_status LifecycleStatus.active user) (some total) db o)
        ]
  ]

  pub update_local_lifecycle-IsKept :
      (user_id : ℕ) (sent : LocalUserLifecycleUpdate) (db : Db)
      → IsWellFormed db
      → IsKept (update_local_lifecycle fresh now user_id sent db)
  unfolding update_local_lifecycle
  update_local_lifecycle-IsKept user_id sent db o = elim (Result-cases (guarded_user user_id db)) [
    | inl (e, q) ↦ rw (update_local_lifecycle, q) tt
    | inr (user, q) ↦
        rw (update_local_lifecycle, q) (rederived-IsKept (with_lifecycle sent user) none db o)
  ]

  reset_rows-IsWellFormed :
      (user : User) (db : Db)
      → IsWellFormed db
      → IsWellFormed (reset_local_traffic_usage user now db)
  unfolding reset_local_traffic_usage
  reset_rows-IsWellFormed user db o = o

  pub reset_local_traffic-IsKept :
      (user_id : ℕ) (db : Db) → IsWellFormed db → IsKept (reset_local_traffic fresh now user_id db)
  unfolding reset_local_traffic
  reset_local_traffic-IsKept user_id db o = elim (Result-cases (guarded_user user_id db)) [
    | inl (e, q) ↦ rw (reset_local_traffic, q) tt
    | inr (user, q) ↦ elim (Bool-cases (not (str_eq user.traffic_reset_policy "manual"))) [
      | inl refused ↦ rw (reset_local_traffic, q, refused) tt
      | inr manual ↦
          rw (reset_local_traffic, q, manual)
            (rederived-IsKept (with_reset now user) (some 0) (reset_local_traffic_usage user now db)
              (reset_rows-IsWellFormed user db o))
    ]
  ]

pub delete_user-IsKept : (user_id : ℕ) (db : Db) → IsWellFormed db → IsKept (delete_user user_id db)
unfolding delete_user
delete_user-IsKept user_id db o = elim (Result-cases (guarded_user user_id db)) [
  | inl (e, q) ↦ rw (delete_user, q) tt
  | inr (user, q) ↦ rw (delete_user, q) (delete_owner-IsWellFormed user.id db o)
]

-- The peers of a node are dropped, and the devices stay.
delete_node_rows-IsWellFormed :
    (node_id : ℕ) (db : Db) → IsWellFormed db → IsWellFormed (delete_node_rows node_id db)
unfolding delete_node_rows
delete_node_rows-IsWellFormed node_id db o = record {
  distinct = o.distinct;
  apart = o.apart;
  safe = All-select (IsSafe db.devices) (λ (p : Peer). not (p.node_id == node_id)) db.peers o.safe;
}

pub delete_node-IsKept :
    (env : Env) (node_id : ℕ) (db : Db) → IsWellFormed db → IsKept (delete_node env node_id db)
unfolding delete_node
delete_node-IsKept env node_id db o = elim (Result-cases (load_node_with_peers env node_id db)) [
  | inl (e, q) ↦ rw (delete_node, q) tt
  | inr ((node, peers), q) ↦
      rw (delete_node, q)
        (release_device_ips-IsWellFormed (hit_ids (λ (p : Peer). true) (λ p. p.device_id) peers)
          env.now (delete_node_rows node.id db) (delete_node_rows-IsWellFormed node.id db o))
]

-- A removal that is asked for needs no look at the devices.
request_removal-IsSafe :
    (mine : Peer → Bool) (devices : List Device) (p : Peer)
    → IsSafe devices p
    → IsSafe devices (step_row mine request_removal p)
unfolding request_removal
request_removal-IsSafe mine devices p h = ground arith

pub mark_remnawave_user_deleted-IsWellFormed :
    (now : ℕ) (user_uuid : String) (db : Db)
    → IsWellFormed db
    → IsWellFormed (mark_remnawave_user_deleted now user_uuid db).1
unfolding mark_remnawave_user_deleted
mark_remnawave_user_deleted-IsWellFormed now user_uuid db o =
    elim (Option-cases
      (find (λ (r : RemnawaveUser). str_eq r.remnawave_uuid user_uuid) db.remnawave_users)) [
        | inl e ↦ rw (e, mark_remnawave_user_deleted) o
        | inr (row, e) ↦
            rw (e, mark_remnawave_user_deleted)
              (IsOwned-map (step_row (is_mine row.user_id) request_removal)
                (λ p h. request_removal-IsSafe (is_mine row.user_id) db.devices p h) o)
      ]
