-- ===== src/Panel/Lifecycle/Restored.antt =====
-- panel/backend/app/services/local_lifecycle.py and account_policy.py: the standing of an account that the
-- policy reads after a lifecycle pass.
use vpn_management_panel.Prelude.{
  ℕ, not, ◌&&◌, ◌||◌, ◌≡◌, refl, sym, ap, ◌∙◌, none, some, List, [], ◌∷◌, map, ◌==◌, update_if,
  arith, inl, inr, Bool-cases,
}
use vpn_management_panel.Panel.Models.{LifecycleStatus, Node, User, Device, Db, is_lifecycle_active}
use vpn_management_panel.Panel.Errors.{ok}
use vpn_management_panel.Panel.Limits.{find_user, find_profile}
use vpn_management_panel.Panel.Policy.{
  Status, is_active_code, account_status, local_account_status, fresh_account_status,
}
use vpn_management_panel.Panel.Provisioning.{
  Fresh, list_live_devices, create_pending_peer, insert_peer, create_on_nodes,
  create_pending_peers_for_device, restore_devices, restore_missing_peers_for_user,
}
use vpn_management_panel.Panel.Lifecycle.{
  local_user_expired, local_user_limited, load_local_total_bytes, desired_status, set_standing,
  apply_local_lifecycle_state, enforce_local_lifecycle_for_user,
}
use vpn_management_panel.Panel.Lifecycle.Outcome.{local_account_status-desired_status}

-- A database without its peers.
abbrev apart_from_peers : Db → Db
apart_from_peers db = record db { peers = [] }

module _ (fresh : Fresh) where
  create_pending_peer-apart :
      (node_id : ℕ) (d : Device) (db : Db)
      → apart_from_peers (create_pending_peer fresh node_id d db).1 ≡ apart_from_peers db
  unfolding create_pending_peer insert_peer
  create_pending_peer-apart node_id d db = ground arith

  create_on_nodes-apart :
      (nodes : List ℕ) (d : Device) (created : List ℕ) (db : Db)
      → apart_from_peers (create_on_nodes fresh nodes d created db).1 ≡ apart_from_peers db
  unfolding create_on_nodes
  create_on_nodes-apart [] d created db = refl
  create_on_nodes-apart (n ∷ nodes) d created db =
      create_on_nodes-apart nodes d _ (create_pending_peer fresh n d db).1
      ∙ create_pending_peer-apart n d db

  restore_devices-apart :
      (devices : List Device) (created : List ℕ) (db : Db)
      → apart_from_peers (restore_devices fresh devices created db).1 ≡ apart_from_peers db
  unfolding restore_devices create_pending_peers_for_device
  restore_devices-apart [] created db = refl
  restore_devices-apart (d ∷ devices) created db =
      let all = map (λ (n : Node). n.id) db.nodes in
      restore_devices-apart devices _ (create_on_nodes fresh all d [] db).1
      ∙ create_on_nodes-apart all d [] db

  restore_missing_peers_for_user-apart :
      (user_id : ℕ) (db : Db)
      → apart_from_peers (restore_missing_peers_for_user fresh user_id db).1 ≡ apart_from_peers db
  unfolding restore_missing_peers_for_user
  restore_missing_peers_for_user-apart user_id db =
      restore_devices-apart (list_live_devices db.devices user_id) [] db

-- Only the account's row says what the policy answers here.
fresh_account_status-local :
    (now user_id total : ℕ) (db : Db) (user : User)
    → find_user user_id db.users ≡ some user
    → find_profile user.id db.remnawave_users ≡ none
    → load_local_total_bytes db.user_lifetime user_id ≡ total
    → fresh_account_status now user_id db ≡ ok (local_account_status now user total)
unfolding fresh_account_status account_status
fresh_account_status-local now user_id total db user u p t =
    rw (u, fresh_account_status, p, account_status, t) refl

fresh_account_status-apart :
    (now user_id : ℕ) (db : Db)
    → fresh_account_status now user_id (apart_from_peers db) ≡ fresh_account_status now user_id db
unfolding fresh_account_status
fresh_account_status-apart now user_id db = refl

-- The account's row after the pass.
abbrev stood : LifecycleStatus → User → User
stood status u = record u {
  lifecycle_status = status;
  is_blocked = not (is_lifecycle_active status);
}

find_user-stood :
    (id : ℕ) (status : LifecycleStatus) (users : List User) (u : User)
    → find_user id users ≡ some u
    → find_user id (map (update_if (λ (x : User). x.id == id) (stood status)) users)
      ≡ some (stood status u)
find_user-stood id status [] u e = cc
find_user-stood id status (x ∷ users) u e = elim (Bool-cases (x.id == id)) [
  | inl hit ↦ let same : x ≡ u = ground arith in ground arith
  | inr miss ↦ let rest = find_user-stood id status users u (ground arith) in ground arith
]

-- The pass does not move the desired status.
desired_status-stood :
    (now : ℕ) (user : User) (total : ℕ)
    → desired_status now (stood (desired_status now user total) user) total
      ≡ desired_status now user total
unfolding desired_status local_user_expired local_user_limited
desired_status-stood now user total = ground arith

set_standing-find_user :
    (user : User) (status : LifecycleStatus) (db : Db)
    → find_user user.id db.users ≡ some user
    → find_user user.id (set_standing user status db).1.users ≡ some (stood status user)
unfolding set_standing
set_standing-find_user user status db found = find_user-stood user.id status db.users user found

set_standing-status :
    (now : ℕ) (user : User) (db : Db)
    → find_user user.id db.users ≡ some user
    → find_profile user.id db.remnawave_users ≡ none
    → let total = load_local_total_bytes db.user_lifetime user.id in
      let status = desired_status now user total in
      fresh_account_status now user.id (set_standing user status db).1
      ≡ ok (local_account_status now (stood status user) total)
unfolding set_standing
set_standing-status now user db found p =
    let total = load_local_total_bytes db.user_lifetime user.id in
    let status = desired_status now user total in
    fresh_account_status-local now user.id total (set_standing user status db).1 (stood status user)
      (set_standing-find_user user status db found) p refl

active_stood :
    (now : ℕ) (user : User) (total : ℕ)
    → let status = desired_status now user total in
      is_active_code (local_account_status now (stood status user) total).code
      ≡ is_lifecycle_active status
active_stood now user total =
    let status = desired_status now user total in
    let agrees = local_account_status-desired_status now (stood status user) total in
    let stays = desired_status-stood now user total in
    let b = is_lifecycle_active status in
    agrees ∙ ap (λ (s : LifecycleStatus). is_lifecycle_active s && not (not b)) stays ∙ ground arith

-- Right after the lifecycle pass over a local account, the policy reads the account as active just
-- where the pass found nothing against it: not expired, not over its limit, not blocked.
pub enforce_local_lifecycle_for_user-is_active_code :
    (fresh : Fresh) (now : ℕ) (db : Db) (user : User)
    → find_user user.id db.users ≡ some user
    → find_profile user.id db.remnawave_users ≡ none
    → (s : Status) × (fresh_account_status now user.id
          (enforce_local_lifecycle_for_user fresh now user.id db).1
        ≡ ok s)
      × (is_active_code s.code
          ≡ is_lifecycle_active
              (desired_status now user (load_local_total_bytes db.user_lifetime user.id)))
unfolding enforce_local_lifecycle_for_user apply_local_lifecycle_state
enforce_local_lifecycle_for_user-is_active_code fresh now db user found p =
    let total = load_local_total_bytes db.user_lifetime user.id in
    let status = desired_status now user total in
    let db' = (set_standing user status db).1 in
    let stood_status = set_standing-status now user db found p in
    let restored =
      sym (
        fresh_account_status-apart now user.id (restore_missing_peers_for_user fresh user.id db').1)
      ∙ ap (fresh_account_status now user.id)
          (restore_missing_peers_for_user-apart fresh user.id db')
      ∙ fresh_account_status-apart now user.id db' in
    let was = user.is_blocked || not (is_lifecycle_active user.lifecycle_status) in
    (
      local_account_status now (stood status user) total,
      elim (Bool-cases (was && is_lifecycle_active status)) [
        | inl e ↦ rw (found, enforce_local_lifecycle_for_user, p, e) (restored ∙ stood_status)
        | inr e ↦ rw (found, enforce_local_lifecycle_for_user, p, e) stood_status
      ],
      active_stood now user total,
    )
