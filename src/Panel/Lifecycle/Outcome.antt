-- ===== src/Panel/Lifecycle/Outcome.antt =====
-- panel/backend/app/services/local_lifecycle.py: what a pass leaves, and its agreement with the policy
-- of services/account_policy.py.
use vpn_management_panel.Prelude.{
  ℕ, true, false, not, ◌&&◌, ◌||◌, ◌≡◌, Option, List, [], ◌∷◌, map, ◌==◌, select, All, update_if,
  step_row, arith,
}
use vpn_management_panel.Panel.Models.{
  LifecycleStatus, User, Peer, Db, is_lifecycle_active, is_pending_delete,
}
use vpn_management_panel.Panel.Policy.{is_active_code, local_account_status}
use vpn_management_panel.Panel.Provisioning.{Fresh, tombstoned_device_ids}
use vpn_management_panel.Panel.Lifecycle.{
  local_user_blocked_reason, desired_status, lifecycle_peer, set_standing, given_total,
  apply_local_lifecycle_state,
}

-- The policy calls an account active just where the lifecycle pass would and the account is not
-- flagged as blocked.
pub local_account_status-desired_status :
    (now : ℕ) (user : User) (total : ℕ)
    → is_active_code (local_account_status now user total).code
      ≡ (is_lifecycle_active (desired_status now user total) && not user.is_blocked)
unfolding local_account_status desired_status local_user_blocked_reason
local_account_status-desired_status now user total = ground arith

blocked_row :
    (user_id : ℕ) (tombstoned : List ℕ) (p : Peer)
    → (let q = step_row (λ (p : Peer). p.user_id == user_id) (lifecycle_peer true tombstoned) p in
        (q.user_id == user_id && not (is_pending_delete q.status)))
      ≡ false
unfolding lifecycle_peer
blocked_row user_id tombstoned p = ground arith

blocked_peers :
    (user_id : ℕ) (tombstoned : List ℕ) (peers : List Peer)
    → All
        (λ (q : Peer). (q.user_id == user_id && not (is_pending_delete q.status)) ≡ false)
        (map (step_row (λ (p : Peer). p.user_id == user_id) (lifecycle_peer true tombstoned)) peers)
blocked_peers user_id tombstoned [] = tt
blocked_peers user_id tombstoned (p ∷ peers) =
    (blocked_row user_id tombstoned p, blocked_peers user_id tombstoned peers)

blocked_users :
    (user_id : ℕ) (status : LifecycleStatus) (users : List User)
    → All
        (λ (u : User). (u.id == user_id && not u.is_blocked) ≡ false)
        (map
          (update_if
            (λ (u : User). u.id == user_id)
            (λ u. record u { lifecycle_status = status; is_blocked = true }))
          users)
blocked_users user_id status [] = tt
blocked_users user_id status (u ∷ users) = (ground arith, blocked_users user_id status users)

-- Every peer of the account is on its way out, and the account is flagged.
pub record IsBlocked (user_id : ℕ) (db : Db) : Type 0 where
  pub peers :
      All
        (λ (q : Peer). (q.user_id == user_id && not (is_pending_delete q.status)) ≡ false)
        db.peers
  pub users : All (λ (u : User). (u.id == user_id && not u.is_blocked) ≡ false) db.users

set_standing-IsBlocked :
    (user : User) (status : LifecycleStatus) (db : Db)
    → is_lifecycle_active status ≡ false
    → IsBlocked user.id (set_standing user status db).1
unfolding set_standing
set_standing-IsBlocked user status db e =
    let mine = select (λ (p : Peer). p.user_id == user.id) db.peers in
    let tombstoned = tombstoned_device_ids db.devices (map (λ (p : Peer). p.device_id) mine) in
    rw e (record {
      peers = blocked_peers user.id tombstoned db.peers;
      users = blocked_users user.id status db.users;
    })

-- A pass that finds the account expired, over its limit or blocked leaves every peer of the account
-- marked for removal, those of tombstoned devices included, and the account flagged as blocked.
pub apply_local_lifecycle_state-IsBlocked :
    (fresh : Fresh) (now : ℕ) (user : User) (total : Option ℕ) (db : Db)
    → is_lifecycle_active (desired_status now user (given_total db user.id total)) ≡ false
    → IsBlocked user.id (apply_local_lifecycle_state fresh now user total db).1
unfolding apply_local_lifecycle_state
apply_local_lifecycle_state-IsBlocked fresh now user total db e =
    let status = desired_status now user (given_total db user.id total) in
    let blocked = set_standing-IsBlocked user status db e in
    let was = user.is_blocked || not (is_lifecycle_active user.lifecycle_status) in
    let stays : (was && is_lifecycle_active status) ≡ false = ground (arith, e) in rw stays blocked
