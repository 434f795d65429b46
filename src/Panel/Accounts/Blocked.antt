-- ===== src/Panel/Accounts/Blocked.antt =====
-- panel/backend/app/routers/api_parts/users.py: what a block request leaves.
use vpn_management_panel.Prelude.{ℕ, false, ◌≡◌, refl, none, some, List, arith}
use vpn_management_panel.Panel.Models.{LifecycleStatus, User, Db, is_lifecycle_active}
use vpn_management_panel.Panel.Errors.{ok}
use vpn_management_panel.Panel.Limits.{find_user, find_profile}
use vpn_management_panel.Panel.Provisioning.{Fresh}
use vpn_management_panel.Panel.Lifecycle.{desired_status, given_total, apply_local_lifecycle_state}
use vpn_management_panel.Panel.Lifecycle.Outcome.{IsBlocked, apply_local_lifecycle_state-IsBlocked}
use vpn_management_panel.Panel.Accounts.{with_status, write_user, nodes_of, block_user}

-- An account with the status of a block is not active, whatever else holds of it.
desired_status-blocked :
    (now : ℕ) (user : User) (total : ℕ)
    → is_lifecycle_active (desired_status now (with_status LifecycleStatus.blocked user) total)
      ≡ false
unfolding desired_status
desired_status-blocked now user total = ground arith

-- A block of a local account that exists succeeds, whatever state the account is in, and leaves every peer of
-- it marked for removal and the account flagged as blocked.
pub block_user-IsBlocked :
    (fresh : Fresh) (now : ℕ) (db : Db) (user : User)
    → find_user user.id db.users ≡ some user
    → find_profile user.id db.remnawave_users ≡ none
    → (nodes : List ℕ) × (after : Db) × (block_user fresh now user.id db ≡ ok (nodes, after))
      × IsBlocked user.id after
unfolding block_user
block_user-IsBlocked fresh now db user found local =
    let blocked = with_status LifecycleStatus.blocked user in
    let written = write_user blocked db in
    let after = (apply_local_lifecycle_state fresh now blocked none written).1 in
    (
      nodes_of user.id after,
      after,
      rw (block_user, found, local) refl,
      apply_local_lifecycle_state-IsBlocked fresh now blocked none written
          (desired_status-blocked now user (given_total written user.id none)),
    )
