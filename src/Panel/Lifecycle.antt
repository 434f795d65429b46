-- ===== src/Panel/Lifecycle.antt =====
-- panel/backend/app/services/local_lifecycle.py: the state of a local account, and what a change of
-- it does to the account's peers. The current time is a parameter. `aware` reads a time without a
-- zone as UTC, which an instant is already.
pub mod Outcome
pub mod Restored
use vpn_management_panel.Prelude.{
  ℕ, Bool, true, false, not, ◌&&◌, ◌||◌, Option, none, some, List, [], map, ◌==◌, ltb, leb, mem,
  union, select, find, update_if, is_some, step_row, row_hit, if◌then◌else◌,
}
use vpn_management_panel.Panel.Models.{
  PeerStatus, LifecycleStatus, User, Peer, Aggregate, Db, is_pending_delete, is_tombstoned,
  is_lifecycle_active, is_lifecycle_blocked, date,
}
use vpn_management_panel.Panel.Errors.{Reason}
use vpn_management_panel.Panel.Limits.{find_user, find_profile}
use vpn_management_panel.Panel.Addresses.{hit_ids}
use vpn_management_panel.Panel.Provisioning.{
  Fresh, tombstoned_device_ids, restore_missing_peers_for_user,
}

-- `expire_at is not None and expire_at <= observed_at`
abbrev pub is_due : Option ℕ → ℕ → Bool
is_due none observed_at = false
is_due (some expire_at) observed_at = leb expire_at observed_at

unfoldable pub local_user_expired : User → ℕ → Bool
local_user_expired user observed_at = is_due user.expire_at observed_at

unfoldable pub local_user_limited : User → ℕ → Bool
local_user_limited user local_total_bytes =
    ltb 0 user.traffic_limit_bytes && leb user.traffic_limit_bytes local_total_bytes

unfoldable pub local_user_blocked_reason : ℕ → User → ℕ → Option Reason
unfolding local_user_expired local_user_limited
local_user_blocked_reason now user local_total_bytes =
    if local_user_expired user now
    then some Reason.expired
    else if local_user_limited user local_total_bytes
    then some Reason.limited
    else if is_lifecycle_blocked user.lifecycle_status || user.is_blocked
    then some Reason.blocked
    else none

-- `int(total or 0)` of the lifetime row of the owner.
abbrev pub total_or_zero : Option Aggregate → ℕ
total_or_zero none = 0
total_or_zero (some row) = row.total_bytes

unfoldable pub load_local_total_bytes : List Aggregate → ℕ → ℕ
load_local_total_bytes lifetime user_id =
    total_or_zero (find (λ row. row.identity.user_id == user_id) lifetime)

-- The status that the account should have.
unfoldable pub desired_status : ℕ → User → ℕ → LifecycleStatus
unfolding local_user_expired local_user_limited
desired_status now user total =
    if local_user_expired user now
    then LifecycleStatus.expired
    else if local_user_limited user total
    then LifecycleStatus.limited
    else if is_lifecycle_blocked user.lifecycle_status
    then LifecycleStatus.blocked
    else LifecycleStatus.active

-- One round of the loop over the account's peers: the row, and whether its node is affected.
unfoldable pub lifecycle_peer : Bool → List ℕ → Peer → Peer × Bool
lifecycle_peer should_block tombstoned_devices peer =
    if should_block
    then (if not (is_pending_delete peer.status)
        then (record peer { status = PeerStatus.pending_delete }, true)
        else (peer, false))
    else if is_tombstoned peer.status && not (mem peer.device_id tombstoned_devices)
    then (record peer { status = PeerStatus.pending }, true)
    else (peer, false)

-- `total = local_total_bytes`, read from the database when it is not given.
abbrev pub given_total : Db → ℕ → Option ℕ → ℕ
given_total db user_id none = load_local_total_bytes db.user_lifetime user_id
given_total db user_id (some total) = total

-- The writes to the owner's row and to its peers, with the affected nodes.
unfoldable pub set_standing : User → LifecycleStatus → Db → List ℕ × Db
unfolding lifecycle_peer tombstoned_device_ids hit_ids
set_standing user status db =
    let should_block = not (is_lifecycle_active status) in
    let mine = λ (p : Peer). p.user_id == user.id in
    let tombstoned =
      tombstoned_device_ids db.devices (map (λ (p : Peer). p.device_id) (select mine db.peers)) in
    let step = lifecycle_peer should_block tombstoned in
    (
      hit_ids (row_hit mine step) (λ p. p.node_id) db.peers,
      record db {
        users =
            map
              (update_if (λ (u : User). u.id == user.id)
                (λ u. record u { lifecycle_status = status; is_blocked = should_block }))
              db.users;
        peers = map (step_row mine step) db.peers;
      },
    )

module _ (fresh : Fresh) (now : ℕ) where
  unfoldable pub apply_local_lifecycle_state : User → Option ℕ → Db → List ℕ × Db
  unfolding load_local_total_bytes desired_status set_standing restore_missing_peers_for_user
  apply_local_lifecycle_state user local_total_bytes db =
      let was_blocked = user.is_blocked || not (is_lifecycle_active user.lifecycle_status) in
      let status = desired_status now user (given_total db user.id local_total_bytes) in
      let (affected, db') = set_standing user status db in
      let (restored, db'') = restore_missing_peers_for_user fresh user.id db' in
      if was_blocked && is_lifecycle_active status
      then (union affected restored, db'')
      else (affected, db')

  unfoldable pub enforce_local_lifecycle_for_user : ℕ → Db → List ℕ × Db
  unfolding apply_local_lifecycle_state
  enforce_local_lifecycle_for_user user_id db = elim (find_user user_id db.users) [
    | none ↦ ([], db)
    | some user ↦
        if is_some (find_profile user.id db.remnawave_users)
        then ([], db)
        else apply_local_lifecycle_state user none db
  ]

-- Rows of the owner, and of a day that is not before the reset's.
abbrev pub of_user : ℕ → Aggregate → Bool
of_user user_id row = row.identity.user_id == user_id

abbrev pub on_or_after : ℕ → Option ℕ → Bool
on_or_after day none = false
on_or_after day (some d) = leb day d

abbrev pub from_day : ℕ → ℕ → Aggregate → Bool
from_day user_id day row = of_user user_id row && on_or_after day row.identity.day

unfoldable pub reset_local_traffic_usage : User → ℕ → Db → Db
reset_local_traffic_usage user reset_at db =
    let kept = λ (row : Aggregate). not (of_user user.id row) in
    let kept_daily = λ (row : Aggregate). not (from_day user.id (date reset_at) row) in
    record db {
      user_lifetime = select kept db.user_lifetime;
      user_node_lifetime = select kept db.user_node_lifetime;
      user_daily = select kept_daily db.user_daily;
      user_node_daily = select kept_daily db.user_node_daily;
      users =
          map
            (update_if (λ (u : User). u.id == user.id)
              (λ u. record u { traffic_reset_at = some reset_at }))
            db.users;
    }
