-- ===== src/Panel/Policy.antt =====
-- panel/backend/app/services/account_policy.py: whether an account may use its devices. The current
-- time is a parameter.
use vpn_management_panel.Prelude.{
  ℕ, ◌+◌, Bool, true, false, not, ◌&&◌, ◌||◌, Option, none, some, ltb, leb, is_some, if◌then◌else◌,
}
use vpn_management_panel.Panel.Models.{RemoteStatus, RemoteSync, User, RemnawaveUser, Db}
use vpn_management_panel.Panel.Errors.{
  Code, Reason, Result, ok, err, M, user_not_found, account_inactive,
}
use vpn_management_panel.Panel.Limits.{find_user, find_profile}
use vpn_management_panel.Panel.Lifecycle.{is_due, local_user_blocked_reason, load_local_total_bytes}

pub record Status : Type 0 where
  pub code : Code
  pub reason : Option Reason

abbrev pub active_status : Status
active_status = record { code = Code.active; reason = none }

-- `LOCAL_REASON_CODES.get(reason, 'blocked')`
abbrev pub local_reason_code : Reason → Code
local_reason_code Reason.blocked = Code.blocked
local_reason_code Reason.limited = Code.limited
local_reason_code Reason.expired = Code.expired
local_reason_code _ = Code.blocked

abbrev pub local_status_of : Option Reason → Status
local_status_of none = active_status
local_status_of (some reason) = record { code = local_reason_code reason; reason = some reason }

unfoldable pub local_account_status : ℕ → User → ℕ → Status
unfolding local_user_blocked_reason
local_account_status now user local_total_bytes =
    local_status_of (local_user_blocked_reason now user local_total_bytes)

-- `sync_status in {'missing', 'stale'}`
abbrev pub is_gone : RemoteSync → Bool
is_gone RemoteSync.missing = true
is_gone RemoteSync.stale = true
is_gone _ = false

-- `REMNAWAVE_STATUS_CODES`
abbrev pub remnawave_status_code : RemoteStatus → Option Status
remnawave_status_code RemoteStatus.disabled =
    some (record { code = Code.blocked; reason = some Reason.disabled })
remnawave_status_code RemoteStatus.limited =
    some (record { code = Code.limited; reason = some Reason.limited })
remnawave_status_code RemoteStatus.expired =
    some (record { code = Code.expired; reason = some Reason.expired })
remnawave_status_code _ = none

unfoldable pub remnawave_account_status : ℕ → RemnawaveUser → ℕ → Status
remnawave_account_status now row local_total_bytes =
    if is_some row.delete_requested_at || is_gone row.sync_status
    then record { code = Code.blocked; reason = some Reason.deleted }
    else elim (remnawave_status_code row.status) [
      | some status ↦ status
      | none ↦
          if ltb 0 row.traffic_limit_bytes
            && leb row.traffic_limit_bytes (row.traffic_used_bytes + local_total_bytes)
          then record { code = Code.limited; reason = some Reason.limited }
          else if is_due row.expire_at now
          then record { code = Code.expired; reason = some Reason.expired }
          else active_status
    ]

abbrev pub is_active_code : Code → Bool
is_active_code Code.active = true
is_active_code _ = false

unfoldable pub account_status : ℕ → User → ℕ → Option RemnawaveUser → Status
unfolding local_account_status remnawave_account_status
account_status now user local_total_bytes none = local_account_status now user local_total_bytes
account_status now user local_total_bytes (some profile) =
    let status = remnawave_account_status now profile local_total_bytes in
    if not (is_active_code status.code)
    then status
    else if user.is_blocked
    then record { code = Code.blocked; reason = some Reason.blocked }
    else status

unfoldable pub fresh_account_status : ℕ → ℕ → Db → Result Status
unfolding account_status load_local_total_bytes
fresh_account_status now user_id db = elim (find_user user_id db.users) [
  | none ↦ err (user_not_found user_id)
  | some user ↦ ok (
      account_status now user (load_local_total_bytes db.user_lifetime user_id)
        (find_profile user.id db.remnawave_users))
]

unfoldable pub require_active_owner : ℕ → ℕ → M (Unit {0})
unfolding fresh_account_status
require_active_owner now user_id db = elim (fresh_account_status now user_id db) [
  | err e ↦ err e
  | ok status ↦
      if not (is_active_code status.code)
      then err (account_inactive status.code status.reason)
      else ok (tt, db)
]
