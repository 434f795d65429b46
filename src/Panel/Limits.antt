-- ===== src/Panel/Limits.antt =====
-- panel/backend/app/services/devices.py: the effective device limit of an owner, and the check of
-- the capacity that it leaves.
use vpn_management_panel.Prelude.{
  ℕ, Bool, ◌&&◌, Option, none, some, List, ltb, leb, ◌==◌, is_none, is_some, or_zero, find,
  count_if, if◌then◌else◌,
}
use vpn_management_panel.Panel.Models.{User, Device, RemnawaveUser, Db}
use vpn_management_panel.Panel.Errors.{device_limit_exceeded, ok, err, M}

-- `n if n > 0 else None`
abbrev pub positive : ℕ → Option ℕ
positive n = if ltb 0 n then some n else none

unfoldable pub resolve_effective_device_limit : Option ℕ → Option ℕ → Bool → Option ℕ
resolve_effective_device_limit local_device_limit imported_hwid_device_limit is_remnawave_managed =
    if is_remnawave_managed
    then positive (or_zero imported_hwid_device_limit)
    else positive (or_zero local_device_limit)

-- `remnawave.hwid_device_limit if remnawave is not None else None`
abbrev pub imported_limit : Option RemnawaveUser → Option ℕ
imported_limit none = none
imported_limit (some row) = row.hwid_device_limit

unfoldable pub owner_effective_device_limit : User → Option RemnawaveUser → Option ℕ
unfolding resolve_effective_device_limit
owner_effective_device_limit user remnawave =
    resolve_effective_device_limit (some user.device_limit) (imported_limit remnawave)
      (is_some remnawave)

abbrev pub find_user : ℕ → List User → Option User
find_user user_id = find (λ u. u.id == user_id)

-- `user.remnawave_user`
abbrev pub find_profile : ℕ → List RemnawaveUser → Option RemnawaveUser
find_profile user_id = find (λ r. r.user_id == user_id)

-- The outer join: an owner that is not there has no limit.
unfoldable pub effective_device_limit : Db → ℕ → Option ℕ
unfolding resolve_effective_device_limit
effective_device_limit db user_id = elim (find_user user_id db.users) [
  | none ↦ none
  | some user ↦
      let profile = find_profile user_id db.remnawave_users in
      resolve_effective_device_limit (some user.device_limit) (imported_limit profile)
        (is_some profile)
]

-- `Device.user_id == user_id, Device.deleted_at.is_(None)`
abbrev pub is_live_device_of : ℕ → Device → Bool
is_live_device_of user_id d = d.user_id == user_id && is_none d.deleted_at

unfoldable pub count_live_devices : List Device → ℕ → ℕ
count_live_devices devices user_id = count_if (is_live_device_of user_id) devices

unfoldable pub assert_device_capacity : ℕ → M (Unit {0})
unfolding effective_device_limit count_live_devices
assert_device_capacity user_id db = elim (effective_device_limit db user_id) [
  | none ↦ ok (tt, db)
  | some limit ↦
      let current = count_live_devices db.devices user_id in
      if leb limit current then err (device_limit_exceeded limit current) else ok (tt, db)
]
