-- ===== src/Panel/Creation.antt =====
-- panel/backend/app/services/devices.py: `create_device`. What other transactions commit between the
-- reading of the held addresses and the insertion is a parameter, one change for each attempt; so is
-- what the code draws at random.
pub mod Checks
pub mod Capacity
use vpn_management_panel.Prelude.{
  ◌≡◌, ◌⊎◌, inl, inr, refl, ℕ, zero, suc, String, Bool, false, not, Option, none, some, List, [],
  ◌∷◌, ◌++◌, ◌==◌, same_text, is_some, any, if◌then◌else◌,
}
use vpn_management_panel.Panel.Models.{User, Device, Db}
use vpn_management_panel.Panel.Errors.{
  ok, err, M, ◌>>=◌, ◌>>◌, user_not_found, device_ip_allocation, integrity,
}
use vpn_management_panel.Panel.Limits.{find_user, assert_device_capacity}
use vpn_management_panel.Panel.Addresses.{allocate_device_ip}
use vpn_management_panel.Panel.Policy.{require_active_owner}
use vpn_management_panel.Panel.Provisioning.{Fresh, create_pending_peers_for_device}

abbrev pub max_ip_allocation_attempts : ℕ
max_ip_allocation_attempts = 5

unfoldable pub lock_owner : ℕ → M User
lock_owner user_id db = elim (find_user user_id db.users) [
  | none ↦ err (user_not_found user_id)
  | some user ↦ ok (user, db)
]

-- How the flush of a new device row ends.
pub data Flush : Type 0 where
  inserted : Db → Flush
  -- an IntegrityError that `_is_vpn_ip_conflict` recognises
  vpn_ip_conflict : Flush
  -- any other IntegrityError
  other_conflict : Flush

-- To split on how a flush ends and keep the equation.
pub Flush-cases :
    (f : Flush) → ((db : Db) × (f ≡ inserted db)) ⊎ (f ≡ vpn_ip_conflict) ⊎ (f ≡ other_conflict)
Flush-cases (inserted db) = inl (db, refl)
Flush-cases vpn_ip_conflict = inr (inl refl)
Flush-cases other_conflict = inr (inr refl)

-- Both texts are there and equal: NULL never collides.
abbrev pub collides : Option String → Option String → Bool
collides none other = false
collides (some s) other = same_text (some s) other

-- The constraints of the table in the order of their declaration: the primary key, the unique
-- address, the unique public key, and the owner's foreign key.
unfoldable pub flush_device : Device → Db → Flush
flush_device device db =
    if any (λ d. d.id == device.id) db.devices
    then other_conflict
    else if any (λ d. collides device.vpn_ip d.vpn_ip) db.devices
    then vpn_ip_conflict
    else if any (λ d. collides device.public_key d.public_key) db.devices
    then other_conflict
    else if not (is_some (find_user device.user_id db.users))
    then other_conflict
    else inserted (record db { devices = db.devices ++ device ∷ [] })

-- What one call of `create_device` draws at random: an id for each attempt, and the key pair.
pub record Draws : Type 0 where
  pub device_id : ℕ → ℕ
  pub private_key : String
  pub public_key : String

-- The device of an attempt, before it is inserted.
abbrev pub new_device : Draws → ℕ → ℕ → String → String → Device
new_device draws attempt user_id name ip = record {
  id = draws.device_id attempt;
  user_id = user_id;
  name = name;
  public_key = some draws.public_key;
  private_key = some draws.private_key;
  vpn_ip = some ip;
  released_vpn_ip = none;
  ip_released_at = none;
  is_legacy_default = false;
  deleted_at = none;
}

module _ (hosts : List String) (others : ℕ → Db → Db) (draws : Draws) where
  -- The loop with `left` attempts to go; an attempt has the number of those that follow it.
  unfoldable pub insert_device_attempts : ℕ → ℕ → String → M Device
  unfolding allocate_device_ip flush_device
  insert_device_attempts zero user_id name db =
      err (device_ip_allocation max_ip_allocation_attempts)
  insert_device_attempts (suc left) user_id name db = elim (allocate_device_ip hosts db.devices) [
    | err e ↦ err e
    | ok ip ↦
        let device = new_device draws left user_id name ip in
        let db' = others left db in
        elim (flush_device device db') [
          | inserted db'' ↦ ok (device, db'')
          | vpn_ip_conflict ↦ insert_device_attempts left user_id name db'
          | other_conflict ↦ err integrity
        ]
  ]

  unfoldable pub insert_device_with_unique_ip : ℕ → String → M Device
  unfolding insert_device_attempts
  insert_device_with_unique_ip = insert_device_attempts max_ip_allocation_attempts

-- The last step, in the form of the other steps.
abbrev pub provision : Fresh → Device → M (Device × List ℕ)
provision fresh device db =
    let (node_ids, db') = create_pending_peers_for_device fresh device none db in
    ok ((device, node_ids), db')

module _ (hosts : List String) (others : ℕ → Db → Db) (draws : Draws) (fresh : Fresh)
    (now : ℕ) where
  unfoldable pub create_device : ℕ → String → M (Device × List ℕ)
  create_device user_id name = do
    _ ← lock_owner user_id
    require_active_owner now user_id
    assert_device_capacity user_id
    device ← insert_device_with_unique_ip hosts others draws user_id name
    provision fresh device
