-- ===== src/Panel/Creation/Checks.antt =====
-- The checks of `create_device` that stand before the insertion.
use vpn_management_panel.Prelude.{
  ℕ, String, Bool, true, false, ◌≡◌, ◌⊎◌, ◌∙◌, sym, ap, sym, ap, inl, inr, Option, none, some, List,
  leb, if◌then◌else◌, Option-cases, Bool-cases,
}
use vpn_management_panel.Panel.Models.{User, Device, Db}
use vpn_management_panel.Panel.Errors.{
  Error, user_not_found, device_limit_exceeded, account_inactive, Result, Result-cases, ok, err, M,
  ◌>>=◌, >>=-err, >>=-ok,
}
use vpn_management_panel.Panel.Limits.{
  find_user, effective_device_limit, count_live_devices, assert_device_capacity,
}
use vpn_management_panel.Panel.Policy.{
  Status, is_active_code, fresh_account_status, require_active_owner,
}
use vpn_management_panel.Panel.Provisioning.{Fresh}
use vpn_management_panel.Panel.Creation.{
  Draws, lock_owner, insert_device_with_unique_ip, provision, create_device,
}

abbrev pub then_provision : Fresh → Result (Device × Db) → Result ((Device × List ℕ) × Db)
then_provision fresh (ok (d, db)) = provision fresh d db
then_provision fresh (err e) = err e

-- The account has the code `active` in the given database.
abbrev pub IsActive : ℕ → ℕ → Db → Type 0
IsActive now user_id db =
    (s : Status) × (fresh_account_status now user_id db ≡ ok s) × (is_active_code s.code ≡ true)

-- The owner has fewer live devices than the limit allows, or no limit.
abbrev pub below : Option ℕ → ℕ → Bool
below none current = true
below (some limit) current = if leb limit current then false else true

abbrev pub HasRoom : ℕ → Db → Type 0
HasRoom user_id db =
    below (effective_device_limit db user_id) (count_live_devices db.devices user_id) ≡ true

lock_owner-cases :
    (user_id : ℕ) (db : Db)
    → ((e : Error) × (lock_owner user_id db ≡ err e))
      ⊎ ((u : User) × (lock_owner user_id db ≡ ok (u, db)))
unfolding lock_owner
lock_owner-cases user_id db = elim (Option-cases (find_user user_id db.users)) [
  | inl e ↦ inl (user_not_found user_id, rw (e, lock_owner))
  | inr (u, e) ↦ inr (u, rw (e, lock_owner))
]

pub require_active_owner-cases :
    (now user_id : ℕ) (db : Db)
    → ((e : Error) × (require_active_owner now user_id db ≡ err e))
      ⊎ (IsActive now user_id db × (require_active_owner now user_id db ≡ ok (tt, db)))
unfolding require_active_owner
require_active_owner-cases now user_id db =
    elim (Result-cases (fresh_account_status now user_id db)) [
      | inl (x, e) ↦ inl (x, rw (e, require_active_owner))
      | inr (s, e) ↦ elim (Bool-cases (is_active_code s.code)) [
        | inl active ↦ inr ((s, e, active), rw (e, active, require_active_owner))
        | inr inactive ↦
            inl (account_inactive s.code s.reason, rw (e, inactive, require_active_owner))
      ]
    ]

assert_device_capacity-cases :
    (user_id : ℕ) (db : Db)
    → ((e : Error) × (assert_device_capacity user_id db ≡ err e))
      ⊎ (HasRoom user_id db × (assert_device_capacity user_id db ≡ ok (tt, db)))
unfolding assert_device_capacity
assert_device_capacity-cases user_id db = elim (Option-cases (effective_device_limit db user_id)) [
  | inl e ↦ inr (rw e, rw (e, assert_device_capacity))
  | inr (limit, e) ↦
      let current = count_live_devices db.devices user_id in
      elim (Bool-cases (leb limit current)) [
        | inl full ↦ inl (device_limit_exceeded limit current, rw (e, full, assert_device_capacity))
        | inr room ↦ inr (rw (e, room), rw (e, room, assert_device_capacity))
      ]
]

-- The last step of the creation, on either answer of the insertion.
>>=-then_provision :
    (fresh : Fresh) (insert : M Device) (db : Db)
    → (insert >>= provision fresh) db ≡ then_provision fresh (insert db)
>>=-then_provision fresh insert db = elim (Result-cases (insert db)) [
  | inl (x, e) ↦ >>=-err insert (provision fresh) e ∙ sym (ap (then_provision fresh) e)
  | inr ((d, db'), e) ↦ >>=-ok insert (provision fresh) e ∙ sym (ap (then_provision fresh) e)
]

-- The checks raise, or leave the database as it was for an active owner with room for a device.
pub create_device-cases :
    (hosts : List String) (others : ℕ → Db → Db) (draws : Draws) (fresh : Fresh) (now user_id : ℕ)
    (name : String) (db : Db)
    → ((e : Error) × (create_device hosts others draws fresh now user_id name db ≡ err e))
      ⊎ (IsActive now user_id db
          × HasRoom user_id db
          × (create_device hosts others draws fresh now user_id name db
              ≡ then_provision fresh
                  (insert_device_with_unique_ip hosts others draws user_id name db)))
unfolding create_device
create_device-cases hosts others draws fresh now user_id name db =
    let insert = insert_device_with_unique_ip hosts others draws user_id name in
    let owner = lock_owner user_id in
    let standing = require_active_owner now user_id in
    let room = assert_device_capacity user_id in
    let last = insert >>= provision fresh in
    let third : Unit {0} → M (Device × List ℕ) = λ _. last in
    let second : Unit {0} → M (Device × List ℕ) = λ _. room >>= third in
    let first : User → M (Device × List ℕ) = λ _. standing >>= second in
    elim (lock_owner-cases user_id db) [
      | inl (x, e) ↦ inl (x, >>=-err owner first e)
      | inr (u, e) ↦ elim (require_active_owner-cases now user_id db) [
        | inl (x, f) ↦ inl (x, >>=-ok owner first e ∙ >>=-err standing second f)
        | inr (active, f) ↦
            let passed = >>=-ok owner first e ∙ >>=-ok standing second f in
            elim (assert_device_capacity-cases user_id db) [
              | inl (x, g) ↦ inl (x, passed ∙ >>=-err room third g)
              | inr (free, g) ↦
                  inr (
                    active,
                    free,
                    passed ∙ >>=-ok room third g ∙ >>=-then_provision fresh insert db,
                  )
            ]
      ]
    ]
