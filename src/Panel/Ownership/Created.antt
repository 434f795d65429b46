-- ===== src/Panel/Ownership/Created.antt =====
-- The creation of devices keeps the invariant of ownership.
use vpn_management_panel.Prelude.{
  ℕ, zero, suc, String, true, false, ◌≡◌, inl, inr, refl, none, some, List, [], ◌∷◌, ◌++◌, arith,
  ◌==◌, any, filled, truthy, All,
}
use vpn_management_panel.Panel.Models.{Device, Db}
use vpn_management_panel.Panel.Errors.{Result, Result-cases, ok, err}
use vpn_management_panel.Panel.Crypto.{clients, first_free}
use vpn_management_panel.Panel.Addresses.{reserving, allocate_device_ip}
use vpn_management_panel.Panel.Provisioning.{Fresh}
use vpn_management_panel.Panel.Creation.{
  Flush-cases, inserted, collides, flush_device, Draws, new_device, max_ip_allocation_attempts,
  insert_device_attempts, insert_device_with_unique_ip, create_device,
}
use vpn_management_panel.Panel.Creation.Checks.{then_provision, create_device-cases}
use vpn_management_panel.Panel.Ownership.{IsWellFormed, IsKept}
use vpn_management_panel.Panel.Ownership.Tables.{
  IsLoaded, IsOwned-append_device, find_device-append,
}
use vpn_management_panel.Panel.Ownership.Provisioned.{create_pending_peers_for_device-Keeps}

-- The texts of host addresses are not empty.
abbrev pub AreFilled : List String → Type 0
AreFilled hosts = All (λ ip. filled ip ≡ true) hosts

first_free-filled :
    (used hosts : List String) (ip : String)
    → AreFilled hosts
    → first_free used hosts ≡ some ip
    → filled ip ≡ true
unfolding first_free
first_free-filled used [] ip h e = cc
first_free-filled used (x ∷ hosts) ip (h, hs) e =
    let rest = first_free-filled used hosts ip hs in ground (arith, rest)

pub allocate_device_ip-ok :
    (hosts : List String) (devices : List Device) (ip : String)
    → allocate_device_ip hosts devices ≡ ok ip
    → first_free (reserving devices) (clients hosts) ≡ some ip
unfolding allocate_device_ip
allocate_device_ip-ok hosts devices ip e = ground arith

allocate_device_ip-filled :
    (hosts : List String) (devices : List Device) (ip : String)
    → AreFilled (clients hosts)
    → allocate_device_ip hosts devices ≡ ok ip
    → filled ip ≡ true
allocate_device_ip-filled hosts devices ip h e =
    first_free-filled (reserving devices) (clients hosts) ip h
      (allocate_device_ip-ok hosts devices ip e)

-- What an inserted row has met.
flush_device-inserted :
    (d : Device) (db db' : Db)
    → flush_device d db ≡ inserted db'
    → (any (λ (e : Device). e.id == d.id) db.devices ≡ false)
      × (any (λ (e : Device). collides d.vpn_ip e.vpn_ip) db.devices ≡ false)
      × (db' ≡ record db { devices = db.devices ++ d ∷ [] })
unfolding flush_device
flush_device-inserted d db db' e = ground arith

-- The device of an answer is the row of the database, and the database is well formed.
abbrev IsCreated : Result (Device × Db) → Type 0
IsCreated (ok (d, db)) = IsWellFormed db × IsLoaded db.devices d
IsCreated (err e) = Unit

inserted-IsCreated :
    (d : Device) (db db' : Db)
    → d.deleted_at ≡ none
    → truthy d.vpn_ip ≡ true
    → IsWellFormed db
    → flush_device d db ≡ inserted db'
    → IsCreated (ok (d, db'))
inserted-IsCreated d db db' a b o e =
    let (fresh_id, fresh_ip, same) = flush_device-inserted d db db' e in
    rw same (
      IsOwned-append_device d db.devices db.peers fresh_id fresh_ip a b o,
      find_device-append d db.devices fresh_id,
    )

module _ (hosts : List String) (host_texts : AreFilled (clients hosts)) (others : ℕ → Db → Db)
    (others_kept : (n : ℕ) (db : Db) → IsWellFormed db → IsWellFormed (others n db))
    (draws : Draws) where
  insert_device_attempts-IsCreated :
      (left user_id : ℕ) (name : String) (db : Db)
      → IsWellFormed db
      → IsCreated (insert_device_attempts hosts others draws left user_id name db)
  unfolding insert_device_attempts
  insert_device_attempts-IsCreated zero user_id name db o = tt
  insert_device_attempts-IsCreated (suc left) user_id name db o =
      let again =
        insert_device_attempts-IsCreated left user_id name (others left db)
          (others_kept left db o) in
      elim (Result-cases (allocate_device_ip hosts db.devices)) [
        | inl (x, e) ↦ rw (e, insert_device_attempts) tt
        | inr (ip, e) ↦
            let d = new_device draws left user_id name ip in
            let text = allocate_device_ip-filled hosts db.devices ip host_texts e in
            elim (Flush-cases (flush_device d (others left db))) [
              | inl (db', f) ↦
                  rw (e, f, insert_device_attempts)
                    (inserted-IsCreated d (others left db) db' refl text (others_kept left db o) f)
              | inr (inl f) ↦ rw (e, f, insert_device_attempts) again
              | inr (inr f) ↦ rw (e, f, insert_device_attempts) tt
            ]
      ]

  module _ (fresh : Fresh) (now : ℕ) where
    created-IsKept : (r : Result (Device × Db)) → IsCreated r → IsKept (then_provision fresh r)
    created-IsKept (err e) c = tt
    created-IsKept (ok (d, db)) (o, l) =
        (create_pending_peers_for_device-Keeps fresh db.devices d none db l
          (record { same = refl; owned = o })).owned

    -- Creating a device keeps the invariant of ownership, whatever the other transactions commit
    -- between the reading of the held addresses and the insertion, as long as they keep it too.
    pub create_device-IsKept :
        (user_id : ℕ) (name : String) (db : Db)
        → IsWellFormed db
        → IsKept (create_device hosts others draws fresh now user_id name db)
    create_device-IsKept user_id name db o =
        elim (create_device-cases hosts others draws fresh now user_id name db) [
          | inl (e, f) ↦ rw f tt
          | inr (active, room, f) ↦ rw f (
              created-IsKept (insert_device_with_unique_ip hosts others draws user_id name db) (
                unfold insert_device_with_unique_ip in
                insert_device_attempts-IsCreated max_ip_allocation_attempts user_id name db o))
        ]
