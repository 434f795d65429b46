-- ===== src/Panel/Ownership/Released.antt =====
-- Releases of addresses and deletions of devices keep the invariant of ownership.
use vpn_management_panel.Prelude.{
  ℕ, true, ◌≡◌, ◌⊎◌, inl, inr, refl, Option, none, some, List, [], map, arith, ◌==◌, mem, All-imp,
  All-map, is_some, step_row, update_if, Option-cases,
}
use vpn_management_panel.Panel.Models.{PeerStatus, Device, Peer, Db}
use vpn_management_panel.Panel.Addresses.{release_device_ip, release_device_ips}
use vpn_management_panel.Panel.Deletion.{
  find_device, tombstone, mark_peer, settle, delete_locked, delete_device,
}
use vpn_management_panel.Panel.Ownership.{agrees, IsSafe, IsWellFormed}
use vpn_management_panel.Panel.Ownership.Tables.{
  find_device-id, find_device-map, map_option, IsOwned-map_devices,
}

-- What a release leaves alone, and the address that it may drop.
release_same_id :
    (peers : List Peer) (at : ℕ) (d : Device) → (release_device_ip peers at d).0.id ≡ d.id
unfolding release_device_ip
release_same_id peers at d = ground arith

pub release_deleted_at :
    (peers : List Peer) (at : ℕ) (d : Device)
    → (release_device_ip peers at d).0.deleted_at ≡ d.deleted_at
unfolding release_device_ip
release_deleted_at peers at d = ground arith

release_address :
    (peers : List Peer) (at : ℕ) (d : Device)
    → ((release_device_ip peers at d).0.vpn_ip ≡ d.vpn_ip)
      ⊎ (((release_device_ip peers at d).0.vpn_ip ≡ none) × (is_some d.deleted_at ≡ true))
unfolding release_device_ip
release_address peers at d = ground arith

module _ (device_ids : List ℕ) (at : ℕ) (all : List Peer) where
  abbrev step : Device → Device
  step = step_row (λ d. mem d.id device_ids) (release_device_ip all at)

  step_same_id : (d : Device) → (step d).id ≡ d.id
  step_same_id d = ground (arith, release_same_id all at d)

  step_address : (d : Device) → ((step d).vpn_ip ≡ d.vpn_ip) ⊎ ((step d).vpn_ip ≡ none)
  step_address d = ground (arith, release_address all at d)

  step-safe :
      (status : PeerStatus) (o : Option Device)
      → agrees status o ≡ true
      → agrees status (map_option step step_same_id o) ≡ true
  step-safe status none h = refl
  step-safe status (some d) h =
      ground (arith, release_address all at d, release_deleted_at all at d)

-- Handing back the addresses of any devices, where that is safe, keeps the invariant of ownership.
pub release_device_ips-IsWellFormed :
    (device_ids : List ℕ) (at : ℕ) (db : Db)
    → IsWellFormed db
    → IsWellFormed (release_device_ips device_ids at db).1
unfolding release_device_ips
release_device_ips-IsWellFormed device_ids at db o =
    IsOwned-map_devices (step device_ids at db.peers) db.devices db.peers db.peers
      (step_same_id device_ids at db.peers) (step_address device_ids at db.peers)
      (All-imp (IsSafe db.devices) (IsSafe (map (step device_ids at db.peers) db.devices)) db.peers
        (λ p h.
          rw
            (find_device-map (step device_ids at db.peers) (step_same_id device_ids at db.peers)
              p.device_id db.devices)
            (step-safe device_ids at db.peers p.status (find_device p.device_id db.devices) h))
        o.safe)
      o

module _ (at now device_id : ℕ) (all : List Peer) where
  abbrev settled : Device → Device
  settled = update_if (λ d. d.id == device_id) (settle all at now)

  settled_same_id : (d : Device) → (settled d).id ≡ d.id
  unfolding settle
  settled_same_id d = ground (arith, release_same_id all now (tombstone at d))

  settled_address : (d : Device) → ((settled d).vpn_ip ≡ d.vpn_ip) ⊎ ((settled d).vpn_ip ≡ none)
  unfolding settle
  settled_address d = ground (arith, release_address all now (tombstone at d))

  abbrev marked : Peer → Peer
  marked = step_row (λ p. p.device_id == device_id) mark_peer

  marked_same_device : (p : Peer) → (marked p).device_id ≡ p.device_id
  marked_same_device p = ground arith

  settled-agrees :
      (p : Peer) (o : Option Device)
      → ((d : Device) → o ≡ some d → d.id ≡ p.device_id)
      → agrees p.status o ≡ true
      → agrees (marked p).status (map_option settled settled_same_id o) ≡ true
  unfolding settle
  settled-agrees p none f h = refl
  settled-agrees p (some d) f h =
      let e : d.id ≡ p.device_id = f d refl in
      ground (
        arith,
        release_address all now (tombstone at d),
        release_deleted_at all now (tombstone at d),
      )

  marked-IsSafe :
      (devices : List Device) (p : Peer)
      → IsSafe devices p
      → IsSafe (map settled devices) (marked p)
  marked-IsSafe devices p h =
      rw (marked_same_device p, find_device-map settled settled_same_id p.device_id devices)
        (settled-agrees p (find_device p.device_id devices)
          (λ d. find_device-id p.device_id devices d) h)

delete_locked-IsWellFormed :
    (at now device_id : ℕ) (db : Db)
    → IsWellFormed db
    → IsWellFormed (delete_locked at now device_id db).1
unfolding delete_locked
delete_locked-IsWellFormed at now device_id db o =
    let peers : List Peer = map (marked at now device_id []) db.peers in
    IsOwned-map_devices (settled at now device_id peers) db.devices db.peers peers
      (settled_same_id at now device_id peers) (settled_address at now device_id peers)
      (All-map (IsSafe db.devices) (IsSafe (map (settled at now device_id peers) db.devices))
        (marked at now device_id peers) db.peers (marked-IsSafe at now device_id peers db.devices)
        o.safe)
      o

-- Deleting a device keeps the invariant of ownership.
pub delete_device-IsWellFormed :
    (at now device_id : ℕ) (db : Db)
    → IsWellFormed db
    → IsWellFormed (delete_device at now device_id db).1
unfolding delete_device
delete_device-IsWellFormed at now device_id db o =
    elim (Option-cases (find_device device_id db.devices)) [
      | inl e ↦ rw (e, delete_device) o
      | inr (d, e) ↦ rw (e, delete_device) (delete_locked-IsWellFormed at now d.id db o)
    ]
