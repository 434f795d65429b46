-- ===== src/Panel/Tests/Devices.antt =====
-- The creation and the deletion of devices, and the addresses.
use vpn_management_panel.Prelude.{
  String, true, false, ◌&&◌, ◌≡◌, refl, Option, none, some, [], ◌∷◌, str_eq, filled, mem_text, add,
  inl, inr, All, is_none, truthy, ◌==◌,
}
use vpn_management_panel.Panel.Models.{PeerStatus, Device, Peer, Db, is_live}
use vpn_management_panel.Panel.Errors.{ok}
use vpn_management_panel.Panel.Policy.{require_active_owner}
use vpn_management_panel.Panel.Crypto.{clients}
use vpn_management_panel.Panel.Limits.{
  assert_device_capacity, count_live_devices, effective_device_limit,
}
use vpn_management_panel.Panel.Addresses.{allocate_device_ip, release_device_ip, release_device_ips}
use vpn_management_panel.Panel.Addresses.Allocation.{
  IsAllocated, answer_of, allocate_device_ip-IsAllocated,
}
use vpn_management_panel.Panel.Addresses.Release.{release_device_ips-held}
use vpn_management_panel.Panel.Creation.{lock_owner, create_device, insert_device_with_unique_ip}
use vpn_management_panel.Panel.Creation.Checks.{IsActive}
use vpn_management_panel.Panel.Creation.Capacity.{within, IsAdded, create_device-IsAdded}
use vpn_management_panel.Panel.Deletion.{find_device, delete_device, delete_locked, settle}
use vpn_management_panel.Panel.Deletion.Again.{delete_device-again, delete_device-no_live_peer}
use vpn_management_panel.Panel.Provisioning.{create_pending_peers_for_device}
use vpn_management_panel.Panel.Ownership.{IsKept}
use vpn_management_panel.Panel.Ownership.Created.{create_device-IsKept}
use vpn_management_panel.Panel.History.{Reach, start, device_deleted}
use vpn_management_panel.Panel.History.Addresses.{Reach-live_peer}
use vpn_management_panel.Panel.Tests.{
  laptop, phone, laptop_peer, phone_peer, small, small-IsWellFormed, hosts, hosts-AreFilled, fresh,
  draws,
}

-- The deletion of the phone, whose peer is still to be confirmed.
abbrev history : Reach hosts small (delete_device 50 50 11 small).1
history = device_deleted 50 50 11 start

Reach-live_peer_example :
    (is_none laptop.deleted_at ≡ true) × (truthy laptop.vpn_ip ≡ true) × (laptop ≡ laptop)
unfolding delete_device delete_locked settle release_device_ip
Reach-live_peer_example =
    Reach-live_peer hosts small (delete_device 50 50 11 small).1 laptop_peer laptop_peer laptop
      laptop hosts-AreFilled small-IsWellFormed history (inl refl) refl refl refl refl

-- The tablet that alice adds.
abbrev tablet : Device
tablet = record laptop {
  id = 12;
  name = "tablet";
  public_key = some "k12";
  private_key = some "s12";
  vpn_ip = some "10.8.0.4";
}

allocate_device_ip-IsAllocated_example :
    (found : Option String) × IsAllocated small.devices (clients hosts) found
    × (allocate_device_ip hosts small.devices ≡ answer_of found)
allocate_device_ip-IsAllocated_example = allocate_device_ip-IsAllocated hosts small.devices

-- The deleted phone's address is not given away.
third_address : allocate_device_ip hosts small.devices ≡ ok "10.8.0.4"
unfolding allocate_device_ip str_eq mem_text filled
third_address = refl

release_device_ips-held_example :
    find_device 11 (release_device_ips (11 ∷ []) 50 small).1.devices ≡ find_device 11 small.devices
release_device_ips-held_example =
    release_device_ips-held (11 ∷ []) 50 phone_peer small (inr (inl refl)) refl

delete_device-again_example :
    delete_device 60 60 10 (delete_device 50 50 10 small).1 ≡ ([], (delete_device 50 50 10 small).1)
delete_device-again_example = delete_device-again 50 50 60 60 10 small

delete_device-no_live_peer_example :
    All
      (λ (p : Peer). (p.device_id == 10 && is_live p.status) ≡ false)
      (delete_device 50 50 10 small).1.peers
delete_device-no_live_peer_example = delete_device-no_live_peer 50 50 10 small laptop refl

create_device-IsKept_example :
    IsKept (create_device hosts (λ n db. db) draws fresh 60 7 "tablet" small)
create_device-IsKept_example =
    create_device-IsKept hosts hosts-AreFilled (λ n db. db) (λ n db o. o) draws fresh 60 7 "tablet"
      small small-IsWellFormed

abbrev with_tablet : Db
with_tablet = record small {
  devices = laptop ∷ phone ∷ tablet ∷ [];
  peers =
      laptop_peer
      ∷ phone_peer
      ∷ record laptop_peer {
        id = 500;
        device_id = 12;
        status = PeerStatus.pending;
        psk_key = some "psk";
        raw_rx = none;
        raw_tx = none;
      }
      ∷ [];
}

tablet_created :
    create_device hosts (λ n db. db) draws fresh 60 7 "tablet" small
    ≡ ok ((tablet, 1 ∷ []), with_tablet)
unfolding create_device lock_owner require_active_owner assert_device_capacity
    insert_device_with_unique_ip mem_text filled create_pending_peers_for_device add
tablet_created = refl

create_device-IsAdded_example :
    IsActive 60 7 small
    × (within (effective_device_limit small 7) (count_live_devices with_tablet.devices 7) ≡ true)
    × IsAdded 7 "tablet" (count_live_devices small.devices 7) tablet with_tablet
create_device-IsAdded_example =
    create_device-IsAdded hosts (λ n db. db) draws 7 (λ n db. refl) fresh 60 "tablet" small tablet
      (1 ∷ []) with_tablet tablet_created
