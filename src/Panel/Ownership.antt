-- ===== src/Panel/Ownership.antt =====
-- The invariant of the tables of devices and peers that the services of devices.py,
-- local_lifecycle.py, remnawave_sync.py and node_sync.py keep.
pub mod Tables
pub mod Provisioned
pub mod Released
pub mod Standing
pub mod Remote
pub mod Replied
pub mod Created
use vpn_management_panel.Prelude.{
  ℕ, Bool, true, false, not, ◌≡◌, Option, none, some, List, [], ◌∷◌, map, any, mem, All, is_none,
  truthy, if◌then◌else◌,
}
use vpn_management_panel.Panel.Models.{PeerStatus, Device, Peer, Db, is_live}
use vpn_management_panel.Panel.Errors.{Result, ok, err}
use vpn_management_panel.Panel.Creation.{collides}
use vpn_management_panel.Panel.Deletion.{find_device}

-- A peer and the row of its device agree: a live peer's device is not tombstoned, and a device that
-- is not tombstoned has an address.
abbrev pub agrees : PeerStatus → Option Device → Bool
agrees status none = true
agrees status (some d) = if is_none d.deleted_at then truthy d.vpn_ip else not (is_live status)

abbrev pub IsSafe : List Device → Peer → Type 0
IsSafe devices p = agrees p.status (find_device p.device_id devices) ≡ true

-- No two rows have the same id.
abbrev pub AreDistinct : List Device → Type 0
AreDistinct [] = Unit
AreDistinct (d ∷ devices) =
    (mem d.id (map (λ (e : Device). e.id) devices) ≡ false) × AreDistinct devices

-- No two rows have the same address.
abbrev pub AreApart : List Device → Type 0
AreApart [] = Unit
AreApart (d ∷ devices) =
    (any (λ (e : Device). collides d.vpn_ip e.vpn_ip) devices ≡ false) × AreApart devices

pub record IsOwned (devices : List Device) (peers : List Peer) : Type 0 where
  pub distinct : AreDistinct devices
  pub apart : AreApart devices
  pub safe : All (IsSafe devices) peers

abbrev pub IsWellFormed : Db → Type 0
IsWellFormed db = IsOwned db.devices db.peers

-- A request that raises is rolled back; one that succeeds leaves a well-formed database.
abbrev pub IsKept : {A : Type 0} → Result (A × Db) → Type 0
IsKept (ok (a, db)) = IsWellFormed db
IsKept (err e) = Unit
