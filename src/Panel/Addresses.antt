-- ===== src/Panel/Addresses.antt =====
-- panel/backend/app/services/devices.py: which addresses are held, allocation, and the release of a
-- tombstoned device's address. The subnet's hosts are a parameter.
pub mod Allocation
pub mod Release
use vpn_management_panel.Prelude.{
  ℕ, String, Bool, true, false, not, ◌&&◌, ◌||◌, Option, none, some, List, [], ◌∷◌, map, ◌==◌,
  is_none, truthy, filled, mem, add, all, select, step_row, row_hit, if◌then◌else◌,
}
use vpn_management_panel.Panel.Models.{PeerStatus, Device, Peer, Db, is_deleted}
use vpn_management_panel.Panel.Errors.{Result, ok, err, device_ip_pool_exhausted}
use vpn_management_panel.Panel.Crypto.{allocate_ip}

-- `{ip for ip in reserving if ip}`, one address in front of the others.
abbrev pub reserve : Option String → List String → List String
reserve none rest = rest
reserve (some ip) rest = if filled ip then ip ∷ rest else rest

unfoldable pub reserving : List Device → List String
reserving [] = []
reserving (d ∷ devices) = reserve d.vpn_ip (reserving devices)

unfoldable pub allocate_device_ip : List String → List Device → Result String
unfolding reserving allocate_ip
allocate_device_ip hosts devices = elim (allocate_ip hosts (reserving devices)) [
  | none ↦ err device_ip_pool_exhausted
  | some ip ↦ ok ip
]

-- The statuses of a device's peers.
unfoldable pub peer_statuses : List Peer → ℕ → List PeerStatus
peer_statuses peers device_id = map (λ p. p.status) (select (λ p. p.device_id == device_id) peers)

abbrev pub is_empty : List PeerStatus → Bool
is_empty [] = true
is_empty (s ∷ statuses) = false

-- `statuses and statuses != {'deleted'}`: something may still be installed on a node.
abbrev pub unconfirmed : List PeerStatus → Bool
unconfirmed statuses = not (is_empty statuses) && not (all is_deleted statuses)

-- The row after the call, and whether its address was released. `at` is `at or now()`.
unfoldable pub release_device_ip : List Peer → ℕ → Device → Device × Bool
unfolding peer_statuses
release_device_ip peers at device =
    if is_none device.deleted_at || not (truthy device.vpn_ip)
    then (device, false)
    else if unconfirmed (peer_statuses peers device.id)
    then (device, false)
    else (
      record device { vpn_ip = none; released_vpn_ip = device.vpn_ip; ip_released_at = some at },
      true,
    )

-- The ids of the rows for which a loop over a table says so.
unfoldable pub hit_ids {ℓ} : {A : Type ℓ} → (A → Bool) → (A → ℕ) → List A → List ℕ
hit_ids hit key [] = []
hit_ids hit key (x ∷ xs) = let rest = hit_ids hit key xs in if hit x then add (key x) rest else rest

-- The released ids, and the database.
unfoldable pub release_device_ips : List ℕ → ℕ → Db → List ℕ × Db
unfolding release_device_ip hit_ids
release_device_ips device_ids at db =
    let chosen = λ (d : Device). mem d.id device_ids in
    let step = release_device_ip db.peers at in
    (
      hit_ids (row_hit chosen step) (λ d. d.id) db.devices,
      record db { devices = map (step_row chosen step) db.devices },
    )
