-- ===== src/Panel/Ownership/Tables.antt =====
-- Lookups in the table of devices, and the invariant under writes to the rows of either table.
use vpn_management_panel.Prelude.{
  ℕ, String, true, false, ◌≡◌, ◌⊎◌, refl, ◌∙◌, Option, none, some, List, [], ◌∷◌, ◌++◌, map, arith,
  ◌==◌, any, mem, All, All-map, All-append, All-imp, is_some, truthy, str_eq_iff,
}
use vpn_management_panel.Panel.Models.{PeerStatus, Device, Peer}
use vpn_management_panel.Panel.Creation.{collides}
use vpn_management_panel.Panel.Deletion.{find_device}
use vpn_management_panel.Panel.Provisioning.{tombstoned_device_ids}
use vpn_management_panel.Panel.Ownership.{agrees, IsSafe, AreDistinct, AreApart, IsOwned}

-- The row is the one that its id finds.
abbrev pub IsLoaded : List Device → Device → Type 0
IsLoaded devices d = find_device d.id devices ≡ some d

IsLoaded-cons :
    (x : Device) (all xs : List Device)
    → mem x.id (map (λ (e : Device). e.id) xs) ≡ false
    → All (IsLoaded all) xs
    → All (IsLoaded (x ∷ all)) xs
unfolding mem
IsLoaded-cons x all [] h l = tt
IsLoaded-cons x all (d ∷ xs) h (l, ls) = (ground arith, IsLoaded-cons x all xs (ground arith) ls)

pub AreDistinct-IsLoaded :
    (devices : List Device) → AreDistinct devices → All (IsLoaded devices) devices
AreDistinct-IsLoaded [] h = tt
AreDistinct-IsLoaded (x ∷ xs) (h, hs) =
    (ground arith, IsLoaded-cons x xs xs h (AreDistinct-IsLoaded xs hs))

pub find_device-id :
    (id : ℕ) (devices : List Device) (d : Device) → find_device id devices ≡ some d → d.id ≡ id
find_device-id id [] d h = cc
find_device-id id (e ∷ devices) d h = ground (arith, find_device-id id devices d)

-- A write that keeps the ids.
module _ (g : Device → Device) (same_id : (d : Device) → (g d).id ≡ d.id) where
  abbrev pub map_option : Option Device → Option Device
  map_option none = none
  map_option (some d) = some (g d)

  pub find_device-map :
      (id : ℕ) (devices : List Device)
      → find_device id (map g devices) ≡ map_option (find_device id devices)
  find_device-map id [] = refl
  find_device-map id (d ∷ devices) = ground (arith, same_id d, find_device-map id devices)

  ids-map :
      (devices : List Device)
      → map (λ (e : Device). e.id) (map g devices) ≡ map (λ (e : Device). e.id) devices
  ids-map [] = refl
  ids-map (d ∷ devices) = rw (same_id d, ids-map devices)

  pub AreDistinct-map : (devices : List Device) → AreDistinct devices → AreDistinct (map g devices)
  AreDistinct-map [] h = tt
  AreDistinct-map (d ∷ devices) (h, hs) =
      (rw (same_id d, ids-map devices) h, AreDistinct-map devices hs)

  -- The write keeps the address, or drops it.
  module _ (kept : (d : Device) → ((g d).vpn_ip ≡ d.vpn_ip) ⊎ ((g d).vpn_ip ≡ none)) where
    apart-map :
        (d : Device) (devices : List Device)
        → any (λ (e : Device). collides d.vpn_ip e.vpn_ip) devices ≡ false
        → any (λ (e : Device). collides (g d).vpn_ip e.vpn_ip) (map g devices) ≡ false
    apart-map d [] h = refl
    apart-map d (e ∷ devices) h = ground (arith, kept d, kept e, apart-map d devices)

    pub AreApart-map : (devices : List Device) → AreApart devices → AreApart (map g devices)
    AreApart-map [] h = tt
    AreApart-map (d ∷ devices) (h, hs) = (apart-map d devices h, AreApart-map devices hs)

-- A device of the given ids that is tombstoned is in the answer.
pub mem-tombstoned_device_ids :
    (devices : List Device) (ids : List ℕ) (id : ℕ) (d : Device)
    → mem id ids ≡ true
    → find_device id devices ≡ some d
    → is_some d.deleted_at ≡ true
    → mem id (tombstoned_device_ids devices ids) ≡ true
unfolding tombstoned_device_ids mem
mem-tombstoned_device_ids [] ids id d m f t = cc
mem-tombstoned_device_ids (e ∷ devices) ids id d m f t =
    ground (arith, mem-tombstoned_device_ids devices ids id d m)

module _ {devices : List Device} where
  -- A write to peers.
  pub IsOwned-map :
      (f : Peer → Peer) {peers : List Peer}
      → ((p : Peer) → IsSafe devices p → IsSafe devices (f p))
      → IsOwned devices peers
      → IsOwned devices (map f peers)
  IsOwned-map f {peers} h o = record {
    distinct = o.distinct;
    apart = o.apart;
    safe = All-map (IsSafe devices) (IsSafe devices) f peers h o.safe;
  }

  -- A new peer.
  pub IsOwned-append :
      (p : Peer) {peers : List Peer}
      → IsSafe devices p
      → IsOwned devices peers
      → IsOwned devices (peers ++ p ∷ [])
  IsOwned-append p {peers} h o = record {
    distinct = o.distinct;
    apart = o.apart;
    safe = All-append (IsSafe devices) peers (p ∷ []) o.safe (h, tt);
  }

-- A write to devices that keeps the ids, that keeps or drops addresses, and that keeps what the peers
-- need.
pub IsOwned-map_devices :
    (g : Device → Device) (devices : List Device) (peers peers' : List Peer)
    → ((d : Device) → (g d).id ≡ d.id)
    → ((d : Device) → ((g d).vpn_ip ≡ d.vpn_ip) ⊎ ((g d).vpn_ip ≡ none))
    → All (IsSafe (map g devices)) peers'
    → IsOwned devices peers
    → IsOwned (map g devices) peers'
IsOwned-map_devices g devices peers peers' same_id kept safe o = record {
  distinct = AreDistinct-map g same_id devices o.distinct;
  apart = AreApart-map g same_id kept devices o.apart;
  safe = safe;
}

collides_comm : (a b : Option String) → collides a b ≡ collides b a
collides_comm none none = refl
collides_comm none (some b) = refl
collides_comm (some a) none = refl
collides_comm (some a) (some b) = ground (arith, str_eq_iff a b, str_eq_iff b a)

-- A new device, whose id and address are new.
module _ (d : Device) where
  ids-append :
      (x : Device) (xs : List Device)
      → (x.id == d.id) ≡ false
      → mem x.id (map (λ (e : Device). e.id) xs) ≡ false
      → mem x.id (map (λ (e : Device). e.id) (xs ++ d ∷ [])) ≡ false
  unfolding mem
  ids-append x [] n h = ground arith
  ids-append x (y ∷ xs) n h = ground (arith, ids-append x xs n)

  distinct-append :
      (devices : List Device)
      → any (λ (e : Device). e.id == d.id) devices ≡ false
      → AreDistinct devices
      → AreDistinct (devices ++ d ∷ [])
  unfolding mem
  distinct-append [] n h = (refl, tt)
  distinct-append (e ∷ devices) n (h, hs) =
      (ids-append e devices (ground arith) h, distinct-append devices (ground arith) hs)

  addresses-append :
      (x : Device) (xs : List Device)
      → collides x.vpn_ip d.vpn_ip ≡ false
      → any (λ (e : Device). collides x.vpn_ip e.vpn_ip) xs ≡ false
      → any (λ (e : Device). collides x.vpn_ip e.vpn_ip) (xs ++ d ∷ []) ≡ false
  addresses-append x [] n h = rw n
  addresses-append x (y ∷ xs) n h = ground (arith, addresses-append x xs n)

  apart-append :
      (devices : List Device)
      → any (λ (e : Device). collides d.vpn_ip e.vpn_ip) devices ≡ false
      → AreApart devices
      → AreApart (devices ++ d ∷ [])
  apart-append [] n h = (refl, tt)
  apart-append (e ∷ devices) n (h, hs) = (
    addresses-append e devices (collides_comm e.vpn_ip d.vpn_ip ∙ ground arith) h,
    apart-append devices (ground arith) hs,
  )

  agrees-append :
      (devices : List Device) (id : ℕ) (status : PeerStatus)
      → d.deleted_at ≡ none
      → truthy d.vpn_ip ≡ true
      → agrees status (find_device id devices) ≡ true
      → agrees status (find_device id (devices ++ d ∷ [])) ≡ true
  agrees-append [] id status a b h = ground arith
  agrees-append (e ∷ devices) id status a b h = ground (arith, agrees-append devices id status a b)

  pub IsOwned-append_device :
      (devices : List Device) (peers : List Peer)
      → any (λ (e : Device). e.id == d.id) devices ≡ false
      → any (λ (e : Device). collides d.vpn_ip e.vpn_ip) devices ≡ false
      → d.deleted_at ≡ none
      → truthy d.vpn_ip ≡ true
      → IsOwned devices peers
      → IsOwned (devices ++ d ∷ []) peers
  IsOwned-append_device devices peers i c a b o = record {
    distinct = distinct-append devices i o.distinct;
    apart = apart-append devices c o.apart;
    safe =
        All-imp (IsSafe devices) (IsSafe (devices ++ d ∷ [])) peers
          (λ p. agrees-append devices p.device_id p.status a b) o.safe;
  }

  pub find_device-append :
      (devices : List Device)
      → any (λ (e : Device). e.id == d.id) devices ≡ false
      → find_device d.id (devices ++ d ∷ []) ≡ some d
  find_device-append [] h = ground arith
  find_device-append (e ∷ devices) h = ground (arith, find_device-append devices)
