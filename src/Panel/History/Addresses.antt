-- ===== src/Panel/History/Addresses.antt =====
-- What the invariant of ownership means for the addresses of the peers that nodes carry.
use vpn_management_panel.Prelude.{
  ℕ, String, true, ◌≡◌, refl, sym, ap, ◌∙◌, subst, Option, none, some, List, [], ◌∷◌, ◌==◌, any, In,
  All-at, is_none, truthy, str_eq_iff, arith, inl, inr, Bool-cases,
}
use vpn_management_panel.Panel.Models.{PeerStatus, Device, Peer, Db, is_live}
use vpn_management_panel.Panel.Crypto.{clients}
use vpn_management_panel.Panel.Creation.{collides}
use vpn_management_panel.Panel.Deletion.{find_device}
use vpn_management_panel.Panel.Ownership.{agrees, AreApart, IsSafe, IsWellFormed}
use vpn_management_panel.Panel.Ownership.Created.{AreFilled}
use vpn_management_panel.Panel.History.{Reach, Reach-IsWellFormed}

find_device-In :
    (devices : List Device) (id : ℕ) (d : Device) → find_device id devices ≡ some d → In d devices
find_device-In [] id d e = cc
find_device-In (x ∷ devices) id d e =
    let rest = find_device-In devices id d in
    elim (Bool-cases (x.id == id)) [
      | inl hit ↦ inl (let same : d ≡ x = ground arith in same)
      | inr miss ↦ inr (rest (ground arith))
    ]

collides_same : (s t : Option String) → truthy s ≡ true → s ≡ t → collides s t ≡ true
collides_same none t f e = cc
collides_same (some s) none f e = cc
collides_same (some s) (some t) f e = ground (arith, (str_eq_iff s t).1)

any-In :
    (devices : List Device) (ip : Option String) (e : Device)
    → In e devices
    → collides ip e.vpn_ip ≡ true
    → any (λ (x : Device). collides ip x.vpn_ip) devices ≡ true
any-In [] ip e m c = absurd m
any-In (x ∷ devices) ip e (inl same) c = rw (sym same, c) refl
any-In (x ∷ devices) ip e (inr m) c = let rest = any-In devices ip e m c in ground (arith, rest)

-- Two rows with the same address are one.
AreApart-same :
    (devices : List Device) (d e : Device)
    → AreApart devices
    → In d devices
    → In e devices
    → truthy d.vpn_ip ≡ true
    → d.vpn_ip ≡ e.vpn_ip
    → d ≡ e
AreApart-same [] d e apart m n f s = absurd m
AreApart-same (x ∷ devices) d e (here, there) (inl a) (inl b) f s = a ∙ sym b
AreApart-same (x ∷ devices) d e (here, there) (inl a) (inr n) f s =
    let text : truthy x.vpn_ip ≡ true = subst (λ (y : Device). truthy y.vpn_ip ≡ true) a f in
    let same : x.vpn_ip ≡ e.vpn_ip = subst (λ (y : Device). y.vpn_ip ≡ e.vpn_ip) a s in
    let found = any-In devices x.vpn_ip e n (collides_same x.vpn_ip e.vpn_ip text same) in cc
AreApart-same (x ∷ devices) d e (here, there) (inr m) (inl b) f s =
    let same : x.vpn_ip ≡ d.vpn_ip = subst (λ (y : Device). y.vpn_ip ≡ d.vpn_ip) b (sym s) in
    let text : truthy x.vpn_ip ≡ true = ap truthy same ∙ f in
    let found = any-In devices x.vpn_ip d m (collides_same x.vpn_ip d.vpn_ip text same) in cc
AreApart-same (x ∷ devices) d e (here, there) (inr m) (inr n) f s =
    AreApart-same devices d e there m n f s

-- The device of a live peer.
live-agrees :
    (status : PeerStatus) (d : Device)
    → agrees status (some d) ≡ true
    → is_live status ≡ true
    → (is_none d.deleted_at ≡ true) × (truthy d.vpn_ip ≡ true)
live-agrees status d a l = ground arith

module _ (db : Db) (owned : IsWellFormed db) where
  -- In a well-formed database the device of a live peer is not tombstoned, and it has an address.
  pub live_peer-device :
      (p : Peer) (d : Device)
      → In p db.peers
      → is_live p.status ≡ true
      → find_device p.device_id db.devices ≡ some d
      → (is_none d.deleted_at ≡ true) × (truthy d.vpn_ip ≡ true)
  live_peer-device p d m l e =
      let safe = All-at (IsSafe db.devices) db.peers p owned.safe m in
      live-agrees p.status d (ap (agrees p.status) (sym e) ∙ safe) l

  -- In a well-formed database two live peers with the same address belong to the same device.
  pub live_peers-apart :
      (p q : Peer) (d e : Device)
      → In p db.peers
      → is_live p.status ≡ true
      → find_device p.device_id db.devices ≡ some d
      → find_device q.device_id db.devices ≡ some e
      → d.vpn_ip ≡ e.vpn_ip
      → d ≡ e
  live_peers-apart p q d e m l a b s =
      AreApart-same db.devices d e owned.apart (find_device-In db.devices p.device_id d a)
        (find_device-In db.devices q.device_id e b) (live_peer-device p d m l a).1 s

-- After any sequence of the steps of Reach, from a well-formed database, the device of a live peer is
-- not tombstoned and has an address, and a device with that address, tombstoned or not, is the same
-- one. The steps are: creating and deleting a device, filling a node with peers and deleting it, the
-- lifecycle pass over a local account, blocking, unblocking, changing, resetting and deleting one,
-- applying, limiting, reconciling, purging and deleting imported accounts, and taking a node's sync
-- result or heartbeat.
pub Reach-live_peer :
    (hosts : List String) (first db : Db) (p q : Peer) (d e : Device)
    → AreFilled (clients hosts)
    → IsWellFormed first
    → Reach hosts first db
    → In p db.peers
    → is_live p.status ≡ true
    → find_device p.device_id db.devices ≡ some d
    → find_device q.device_id db.devices ≡ some e
    → d.vpn_ip ≡ e.vpn_ip
    → (is_none d.deleted_at ≡ true) × (truthy d.vpn_ip ≡ true) × (d ≡ e)
Reach-live_peer hosts first db p q d e texts o r m l a b same =
    let owned = Reach-IsWellFormed hosts texts first db r o in
    let (alive, text) = live_peer-device db owned p d m l a in
    (alive, text, live_peers-apart db owned p q d e m l a b same)
