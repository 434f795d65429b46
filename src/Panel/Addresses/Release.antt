-- ===== src/Panel/Addresses/Release.antt =====
-- panel/backend/app/services/devices.py: `release_device_ips` against the peers that may still be
-- installed on a node.
use vpn_management_panel.Prelude.{
  ℕ, Bool, true, false, ◌≡◌, refl, sym, ap, ◌∙◌, List, [], ◌∷◌, map, ◌==◌, mem, all, In, step_row,
  arith, inl, inr, Bool-cases,
}
use vpn_management_panel.Panel.Models.{PeerStatus, Device, Peer, Db, is_deleted}
use vpn_management_panel.Panel.Addresses.{
  peer_statuses, unconfirmed, release_device_ip, release_device_ips,
}
use vpn_management_panel.Panel.Deletion.{find_device}

-- A peer that is not confirmed gone is among the statuses of its device.
peer_statuses-unconfirmed :
    (peers : List Peer) (p : Peer)
    → In p peers
    → is_deleted p.status ≡ false
    → all is_deleted (peer_statuses peers p.device_id) ≡ false
unfolding peer_statuses
peer_statuses-unconfirmed [] p m e = absurd m
peer_statuses-unconfirmed (q ∷ peers) p (inl same) e =
    let status : q.status ≡ p.status = ap (λ (r : Peer). r.status) (sym same) in
    let device : q.device_id ≡ p.device_id = ap (λ (r : Peer). r.device_id) (sym same) in
    ground arith
peer_statuses-unconfirmed (q ∷ peers) p (inr m) e =
    let rest = peer_statuses-unconfirmed peers p m e in ground (arith, rest)

not_all-unconfirmed :
    (statuses : List PeerStatus) → all is_deleted statuses ≡ false → unconfirmed statuses ≡ true
not_all-unconfirmed [] e = cc
not_all-unconfirmed (s ∷ statuses) e = rw e refl

-- A row whose device has such a peer is not written.
release_device_ip-unconfirmed :
    (peers : List Peer) (at : ℕ) (d : Device)
    → unconfirmed (peer_statuses peers d.id) ≡ true
    → release_device_ip peers at d ≡ (d, false)
unfolding release_device_ip
release_device_ip-unconfirmed peers at d e = ground arith

find_device-step :
    (chosen : Device → Bool) (step : Device → Device × Bool) (id : ℕ) (devices : List Device)
    → ((d : Device) → ((step d).0.id ≡ d.id))
    → ((d : Device) → d.id ≡ id → step d ≡ (d, false))
    → find_device id (map (step_row chosen step) devices) ≡ find_device id devices
find_device-step chosen step id [] keep same = refl
find_device-step chosen step id (d ∷ devices) keep same =
    let rest = find_device-step chosen step id devices keep same in
    let kept = keep d in
    elim (Bool-cases (d.id == id)) [
      | inl hit ↦ let e = same d (ground arith) in ground (arith, rest)
      | inr miss ↦ ground (arith, rest)
    ]

release_device_ip-id :
    (peers : List Peer) (at : ℕ) (d : Device) → (release_device_ip peers at d).0.id ≡ d.id
unfolding release_device_ip
release_device_ip-id peers at d = ground arith

-- As long as a peer is not confirmed deleted, the release leaves the row of its device alone.
pub release_device_ips-held :
    (device_ids : List ℕ) (at : ℕ) (p : Peer) (db : Db)
    → In p db.peers
    → is_deleted p.status ≡ false
    → find_device p.device_id (release_device_ips device_ids at db).1.devices
      ≡ find_device p.device_id db.devices
unfolding release_device_ips
release_device_ips-held device_ids at p db m e =
    let held =
      not_all-unconfirmed (peer_statuses db.peers p.device_id)
        (peer_statuses-unconfirmed db.peers p m e) in
    find_device-step (λ (d : Device). mem d.id device_ids) (release_device_ip db.peers at)
      p.device_id db.devices (release_device_ip-id db.peers at)
      (λ d same.
        release_device_ip-unconfirmed db.peers at d
          (ap (λ id. unconfirmed (peer_statuses db.peers id)) same ∙ held))
