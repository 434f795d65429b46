-- ===== src/Panel/Deletion/Again.antt =====
-- panel/backend/app/services/devices.py: what `delete_device` leaves, and a second deletion.
use vpn_management_panel.Prelude.{
  ℕ, Bool, false, ◌&&◌, ◌≡◌, refl, sym, ap, ◌∙◌, none, some, List, [], ◌∷◌, map, ◌==◌, All,
  update_if, step_row, row_hit, arith, inl, inr, Bool-cases, Option-cases,
}
use vpn_management_panel.Panel.Models.{Device, Peer, Db, is_live}
use vpn_management_panel.Panel.Addresses.{release_device_ip, hit_ids}
use vpn_management_panel.Panel.Deletion.{
  find_device, mark_peer, settle, delete_locked, delete_device,
}

abbrev is_of : ℕ → Peer → Bool
is_of device_id p = p.device_id == device_id

marked_peers :
    (device_id : ℕ) (peers : List Peer)
    → All
        (λ (p : Peer). (p.device_id == device_id && is_live p.status) ≡ false)
        (map (step_row (is_of device_id) mark_peer) peers)
marked_peers device_id [] = tt
marked_peers device_id (p ∷ peers) = (ground arith, marked_peers device_id peers)

-- Marking twice is marking once, and hits nothing.
marked_again :
    (device_id : ℕ) (peers : List Peer)
    → map (step_row (is_of device_id) mark_peer) (map (step_row (is_of device_id) mark_peer) peers)
      ≡ map (step_row (is_of device_id) mark_peer) peers
marked_again device_id [] = refl
marked_again device_id (p ∷ peers) =
    let rest = marked_again device_id peers in
    let here : step_row (is_of device_id) mark_peer (step_row (is_of device_id) mark_peer p)
        ≡ step_row (is_of device_id) mark_peer p =
      ground arith in
    ground (arith, rest, here)

no_hits :
    (device_id : ℕ) (peers : List Peer)
    → hit_ids
        (row_hit (is_of device_id) mark_peer)
        (λ p. p.node_id)
        (map (step_row (is_of device_id) mark_peer) peers)
      ≡ []
unfolding hit_ids
no_hits device_id [] = refl
no_hits device_id (p ∷ peers) =
    let rest = no_hits device_id peers in
    let miss : row_hit (is_of device_id) mark_peer (step_row (is_of device_id) mark_peer p)
        ≡ false =
      ground arith in
    rw (miss, rest) refl

settle-again :
    (peers : List Peer) (at now at' now' : ℕ) (d : Device)
    → settle peers at' now' (settle peers at now d) ≡ settle peers at now d
unfolding settle release_device_ip
settle-again peers at now at' now' d = ground arith

settle-id : (peers : List Peer) (at now : ℕ) (d : Device) → (settle peers at now d).id ≡ d.id
unfolding settle release_device_ip
settle-id peers at now d = ground arith

settled_again :
    (device_id : ℕ) (f g : Device → Device) (devices : List Device)
    → ((d : Device) → (f d).id ≡ d.id)
    → ((d : Device) → g (f d) ≡ f d)
    → map
        (update_if (λ (d : Device). d.id == device_id) g)
        (map (update_if (λ (d : Device). d.id == device_id) f) devices)
      ≡ map (update_if (λ (d : Device). d.id == device_id) f) devices
settled_again device_id f g [] same again = refl
settled_again device_id f g (d ∷ devices) same again =
    let rest = settled_again device_id f g devices same again in
    let id = same d in let here = again d in ground (arith, rest)

find_device-settled :
    (id device_id : ℕ) (f : Device → Device) (devices : List Device)
    → ((d : Device) → (f d).id ≡ d.id)
    → (d : Device) → find_device id devices ≡ some d
    → (e : Device) × (find_device id (map (update_if (λ (d : Device). d.id == device_id) f) devices)
        ≡ some e)
      × (e.id ≡ d.id)
find_device-settled id device_id f [] same d found = cc
find_device-settled id device_id f (x ∷ devices) same d found =
    let kept = same x in
    elim (Bool-cases (x.id == id)) [
      | inl hit ↦ (update_if (λ (d : Device). d.id == device_id) f x, ground arith, ground arith)
      | inr miss ↦
          let (e, there, id_same) =
            find_device-settled id device_id f devices same d (ground arith) in
          (e, ground arith, id_same)
    ]

delete_locked-again :
    (at now at' now' device_id : ℕ) (db : Db)
    → delete_locked at' now' device_id (delete_locked at now device_id db).1
      ≡ ([], (delete_locked at now device_id db).1)
unfolding delete_locked
delete_locked-again at now at' now' device_id db =
    let peers = map (step_row (is_of device_id) mark_peer) db.peers in
    rw
      (
        no_hits device_id db.peers,
        marked_again device_id db.peers,
        settled_again device_id (settle peers at now) (settle peers at' now') db.devices
            (settle-id peers at now) (settle-again peers at now at' now'),
      )
      refl

delete_locked-find :
    (at now device_id id : ℕ) (db : Db) (d : Device)
    → find_device id db.devices ≡ some d
    → (e : Device) × (find_device id (delete_locked at now device_id db).1.devices ≡ some e)
      × (e.id ≡ d.id)
unfolding delete_locked
delete_locked-find at now device_id id db d found =
    let peers = map (step_row (is_of device_id) mark_peer) db.peers in
    find_device-settled id device_id (settle peers at now) db.devices (settle-id peers at now) d
      found

abbrev no_nodes : Db → List ℕ × Db
no_nodes db = ([], db)

delete_device-none :
    (at now device_id : ℕ) (db : Db)
    → find_device device_id db.devices ≡ none
    → delete_device at now device_id db ≡ ([], db)
unfolding delete_device
delete_device-none at now device_id db e = rw (e, delete_device) refl

delete_device-some :
    (at now device_id : ℕ) (db : Db) (d : Device)
    → find_device device_id db.devices ≡ some d
    → delete_device at now device_id db ≡ delete_locked at now d.id db
unfolding delete_device
delete_device-some at now device_id db d e = rw (e, delete_device) refl

-- A second deletion of a device, at any later time, changes nothing and asks no node to sync.
pub delete_device-again :
    (at now at' now' device_id : ℕ) (db : Db)
    → delete_device at' now' device_id (delete_device at now device_id db).1
      ≡ ([], (delete_device at now device_id db).1)
delete_device-again at now at' now' device_id db =
    elim (Option-cases (find_device device_id db.devices)) [
      | inl e ↦
          let first = delete_device-none at now device_id db e in
          ap (λ (r : List ℕ × Db). delete_device at' now' device_id r.1) first
          ∙ delete_device-none at' now' device_id db e
          ∙ ap (λ (r : List ℕ × Db). no_nodes r.1) (sym first)
      | inr (d, e) ↦
          let (d', e', same) = delete_locked-find at now d.id device_id db d e in
          let first = delete_device-some at now device_id db d e in
          ap (λ (r : List ℕ × Db). delete_device at' now' device_id r.1) first
          ∙ delete_device-some at' now' device_id (delete_locked at now d.id db).1 d' e'
          ∙ ap (λ id. delete_locked at' now' id (delete_locked at now d.id db).1) same
          ∙ delete_locked-again at now at' now' d.id db
          ∙ ap (λ (r : List ℕ × Db). no_nodes r.1) (sym first)
    ]

delete_locked-peers :
    (at now device_id : ℕ) (db : Db)
    → All
        (λ (p : Peer). (p.device_id == device_id && is_live p.status) ≡ false)
        (delete_locked at now device_id db).1.peers
unfolding delete_locked
delete_locked-peers at now device_id db = marked_peers device_id db.peers

find_device-id :
    (id : ℕ) (devices : List Device) (d : Device) → find_device id devices ≡ some d → d.id ≡ id
find_device-id id [] d e = cc
find_device-id id (x ∷ devices) d e = let rest = find_device-id id devices d in ground (arith, rest)

-- The deletion of a device that exists leaves none of its peers live.
pub delete_device-no_live_peer :
    (at now device_id : ℕ) (db : Db) (d : Device)
    → find_device device_id db.devices ≡ some d
    → All
        (λ (p : Peer). (p.device_id == device_id && is_live p.status) ≡ false)
        (delete_device at now device_id db).1.peers
unfolding delete_device
delete_device-no_live_peer at now device_id db d e =
    rw (e, delete_device, find_device-id device_id db.devices d e)
      (delete_locked-peers at now device_id db)
