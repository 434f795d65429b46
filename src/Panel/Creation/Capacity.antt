-- ===== src/Panel/Creation/Capacity.antt =====
-- panel/backend/app/services/devices.py: `create_device` against the limit of the owner. The owner's row
-- is locked for the whole call, so no other transaction changes how many live devices the owner has.
use vpn_management_panel.Prelude.{
  ℕ, zero, suc, ◌+◌, String, Bool, true, ◌≡◌, refl, sym, ap, ◌∙◌, subst, Option, none, some, List,
  [], ◌∷◌, ◌++◌, map, leb, count_if, arith, if◌then◌else◌, inl, inr,
}
use vpn_management_panel.Panel.Models.{Node, Device, Db}
use vpn_management_panel.Panel.Errors.{Result, Result-cases, ok, err}
use vpn_management_panel.Panel.Limits.{
  is_live_device_of, count_live_devices, effective_device_limit,
}
use vpn_management_panel.Panel.Addresses.{allocate_device_ip}
use vpn_management_panel.Panel.Provisioning.{
  Fresh, create_pending_peers_for_device, create_on_nodes, create_pending_peer, insert_peer,
}
use vpn_management_panel.Panel.Creation.{
  Flush-cases, inserted, flush_device, Draws, new_device, insert_device_attempts,
  insert_device_with_unique_ip, max_ip_allocation_attempts, create_device,
}
use vpn_management_panel.Panel.Creation.Checks.{
  IsActive, below, then_provision, create_device-cases,
}

count_if-append :
    (p : Device → Bool) (devices : List Device) (d : Device)
    → count_if p (devices ++ d ∷ []) ≡ count_if p devices + (if p d then 1 else 0)
count_if-append p [] d = ground arith
count_if-append p (x ∷ devices) d = let rest = count_if-append p devices d in ground (arith, rest)

-- A device that was added for the owner: one more live device, with the name that was asked for.
pub record IsAdded (user_id : ℕ) (name : String) (before : ℕ) (d : Device) (db : Db) : Type 0 where
  pub count : count_live_devices db.devices user_id ≡ before + 1
  pub owner : d.user_id ≡ user_id
  pub named : d.name ≡ name
  pub alive : d.deleted_at ≡ none

-- A number of devices is within a limit, if there is one.
abbrev pub within : Option ℕ → ℕ → Bool
within none n = true
within (some limit) n = leb n limit

room_within :
    (limit : Option ℕ) (before after : ℕ)
    → below limit before ≡ true
    → after ≡ before + 1
    → within limit after ≡ true
room_within none before after room e = refl
room_within (some limit) before after room e = ground (arith, room, e)

abbrev WhenAdded : ℕ → String → ℕ → Result (Device × Db) → Type 0
WhenAdded user_id name before (ok (d, db)) = IsAdded user_id name before d db
WhenAdded user_id name before (err e) = Unit

create_pending_peer-same :
    (fresh : Fresh) (node_id : ℕ) (d : Device) (db : Db)
    → (create_pending_peer fresh node_id d db).1.devices ≡ db.devices
unfolding create_pending_peer insert_peer
create_pending_peer-same fresh node_id d db = ground arith

create_on_nodes-same :
    (fresh : Fresh) (nodes : List ℕ) (d : Device) (created : List ℕ) (db : Db)
    → (create_on_nodes fresh nodes d created db).1.devices ≡ db.devices
unfolding create_on_nodes
create_on_nodes-same fresh [] d created db = refl
create_on_nodes-same fresh (n ∷ nodes) d created db =
    create_on_nodes-same fresh nodes d _ (create_pending_peer fresh n d db).1
    ∙ create_pending_peer-same fresh n d db

flush_device-devices :
    (d : Device) (db db' : Db)
    → flush_device d db ≡ inserted db'
    → db'.devices ≡ db.devices ++ d ∷ []
unfolding flush_device
flush_device-devices d db db' e = ground arith

module _ (hosts : List String) (others : ℕ → Db → Db) (draws : Draws) (user_id : ℕ)
    (locked : (n : ℕ) (d : Db)
      → count_live_devices (others n d).devices user_id
        ≡ count_live_devices d.devices user_id) where
  attempt-IsAdded :
      (attempt : ℕ) (name ip : String) (db after : Db)
      → flush_device (new_device draws attempt user_id name ip) (others attempt db) ≡ inserted after
      → IsAdded user_id name
          (count_live_devices db.devices user_id)
          (new_device draws attempt user_id name ip)
          after
  unfolding count_live_devices
  attempt-IsAdded attempt name ip db after e =
      let d = new_device draws attempt user_id name ip in
      let rows = flush_device-devices d (others attempt db) after e in
      let more = count_if-append (is_live_device_of user_id) (others attempt db).devices d in
      let same = locked attempt db in
      record {
        count = rw rows (ground (arith, more, same));
        owner = refl;
        named = refl;
        alive = refl;
      }

  insert_device_attempts-IsAdded :
      (left : ℕ) (name : String) (db : Db)
      → WhenAdded user_id name
          (count_live_devices db.devices user_id)
          (insert_device_attempts hosts others draws left user_id name db)
  unfolding insert_device_attempts
  insert_device_attempts-IsAdded zero name db = tt
  insert_device_attempts-IsAdded (suc left) name db =
      let again =
        subst
          (λ before.
            WhenAdded user_id name before
              (insert_device_attempts hosts others draws left user_id name (others left db)))
          (locked left db) (insert_device_attempts-IsAdded left name (others left db)) in
      elim (Result-cases (allocate_device_ip hosts db.devices)) [
        | inl (x, e) ↦ rw (e, insert_device_attempts) tt
        | inr (ip, e) ↦
            elim (Flush-cases
              (flush_device (new_device draws left user_id name ip) (others left db))) [
                | inl (db', f) ↦
                    rw (e, f, insert_device_attempts) (attempt-IsAdded left name ip db db' f)
                | inr (inl f) ↦ rw (e, f, insert_device_attempts) again
                | inr (inr f) ↦ rw (e, f, insert_device_attempts) tt
              ]
      ]

  module _ (fresh : Fresh) (now : ℕ) where
    provision-IsAdded :
        (name : String) (before : ℕ) (r : Result (Device × Db)) (d : Device) (nodes : List ℕ)
        (after : Db)
        → WhenAdded user_id name before r
        → then_provision fresh r ≡ ok ((d, nodes), after)
        → IsAdded user_id name before d after
    unfolding create_pending_peers_for_device
    provision-IsAdded name before (err x) d nodes after h e = cc
    provision-IsAdded name before (ok (d', db)) d nodes after h e =
        let all = map (λ (n : Node). n.id) db.nodes in
        let made = create_on_nodes-same fresh all d' [] db in
        let row : d' ≡ d = cc in
        let rest : (create_on_nodes fresh all d' [] db).1 ≡ after = cc in
        let same : after.devices ≡ db.devices = ap (λ (x : Db). x.devices) (sym rest) ∙ made in
        subst (λ (x : Device). IsAdded user_id name before x after) row
          (record {
            count = ap (λ rows. count_live_devices rows user_id) same ∙ h.count;
            owner = h.owner;
            named = h.named;
            alive = h.alive;
          })

    -- While the owner's row is locked, so that no other transaction changes how many live devices the
    -- owner has, a creation that succeeds was of an active account, and it leaves just one live device
    -- more, within the owner's limit if there is one: the device of the answer, with the owner and the
    -- name of the request.
    pub create_device-IsAdded :
        (name : String) (db : Db) (d : Device) (nodes : List ℕ) (after : Db)
        → create_device hosts others draws fresh now user_id name db ≡ ok ((d, nodes), after)
        → IsActive now user_id db
          × (within (effective_device_limit db user_id) (count_live_devices after.devices user_id)
              ≡ true)
          × IsAdded user_id name (count_live_devices db.devices user_id) d after
    unfolding insert_device_with_unique_ip
    create_device-IsAdded name db d nodes after e =
        elim (create_device-cases hosts others draws fresh now user_id name db) [
          | inl (x, f) ↦ cc
          | inr (active, room, f) ↦
              let done =
                provision-IsAdded name (count_live_devices db.devices user_id)
                  (insert_device_with_unique_ip hosts others draws user_id name db) d nodes after
                  (insert_device_attempts-IsAdded max_ip_allocation_attempts name db) (sym f ∙ e) in
              (
                active,
                room_within (effective_device_limit db user_id)
                    (count_live_devices db.devices user_id)
                    (count_live_devices after.devices user_id) room done.count,
                done,
              )
        ]
