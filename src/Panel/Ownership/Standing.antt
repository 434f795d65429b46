-- ===== src/Panel/Ownership/Standing.antt =====
-- Changes of an account's standing keep the invariant of ownership.
use vpn_management_panel.Prelude.{
  ℕ, Bool, true, not, ◌&&◌, ◌||◌, ◌≡◌, inl, inr, refl, Option, none, some, List, [], ◌∷◌, map,
  arith, ◌==◌, mem, All, All-imp, All-map₂, is_some, select, step_row, Option-cases, Bool-cases,
}
use vpn_management_panel.Panel.Models.{LifecycleStatus, User, Device, Peer, Db, is_lifecycle_active}
use vpn_management_panel.Panel.Deletion.{find_device}
use vpn_management_panel.Panel.Provisioning.{Fresh, tombstoned_device_ids}
use vpn_management_panel.Panel.Limits.{find_user, find_profile}
use vpn_management_panel.Panel.Lifecycle.{
  lifecycle_peer, set_standing, desired_status, given_total, apply_local_lifecycle_state,
  enforce_local_lifecycle_for_user,
}
use vpn_management_panel.Panel.Ownership.{agrees, IsSafe, IsOwned, IsWellFormed}
use vpn_management_panel.Panel.Ownership.Tables.{mem-tombstoned_device_ids, IsOwned-map}
use vpn_management_panel.Panel.Ownership.Provisioned.{restore_missing_peers_for_user-Keeps}

abbrev InIds : (Peer → Bool) → Peer → List Peer → Type 0
InIds mine q peers =
    mine q ≡ true → mem q.device_id (map (λ (r : Peer). r.device_id) (select mine peers)) ≡ true

mem-head : (mine : Peer → Bool) (p : Peer) (peers : List Peer) → InIds mine p (p ∷ peers)
unfolding mem
mem-head mine p peers h = ground arith

mem-later :
    (mine : Peer → Bool) (p q : Peer) (peers : List Peer)
    → InIds mine q peers
    → InIds mine q (p ∷ peers)
unfolding mem
mem-later mine p q peers k h = let m = k h in ground arith

-- The selected peers' devices are in the set that the loop looks up.
mem-device_ids : (mine : Peer → Bool) (peers : List Peer) → All (λ p. InIds mine p peers) peers
mem-device_ids mine [] = tt
mem-device_ids mine (p ∷ peers) = (
  mem-head mine p peers,
  All-imp (λ q. InIds mine q peers) (λ q. InIds mine q (p ∷ peers)) peers
      (λ q. mem-later mine p q peers) (mem-device_ids mine peers),
)

lifecycle_agrees :
    (should_block : Bool) (tombstoned : List ℕ) (p : Peer) (o : Option Device)
    → ((d : Device) → o ≡ some d → is_some d.deleted_at ≡ true → mem p.device_id tombstoned ≡ true)
    → agrees p.status o ≡ true
    → agrees (lifecycle_peer should_block tombstoned p).0.status o ≡ true
unfolding lifecycle_peer
lifecycle_agrees should_block tombstoned p none t h = refl
lifecycle_agrees should_block tombstoned p (some d) t h = elim (Bool-cases (is_some d.deleted_at)) [
  | inl dead ↦ let m = t d refl dead in ground arith
  | inr live ↦ ground arith
]

lifecycle_same_device :
    (should_block : Bool) (tombstoned : List ℕ) (p : Peer)
    → (lifecycle_peer should_block tombstoned p).0.device_id ≡ p.device_id
unfolding lifecycle_peer
lifecycle_same_device should_block tombstoned p = ground arith

-- One round of the loop, for a peer whose device is among the ids that were looked up.
lifecycle_peer-IsSafe :
    (devices : List Device) (ids : List ℕ) (should_block : Bool) (p : Peer)
    → mem p.device_id ids ≡ true
    → IsSafe devices p
    → IsSafe devices (lifecycle_peer should_block (tombstoned_device_ids devices ids) p).0
lifecycle_peer-IsSafe devices ids should_block p m h =
    rw (lifecycle_same_device should_block (tombstoned_device_ids devices ids) p) (
      lifecycle_agrees should_block (tombstoned_device_ids devices ids) p
        (find_device p.device_id devices)
        (λ d f t. mem-tombstoned_device_ids devices ids p.device_id d m f t) h)

chosen-IsSafe :
    (devices : List Device) (ids : List ℕ) (mine : Peer → Bool) (should_block : Bool) (p : Peer)
    → (mine p ≡ true → mem p.device_id ids ≡ true)
    → IsSafe devices p
    → IsSafe devices
        (step_row mine (lifecycle_peer should_block (tombstoned_device_ids devices ids)) p)
chosen-IsSafe devices ids mine should_block p m h = elim (Bool-cases (mine p)) [
  | inl e ↦ rw e (lifecycle_peer-IsSafe devices ids should_block p (m e) h)
  | inr e ↦ rw e h
]

blocked-IsSafe :
    (mine : Peer → Bool) (tombstoned : List ℕ) (devices : List Device) (p : Peer)
    → IsSafe devices p
    → IsSafe devices (step_row mine (lifecycle_peer true tombstoned) p)
unfolding lifecycle_peer
blocked-IsSafe mine tombstoned devices p h = ground arith

-- The loop over the selected peers.
pub lifecycle_peers-IsOwned :
    (mine : Peer → Bool) (should_block : Bool) (devices : List Device) (peers : List Peer)
    → IsOwned devices peers
    → IsOwned devices (
        map
          (step_row mine (
            lifecycle_peer should_block (
              tombstoned_device_ids devices (map (λ (p : Peer). p.device_id) (select mine peers)))))
          peers)
lifecycle_peers-IsOwned mine should_block devices peers o =
    let ids = map (λ (p : Peer). p.device_id) (select mine peers) in
    record {
      distinct = o.distinct;
      apart = o.apart;
      safe =
          All-map₂ (IsSafe devices) (λ p. mine p ≡ true → mem p.device_id ids ≡ true)
            (IsSafe devices)
            (step_row mine (lifecycle_peer should_block (tombstoned_device_ids devices ids))) peers
            (λ p h m. chosen-IsSafe devices ids mine should_block p m h) o.safe
            (mem-device_ids mine peers);
    }

-- Marking peers for removal needs no look at the devices.
pub blocked_peers-IsOwned :
    (mine : Peer → Bool) (tombstoned : List ℕ) (devices : List Device) (peers : List Peer)
    → IsOwned devices peers
    → IsOwned devices (map (step_row mine (lifecycle_peer true tombstoned)) peers)
blocked_peers-IsOwned mine tombstoned devices peers =
    IsOwned-map (step_row mine (lifecycle_peer true tombstoned))
      (λ p h. blocked-IsSafe mine tombstoned devices p h)

set_standing-IsWellFormed :
    (user : User) (status : LifecycleStatus) (db : Db)
    → IsWellFormed db
    → IsWellFormed (set_standing user status db).1
unfolding set_standing
set_standing-IsWellFormed user status db o =
    lifecycle_peers-IsOwned (λ p. p.user_id == user.id) (not (is_lifecycle_active status))
      db.devices db.peers o

module _ (fresh : Fresh) (now : ℕ) where
  -- Re-deriving the state of a local account keeps the invariant of ownership, on the passes that
  -- block, on those that restore, and on those that change nothing.
  pub apply_local_lifecycle_state-IsWellFormed :
      (user : User) (total : Option ℕ) (db : Db)
      → IsWellFormed db
      → IsWellFormed (apply_local_lifecycle_state fresh now user total db).1
  unfolding apply_local_lifecycle_state
  apply_local_lifecycle_state-IsWellFormed user total db o =
      let status = desired_status now user (given_total db user.id total) in
      let kept = set_standing-IsWellFormed user status db o in
      let restored =
        (restore_missing_peers_for_user-Keeps fresh user.id (set_standing user status db).1
          kept).owned in
      elim (Bool-cases (
        (user.is_blocked || not (is_lifecycle_active user.lifecycle_status))
        && is_lifecycle_active status)) [ inl e ↦ rw e restored | inr e ↦ rw e kept ]

  pub enforce_local_lifecycle_for_user-IsWellFormed :
      (user_id : ℕ) (db : Db)
      → IsWellFormed db
      → IsWellFormed (enforce_local_lifecycle_for_user fresh now user_id db).1
  unfolding enforce_local_lifecycle_for_user
  enforce_local_lifecycle_for_user-IsWellFormed user_id db o =
      elim (Option-cases (find_user user_id db.users)) [
        | inl e ↦ rw (e, enforce_local_lifecycle_for_user) o
        | inr (user, e) ↦
            rw (e, enforce_local_lifecycle_for_user)
              (elim (Bool-cases (is_some (find_profile user.id db.remnawave_users))) [
                | inl f ↦ rw f o
                | inr f ↦ rw f (apply_local_lifecycle_state-IsWellFormed user none db o)
              ])
      ]
