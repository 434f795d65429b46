-- ===== src/Panel/Ownership/Remote.antt =====
-- The effects of imported profiles keep the invariant of ownership.
use vpn_management_panel.Prelude.{
  ℕ, String, Bool, true, false, not, ◌&&◌, ◌≡◌, inl, inr, refl, Option, none, List, [], ◌∷◌, map,
  arith, ◌==◌, any, mem, All-imp, All-select, select, if◌then◌else◌, Option-cases, Bool-cases,
  mem_text,
}
use vpn_management_panel.Panel.Models.{PeerStatus, RemoteStatus, Device, Peer, RemnawaveUser, Db}
use vpn_management_panel.Panel.Deletion.{find_device}
use vpn_management_panel.Panel.Limits.{find_user, find_profile}
use vpn_management_panel.Panel.Creation.{collides}
use vpn_management_panel.Panel.Lifecycle.{load_local_total_bytes}
use vpn_management_panel.Panel.Provisioning.{Fresh}
use vpn_management_panel.Panel.Remnawave.{
  is_mine, same_bool, blocked_user, remnawave_blocked, remnawave_combined_limited, block_peers,
  set_remote_standing, apply_remnawave_lifecycle, enforce_remnawave_combined_limit,
  enforce_remnawave_combined_limit_for_user, mark_remnawave_user_stale, mark_all_stale,
  reconcile_missing_remnawave_users, is_purgeable, delete_owner, purge_rows,
  purge_confirmed_remnawave_deletes,
}
use vpn_management_panel.Panel.Ownership.{
  agrees, IsSafe, AreDistinct, AreApart, IsOwned, IsWellFormed,
}
use vpn_management_panel.Panel.Ownership.Standing.{lifecycle_peers-IsOwned, blocked_peers-IsOwned}
use vpn_management_panel.Panel.Ownership.Provisioned.{restore_missing_peers_for_user-Keeps}

block_peers-IsOwned :
    (user_id : ℕ) (devices : List Device) (peers : List Peer)
    → IsOwned devices peers
    → IsOwned devices (block_peers user_id peers).1
unfolding block_peers
block_peers-IsOwned user_id devices peers = blocked_peers-IsOwned (is_mine user_id) [] devices peers

enforce_remnawave_combined_limit-IsWellFormed :
    (row : RemnawaveUser) (db : Db)
    → IsWellFormed db
    → IsWellFormed (enforce_remnawave_combined_limit row db).1
unfolding enforce_remnawave_combined_limit
enforce_remnawave_combined_limit-IsWellFormed row db o =
    elim (Bool-cases
      (remnawave_combined_limited row (load_local_total_bytes db.user_lifetime row.user_id))) [
        | inl e ↦ rw e (block_peers-IsOwned row.user_id db.devices db.peers o)
        | inr e ↦ rw e o
      ]

pub enforce_remnawave_combined_limit_for_user-IsWellFormed :
    (user_id : ℕ) (db : Db)
    → IsWellFormed db
    → IsWellFormed (enforce_remnawave_combined_limit_for_user user_id db).1
unfolding enforce_remnawave_combined_limit_for_user
enforce_remnawave_combined_limit_for_user-IsWellFormed user_id db o =
    elim (Option-cases (find_profile user_id db.remnawave_users)) [
      | inl e ↦ rw (e, enforce_remnawave_combined_limit_for_user) o
      | inr (row, e) ↦
          rw (e, enforce_remnawave_combined_limit_for_user)
            (enforce_remnawave_combined_limit-IsWellFormed row db o)
    ]

mark_all_stale-IsWellFormed :
    (reason : String) (rows : List RemnawaveUser) (affected : List ℕ) (db : Db)
    → IsWellFormed db
    → IsWellFormed (mark_all_stale reason rows affected db).1
unfolding mark_all_stale
mark_all_stale-IsWellFormed reason [] affected db o = o
mark_all_stale-IsWellFormed reason (row ∷ rows) affected db o =
    mark_all_stale-IsWellFormed reason rows _ (mark_remnawave_user_stale reason row db).1
      (block_peers-IsOwned row.user_id db.devices db.peers o)

-- A reconciliation that marks the missing profiles stale keeps the invariant of ownership.
pub reconcile_missing_remnawave_users-IsWellFormed :
    (seen_uuids : List String) (reason : String) (db : Db)
    → IsWellFormed db
    → IsWellFormed (reconcile_missing_remnawave_users seen_uuids reason db).1
unfolding reconcile_missing_remnawave_users
reconcile_missing_remnawave_users-IsWellFormed seen_uuids reason db =
    mark_all_stale-IsWellFormed reason
      (select (λ r. not (mem_text r.remnawave_uuid seen_uuids)) db.remnawave_users) [] db

set_remote_standing-IsWellFormed :
    (user_id : ℕ) (should_block : Bool) (db : Db)
    → IsWellFormed db
    → IsWellFormed (set_remote_standing user_id should_block db).1
unfolding set_remote_standing
set_remote_standing-IsWellFormed user_id should_block db o =
    lifecycle_peers-IsOwned (is_mine user_id) should_block db.devices db.peers o

module _ (fresh : Fresh) (now : ℕ) where
  -- Applying the block state of an imported profile keeps the invariant of ownership.
  pub apply_remnawave_lifecycle-IsWellFormed :
      (user_id : ℕ) (status : RemoteStatus) (expire_at : Option ℕ) (db : Db)
      → IsWellFormed db
      → IsWellFormed (apply_remnawave_lifecycle fresh now user_id status expire_at db).1
  unfolding apply_remnawave_lifecycle
  apply_remnawave_lifecycle-IsWellFormed user_id status expire_at db o =
      let should_block = remnawave_blocked now status expire_at in
      let was_blocked = blocked_user (find_user user_id db.users) in
      let kept = set_remote_standing-IsWellFormed user_id should_block db o in
      let restored =
        (restore_missing_peers_for_user-Keeps fresh user_id
          (set_remote_standing user_id should_block db).1 kept).owned in
      elim (Bool-cases (same_bool was_blocked should_block)) [
        | inl e ↦ rw e o
        | inr e ↦ rw e (elim (Bool-cases (was_blocked && not should_block)) [
          | inl f ↦ rw f restored
          | inr f ↦ rw f kept
        ])
      ]

-- The rows that are left after some are deleted.
module _ (kept : Device → Bool) where
  mem-select :
      (id : ℕ) (devices : List Device)
      → mem id (map (λ (e : Device). e.id) devices) ≡ false
      → mem id (map (λ (e : Device). e.id) (select kept devices)) ≡ false
  unfolding mem
  mem-select id [] h = h
  mem-select id (d ∷ devices) h = ground (arith, mem-select id devices)

  distinct-select :
      (devices : List Device) → AreDistinct devices → AreDistinct (select kept devices)
  distinct-select [] h = tt
  distinct-select (d ∷ devices) (h, hs) = elim (Bool-cases (kept d)) [
    | inl e ↦ rw e (mem-select d.id devices h, distinct-select devices hs)
    | inr e ↦ rw e (distinct-select devices hs)
  ]

  any-select :
      (t : Device → Bool) (devices : List Device)
      → any t devices ≡ false
      → any t (select kept devices) ≡ false
  any-select t [] h = h
  any-select t (d ∷ devices) h = ground (arith, any-select t devices)

  apart-select : (devices : List Device) → AreApart devices → AreApart (select kept devices)
  apart-select [] h = tt
  apart-select (d ∷ devices) (h, hs) = elim (Bool-cases (kept d)) [
    | inl e ↦ rw e (any-select (λ f. collides d.vpn_ip f.vpn_ip) devices h, apart-select devices hs)
    | inr e ↦ rw e (apart-select devices hs)
  ]

  find-none :
      (id : ℕ) (devices : List Device)
      → mem id (map (λ (e : Device). e.id) devices) ≡ false
      → find_device id (select kept devices) ≡ none
  unfolding mem
  find-none id [] h = refl
  find-none id (d ∷ devices) h = ground (arith, find-none id devices)

  agrees-select :
      (status : PeerStatus) (id : ℕ) (devices : List Device)
      → AreDistinct devices
      → agrees status (find_device id devices) ≡ true
      → agrees status (find_device id (select kept devices)) ≡ true
  agrees-select status id [] h s = s
  agrees-select status id (d ∷ devices) (h, hs) s =
      ground (arith, agrees-select status id devices hs, find-none id devices)

pub delete_owner-IsWellFormed :
    (user_id : ℕ) (db : Db) → IsWellFormed db → IsWellFormed (delete_owner user_id db)
unfolding delete_owner
delete_owner-IsWellFormed user_id db o =
    let kept = λ (d : Device). not (d.user_id == user_id) in
    let left = λ (p : Peer). not (p.user_id == user_id) in
    record {
      distinct = distinct-select kept db.devices o.distinct;
      apart = apart-select kept db.devices o.apart;
      safe =
          All-imp (IsSafe db.devices) (IsSafe (select kept db.devices)) (select left db.peers)
            (λ p. agrees-select kept p.status p.device_id db.devices o.distinct)
            (All-select (IsSafe db.devices) left db.peers o.safe);
    }

purge_row-IsWellFormed :
    (row : RemnawaveUser) (db : Db)
    → IsWellFormed db
    → IsWellFormed (if is_purgeable db.peers row then delete_owner row.user_id db else db)
purge_row-IsWellFormed row db o = elim (Bool-cases (is_purgeable db.peers row)) [
  | inl e ↦ rw e (delete_owner-IsWellFormed row.user_id db o)
  | inr e ↦ rw e o
]

purge_rows-IsWellFormed :
    (rows : List RemnawaveUser) (purged : ℕ) (db : Db)
    → IsWellFormed db
    → IsWellFormed (purge_rows rows purged db).1
unfolding purge_rows
purge_rows-IsWellFormed [] purged db o = o
purge_rows-IsWellFormed (row ∷ rows) purged db o =
    purge_rows-IsWellFormed rows _
      (if is_purgeable db.peers row then delete_owner row.user_id db else db)
      (purge_row-IsWellFormed row db o)

pub purge_confirmed_remnawave_deletes-IsWellFormed :
    (db : Db) → IsWellFormed db → IsWellFormed (purge_confirmed_remnawave_deletes db).1
unfolding purge_confirmed_remnawave_deletes
purge_confirmed_remnawave_deletes-IsWellFormed db = purge_rows-IsWellFormed db.remnawave_users 0 db
