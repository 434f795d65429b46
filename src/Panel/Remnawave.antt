-- ===== src/Panel/Remnawave.antt =====
-- panel/backend/app/services/remnawave_sync.py: what the imported profile of an account does to the
-- account's peers. The current time is a parameter.
pub mod Purged
use vpn_management_panel.Prelude.{
  ℕ, ◌+◌, String, Bool, true, false, not, ◌&&◌, ◌||◌, Option, none, some, List, [], ◌∷◌, map, ◌==◌,
  ltb, leb, union, mem_text, all, any, select, update_if, is_some, step_row, row_hit, if◌then◌else◌,
}
use vpn_management_panel.Panel.Models.{
  RemoteStatus, RemoteSync, User, Peer, RemnawaveUser, Db, is_deleted,
}
use vpn_management_panel.Panel.Limits.{find_user, find_profile}
use vpn_management_panel.Panel.Addresses.{hit_ids}
use vpn_management_panel.Panel.Provisioning.{
  Fresh, tombstoned_device_ids, restore_missing_peers_for_user,
}
use vpn_management_panel.Panel.Lifecycle.{is_due, lifecycle_peer, load_local_total_bytes}

-- `status in {'DISABLED', 'LIMITED', 'EXPIRED'}`
abbrev pub is_remote_blocked : RemoteStatus → Bool
is_remote_blocked RemoteStatus.disabled = true
is_remote_blocked RemoteStatus.limited = true
is_remote_blocked RemoteStatus.expired = true
is_remote_blocked _ = false

abbrev pub is_remote_disabled : RemoteStatus → Bool
is_remote_disabled RemoteStatus.disabled = true
is_remote_disabled _ = false

unfoldable pub remnawave_blocked : ℕ → RemoteStatus → Option ℕ → Bool
remnawave_blocked now status expire_at = is_remote_blocked status || is_due expire_at now

unfoldable pub remnawave_combined_limited : RemnawaveUser → ℕ → Bool
remnawave_combined_limited row local_total_bytes =
    ltb 0 row.traffic_limit_bytes
    && leb row.traffic_limit_bytes (row.traffic_used_bytes + local_total_bytes)

abbrev pub set_blocked : ℕ → Bool → List User → List User
set_blocked user_id blocked =
    map (update_if (λ (u : User). u.id == user_id) (λ u. record u { is_blocked = blocked }))

-- `peer.user_id == user_id`: the peers of the owner.
abbrev pub is_mine : ℕ → Peer → Bool
is_mine user_id p = p.user_id == user_id

-- The loops that mark every peer of an owner for removal: `lifecycle_peer` with `should_block`.
unfoldable pub block_peers : ℕ → List Peer → List ℕ × List Peer
unfolding lifecycle_peer hit_ids
block_peers user_id peers =
    let step = lifecycle_peer true [] in
    (
      hit_ids (row_hit (is_mine user_id) step) (λ p. p.node_id) peers,
      map (step_row (is_mine user_id) step) peers,
    )

abbrev pub same_bool : Bool → Bool → Bool
same_bool true b = b
same_bool false b = not b

abbrev pub blocked_user : Option User → Bool
blocked_user none = false
blocked_user (some user) = user.is_blocked

-- The writes to the owner's row and to its peers, with the affected nodes.
unfoldable pub set_remote_standing : ℕ → Bool → Db → List ℕ × Db
unfolding lifecycle_peer tombstoned_device_ids hit_ids
set_remote_standing user_id should_block db =
    let tombstoned =
      tombstoned_device_ids db.devices
        (map (λ (p : Peer). p.device_id) (select (is_mine user_id) db.peers)) in
    let step = lifecycle_peer should_block tombstoned in
    (
      hit_ids (row_hit (is_mine user_id) step) (λ p. p.node_id) db.peers,
      record db {
        users = set_blocked user_id should_block db.users;
        peers = map (step_row (is_mine user_id) step) db.peers;
      },
    )

module _ (fresh : Fresh) (now : ℕ) where
  -- `status` and `expire_at` are those of the import; `user_id` is the owner of the profile.
  unfoldable pub apply_remnawave_lifecycle : ℕ → RemoteStatus → Option ℕ → Db → List ℕ × Db
  unfolding remnawave_blocked set_remote_standing restore_missing_peers_for_user
  apply_remnawave_lifecycle user_id status expire_at db =
      let was_blocked = blocked_user (find_user user_id db.users) in
      let should_block = remnawave_blocked now status expire_at in
      let (affected, db') = set_remote_standing user_id should_block db in
      let (restored, db'') = restore_missing_peers_for_user fresh user_id db' in
      if same_bool was_blocked should_block
      then ([], db)
      else if was_blocked && not should_block
      then (union affected restored, db'')
      else (affected, db')

-- The affected nodes, the profiles to disable remotely, and the database.
unfoldable pub enforce_remnawave_combined_limit : RemnawaveUser → Db → (List ℕ × List String) × Db
unfolding remnawave_combined_limited block_peers load_local_total_bytes
enforce_remnawave_combined_limit row db =
    if not (remnawave_combined_limited row (load_local_total_bytes db.user_lifetime row.user_id))
    then (([], []), db)
    else let (affected, peers) = block_peers row.user_id db.peers in
      (
        (affected, if is_remote_disabled row.status then [] else row.remnawave_uuid ∷ []),
        record db { users = set_blocked row.user_id true db.users; peers = peers },
      )

unfoldable pub enforce_remnawave_combined_limit_for_user : ℕ → Db → (List ℕ × List String) × Db
unfolding enforce_remnawave_combined_limit
enforce_remnawave_combined_limit_for_user user_id db =
    elim (find_profile user_id db.remnawave_users) [
      | none ↦ (([], []), db)
      | some row ↦ enforce_remnawave_combined_limit row db
    ]

-- The answer is the affected nodes: where the profile was stale already and no peer changed, the set
-- is empty, as the last test of the source says.
unfoldable pub mark_remnawave_user_stale : String → RemnawaveUser → Db → List ℕ × Db
unfolding block_peers
mark_remnawave_user_stale reason row db =
    let (affected, peers) = block_peers row.user_id db.peers in
    (
      affected,
      record db {
        remnawave_users =
            map
              (update_if (λ (r : RemnawaveUser). r.id == row.id)
                (λ r. record r {
                  sync_status = RemoteSync.stale;
                  sync_reason = some reason;
                  sync_error = none;
                }))
              db.remnawave_users;
        users = set_blocked row.user_id true db.users;
        peers = peers;
      },
    )

unfoldable pub mark_all_stale : String → List RemnawaveUser → List ℕ → Db → List ℕ × Db
unfolding mark_remnawave_user_stale
mark_all_stale reason [] affected db = (affected, db)
mark_all_stale reason (row ∷ rows) affected db =
    let (nodes, db') = mark_remnawave_user_stale reason row db in
    mark_all_stale reason rows (union affected nodes) db'

-- With no uuid seen, every profile is missing.
unfoldable pub reconcile_missing_remnawave_users : List String → String → Db → List ℕ × Db
unfolding mark_all_stale
reconcile_missing_remnawave_users seen_uuids reason db =
    mark_all_stale reason
      (select (λ r. not (mem_text r.remnawave_uuid seen_uuids)) db.remnawave_users) [] db

abbrev pub has_peer : List Peer → Bool
has_peer [] = false
has_peer (p ∷ peers) = true

-- The owner has peers, and all of them are confirmed gone.
abbrev pub is_purgeable : List Peer → RemnawaveUser → Bool
is_purgeable peers row =
    let mine = select (is_mine row.user_id) peers in
    is_some row.delete_requested_at && has_peer mine && all (λ p. is_deleted p.status) mine

-- The deletion of an owner, with what the relationships and the foreign keys cascade to.
unfoldable pub delete_owner : ℕ → Db → Db
delete_owner user_id db = record db {
  users = select (λ u. not (u.id == user_id)) db.users;
  devices = select (λ d. not (d.user_id == user_id)) db.devices;
  peers = select (λ p. not (p.user_id == user_id)) db.peers;
  remnawave_users = select (λ r. not (r.user_id == user_id)) db.remnawave_users;
  samples =
      select (λ s. not (any (λ p. p.id == s.peer_id && is_mine user_id p) db.peers)) db.samples;
  sessions = select (λ s. not (s.user_id == user_id)) db.sessions;
  deltas = select (λ d. not (d.user_id == user_id)) db.deltas;
  user_daily = select (λ a. not (a.identity.user_id == user_id)) db.user_daily;
  user_node_daily = select (λ a. not (a.identity.user_id == user_id)) db.user_node_daily;
  user_lifetime = select (λ a. not (a.identity.user_id == user_id)) db.user_lifetime;
  user_node_lifetime = select (λ a. not (a.identity.user_id == user_id)) db.user_node_lifetime;
}

unfoldable pub purge_rows : List RemnawaveUser → ℕ → Db → ℕ × Db
unfolding delete_owner
purge_rows [] purged db = (purged, db)
purge_rows (row ∷ rows) purged db =
    let gone = is_purgeable db.peers row in
    purge_rows rows (if gone then purged + 1 else purged)
      (if gone then delete_owner row.user_id db else db)

unfoldable pub purge_confirmed_remnawave_deletes : Db → ℕ × Db
unfolding purge_rows
purge_confirmed_remnawave_deletes db = purge_rows db.remnawave_users 0 db
