-- ===== src/Panel/Remnawave/Purged.antt =====
-- panel/backend/app/services/remnawave_sync.py: which owners the purge of deleted accounts takes.
use vpn_management_panel.Prelude.{
  In-select, ℕ, ◌+◌, Bool, true, false, not, ◌≡◌, sym, ap, subst, List, [], ◌∷◌, ◌==◌, all, select,
  In, inl, inr, arith, if◌then◌else◌, Bool-cases,
}
use vpn_management_panel.Panel.Models.{Peer, RemnawaveUser, Db, is_deleted}
use vpn_management_panel.Panel.Remnawave.{
  is_mine, is_purgeable, delete_owner, purge_rows, purge_confirmed_remnawave_deletes,
}

all-In :
    (peers : List Peer) (p : Peer)
    → In p peers
    → all (λ (q : Peer). is_deleted q.status) peers ≡ true
    → is_deleted p.status ≡ true
all-In [] p m e = absurd m
all-In (q ∷ peers) p (inl same) e =
    let status : q.status ≡ p.status = ap (λ (r : Peer). r.status) (sym same) in ground arith
all-In (q ∷ peers) p (inr m) e = all-In peers p m (ground arith)

-- The owner of a peer that is not confirmed gone is not purged.
unconfirmed-is_purgeable :
    (peers : List Peer) (row : RemnawaveUser) (p : Peer)
    → In p peers
    → is_deleted p.status ≡ false
    → is_purgeable peers row ≡ true
    → is_mine row.user_id p ≡ false
unconfirmed-is_purgeable peers row p m e gone = elim (Bool-cases (is_mine row.user_id p)) [
  | inr other ↦ other
  | inl mine ↦
      let there = In-select (is_mine row.user_id) peers p m mine in
      let every : all (λ (q : Peer). is_deleted q.status) (select (is_mine row.user_id) peers)
          ≡ true =
        ground arith in
      let dead = all-In (select (is_mine row.user_id) peers) p there every in cc
]

delete_owner-In :
    (user_id : ℕ) (db : Db) (p : Peer)
    → In p db.peers
    → is_mine user_id p ≡ false
    → In p (delete_owner user_id db).peers
unfolding delete_owner
delete_owner-In user_id db p m e =
    In-select (λ (q : Peer). not (q.user_id == user_id)) db.peers p m (ground (arith, e))

purge_rows-In :
    (rows : List RemnawaveUser) (purged : ℕ) (db : Db) (p : Peer)
    → In p db.peers
    → is_deleted p.status ≡ false
    → In p (purge_rows rows purged db).1.peers
unfolding purge_rows
purge_rows-In [] purged db p m e = m
purge_rows-In (row ∷ rows) purged db p m e =
    let after = λ (b : Bool).
      purge_rows rows (if b then purged + 1 else purged)
        (if b then delete_owner row.user_id db else db) in
    elim (Bool-cases (is_purgeable db.peers row)) [
      | inl gone ↦
          subst (λ (b : Bool). In p (after b).1.peers) (sym gone)
            (purge_rows-In rows (purged + 1) (delete_owner row.user_id db) p
              (delete_owner-In row.user_id db p m
                (unconfirmed-is_purgeable db.peers row p m e gone))
              e)
      | inr stays ↦
          subst (λ (b : Bool). In p (after b).1.peers) (sym stays)
            (purge_rows-In rows purged db p m e)
    ]

-- The purge of accounts that were deleted remotely takes no peer that is not confirmed deleted.
pub purge_confirmed_remnawave_deletes-In :
    (db : Db) (p : Peer)
    → In p db.peers
    → is_deleted p.status ≡ false
    → In p (purge_confirmed_remnawave_deletes db).1.peers
unfolding purge_confirmed_remnawave_deletes
purge_confirmed_remnawave_deletes-In db p m e = purge_rows-In db.remnawave_users 0 db p m e
