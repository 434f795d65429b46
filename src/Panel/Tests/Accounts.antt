-- ===== src/Panel/Tests/Accounts.antt =====
-- Lifecycle passes and the policy.
use vpn_management_panel.Prelude.{
  ℕ, Option, List, not, ◌&&◌, ◌≡◌, refl, none, some, [], map, In, inl,
}
use vpn_management_panel.Panel.Models.{Peer, RemnawaveUser, Db, is_lifecycle_active}
use vpn_management_panel.Panel.Errors.{Result, ok, err, not_found}
use vpn_management_panel.Panel.Accounts.{guarded_user, block_user, delete_user}
use vpn_management_panel.Panel.Accounts.Blocked.{block_user-IsBlocked}
use vpn_management_panel.Panel.Lifecycle.{
  desired_status, load_local_total_bytes, apply_local_lifecycle_state,
  enforce_local_lifecycle_for_user, local_user_expired,
}
use vpn_management_panel.Panel.Lifecycle.Outcome.{
  IsBlocked, apply_local_lifecycle_state-IsBlocked, local_account_status-desired_status,
}
use vpn_management_panel.Panel.Lifecycle.Restored.{enforce_local_lifecycle_for_user-is_active_code}
use vpn_management_panel.Panel.Policy.{
  Status, is_active_code, local_account_status, fresh_account_status,
}
use vpn_management_panel.Panel.Remnawave.{purge_confirmed_remnawave_deletes}
use vpn_management_panel.Panel.Remnawave.Purged.{purge_confirmed_remnawave_deletes-In}
use vpn_management_panel.Panel.Tests.{alice, laptop_peer, imported, small, fresh}

-- After 100 alice's account is expired.
apply_local_lifecycle_state-IsBlocked_example :
    IsBlocked 7 (apply_local_lifecycle_state fresh 100 alice none small).1
unfolding desired_status local_user_expired
apply_local_lifecycle_state-IsBlocked_example =
    apply_local_lifecycle_state-IsBlocked fresh 100 alice none small refl

enforce_local_lifecycle_for_user-is_active_code_example :
    (s : Status) × (fresh_account_status 60 7 (enforce_local_lifecycle_for_user fresh 60 7 small).1
      ≡ ok s)
    × (is_active_code s.code
        ≡ is_lifecycle_active (desired_status 60 alice (load_local_total_bytes [] 7)))
enforce_local_lifecycle_for_user-is_active_code_example =
    enforce_local_lifecycle_for_user-is_active_code fresh 60 small alice refl refl

local_account_status-desired_status_example :
    is_active_code (local_account_status 60 alice 50).code
    ≡ (is_lifecycle_active (desired_status 60 alice 50) && not alice.is_blocked)
local_account_status-desired_status_example = local_account_status-desired_status 60 alice 50

-- The deletion of the imported account was asked for; the laptop's peer is still live.
abbrev leaving : Db
leaving = record imported {
  remnawave_users =
      map (λ (r : RemnawaveUser). record r { delete_requested_at = some 9 })
        imported.remnawave_users;
}

purge_confirmed_remnawave_deletes-In_example :
    In laptop_peer (purge_confirmed_remnawave_deletes leaving).1.peers
purge_confirmed_remnawave_deletes-In_example =
    purge_confirmed_remnawave_deletes-In leaving laptop_peer (inl refl) refl

-- Alice's account is not imported, so her row is what a request writes; an unknown account is refused.
found_alice : guarded_user 7 small ≡ ok alice
found_alice = refl

unknown : delete_user 99 small ≡ err not_found
unfolding delete_user
unknown = refl

abbrev peers_left : Result (List ℕ × Db) → Option (List Peer)
peers_left (ok (nodes, db)) = some db.peers
peers_left (err e) = none

-- Without alice the database has none of her peers.
alice_gone : peers_left (delete_user 7 small) ≡ some []
unfolding delete_user
alice_gone = refl

block_user-IsBlocked_example :
    (nodes : List ℕ) × (after : Db) × (block_user fresh 60 7 small ≡ ok (nodes, after))
    × IsBlocked 7 after
block_user-IsBlocked_example = block_user-IsBlocked fresh 60 small alice refl refl
