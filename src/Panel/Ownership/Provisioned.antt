-- ===== src/Panel/Ownership/Provisioned.antt =====
-- Pending peers keep the invariant of ownership.
use vpn_management_panel.Prelude.{
  ℕ, ◌⊎◌, true, ◌≡◌, refl, ◌∙◌, Option, none, some, List, [], ◌∷◌, ◌++◌, map, arith, select, All,
  All-select, truthy, inl, inr,
}
use vpn_management_panel.Panel.Models.{Node, Device, Db}
use vpn_management_panel.Panel.Limits.{is_live_device_of}
use vpn_management_panel.Panel.Provisioning.{
  Fresh, new_peer, insert_peer, create_pending_peer, create_on_nodes,
  create_pending_peers_for_device, create_for_devices, create_pending_peers_for_node,
  live_device_filters, restore_devices, restore_missing_peers_for_user, list_live_devices,
}
use vpn_management_panel.Panel.Ownership.{IsSafe, IsWellFormed}
use vpn_management_panel.Panel.Ownership.Tables.{IsLoaded, AreDistinct-IsLoaded, IsOwned-append}

-- The invariant, with the table of devices as it was.
pub record Keeps (devices : List Device) (db : Db) : Type 0 where
  pub same : db.devices ≡ devices
  pub owned : IsWellFormed db

module _ (fresh : Fresh) where
  create_pending_peer-devices :
      (node_id : ℕ) (d : Device) (db : Db)
      → (create_pending_peer fresh node_id d db).1.devices ≡ db.devices
  unfolding create_pending_peer insert_peer
  create_pending_peer-devices node_id d db = ground arith

  new_peer-IsSafe :
      (node_id : ℕ) (d : Device) (devices : List Device)
      → IsLoaded devices d
      → d.deleted_at ≡ none
      → truthy d.vpn_ip ≡ true
      → IsSafe devices (new_peer fresh node_id d)
  new_peer-IsSafe node_id d devices l a b = ground arith

  create_pending_peer-peers :
      (node_id : ℕ) (d : Device) (db : Db)
      → ((create_pending_peer fresh node_id d db).1.peers ≡ db.peers)
        ⊎ (((create_pending_peer fresh node_id d db).1.peers
              ≡ db.peers ++ new_peer fresh node_id d ∷ [])
            × (d.deleted_at ≡ none)
            × (truthy d.vpn_ip ≡ true))
  unfolding create_pending_peer insert_peer
  create_pending_peer-peers node_id d db = ground arith

  create_pending_peer-Keeps :
      (devices : List Device) (node_id : ℕ) (d : Device) (db : Db)
      → IsLoaded devices d
      → Keeps devices db
      → Keeps devices (create_pending_peer fresh node_id d db).1
  create_pending_peer-Keeps devices node_id d db l k = record {
    same = create_pending_peer-devices node_id d db ∙ k.same;
    owned =
        rw (create_pending_peer-devices node_id d db)
          (elim (create_pending_peer-peers node_id d db) [
            | inl e ↦ rw e k.owned
            | inr (e, a, b) ↦ rw e (
                IsOwned-append (new_peer fresh node_id d)
                  (new_peer-IsSafe node_id d db.devices (rw k.same l) a b) k.owned)
          ]);
  }

  create_on_nodes-Keeps :
      (devices : List Device) (nodes : List ℕ) (d : Device) (created : List ℕ) (db : Db)
      → IsLoaded devices d
      → Keeps devices db
      → Keeps devices (create_on_nodes fresh nodes d created db).1
  unfolding create_on_nodes
  create_on_nodes-Keeps devices [] d created db l k = k
  create_on_nodes-Keeps devices (node_id ∷ nodes) d created db l k =
      create_on_nodes-Keeps devices nodes d _ (create_pending_peer fresh node_id d db).1 l
        (create_pending_peer-Keeps devices node_id d db l k)

  pub create_pending_peers_for_device-Keeps :
      (devices : List Device) (d : Device) (node_ids : Option (List ℕ)) (db : Db)
      → IsLoaded devices d
      → Keeps devices db
      → Keeps devices (create_pending_peers_for_device fresh d node_ids db).1
  unfolding create_pending_peers_for_device
  create_pending_peers_for_device-Keeps devices d none db =
      create_on_nodes-Keeps devices (map (λ (n : Node). n.id) db.nodes) d [] db
  create_pending_peers_for_device-Keeps devices d (some nodes) db =
      create_on_nodes-Keeps devices nodes d [] db

  create_for_devices-Keeps :
      (devices : List Device) (node_id : ℕ) (ds : List Device) (created : List ℕ) (db : Db)
      → All (IsLoaded devices) ds
      → Keeps devices db
      → Keeps devices (create_for_devices fresh node_id ds created db).1
  unfolding create_for_devices
  create_for_devices-Keeps devices node_id [] created db l k = k
  create_for_devices-Keeps devices node_id (d ∷ ds) created db (l, ls) k =
      create_for_devices-Keeps devices node_id ds _ (create_pending_peer fresh node_id d db).1 ls
        (create_pending_peer-Keeps devices node_id d db l k)

  restore_devices-Keeps :
      (devices ds : List Device) (created : List ℕ) (db : Db)
      → All (IsLoaded devices) ds
      → Keeps devices db
      → Keeps devices (restore_devices fresh ds created db).1
  unfolding restore_devices
  restore_devices-Keeps devices [] created db l k = k
  restore_devices-Keeps devices (d ∷ ds) created db (l, ls) k =
      restore_devices-Keeps devices ds _ (create_pending_peers_for_device fresh d none db).1 ls
        (create_pending_peers_for_device-Keeps devices d none db l k)

  -- Filling a node with peers of the live devices keeps the invariant of ownership.
  pub create_pending_peers_for_node-IsWellFormed :
      (node : Node) (db : Db)
      → IsWellFormed db
      → IsWellFormed (create_pending_peers_for_node fresh node db).1
  unfolding create_pending_peers_for_node
  create_pending_peers_for_node-IsWellFormed node db o =
      (create_for_devices-Keeps db.devices node.id
        (select (live_device_filters db.users) db.devices) [] db
        (All-select (IsLoaded db.devices) (live_device_filters db.users) db.devices
          (AreDistinct-IsLoaded db.devices o.distinct))
        (record { same = refl; owned = o })).owned

  -- Restoring the peers that an owner's live devices miss keeps the invariant and the devices.
  pub restore_missing_peers_for_user-Keeps :
      (user_id : ℕ) (db : Db)
      → IsWellFormed db
      → Keeps db.devices (restore_missing_peers_for_user fresh user_id db).1
  unfolding restore_missing_peers_for_user list_live_devices
  restore_missing_peers_for_user-Keeps user_id db o =
      restore_devices-Keeps db.devices (select (is_live_device_of user_id) db.devices) [] db
        (All-select (IsLoaded db.devices) (is_live_device_of user_id) db.devices
          (AreDistinct-IsLoaded db.devices o.distinct))
        (record { same = refl; owned = o })
