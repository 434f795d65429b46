-- ===== src/Panel/NodeSync/Totals.antt =====
-- panel/backend/app/services/node_sync.py: a reply never revives a tombstone, and the traffic that it
-- reports is what the account's total grows by.
use vpn_management_panel.Prelude.{
  ℕ, ◌+◌, Bool, true, false, ◌&&◌, ◌||◌, ◌≡◌, refl, Option, none, List, [], ◌∷◌, ◌++◌, map, ◌==◌,
  find, any, All, update_if, arith, inl, inr, Bool-cases,
}
use vpn_management_panel.Panel.Models.{PeerStatus, Peer, Identity, Aggregate, Db, is_tombstoned}
use vpn_management_panel.Panel.Lifecycle.{total_or_zero, load_local_total_bytes}
use vpn_management_panel.Panel.NodeSync.Counters.{
  counter_delta, same_identity, increased, increase_aggregate, apply_local_traffic_aggregates,
}
use vpn_management_panel.Panel.NodeSync.PeerResult.{next_status, apply_counters}

-- A peer that was tombstoned, or whose device is, is tombstoned after any reply.
pub next_status-is_tombstoned :
    (status : PeerStatus) (device_tombstone : Bool) (reply : Option PeerStatus)
    → (is_tombstoned status || device_tombstone) ≡ true
    → is_tombstoned (next_status status device_tombstone reply) ≡ true
unfolding next_status
next_status-is_tombstoned status device_tombstone reply e = ground (arith, e)

-- A row of a lifetime table of owners has neither a node nor a day.
abbrev pub IsLifetime : Aggregate → Type 0
IsLifetime row = (row.identity.node_id ≡ none) × (row.identity.day ≡ none)

-- The total that a user's row shows.
abbrev total_in : List Aggregate → ℕ → ℕ
total_in rows user_id = total_or_zero (find (λ (r : Aggregate). r.identity.user_id == user_id) rows)

abbrev owner_identity : ℕ → Identity
owner_identity user_id = record { user_id = user_id; node_id = none; day = none }

same_owner :
    (row : Aggregate) (user_id : ℕ)
    → IsLifetime row
    → same_identity row.identity (owner_identity user_id) ≡ (row.identity.user_id == user_id)
same_owner row user_id (n, d) = rw (n, d) (ground arith)

-- Both cases of the increase, over a table of which no row or some row is the owner's.
grown :
    (rows : List Aggregate) (user_id rx tx t at : ℕ)
    → All IsLifetime rows
    → (any (λ (r : Aggregate). same_identity r.identity (owner_identity user_id)) rows ≡ true)
    → total_in
        (map
          (update_if
            (λ (r : Aggregate). same_identity r.identity (owner_identity user_id))
            (increased rx tx t at))
          rows)
        user_id
      ≡ total_in rows user_id + t
grown [] user_id rx tx t at h e = cc
grown (r ∷ rows) user_id rx tx t at (h, hs) e =
    let rest = grown rows user_id rx tx t at hs in
    let same = same_owner r user_id h in
    elim (Bool-cases (r.identity.user_id == user_id)) [
      | inl hit ↦ ground (arith, same)
      | inr miss ↦ ground (arith, same, rest)
    ]

added :
    (rows : List Aggregate) (user_id : ℕ) (row : Aggregate)
    → row.identity.user_id ≡ user_id
    → All IsLifetime rows
    → (any (λ (r : Aggregate). same_identity r.identity (owner_identity user_id)) rows ≡ false)
    → (total_in rows user_id ≡ 0) × (total_in (rows ++ row ∷ []) user_id ≡ row.total_bytes)
added [] user_id row own h e = (refl, ground arith)
added (r ∷ rows) user_id row own (h, hs) e =
    let same = same_owner r user_id h in
    let (first, second) = added rows user_id row own hs (ground arith) in
    (ground (arith, same), ground (arith, same))

increase_aggregate-total :
    (rows : List Aggregate) (user_id rx tx t at : ℕ)
    → All IsLifetime rows
    → total_in (increase_aggregate rows (owner_identity user_id) rx tx t at) user_id
      ≡ total_in rows user_id + t
unfolding increase_aggregate
increase_aggregate-total rows user_id rx tx t at h =
    let mine = any (λ (r : Aggregate). same_identity r.identity (owner_identity user_id)) rows in
    elim (Bool-cases mine) [
      | inl e ↦ rw e (grown rows user_id rx tx t at h e)
      | inr e ↦
          let row : Aggregate = record {
            identity = owner_identity user_id;
            rx_bytes = rx;
            tx_bytes = tx;
            total_bytes = t;
            updated_at = at;
          } in
          let (before, after) = added rows user_id row refl h e in
          let sum : total_in (rows ++ row ∷ []) user_id ≡ total_in rows user_id + t =
            omega (arith, before, after) in
          rw e sum
    ]

-- Where the lifetime rows have neither a node nor a day, the counters of a reply raise the total that
-- the limits of their owner are checked against by the sum of the two increments.
pub apply_counters-total :
    (peer : Peer) (rx_bytes tx_bytes now : ℕ) (db : Db)
    → All IsLifetime db.user_lifetime
    → load_local_total_bytes
        (apply_counters peer rx_bytes tx_bytes now db).1.user_lifetime
        peer.user_id
      ≡ load_local_total_bytes db.user_lifetime peer.user_id
        + (counter_delta peer.raw_rx rx_bytes + counter_delta peer.raw_tx tx_bytes)
unfolding apply_counters apply_local_traffic_aggregates load_local_total_bytes
apply_counters-total peer rx_bytes tx_bytes now db h =
    let rx = counter_delta peer.raw_rx rx_bytes in
    let tx = counter_delta peer.raw_tx tx_bytes in
    let more = increase_aggregate-total db.user_lifetime peer.user_id rx tx (rx + tx) now h in
    elim (Bool-cases (rx == 0 && tx == 0)) [
      | inl e ↦ let none_new : rx + tx ≡ 0 = ground (arith, e) in rw e (ground (arith, none_new))
      | inr e ↦ rw e more
    ]
