-- ===== src/Panel/NodeSync/Counters.antt =====
-- panel/backend/app/services/node_sync.py: traffic counters and their aggregates.
use vpn_management_panel.Prelude.{
  ℕ, ◌+◌, ◌-◌, Bool, false, ◌&&◌, Option, none, some, List, [], ◌∷◌, ◌++◌, map, ◌==◌, ltb, same_num,
  any, update_if, if◌then◌else◌,
}
use vpn_management_panel.Panel.Models.{Peer, Identity, Aggregate, Db, date}

-- After a restart of the node its counters begin at zero again.
unfoldable pub counter_delta : Option ℕ → ℕ → ℕ
counter_delta none current = 0
counter_delta (some previous) current = if ltb current previous then current else current - previous

-- `raw is not None and current < raw`
unfoldable pub reset_detected : Option ℕ → ℕ → Bool
reset_detected none current = false
reset_detected (some raw) current = ltb current raw

abbrev pub same_identity : Identity → Identity → Bool
same_identity a b = a.user_id == b.user_id && same_num a.node_id b.node_id && same_num a.day b.day

abbrev pub increased : ℕ → ℕ → ℕ → ℕ → Aggregate → Aggregate
increased rx_delta tx_delta total_delta observed_at aggregate = record aggregate {
  rx_bytes = aggregate.rx_bytes + rx_delta;
  tx_bytes = aggregate.tx_bytes + tx_delta;
  total_bytes = aggregate.total_bytes + total_delta;
  updated_at = observed_at;
}

unfoldable pub increase_aggregate : List Aggregate → Identity → ℕ → ℕ → ℕ → ℕ → List Aggregate
increase_aggregate rows identity rx_delta tx_delta total_delta observed_at =
    let mine = λ (row : Aggregate). same_identity row.identity identity in
    if any mine rows
    then map (update_if mine (increased rx_delta tx_delta total_delta observed_at)) rows
    else rows
      ++ record {
        identity = identity;
        rx_bytes = rx_delta;
        tx_bytes = tx_delta;
        total_bytes = total_delta;
        updated_at = observed_at;
      }
        ∷ []

unfoldable pub apply_local_traffic_aggregates : Peer → ℕ → ℕ → ℕ → Db → Db
unfolding increase_aggregate
apply_local_traffic_aggregates peer observed_at rx_delta tx_delta db =
    let grow = λ (rows : List Aggregate) (node_id day : Option ℕ).
      increase_aggregate rows (record { user_id = peer.user_id; node_id = node_id; day = day })
        rx_delta tx_delta (rx_delta + tx_delta) observed_at in
    let day = date observed_at in
    record db {
      user_daily = grow db.user_daily none (some day);
      user_node_daily = grow db.user_node_daily (some peer.node_id) (some day);
      user_lifetime = grow db.user_lifetime none none;
      user_node_lifetime = grow db.user_node_lifetime (some peer.node_id) none;
    }
