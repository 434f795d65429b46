-- ===== src/Panel/Retention.antt =====
-- panel/backend/app/services/traffic_retention.py: the cleanup of raw traffic samples. The current time
-- and the days of retention that the settings hold are parameters.
pub mod Samples
use vpn_management_panel.Prelude.{
  ℕ, ◌-◌, ◌*◌, Bool, true, false, not, ◌&&◌, Option, none, some, List, ◌==◌, ltb, same_num, any,
  select, count_if, if◌then◌else◌,
}
use vpn_management_panel.Panel.Models.{Peer, PeerTrafficSample, TrafficDelta, Aggregate, Db, date}

pub record RawSampleRetentionResult : Type 0 where
  pub retention_days : ℕ
  pub deleted : ℕ
  pub disabled : Bool
  pub cutoff : Option ℕ

-- The delta that was stored with the sample.
abbrev pub is_delta_of : PeerTrafficSample → TrafficDelta → Bool
is_delta_of s d =
    d.peer_id == s.peer_id
    && d.observed_at == s.sampled_at
    && d.rx_delta_bytes == s.rx_bytes
    && d.tx_delta_bytes == s.tx_bytes

-- The rows that the join looks for: of the owner, and of the node and of the day where they are asked for.
abbrev pub is_owner_row : ℕ → Aggregate → Bool
is_owner_row user_id row = row.identity.user_id == user_id

abbrev pub is_daily_row : ℕ → ℕ → Aggregate → Bool
is_daily_row user_id day row =
    row.identity.user_id == user_id && same_num row.identity.day (some day)

abbrev pub is_node_row : ℕ → ℕ → Aggregate → Bool
is_node_row user_id node_id row =
    row.identity.user_id == user_id && same_num row.identity.node_id (some node_id)

abbrev pub is_node_daily_row : ℕ → ℕ → ℕ → Aggregate → Bool
is_node_daily_row user_id node_id day row =
    is_node_row user_id node_id row && same_num row.identity.day (some day)

-- A delta of the sample with rows of its day.
unfoldable pub is_daily_summed : Db → PeerTrafficSample → Peer → TrafficDelta → Bool
is_daily_summed db s p d =
    is_delta_of s d
    && any (is_daily_row p.user_id (date d.observed_at)) db.user_daily
    && any (is_node_daily_row p.user_id p.node_id (date d.observed_at)) db.user_node_daily

-- The joins, for the sample and its peer.
unfoldable pub is_summed : Db → PeerTrafficSample → Peer → Bool
unfolding is_daily_summed
is_summed db s p =
    p.id == s.peer_id
    && any (is_daily_summed db s p) db.deltas
    && any (is_owner_row p.user_id) db.user_lifetime
    && any (is_node_row p.user_id p.node_id) db.user_node_lifetime

-- The sample is among `_deletable_raw_sample_ids`.
unfoldable pub is_deletable : Db → ℕ → PeerTrafficSample → Bool
unfolding is_summed
is_deletable db cutoff s = any (is_summed db s) db.peers && ltb s.sampled_at cutoff

-- `now - timedelta(days=retention_days)`; no instant is before zero.
abbrev pub cutoff_at : ℕ → ℕ → ℕ
cutoff_at now retention_days = now - retention_days * 86_400_000_000

unfoldable pub cleanup_raw_traffic_samples : ℕ → ℕ → Db → RawSampleRetentionResult × Db
unfolding is_deletable
cleanup_raw_traffic_samples now retention_days db =
    let cutoff = cutoff_at now retention_days in
    let deleted = count_if (is_deletable db cutoff) db.samples in
    let answer : ℕ → RawSampleRetentionResult = λ n. record {
      retention_days = retention_days;
      deleted = n;
      disabled = false;
      cutoff = some cutoff;
    } in
    if retention_days == 0
    then (
      record { retention_days = retention_days; deleted = 0; disabled = true; cutoff = none },
      db,
    )
    else if deleted == 0
    then (answer 0, db)
    else (
      answer deleted,
      record db { samples = select (λ s. not (is_deletable db cutoff s)) db.samples },
    )
