-- ===== src/Panel/NodeResults/Heartbeat/Repeated.antt =====
-- panel/backend/app/routers/internal_worker_parts/nodes.py: how often a heartbeat writes the node's
-- timestamps.
use vpn_management_panel.Prelude.{
  ℕ, ◌+◌, ◌<◌, leb, ap, ◌∙◌, ◌⊎◌, inl, inr, Bool-cases, Option-cases, String, true, false, ◌≡◌,
  refl, Option, none, some, same_text, str_eq_iff, arith,
}
use vpn_management_panel.Panel.Models.{Node}
use vpn_management_panel.Panel.NodeResults.Heartbeat.{
  HeartbeatResult, is_interval_over, heartbeat_timestamp_due, status_changed,
  apply_node_heartbeat_result, heartbeat_error, reachability, health,
}

same_text_refl : (o : Option String) → same_text o o ≡ true
same_text_refl none = refl
same_text_refl (some s) = ground (arith, str_eq_iff s s)

unchanged :
    (sent : HeartbeatResult) (observed_at : ℕ) (node : Node)
    → status_changed (apply_node_heartbeat_result sent observed_at node) sent ≡ false
unfolding status_changed apply_node_heartbeat_result
unchanged sent observed_at node = ground (
  arith,
  (str_eq_iff (reachability sent.succeeded) (reachability sent.succeeded)).1,
  (str_eq_iff (health sent.succeeded) (health sent.succeeded)).1,
  same_text_refl (heartbeat_error sent),
)

-- A heartbeat that is delivered again writes nothing new, as long as the interval that began with the
-- stored timestamp is not over.
pub apply_node_heartbeat_result-again :
    (sent : HeartbeatResult) (observed_at later : ℕ) (node : Node)
    → is_interval_over (apply_node_heartbeat_result sent observed_at node).last_heartbeat_at later
      ≡ false
    → apply_node_heartbeat_result sent later (apply_node_heartbeat_result sent observed_at node)
      ≡ apply_node_heartbeat_result sent observed_at node
unfolding apply_node_heartbeat_result heartbeat_timestamp_due
apply_node_heartbeat_result-again sent observed_at later node e =
    let same = unchanged sent observed_at node in rw (same, e) refl

same_text_iff : (a b : Option String) → same_text a b ≡ true → a ≡ b
same_text_iff none none e = refl
same_text_iff (some a) (some b) e = ap some ((str_eq_iff a b).0 e)
same_text_iff none (some b) e = cc
same_text_iff (some a) none e = cc

-- The node's state is the one that the result brings.
abbrev pub IsUnchanged : HeartbeatResult → Node → Type 0
IsUnchanged sent node =
    (node.reachability_status ≡ reachability sent.succeeded)
    × (node.health_status ≡ health sent.succeeded)
    × (node.last_heartbeat_error ≡ heartbeat_error sent)

status_changed-false :
    (sent : HeartbeatResult) (node : Node)
    → status_changed node sent ≡ false
    → IsUnchanged sent node
unfolding status_changed
status_changed-false sent node e = (
  (str_eq_iff node.reachability_status (reachability sent.succeeded)).0 (ground arith),
  (str_eq_iff node.health_status (health sent.succeeded)).0 (ground arith),
  same_text_iff node.last_heartbeat_error (heartbeat_error sent) (ground arith),
)

unchanged_state :
    (sent : HeartbeatResult) (node : Node)
    → IsUnchanged sent node
    → status_changed node sent ≡ false
unfolding status_changed
unchanged_state sent node (reach, own, error) =
    let same : same_text node.last_heartbeat_error (heartbeat_error sent) ≡ true =
      ap (λ (t : Option String). same_text t (heartbeat_error sent)) error
      ∙ same_text_refl (heartbeat_error sent) in
    rw
      (
        (str_eq_iff node.reachability_status (reachability sent.succeeded)).1 reach,
        (str_eq_iff node.health_status (health sent.succeeded)).1 own,
        same,
      )
      refl

-- A heartbeat leaves the time of the last one exactly where it is less than 60 seconds before the
-- observation and the result brings no change of the node's state; everywhere else it becomes the time
-- of the observation. Times are in microseconds.
pub apply_node_heartbeat_result-last_heartbeat_at :
    (sent : HeartbeatResult) (observed_at : ℕ) (node : Node)
    → ((last : ℕ)
        → node.last_heartbeat_at ≡ some last
        → observed_at < last + 60_000_000
        → IsUnchanged sent node
        → (apply_node_heartbeat_result sent observed_at node).last_heartbeat_at ≡ some last)
      × (((apply_node_heartbeat_result sent observed_at node).last_heartbeat_at ≡ some observed_at)
          ⊎ ((last : ℕ) × (node.last_heartbeat_at ≡ some last)
              × (observed_at < last + 60_000_000)
              × IsUnchanged sent node))
unfolding apply_node_heartbeat_result heartbeat_timestamp_due
apply_node_heartbeat_result-last_heartbeat_at sent observed_at node = (
  λ last stored recent same.
      let state = unchanged_state sent node same in
      let early : leb (last + 60_000_000) observed_at ≡ false = ground arith in
      rw (state, stored, early) refl,
  elim (Bool-cases (status_changed node sent)) [
    | inl changed ↦ inl (rw changed refl)
    | inr same ↦ elim (Option-cases node.last_heartbeat_at) [
      | inl never ↦ inl (rw (same, never) refl)
      | inr (last, stored) ↦ elim (Bool-cases (leb (last + 60_000_000) observed_at)) [
        | inl over ↦ inl (rw (same, stored, over) refl)
        | inr early ↦
            let recent : observed_at < last + 60_000_000 = ground arith in
            inr (last, stored, recent, status_changed-false sent node same)
      ]
    ]
  ],
)
