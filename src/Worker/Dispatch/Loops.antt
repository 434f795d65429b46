-- ===== src/Worker/Dispatch/Loops.antt =====
-- The loops over all the nodes: one node that fails ends a synchronisation of all, and no node ends a
-- health check of all.
use vpn_management_panel.Prelude.{
  suc, ◌≤◌, subst, ℕ, ◌+◌, ◌-◌, ◌≡◌, refl, ap, ◌∙◌, Bool, true, List, [], ◌∷◌, ◌++◌, length,
  count_if, arith,
}
use vpn_management_panel.Panel.NodeSnapshot.{Snapshot}
use vpn_management_panel.Worker.NodeClient.{
  Exception, error, raise, catch-raised, message_of, Io, done, raised, ◌>>=◌, ◌>>◌, pure, catch,
  >>=-inv, >>=-raised, >>=-done, catch-total, done-answer, done-world, trimmed, NodeAgent,
}
use vpn_management_panel.Worker.Handlers.{
  SyncResult, Report, apply_snapshot, peer_results, connection,
}
use vpn_management_panel.Worker.Dispatch.{
  Backend, attempt, settle, Heartbeat, is_reached, reached, unreached, synced_all, checked_all,
  sync_snapshot, sync_each, sync_all, heartbeat_snapshot, heartbeat_each, handle_health_check_all,
}

count_if-all :
    (results : List SyncResult) → count_if (λ (r : SyncResult). true) results ≡ length results
count_if-all [] = refl
count_if-all (r ∷ results) = rw (count_if-all results) refl

count_if-≤ : {A : Type 0} (t : A → Bool) (xs : List A) → count_if t xs ≤ length xs
count_if-≤ t [] = omega arith
count_if-≤ t (x ∷ xs) = let rest = count_if-≤ t xs in ground arith

counts :
    (results : List SyncResult) (nodes succeeded failed : ℕ)
    → synced_all
        (length results)
        (count_if (λ (r : SyncResult). true) results)
        (length results - count_if (λ (r : SyncResult). true) results)
      ≡ synced_all nodes succeeded failed
    → (succeeded ≡ nodes) × (failed ≡ 0)
counts results nodes succeeded failed e =
    let all : length results ≡ nodes = cc in
    let good : count_if (λ (r : SyncResult). true) results ≡ succeeded = cc in
    let bad : length results - count_if (λ (r : SyncResult). true) results ≡ failed = cc in
    omega (arith, all, good, bad, count_if-all results)

module _ {S : Type 0} (backend : Backend S) (agent : NodeAgent S) where
  abbrev rest_of : List Snapshot → SyncResult → Io S (List SyncResult)
  rest_of snapshots result =
      sync_each backend agent snapshots >>= λ results. pure (result ∷ results)

  -- A node whose synchronisation raised is reported as failed, and then the exception is a RuntimeError.
  sync_snapshot-raised :
      (snapshot : Snapshot) (s s₁ s₂ : S) {e : Exception}
      → apply_snapshot agent snapshot s ≡ raised e s₁
      → backend.report_sync_result snapshot.id (Report.failed (message_of e)) s₁ ≡ done tt s₂
      → sync_snapshot backend agent snapshot s ≡ raised (error (message_of e)) s₂
  unfolding sync_snapshot attempt
  sync_snapshot-raised snapshot s s₁ s₂ {e} stop reported =
      let run = apply_snapshot agent snapshot >>= λ result. pure (Report.succeeded result) in
      let tried : attempt backend agent snapshot s ≡ done (Report.failed (message_of e)) s₁ =
        catch-raised run (λ e. pure (Report.failed (message_of e)))
          (>>=-raised (apply_snapshot agent snapshot) (λ result. pure (Report.succeeded result))
            stop) in
      >>=-done (attempt backend agent snapshot)
        (λ result. backend.report_sync_result snapshot.id result >> settle backend agent result)
        tried
      ∙ >>=-done (backend.report_sync_result snapshot.id (Report.failed (message_of e)))
          (λ _. raise (error (message_of e))) reported

  sync_each-stops :
      (before after : List Snapshot) (snapshot : Snapshot) (s s₁ s₂ : S) {results : List SyncResult}
      {e : Exception}
      → sync_each backend agent before s ≡ done results s₁
      → sync_snapshot backend agent snapshot s₁ ≡ raised e s₂
      → sync_each backend agent (before ++ snapshot ∷ after) s ≡ raised e s₂
  unfolding sync_each
  sync_each-stops [] after snapshot s s₁ s₂ run stop =
      let same : s ≡ s₁ = done-world run in
      >>=-raised (sync_snapshot backend agent snapshot) (rest_of after)
        (ap (sync_snapshot backend agent snapshot) same ∙ stop)
  sync_each-stops (first ∷ before) after snapshot s s₁ s₂ run stop =
      let (r, s', own, more) = >>=-inv (sync_snapshot backend agent first) (rest_of before) run in
      let (rs, s'', rest, last) =
        >>=-inv (sync_each backend agent before) (λ results. pure (r ∷ results)) more in
      let stopped =
        sync_each-stops before after snapshot s' s₁ s₂
          (subst (λ (w : S). sync_each backend agent before s' ≡ done rs w) (done-world last) rest)
          stop in
      >>=-done (sync_snapshot backend agent first) (rest_of (before ++ snapshot ∷ after)) own
      ∙ >>=-raised (sync_each backend agent (before ++ snapshot ∷ after))
          (λ results. pure (r ∷ results)) stopped

  -- When any request to a node raises in a synchronisation of all the nodes, and the backend takes the
  -- report of the node's failure, the whole command raises with that node's message in the world that
  -- the report left: whatever nodes come after it are not asked, and no counts are answered.
  pub sync_all-raised :
      (before after : List Snapshot) (snapshot : Snapshot) (s s₁ s₂ s₃ s₄ : S)
      {results : List SyncResult} {e : Exception}
      → backend.fetch_sync_snapshot s ≡ done (before ++ snapshot ∷ after) s₁
      → sync_each backend agent before s₁ ≡ done results s₂
      → apply_snapshot agent snapshot s₂ ≡ raised e s₃
      → backend.report_sync_result snapshot.id (Report.failed (message_of e)) s₃ ≡ done tt s₄
      → sync_all backend agent s ≡ raised (error (message_of e)) s₄
  unfolding sync_all
  sync_all-raised before after snapshot s s₁ s₂ s₃ s₄ fetched run stop reported =
      let failed = sync_snapshot-raised snapshot s₂ s₃ s₄ stop reported in
      let stopped = sync_each-stops before after snapshot s₁ s₂ s₄ run failed in
      >>=-done backend.fetch_sync_snapshot _ fetched
      ∙ >>=-raised (sync_each backend agent (before ++ snapshot ∷ after)) _ stopped

  -- A synchronisation of all the nodes that answers counts no failure: as many succeeded as there are
  -- nodes.
  pub sync_all-counts :
      (s s' : S) (nodes succeeded failed : ℕ)
      → sync_all backend agent s ≡ done (synced_all nodes succeeded failed) s'
      → (succeeded ≡ nodes) × (failed ≡ 0)
  unfolding sync_all
  sync_all-counts s s' nodes succeeded failed run =
      let (snapshots, s₁, fetched, more) = >>=-inv backend.fetch_sync_snapshot _ run in
      let (results, s₂, each, last) = >>=-inv (sync_each backend agent snapshots) _ more in
      counts results nodes succeeded failed (done-answer last)

  -- The backend takes every report of a heartbeat.
  abbrev pub TakesHeartbeats : Type 0
  TakesHeartbeats =
      (id : ℕ) (result : Heartbeat) (s : S)
      → (s' : S) × (backend.report_heartbeat_result id result s ≡ done tt s')

  heartbeat_snapshot-done :
      (snapshot : Snapshot) (s : S)
      → TakesHeartbeats
      → (result : Heartbeat) × (s' : S) × (heartbeat_snapshot backend agent snapshot s
          ≡ done result s')
  unfolding heartbeat_snapshot
  heartbeat_snapshot-done snapshot s takes =
      let c = trimmed (connection snapshot) in
      let check : Io S Heartbeat =
        agent.get_health c >> (agent.get_dump c >>= λ dump. pure (reached (peer_results dump))) in
      let (result, s₁, checked) = catch-total check (λ e. unreached (message_of e)) s in
      let (s₂, reported) = takes snapshot.id result s₁ in
      (
        result,
        s₂,
        >>=-done (catch check (λ e. pure (unreached (message_of e))))
              (λ result. backend.report_heartbeat_result snapshot.id result >> pure result) checked
            ∙ >>=-done (backend.report_heartbeat_result snapshot.id result) (λ _. pure result)
                reported,
      )

  heartbeat_each-done :
      (snapshots : List Snapshot) (s : S)
      → TakesHeartbeats
      → (results : List Heartbeat) × (s' : S) × (heartbeat_each backend agent snapshots s
          ≡ done results s')
        × (length results ≡ length snapshots)
  unfolding heartbeat_each
  heartbeat_each-done [] s takes = ([], s, refl, refl)
  heartbeat_each-done (snapshot ∷ snapshots) s takes =
      let (r, s₁, own) = heartbeat_snapshot-done snapshot s takes in
      let (rs, s₂, rest, as_many) = heartbeat_each-done snapshots s₁ takes in
      (
        r ∷ rs,
        s₂,
        >>=-done (heartbeat_snapshot backend agent snapshot)
              (λ result.
                heartbeat_each backend agent snapshots >>= λ results. pure (result ∷ results))
              own
            ∙ >>=-done (heartbeat_each backend agent snapshots) (λ results. pure (r ∷ results))
                rest,
        ap suc as_many,
      )

  -- When the backend answers with its nodes and takes every report, a health check of all the nodes
  -- answers, whatever the nodes do, with the counts of reached and unreached nodes adding up to the nodes.
  pub handle_health_check_all-done :
      (snapshots : List Snapshot) (s s₁ : S)
      → TakesHeartbeats
      → backend.fetch_sync_snapshot s ≡ done snapshots s₁
      → (reachable unreachable : ℕ) × (s' : S) × (handle_health_check_all backend agent s
          ≡ done (checked_all (length snapshots) reachable unreachable) s')
        × (reachable + unreachable ≡ length snapshots)
  unfolding handle_health_check_all
  handle_health_check_all-done snapshots s s₁ takes fetched =
      let (results, s₂, each, as_many) = heartbeat_each-done snapshots s₁ takes in
      let reachable = count_if is_reached results in
      (
        reachable,
        length snapshots - reachable,
        s₂,
        >>=-done backend.fetch_sync_snapshot _ fetched
            ∙ >>=-done (heartbeat_each backend agent snapshots) _ each
            ∙ ap (λ (n : ℕ). done (checked_all n reachable (n - reachable)) s₂) as_many,
        omega (arith, as_many, count_if-≤ is_reached results),
      )
