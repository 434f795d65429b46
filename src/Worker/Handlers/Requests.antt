-- ===== src/Worker/Handlers/Requests.antt =====
-- panel/worker/app/handlers.py: the requests to a node of a synchronisation, in their order, whatever the
-- node answers. They are those of the worker's own code, run with an agent that writes each one down.
use vpn_management_panel.Prelude.{
  String, ◌≡◌, refl, sym, ap, ◌∙◌, inl, inr, List, [], ◌∷◌, ◌++◌, map, Bool-cases, ◌<>◌,
  if◌then◌else◌,
}
use vpn_management_panel.Panel.NodeSnapshot.{Fields, PeerPayload, Snapshot}
use vpn_management_panel.Worker.NodeClient.{
  done, raised, Exception, Outcome, Io, pure, raise, catch-done, catch-raised, Outcome-cases,
  done-world, done-answer, trimmed, >>=-inv, Connection, PeerConfig, AgentStatus, NodeAgent,
  put_peers, delete_peer,
}
use vpn_management_panel.Worker.Handlers.{
  SyncResult, has_status, active_peers, peers_to_delete, peers_to_put, delete_now,
  delete_peer_if_present, delete_peers, reconcile, apply_snapshot, connection,
}

pub data Request : Type 0 where
  health_read : Request
  status_read : Request
  dump_read : Request
  interface_put : Fields → Request
  peer_put : PeerConfig → Request
  -- of a path
  deleted : String → Request

-- The requests so far, and the world.
abbrev pub Traced : Type 0 → Type 0
Traced S = List Request × S

module _ {S : Type 0} where
  abbrev pub traced_run : {A : Type 0} → Request → Io S A → Io (Traced S) A
  traced_run r m (sent, s) = elim (m s) [
    | done a s' ↦ done a (sent ++ r ∷ [], s')
    | raised e s' ↦ raised e (sent ++ r ∷ [], s')
  ]

  abbrev pub traced : NodeAgent S → NodeAgent (Traced S)
  traced agent = record {
    get_health = λ c. traced_run health_read (agent.get_health c);
    get_status = λ c. traced_run status_read (agent.get_status c);
    get_dump = λ c. traced_run dump_read (agent.get_dump c);
    put_interface = λ c sent. traced_run (interface_put sent) (agent.put_interface c sent);
    put_peer = λ c p. traced_run (peer_put p) (agent.put_peer c p);
    delete = λ c path. traced_run (deleted path) (agent.delete c path);
  }

  abbrev world : {A : Type 0} → Outcome S A → S
  world (done a s) = s
  world (raised e s) = s

  traced_run-done :
      {A : Type 0} (r : Request) (m : Io S A) (t t' : Traced S) {a : A}
      → traced_run r m t ≡ done a t'
      → (m t.1 ≡ done a t'.1) × (t'.0 ≡ t.0 ++ r ∷ [])
  traced_run-done {A = A} r m t t' {a} run = elim (Outcome-cases (m t.1)) [
    | inl (e, s', q) ↦
        let own : traced_run r m t ≡ raised e (t.0 ++ r ∷ [], s') = rw (traced_run, q) refl in
        let both : raised e (t.0 ++ r ∷ [], s') ≡ done a t' = sym own ∙ run in cc
    | inr (b, s', q) ↦
        let own : traced_run r m t ≡ done b (t.0 ++ r ∷ [], s') = rw (traced_run, q) refl in
        let both : done b (t.0 ++ r ∷ [], s') ≡ done a t' = sym own ∙ run in
        let there : (t.0 ++ r ∷ [], s') ≡ t' = done-world both in
        let answer : b ≡ a = done-answer both in
        (
          q ∙ ap (λ (x : A). done x s') answer ∙ ap (λ (w : Traced S). done a w.1) there,
          sym (ap (λ (w : Traced S). w.0) there),
        )
  ]

  traced_run-raised :
      {A : Type 0} (r : Request) (m : Io S A) (t t' : Traced S) {e : Exception}
      → traced_run r m t ≡ raised e t'
      → t'.0 ≡ t.0 ++ r ∷ []
  traced_run-raised r m t t' {e} run = elim (Outcome-cases (m t.1)) [
    | inl (f, s', q) ↦
        let own : traced_run r m t ≡ raised f (t.0 ++ r ∷ [], s') = rw (traced_run, q) refl in
        let both : raised f (t.0 ++ r ∷ [], s') ≡ raised e t' = sym own ∙ run in
        let there : (t.0 ++ r ∷ [], s') ≡ t' = cc in sym (ap (λ (w : Traced S). w.0) there)
    | inr (b, s', q) ↦
        let own : traced_run r m t ≡ done b (t.0 ++ r ∷ [], s') = rw (traced_run, q) refl in
        let both : done b (t.0 ++ r ∷ [], s') ≡ raised e t' = sym own ∙ run in cc
  ]

abbrev pub peer_deleted : String → Request
peer_deleted key = deleted ("/peers/" <> key)

-- The requests that change the peers of a node that answered with this status.
abbrev pub changes : List PeerPayload → AgentStatus → List Request
changes peers status =
    map peer_put (peers_to_put (active_peers peers) status)
    ++ map peer_deleted (delete_now (peers_to_delete peers) status)

append_assoc : {A : Type 0} (xs ys zs : List A) → (xs ++ ys) ++ zs ≡ xs ++ (ys ++ zs)
append_assoc [] ys zs = refl
append_assoc (x ∷ xs) ys zs = ap (λ l. x ∷ l) (append_assoc xs ys zs)

append_nil : {A : Type 0} (xs : List A) → xs ++ [] ≡ xs
append_nil [] = refl
append_nil (x ∷ xs) = ap (λ l. x ∷ l) (append_nil xs)

-- What was sent before, and then twice.
then_sent :
    (before rs qs : List Request) {here after : List Request}
    → here ≡ before ++ rs
    → after ≡ here ++ qs
    → after ≡ before ++ (rs ++ qs)
then_sent before rs qs {here} {after} first second =
    second ∙ ap (λ (l : List Request). l ++ qs) first ∙ append_assoc before rs qs

module _ {S : Type 0} (agent : NodeAgent S) (c : Connection) where
  put_peers-sends :
      (ps : List PeerConfig) (t t' : Traced S) {u : Unit {0}}
      → put_peers (traced agent) c ps t ≡ done u t'
      → t'.0 ≡ t.0 ++ map peer_put ps
  unfolding put_peers
  put_peers-sends [] t t' run =
      sym (ap (λ (w : Traced S). w.0) (done-world run)) ∙ sym (append_nil t.0)
  put_peers-sends (p ∷ ps) t t' run =
      let (u, t₁, own, more) =
        >>=-inv ((traced agent).put_peer (trimmed c) p) (λ _. put_peers (traced agent) c ps) run in
      let (ran, sent) = traced_run-done (peer_put p) (agent.put_peer (trimmed c) p) t t₁ own in
      then_sent t.0 (peer_put p ∷ []) (map peer_put ps) sent (put_peers-sends ps t₁ t' more)

  delete_peer_if_present-sends :
      (key : String) (t t' : Traced S) {u : Unit {0}}
      → delete_peer_if_present (traced agent) c key t ≡ done u t'
      → t'.0 ≡ t.0 ++ peer_deleted key ∷ []
  unfolding delete_peer_if_present delete_peer
  delete_peer_if_present-sends key t t' {u} run =
      let m = delete_peer (traced agent) c key in
      let h : Exception → Io (Traced S) (Unit {0}) =
        λ e. if has_status 404 e then pure tt else raise e in
      elim (Outcome-cases (m t)) [
        | inr (a, t₁, q) ↦
            let (ran, sent) =
              traced_run-done (peer_deleted key) (agent.delete (trimmed c) ("/peers/" <> key)) t t₁
                q in
            let there : t₁ ≡ t' = done-world (sym (catch-done m h q) ∙ run) in
            sym (ap (λ (w : Traced S). w.0) there) ∙ sent
        | inl (e, t₁, q) ↦
            let sent =
              traced_run-raised (peer_deleted key) (agent.delete (trimmed c) ("/peers/" <> key)) t
                t₁ q in
            let left : h e t₁ ≡ done u t' = sym (catch-raised m h q) ∙ run in
            elim (Bool-cases (has_status 404 e)) [
              | inl missing ↦
                  let own : h e t₁ ≡ done tt t₁ = rw missing refl in
                  let there : t₁ ≡ t' = done-world (sym own ∙ left) in
                  sym (ap (λ (w : Traced S). w.0) there) ∙ sent
              | inr other ↦
                  let own : h e t₁ ≡ raised e t₁ = rw other refl in
                  let both : raised e t₁ ≡ done u t' = sym own ∙ left in cc
            ]
      ]

  delete_peers-sends :
      (keys : List String) (t t' : Traced S) {u : Unit {0}}
      → delete_peers (traced agent) c keys t ≡ done u t'
      → t'.0 ≡ t.0 ++ map peer_deleted keys
  unfolding delete_peers
  delete_peers-sends [] t t' run =
      sym (ap (λ (w : Traced S). w.0) (done-world run)) ∙ sym (append_nil t.0)
  delete_peers-sends (k ∷ ks) t t' run =
      let (u, t₁, own, more) =
        >>=-inv (delete_peer_if_present (traced agent) c k) (λ _. delete_peers (traced agent) c ks)
          run in
      then_sent t.0 (peer_deleted k ∷ []) (map peer_deleted ks)
        (delete_peer_if_present-sends k t t₁ own) (delete_peers-sends ks t₁ t' more)

  reconcile-sends :
      (peers : List PeerPayload) (t t' : Traced S) {u : Unit {0}}
      → reconcile (traced agent) c peers t ≡ done u t'
      → (status : AgentStatus) × (s₁ s₂ : S) × (agent.get_status (trimmed c) s₁ ≡ done status s₂)
        × (t'.0 ≡ t.0 ++ status_read ∷ changes peers status)
  unfolding reconcile
  reconcile-sends peers t t' run =
      let (status, t₁, own, more) = >>=-inv ((traced agent).get_status (trimmed c)) _ run in
      let (got, sent) = traced_run-done status_read (agent.get_status (trimmed c)) t t₁ own in
      let (u, t₂, put, rest) =
        >>=-inv (put_peers (traced agent) c (peers_to_put (active_peers peers) status)) _ more in
      let puts = put_peers-sends (peers_to_put (active_peers peers) status) t₁ t₂ put in
      let deletes = delete_peers-sends (delete_now (peers_to_delete peers) status) t₂ t' rest in
      (
        status,
        t.1,
        t₁.1,
        got,
        then_sent t.0 (status_read ∷ []) (changes peers status) sent (
            then_sent t₁.0 (map peer_put (peers_to_put (active_peers peers) status))
              (map peer_deleted (delete_now (peers_to_delete peers) status)) puts deletes),
      )

module _ {S : Type 0} (agent : NodeAgent S) (snapshot : Snapshot) where
  pub apply_snapshot-sends :
      (t t' : Traced S) {r : SyncResult}
      → apply_snapshot (traced agent) snapshot t ≡ done r t'
      → (status : AgentStatus) × (s₁ s₂ : S) × (agent.get_status (trimmed (connection snapshot)) s₁
          ≡ done status s₂)
        × (t'.0
            ≡ t.0
              ++ interface_put snapshot.interface
                ∷ status_read
                ∷ (changes snapshot.peers status ++ status_read ∷ dump_read ∷ []))
  unfolding apply_snapshot
  apply_snapshot-sends t t' run =
      let c = connection snapshot in
      let (interface, t₁, put, more) =
        >>=-inv ((traced agent).put_interface (trimmed c) snapshot.interface) _ run in
      let (u, t₂, reconciled, more) = >>=-inv (reconcile (traced agent) c snapshot.peers) _ more in
      let (after, t₃, got, more) = >>=-inv ((traced agent).get_status (trimmed c)) _ more in
      let (dump, t₄, read, last) = >>=-inv ((traced agent).get_dump (trimmed c)) _ more in
      let first =
        traced_run-done (interface_put snapshot.interface)
          (agent.put_interface (trimmed c) snapshot.interface) t t₁ put in
      let (status, s₁, s₂, answered, middle) =
        reconcile-sends agent c snapshot.peers t₁ t₂ reconciled in
      let third = traced_run-done status_read (agent.get_status (trimmed c)) t₂ t₃ got in
      let fourth = traced_run-done dump_read (agent.get_dump (trimmed c)) t₃ t₄ read in
      let there : t₄ ≡ t' = done-world last in
      (
        status,
        s₁,
        s₂,
        answered,
        sym (ap (λ (w : Traced S). w.0) there)
            ∙ then_sent t.0 (interface_put snapshot.interface ∷ [])
                (status_read ∷ (changes snapshot.peers status ++ status_read ∷ dump_read ∷ []))
                first.1
                (then_sent t₁.0 (status_read ∷ changes snapshot.peers status)
                  (status_read ∷ dump_read ∷ []) middle
                  (then_sent t₂.0 (status_read ∷ []) (dump_read ∷ []) third.1 fourth.1)),
      )
