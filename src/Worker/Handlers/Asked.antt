-- ===== src/Worker/Handlers/Asked.antt =====
-- panel/worker/app/handlers.py: what a synchronisation that succeeds has asked of the node for each peer of
-- the snapshot.
use vpn_management_panel.Prelude.{
  String, ◌≡◌, refl, sym, ap, ◌⊎◌, inl, inr, true, false, not, Option, none, some, List, [], ◌∷◌,
  ◌++◌, map, In, All, All-at, All-of_In, In-mapped, In-select, Bool-cases, Option-cases, subst,
  str_eq_iff, filled, is_some, arith,
}
use vpn_management_panel.Panel.NodeSnapshot.{PeerPayload, Snapshot}
use vpn_management_panel.Worker.NodeClient.{
  done, trimmed, PeerConfig, CurrentPeer, AgentStatus, NodeAgent,
}
use vpn_management_panel.Worker.Handlers.{
  SyncResult, must_go, config_of, active_peers, peers_to_delete, current_peer, desired_allowed_ips,
  texts_eq, carried_of, peer_matches_current, peers_to_put, delete_now, apply_snapshot, connection,
}
use vpn_management_panel.Worker.Handlers.Requests.{
  Request, interface_put, status_read, dump_read, peer_put, peer_deleted, changes, Traced, traced,
  apply_snapshot-sends,
}

-- What the status shows for a key: the sorted allowed addresses and the preshared key.
abbrev pub carried_by : Option CurrentPeer → Option (List String × String)
carried_by none = none
carried_by (some peer) = some (carried_of peer)

-- What the panel wants a node to carry for an active peer.
abbrev pub wanted : PeerConfig → List String × String
wanted peer = (desired_allowed_ips peer, peer.psk_key)

texts_eq-≡ : (ss ts : List String) → texts_eq ss ts ≡ true → ss ≡ ts
texts_eq-≡ [] [] e = refl
texts_eq-≡ (s ∷ ss) (t ∷ ts) e = grind (arith, texts_eq-≡ ss ts, str_eq_iff s t)
texts_eq-≡ [] (t ∷ ts) e = cc
texts_eq-≡ (s ∷ ss) [] e = cc

-- A peer that the worker finds as wanted is shown as wanted.
matches-carried :
    (p : PeerConfig) (current : Option CurrentPeer)
    → peer_matches_current p current ≡ true
    → carried_by current ≡ some (wanted p)
unfolding peer_matches_current
matches-carried p none e = cc
matches-carried p (some current) e = grind (
  arith,
  texts_eq-≡ (carried_of current).0 (desired_allowed_ips p),
  str_eq_iff (carried_of current).1 p.psk_key,
)

In-append_left : {A : Type 0} (a : A) (xs ys : List A) → In a xs → In a (xs ++ ys)
In-append_left a [] ys m = absurd m
In-append_left a (x ∷ xs) ys (inl e) = inl e
In-append_left a (x ∷ xs) ys (inr m) = inr (In-append_left a xs ys m)

In-append_right : {A : Type 0} (a : A) (xs ys : List A) → In a ys → In a (xs ++ ys)
In-append_right a [] ys m = m
In-append_right a (x ∷ xs) ys m = inr (In-append_right a xs ys m)

In-image : {A B : Type 0} (f : A → B) (xs : List A) (a : A) → In a xs → In (f a) (map f xs)
In-image f [] a m = absurd m
In-image f (x ∷ xs) a (inl e) = inl (ap f e)
In-image f (x ∷ xs) a (inr m) = inr (In-image f xs a m)

-- What was asked for a payload's peer, of a node that showed this status.
abbrev pub Asked : AgentStatus → List Request → PeerPayload → Type 0
Asked status sent p =
    (must_go p ≡ false
      → (carried_by (current_peer p.public_key status.peers) ≡ some (wanted (config_of p)))
        ⊎ In (peer_put (config_of p)) sent)
    × (must_go p ≡ true
        → (current_peer p.public_key status.peers ≡ none) ⊎ In (peer_deleted p.public_key) sent)

put_asked :
    (peers : List PeerPayload) (status : AgentStatus) (p : PeerPayload)
    → In p peers
    → filled p.public_key ≡ true
    → must_go p ≡ false
    → (carried_by (current_peer p.public_key status.peers) ≡ some (wanted (config_of p)))
      ⊎ In (peer_put (config_of p)) (changes peers status)
unfolding active_peers peers_to_put config_of
put_asked peers status p m full stays =
    let current = current_peer p.public_key status.peers in
    let listed = In-mapped config_of _ peers p m (rw (full, stays) refl) in
    elim (Bool-cases (peer_matches_current (config_of p) current)) [
      | inl same ↦ inl (matches-carried (config_of p) current same)
      | inr differs ↦ inr (
          In-append_left _ _ _ (
            In-image peer_put _ (config_of p)
              (In-select _ _ (config_of p) listed (ap not differs))))
    ]

delete_asked :
    (peers : List PeerPayload) (status : AgentStatus) (p : PeerPayload)
    → In p peers
    → filled p.public_key ≡ true
    → must_go p ≡ true
    → (current_peer p.public_key status.peers ≡ none)
      ⊎ In (peer_deleted p.public_key) (changes peers status)
unfolding peers_to_delete delete_now
delete_asked peers status p m full goes =
    let listed = In-mapped (λ (q : PeerPayload). q.public_key) _ peers p m (rw (full, goes) refl) in
    elim (Option-cases (current_peer p.public_key status.peers)) [
      | inl absent ↦ inl absent
      | inr (found, shown) ↦ inr (
          In-append_right _ _ _ (
            In-image peer_deleted _ p.public_key
              (In-select _ _ p.public_key listed (ap is_some shown))))
    ]

-- The requests that change the peers are among those of the whole synchronisation.
In-middle :
    (before changes : List Request) (first second : Request) (last : List Request) (r : Request)
    → In r changes
    → In r (before ++ first ∷ second ∷ (changes ++ last))
In-middle before changes first second last r m =
    In-append_right r before _ (inr (inr (In-append_left r changes last m)))

module _ {S : Type 0} (agent : NodeAgent S) (snapshot : Snapshot) where
  -- When a synchronisation succeeds, the node has answered with a status for which every peer of the
  -- snapshot was dealt with: one that stays is shown with the address and the preshared key of its
  -- device, or was put with them, and one that must go is not shown, or its deletion was asked for.
  -- The keys of the snapshot are filled, and the node answers what it likes.
  pub apply_snapshot-Asked :
      (t t' : Traced S) {r : SyncResult}
      → All (λ (p : PeerPayload). filled p.public_key ≡ true) snapshot.peers
      → apply_snapshot (traced agent) snapshot t ≡ done r t'
      → (status : AgentStatus) × (s₁ s₂ : S) × (agent.get_status (trimmed (connection snapshot)) s₁
          ≡ done status s₂)
        × All (Asked status t'.0) snapshot.peers
  apply_snapshot-Asked t t' full run =
      let (status, s₁, s₂, got, sent) = apply_snapshot-sends agent snapshot t t' run in
      let within : (r : Request) → In r (changes snapshot.peers status) → In r t'.0 = λ r m.
        subst (λ (l : List Request). In r l) (sym sent)
          (In-middle t.0 (changes snapshot.peers status) (interface_put snapshot.interface)
            status_read (status_read ∷ dump_read ∷ []) r m) in
      (
        status,
        s₁,
        s₂,
        got,
        All-of_In _ snapshot.peers (λ p m.
            let own = All-at _ snapshot.peers p full m in
            (
              λ stays. elim (put_asked snapshot.peers status p m own stays) [
                | inl shown ↦ inl shown
                | inr put ↦ inr (within (peer_put (config_of p)) put)
              ],
              λ goes. elim (delete_asked snapshot.peers status p m own goes) [
                | inl absent ↦ inl absent
                | inr asked ↦ inr (within (peer_deleted p.public_key) asked)
              ],
            )),
      )
