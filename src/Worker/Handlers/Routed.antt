-- ===== src/Worker/Handlers/Routed.antt =====
-- The deletion of a peer, from the worker's request to the agent's route: panel/worker/app/node_client.py
-- and handlers.py, and delete_peer of node/agent/agent.py. The routing of paths is the framework's.
use vpn_management_panel.Prelude.{
  ℕ, String, ◌≡◌, refl, sym, ap, ◌∙◌, inl, inr, true, false, Option, none, some, List, has_char,
  ends_with_char, ◌<>◌, Option-cases, if◌then◌else◌,
}
use vpn_management_panel.Worker.NodeClient.{
  done, raised, http_status_error, Outcome, catch-raised, Connection, NodeAgent, delete_peer, pure,
  raise,
}
use vpn_management_panel.Worker.Handlers.{delete_peer_if_present, has_status}
use vpn_management_panel.Node.Agent.{Awg, Agent, Reply, http_error}
use vpn_management_panel.Node.Agent

-- The framework's routing: the segment that `/peers/{pubkey_b64}` takes of a path, and the code of the
-- answer where no route takes it.
pub record Routing : Type 0 where
  pub segment : String → Option String
  pub unrouted : String → ℕ
  -- A segment has no slash.
  pub segment_free :
      (path seg : String)
      → segment path ≡ some seg
      → (path ≡ "/peers/" <> seg) × (has_char 47 seg ≡ false)
  -- Without a slash at its end, where it would be redirected, an unknown path is not found.
  pub not_found :
      (path : String) → segment path ≡ none → ends_with_char 47 path ≡ false → unrouted path ≡ 404

peer_path_injective : (key seg : String) → "/peers/" <> key ≡ "/peers/" <> seg → key ≡ seg
unfolding ◌<>◌
peer_path_injective key seg e = cc

module _ {K : Type 0} (awg : Awg K) (urlsafe_decode : String → Option (List ℕ))
    (encode : List ℕ → String) (routing : Routing) (body message : ℕ → String) where
  -- An answer of the agent as the worker's client sees it.
  abbrev pub outcome_of : String → Reply × Agent K → Outcome (Agent K) (Unit {0})
  outcome_of path (Reply.done, node) = done tt node
  outcome_of path (Reply.http_error code, node) =
      raised (http_status_error code path (body code) (message code)) node

  abbrev pub serve_delete : String → Agent K → Reply × Agent K
  serve_delete path node = elim (routing.segment path) [
    | none ↦ (http_error (routing.unrouted path), node)
    | some pubkey_b64 ↦ Agent.delete_peer awg urlsafe_decode encode pubkey_b64 node
  ]

  -- The node agent, with its other requests given.
  abbrev pub routed_agent : NodeAgent (Agent K) → NodeAgent (Agent K)
  routed_agent others = record others {
    delete = λ c path node. outcome_of path (serve_delete path node);
  }

  unrouted_raised :
      (others : NodeAgent (Agent K)) (c : Connection) (key : String) (node : Agent K)
      → routing.segment ("/peers/" <> key) ≡ none
      → delete_peer (routed_agent others) c key node
        ≡ raised
            (http_status_error
              (routing.unrouted ("/peers/" <> key))
              ("/peers/" <> key)
              (body (routing.unrouted ("/peers/" <> key)))
              (message (routing.unrouted ("/peers/" <> key))))
            node
  unfolding delete_peer
  unrouted_raised others c key node e = rw (serve_delete, e) refl

  -- The deletion of a peer whose key has a slash, but none at its end, succeeds for the worker and
  -- leaves the node as it was: the agent's route does not take the path, and the worker takes the
  -- answer for a peer that is not there. The framework routes a path to the deletion by one segment
  -- without a slash, and answers a path that it does not route, and that does not end in a slash, with
  -- 404.
  pub delete_peer_if_present-slash :
      (others : NodeAgent (Agent K)) (c : Connection) (key : String) (node : Agent K)
      → has_char 47 key ≡ true
      → ends_with_char 47 ("/peers/" <> key) ≡ false
      → delete_peer_if_present (routed_agent others) c key node ≡ done tt node
  unfolding delete_peer_if_present
  delete_peer_if_present-slash others c key node slash inner =
      let path = "/peers/" <> key in
      elim (Option-cases (routing.segment path)) [
        | inr (seg, e) ↦
            let (is, free) = routing.segment_free path seg e in
            let same = peer_path_injective key seg is in
            let both : true ≡ false = sym slash ∙ ap (has_char 47) same ∙ free in cc
        | inl e ↦
            let code : routing.unrouted path ≡ 404 = routing.not_found path e inner in
            let missing : has_status 404 (
                  http_status_error (routing.unrouted path) path (body (routing.unrouted path))
                    (message (routing.unrouted path)))
                ≡ true =
              rw code refl in
            catch-raised (delete_peer (routed_agent others) c key)
              (λ e. if has_status 404 e then pure tt else raise e)
              (unrouted_raised others c key node e)
            ∙ rw missing refl
      ]
