-- ===== src/Node/Agent/Peers.antt =====
-- What the agent's answers say of its configuration.
use vpn_management_panel.Prelude.{
  String, ◌≡◌, ◌≢◌, refl, sym, inl, inr, Bool, true, false, some, List, All, filled, text_or, ◌<>◌,
  Option-cases, subst,
}
use vpn_management_panel.Node.Config.{configured, configured_peers, persist_peer}
use vpn_management_panel.Node.Config.Lines.{IsPlain}
use vpn_management_panel.Node.Config.Block.{IsClean, entry_of}
use vpn_management_panel.Node.Config.Persisted.{persist_peer-configured}
use vpn_management_panel.Node.Agent.{
  SyncPeerRequest, Awg, Agent, Reply, done, http_error, configured_of, set_and_persist, sync_peer,
  present_psk,
}

-- What an answer to PUT /peers says, when the configuration had these lines.
abbrev pub Tells : {K : Type 0} → SyncPeerRequest → Agent K → List String → Reply × Agent K → Type 0
Tells req node lines (Reply.done, after) =
    (configured req.public_key (configured_of after.config)
      ≡ some (entry_of req.public_key req.allowed_ip (text_or req.psk_key "")))
    × ((other : String)
        → other ≢ req.public_key
        → configured other (configured_of after.config) ≡ configured other (configured_peers lines))
Tells req node lines (Reply.http_error code, after) = after.config ≡ node.config

module _ {K : Type 0} (awg : Awg K) (req : SyncPeerRequest) (node : Agent K) (lines : List String)
    (there : node.config ≡ some lines) (plain : All IsPlain lines)
    (full : filled req.public_key ≡ true) (clean : IsClean req.public_key)
    (clean_ip : IsClean (req.allowed_ip <> "/32"))
    (clean_psk : filled (text_or req.psk_key "") ≡ true → IsClean (text_or req.psk_key "")) where
  set_and_persist-Tells : (r : Bool × K) → Tells req node lines (set_and_persist awg req node r)
  set_and_persist-Tells (true, kernel) =
      subst
        (λ c. Tells req node lines (
          done,
          record {
            kernel = kernel;
            config = some (persist_peer req.public_key req.allowed_ip (text_or req.psk_key "") c);
          },
        ))
        (sym there)
        (persist_peer-configured req.public_key req.allowed_ip (text_or req.psk_key "") full clean
          clean_ip clean_psk lines plain)
  set_and_persist-Tells (false, kernel) = refl

  -- When the agent answers that it put a peer, the peer is in its configuration as it was asked for,
  -- and the other peers are there as before; when it answers with an error, the configuration is as it
  -- was. The lines of the configuration are plain, the key is filled, and the peer's texts are of one
  -- line without space at their ends.
  pub sync_peer-Tells : Tells req node lines (sync_peer awg req node)
  unfolding sync_peer
  sync_peer-Tells = elim (Option-cases (awg.show node.kernel)) [
    | inl failed ↦
        let e : sync_peer awg req node ≡ (http_error 500, node) = rw (sync_peer, failed) refl in
        subst (Tells req node lines) (sym e) refl
    | inr (peers, shown) ↦
        let r : Bool × K =
          awg.set_peer req.public_key req.allowed_ip (present_psk req.psk_key) node.kernel in
        let e : sync_peer awg req node ≡ set_and_persist awg req node r =
          rw (sync_peer, shown) refl in
        subst (Tells req node lines) (sym e) (set_and_persist-Tells r)
  ]
