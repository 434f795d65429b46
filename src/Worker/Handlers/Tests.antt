-- ===== src/Worker/Handlers/Tests.antt =====
-- Runs of the worker against an agent that answers a fixed status, and against the node agent's route.
use vpn_management_panel.Prelude.{
  str_eq, str_eq_iff, arith, subst, not, ◌&&◌, Bool-cases, text_or, strip, String, ◌≡◌, refl, ap,
  sym, inl, inr, Bool, true, false, Option, none, some, List, [], ◌∷◌, All, In, has_char,
  ends_with_char, filled, ◌<>◌,
}
use vpn_management_panel.Panel.Models.{Peer, PeerStatus, ProvisionStatus}
use vpn_management_panel.Panel.NodeSnapshot.{
  PeerPayload, Snapshot, text, payloads, payload_with, node_snapshot,
}
use vpn_management_panel.Panel.Tests.{
  small, amsterdam as ams, alice, phone as lost_phone, phone_peer,
}
use vpn_management_panel.Node.Agent.{Awg, Agent}
use vpn_management_panel.Worker.NodeClient.{
  done, trimmed, done-answer, CurrentPeer, AgentStatus, NodeAgent,
}
use vpn_management_panel.Worker.Handlers.{
  apply_snapshot, connection, config_of, peers_to_put, active_peers, delete_now, peers_to_delete,
  SyncResult, current_peer, delete_peer_if_present,
}
use vpn_management_panel.Worker.Handlers.Requests.{
  Request, interface_put, status_read, dump_read, peer_put, peer_deleted, traced,
}
use vpn_management_panel.Worker.Handlers.Asked.{Asked, apply_snapshot-Asked}
use vpn_management_panel.Worker.Handlers.Restored.{deleted-put}
use vpn_management_panel.Worker.Handlers.Routed.{
  Routing, routed_agent, delete_peer_if_present-slash,
}

abbrev payload : String → String → PeerStatus → Bool → PeerPayload
payload key ip status blocked = record {
  peer_id = 100;
  user_id = 1;
  user_name = "alice";
  device_id = 10;
  device_name = "laptop";
  public_key = key;
  allowed_ip = ip;
  psk_key = "psk";
  status = status;
  is_blocked = blocked;
}

abbrev laptop : PeerPayload
laptop = payload "bGFwdG9w" "10.8.0.2" PeerStatus.active false

abbrev phone : PeerPayload
phone = payload "cGhvbmU+" "10.8.0.3" PeerStatus.active true

abbrev tablet : PeerPayload
tablet = payload "dGFi/GV0" "10.8.0.4" PeerStatus.pending_delete false

abbrev amsterdam : Snapshot
amsterdam = record {
  id = 1;
  name = "amsterdam";
  url = "http://10.0.0.1:8000/";
  token = "secret";
  provision_status = ProvisionStatus.succeeded;
  interface = ("private_key", text "key") ∷ [];
  peers = laptop ∷ phone ∷ tablet ∷ [];
}

abbrev carried : String → String → CurrentPeer
carried key ip = record {
  public_key = some key;
  allowed_ips = (ip <> "/32") ∷ [];
  psk_key = some "psk";
}

-- The node carries the phone and the tablet.
abbrev before : List CurrentPeer
before = carried "cGhvbmU+" "10.8.0.3" ∷ carried "dGFi/GV0" "10.8.0.4" ∷ []

-- An agent that takes everything, and always shows these peers.
abbrev shows : {S : Type 0} → List CurrentPeer → NodeAgent S
shows peers = record {
  get_health = λ c s. done tt s;
  get_status =
      λ c s. done (record { interface = []; endpoint = some "vpn.example:51820"; peers = peers }) s;
  get_dump = λ c s. done (record { interface = []; peers = [] }) s;
  put_interface = λ c sent s. done sent s;
  put_peer = λ c p s. done tt s;
  delete = λ c path s. done tt s;
}

-- The laptop is put, the phone and the tablet are deleted.
abbrev requests : List Request
requests =
    interface_put amsterdam.interface
    ∷ status_read
    ∷ peer_put (config_of laptop)
    ∷ peer_deleted "cGhvbmU+"
    ∷ peer_deleted "dGFi/GV0"
    ∷ status_read
    ∷ dump_read
    ∷ []

amsterdam-filled : All (λ (p : PeerPayload). filled p.public_key ≡ true) amsterdam.peers
unfolding filled
amsterdam-filled = (refl, (refl, (refl, tt)))

runs :
    (r : SyncResult) × (apply_snapshot (traced (shows before)) amsterdam ([], tt)
      ≡ done r (requests, tt))
unfolding apply_snapshot peers_to_put active_peers filled text_or delete_now peers_to_delete ◌<>◌
    strip
runs = (_, refl)

apply_snapshot-Asked_example :
    (status : AgentStatus) × (s₁ s₂ : Unit {0}) × ((shows before).get_status
        (trimmed (connection amsterdam))
        s₁
      ≡ done status s₂)
    × All (Asked status requests) amsterdam.peers
apply_snapshot-Asked_example =
    apply_snapshot-Asked (shows before) amsterdam ([], tt) (requests, tt) amsterdam-filled runs.1

-- The phone was deleted, this node has confirmed it, and the phone's address is not released yet.
abbrev gone : Peer
gone = record phone_peer { status = PeerStatus.deleted }

gone-filled : All (λ (p : PeerPayload). filled p.public_key ≡ true) (payloads small (gone ∷ []))
unfolding payloads filled
gone-filled = (refl, tt)

filled_texts : (filled "k11" ≡ true) × (filled "10.8.0.3" ≡ true)
unfolding filled
filled_texts = (refl, refl)

abbrev again : List Request
again =
    interface_put (node_snapshot small ams (gone ∷ [])).interface
    ∷ status_read
    ∷ peer_put (config_of (payload_with gone alice lost_phone "k11" "10.8.0.3"))
    ∷ status_read
    ∷ dump_read
    ∷ []

put_again :
    (r : SyncResult) × (apply_snapshot
        (traced (shows []))
        (node_snapshot small ams (gone ∷ []))
        ([], tt)
      ≡ done r (again, tt))
unfolding apply_snapshot peers_to_put active_peers filled text_or delete_now peers_to_delete ◌<>◌
    strip node_snapshot
put_again = (_, refl)

not_shown :
    (s s' : Unit {0}) (status : AgentStatus)
    → (shows []).get_status (trimmed (connection (node_snapshot small ams (gone ∷ [])))) s
      ≡ done status s'
    → current_peer "k11" status.peers ≡ none
unfolding current_peer
not_shown s s' status got =
    ap (λ (a : AgentStatus). current_peer "k11" a.peers) (sym (done-answer got))

deleted-put_example :
    In (peer_put (config_of (payload_with gone alice lost_phone "k11" "10.8.0.3"))) again
deleted-put_example =
    deleted-put (shows []) small ams (gone ∷ []) ([], tt) (again, tt) gone alice lost_phone "k11"
      "10.8.0.3" gone-filled (inl refl) refl refl refl refl refl refl filled_texts.0 filled_texts.1
      not_shown put_again.1

-- What follows seven characters.
abbrev after_seven : String → String
after_seven
      (String.◌∷◌ _ (
        String.◌∷◌ _
          (String.◌∷◌ _ (String.◌∷◌ _ (String.◌∷◌ _ (String.◌∷◌ _ (String.◌∷◌ _ key))))))) =
    key
after_seven _ = ""

is_route : String → Bool
is_route path = str_eq path ("/peers/" <> after_seven path) && not (has_char 47 (after_seven path))

segment_of : Bool → String → Option String
segment_of true path = some (after_seven path)
segment_of false path = none

is_route-free :
    (path : String)
    → is_route path ≡ true
    → (path ≡ "/peers/" <> after_seven path) × (has_char 47 (after_seven path) ≡ false)
unfolding is_route
is_route-free path e = grind (arith, str_eq_iff path ("/peers/" <> after_seven path))

segment_of-free :
    (path seg : String)
    → segment_of (is_route path) path ≡ some seg
    → (path ≡ "/peers/" <> seg) × (has_char 47 seg ≡ false)
unfolding segment_of
segment_of-free path seg e = elim (Bool-cases (is_route path)) [
  | inl routed ↦
      let own : segment_of (is_route path) path ≡ some (after_seven path) = rw routed refl in
      let same : after_seven path ≡ seg = cc in
      subst (λ (s : String). (path ≡ "/peers/" <> s) × (has_char 47 s ≡ false)) same
        (is_route-free path routed)
  | inr other ↦ let own : segment_of (is_route path) path ≡ none = rw other refl in cc
]

-- A framework that routes a path of one segment, and answers with 404 elsewhere.
abbrev sample_routing : Routing
sample_routing = record {
  segment = λ path. segment_of (is_route path) path;
  unrouted = λ path. 404;
  segment_free = segment_of-free;
  not_found = λ path e inner. refl;
}

-- The route takes a key without a slash.
routes_phone : sample_routing.segment "/peers/cGhvbmU+" ≡ some "cGhvbmU+"
unfolding segment_of is_route has_char str_eq ◌<>◌
routes_phone = refl

-- An interface that takes every command.
abbrev quiet : Awg (Unit {0})
quiet = record {
  show = λ s. some [];
  set_peer = λ key ip psk s. (true, s);
  remove_peer = λ key s. (true, s);
}

abbrev node : Agent (Unit {0})
node = record { kernel = tt; config = none }

slash_inside :
    (has_char 47 "dGFi/GV0" ≡ true) × (ends_with_char 47 ("/peers/" <> "dGFi/GV0") ≡ false)
unfolding has_char ends_with_char ◌<>◌
slash_inside = (refl, refl)

abbrev others : NodeAgent (Agent (Unit {0}))
others = shows []

delete_peer_if_present-slash_example :
    delete_peer_if_present
      (routed_agent quiet (λ key. none) (λ raw. "") sample_routing (λ code. "") (λ code. "") others)
      (connection amsterdam)
      "dGFi/GV0"
      node
    ≡ done tt node
delete_peer_if_present-slash_example =
    delete_peer_if_present-slash quiet (λ key. none) (λ raw. "") sample_routing (λ code. "")
      (λ code. "") others (connection amsterdam) "dGFi/GV0" node slash_inside.0 slash_inside.1
