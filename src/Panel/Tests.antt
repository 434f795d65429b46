-- ===== src/Panel/Tests.antt =====
-- A small panel for the tests: one node, one owner, a live device and a deleted one.
mod Devices
mod Accounts
mod Nodes
mod Reports
use vpn_management_panel.Prelude.{
  ℕ, String, Bool, true, false, ◌≡◌, refl, Option, none, some, List, [], ◌∷◌, str_eq, filled, mem,
}
use vpn_management_panel.Panel.Models.{
  PeerStatus, LifecycleStatus, SyncStatus, ProvisionStatus, RemoteStatus, RemoteSync,
  OperationStatus, Target, Interface, Node, User, Device, Peer, RemnawaveUser, Aggregate,
  AsyncOperation, PeerEndpointSession, Db,
}
use vpn_management_panel.Panel.Crypto.{clients}
use vpn_management_panel.Panel.Creation.{Draws}
use vpn_management_panel.Panel.Provisioning.{Fresh}
use vpn_management_panel.Panel.NodeResults.Replies.{Env}
use vpn_management_panel.Panel.Ownership.{IsOwned, IsWellFormed}
use vpn_management_panel.Panel.Ownership.Created.{AreFilled}

abbrev no_interface : Interface
no_interface = record {
  public_key = none;
  endpoint = none;
  listen_port = none;
  jc = none;
  jmin = none;
  jmax = none;
  s1 = none;
  s2 = none;
  s3 = none;
  s4 = none;
  h1 = none;
  h2 = none;
  h3 = none;
  h4 = none;
  i1 = none;
  i2 = none;
  i3 = none;
  i4 = none;
  i5 = none;
  mtu = none;
}

abbrev pub amsterdam : Node
amsterdam = record {
  id = 1;
  name = "ams";
  url = "http://ams";
  token = "t";
  private_key = some "npk";
  health_status = "online";
  last_seen_at = none;
  reachability_status = "reachable";
  last_heartbeat_at = none;
  last_heartbeat_error = none;
  sync_status = SyncStatus.succeeded;
  sync_error = none;
  last_synced_at = none;
  provision_status = ProvisionStatus.succeeded;
  interface = record no_interface { public_key = some "nk"; endpoint = some "vpn:51820" };
  last_error = none;
}

abbrev pub alice : User
alice = record {
  id = 7;
  name = "alice";
  is_blocked = false;
  lifecycle_status = LifecycleStatus.active;
  expire_at = some 100;
  traffic_limit_bytes = 50;
  traffic_reset_at = none;
  traffic_reset_policy = "manual";
  device_limit = 2;
}

abbrev laptop : Device
laptop = record {
  id = 10;
  user_id = 7;
  name = "laptop";
  public_key = some "k10";
  private_key = some "s10";
  vpn_ip = some "10.8.0.2";
  released_vpn_ip = none;
  ip_released_at = none;
  is_legacy_default = false;
  deleted_at = none;
}

-- It was deleted; a node may still carry its peer.
abbrev pub phone : Device
phone = record laptop {
  id = 11;
  name = "phone";
  public_key = some "k11";
  private_key = some "s11";
  vpn_ip = some "10.8.0.3";
  deleted_at = some 5;
}

abbrev laptop_peer : Peer
laptop_peer = record {
  id = 100;
  node_id = 1;
  user_id = 7;
  device_id = 10;
  status = PeerStatus.active;
  psk_key = some "p";
  raw_rx = some 10;
  raw_tx = some 10;
  last_handshake = none;
  endpoint = none;
}

abbrev pub phone_peer : Peer
phone_peer = record laptop_peer { id = 101; device_id = 11; status = PeerStatus.pending_delete }

abbrev pub small : Db
small = record {
  nodes = amsterdam ∷ [];
  users = alice ∷ [];
  devices = laptop ∷ phone ∷ [];
  peers = laptop_peer ∷ phone_peer ∷ [];
  remnawave_users = [];
  samples = [];
  sessions = [];
  deltas = [];
  user_daily = [];
  user_node_daily = [];
  user_lifetime = [];
  user_node_lifetime = [];
  operations = [];
  proxy_settings = none;
  proxy_states = [];
}

small-IsWellFormed : IsWellFormed small
unfolding str_eq filled mem
small-IsWellFormed = record {
  distinct = (refl, (refl, tt));
  apart = (refl, (refl, tt));
  safe = (refl, (refl, tt));
}

-- The host addresses of a subnet; the first is the gateway's.
abbrev hosts : List String
hosts = "10.8.0.1" ∷ "10.8.0.2" ∷ "10.8.0.3" ∷ "10.8.0.4" ∷ []

hosts-AreFilled : AreFilled (clients hosts)
unfolding str_eq filled
hosts-AreFilled = (refl, (refl, (refl, tt)))

abbrev fresh : Fresh
fresh = record { peer_id = λ n d. 500; psk = λ n d. "psk" }

abbrev draws : Draws
draws = record { device_id = λ attempt. 12; private_key = "s12"; public_key = "k12" }

abbrev env : Env
env = record {
  now = 60;
  fresh = fresh;
  draw_session = λ s. 1;
  draw_operation = λ o. 1;
  publish = λ o. none;
  locked = λ p. true;
}

abbrev imported : Db
imported = record small {
  remnawave_users =
      record {
        id = 30;
        user_id = 7;
        remnawave_uuid = "u";
        status = RemoteStatus.active;
        expire_at = none;
        traffic_limit_bytes = 0;
        traffic_used_bytes = 0;
        hwid_device_limit = some 3;
        sync_status = RemoteSync.synced;
        sync_reason = none;
        sync_error = none;
        delete_requested_at = none;
      }
      ∷ [];
}

-- A tracked operation that waits in the queue.
abbrev sync : AsyncOperation
sync = record {
  id = 40;
  kind = "sync_node";
  target = Target.node 1;
  status = OperationStatus.queued;
  attempts = 0;
  error = none;
  result = none;
  updated_at = 0;
  finished_at = none;
}
