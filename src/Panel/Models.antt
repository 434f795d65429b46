-- ===== src/Panel/Models.antt =====
-- panel/backend/app/models.py and the result payloads of schemas/worker.py: the rows that the
-- modelled services read and write, and the database as the tables of those rows.
-- Row ids are UUID texts in the database; the code only compares and orders them, so they are
-- numbers here. An instant is a number of microseconds. A status column is a text: its known values
-- are constructors, and `other` is any further one.
use vpn_management_panel.Prelude.{ℕ, ◌/◌, String, Bool, true, false, Option, List}

pub data PeerStatus : Type 0 where
  pending active pending_delete deleted : PeerStatus
  other : String → PeerStatus

pub data LifecycleStatus : Type 0 where
  active blocked expired limited : LifecycleStatus
  other : String → LifecycleStatus

-- `nodes.sync_status`
pub data SyncStatus : Type 0 where
  pending succeeded failed : SyncStatus
  other : String → SyncStatus

-- `nodes.provision_status`
pub data ProvisionStatus : Type 0 where
  pending succeeded failed : ProvisionStatus
  other : String → ProvisionStatus

-- `remnawave_users.status`
pub data RemoteStatus : Type 0 where
  active disabled limited expired : RemoteStatus
  other : String → RemoteStatus

-- `remnawave_users.sync_status`
pub data RemoteSync : Type 0 where
  synced stale missing : RemoteSync
  other : String → RemoteSync

-- The cached interface metadata of a node; a sync result carries the same fields.
pub record Interface : Type 0 where
  pub public_key : Option String
  pub endpoint : Option String
  pub listen_port : Option ℕ
  pub jc : Option ℕ
  pub jmin : Option ℕ
  pub jmax : Option ℕ
  pub s1 : Option ℕ
  pub s2 : Option ℕ
  pub s3 : Option ℕ
  pub s4 : Option ℕ
  pub h1 : Option String
  pub h2 : Option String
  pub h3 : Option String
  pub h4 : Option String
  pub i1 : Option String
  pub i2 : Option String
  pub i3 : Option String
  pub i4 : Option String
  pub i5 : Option String
  pub mtu : Option String

pub record Node : Type 0 where
  pub id : ℕ
  pub name : String
  pub url : String
  pub token : String
  pub private_key : Option String
  pub health_status : String
  pub last_seen_at : Option ℕ
  pub reachability_status : String
  pub last_heartbeat_at : Option ℕ
  pub last_heartbeat_error : Option String
  pub sync_status : SyncStatus
  pub sync_error : Option String
  pub last_synced_at : Option ℕ
  pub provision_status : ProvisionStatus
  -- `server_public_key`, `server_endpoint`, `listen_port` … `mtu`
  pub interface : Interface
  pub last_error : Option String

pub record User : Type 0 where
  pub id : ℕ
  pub name : String
  pub is_blocked : Bool
  pub lifecycle_status : LifecycleStatus
  pub expire_at : Option ℕ
  pub traffic_limit_bytes : ℕ
  pub traffic_reset_at : Option ℕ
  pub traffic_reset_policy : String
  pub device_limit : ℕ

pub record Device : Type 0 where
  pub id : ℕ
  pub user_id : ℕ
  pub name : String
  pub public_key : Option String
  pub private_key : Option String
  pub vpn_ip : Option String
  pub released_vpn_ip : Option String
  pub ip_released_at : Option ℕ
  pub is_legacy_default : Bool
  pub deleted_at : Option ℕ

pub record Peer : Type 0 where
  pub id : ℕ
  pub node_id : ℕ
  pub user_id : ℕ
  pub device_id : ℕ
  pub status : PeerStatus
  pub psk_key : Option String
  pub raw_rx : Option ℕ
  pub raw_tx : Option ℕ
  pub last_handshake : Option ℕ
  pub endpoint : Option String

pub record PeerTrafficSample : Type 0 where
  pub peer_id : ℕ
  pub sampled_at : ℕ
  pub rx_bytes : ℕ
  pub tx_bytes : ℕ

pub record PeerEndpointSession : Type 0 where
  pub id : ℕ
  pub peer_id : ℕ
  pub node_id : ℕ
  pub user_id : ℕ
  pub endpoint : String
  pub first_seen_at : ℕ
  pub last_seen_at : ℕ
  pub last_handshake : Option ℕ

pub record TrafficDelta : Type 0 where
  pub peer_id : ℕ
  pub node_id : ℕ
  pub user_id : ℕ
  pub observed_at : ℕ
  pub previous_rx_bytes : ℕ
  pub previous_tx_bytes : ℕ
  pub current_rx_bytes : ℕ
  pub current_tx_bytes : ℕ
  pub rx_delta_bytes : ℕ
  pub tx_delta_bytes : ℕ
  pub total_delta_bytes : ℕ
  pub rx_reset_detected : Bool
  pub tx_reset_detected : Bool

-- The columns that identify a row of an aggregate table: each of the four tables has `user_id`, and
-- fixes which of the other two it has.
pub record Identity : Type 0 where
  pub user_id : ℕ
  pub node_id : Option ℕ
  pub day : Option ℕ

pub record Aggregate : Type 0 where
  pub identity : Identity
  pub rx_bytes : ℕ
  pub tx_bytes : ℕ
  pub total_bytes : ℕ
  pub updated_at : ℕ

pub record RemnawaveUser : Type 0 where
  pub id : ℕ
  pub user_id : ℕ
  pub remnawave_uuid : String
  pub status : RemoteStatus
  pub expire_at : Option ℕ
  pub traffic_limit_bytes : ℕ
  pub traffic_used_bytes : ℕ
  pub hwid_device_limit : Option ℕ
  pub sync_status : RemoteSync
  pub sync_reason : Option String
  pub sync_error : Option String
  pub delete_requested_at : Option ℕ

-- `async_operations.status`
pub data OperationStatus : Type 0 where
  queued pending running succeeded failed failed_by_timeout enqueue_failed : OperationStatus
  other : String → OperationStatus

-- `target_type` and `target_id`
pub data Target : Type 0 where
  no_target all : Target
  node : ℕ → Target
  remnawave_user telegram_proxy_node : String → Target

pub record AsyncOperation : Type 0 where
  pub id : ℕ
  pub kind : String
  pub target : Target
  pub status : OperationStatus
  pub attempts : ℕ
  pub error : Option String
  pub result : Option String
  pub updated_at : ℕ
  pub finished_at : Option ℕ

-- The settings row; the times and texts of the rotation are `last_rotation_at` and so on.
pub record TelegramProxySettings : Type 0 where
  pub enabled : Bool
  pub port : ℕ
  pub tls_domain : String
  pub secret_encrypted : Option String
  pub primary_node_id : Option ℕ
  pub last_rotation_at : Option ℕ
  pub last_rotation_reason : Option String
  pub last_rotation_error : Option String

-- `telegram_proxy_node_states.status`, and what the worker reports
pub data ProxyStatus : Type 0 where
  unknown disabled active ready failed : ProxyStatus

pub record TelegramProxyNodeState : Type 0 where
  pub node_id : ℕ
  pub status : ProxyStatus
  pub public_host : Option String
  pub public_port : Option ℕ
  pub last_applied_at : Option ℕ
  pub last_checked_at : Option ℕ
  pub last_error : Option String

pub record Db : Type 0 where
  pub nodes : List Node
  pub users : List User
  pub devices : List Device
  pub peers : List Peer
  pub remnawave_users : List RemnawaveUser
  pub samples : List PeerTrafficSample
  pub sessions : List PeerEndpointSession
  pub deltas : List TrafficDelta
  pub user_daily : List Aggregate
  pub user_node_daily : List Aggregate
  pub user_lifetime : List Aggregate
  pub user_node_lifetime : List Aggregate
  pub operations : List AsyncOperation
  -- the first row, when there is one
  pub proxy_settings : Option TelegramProxySettings
  pub proxy_states : List TelegramProxyNodeState

-- `peer.status == 'pending'` and so on.
abbrev pub is_pending : PeerStatus → Bool
is_pending PeerStatus.pending = true
is_pending _ = false

abbrev pub is_active : PeerStatus → Bool
is_active PeerStatus.active = true
is_active _ = false

abbrev pub is_pending_delete : PeerStatus → Bool
is_pending_delete PeerStatus.pending_delete = true
is_pending_delete _ = false

abbrev pub is_deleted : PeerStatus → Bool
is_deleted PeerStatus.deleted = true
is_deleted _ = false

-- `status in {'pending', 'active'}`: devices.LIVE_PEER_STATUSES
abbrev pub is_live : PeerStatus → Bool
is_live PeerStatus.pending = true
is_live PeerStatus.active = true
is_live _ = false

-- `status in {'pending_delete', 'deleted'}`: devices.DELETING_PEER_STATUSES and
-- node_sync.TOMBSTONED_PEER_STATUSES
abbrev pub is_tombstoned : PeerStatus → Bool
is_tombstoned PeerStatus.pending_delete = true
is_tombstoned PeerStatus.deleted = true
is_tombstoned _ = false

abbrev pub is_lifecycle_active : LifecycleStatus → Bool
is_lifecycle_active LifecycleStatus.active = true
is_lifecycle_active _ = false

abbrev pub is_lifecycle_blocked : LifecycleStatus → Bool
is_lifecycle_blocked LifecycleStatus.blocked = true
is_lifecycle_blocked _ = false

-- `observed_at.date()`
abbrev pub date : ℕ → ℕ
date t = t / 86_400_000_000
