-- ===== src/Panel/TelegramProxy/Requests.antt =====
-- panel/backend/app/routers/telegram_proxy.py: the requests that queue an operation on the primary node.
-- A settings row that a refused request creates is not followed further. Encryption, the drawn secret, and the texts of ids are outside.
use vpn_management_panel.Prelude.{
  ℕ, String, false, not, Option, none, some, List, truthy, if◌then◌else◌,
}
use vpn_management_panel.Panel.Models.{
  OperationStatus, Node, Target, AsyncOperation, TelegramProxySettings,
}
use vpn_management_panel.Panel.Errors.{ok, err, M, ◌>>=◌, ◌>>◌, raise, not_found, conflict}
use vpn_management_panel.Panel.Operations.{new_operation, enqueue_operation}
use vpn_management_panel.Panel.NodeResults.Replies.{find_node}

-- A settings row as it is created.
abbrev pub default_settings : TelegramProxySettings
default_settings = record {
  enabled = false;
  port = 443;
  tls_domain = "cloudsyncpro.net";
  secret_encrypted = none;
  primary_node_id = none;
  last_rotation_at = none;
  last_rotation_reason = none;
  last_rotation_error = none;
}

-- `TelegramProxySettings.get_settings`
unfoldable pub get_settings : M TelegramProxySettings
get_settings db = elim db.proxy_settings [
  | some settings ↦ ok (settings, db)
  | none ↦ ok (default_settings, record db { proxy_settings = some default_settings })
]

abbrev pub put_settings : TelegramProxySettings → M (Unit {0})
put_settings settings db = ok (tt, record db { proxy_settings = some settings })

-- `_primary_node`
unfoldable pub primary_node : TelegramProxySettings → M Node
primary_node settings db = elim settings.primary_node_id [
  | none ↦ err conflict
  | some node_id ↦ (elim (find_node node_id db.nodes) [
    | none ↦ err not_found
    | some node ↦ ok (node, db)
  ])
]

module _ (now : ℕ) (draw_id : List AsyncOperation → ℕ)
    (publish : AsyncOperation → Option String) where
  -- The row as `enqueue_operation` leaves it.
  abbrev pub answered : AsyncOperation → AsyncOperation
  answered operation = elim (publish operation) [
    | none ↦ operation
    | some text ↦ record operation { status = OperationStatus.enqueue_failed; error = some text }
  ]

  -- The operation that is queued for a node.
  unfoldable pub enqueue_for : String → Node → M AsyncOperation
  unfolding enqueue_operation
  enqueue_for kind node db =
      let operation = new_operation draw_id publish kind (Target.node node.id) now db in
      ok (answered operation, enqueue_operation draw_id publish operation db)

  -- POST /apply
  unfoldable pub apply_telegram_proxy : M AsyncOperation
  unfolding get_settings primary_node enqueue_for
  apply_telegram_proxy = get_settings >>= λ settings.
      if not settings.enabled
      then raise conflict
      else if not (truthy settings.secret_encrypted)
      then raise conflict
      else (primary_node settings >>= λ node. enqueue_for "telegram_proxy_apply_node" node)

  -- POST /disable
  unfoldable pub disable_telegram_proxy : M AsyncOperation
  unfolding get_settings primary_node enqueue_for
  disable_telegram_proxy = get_settings >>= λ settings. primary_node settings >>= λ node.
      put_settings (record settings { enabled = false })
      >> enqueue_for "telegram_proxy_disable_node" node

-- The requests that queue an operation.
pub data ProxyRequest : Type 0 where
  apply disable rotate : ProxyRequest

module _ (now : ℕ) (draw_id : List AsyncOperation → ℕ) (publish : AsyncOperation → Option String)
    (encrypt : String → String) (draw_secret : String) where
  -- POST /rotate-secret
  unfoldable pub rotate_telegram_proxy_secret : M AsyncOperation
  unfolding get_settings primary_node enqueue_for
  rotate_telegram_proxy_secret = get_settings >>= λ settings. primary_node settings >>= λ node.
      put_settings (record settings {
        secret_encrypted = some (encrypt draw_secret);
        last_rotation_at = some now;
        last_rotation_reason = some "manual";
        last_rotation_error = none;
      })
      >> enqueue_for now draw_id publish "telegram_proxy_apply_node" node

  abbrev pub answer : ProxyRequest → M AsyncOperation
  answer apply = apply_telegram_proxy now draw_id publish
  answer disable = disable_telegram_proxy now draw_id publish
  answer rotate = rotate_telegram_proxy_secret
