-- ===== src/Worker/TelegramProxy.antt =====
-- panel/worker/app/handlers.py: the commands on a node's Telegram proxy. The node's agent answers over
-- HTTP; the result that is reported is the panel's `ProxyResult`.
pub mod Refused
mod Tests
use vpn_management_panel.Prelude.{
  ℕ, zero, suc, ◌-◌, String, Bool, true, false, not, ◌&&◌, Option, none, some, filled, str_eq,
  truthy, text_or, starts_with, text_length, rstrip_char, ◌<>◌, ◌==◌, if◌then◌else◌,
}
use vpn_management_panel.Panel.Models.{ProxyStatus}
use vpn_management_panel.Panel.TelegramProxy.{ProxyResult}
use vpn_management_panel.Worker.NodeClient.{
  Exception, http_status_error, error, message_of, Io, ◌>>=◌, ◌>>◌, pure, raise, catch, Connection,
}

-- The agent's answer on its proxy.
pub record MtproxyStatus : Type 0 where
  pub state : Option String
  pub public_host : Option String
  pub port : Option ℕ

-- The wanted configuration in a snapshot, whose port is always a number.
pub record Desired : Type 0 where
  pub enabled : Bool
  pub secret : Option String
  pub port : ℕ
  pub public_host : Option String
  pub tls_domain : String

pub record ProxySnapshot : Type 0 where
  pub node_id : String
  pub url : String
  pub token : String
  pub desired : Desired

pub record ProxyConfig : Type 0 where
  pub secret : String
  pub port : ℕ
  pub public_host : String
  pub tls_domain : String

abbrev pub plain_result : ProxyStatus → Option String → ProxyResult
plain_result status message = record {
  status = status;
  error = message;
  public_host = none;
  public_port = none;
}

-- The branch of a proxy that runs.
unfoldable pub running_result : Option String → Option ℕ → ProxyResult
running_result (some host) (some port) = record {
  status = ProxyStatus.ready;
  error = none;
  public_host = some host;
  public_port = some port;
}
running_result (some host) none = plain_result ProxyStatus.active none
running_result none port = plain_result ProxyStatus.active none

-- `_telegram_proxy_result`
unfoldable pub telegram_proxy_result : MtproxyStatus → ProxyResult
unfolding running_result text_or
telegram_proxy_result status =
    let state = text_or status.state "unknown" in
    if str_eq state "running"
    then running_result status.public_host status.port
    else if str_eq state "disabled"
    then plain_result ProxyStatus.disabled none
    else if str_eq state "stopped"
    then plain_result ProxyStatus.failed (some "MTProxy is stopped")
    else if str_eq state "failed"
    then plain_result ProxyStatus.failed (some "MTProxy is failed")
    else plain_result ProxyStatus.unknown none

module _ {S : Type 0} where
  -- `_telegram_proxy_config`
  unfoldable pub telegram_proxy_config : ProxySnapshot → Io S ProxyConfig
  unfolding filled text_or
  telegram_proxy_config snapshot =
      let desired = snapshot.desired in
      if not desired.enabled
      then raise (error "Telegram proxy is not enabled")
      else if not (truthy desired.secret)
      then raise (error "Telegram proxy secret is missing")
      else if not (truthy desired.public_host)
      then raise (error "Telegram proxy public_host is missing")
      else if not (filled desired.tls_domain)
      then raise (error "Telegram proxy tls_domain is missing")
      else pure (record {
        secret = text_or desired.secret "";
        port = desired.port;
        public_host = text_or desired.public_host "";
        tls_domain = desired.tls_domain;
      })

-- `text.replace(secret, '<redacted>')`, where a number of characters is still to be passed over.
unfoldable pub redact : ℕ → String → String → String
unfolding starts_with ◌<>◌ text_length
redact skip secret String.[] = String.[]
redact (suc skip) secret (String.◌∷◌ c text) = redact skip secret text
redact zero secret (String.◌∷◌ c text) = elim (starts_with secret (String.◌∷◌ c text)) [
  | true ↦ "<redacted>" <> redact (text_length secret - 1) secret text
  | false ↦ String.◌∷◌ c (redact zero secret text)
]

abbrev pub redacted : Option String → String → String
redacted none message = message
redacted (some secret) message = elim (filled secret) [
  | true ↦ redact 0 secret message
  | false ↦ message
]

abbrev pub unsupported : String
unsupported = "Node agent does not support Telegram MTProxy; update the node image"

-- `_telegram_proxy_error`
unfoldable pub telegram_proxy_error : ProxySnapshot → Exception → String
unfolding redact starts_with
telegram_proxy_error snapshot (error message) = redacted snapshot.desired.secret message
telegram_proxy_error snapshot (http_status_error status path body message) =
    elim (status == 404 && starts_with "/mtproxy" path) [
      | true ↦ unsupported
      | false ↦ redacted snapshot.desired.secret message
    ]

pub record ProxyAgent (S : Type 0) : Type 0 where
  pub put_mtproxy : Connection → ProxyConfig → Io S MtproxyStatus
  pub get_mtproxy_status : Connection → Io S MtproxyStatus
  pub delete_mtproxy : Connection → Io S MtproxyStatus
  -- POST of the result to the backend
  pub report_telegram_proxy_node_result : String → ProxyResult → Io S (Unit {0})

abbrev pub is_failed : ProxyStatus → Bool
is_failed ProxyStatus.failed = true
is_failed _ = false

module _ {S : Type 0} (agent : ProxyAgent S) where
  -- What the three handlers share: the result or the error of a request is reported, and a failure raised.
  unfoldable pub reported : ProxySnapshot → Io S MtproxyStatus → Io S ProxyResult
  unfolding telegram_proxy_result telegram_proxy_error
  reported snapshot request =
      catch (request >>= λ status. pure (telegram_proxy_result status))
        (λ e. pure (plain_result ProxyStatus.failed (some (telegram_proxy_error snapshot e))))
      >>= λ result.
          agent.report_telegram_proxy_node_result snapshot.node_id result
          >> (if is_failed result.status
              then raise (error (text_or result.error ""))
              else pure result)

  abbrev pub proxy_connection : ProxySnapshot → Connection
  proxy_connection snapshot = record {
    endpoint = rstrip_char 47 snapshot.url;
    token = snapshot.token;
  }

  unfoldable pub apply_telegram_proxy_snapshot : ProxySnapshot → Io S ProxyResult
  unfolding reported telegram_proxy_config
  apply_telegram_proxy_snapshot snapshot = reported snapshot (
      telegram_proxy_config snapshot >>= λ config.
      agent.put_mtproxy (proxy_connection snapshot) config)

  unfoldable pub check_telegram_proxy_snapshot : ProxySnapshot → Io S ProxyResult
  unfolding reported
  check_telegram_proxy_snapshot snapshot =
      reported snapshot (agent.get_mtproxy_status (proxy_connection snapshot))

  unfoldable pub disable_telegram_proxy_snapshot : ProxySnapshot → Io S ProxyResult
  unfolding reported
  disable_telegram_proxy_snapshot snapshot =
      reported snapshot (agent.delete_mtproxy (proxy_connection snapshot))
