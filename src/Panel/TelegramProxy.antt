-- ===== src/Panel/TelegramProxy.antt =====
-- panel/backend/app/services/telegram_proxy.py and routers/internal_worker_parts/telegram_proxy.py: what a
-- node's proxy is to be, and what the worker reports of it.
pub mod Requests
pub mod Reports
pub mod Secrets
mod Tests
use Prim.Native.Char.{code}
use vpn_management_panel.Prelude.{
  ◌≡◌, refl, ◌⊎◌, inl, inr, ℕ, String, Bool, true, false, not, ◌&&◌, ◌||◌, Option, none, some, List,
  [], ◌∷◌, map, find, update_if, leb, ◌==◌, is_none, any, str_eq, filled, strip, text_or, has_char,
  starts_with, before_char, ends_with_char, text_length, drop_two, lower, ◌<>◌, if◌then◌else◌, ◌++◌,
}
use vpn_management_panel.Panel.Models.{
  Node, TelegramProxySettings, ProxyStatus, TelegramProxyNodeState, Db,
}

-- What the services raise here: ValueError and TypeError, and HTTPException 422.
pub data ProxyError : Type 0 where
  value_error unprocessable : ProxyError

pub data Checked (A : Type 0) : Type 0 where
  valid : A → Checked A
  refused : ProxyError → Checked A

-- `[0-9a-f]`
abbrev pub is_hex : ℕ → Bool
is_hex c = leb 48 c && leb c 57 || leb 97 c && leb c 102

unfoldable pub all_hex : String → Bool
all_hex String.[] = true
all_hex (String.◌∷◌ c s) = is_hex (code c) && all_hex s

-- `_NORMAL_SECRET_RE` and `_DD_SECRET_RE`
unfoldable pub is_normal_secret : String → Bool
unfolding all_hex text_length
is_normal_secret s = all_hex s && text_length s == 32

unfoldable pub is_dd_secret : String → Bool
unfolding is_normal_secret starts_with
is_dd_secret s = starts_with "dd" s && is_normal_secret (drop_two s)

unfoldable pub validate_proxy_secret : String → Checked String
unfolding is_normal_secret is_dd_secret lower
validate_proxy_secret secret =
    let normalized = lower secret in
    if is_normal_secret normalized || is_dd_secret normalized
    then valid normalized
    else refused value_error

-- `normalized[2:] if normalized.startswith('dd') else normalized`
unfoldable pub base_secret : String → String
unfolding starts_with
base_secret normalized = if starts_with "dd" normalized then drop_two normalized else normalized

-- `format_proxy_link_secret`, with `tls_domain.encode().hex()` given.
unfoldable pub format_proxy_link_secret : String → String → Checked String
unfolding validate_proxy_secret base_secret ◌<>◌
format_proxy_link_secret secret tls_domain_hex = elim (validate_proxy_secret secret) [
  | refused e ↦ refused e
  | valid normalized ↦ valid ("ee" <> (base_secret normalized <> tls_domain_hex))
]

-- `'://' in host`
unfoldable pub has_scheme : String → Bool
unfolding starts_with
has_scheme String.[] = false
has_scheme (String.◌∷◌ c s) = starts_with "://" (String.◌∷◌ c s) || has_scheme s

unfoldable pub normalize_public_host : String → Checked String
unfolding strip has_char has_scheme ends_with_char starts_with lower
normalize_public_host host =
    if not (str_eq host (strip host))
    then refused value_error
    else if not (filled host)
    then refused value_error
    else if has_scheme host
        || has_char 47 host
        || has_char 63 host
        || has_char 35 host
        || has_char 64 host
    then refused value_error
    else if has_char 58 host && not (starts_with "[" host && ends_with_char 93 host)
    then refused value_error
    else valid (lower host)

unfoldable pub normalize_public_port : ℕ → Checked ℕ
normalize_public_port port =
    if leb 1 port && leb port 65535 then valid port else refused value_error

-- `_READY_STATUSES` and `READY_STATUSES`
abbrev pub is_serving : ProxyStatus → Bool
is_serving ProxyStatus.active = true
is_serving ProxyStatus.ready = true
is_serving _ = false

abbrev pub find_state : ℕ → List TelegramProxyNodeState → Option TelegramProxyNodeState
find_state node_id = find (λ s. s.node_id == node_id)

-- The checks of `select_primary_node_state` on a state with a host and a port; the answers are dropped.
abbrev pub checked_state :
    TelegramProxyNodeState → String → ℕ → Checked (Option TelegramProxyNodeState)
checked_state state host port = elim (normalize_public_host host) [
  | refused e ↦ refused e
  | valid _ ↦ (elim (normalize_public_port port) [
    | refused e ↦ refused e
    | valid _ ↦ valid (some state)
  ])
]

abbrev pub serving_state : TelegramProxyNodeState → Checked (Option TelegramProxyNodeState)
serving_state state = elim state.public_host [
  | none ↦ valid none
  | some host ↦ elim state.public_port [
    | none ↦ valid none
    | some port ↦ if is_serving state.status then checked_state state host port else valid none
  ]
]

-- `select_primary_node_state`
unfoldable pub select_primary_node_state :
    Db → TelegramProxySettings → Checked (Option TelegramProxyNodeState)
unfolding normalize_public_host normalize_public_port
select_primary_node_state db settings = elim settings.primary_node_id [
  | none ↦ valid none
  | some node_id ↦ elim (find_state node_id db.proxy_states) [
    | none ↦ valid none
    | some state ↦ serving_state state
  ]
]

-- `endpoint[: endpoint.find(']') + 1]`, of an endpoint with the bracket
unfoldable pub through_bracket : String → String
unfolding before_char ◌<>◌
through_bracket endpoint = before_char 93 endpoint <> "]"

-- `_host_from_endpoint`
unfoldable pub host_from_endpoint : Option String → Checked (Option String)
unfolding normalize_public_host through_bracket
host_from_endpoint none = valid none
host_from_endpoint (some endpoint) =
    if not (filled endpoint)
    then valid none
    else if starts_with "[" endpoint
    then if has_char 93 endpoint
      then (elim (normalize_public_host (through_bracket endpoint)) [
        | valid h ↦ valid (some h)
        | refused e ↦ refused e
      ])
      else valid none
    else (elim (normalize_public_host (before_char 58 endpoint)) [
      | valid h ↦ valid (some h)
      | refused e ↦ refused e
    ])

-- `TelegramProxyResultIn`
pub record ProxyResult : Type 0 where
  pub status : ProxyStatus
  pub error : Option String
  pub public_host : Option String
  pub public_port : Option ℕ

-- `_normalize_ready_host` and `_normalize_ready_port`
unfoldable pub normalize_ready_host : ProxyResult → Checked String
unfolding normalize_public_host
normalize_ready_host data_in = elim data_in.public_host [
  | none ↦ refused unprocessable
  | some host ↦ normalize_public_host host
]

unfoldable pub normalize_ready_port : ProxyResult → Checked ℕ
unfolding normalize_public_port
normalize_ready_port data_in = elim data_in.public_port [
  | none ↦ refused unprocessable
  | some port ↦ normalize_public_port port
]

abbrev pub serving : ℕ → ProxyStatus → String → ℕ → TelegramProxyNodeState → TelegramProxyNodeState
serving now status host port state = record state {
  status = status;
  last_checked_at = some now;
  public_host = some host;
  public_port = some port;
  last_error = none;
  last_applied_at = some now;
}

abbrev pub not_serving :
    ℕ → ProxyStatus → Option String → TelegramProxyNodeState → TelegramProxyNodeState
not_serving now status error state = record state {
  status = status;
  last_checked_at = some now;
  public_host = none;
  public_port = none;
  last_error = error;
}

-- The branch of `active` and `ready`.
abbrev pub served :
    ℕ → ProxyResult → TelegramProxyNodeState → ProxyStatus → Checked TelegramProxyNodeState
served now data_in state status = elim (normalize_ready_host data_in) [
  | refused e ↦ refused e
  | valid host ↦ elim (normalize_ready_port data_in) [
    | refused e ↦ refused e
    | valid port ↦ valid (serving now status host port state)
  ]
]

-- `match data.status`
unfoldable pub apply_status :
    ℕ → ProxyResult → TelegramProxyNodeState → ProxyStatus → Checked TelegramProxyNodeState
unfolding normalize_ready_host normalize_ready_port text_or
apply_status now data_in state ProxyStatus.active = served now data_in state ProxyStatus.active
apply_status now data_in state ProxyStatus.ready = served now data_in state ProxyStatus.ready
apply_status now data_in state ProxyStatus.failed = valid (
    not_serving now ProxyStatus.failed (some (text_or data_in.error "Worker reported failure"))
      state)
apply_status now data_in state ProxyStatus.disabled =
    valid (not_serving now ProxyStatus.disabled data_in.error state)
apply_status now data_in state ProxyStatus.unknown =
    valid (not_serving now ProxyStatus.unknown data_in.error state)

-- `_apply_result`: the row after it, which is written only if nothing is raised.
unfoldable pub apply_result :
    ℕ → ProxyResult → TelegramProxyNodeState → Checked TelegramProxyNodeState
unfolding apply_status
apply_result now data_in state = apply_status now data_in state data_in.status

-- To split on an answer and keep the equation.
pub Checked-cases :
    {A : Type 0} (c : Checked A) → ((e : ProxyError) × (c ≡ refused e)) ⊎ ((a : A) × (c ≡ valid a))
Checked-cases (refused e) = inl (e, refl)
Checked-cases (valid a) = inr (a, refl)
