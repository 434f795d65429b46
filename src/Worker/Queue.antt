-- ===== src/Worker/Queue.antt =====
-- panel/worker/app/queue.py and commands.py: the commands, their queues, and what happens to a message
-- whose handler fails. RabbitMQ is outside: `publish` is a message that the worker hands to it, and a
-- handler is a function that says whether it raised.
pub mod Retries
pub mod Routing
mod Tests
use vpn_management_panel.Prelude.{
  ℕ, zero, suc, ◌+◌, ◌-◌, String, Bool, true, false, not, ◌&&◌, Option, none, some, List, [], ◌∷◌,
  leb, min, or_zero, any, ◌++◌, ◌==◌, if◌then◌else◌,
}

-- `CommandName`
pub data Command : Type 0 where
  sync_all sync_node provision_node health_check_all health_check_node : Command
  cleanup_raw_traffic_samples : Command
  remnawave_full_reconcile remnawave_sync_user remnawave_disable_user : Command
  telegram_proxy_apply_node telegram_proxy_check_node telegram_proxy_disable_node : Command

pub data TargetType : Type 0 where
  all node traffic remnawave remnawave_user telegram_proxy_node : TargetType

-- The work queues.
pub data WorkQueue : Type 0 where
  node_operations node_heartbeat cleanup full_reconcile sync_user disable_user : WorkQueue
  telegram_proxy_operations : WorkQueue

pub data Delay : Type 0 where
  delay_10s delay_1m delay_10m : Delay

-- Routing keys of the dead letter exchange.
pub data DeadLetter : Type 0 where
  poison : DeadLetter
  -- f'{queue}.retry.{delay}'
  retry : WorkQueue → Delay → DeadLetter

-- `ROUTING_KEYS`, from `QUEUE_SPECS`
unfoldable pub routing_key : Command → WorkQueue
routing_key sync_all = node_operations
routing_key sync_node = node_operations
routing_key provision_node = node_operations
routing_key health_check_all = node_heartbeat
routing_key health_check_node = node_heartbeat
routing_key cleanup_raw_traffic_samples = cleanup
routing_key remnawave_full_reconcile = full_reconcile
routing_key remnawave_sync_user = sync_user
routing_key remnawave_disable_user = disable_user
routing_key telegram_proxy_apply_node = telegram_proxy_operations
routing_key telegram_proxy_check_node = telegram_proxy_operations
routing_key telegram_proxy_disable_node = telegram_proxy_operations

-- `spec.sequential`
unfoldable pub is_sequential : Command → Bool
is_sequential sync_all = true
is_sequential sync_node = true
is_sequential provision_node = true
is_sequential telegram_proxy_apply_node = true
is_sequential telegram_proxy_check_node = true
is_sequential telegram_proxy_disable_node = true
is_sequential _ = false

-- `TELEGRAM_PROXY_COMMANDS`
abbrev pub is_telegram_proxy : Command → Bool
is_telegram_proxy telegram_proxy_apply_node = true
is_telegram_proxy telegram_proxy_check_node = true
is_telegram_proxy telegram_proxy_disable_node = true
is_telegram_proxy _ = false

abbrev pub is_proxy_target : TargetType → Bool
is_proxy_target telegram_proxy_node = true
is_proxy_target _ = false

pub record WorkerCommand : Type 0 where
  pub command : Command
  pub idempotency_key : String
  pub operation_id : String
  pub track_operation : Bool
  pub target_type : TargetType
  pub target_id : Option String

-- The model's validator: `none` is the ValueError.
unfoldable pub validate_target_type : WorkerCommand → Option WorkerCommand
validate_target_type c =
    if is_telegram_proxy c.command && not (is_proxy_target c.target_type) then none else some c

-- A message: its command, and the header x-retry-count, if it has one.
pub record Message : Type 0 where
  pub body : WorkerCommand
  pub x_retry_count : Option ℕ

-- What the worker publishes to the dead letter exchange.
pub record Published : Type 0 where
  pub routing_key : DeadLetter
  pub message : Message

-- `RETRY_DELAYS[min(attempts - 1, len(RETRY_DELAYS) - 1)][0]`
abbrev pub nth_delay : ℕ → Delay
nth_delay n = if leb n 0 then delay_10s else if leb n 1 then delay_1m else delay_10m

unfoldable pub delay_name : ℕ → Delay
delay_name attempts = nth_delay (min (attempts - 1) 2)

-- `int((message.headers or {}).get('x-retry-count', 0)) + 1`
abbrev pub attempts_of : Message → ℕ
attempts_of message = or_zero message.x_retry_count + 1

unfoldable pub retry_or_dead_letter : ℕ → Message → Published
unfolding delay_name routing_key
retry_or_dead_letter max_attempts message =
    let attempts = attempts_of message in
    let next = record message { x_retry_count = some attempts } in
    if leb max_attempts attempts then record { routing_key = poison; message = next } else record {
      routing_key = retry (routing_key message.body.command) (delay_name attempts);
      message = next;
    }

-- What a message leads to: what is published, and whether it is acknowledged.
pub record Handled : Type 0 where
  pub published : List Published
  pub acknowledged : Bool

-- `handler` answers whether it raised.
unfoldable pub handle_message : ℕ → (WorkerCommand → Bool) → Message → Handled
unfolding retry_or_dead_letter
handle_message max_attempts handler message =
    if handler message.body
    then record { published = retry_or_dead_letter max_attempts message ∷ []; acknowledged = true }
    else record { published = []; acknowledged = true }

-- How the life of a message ends: handled at an attempt, or parked in the poison queue.
pub data Fate : Type 0 where
  out_of_fuel : Fate
  handled : (attempt : ℕ) → Fate
  poisoned : Message → Fate

-- The life of a message. A retry queue holds a message for its delay and hands it back to the work
-- queue with its headers, as `_declare_topology` asks of the broker. `raises` says at which attempts
-- the handler raises.
unfoldable pub life : ℕ → ℕ → (ℕ → Bool) → Message → Fate
unfolding handle_message
life zero max_attempts raises message = out_of_fuel
life (suc fuel) max_attempts raises message =
    let attempts = attempts_of message in
    elim (handle_message max_attempts (λ _. raises attempts) message).published [
      | [] ↦ handled attempts
      | sent ∷ _ ↦ elim sent.routing_key [
        | poison ↦ poisoned sent.message
        | retry queue delay ↦ life fuel max_attempts raises sent.message
      ]
    ]

-- `QUEUE_SPECS`, by command.
abbrev pub queue_specs : List Command
queue_specs =
    sync_all ∷ sync_node ∷ provision_node ∷ health_check_all ∷ health_check_node
    ∷ cleanup_raw_traffic_samples ∷ remnawave_full_reconcile ∷ remnawave_sync_user
    ∷ remnawave_disable_user ∷ telegram_proxy_apply_node ∷ telegram_proxy_check_node
    ∷ telegram_proxy_disable_node ∷ []

abbrev pub queue_index : WorkQueue → ℕ
queue_index node_operations = 0
queue_index node_heartbeat = 1
queue_index cleanup = 2
queue_index full_reconcile = 3
queue_index sync_user = 4
queue_index disable_user = 5
queue_index telegram_proxy_operations = 6

-- `queue_name in declared_queue_names`
unfoldable pub is_declared : WorkQueue → List WorkQueue → Bool
is_declared queue queues = any (λ q. queue_index q == queue_index queue) queues

abbrev pub same_kind : Bool → Bool → Bool
same_kind true b = b
same_kind false b = not b

-- The loop of `_declare_consumer_queues`, without the two legacy queues that it appends.
unfoldable pub consumer_queues : Bool → List Command → List WorkQueue → List WorkQueue
unfolding routing_key is_sequential is_declared
consumer_queues sequential [] declared = declared
consumer_queues sequential (c ∷ specs) declared = consumer_queues sequential specs (
    if not (same_kind (is_sequential c) sequential)
    then declared
    else if is_declared (routing_key c) declared
    then declared
    else declared ++ routing_key c ∷ [])
