-- ===== src/Worker/Queue/Tests.antt =====
-- Concrete messages.
use vpn_management_panel.Prelude.{true, false, not, ◌≡◌, refl, none, some, [], ◌∷◌, arith, ltb}
use vpn_management_panel.Worker.Queue.{
  sync_node, telegram_proxy_apply_node, node, node_operations, delay_1m, retry, WorkerCommand,
  Message, is_declared, routing_key, is_sequential, consumer_queues, queue_specs,
  validate_target_type, handle_message, handled, poisoned, life,
}
use vpn_management_panel.Worker.Queue.Retries.{life-poisoned, life-handled}
use vpn_management_panel.Worker.Queue.Routing.{routing_key-consumed}

abbrev command : WorkerCommand
command = record {
  command = sync_node;
  idempotency_key = "k";
  operation_id = "o";
  track_operation = true;
  target_type = node;
  target_id = some "n";
}

abbrev message : Message
message = record { body = command; x_retry_count = none }

second_failure :
    (handle_message 3 (λ _. true) (record message { x_retry_count = some 1 })).published
    ≡ record {
      routing_key = retry node_operations delay_1m;
      message = record message { x_retry_count = some 2 };
    }
      ∷ []
unfolding handle_message
second_failure = refl

proxy_target : validate_target_type (record command { command = telegram_proxy_apply_node }) ≡ none
unfolding validate_target_type
proxy_target = refl

life-poisoned_example :
    life 3 3 (λ _. true) message ≡ poisoned (record message { x_retry_count = some 3 })
life-poisoned_example =
    life-poisoned 3 3 (λ _. true) message (λ k a b. refl) (omega arith) (omega arith)

-- It raises at the first attempt only.
life-handled_example : life 2 3 (λ k. ltb k 2) message ≡ handled 2
life-handled_example =
    life-handled 2 3 2 (λ k. ltb k 2) message (λ j a b. ground arith) refl (omega arith)
      (omega arith) (omega arith)

routing_key-consumed_example :
    (is_declared (routing_key sync_node) (consumer_queues (is_sequential sync_node) queue_specs [])
      ≡ true)
    × (is_declared
          (routing_key sync_node)
          (consumer_queues (not (is_sequential sync_node)) queue_specs [])
        ≡ false)
routing_key-consumed_example = routing_key-consumed sync_node
