-- ===== src/Worker/Recovery.antt =====
-- panel/worker/app/backend_client.py and main.py: the operations that nobody has started are published
-- again. An id is sent as a text; `text_of` is the text of an id.
pub mod Queued
mod Tests
use vpn_management_panel.Prelude.{
  ℕ, String, ◌≡◌, refl, sym, ap, ◌∙◌, inl, inr, Bool, true, false, Option, none, some, List, [],
  ◌∷◌, In, str_eq, str_eq_iff, if◌then◌else◌, Option-cases, ◌⊎◌,
}
use vpn_management_panel.Panel.Models.{
  Target, AsyncOperation, OperationStatus, Db, Node, TelegramProxySettings,
}
use vpn_management_panel.Worker.Queue.{Command, TargetType, WorkerCommand, validate_target_type}

-- The names of `CommandName`.
abbrev pub command_names : List (String × Command)
command_names =
    ("sync_all", Command.sync_all)
    ∷ ("sync_node", Command.sync_node)
    ∷ ("provision_node", Command.provision_node)
    ∷ ("health_check_all", Command.health_check_all)
    ∷ ("health_check_node", Command.health_check_node)
    ∷ ("cleanup_raw_traffic_samples", Command.cleanup_raw_traffic_samples)
    ∷ ("remnawave_full_reconcile", Command.remnawave_full_reconcile)
    ∷ ("remnawave_sync_user", Command.remnawave_sync_user)
    ∷ ("remnawave_disable_user", Command.remnawave_disable_user)
    ∷ ("telegram_proxy_apply_node", Command.telegram_proxy_apply_node)
    ∷ ("telegram_proxy_check_node", Command.telegram_proxy_check_node)
    ∷ ("telegram_proxy_disable_node", Command.telegram_proxy_disable_node)
    ∷ []

unfoldable pub named : String → List (String × Command) → Option Command
named kind [] = none
named kind ((name, command) ∷ names) = if str_eq kind name then some command else named kind names

module _ (text_of : ℕ → String) where
  -- `operation.get('target_type') or 'all'` and `operation.get('target_id')`
  abbrev pub target_fields : Target → TargetType × Option String
  target_fields Target.no_target = (TargetType.all, none)
  target_fields Target.all = (TargetType.all, none)
  target_fields (Target.node id) = (TargetType.node, some (text_of id))
  target_fields (Target.remnawave_user id) = (TargetType.remnawave_user, some id)
  target_fields (Target.telegram_proxy_node id) = (TargetType.telegram_proxy_node, some id)

  abbrev pub command_with : AsyncOperation → Command → WorkerCommand
  command_with operation command = record {
    command = command;
    idempotency_key = text_of operation.id;
    operation_id = text_of operation.id;
    track_operation = true;
    target_type = (target_fields operation.target).0;
    target_id = (target_fields operation.target).1;
  }

  -- `command_from_operation`: `none` is the model's ValidationError.
  unfoldable pub command_from_operation : AsyncOperation → Option WorkerCommand
  unfolding named validate_target_type
  command_from_operation operation = elim (named operation.kind command_names) [
    | none ↦ none
    | some command ↦ validate_target_type (command_with operation command)
  ]

  -- What is published of an operation and of those after it, and whether the loop comes to its end: an
  -- exception ends the task, and with it the worker's task group.
  abbrev pub publish_first :
      Option WorkerCommand → List WorkerCommand × Bool → List WorkerCommand × Bool
  publish_first none rest = ([], false)
  publish_first (some command) (published, ended) = (command ∷ published, ended)

  -- The loop over the stale operations in `recover_stale_operations`.
  unfoldable pub republish : List AsyncOperation → List WorkerCommand × Bool
  unfolding command_from_operation
  republish [] = ([], true)
  republish (operation ∷ operations) =
      publish_first (command_from_operation operation) (republish operations)

  -- An operation on a node's Telegram proxy, as the panel queues it, makes no command.
  abbrev pub IsProxyOperation : AsyncOperation → Type 0
  IsProxyOperation operation =
      ((operation.kind ≡ "telegram_proxy_apply_node")
        ⊎ (operation.kind ≡ "telegram_proxy_disable_node"))
      × (id : ℕ) × (operation.target ≡ Target.node id)

  pub command_from_operation-proxy :
      (operation : AsyncOperation)
      → IsProxyOperation operation
      → command_from_operation operation ≡ none
  unfolding command_from_operation str_eq
  command_from_operation-proxy operation (inl kind, id, target) = rw (kind, target) refl
  command_from_operation-proxy operation (inr kind, id, target) = rw (kind, target) refl

  -- The loop over stale operations does not come to its end when one of them is on a node's Telegram
  -- proxy.
  pub republish-proxy :
      (operations : List AsyncOperation) (operation : AsyncOperation)
      → In operation operations
      → IsProxyOperation operation
      → (republish operations).1 ≡ false
  unfolding republish
  republish-proxy [] operation m proxy = absurd m
  republish-proxy (first ∷ operations) operation (inl is) proxy =
      let none_made =
        ap command_from_operation (sym is) ∙ command_from_operation-proxy operation proxy in
      ap (λ (o : Option WorkerCommand). (publish_first o (republish operations)).1) none_made
  republish-proxy (first ∷ operations) operation (inr m) proxy =
      let rest = republish-proxy operations operation m proxy in
      elim (Option-cases (command_from_operation first)) [
        | inl e ↦ ap (λ (o : Option WorkerCommand). (publish_first o (republish operations)).1) e
        | inr (command, e) ↦
            ap (λ (o : Option WorkerCommand). (publish_first o (republish operations)).1) e ∙ rest
      ]
