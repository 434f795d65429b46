-- ===== src/Worker/Recovery/Tests.antt =====
-- A stale operation on a proxy between two others.
use vpn_management_panel.Prelude.{
  ℕ, String, ◌≡◌, refl, inl, inr, true, false, none, some, List, [], ◌∷◌,
}
use vpn_management_panel.Panel.Models.{AsyncOperation, OperationStatus, Target, Db}
use vpn_management_panel.Panel.Errors.{ok}
use vpn_management_panel.Panel.Tests.{small}
use vpn_management_panel.Panel.TelegramProxy.Requests.{disable, answer, disable_telegram_proxy}
use vpn_management_panel.Worker.Recovery.{republish, republish-proxy, command_from_operation}
use vpn_management_panel.Worker.Recovery.Queued.{answer-lost}

abbrev queued : ℕ → String → Target → AsyncOperation
queued id kind target = record {
  id = id;
  kind = kind;
  target = target;
  status = OperationStatus.queued;
  attempts = 0;
  error = none;
  result = none;
  updated_at = 0;
  finished_at = none;
}

abbrev stale : List AsyncOperation
stale =
    queued 1 "sync_node" (Target.node 1)
    ∷ queued 2 "telegram_proxy_apply_node" (Target.node 1)
    ∷ queued 3 "sync_all" Target.all
    ∷ []

republish-proxy_example : (republish (λ id. "1") stale).1 ≡ false
republish-proxy_example =
    republish-proxy (λ id. "1") stale (queued 2 "telegram_proxy_apply_node" (Target.node 1))
      (inr (inl refl)) (inl refl, 1, refl)

abbrev with_proxy : Db
with_proxy = record small {
  proxy_settings = some (record {
    enabled = true;
    port = 443;
    tls_domain = "cloudsyncpro.net";
    secret_encrypted = some "secret";
    primary_node_id = some 1;
    last_rotation_at = none;
    last_rotation_reason = none;
    last_rotation_error = none;
  });
}

abbrev disabling : AsyncOperation
disabling = queued 7 "telegram_proxy_disable_node" (Target.node 1)

asked :
    (db' : Db) × (answer 0
        (λ operations. 7)
        (λ operation. none)
        (λ text. text)
        "new"
        disable
        with_proxy
      ≡ ok (disabling, db'))
unfolding disable_telegram_proxy
asked = (_, refl)

answer-lost_example : command_from_operation (λ id. "1") disabling ≡ none
answer-lost_example =
    answer-lost 0 (λ operations. 7) (λ operation. none) (λ text. text) "new" (λ id. "1") disable
      with_proxy asked.0 disabling asked.1
