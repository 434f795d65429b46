-- ===== src/Worker/TelegramProxy/Refused.antt =====
-- A running proxy whose agent leaves out its host or its port.
use vpn_management_panel.Prelude.{
  ℕ, String, ◌≡◌, refl, ap, ◌∙◌, ◌⊎◌, inl, inr, Option, none, some, str_eq, text_or, filled,
}
use vpn_management_panel.Panel.Models.{ProxyStatus, TelegramProxyNodeState}
use vpn_management_panel.Panel.TelegramProxy.{
  refused, unprocessable, ProxyResult, apply_result, normalize_ready_host,
}
use vpn_management_panel.Worker.TelegramProxy.{MtproxyStatus, running_result, telegram_proxy_result}

running-active :
    (host : Option String) (port : Option ℕ)
    → (host ≡ none) ⊎ (port ≡ none)
    → running_result host port
      ≡ record { status = ProxyStatus.active; error = none; public_host = none; public_port = none }
unfolding running_result
running-active none port missing = refl
running-active (some host) none missing = refl
running-active (some host) (some port) (inl e) = cc
running-active (some host) (some port) (inr e) = cc

running-result :
    (status : MtproxyStatus)
    → status.state ≡ some "running"
    → telegram_proxy_result status ≡ running_result status.public_host status.port
unfolding telegram_proxy_result str_eq filled text_or
running-result status runs = rw runs refl

-- The panel refuses what the worker reports of a proxy that runs and whose agent names no host or no port:
-- it asks for the host that the report `active` never has.
pub telegram_proxy_result-refused :
    (now : ℕ) (status : MtproxyStatus) (state : TelegramProxyNodeState)
    → status.state ≡ some "running"
    → (status.public_host ≡ none) ⊎ (status.port ≡ none)
    → apply_result now (telegram_proxy_result status) state ≡ refused unprocessable
unfolding apply_result normalize_ready_host
telegram_proxy_result-refused now status state runs missing =
    ap (λ (r : ProxyResult). apply_result now r state)
      (running-result status runs ∙ running-active status.public_host status.port missing)
