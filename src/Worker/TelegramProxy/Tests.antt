-- ===== src/Worker/TelegramProxy/Tests.antt =====
-- A proxy that runs without a host.
use vpn_management_panel.Prelude.{◌≡◌, refl, inl, none, some}
use vpn_management_panel.Panel.Models.{ProxyStatus, TelegramProxyNodeState}
use vpn_management_panel.Panel.TelegramProxy.{refused, unprocessable, apply_result}
use vpn_management_panel.Worker.TelegramProxy.{MtproxyStatus, telegram_proxy_result, redact}
use vpn_management_panel.Worker.TelegramProxy.Refused.{telegram_proxy_result-refused}

abbrev hostless : MtproxyStatus
hostless = record { state = some "running"; public_host = none; port = some 443 }

abbrev state_before : TelegramProxyNodeState
state_before = record {
  node_id = 1;
  status = ProxyStatus.unknown;
  public_host = none;
  public_port = none;
  last_applied_at = none;
  last_checked_at = none;
  last_error = none;
}

redact_test : redact 0 "abc" "xabcabcy" ≡ "x<redacted><redacted>y"
unfolding redact
redact_test = refl

telegram_proxy_result-refused_example :
    apply_result 9 (telegram_proxy_result hostless) state_before ≡ refused unprocessable
telegram_proxy_result-refused_example =
    telegram_proxy_result-refused 9 hostless state_before refl (inl refl)
