-- ===== src/Panel/TelegramProxy/Tests.antt =====
-- A report of a serving proxy.
use vpn_management_panel.Prelude.{
  text_length, true, false, ◌≡◌, refl, none, some, filled, strip, has_char, starts_with, lower,
  str_eq,
}
use vpn_management_panel.Panel.Models.{ProxyStatus, TelegramProxyNodeState}
use vpn_management_panel.Panel.TelegramProxy.{valid, ProxyResult, apply_result, serving, has_scheme}
use vpn_management_panel.Panel.TelegramProxy.{is_dd_secret, is_normal_secret, base_secret}
use vpn_management_panel.Panel.TelegramProxy.Secrets.{base_secret-length}
use vpn_management_panel.Panel.TelegramProxy.Reports.{IsConsistent, apply_result-IsConsistent}

abbrev fresh_state : TelegramProxyNodeState
fresh_state = record {
  node_id = 1;
  status = ProxyStatus.unknown;
  public_host = none;
  public_port = none;
  last_applied_at = none;
  last_checked_at = none;
  last_error = none;
}

abbrev ready_report : ProxyResult
ready_report = record {
  status = ProxyStatus.ready;
  error = none;
  public_host = some "Vpn.Example";
  public_port = some 443;
}

abbrev ready_state : TelegramProxyNodeState
ready_state = serving 9 ProxyStatus.ready "vpn.example" 443 fresh_state

accepted : apply_result 9 ready_report fresh_state ≡ valid ready_state
unfolding apply_result str_eq filled strip has_char starts_with lower has_scheme
accepted = refl

apply_result-IsConsistent_example : IsConsistent ready_state
apply_result-IsConsistent_example =
    apply_result-IsConsistent 9 ready_report fresh_state ready_state accepted

base_secret-length_example :
    ((is_dd_secret "dd0123456789abcdef0123456789abcd" ≡ true)
      → text_length (base_secret "dd0123456789abcdef0123456789abcd") ≡ 32)
    × (is_normal_secret "dd0123456789abcdef0123456789abcd" ≡ true
        → starts_with "dd" "dd0123456789abcdef0123456789abcd" ≡ false
        → text_length (base_secret "dd0123456789abcdef0123456789abcd") ≡ 32)
    × (is_normal_secret "dd0123456789abcdef0123456789abcd" ≡ true
        → starts_with "dd" "dd0123456789abcdef0123456789abcd" ≡ true
        → text_length (base_secret "dd0123456789abcdef0123456789abcd") ≡ 30)
base_secret-length_example = base_secret-length "dd0123456789abcdef0123456789abcd"
