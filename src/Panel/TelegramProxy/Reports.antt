-- ===== src/Panel/TelegramProxy/Reports.antt =====
-- The state of a node's proxy after the worker's reports.
use vpn_management_panel.Prelude.{
  subst, Option-cases, ℕ, ◌≤◌, String, ◌≡◌, refl, sym, ◌∙◌, inl, inr, true, false, ◌&&◌, none, some,
  leb, arith, Bool-cases,
}
use vpn_management_panel.Panel.Models.{ProxyStatus, TelegramProxyNodeState}
use vpn_management_panel.Panel.TelegramProxy.{
  Checked-cases, served, apply_status, value_error, unprocessable, valid, refused, is_serving,
  ProxyResult, apply_result, normalize_ready_host, normalize_ready_port, normalize_public_port,
  serving,
}

valid-is : {a b : TelegramProxyNodeState} → valid a ≡ valid b → a ≡ b
valid-is e = cc

-- A serving proxy has a host and a port that clients can use, and one that does not serve has neither.
pub data IsConsistent : TelegramProxyNodeState → Type 0 where
  serves :
      (state : TelegramProxyNodeState) (host : String) (port : ℕ)
      → is_serving state.status ≡ true
      → state.public_host ≡ some host
      → state.public_port ≡ some port
      → 1 ≤ port
      → port ≤ 65535
      → IsConsistent state
  rests :
      (state : TelegramProxyNodeState)
      → is_serving state.status ≡ false
      → state.public_host ≡ none
      → state.public_port ≡ none
      → IsConsistent state

port-bounds : (port p : ℕ) → normalize_public_port port ≡ valid p → (1 ≤ p) × (p ≤ 65535)
unfolding normalize_public_port
port-bounds port p e = elim (Bool-cases (leb 1 port && leb port 65535)) [
  | inl within ↦
      let left : valid port ≡ valid p = sym (rw within refl) ∙ e in
      let is : port ≡ p = cc in ground arith
  | inr out ↦ let left : refused value_error ≡ valid p = sym (rw out refl) ∙ e in cc
]

ready_port-bounds :
    (r : ProxyResult) (p : ℕ) → normalize_ready_port r ≡ valid p → (1 ≤ p) × (p ≤ 65535)
unfolding normalize_ready_port
ready_port-bounds r p e = elim (Option-cases r.public_port) [
  | inl absent ↦ let left : refused unprocessable ≡ valid p = sym (rw absent refl) ∙ e in cc
  | inr (port, there) ↦
      let left : normalize_public_port port ≡ valid p = sym (rw there refl) ∙ e in
      port-bounds port p left
]

served-IsConsistent :
    (now : ℕ) (r : ProxyResult) (state state' : TelegramProxyNodeState) (status : ProxyStatus)
    → is_serving status ≡ true
    → served now r state status ≡ valid state'
    → IsConsistent state'
served-IsConsistent now r state state' status serves_now e =
    elim (Checked-cases (normalize_ready_host r)) [
      | inl (x, bad) ↦ let left : refused x ≡ valid state' = sym (rw (served, bad) refl) ∙ e in cc
      | inr (host, good) ↦ elim (Checked-cases (normalize_ready_port r)) [
        | inl (x, bad) ↦
            let left : refused x ≡ valid state' = sym (rw (served, good, bad) refl) ∙ e in cc
        | inr (port, fine) ↦
            let left : valid (serving now status host port state) ≡ valid state' =
              sym (rw (served, good, fine) refl) ∙ e in
            let is : serving now status host port state ≡ state' = cc in
            let (low, high) = ready_port-bounds r port fine in
            subst IsConsistent is
              (serves (serving now status host port state) host port serves_now refl refl low high)
      ]
    ]

apply_status-IsConsistent :
    (now : ℕ) (r : ProxyResult) (state state' : TelegramProxyNodeState) (status : ProxyStatus)
    → apply_status now r state status ≡ valid state'
    → IsConsistent state'
unfolding apply_status
apply_status-IsConsistent now r state state' ProxyStatus.active e =
    served-IsConsistent now r state state' ProxyStatus.active refl e
apply_status-IsConsistent now r state state' ProxyStatus.ready e =
    served-IsConsistent now r state state' ProxyStatus.ready refl e
apply_status-IsConsistent now r state state' ProxyStatus.failed e =
    subst IsConsistent (valid-is e) (rests _ refl refl refl)
apply_status-IsConsistent now r state state' ProxyStatus.disabled e =
    subst IsConsistent (valid-is e) (rests _ refl refl refl)
apply_status-IsConsistent now r state state' ProxyStatus.unknown e =
    subst IsConsistent (valid-is e) (rests _ refl refl refl)

-- After any report that the panel accepts, a proxy that serves has a host and a port within 1 and 65535,
-- and one that does not serve has neither.
pub apply_result-IsConsistent :
    (now : ℕ) (r : ProxyResult) (state state' : TelegramProxyNodeState)
    → apply_result now r state ≡ valid state'
    → IsConsistent state'
unfolding apply_result
apply_result-IsConsistent now r state state' e =
    apply_status-IsConsistent now r state state' r.status e
