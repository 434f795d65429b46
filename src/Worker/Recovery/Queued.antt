-- ===== src/Worker/Recovery/Queued.antt =====
-- The operations that the panel queues for a Telegram proxy, as the worker takes them up.
use vpn_management_panel.Prelude.{
  ℕ, String, ◌≡◌, refl, sym, ap, ◌∙◌, inl, inr, Bool, not, Option, none, List, truthy, true, false,
  if◌then◌else◌, Option-cases,
}
use vpn_management_panel.Panel.Models.{Node, Target, AsyncOperation, Db}
use vpn_management_panel.Panel.Errors.{Result, ok, err, M, ◌>>=◌, >>=-inv, conflict, raise}
use vpn_management_panel.Panel.TelegramProxy.Requests.{
  get_settings, primary_node, enqueue_for, ProxyRequest, apply, disable, rotate, answer, answered,
  apply_telegram_proxy, disable_telegram_proxy, rotate_telegram_proxy_secret,
}
use vpn_management_panel.Panel.Operations.{new_operation}
use vpn_management_panel.Worker.Recovery.{command_from_operation, command_from_operation-proxy}

-- A guard that did not raise.
if-conflict :
    {A : Type 0} (b : Bool) (m : M A) (db : Db) {r : A × Db}
    → (if b then raise conflict else m) db ≡ ok r
    → m db ≡ ok r
if-conflict true m db e = cc
if-conflict false m db e = e

-- The row of an answer, with one to fall back on.
abbrev answer_of : AsyncOperation → Result (AsyncOperation × Db) → AsyncOperation
answer_of o (ok (operation, db)) = operation
answer_of o (err e) = o

module _ (now : ℕ) (draw_id : List AsyncOperation → ℕ)
    (publish : AsyncOperation → Option String) where
  answered-target :
      (o : AsyncOperation)
      → ((answered now draw_id publish o).kind ≡ o.kind)
        × ((answered now draw_id publish o).target ≡ o.target)
  answered-target o = elim (Option-cases (publish o)) [
    | inl e ↦ rw (answered, e) (refl, refl)
    | inr (text, e) ↦ rw (answered, e) (refl, refl)
  ]

  enqueue_for-target :
      (kind : String) (node : Node) (db db' : Db) (operation : AsyncOperation)
      → enqueue_for now draw_id publish kind node db ≡ ok (operation, db')
      → (operation.kind ≡ kind) × (operation.target ≡ Target.node node.id)
  unfolding enqueue_for
  enqueue_for-target kind node db db' operation e =
      let new = new_operation draw_id publish kind (Target.node node.id) now db in
      let (same_kind, same_target) = answered-target new in
      let is : answered now draw_id publish new ≡ operation = ap (answer_of operation) e in
      (
        ap (λ (o : AsyncOperation). o.kind) (sym is) ∙ same_kind,
        ap (λ (o : AsyncOperation). o.target) (sym is) ∙ same_target,
      )

  module _ (encrypt : String → String) (draw_secret : String) (text_of : ℕ → String) where
    -- Every operation that a request on the Telegram proxy queues is one that the worker, when it finds it
    -- stale, fails to make a command of.
    pub answer-lost :
        (request : ProxyRequest) (db db' : Db) (operation : AsyncOperation)
        → answer now draw_id publish encrypt draw_secret request db ≡ ok (operation, db')
        → command_from_operation text_of operation ≡ none
    unfolding apply_telegram_proxy disable_telegram_proxy rotate_telegram_proxy_secret
    answer-lost apply db db' operation e =
        let (settings, db₁, got, rest) = >>=-inv get_settings _ db e in
        let queue : M AsyncOperation = primary_node settings >>= λ node.
        enqueue_for now draw_id publish "telegram_proxy_apply_node" node in
        let unguarded = if-conflict (not (truthy settings.secret_encrypted)) queue db₁ (
          if-conflict (not settings.enabled)
            (if not (truthy settings.secret_encrypted) then raise conflict else queue) db₁ rest) in
        let (node, db₂, found, last) = >>=-inv (primary_node settings) _ db₁ unguarded in
        let (kind, target) = enqueue_for-target _ node db₂ db' operation last in
        command_from_operation-proxy text_of operation (inl kind, node.id, target)
    answer-lost disable db db' operation e =
        let (settings, db₁, got, rest) = >>=-inv get_settings _ db e in
        let (node, db₂, found, more) = >>=-inv (primary_node settings) _ db₁ rest in
        let (kind, target) = enqueue_for-target _ node _ db' operation more in
        command_from_operation-proxy text_of operation (inr kind, node.id, target)
    answer-lost rotate db db' operation e =
        let (settings, db₁, got, rest) = >>=-inv get_settings _ db e in
        let (node, db₂, found, more) = >>=-inv (primary_node settings) _ db₁ rest in
        let (kind, target) = enqueue_for-target _ node _ db' operation more in
        command_from_operation-proxy text_of operation (inl kind, node.id, target)
