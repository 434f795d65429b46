-- ===== src/Worker/Dispatch/Reported.antt =====
-- What the queue sees of a command, and what the backend sees of its operation.
use vpn_management_panel.Prelude.{
  String, ◌≡◌, refl, sym, ◌∙◌, inl, inr, Bool, true, false, none, Bool-cases, if◌then◌else◌,
}
use vpn_management_panel.Worker.NodeClient.{
  Exception, message_of, Io, Outcome-cases, done, raised, ◌>>=◌, ◌>>◌, pure, raise, catch,
  raised-as, >>=-raised, >>=-done, catch-done, catch-raised,
}
use vpn_management_panel.Worker.Queue.{WorkerCommand}
use vpn_management_panel.Worker.Handlers.{has_status}
use vpn_management_panel.Worker.Dispatch.{
  Backend, HandlerResult, CommandResult, not_ok, skipped, start, dispatch, command_result, handle,
}

module _ {S : Type 0} (backend : Backend S) (handler : WorkerCommand → Io S HandlerResult)
    (command : WorkerCommand) where
  -- The computation that `handle` guards.
  abbrev guarded : Io S CommandResult
  guarded = dispatch backend handler command >>= λ result. pure (command_result result)

  abbrev on_error : Exception → Io S CommandResult
  on_error e =
      if command.track_operation
      then (backend.fail_operation command.operation_id (message_of e)
          >> pure (not_ok (message_of e)))
      else pure (not_ok (message_of e))

  fail-raised :
      (e e' : Exception) (s s' : S)
      → on_error e s ≡ raised e' s'
      → (command.track_operation ≡ true)
        × (backend.fail_operation command.operation_id (message_of e) s ≡ raised e' s')
  fail-raised e e' s s' run = elim (Bool-cases command.track_operation) [
    | inr untracked ↦
        let left : on_error e s ≡ done (not_ok (message_of e)) s = rw untracked refl in cc
    | inl tracked ↦
        let left : on_error e s
            ≡ (backend.fail_operation command.operation_id (message_of e)
                  >> pure (not_ok (message_of e)))
                s =
          rw tracked refl in
        elim (Outcome-cases (backend.fail_operation command.operation_id (message_of e) s)) [
          | inr (u, s₁, q) ↦
              let answered =
                >>=-done (backend.fail_operation command.operation_id (message_of e))
                  (λ _. pure (not_ok (message_of e))) q in
              cc
          | inl (e₁, s₁, q) ↦
              let ended =
                >>=-raised (backend.fail_operation command.operation_id (message_of e))
                  (λ _. pure (not_ok (message_of e))) q in
              (tracked, raised-as q (left ∙ ended) run)
        ]
  ]

  -- A command's handling raises, whatever its handler does, only if the command is tracked and the backend
  -- raised when it was told that the operation failed.
  pub handle-raised :
      (s s' : S) (e : Exception)
      → handle backend handler command s ≡ raised e s'
      → (command.track_operation ≡ true)
        × (message : String) × (s₁ : S) × (backend.fail_operation command.operation_id message s₁
            ≡ raised e s')
  unfolding handle
  handle-raised s s' e run = elim (Outcome-cases (guarded s)) [
    | inr (r, s₁, q) ↦ let answered = catch-done guarded on_error q in cc
    | inl (e₁, s₁, q) ↦
        let caught = catch-raised guarded on_error q in
        let (tracked, failed) = fail-raised e₁ e s₁ s' (sym caught ∙ run) in
        (tracked, message_of e₁, s₁, failed)
  ]

  -- An operation that another worker has started (409) is left alone: the command is skipped, and the world
  -- is the one that the refused start left.
  pub handle-skipped :
      (s s' : S) (e : Exception)
      → command.track_operation ≡ true
      → backend.start_operation command.operation_id s ≡ raised e s'
      → has_status 409 e ≡ true
      → handle backend handler command s ≡ done skipped s'
  unfolding handle dispatch
  handle-skipped s s' e tracked refused conflict =
      let begin : Io S Bool =
        catch (backend.start_operation command.operation_id >> pure true)
          (λ e. if has_status 409 e then pure false else raise e) in
      let stopped =
        >>=-raised (backend.start_operation command.operation_id) (λ _. pure true) refused in
      let not_started : begin s ≡ done false s' =
        catch-raised (backend.start_operation command.operation_id >> pure true)
          (λ e. if has_status 409 e then pure false else raise e) stopped
        ∙ rw conflict refl in
      let unstarted : start backend command s ≡ done false s' = rw tracked not_started in
      let nothing : dispatch backend handler command s ≡ done none s' =
        >>=-done (start backend command) _ unstarted in
      catch-done guarded on_error (>>=-done (dispatch backend handler command) _ nothing)
