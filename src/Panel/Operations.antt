-- ===== src/Panel/Operations.antt =====
-- panel/backend/app/services/operations.py and routers/internal_worker_parts/operations.py: the
-- tracked operations that the worker starts and finishes. The clock, the ids that are drawn, and
-- what the message broker answers are parameters.
pub mod StateMachine
use vpn_management_panel.Prelude.{
  ℕ, ◌+◌, String, Bool, true, false, Option, none, some, List, [], ◌∷◌, ◌++◌, map, ◌==◌, text_or,
  find, update_if, if◌then◌else◌,
}
use vpn_management_panel.Panel.Models.{OperationStatus, Target, AsyncOperation, Db}
use vpn_management_panel.Panel.Errors.{ok, err, M, not_found, conflict}

abbrev pub find_operation : ℕ → List AsyncOperation → Option AsyncOperation
find_operation operation_id = find (λ o. o.id == operation_id)

abbrev pub write_operation :
    ℕ → (AsyncOperation → AsyncOperation) → List AsyncOperation → List AsyncOperation
write_operation operation_id f = map (update_if (λ (o : AsyncOperation). o.id == operation_id) f)

-- `status in {'queued', 'pending'}`
abbrev pub is_startable : OperationStatus → Bool
is_startable OperationStatus.queued = true
is_startable OperationStatus.pending = true
is_startable _ = false

-- `status in {'running'}`
abbrev pub is_running : OperationStatus → Bool
is_running OperationStatus.running = true
is_running _ = false

-- `_operation` and `_ensure_status`, then the writes to the row; the answer is the row.
unfoldable pub transition :
    (OperationStatus → Bool) → (AsyncOperation → AsyncOperation) → ℕ → M AsyncOperation
transition allowed write operation_id db = elim (find_operation operation_id db.operations) [
  | none ↦ err not_found
  | some operation ↦
      if allowed operation.status
      then ok (
        write operation,
        record db { operations = write_operation operation_id write db.operations },
      )
      else err conflict
]

abbrev pub started : ℕ → AsyncOperation → AsyncOperation
started now o = record o {
  status = OperationStatus.running;
  attempts = o.attempts + 1;
  error = none;
  updated_at = now;
}

-- The writes that end a running operation.
abbrev pub finished :
    OperationStatus → Option String → Option String → ℕ → AsyncOperation → AsyncOperation
finished status error result now o = record o {
  status = status;
  error = error;
  result = result;
  updated_at = now;
  finished_at = some now;
}

module _ (now : ℕ) where
  unfoldable pub start_operation : ℕ → M AsyncOperation
  unfolding transition
  start_operation = transition is_startable (started now)

  -- `result` is the text of the worker's result.
  unfoldable pub succeed_operation : Option String → ℕ → M AsyncOperation
  unfolding transition
  succeed_operation result =
      transition is_running (finished OperationStatus.succeeded none result now)

  unfoldable pub fail_operation : Option String → Option String → ℕ → M AsyncOperation
  unfolding transition text_or
  fail_operation error result =
      transition is_running (
        finished OperationStatus.failed (some (text_or error "Worker reported failure")) result now)

  -- The result that was stored stays.
  unfoldable pub timeout_operation : ℕ → M AsyncOperation
  unfolding transition
  timeout_operation = transition is_running λ o.
      finished OperationStatus.failed_by_timeout
        (some "Operation exceeded running timeout and needs manual action") o.result now o

module _ (draw_id : List AsyncOperation → ℕ) (publish : AsyncOperation → Option String) where
  abbrev pub new_operation : String → Target → ℕ → Db → AsyncOperation
  new_operation kind target now db = record {
    id = draw_id db.operations;
    kind = kind;
    target = target;
    status = OperationStatus.queued;
    attempts = 0;
    error = none;
    result = none;
    updated_at = now;
    finished_at = none;
  }

  -- The row is committed first; `publish` answers with the text of the exception, if there is one,
  -- cut to 500 characters.
  unfoldable pub enqueue_operation : AsyncOperation → Db → Db
  enqueue_operation operation db =
      let db' = record db { operations = db.operations ++ operation ∷ [] } in
      elim (publish operation) [
        | none ↦ db'
        | some text ↦ record db' {
          operations =
              write_operation operation.id
                (λ o. record o { status = OperationStatus.enqueue_failed; error = some text })
                db'.operations;
        }
      ]

  -- `enqueue_sync_nodes` and `enqueue_remnawave_disable_users`, over the targets in their order.
  unfoldable pub enqueue_all : String → List Target → ℕ → Db → Db
  unfolding enqueue_operation
  enqueue_all kind [] now db = db
  enqueue_all kind (target ∷ targets) now db =
      enqueue_all kind targets now (enqueue_operation (new_operation kind target now db) db)
