-- ===== src/Panel/Operations/StateMachine.antt =====
-- panel/backend/app/routers/internal_worker_parts/operations.py: the states that a tracked operation
-- goes through.
use vpn_management_panel.Prelude.{
  ℕ, String, Bool, true, false, not, ◌&&◌, ◌≡◌, refl, sym, ap, ◌∙◌, Option, some, List, [], ◌∷◌,
  ◌==◌, arith, inl, inr, Bool-cases,
}
use vpn_management_panel.Panel.Models.{OperationStatus, AsyncOperation, Db}
use vpn_management_panel.Panel.Errors.{ok, err, M, conflict}
use vpn_management_panel.Panel.Operations.{
  find_operation, write_operation, is_startable, is_running, transition, started, start_operation,
  succeed_operation, fail_operation, timeout_operation,
}

-- The four handlers, with what the worker sends.
pub data Report : Type 0 where
  start timeout : Report
  succeed : Option String → Report
  fail : (error result : Option String) → Report

abbrev pub handle : ℕ → Report → ℕ → M AsyncOperation
handle now start = start_operation now
handle now timeout = timeout_operation now
handle now (succeed result) = succeed_operation now result
handle now (fail error result) = fail_operation now error result

-- The moves between states.
pub data Move : OperationStatus → OperationStatus → Type 0 where
  queued_started : Move OperationStatus.queued OperationStatus.running
  pending_started : Move OperationStatus.pending OperationStatus.running
  running_succeeded : Move OperationStatus.running OperationStatus.succeeded
  running_failed : Move OperationStatus.running OperationStatus.failed
  running_timed_out : Move OperationStatus.running OperationStatus.failed_by_timeout

-- A state that no report leaves.
abbrev pub is_final : OperationStatus → Bool
is_final status = not (is_startable status) && not (is_running status)

find_operation-write :
    (id : ℕ) (f : AsyncOperation → AsyncOperation) (rows : List AsyncOperation) (o : AsyncOperation)
    → ((x : AsyncOperation) → (f x).id ≡ x.id)
    → find_operation id rows ≡ some o
    → find_operation id (write_operation id f rows) ≡ some (f o)
find_operation-write id f [] o same e = cc
find_operation-write id f (x ∷ rows) o same e =
    let kept = same x in
    elim (Bool-cases (x.id == id)) [
      | inl hit ↦ let e' : x ≡ o = ground arith in ground arith
      | inr miss ↦ let rest = find_operation-write id f rows o same (ground arith) in ground arith
    ]

module _ (allowed : OperationStatus → Bool) (write : AsyncOperation → AsyncOperation) (id : ℕ)
    (db : Db) (o : AsyncOperation) (found : find_operation id db.operations ≡ some o) where
  abbrev written : Db
  written = record db { operations = write_operation id write db.operations }

  transition-allowed :
      allowed o.status ≡ true → transition allowed write id db ≡ ok (write o, written)
  unfolding transition
  transition-allowed a = rw (found, transition, a) refl

  transition-refused : allowed o.status ≡ false → transition allowed write id db ≡ err conflict
  unfolding transition
  transition-refused a = rw (found, transition, a) refl

  -- A success says that the state was allowed, and what the row is now.
  transition-ok :
      (answer : AsyncOperation) (after : Db)
      → ((x : AsyncOperation) → (write x).id ≡ x.id)
      → transition allowed write id db ≡ ok (answer, after)
      → (allowed o.status ≡ true)
        × (answer ≡ write o)
        × (find_operation id after.operations ≡ some answer)
  transition-ok answer after same e = elim (Bool-cases (allowed o.status)) [
    | inr a ↦ let refused = transition-refused a in cc
    | inl a ↦
        let passed = transition-allowed a in
        let row : answer ≡ write o = cc in
        let rest : after ≡ written = cc in
        let there = find_operation-write id write db.operations o same found in
        (a, row, ap (λ (d : Db). find_operation id d.operations) rest ∙ there ∙ ap some (sym row))
  ]

startable-Move : (s : OperationStatus) → is_startable s ≡ true → Move s OperationStatus.running
startable-Move OperationStatus.queued e = queued_started
startable-Move OperationStatus.pending e = pending_started
startable-Move OperationStatus.running e = cc
startable-Move OperationStatus.succeeded e = cc
startable-Move OperationStatus.failed e = cc
startable-Move OperationStatus.failed_by_timeout e = cc
startable-Move OperationStatus.enqueue_failed e = cc
startable-Move (OperationStatus.other t) e = cc

running-same : (s : OperationStatus) → is_running s ≡ true → s ≡ OperationStatus.running
running-same s e = ground arith

-- The row moves, and the answer is the row that is stored.
abbrev pub HasMoved : ℕ → AsyncOperation → AsyncOperation → Db → Type 0
HasMoved id before answer after =
    Move before.status answer.status × (find_operation id after.operations ≡ some answer)

finish-HasMoved :
    (status : OperationStatus) (write : AsyncOperation → AsyncOperation) (id : ℕ) (db after : Db)
    (o answer : AsyncOperation)
    → Move OperationStatus.running status
    → ((x : AsyncOperation) → (write x).id ≡ x.id)
    → ((x : AsyncOperation) → (write x).status ≡ status)
    → find_operation id db.operations ≡ some o
    → transition is_running write id db ≡ ok (answer, after)
    → HasMoved id o answer after
finish-HasMoved status write id db after o answer move same writes found e =
    let (a, row, there) = transition-ok is_running write id db o found answer after same e in
    let now : answer.status ≡ status = ap (λ (x : AsyncOperation). x.status) row ∙ writes o in
    (rw (running-same o.status a, now) move, there)

-- A report that is accepted takes the operation along one of the five moves, and its answer is the row
-- that is stored.
pub handle-HasMoved :
    (now : ℕ) (report : Report) (id : ℕ) (db after : Db) (o answer : AsyncOperation)
    → find_operation id db.operations ≡ some o
    → handle now report id db ≡ ok (answer, after)
    → HasMoved id o answer after
unfolding start_operation succeed_operation fail_operation timeout_operation
handle-HasMoved now start id db after o answer found e =
    let (a, row, there) =
      transition-ok is_startable (started now) id db o found answer after (λ x. refl) e in
    (rw row (startable-Move o.status a), there)
handle-HasMoved now timeout id db after o answer found e =
    finish-HasMoved OperationStatus.failed_by_timeout _ id db after o answer running_timed_out
      (λ x. refl) (λ x. refl) found e
handle-HasMoved now (succeed result) id db after o answer found e =
    finish-HasMoved OperationStatus.succeeded _ id db after o answer running_succeeded (λ x. refl)
      (λ x. refl) found e
handle-HasMoved now (fail error result) id db after o answer found e =
    finish-HasMoved OperationStatus.failed _ id db after o answer running_failed (λ x. refl)
      (λ x. refl) found e

-- No report is accepted in a state that is neither startable nor running, so
-- nothing is finished twice.
pub handle-final :
    (now : ℕ) (report : Report) (id : ℕ) (db : Db) (o : AsyncOperation)
    → find_operation id db.operations ≡ some o
    → is_final o.status ≡ true
    → handle now report id db ≡ err conflict
unfolding start_operation succeed_operation fail_operation timeout_operation
handle-final now start id db o found f =
    transition-refused is_startable _ id db o found (ground (arith, f))
handle-final now timeout id db o found f =
    transition-refused is_running _ id db o found (ground (arith, f))
handle-final now (succeed result) id db o found f =
    transition-refused is_running _ id db o found (ground (arith, f))
handle-final now (fail error result) id db o found f =
    transition-refused is_running _ id db o found (ground (arith, f))

-- After a start that was accepted, a second one is refused, at any time.
pub start_operation-once :
    (now now' id : ℕ) (db after : Db) (o answer : AsyncOperation)
    → find_operation id db.operations ≡ some o
    → start_operation now id db ≡ ok (answer, after)
    → start_operation now' id after ≡ err conflict
unfolding start_operation
start_operation-once now now' id db after o answer found e =
    let (a, row, there) =
      transition-ok is_startable (started now) id db o found answer after (λ x. refl) e in
    transition-refused is_startable (started now') id after answer there (rw row refl)
