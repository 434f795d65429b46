-- ===== src/Panel/Tests/Reports.antt =====
-- The reports of the worker on a tracked operation.
use vpn_management_panel.Prelude.{refl, [], ◌∷◌}
use vpn_management_panel.Panel.Models.{OperationStatus, AsyncOperation, Db}
use vpn_management_panel.Panel.Operations.{started, start_operation}
use vpn_management_panel.Panel.Operations.StateMachine.{HasMoved, start, handle-HasMoved}
use vpn_management_panel.Panel.Tests.{small, sync}

abbrev waiting : Db
waiting = record small { operations = sync ∷ [] }

abbrev underway : Db
underway = record small { operations = started 60 sync ∷ [] }

abbrev over : AsyncOperation
over = record sync { status = OperationStatus.failed_by_timeout }

handle-HasMoved_example : HasMoved 40 sync (started 60 sync) underway
unfolding start_operation
handle-HasMoved_example =
    handle-HasMoved 60 start 40 waiting underway sync (started 60 sync) refl refl
