-- ===== src/Tests/Dispatch.antt =====
-- Accepting a dispatched sub-task, and its result.
use wqc_node.Base.{◌≡◌, ◌⊎◌, refl, true, false, [], ◌∷◌, Option, none, some, ok, err, arith}
use wqc_node.Accept.{task_of, accept_compute_task, compact_qubit_limit, Accepted}
use wqc_node.Accept.Cases.{accept_compute_task-IsCounted, IsCounted}
use wqc_node.Accept.Twice.{accept_twice}
use wqc_node.Base.Bytes.{Bytes}
use wqc_node.Base.Int.{pos}
use wqc_node.Base.Text.{text, text_eq, contains}
use wqc_node.Models.{ComputeRequest}
use wqc_node.ResultOutbox.{failure, build_result_wire_body, deliver_result, not_sent}
use wqc_node.ResultOutbox.Settled.{deliver_result-settled, row_of}
use wqc_node.Storage.{ResultCols}
use wqc_node.Storage.Tasks.{load_task}
use wqc_node.Storage.Rows.{Row, find_row}
use wqc_node.Tests.Fixtures.{request, state, task, fresh}
use wqc_node.Validation.{
  validate_circuit_logic, validate_from, validate_gate, validate_qubit_params, check_qubit_values,
}
use wqc_node.Worker.{error_payload}

abbrev bytes_of : ComputeRequest → Option Bytes
bytes_of r = some r.task_id

abbrev first : Accepted
first =
    accept_compute_task bytes_of (λ v. none) 1 request (text "key") none 5 (pos 1) (λ s. s) state

accept_compute_task-IsCounted_example :
    IsCounted (task_of request (text "key") none 5 state) state first
accept_compute_task-IsCounted_example =
    accept_compute_task-IsCounted bytes_of (λ v. none) 1 request (text "key") none 5 (pos 1)
      (λ s. s) state (ground arith)

accept_twice_example :
    ((load_task (text "key") (text "sub") first.1.storage).0
      ≡ ok (some (task_of request (text "key") none 5 state)))
    × ((first.0 ≡ ok tt) × (first.1.queue ≡ task_of request (text "key") none 5 state ∷ []))
    × (accept_compute_task bytes_of
          (λ v. none)
          1
          request
          (text "key")
          none
          9
          (pos 2)
          (λ s. s)
          first.1
        ≡ (ok tt, first.1))
unfolding load_task find_row validate_circuit_logic compact_qubit_limit validate_from validate_gate
    validate_qubit_params check_qubit_values contains
accept_twice_example =
    accept_twice bytes_of (λ v. none) 1 request (text "key") (text "sub") none none 5 9 (pos 1)
      (pos 2) (λ s. s) state refl refl (ground arith, refl) refl

deliver_result-settled_example :
    let (r, built, db') =
      deliver_result
        (λ w. some (text "body"))
        (λ b. false)
        (text "node-a")
        task
        (error_payload task (text "late"))
        (pos 1)
        fresh in
    ((false ≡ true) × (r ≡ ok tt) × (row_of task db' ≡ none))
    ⊎ ((false ≡ false)
        × (r ≡ err not_sent)
        × ((row : Row ResultCols) × (row_of task db' ≡ some row)
            × (row.cols.wire_body ≡ text "body")
            × (row.cols.attempts ≡ 0)))
unfolding build_result_wire_body error_payload text_eq
deliver_result-settled_example =
    deliver_result-settled (λ w. some (text "body")) (λ b. false) (text "node-a") task
      (error_payload task (text "late")) (pos 1)
      (failure (text "sub") (text "node-a") (text "late")) (text "body") fresh refl refl refl
