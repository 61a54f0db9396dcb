-- ===== src/Tests/Numbers.antt =====
-- Widths, budgets of memory, features, validation and the gate of core.
use wqc_node.Base.{
  ◌+◌, ◌*◌, ◌^◌, ◌≤◌, ◌<◌, ◌≡◌, ◌↔◌, true, false, [], ◌∷◌, none, some, ok, arith, All,
}
use wqc_node.Base.Text.{text}
use wqc_node.Core.{no_reply, new_health}
use wqc_node.Core.Gate.{run_new-IsWell, run, compute, Timed, IsWell}
use wqc_node.Json.{size}
use wqc_node.Memory.{max_qubits_from_dense_memory_budget}
use wqc_node.Memory.Width.{dense_width_exact}
use wqc_node.Tests.Fixtures.{hadamard}
use wqc_node.Validation.{validate_circuit_logic}
use wqc_node.Validation.Circuit.{IsValid, validate_circuit_iff}

dense_width_exact_example :
    (16 * 2 ^ max_qubits_from_dense_memory_budget 1000 ≤ 1000)
    × (1000 < 16 * 2 ^ (max_qubits_from_dense_memory_budget 1000 + 1))
dense_width_exact_example = dense_width_exact 1000 (omega arith) (omega arith)

-- A circuit with one Hadamard gate, where no gate is nested.
validate_circuit_iff_example :
    (validate_circuit_logic (λ v. none) 8 (hadamard ∷ []) 2 (text "H" ∷ []) ≡ ok tt)
    ↔ All (IsValid (λ v. none) 2 (text "H" ∷ [])) (hadamard ∷ [])
unfolding size
validate_circuit_iff_example =
    validate_circuit_iff (λ v. none) 8 (hadamard ∷ []) 2 (text "H" ∷ [])
      (λ v g e. absurd (ground (arith, e))) (omega arith, tt)

-- A call whose send fails two seconds after the gate was read.
abbrev refused : Timed
refused = record {
  idle = 1;
  probing = 0;
  sending = 2;
  call =
      compute true (
        no_reply (record { timed_out = false; body_or_decode = false; connect_or_request = true }));
}

run_new-IsWell_example :
    IsWell
      (run 0 (new_health (some 1) (some 30)) (refused ∷ [])).0
      (run 0 (new_health (some 1) (some 30)) (refused ∷ [])).1
run_new-IsWell_example = run_new-IsWell 0 1 30 (refused ∷ []) (omega arith)
