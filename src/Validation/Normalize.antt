-- ===== src/Validation/Normalize.antt =====
-- Flattening the parameters of src/domain/validation.rs keeps what is read as qubits.
use wqc_node.Base.{◌≡◌, ◌≢◌, refl, ap, arith, append-nil}
use wqc_node.Base.Text.{Text, text, text_eq_iff}
use wqc_node.Json.{Value, Fields, array, object, no_items, item, no_fields, field, get}
use wqc_node.Validation.{normalize_gate_value, normalize_gate_field}
use wqc_node.Validation.Operands.{operands, optional}

-- A field other than `gate` is as before.
get-normalize :
    (k : Text) (fs : Fields) → k ≢ text "gate" → get k (normalize_gate_field fs) ≡ get k fs
unfolding get normalize_gate_value
get-normalize k no_fields h = refl
get-normalize k (field j v fs) h =
    ground (arith, get-normalize k fs h, text_eq_iff j (text "gate"), text_eq_iff j k)

-- The qubits of a gate's parameters are the same after normalisation.
pub operands-normalize : (v : Value) → operands (normalize_gate_value v) ≡ operands v
unfolding operands normalize_gate_value
operands-normalize (array (item x no_items)) = simp append-nil
operands-normalize (array (item x (item y ys))) = refl
operands-normalize (array no_items) = refl
operands-normalize (object fs) = ap optional (get-normalize (text "qubit") fs (λ e. cc))
operands-normalize _ = refl
