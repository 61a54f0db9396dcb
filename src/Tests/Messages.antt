-- ===== src/Tests/Messages.antt =====
-- Runs of the theorems on what a dispatch is signed over, on JSON and on amounts.
use wqc_node.Base.{
  ◌+◌, ◌%◌, ◌^◌, ◌≡◌, refl, true, [], ◌∷◌, ◌++◌, Option, none, some, Result, ok, err, arith, ap,
  length, replicate,
}
use wqc_node.Base.Bytes.{Bytes, as_bytes}
use wqc_node.Base.Decimal.{parse_signed, to_decimal, read_digits, positive}
use wqc_node.Base.Int.{ℤ, pos}
use wqc_node.Base.Text.{Text, text, trim}
use wqc_node.Dispatch.GoJson.{FloatText, circuit_signing_json, write_go_json_string}
use wqc_node.Dispatch.Layout.{SignedAlike, serialize_dispatch_payload-injective}
use wqc_node.Dispatch.Payload.{
  SubTask, DispatchError, serialize_dispatch_payload, tree_bytes, format_observables_wire_json,
}
use wqc_node.Dispatch.Written.{read_json_string, read-write_go_json_string}
use wqc_node.Handlers.Streams.{TaskDispatchMessage, Intake, on_dispatch_stream}
use wqc_node.Handlers.Verified.{IsSigned, dispatched, on_dispatch_stream-IsSigned}
use wqc_node.State.{AppState}
use wqc_node.Storage.Rows.{find_row}
use wqc_node.Tests.Fixtures.{whole, plain, config, state}
use wqc_node.Validation.{validate_from}
use wqc_node.Token.{parse_wqc_to_planck}
use wqc_node.Token.Amounts.{fixed_digits, parse-planck_text, negative_fraction}

read-write_go_json_string_example :
    read_json_string (write_go_json_string (text "a\"b\n") ++ text ",1")
    ≡ some (text "a\"b\n", text ",1")
read-write_go_json_string_example = read-write_go_json_string (text "a\"b\n") (text ",1")

-- Digits without a bound.
abbrev pub unbounded : Text → Option ℤ
unbounded s = positive (read_digits 0 s)

parse-planck_text_example :
    parse_wqc_to_planck unbounded (text " 0.050000000000000000 ") ≡ ok (pos 50000000000000000)
unfolding trim to_decimal fixed_digits
parse-planck_text_example =
    parse-planck_text unbounded (λ s digits ne. refl) 50000000000000000
      (text " 0.050000000000000000 ") refl

negative_fraction_example :
    parse_wqc_to_planck (parse_signed (2 ^ 63)) (text "-0.5")
    ≡ parse_wqc_to_planck (parse_signed (2 ^ 63)) (text "0.5")
unfolding parse_signed trim
negative_fraction_example =
    negative_fraction (parse_signed (2 ^ 63)) (text "5") (text "-0.5") (text "0.5") refl refl refl

-- Floats as their digits.
abbrev pub floats : FloatText
floats = record {
  as_f64 = λ n. none;
  format_finite = to_decimal;
  display_fixed = to_decimal;
  display = to_decimal;
  is_whole = λ f. true;
}

abbrev pub sub_task : SubTask
sub_task = record {
  task_id = text "sub";
  parent_task_id = text "parent";
  circuit_id = text "circuit";
  qubit_count = 2;
  original_qubit_count = 2;
  slice_id = text "0";
  slice_assignments = [];
  circuit = [];
  required_votes = 1;
  mps_max_bond_dim = 0;
  mps_site_order = [];
  mps_time_split = 0;
  contraction_tree = none;
  output_mode = [];
  classical_bit_count = 0;
  shots = 0;
  sample_seed = 0;
  observables = [];
  noise_model = none;
  security_level = [];
}

abbrev pub bytes_of : Result Bytes DispatchError → Bytes
bytes_of (ok b) = b
bytes_of (err e) = []

abbrev pub signed_bytes : Bytes
signed_bytes = bytes_of (serialize_dispatch_payload whole floats (λ tree. none) sub_task)

serializes : serialize_dispatch_payload whole floats (λ tree. none) sub_task ≡ ok signed_bytes
unfolding serialize_dispatch_payload
serializes = refl

abbrev pub message : TaskDispatchMessage
message = record { sub_task = sub_task; signature = signed_bytes }

abbrev pub trusting : AppState
trusting = record state {
  config = record config { orchestrator_public_key = some (replicate 32 7) };
}

abbrev pub intake : Intake
intake = record {
  to_vec = λ r. some [];
  tree_to_vec = λ tree. none;
  from_value = λ v. none;
  fuel = 1;
  now_ms = 1000;
  now = pos 5;
  meanwhile = λ db. db;
}

-- The same with noise, which is not signed over.
abbrev pub noisy : SubTask
noisy = record sub_task {
  noise_model = some (record { depolarizing_p = some 1; readout_error = none });
}

serialize_dispatch_payload-injective_example :
    (tree : Bytes) × (tree' : Bytes) × (tree_bytes whole floats (λ tree. none) none ≡ ok tree)
    × (tree_bytes whole floats (λ tree. none) none ≡ ok tree')
    × SignedAlike whole floats (λ tree. none) sub_task noisy tree tree'
unfolding serialize_dispatch_payload circuit_signing_json as_bytes format_observables_wire_json
serialize_dispatch_payload-injective_example =
    serialize_dispatch_payload-injective whole floats (λ tree. none) sub_task noisy signed_bytes
      (91 ∷ 93 ∷ []) (91 ∷ 93 ∷ []) serializes serializes refl refl
      (
        omega arith,
        omega arith,
        omega arith,
        omega arith,
        omega arith,
        omega arith,
        omega arith,
        omega arith,
        omega arith,
        omega arith,
        omega arith,
        tt,
        omega arith,
      )
      (
        omega arith,
        omega arith,
        omega arith,
        omega arith,
        omega arith,
        omega arith,
        omega arith,
        omega arith,
        omega arith,
        omega arith,
        omega arith,
        tt,
        omega arith,
      )
      (refl, refl, refl, refl, refl)

enqueues :
    length
      (on_dispatch_stream whole floats plain intake
        (text "orch")
        (text "orch")
        (some message)
        trusting).1.queue
    ≡ 1
unfolding on_dispatch_stream validate_from find_row
enqueues = refl

on_dispatch_stream-IsSigned_example :
    let (r, st') =
      on_dispatch_stream whole floats plain intake
        (text "orch")
        (text "orch")
        (some message)
        trusting in
    (m : TaskDispatchMessage) × (key : Text) × (text "orch" ≡ text "orch")
    × (some message ≡ some m)
    × IsSigned whole floats plain intake m trusting key
    × (r ≡ ok tt)
    × (st'.queue ≡ [] ++ (dispatched whole floats plain intake m.sub_task key trusting ∷ []))
    × (st'.pending_tasks ≡ (0 + 1) % 2 ^ 64)
on_dispatch_stream-IsSigned_example =
    on_dispatch_stream-IsSigned whole floats plain intake (text "orch") (text "orch") (some message)
      trusting (omega arith) (λ e. omega (arith, ap length e, enqueues))
