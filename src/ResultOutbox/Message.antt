-- ===== src/ResultOutbox/Message.antt =====
-- src/domain/result.rs: the JSON of a result. What serde_json writes for a text, a proof and a work
-- report, and how Rust shows a float, are parameters.
use wqc_node.Base.{List, [], ◌∷◌, ◌++◌, Option, none, some, if◌then◌else◌, map}
use wqc_node.Base.Bytes.{Bytes, as_bytes}
use wqc_node.Base.Decimal.{to_decimal}
use wqc_node.Base.Float.{F64}
use wqc_node.Base.Text.{Text, text, join}
use wqc_node.Dispatch.GoJson.{FloatText}
use wqc_node.Models.{ComplexResult, SampleResult, ExpectationResult, Proof, WorkReport}
use wqc_node.ResultOutbox.{ResultMessage, Wire, failure, message}

-- `serde_json::to_string`
pub record Serde : Type 0 where
  pub text_json : Text → Text
  pub proof_json : Proof → Text
  pub report_json : WorkReport → Text

-- `,` between the parts, and braces around them.
abbrev pub braced : List Text → Text
braced parts = b'{' ∷ join (text ",") parts ++ text "}"

-- A key that is written as it is, and the JSON of its value.
abbrev pub member : Text → Text → Text
member key json = b'"' ∷ key ++ text "\":" ++ json

module _ (ft : FloatText) where
  unfoldable pub format_go_float : F64 → Text
  format_go_float val = if ft.is_whole val then ft.display_fixed val else ft.display val

  unfoldable pub format_go_complex_result_json : ComplexResult → Text
  unfolding format_go_float join
  format_go_complex_result_json value = braced (
      member (text "real") (format_go_float value.real)
      ∷ member (text "imag") (format_go_float value.imag)
      ∷ [])

  unfoldable pub format_go_expectation_result_json : ExpectationResult → Text
  unfolding format_go_complex_result_json
  format_go_expectation_result_json value = braced (
      member (text "values") (
        braced
          (map (λ (id, result). member id (format_go_complex_result_json result)) value.values))
      ∷ [])

  unfoldable pub format_go_sample_result_json : SampleResult → Text
  unfolding to_decimal join
  format_go_sample_result_json value = braced (
      member (text "counts")
        (braced (map (λ (key, count). member key (to_decimal count)) value.counts))
      ∷ member (text "shots") (to_decimal value.shots)
      ∷ [])

  module _ (sj : Serde) where
    abbrev pub or_null : {A : Type 0} → (A → Text) → Option A → Text
    or_null f none = text "null"
    or_null f (some a) = f a

    unfoldable pub failure_json_bytes : Text → Text → Text → Bytes
    unfolding as_bytes join
    failure_json_bytes sub_task_id node_id error = as_bytes (
        braced (
          member (text "sub_task_id") (sj.text_json sub_task_id)
          ∷ member (text "node_id") (sj.text_json node_id)
          ∷ member (text "error") (sj.text_json error)
          ∷ []))

    unfoldable pub to_json_bytes : ResultMessage → Bytes
    unfolding as_bytes format_go_complex_result_json format_go_sample_result_json
        format_go_expectation_result_json
    to_json_bytes m = as_bytes (
        braced (
          member (text "sub_task_id") (sj.text_json m.sub_task_id)
          ∷ member (text "node_id") (sj.text_json m.node_id)
          ∷ member (text "result_type") (sj.text_json m.result_type)
          ∷ member (text "complex_result") (format_go_complex_result_json m.complex_result)
          ∷ member (text "sample_result") (or_null format_go_sample_result_json m.sample_result)
          ∷ member (text "expectation_result")
              (or_null format_go_expectation_result_json m.expectation_result)
          ∷ member (text "proof") (sj.proof_json m.proof)
          ∷ member (text "work_report") (or_null sj.report_json m.work_report)
          ∷ member (text "error") (or_null sj.text_json m.error)
          ∷ []))

    -- The bytes of a wire message; writing them does not fail.
    unfoldable pub wire_bytes : Wire → Option Bytes
    unfolding failure_json_bytes to_json_bytes
    wire_bytes (failure sub_task_id node_id error) =
        some (failure_json_bytes sub_task_id node_id error)
    wire_bytes (message m) = some (to_json_bytes m)
