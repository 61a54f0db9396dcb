-- ===== src/Dispatch/Payload.antt =====
-- The bytes that a dispatch is signed over, and the request that it becomes (src/domain/p2p.rs).
use wqc_node.Base.{
  ℕ, List, [], ◌∷◌, ◌++◌, Option, none, some, Result, ok, err, ◌>>=◌, ltb, ◌==◌, if◌then◌else◌,
  length, concat, map, is_empty,
}
use wqc_node.Base.Bytes.{Bytes, as_bytes, to_be_bytes}
use wqc_node.Base.Float.{Float}
use wqc_node.Base.Text.{Text, text, join}
use wqc_node.Crypto.{Crypto}
use wqc_node.Dispatch.GoJson.{FloatText, circuit_signing_json, format_go_float}
use wqc_node.Json.{Number}
use wqc_node.Models.{
  SliceAssignment, NoiseModel, ContractionTreeWire, ComplexCoeff, PauliTerm, ObservableSpec,
  ComputeRequest,
}
use wqc_node.P2p.{SignatureError, verify_orchestrator_signature}
use wqc_node.Pcs.{text_le, len_bytes}
use wqc_node.Validation.{Gate}

pub record SubTask : Type 0 where
  pub task_id : Text
  pub parent_task_id : Text
  pub circuit_id : Text
  pub qubit_count : ℕ
  pub original_qubit_count : ℕ
  pub slice_id : Text
  pub slice_assignments : List SliceAssignment
  pub circuit : List Gate
  pub required_votes : ℕ
  pub mps_max_bond_dim : ℕ
  pub mps_site_order : List ℕ
  pub mps_time_split : ℕ
  pub contraction_tree : Option ContractionTreeWire
  pub output_mode : Text
  pub classical_bit_count : ℕ
  pub shots : ℕ
  pub sample_seed : ℕ
  pub observables : List ObservableSpec
  pub noise_model : Option NoiseModel
  pub security_level : Text

pub data DispatchError : Type 0 where
  not_a_float64 : Number → DispatchError
  tree_not_encoded : DispatchError
  bad_signature : SignatureError → DispatchError

-- `sort_by(|a, b| key(a).cmp(key(b)))`, which keeps the order of equal keys.
module _ {A : Type 0} (key : A → Text) where
  unfoldable pub insert_by : A → List A → List A
  unfolding text_le
  insert_by a [] = a ∷ []
  insert_by a (b ∷ bs) =
      let rest = insert_by a bs in if text_le (key a) (key b) then a ∷ b ∷ bs else b ∷ rest

  unfoldable pub sort_by : List A → List A
  unfolding insert_by
  sort_by [] = []
  sort_by (a ∷ as_) = insert_by a (sort_by as_)

-- `len as u32`, and the bytes.
abbrev pub sized : Bytes → Bytes
sized b = len_bytes (length b) ++ b

abbrev pub assignment_bytes : List SliceAssignment → Bytes
assignment_bytes [] = []
assignment_bytes (a ∷ assignments) = as_bytes a.edge_id ++ (a.value ∷ assignment_bytes assignments)

abbrev pub site_bytes : List ℕ → Bytes
site_bytes [] = []
site_bytes (q ∷ qs) = to_be_bytes 4 q ++ site_bytes qs

-- Only where a split is set.
abbrev pub split_bytes : ℕ → Bytes
split_bytes split = if split == 0 then [] else to_be_bytes 4 split

abbrev pub head_bytes : SubTask → Bytes
head_bytes t = concat (
    as_bytes t.task_id
    ∷ as_bytes t.parent_task_id
    ∷ as_bytes t.circuit_id
    ∷ as_bytes t.slice_id
    ∷ to_be_bytes 4 t.qubit_count
    ∷ to_be_bytes 4 t.original_qubit_count
    ∷ to_be_bytes 4 t.required_votes
    ∷ len_bytes (length t.slice_assignments)
    ∷ assignment_bytes t.slice_assignments
    ∷ [])

module _ (fl : Float) (ft : FloatText) where
  unfoldable pub format_complex_coeff_json : ComplexCoeff → Text
  unfolding format_go_float
  format_complex_coeff_json c =
      text "{\"imag\":"
      ++ format_go_float fl ft c.imag
      ++ text ",\"real\":"
      ++ format_go_float fl ft c.real
      ++ text "}"

  abbrev pub term_part : PauliTerm → Text
  term_part t =
      text "{\"coeff\":"
      ++ format_complex_coeff_json t.coeff
      ++ text ",\"label\":\""
      ++ t.label
      ++ text "\"}"

  abbrev pub obs_part : ObservableSpec → Text
  obs_part obs =
      text "{\"id\":\""
      ++ obs.id
      ++ text "\",\"terms\":["
      ++ join (text ",") (map term_part (sort_by (λ t. t.label) obs.terms))
      ++ text "]}"

  -- Without the object around it, which the caller strips.
  unfoldable pub format_observables_wire_json : List ObservableSpec → Text
  unfolding sort_by join
  format_observables_wire_json [] = text "[]"
  format_observables_wire_json (o ∷ os) =
      text "[" ++ join (text ",") (map obs_part (sort_by (λ o. o.id) (o ∷ os))) ++ text "]"

  -- The fields from the bond dimension to the security level.
  abbrev pub middle_bytes : SubTask → Bytes
  middle_bytes t = concat (
      to_be_bytes 4 t.mps_max_bond_dim
      ∷ sized (as_bytes t.output_mode)
      ∷ to_be_bytes 8 t.shots
      ∷ to_be_bytes 4 t.classical_bit_count
      ∷ to_be_bytes 8 t.sample_seed
      ∷ sized (as_bytes (format_observables_wire_json t.observables))
      ∷ len_bytes (length t.mps_site_order)
      ∷ site_bytes t.mps_site_order
      ∷ sized (as_bytes t.security_level)
      ∷ [])

  module _ (tree_to_vec : ContractionTreeWire → Option Bytes) where
    -- Only where a tree is attached.
    abbrev pub tree_bytes : Option ContractionTreeWire → Result Bytes DispatchError
    tree_bytes none = ok []
    tree_bytes (some tree) = elim (tree_to_vec tree) [
      | none ↦ err tree_not_encoded
      | some json ↦ ok (sized json)
    ]

    abbrev pub circuit_bytes : List Gate → Result Bytes DispatchError
    circuit_bytes circuit = elim (circuit_signing_json fl ft circuit) [
      | err n ↦ err (not_a_float64 n)
      | ok json ↦ ok (sized json)
    ]

    unfoldable pub serialize_dispatch_payload : SubTask → Result Bytes DispatchError
    unfolding circuit_signing_json format_observables_wire_json as_bytes to_be_bytes
    serialize_dispatch_payload t = circuit_bytes t.circuit >>= λ circuit.
        tree_bytes t.contraction_tree >>= λ tree.
        ok (head_bytes t ++ circuit ++ middle_bytes t ++ split_bytes t.mps_time_split ++ tree)

    unfoldable pub verify_dispatch_signature :
        Crypto → SubTask → Text → Text → Result (Unit {0}) DispatchError
    unfolding serialize_dispatch_payload verify_orchestrator_signature
    verify_dispatch_signature crypto t signature_b64 key =
        serialize_dispatch_payload t >>= λ payload.
        elim (verify_orchestrator_signature crypto payload signature_b64 key (text "dispatch")) [
          | ok u ↦ ok u
          | err e ↦ err (bad_signature e)
        ]

-- `if n > 0 { Some(n) } else { None }`
abbrev pub if_positive : ℕ → Option ℕ
if_positive n = if ltb 0 n then some n else none

unfoldable pub into_compute_request : SubTask → Text → ComputeRequest
into_compute_request t peer_id = record {
  task_id = t.task_id;
  parent_task_id = some t.parent_task_id;
  circuit_id = t.circuit_id;
  node_id = some peer_id;
  qubit_count = t.qubit_count;
  original_qubit_count = t.original_qubit_count;
  slice_id = t.slice_id;
  slice_assignments = t.slice_assignments;
  circuit = t.circuit;
  required_votes = some t.required_votes;
  mps_max_bond_dim = if_positive t.mps_max_bond_dim;
  mps_site_order = if is_empty t.mps_site_order then none else some t.mps_site_order;
  mps_time_split = if_positive t.mps_time_split;
  contraction_tree = t.contraction_tree;
  output_mode = t.output_mode;
  classical_bit_count = if_positive t.classical_bit_count;
  shots = if_positive t.shots;
  sample_seed = if_positive t.sample_seed;
  observables = t.observables;
  noise_model = t.noise_model;
  security_level = t.security_level;
}
