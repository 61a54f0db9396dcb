-- ===== src/Dispatch/Layout.antt =====
-- What the signed bytes of a dispatch determine (src/domain/p2p.rs).
use wqc_node.Base.{
  ◌%◌, ◌^◌, ◌≡◌, sym, ap, ◌∙◌, ◌++◌, Option, ok, arith, length, append-nil, ok-injective,
}
use wqc_node.Base.Bytes.{Bytes, as_bytes, word-injective}
use wqc_node.Base.Float.{Float}
use wqc_node.Dispatch.GoJson.{FloatText, circuit_signing_json}
use wqc_node.Dispatch.Payload.{
  SubTask, serialize_dispatch_payload, format_observables_wire_json, split_bytes, tree_bytes,
}
use wqc_node.Models.{ContractionTreeWire}
use wqc_node.Dispatch.Pieces.{
  sized-injective, site_bytes-injective, observables_bytes, SubTaskInRange, payload-pieces, SameIds,
  after_ids,
}

module _ (fl : Float) (ft : FloatText) (to_vec : ContractionTreeWire → Option Bytes) where
  -- The fields that two dispatches have in common, with the bytes that stand for the nested ones.
  abbrev pub SignedAlike : SubTask → SubTask → Bytes → Bytes → Type 0
  SignedAlike a b tree tree' =
      (a.qubit_count ≡ b.qubit_count)
      × (a.original_qubit_count ≡ b.original_qubit_count)
      × (a.required_votes ≡ b.required_votes)
      × (circuit_signing_json fl ft a.circuit ≡ circuit_signing_json fl ft b.circuit)
      × (a.mps_max_bond_dim ≡ b.mps_max_bond_dim)
      × (as_bytes a.output_mode ≡ as_bytes b.output_mode)
      × (a.shots ≡ b.shots)
      × (a.classical_bit_count ≡ b.classical_bit_count)
      × (a.sample_seed ≡ b.sample_seed)
      × (as_bytes (format_observables_wire_json fl ft a.observables)
          ≡ as_bytes (format_observables_wire_json fl ft b.observables))
      × (a.mps_site_order ≡ b.mps_site_order)
      × (as_bytes a.security_level ≡ as_bytes b.security_level)
      × (split_bytes a.mps_time_split ++ tree ≡ split_bytes b.mps_time_split ++ tree')

  -- Equal signed bytes of two dispatches with the same ids and slice assignments, whose numbers
  -- and lengths are in range, are of equal counts of qubits, votes, shots and classical bits,
  -- equal bond dimension, seed and site order, the same UTF-8 bytes of output mode and security
  -- level, the same outcome of writing the circuit as JSON, the same bytes of the observables as
  -- JSON (with nothing more about their values), and the same bytes for the time split followed
  -- by the tree.
  pub serialize_dispatch_payload-injective :
      (a b : SubTask) (payload circuit circuit' : Bytes)
      → serialize_dispatch_payload fl ft to_vec a ≡ ok payload
      → serialize_dispatch_payload fl ft to_vec b ≡ ok payload
      → circuit_signing_json fl ft a.circuit ≡ ok circuit
      → circuit_signing_json fl ft b.circuit ≡ ok circuit'
      → SubTaskInRange fl ft to_vec a circuit
      → SubTaskInRange fl ft to_vec b circuit'
      → SameIds a b
      → (tree : Bytes) × (tree' : Bytes) × (tree_bytes fl ft to_vec a.contraction_tree ≡ ok tree)
        × (tree_bytes fl ft to_vec b.contraction_tree ≡ ok tree')
        × SignedAlike a b tree tree'
  serialize_dispatch_payload-injective a b payload ca cb ea eb ja jb ha hb (i0, i1, i2, i3, i4) =
      let (c, tree, ec, et, e) = payload-pieces fl ft to_vec a payload ea in
      let (c', tree', ec', et', e') = payload-pieces fl ft to_vec b payload eb in
      let (a0, a1, a2, a3, a4, a5, a6, a7, a8, a9, a10, a11, a12) = ha in
      let (b0, b1, b2, b3, b4, b5, b6, b7, b8, b9, b10, b11, b12) = hb in
      let sc : c ≡ ca = ok-injective (circuit_signing_json fl ft a.circuit) c ca ec ja in
      let sc' : c' ≡ cb = ok-injective (circuit_signing_json fl ft b.circuit) c' cb ec' jb in
      let (n0, n1, n2, e9) =
        after_ids fl ft to_vec a b c c' tree tree' (i0, i1, i2, i3, i4) a0 b0 a1 b1 a2 b2
          (e ∙ sym e') in
      let (n3, e10) =
        sized-injective c c' _ _ (omega (arith, ap length sc, a3))
          (omega (arith, ap length sc', b3)) e9 in
      let (n4, e11) = word-injective 4 a.mps_max_bond_dim b.mps_max_bond_dim _ _ a4 b4 e10 in
      let (n5, e12) =
        sized-injective (as_bytes a.output_mode) (as_bytes b.output_mode) _ _ a5 b5 e11 in
      let (n6, e13) = word-injective 8 a.shots b.shots _ _ a6 b6 e12 in
      let (n7, e14) = word-injective 4 a.classical_bit_count b.classical_bit_count _ _ a7 b7 e13 in
      let (n8, e15) = word-injective 8 a.sample_seed b.sample_seed _ _ a8 b8 e14 in
      let (n9, e16) =
        sized-injective (observables_bytes fl ft to_vec a) (observables_bytes fl ft to_vec b) _ _ a9
          b9 e15 in
      let (m, e17) =
        word-injective 4 (length a.mps_site_order % 2 ^ 32) (length b.mps_site_order % 2 ^ 32) _ _
          (omega arith) (omega arith) e16 in
      let (n10, e18) =
        site_bytes-injective a.mps_site_order b.mps_site_order _ _ (omega (arith, m, a10, b10)) a11
          b11 e17 in
      let (n11, e19) =
        sized-injective (as_bytes a.security_level) (as_bytes b.security_level) _ _ a12 b12 e18 in
      (
        tree,
        tree',
        et,
        et',
        (
          n0,
          n1,
          n2,
          ec ∙ ap ok n3 ∙ sym ec',
          n4,
          n5,
          n6,
          n7,
          n8,
          n9,
          n10,
          n11,
          ap (λ s. split_bytes a.mps_time_split ++ s) (sym (append-nil tree))
              ∙ e19
              ∙ ap (λ s. split_bytes b.mps_time_split ++ s) (append-nil tree'),
        ),
      )
