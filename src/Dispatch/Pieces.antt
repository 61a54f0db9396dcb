-- ===== src/Dispatch/Pieces.antt =====
-- The signed bytes of a dispatch, piece by piece (src/domain/p2p.rs).
use wqc_node.Base.{
  ℕ, ◌%◌, ◌^◌, ◌<◌, ◌≡◌, refl, sym, ap, ◌∙◌, List, [], ◌∷◌, ◌++◌, Option, ok, arith, length, concat,
  drop, append-injective, append_assoc, append-nil, All, Result-cases, >>=-ok, ok-injective, inl,
  inr,
}
use wqc_node.Base.Bytes.{Bytes, as_bytes, to_be_bytes, word-injective}
use wqc_node.Base.Float.{Float}
use wqc_node.Dispatch.GoJson.{FloatText, circuit_signing_json}
use wqc_node.Dispatch.Payload.{
  SubTask, serialize_dispatch_payload, format_observables_wire_json, head_bytes, middle_bytes,
  split_bytes, tree_bytes, circuit_bytes, sized, site_bytes, assignment_bytes,
}
use wqc_node.Models.{ContractionTreeWire}
use wqc_node.Pcs.{len_bytes}

pub sized-injective :
    (x y r s : Bytes)
    → length x < 2 ^ 32
    → length y < 2 ^ 32
    → len_bytes (length x) ++ (x ++ r) ≡ len_bytes (length y) ++ (y ++ s)
    → (x ≡ y) × (r ≡ s)
sized-injective x y r s h k e =
    let (n, e1) =
      word-injective 4 (length x % 2 ^ 32) (length y % 2 ^ 32) (x ++ r) (y ++ s) (omega arith)
        (omega arith) e in
    append-injective x y r s (omega (arith, n, h, k)) e1

pub site_bytes-injective :
    (xs ys : List ℕ) (r s : Bytes)
    → length xs ≡ length ys
    → All (λ q. q < 256 ^ 4) xs
    → All (λ q. q < 256 ^ 4) ys
    → site_bytes xs ++ r ≡ site_bytes ys ++ s
    → (xs ≡ ys) × (r ≡ s)
site_bytes-injective [] [] r s n h k e = (refl, e)
site_bytes-injective [] (y ∷ ys) r s n h k e = absurd (omega (arith, n))
site_bytes-injective (x ∷ xs) [] r s n h k e = absurd (omega (arith, n))
site_bytes-injective (x ∷ xs) (y ∷ ys) r s n h k e =
    let (same, e1) = word-injective 4 x y (site_bytes xs ++ r) (site_bytes ys ++ s) h.0 k.0 (
      sym (append_assoc (to_be_bytes 4 x) (site_bytes xs) r)
      ∙ e
      ∙ append_assoc (to_be_bytes 4 y) (site_bytes ys) s) in
    let (rest, last) = site_bytes-injective xs ys r s (omega (arith, n)) h.1 k.1 e1 in
    (ground (arith, same, rest), last)

abbrev pub SameIds : SubTask → SubTask → Type 0
SameIds a b =
    (a.task_id ≡ b.task_id)
    × (a.parent_task_id ≡ b.parent_task_id)
    × (a.circuit_id ≡ b.circuit_id)
    × (a.slice_id ≡ b.slice_id)
    × (a.slice_assignments ≡ b.slice_assignments)

module _ (fl : Float) (ft : FloatText) (to_vec : ContractionTreeWire → Option Bytes) where
  abbrev pub observables_bytes : SubTask → Bytes
  observables_bytes t = as_bytes (format_observables_wire_json fl ft t.observables)

  -- The words are in range, and what has a length has one that a `u32` holds.
  abbrev pub SubTaskInRange : SubTask → Bytes → Type 0
  SubTaskInRange t circuit =
      (t.qubit_count < 256 ^ 4)
      × (t.original_qubit_count < 256 ^ 4)
      × (t.required_votes < 256 ^ 4)
      × (length circuit < 2 ^ 32)
      × (t.mps_max_bond_dim < 256 ^ 4)
      × (length (as_bytes t.output_mode) < 2 ^ 32)
      × (t.shots < 256 ^ 8)
      × (t.classical_bit_count < 256 ^ 4)
      × (t.sample_seed < 256 ^ 8)
      × (length (as_bytes (format_observables_wire_json fl ft t.observables)) < 2 ^ 32)
      × (length t.mps_site_order < 2 ^ 32)
      × All (λ q. q < 256 ^ 4) t.mps_site_order
      × (length (as_bytes t.security_level) < 2 ^ 32)

  -- The pieces of the payload.
  abbrev pieces : SubTask → Bytes → Bytes → List Bytes
  pieces t circuit tree =
      as_bytes t.task_id
      ∷ as_bytes t.parent_task_id
      ∷ as_bytes t.circuit_id
      ∷ as_bytes t.slice_id
      ∷ to_be_bytes 4 t.qubit_count
      ∷ to_be_bytes 4 t.original_qubit_count
      ∷ to_be_bytes 4 t.required_votes
      ∷ len_bytes (length t.slice_assignments)
      ∷ assignment_bytes t.slice_assignments
      ∷ len_bytes (length circuit)
      ∷ circuit
      ∷ to_be_bytes 4 t.mps_max_bond_dim
      ∷ len_bytes (length (as_bytes t.output_mode))
      ∷ as_bytes t.output_mode
      ∷ to_be_bytes 8 t.shots
      ∷ to_be_bytes 4 t.classical_bit_count
      ∷ to_be_bytes 8 t.sample_seed
      ∷ len_bytes (length (observables_bytes t))
      ∷ observables_bytes t
      ∷ len_bytes (length t.mps_site_order)
      ∷ site_bytes t.mps_site_order
      ∷ len_bytes (length (as_bytes t.security_level))
      ∷ as_bytes t.security_level
      ∷ split_bytes t.mps_time_split
      ∷ tree
      ∷ []

  circuit_bytes-ok :
      (t : SubTask) (piece : Bytes)
      → circuit_bytes fl ft to_vec t.circuit ≡ ok piece
      → (circuit : Bytes) × (circuit_signing_json fl ft t.circuit ≡ ok circuit)
        × (sized circuit ≡ piece)
  circuit_bytes-ok t piece e = elim (Result-cases (circuit_signing_json fl ft t.circuit)) [
    | inr (n, ec) ↦ absurd (ground (arith, e, ec))
    | inl (circuit, ec) ↦ (circuit, ec, ground (arith, e, ec))
  ]

  abbrev assembled : SubTask → Bytes → Bytes → Bytes
  assembled t piece tree =
      head_bytes t ++ piece ++ middle_bytes fl ft t ++ split_bytes t.mps_time_split ++ tree

  pieces-assembled :
      (t : SubTask) (circuit tree : Bytes)
      → concat (pieces t circuit tree) ≡ assembled t (sized circuit) tree
  pieces-assembled t circuit tree = simp (append_assoc, append-nil)

  pub payload-pieces :
      (t : SubTask) (payload : Bytes)
      → serialize_dispatch_payload fl ft to_vec t ≡ ok payload
      → (circuit : Bytes) × (tree : Bytes) × (circuit_signing_json fl ft t.circuit ≡ ok circuit)
        × (tree_bytes fl ft to_vec t.contraction_tree ≡ ok tree)
        × (concat (pieces t circuit tree) ≡ payload)
  unfolding serialize_dispatch_payload
  payload-pieces t payload e =
      let (piece, ep, e1) = >>=-ok (circuit_bytes fl ft to_vec t.circuit) _ payload e in
      let (tree, et, e2) = >>=-ok (tree_bytes fl ft to_vec t.contraction_tree) _ payload e1 in
      let (circuit, ec, same) = circuit_bytes-ok t piece ep in
      (
        circuit,
        tree,
        ec,
        et,
        pieces-assembled t circuit tree
            ∙ ap (λ p. assembled t p tree) same
            ∙ ok-injective (ok (assembled t piece tree)) _ payload refl e2,
      )

  -- The pieces from the circuit on.
  abbrev later_pieces : SubTask → Bytes → Bytes → List Bytes
  later_pieces t circuit tree = drop 9 (pieces t circuit tree)

  -- Up to the circuit.
  pub after_ids :
      (a b : SubTask) (c c' tree tree' : Bytes)
      → SameIds a b
      → a.qubit_count < 256 ^ 4
      → b.qubit_count < 256 ^ 4
      → a.original_qubit_count < 256 ^ 4
      → b.original_qubit_count < 256 ^ 4
      → a.required_votes < 256 ^ 4
      → b.required_votes < 256 ^ 4
      → concat (pieces a c tree) ≡ concat (pieces b c' tree')
      → (a.qubit_count ≡ b.qubit_count)
        × (a.original_qubit_count ≡ b.original_qubit_count)
        × (a.required_votes ≡ b.required_votes)
        × (concat (later_pieces a c tree) ≡ concat (later_pieces b c' tree'))
  after_ids a b c c' tree tree' (i0, i1, i2, i3, i4) a0 b0 a1 b1 a2 b2 e =
      let (_, e1) =
        append-injective (as_bytes a.task_id) (as_bytes b.task_id) _ _
          (ap (λ s. length (as_bytes s)) i0) e in
      let (_, e2) =
        append-injective (as_bytes a.parent_task_id) (as_bytes b.parent_task_id) _ _
          (ap (λ s. length (as_bytes s)) i1) e1 in
      let (_, e3) =
        append-injective (as_bytes a.circuit_id) (as_bytes b.circuit_id) _ _
          (ap (λ s. length (as_bytes s)) i2) e2 in
      let (_, e4) =
        append-injective (as_bytes a.slice_id) (as_bytes b.slice_id) _ _
          (ap (λ s. length (as_bytes s)) i3) e3 in
      let (n0, e5) = word-injective 4 a.qubit_count b.qubit_count _ _ a0 b0 e4 in
      let (n1, e6) = word-injective 4 a.original_qubit_count b.original_qubit_count _ _ a1 b1 e5 in
      let (n2, e7) = word-injective 4 a.required_votes b.required_votes _ _ a2 b2 e6 in
      let (_, e8) =
        append-injective (len_bytes (length a.slice_assignments))
          (len_bytes (length b.slice_assignments)) _ _
          (ap (λ xs. length (len_bytes (length xs))) i4) e7 in
      let (_, e9) =
        append-injective (assignment_bytes a.slice_assignments)
          (assignment_bytes b.slice_assignments) _ _ (ap (λ xs. length (assignment_bytes xs)) i4)
          e8 in
      (n0, n1, n2, e9)
