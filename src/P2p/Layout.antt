-- ===== src/P2p/Layout.antt =====
-- What the signed bytes of an announcement determine (src/domain/p2p.rs). The text of the task comes
-- first and has no length; every field after it has a fixed width.
use wqc_node.Base.{
  ℕ, ◌≡◌, ◌<◌, ◌^◌, refl, sym, ◌∙◌, ◌++◌, [], ◌∷◌, concat, some, length, length-append,
  append-injective_right, arith,
}
use wqc_node.Base.Bytes.{Bytes, to_be_bytes, length-to_be_bytes, word-injective, as_bytes}
use wqc_node.P2p.{
  TaskAnnouncement, serialize_announcement_payload, serialize_announcement_payload_v2, work_bytes,
}
use wqc_node.Work.{Work}

-- The fields are in the ranges of their types: `u32`, and `u64` for the nonce.
abbrev pub InRange : TaskAnnouncement → Type 0
InRange a =
    (a.global_qubit_count < 256 ^ 4)
    × (a.required_features < 256 ^ 4)
    × (a.bid_difficulty < 256 ^ 4)
    × (a.required_votes < 256 ^ 4)
    × (a.nonce < 256 ^ 8)

abbrev pub WorkInRange : ℕ → Work → Type 0
WorkInRange d w = (d < 256 ^ 4) × (w.traffic_bytes < 256 ^ 8) × (w.flops < 256 ^ 8)

abbrev pub SameFields : TaskAnnouncement → TaskAnnouncement → Type 0
SameFields a b =
    (as_bytes a.task_id ≡ as_bytes b.task_id)
    × (a.global_qubit_count ≡ b.global_qubit_count)
    × (a.required_features ≡ b.required_features)
    × (a.bid_difficulty ≡ b.bid_difficulty)
    × (a.required_votes ≡ b.required_votes)
    × (a.nonce ≡ b.nonce)

abbrev fields : TaskAnnouncement → Bytes
fields a = concat (
    to_be_bytes 4 a.global_qubit_count
    ∷ to_be_bytes 4 a.required_features
    ∷ to_be_bytes 4 a.bid_difficulty
    ∷ to_be_bytes 4 a.required_votes
    ∷ to_be_bytes 8 a.nonce
    ∷ [])

length-fields : (a : TaskAnnouncement) → length (fields a) ≡ 24
length-fields a = simp (length-append, length-to_be_bytes) refl

length-work_bytes : (d : ℕ) (w : Work) → length (work_bytes d w) ≡ 20
length-work_bytes d w = simp (length-append, length-to_be_bytes) refl

-- Equal bytes in the first layout are of announcements with the same fields.
pub serialize_announcement_payload-injective :
    (a b : TaskAnnouncement)
    → InRange a
    → InRange b
    → serialize_announcement_payload a ≡ serialize_announcement_payload b
    → SameFields a b
unfolding serialize_announcement_payload
serialize_announcement_payload-injective a b (a0, a1, a2, a3, a4) (b0, b1, b2, b3, b4) e =
    let (id, e0) =
      append-injective_right (as_bytes a.task_id) (as_bytes b.task_id) (fields a) (fields b)
        (length-fields a ∙ sym (length-fields b)) e in
    let (n0, e1) = word-injective 4 a.global_qubit_count b.global_qubit_count _ _ a0 b0 e0 in
    let (n1, e2) = word-injective 4 a.required_features b.required_features _ _ a1 b1 e1 in
    let (n2, e3) = word-injective 4 a.bid_difficulty b.bid_difficulty _ _ a2 b2 e2 in
    let (n3, e4) = word-injective 4 a.required_votes b.required_votes _ _ a3 b3 e3 in
    let (n4, e5) = word-injective 8 a.nonce b.nonce _ _ a4 b4 e4 in (id, n0, n1, n2, n3, n4)

-- Equal bytes in the second layout are of announcements with the same fields, deadline and work.
pub serialize_announcement_payload_v2-injective :
    (a b : TaskAnnouncement) (d d' : ℕ) (w w' : Work) (payload : Bytes)
    → InRange a
    → InRange b
    → WorkInRange d w
    → WorkInRange d' w'
    → a.work ≡ some w
    → b.work ≡ some w'
    → a.deadline_secs ≡ some d
    → b.deadline_secs ≡ some d'
    → serialize_announcement_payload_v2 a ≡ some payload
    → serialize_announcement_payload_v2 b ≡ some payload
    → SameFields a b × (d ≡ d') × (w.traffic_bytes ≡ w'.traffic_bytes) × (w.flops ≡ w'.flops)
unfolding serialize_announcement_payload_v2
serialize_announcement_payload_v2-injective a b d d' w w' payload ra rb (x0, x1, x2) (y0, y1, y2) wa
      wb da db ea eb =
    let whole : serialize_announcement_payload a ++ work_bytes d w
        ≡ serialize_announcement_payload b ++ work_bytes d' w' =
      ground (arith, ea, eb, wa, wb, da, db) in
    let (e, tail) =
      append-injective_right _ _ (work_bytes d w) (work_bytes d' w')
        (length-work_bytes d w ∙ sym (length-work_bytes d' w')) whole in
    let (n0, e1) = word-injective 4 d d' _ _ x0 y0 tail in
    let (n1, e2) = word-injective 8 w.traffic_bytes w'.traffic_bytes _ _ x1 y1 e1 in
    (
      serialize_announcement_payload-injective a b ra rb e,
      n0,
      n1,
      (word-injective 8 w.flops w'.flops _ _ x2 y2 e2).0,
    )
