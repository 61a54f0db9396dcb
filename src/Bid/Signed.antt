-- ===== src/Bid/Signed.antt =====
-- What a signed bid says and what its bytes determine (src/domain/bid.rs).
use wqc_node.Base.{
  ℕ, ◌^◌, ◌<◌, ◌≡◌, refl, sym, ap, subst, ◌∙◌, List, [], ◌∷◌, ◌++◌, Option, none, some, arith,
  length, concat, length-append, append-injective, append-injective_right, append_assoc,
  Option-cases, inl, inr, true,
}
use wqc_node.Base.Bytes.{Bytes, to_be_bytes, length-to_be_bytes, word-injective, as_bytes}
use wqc_node.Base.Int.{ℤ, i64_bits, IsI64, i64_bits-injective, i64_bits-lt}
use wqc_node.Base.Text.{Text}
use wqc_node.Bid.{
  Bid, Mined, MetricsSummary, serialize_bid_payload, serialize_operator_bid_payload,
  build_signed_bid, lottery_hash, meets_difficulty, mine_lottery, sign_bid, unsigned_bid,
}
use wqc_node.Bid.Lottery.{mine_lottery-IsProof}
use wqc_node.Config.{NodeConfig}
use wqc_node.Crypto.{Crypto}
use wqc_node.P2p.{TaskAnnouncement}
use wqc_node.Storage.{GeoInfo}

-- The fields are in the ranges of their types, and the proof has the length of a SHA-256 digest.
abbrev pub BidInRange : Bid → Type 0
BidInRange b =
    (b.max_qubit_capability < 256 ^ 4)
    × (b.current_load_factors < 256 ^ 4)
    × IsI64 b.timestamp
    × (b.lottery_attempt < 256 ^ 8)
    × (length b.lottery_proof ≡ 32)
    × (b.supported_features < 256 ^ 4)

abbrev tail : Bid → List Bytes
tail b =
    to_be_bytes 4 b.max_qubit_capability
    ∷ to_be_bytes 4 b.current_load_factors
    ∷ to_be_bytes 8 (i64_bits b.timestamp)
    ∷ to_be_bytes 8 b.lottery_attempt
    ∷ b.lottery_proof
    ∷ to_be_bytes 4 b.supported_features
    ∷ []

length-tail : (b : Bid) → length b.lottery_proof ≡ 32 → length (concat (tail b)) ≡ 60
length-tail b h = simp (length-append, length-to_be_bytes, h) refl

-- Equal signed bytes of two bids, whose numbers are in range and whose lottery proofs have 32
-- bytes, are of the same qubit capability, load, timestamp, lottery attempt, lottery proof and
-- features, and of the same bytes of the task and the node written one after the other.
pub serialize_bid_payload-injective :
    (a b : Bid)
    → BidInRange a
    → BidInRange b
    → serialize_bid_payload a ≡ serialize_bid_payload b
    → (as_bytes a.task_id ++ as_bytes a.node_id ≡ as_bytes b.task_id ++ as_bytes b.node_id)
      × (a.max_qubit_capability ≡ b.max_qubit_capability)
      × (a.current_load_factors ≡ b.current_load_factors)
      × (a.timestamp ≡ b.timestamp)
      × (a.lottery_attempt ≡ b.lottery_attempt)
      × (a.lottery_proof ≡ b.lottery_proof)
      × (a.supported_features ≡ b.supported_features)
unfolding serialize_bid_payload
serialize_bid_payload-injective a b (a0, a1, a2, a3, a4, a5) (b0, b1, b2, b3, b4, b5) e =
    let (ids, e0) =
      append-injective_right (as_bytes a.task_id ++ as_bytes a.node_id)
        (as_bytes b.task_id ++ as_bytes b.node_id) (concat (tail a)) (concat (tail b))
        (length-tail a a4 ∙ sym (length-tail b b4))
        (append_assoc (as_bytes a.task_id) (as_bytes a.node_id) (concat (tail a))
          ∙ e
          ∙ sym (append_assoc (as_bytes b.task_id) (as_bytes b.node_id) (concat (tail b)))) in
    let (n0, e1) = word-injective 4 a.max_qubit_capability b.max_qubit_capability _ _ a0 b0 e0 in
    let (n1, e2) = word-injective 4 a.current_load_factors b.current_load_factors _ _ a1 b1 e1 in
    let (n2, e3) =
      word-injective 8 (i64_bits a.timestamp) (i64_bits b.timestamp) _ _
        (i64_bits-lt a.timestamp a2) (i64_bits-lt b.timestamp b2) e2 in
    let (n3, e4) = word-injective 8 a.lottery_attempt b.lottery_attempt _ _ a3 b3 e3 in
    let (n4, e5) = append-injective a.lottery_proof b.lottery_proof _ _ (a4 ∙ sym b4) e4 in
    let (n5, e6) = word-injective 4 a.supported_features b.supported_features _ _ a5 b5 e5 in
    (ids, n0, n1, i64_bits-injective a.timestamp b.timestamp a2 b2 n2, n3, n4, n5)

module _ (c : Crypto) (to_string : ℤ → Text) (timestamp : ℤ) (clock : ℕ → ℕ) (fuel : ℕ)
    (a : TaskAnnouncement) (config : NodeConfig) (load features : ℕ) (location : Option GeoInfo)
    (metrics : Option MetricsSummary) where
  abbrev built : Option (Option Bid)
  built = build_signed_bid c to_string timestamp clock fuel a config load features location metrics

  abbrev mined : Option (Option Mined)
  mined = mine_lottery c config.peer_id a.nonce a.bid_difficulty timestamp clock fuel

  built-some :
      (bid : Bid)
      → built ≡ some (some bid)
      → (operator_id : Text) × (operator_key : Bytes) × (m : Mined) × (config.operator_id
          ≡ some operator_id)
        × (config.operator_signing_key ≡ some operator_key)
        × (mined ≡ some (some m))
        × (sign_bid c to_string config operator_id operator_key
              (unsigned_bid a config load features location metrics operator_id m)
            ≡ bid)
  unfolding build_signed_bid
  built-some bid e = elim (Option-cases config.operator_id) [
    | inl n ↦ absurd (ground (arith, e, n))
    | inr (o, eo) ↦ elim (Option-cases config.operator_signing_key) [
      | inl n ↦ absurd (ground (arith, e, eo, n))
      | inr (k, ek) ↦ elim (Option-cases mined) [
        | inl n ↦ absurd (ground (arith, e, eo, ek, n))
        | inr (none, em) ↦ absurd (ground (arith, e, eo, ek, em))
        | inr (some m, em) ↦ (o, k, m, eo, ek, em, ground (arith, e, eo, ek, em))
      ]
    ]
  ]

  -- What a built bid is.
  abbrev pub IsBuilt : Bid → Type 0
  IsBuilt bid =
      (operator_id : Text) × (operator_key : Bytes) × (config.operator_id ≡ some operator_id)
      × (config.operator_signing_key ≡ some operator_key)
      × (bid.task_id ≡ a.task_id)
      × (bid.node_id ≡ config.peer_id)
      × (bid.signature ≡ c.sign config.signing_key (serialize_bid_payload bid))
      × (bid.operator_sig
          ≡ some (
              c.sign operator_key (
                serialize_operator_bid_payload operator_id bid.node_id bid.task_id
                  (to_string bid.stake_amount))))
      × (bid.lottery_proof ≡ lottery_hash c bid.node_id a.nonce bid.timestamp bid.lottery_attempt)
      × (meets_difficulty bid.lottery_proof a.bid_difficulty ≡ true)

  -- A bid that is built is for the announced task and from this node. Its signature is the node's
  -- key on the payload of the bid itself, its second signature the operator's key on the operator's
  -- payload, and its proof is the hash of the attempt and timestamp that it names and meets the
  -- difficulty.
  pub build_signed_bid-IsBuilt : (bid : Bid) → built ≡ some (some bid) → IsBuilt bid
  unfolding serialize_bid_payload
  build_signed_bid-IsBuilt bid e =
      let (o, k, (t, (n, p)), eo, ek, em, eb) = built-some bid e in
      let (et, ep, ed) =
        mine_lottery-IsProof c config.peer_id a.nonce a.bid_difficulty timestamp clock fuel
          (t, (n, p)) em in
      subst IsBuilt eb (
        o,
        k,
        eo,
        ek,
        refl,
        refl,
        refl,
        refl,
        ep ∙ ap (λ (z : ℤ). lottery_hash c config.peer_id a.nonce z n) (sym et),
        ed,
      )
