-- ===== src/Bid.antt =====
-- src/domain/bid.rs and the payload of an operator (src/domain/operator.rs). The clock is the list of its readings by number, in
-- nanoseconds, and the loop of the lottery runs on fuel.
pub mod Lottery
pub mod Signed
pub mod Client
pub mod Submit
use wqc_node.Base.{
  ℕ, zero, suc, ◌+◌, ◌-◌, ◌%◌, ◌^◌, min, Bool, true, false, not, ◌&&◌, List, [], ◌∷◌, Option, none,
  some, Result, ok, err, ltb, ◌==◌, if◌then◌else◌, length, take, all, concat,
}
use wqc_node.Base.Bytes.{Bytes, to_be_bytes, as_bytes}
use wqc_node.Base.Float.{F64, Float}
use wqc_node.Base.Int.{ℤ, i64_bits}
use wqc_node.Base.Text.{Text}
use wqc_node.Config.{NodeConfig}
use wqc_node.Crypto.{Crypto}
use wqc_node.Features.{node_features, supports_required_features}
use wqc_node.P2p.{TaskAnnouncement, is_some}
use wqc_node.Storage.{GeoInfo}
use wqc_node.Work.{Work, TnRates, BudgetPolicy, WorkLedger, decide, from_secs}

-- src/infra/metrics.rs
pub record MetricsSummary : Type 0 where
  pub pending_tasks : ℕ
  pub outbox_pending : ℕ
  pub p2p_connected_peers : ℕ
  pub p2p_orchestrator_connected : ℕ
  pub core_timeouts_total : ℕ
  pub uptime_seconds : ℕ

pub record Bid : Type 0 where
  pub task_id : Text
  pub node_id : Text
  pub max_qubit_capability : ℕ
  pub max_mps_qubits : ℕ
  pub current_load_factors : ℕ
  pub timestamp : ℤ
  pub lottery_attempt : ℕ
  pub signature : Bytes
  pub lottery_proof : Bytes
  pub stake_amount : ℤ
  pub supported_features : ℕ
  pub location : Option GeoInfo
  pub operator_id : Option Text
  pub operator_sig : Option Bytes
  pub metrics_summary : Option MetricsSummary

abbrev pub network_min_qubits : ℕ
network_min_qubits = 10

abbrev pub lottery_time_window_secs : ℕ
lottery_time_window_secs = 10

unfoldable pub should_bid_on : TaskAnnouncement → NodeConfig → ℕ → Bool
unfolding supports_required_features
should_bid_on announcement config supported_features =
    if ltb (config.max_qubits % 2 ^ 32) network_min_qubits
    then false
    else if supported_features == 0
    then false
    else supports_required_features supported_features announcement.required_features

unfoldable pub serialize_bid_payload : Bid → Bytes
unfolding as_bytes to_be_bytes
serialize_bid_payload bid = concat (
    as_bytes bid.task_id
    ∷ as_bytes bid.node_id
    ∷ to_be_bytes 4 bid.max_qubit_capability
    ∷ to_be_bytes 4 bid.current_load_factors
    ∷ to_be_bytes 8 (i64_bits bid.timestamp)
    ∷ to_be_bytes 8 bid.lottery_attempt
    ∷ bid.lottery_proof
    ∷ to_be_bytes 4 bid.supported_features
    ∷ [])

unfoldable pub meets_difficulty : Bytes → ℕ → Bool
meets_difficulty hash difficulty =
    if difficulty == 0
    then true
    else if ltb (length hash) difficulty
    then false
    else all (λ b. b == 0) (take difficulty hash)

-- What a mined lottery is: the timestamp, the attempt and the proof.
abbrev pub Mined : Type 0
Mined = ℤ × (ℕ × Bytes)

-- src/domain/operator.rs; the stake is its decimal text, which num-bigint writes.
unfoldable pub serialize_operator_bid_payload : Text → Text → Text → Text → Bytes
unfolding as_bytes
serialize_operator_bid_payload operator_id node_id task_id stake =
    concat (as_bytes operator_id ∷ as_bytes node_id ∷ as_bytes task_id ∷ as_bytes stake ∷ [])

-- The bid with no signature yet.
abbrev pub unsigned_bid :
    TaskAnnouncement
    → NodeConfig
    → ℕ
    → ℕ
    → Option GeoInfo
    → Option MetricsSummary
    → Text
    → Mined
    → Bid
unsigned_bid a config load features location metrics operator_id (timestamp, (attempt, proof)) =
    record {
      task_id = a.task_id;
      node_id = config.peer_id;
      max_qubit_capability = config.max_qubits % 2 ^ 32;
      max_mps_qubits = min config.max_mps_qubits (2 ^ 32 - 1);
      current_load_factors = load;
      timestamp = timestamp;
      lottery_attempt = attempt;
      signature = [];
      lottery_proof = proof;
      stake_amount = config.stake_amount;
      supported_features = features;
      location = location;
      operator_id = some operator_id;
      operator_sig = none;
      metrics_summary = metrics;
    }

module _ (crypto : Crypto) where
  unfoldable pub lottery_hash : Text → ℕ → ℤ → ℕ → Bytes
  unfolding as_bytes to_be_bytes
  lottery_hash node_id nonce timestamp attempt = crypto.sha256 (
      concat (
        as_bytes node_id
        ∷ to_be_bytes 8 nonce
        ∷ to_be_bytes 8 (i64_bits timestamp)
        ∷ to_be_bytes 8 attempt
        ∷ []))

  module _ (node_id : Text) (nonce difficulty : ℕ) (timestamp : ℤ) (clock : ℕ → ℕ) where
    -- The `while` before `deadline`, from the reading `k` and an attempt. The outer none is that the
    -- fuel ran out.
    unfoldable pub mine_loop : ℕ → ℕ → ℕ → ℕ → Option (Option Mined)
    unfolding lottery_hash meets_difficulty
    mine_loop zero deadline k attempt = none
    mine_loop (suc fuel) deadline k attempt =
        let rest = mine_loop fuel deadline (suc k) ((attempt + 1) % 2 ^ 64) in
        if ltb (clock k) deadline
        then if meets_difficulty (lottery_hash node_id nonce timestamp attempt) difficulty
          then some (some (timestamp, (attempt, lottery_hash node_id nonce timestamp attempt)))
          else rest
        else some none

    unfoldable pub mine_lottery : ℕ → Option (Option Mined)
    unfolding lottery_hash mine_loop
    mine_lottery fuel =
        if difficulty == 0
        then some (some (timestamp, (0, lottery_hash node_id nonce timestamp 0)))
        else mine_loop fuel (clock 0 + from_secs lottery_time_window_secs) 1 0

  abbrev pub sign_bid : (ℤ → Text) → NodeConfig → Text → Bytes → Bid → Bid
  sign_bid to_string config operator_id operator_key bid = record bid {
    signature = crypto.sign config.signing_key (serialize_bid_payload bid);
    operator_sig = some (
        crypto.sign operator_key (
          serialize_operator_bid_payload operator_id bid.node_id bid.task_id
            (to_string bid.stake_amount)));
  }

  -- The outer none is that the fuel of the lottery ran out, the inner one is the source's.
  unfoldable pub build_signed_bid :
      (ℤ → Text)
      → ℤ
      → (ℕ → ℕ)
      → ℕ
      → TaskAnnouncement
      → NodeConfig
      → ℕ
      → ℕ
      → Option GeoInfo
      → Option MetricsSummary
      → Option (Option Bid)
  unfolding mine_lottery serialize_bid_payload serialize_operator_bid_payload
  build_signed_bid to_string timestamp clock fuel a config load features location metrics =
      elim config.operator_id [
        | none ↦ some none
        | some operator_id ↦ elim config.operator_signing_key [
          | none ↦ some none
          | some operator_key ↦
              elim (mine_lottery config.peer_id a.nonce a.bid_difficulty timestamp clock fuel) [
                | none ↦ none
                | some none ↦ some none
                | some (some mined) ↦ some (
                    some (
                      sign_bid to_string config operator_id operator_key
                        (unsigned_bid a config load features location metrics operator_id mined)))
              ]
        ]
      ]
