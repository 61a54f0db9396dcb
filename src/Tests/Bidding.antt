-- ===== src/Tests/Bidding.antt =====
-- Announcements and bids.
use wqc_node.Base.{
  ℕ, suc, ◌*◌, ◌≤◌, ◌≡◌, ◌↔◌, refl, true, false, [], ◌∷◌, ◌++◌, Option, none, some, ok, arith,
  replicate, concat,
}
use wqc_node.Base.Bytes.{Bytes, as_bytes, to_be_bytes}
use wqc_node.Base.Int.{pos}
use wqc_node.Base.Text.{Text, text, text_eq, contains, trim}
use wqc_node.Bid.{
  Bid, Mined, should_bid_on, serialize_bid_payload, build_signed_bid, mine_lottery, mine_loop,
  meets_difficulty, lottery_hash, serialize_operator_bid_payload,
}
use wqc_node.Base.Map.{retain}
use wqc_node.Bid.Client.{submit_bid, bid_policy, judge_work, write_attempts}
use wqc_node.Bid.Lottery.{mine_lottery-ends}
use wqc_node.Bid.Signed.{IsBuilt, build_signed_bid-IsBuilt, serialize_bid_payload-injective}
use wqc_node.Bid.Submit.{submit_bid-sent, submit_bid-within_budget}
use wqc_node.Features.{
  node_features, supports_required_features, features_from_gates, apply_gates, apply_gate_feature,
}
use wqc_node.P2p.{
  TaskAnnouncementMessage, verify_announcement_message, serialize_announcement_payload,
  serialize_announcement_payload_v2, work_bytes, verify_orchestrator_signature,
}
use wqc_node.P2p.Announce.{verify_announcement_message_iff, IsTrusted}
use wqc_node.Tests.Fixtures.{plain, whole, config, announcement, announced_work}
use wqc_node.Work.{
  TnRates, Work, default_ledger, limit_secs, total_secs, decide, seconds, queued_secs,
}

abbrev payload : Bytes
payload = serialize_announcement_payload announcement ++ work_bytes 300 announced_work

abbrev signed : TaskAnnouncementMessage
signed = record { announcement = announcement; signature = []; signature_v2 = some payload }

-- The key of the orchestrator.
abbrev key : Text
key = replicate 32 1

verify_announcement_message_iff_example :
    (verify_announcement_message plain signed key ≡ ok tt) ↔ IsTrusted plain key signed
verify_announcement_message_iff_example = verify_announcement_message_iff plain key signed

-- Each reading of the clock is a second after the one before.
abbrev clock : ℕ → ℕ
clock k = k * 1000000000

mine_lottery-ends_example :
    (r : Option Mined) × (mine_lottery plain (text "node-a") 9 40 (pos 5) clock 10 ≡ some r)
mine_lottery-ends_example =
    mine_lottery-ends plain (text "node-a") 9 40 (pos 5) clock 9 (omega arith)

abbrev zeros : Bytes
zeros = replicate 32 0

-- The bid for the announcement.
abbrev bid : Bid
bid = record {
  task_id = text "t";
  node_id = text "node-a";
  max_qubit_capability = 28;
  max_mps_qubits = 2048;
  current_load_factors = 0;
  timestamp = pos 5;
  lottery_attempt = 0;
  signature = concat (
      as_bytes (text "t")
      ∷ as_bytes (text "node-a")
      ∷ to_be_bytes 4 28
      ∷ to_be_bytes 4 0
      ∷ to_be_bytes 8 5
      ∷ to_be_bytes 8 0
      ∷ zeros
      ∷ to_be_bytes 4 17
      ∷ []);
  lottery_proof = zeros;
  stake_amount = pos 0;
  supported_features = 17;
  location = none;
  operator_id = some (text "op");
  operator_sig = some (text "opnode-at0");
  metrics_summary = none;
}

build_signed_bid-IsBuilt_example :
    IsBuilt plain (λ n. text "0") (pos 5) clock 3 announcement config 0 17 none none bid
unfolding build_signed_bid mine_lottery mine_loop meets_difficulty lottery_hash
    serialize_bid_payload as_bytes to_be_bytes
build_signed_bid-IsBuilt_example =
    build_signed_bid-IsBuilt plain (λ n. text "0") (pos 5) clock 3 announcement config 0 17 none
      none bid refl

serialize_bid_payload-injective_example :
    (as_bytes (text "t") ++ as_bytes (text "node-a")
      ≡ as_bytes (text "t") ++ as_bytes (text "node-a"))
    × (◌≡◌ {A = ℕ} 28 28)
    × (◌≡◌ {A = ℕ} 0 0)
    × (pos 5 ≡ pos 5)
    × (◌≡◌ {A = ℕ} 0 0)
    × (zeros ≡ zeros)
    × (◌≡◌ {A = ℕ} 17 17)
serialize_bid_payload-injective_example =
    serialize_bid_payload-injective bid bid
      (omega arith, omega arith, omega arith, omega arith, refl, omega arith)
      (omega arith, omega arith, omega arith, omega arith, refl, omega arith) refl

submit_bid-sent_example :
    (should_bid_on announcement config (node_features (text "H" ∷ []) true) ≡ true)
    × IsBuilt plain
        (λ n. text "0")
        (pos 5)
        clock
        3
        announcement
        config
        0
        (node_features (text "H" ∷ []) true)
        none
        none
        bid
    × (1 ≤ 3)
    × ((k : ℕ) × (1 ≡ suc k) × (true ≡ true))
unfolding submit_bid should_bid_on supports_required_features node_features features_from_gates
    apply_gates apply_gate_feature contains text_eq judge_work decide seconds queued_secs retain
    build_signed_bid mine_lottery mine_loop meets_difficulty lottery_hash serialize_bid_payload
    serialize_operator_bid_payload as_bytes to_be_bytes write_attempts
submit_bid-sent_example =
    submit_bid-sent whole plain (λ n. text "0") (pos 5) clock 3 (λ i. true) announcement config
      (text "H" ∷ []) 0 none none 7 default_ledger 1 bid refl

submit_bid-within_budget_example :
    (r : TnRates) × (work : Work) × (d : ℕ) × (config.tn_rates ≡ some r)
    × (announcement.work ≡ some work)
    × (announcement.deadline_secs ≡ some d)
    × (whole.flt
          (limit_secs whole (bid_policy config r) d)
          (total_secs whole (bid_policy config r) work 7 default_ledger)
        ≡ false)
unfolding verify_announcement_message verify_orchestrator_signature trim
    serialize_announcement_payload serialize_announcement_payload_v2 submit_bid should_bid_on
    supports_required_features node_features features_from_gates apply_gates apply_gate_feature
    contains text_eq judge_work decide seconds queued_secs retain build_signed_bid mine_lottery
    mine_loop meets_difficulty lottery_hash serialize_bid_payload serialize_operator_bid_payload
    as_bytes to_be_bytes write_attempts
submit_bid-within_budget_example =
    submit_bid-within_budget whole plain (λ n. text "0") (pos 5) clock 3 (λ i. true) announcement
      config (text "H" ∷ []) 0 none none 7 default_ledger signed key 1 bid refl refl (ground arith)
      refl
