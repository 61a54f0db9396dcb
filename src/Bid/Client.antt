-- ===== src/Bid/Client.antt =====
-- The sending of a bid (src/transport/p2p/bid_client.rs).
use wqc_node.Base.{
  ℕ, zero, suc, ◌%◌, ◌^◌, Bool, not, List, Option, none, some, ok, err, if◌then◌else◌,
}
use wqc_node.Base.Float.{F64, Float}
use wqc_node.Base.Int.{ℤ}
use wqc_node.Base.Text.{Text}
use wqc_node.Config.{NodeConfig}
use wqc_node.Crypto.{Crypto}
use wqc_node.Features.{node_features}
use wqc_node.P2p.{TaskAnnouncement, is_some}
use wqc_node.Storage.{GeoInfo}
use wqc_node.Work.{TnRates, BudgetPolicy, WorkLedger, decide}
use wqc_node.Bid.{Bid, MetricsSummary, should_bid_on, build_signed_bid}

-- What became of a bid. A sent bid carries the attempts that it took.
pub data Submitted : Type 0 where
  skipped_features not_built not_sent out_of_fuel : Submitted
  skipped_budget : F64 → Submitted
  sent : ℕ → Bid → Submitted

abbrev pub max_attempts : ℕ
max_attempts = 3

-- The attempts to write, from `attempt`, with `left` to go. `acked` says which one the proxy acks.
unfoldable pub write_attempts : (ℕ → Bool) → ℕ → ℕ → Option ℕ
write_attempts acked zero attempt = none
write_attempts acked (suc left) attempt =
    let rest = write_attempts acked left (suc attempt) in
    if acked attempt then some (suc attempt) else rest

abbrev pub bid_policy : NodeConfig → TnRates → BudgetPolicy
bid_policy config rates = record {
  rates = rates;
  overhead_secs = config.work_overhead_secs;
  margin = config.work_budget_margin;
  own_timeout_secs = config.compute_timeout_secs;
  unknown_secs = config.work_unknown_secs;
}

abbrev pub unwrap_or : Option ℕ → ℕ → ℕ
unwrap_or none d = d
unwrap_or (some n) d = n

-- `if let (Some(work), Some(rates))`: none where the code goes on to bid.
unfoldable pub judge_work :
    Float → TaskAnnouncement → NodeConfig → ℕ → WorkLedger → Option F64 × WorkLedger
unfolding decide
judge_work fl a config now ledger = elim a.work [
  | none ↦ (none, ledger)
  | some work ↦ elim config.tn_rates [
    | none ↦ (none, ledger)
    | some rates ↦
        let (decision, ledger') =
          decide fl a.task_id work (unwrap_or a.deadline_secs 0) (bid_policy config rates) now
            ledger in
        elim decision [ ok budget ↦ (none, ledger') | err expected ↦ (some expected, ledger') ]
  ]
]

abbrev pub write_bid : (ℕ → Bool) → Option (Option Bid) → Submitted
write_bid acked none = out_of_fuel
write_bid acked (some none) = not_built
write_bid acked (some (some bid)) = elim (write_attempts acked max_attempts 0) [
  | none ↦ not_sent
  | some n ↦ sent n bid
]

unfoldable pub submit_bid :
    Float
    → Crypto
    → (ℤ → Text)
    → ℤ
    → (ℕ → ℕ)
    → ℕ
    → (ℕ → Bool)
    → TaskAnnouncement
    → NodeConfig
    → List Text
    → ℕ
    → Option GeoInfo
    → Option MetricsSummary
    → ℕ
    → WorkLedger
    → Submitted × WorkLedger
unfolding should_bid_on node_features judge_work build_signed_bid write_attempts
submit_bid fl crypto to_string timestamp clock fuel acked a config supported_gates pending location
      metrics now ledger =
    let features = node_features supported_gates (is_some config.tn_rates) in
    if not (should_bid_on a config features)
    then (skipped_features, ledger)
    else let (past, ledger') = judge_work fl a config now ledger in
      elim past [
        | some expected ↦ (skipped_budget expected, ledger')
        | none ↦ (
          write_bid acked (
              build_signed_bid crypto to_string timestamp clock fuel a config (pending % 2 ^ 32)
                features location metrics),
          ledger',
        )
      ]
