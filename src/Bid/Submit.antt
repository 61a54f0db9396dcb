-- ===== src/Bid/Submit.antt =====
-- When the node bids (src/domain/bid.rs, src/transport/p2p/bid_client.rs).
use Prim.Native.Nat.{bit_and}
use wqc_node.Base.{
  ℕ, zero, suc, ◌+◌, ◌%◌, ◌^◌, ◌≤◌, ◌≡◌, ◌≢◌, ◌↔◌, ap, sym, ◌∙◌, Bool, true, false, List, Option,
  none, some, ok, err, arith, Bool-cases, Option-cases, inl, inr,
}
use wqc_node.Base.Float.{F64, Float}
use wqc_node.Base.Int.{ℤ}
use wqc_node.Base.Text.{Text}
use wqc_node.Bid.{Bid, MetricsSummary, should_bid_on, build_signed_bid}
use wqc_node.Bid.Client.{
  Submitted, judge_work, bid_policy, submit_bid, sent, write_attempts, write_bid, max_attempts,
}
use wqc_node.Bid.Signed.{IsBuilt, build_signed_bid-IsBuilt}
use wqc_node.Config.{NodeConfig}
use wqc_node.Crypto.{Crypto}
use wqc_node.Features.{node_features, feature_work_budget}
use wqc_node.Features.Bits.{bit, bit_and-16, bit-below}
use wqc_node.Features.Cover.{supports_iff, work_bit_needs_rates}
use wqc_node.P2p.{TaskAnnouncement, TaskAnnouncementMessage, verify_announcement_message, is_some}
use wqc_node.P2p.Announce.{verify_announcement_message_iff}
use wqc_node.Storage.{GeoInfo}
use wqc_node.Work.{Work, TnRates, WorkLedger, decide, limit_secs, total_secs}

-- The node bids exactly when it has ten qubits, has a feature and has every feature that the task
-- asks for.
pub should_bid_on_iff :
    (a : TaskAnnouncement) (config : NodeConfig) (features : ℕ)
    → (should_bid_on a config features ≡ true) ↔ (
        (10 ≤ config.max_qubits % 2 ^ 32)
        × (features ≢ 0)
        × ((i : ℕ) → bit i a.required_features ≤ bit i features))
unfolding should_bid_on
should_bid_on_iff a config features =
    let covers = supports_iff features a.required_features in
    (
      λ h. (ground (arith, h), ground (arith, h), covers.0 (ground (arith, h))),
      λ (q, f, c). ground (arith, q, f, covers.1 c),
    )

write_attempts-bounds :
    (acked : ℕ → Bool) (left attempt n : ℕ)
    → write_attempts acked left attempt ≡ some n
    → (n ≤ left + attempt) × ((k : ℕ) × (n ≡ suc k) × (acked k ≡ true))
unfolding write_attempts
write_attempts-bounds acked zero attempt n e = absurd (ground (arith, e))
write_attempts-bounds acked (suc left) attempt n e = elim (Bool-cases (acked attempt)) [
  | inl t ↦ (ground (arith, e, t), (attempt, ground (arith, e, t), t))
  | inr f ↦
      let (le, rest) = write_attempts-bounds acked left (suc attempt) n (ground (arith, e, f)) in
      (omega (arith, le), rest)
]

-- A verified announcement that asks for the work budget is bid on only by a node that has rates.
pub asks_for_work :
    (a : TaskAnnouncement) (config : NodeConfig) (gates : List Text)
    → bit_and a.required_features feature_work_budget ≢ 0
    → should_bid_on a config (node_features gates (is_some config.tn_rates)) ≡ true
    → (rates : TnRates) × (config.tn_rates ≡ some rates)
unfolding should_bid_on
asks_for_work a config gates b h =
    let bit4 : bit 4 a.required_features ≡ 1 =
      omega (arith, b, bit_and-16 a.required_features, bit-below 4 a.required_features) in
    let t =
      work_bit_needs_rates gates (is_some config.tn_rates) a.required_features (ground (arith, h))
        bit4 in
    elim (Option-cases config.tn_rates) [ inl n ↦ absurd (ground (arith, t, n)) | inr r ↦ r ]

-- The total of an admitted decision is not past the limit.
decide-fits :
    (fl : Float) (task_id : Text) (work : Work) (deadline : ℕ) (config : NodeConfig)
    (rates : TnRates) (now : ℕ) (l : WorkLedger)
    → ¬ ((x : F64) × ((decide fl task_id work deadline (bid_policy config rates) now l).0 ≡ err x))
    → fl.flt
        (limit_secs fl (bid_policy config rates) deadline)
        (total_secs fl (bid_policy config rates) work now l)
      ≡ false
unfolding decide
decide-fits fl task_id work deadline config rates now l h =
    elim (Bool-cases (
      fl.flt (limit_secs fl (bid_policy config rates) deadline)
        (total_secs fl (bid_policy config rates) work now l))) [
          | inl past ↦
              absurd (h (total_secs fl (bid_policy config rates) work now l, ground (arith, past)))
          | inr fit ↦ fit
        ]

judge_work-fits :
    (fl : Float) (a : TaskAnnouncement) (config : NodeConfig) (now : ℕ) (l : WorkLedger)
    (work : Work) (rates : TnRates) (d : ℕ)
    → a.work ≡ some work
    → config.tn_rates ≡ some rates
    → a.deadline_secs ≡ some d
    → (judge_work fl a config now l).0 ≡ none
    → fl.flt
        (limit_secs fl (bid_policy config rates) d)
        (total_secs fl (bid_policy config rates) work now l)
      ≡ false
unfolding judge_work
judge_work-fits fl a config now l work rates d ew er ed h =
    decide-fits fl a.task_id work d config rates now l (λ (x, e). ground (arith, h, ew, er, ed, e))

module _ (fl : Float) (c : Crypto) (to_string : ℤ → Text) (timestamp : ℤ) (clock : ℕ → ℕ) (fuel : ℕ)
    (acked : ℕ → Bool) (a : TaskAnnouncement) (config : NodeConfig) (gates : List Text)
    (pending : ℕ) (location : Option GeoInfo) (metrics : Option MetricsSummary) (now : ℕ)
    (l : WorkLedger) where
  abbrev features : ℕ
  features = node_features gates (is_some config.tn_rates)

  abbrev outcome : Submitted
  outcome =
      (submit_bid fl c to_string timestamp clock fuel acked a config gates pending location metrics
        now l).0

  abbrev built : Option (Option Bid)
  built =
      build_signed_bid c to_string timestamp clock fuel a config (pending % 2 ^ 32) features
        location metrics

  sent-steps :
      (n : ℕ) (bid : Bid)
      → outcome ≡ sent n bid
      → (should_bid_on a config features ≡ true)
        × ((judge_work fl a config now l).0 ≡ none)
        × (write_bid acked built ≡ sent n bid)
  unfolding submit_bid
  sent-steps n bid e = elim (Bool-cases (should_bid_on a config features)) [
    | inr f ↦ absurd (ground (arith, e, f))
    | inl t ↦ elim (Option-cases (judge_work fl a config now l).0) [
      | inl none_past ↦ (t, none_past, ground (arith, e, t, none_past))
      | inr (x, past) ↦ absurd (ground (arith, e, t, past))
    ]
  ]

  written :
      (o : Option (Option Bid)) (n : ℕ) (bid : Bid)
      → write_bid acked o ≡ sent n bid
      → (o ≡ some (some bid)) × (write_attempts acked max_attempts 0 ≡ some n)
  written none n bid e = absurd (ground (arith, e))
  written (some none) n bid e = absurd (ground (arith, e))
  written (some (some b)) n bid e = elim (Option-cases (write_attempts acked max_attempts 0)) [
    | inl x ↦ absurd (ground (arith, e, x))
    | inr (k, x) ↦ (ground (arith, e, x), ground (arith, e, x))
  ]

  -- A bid that is sent passed the test of features, is signed as built, and was written at most
  -- three times, of which the orchestrator acknowledged the last.
  pub submit_bid-sent :
      (n : ℕ) (bid : Bid)
      → outcome ≡ sent n bid
      → (should_bid_on a config features ≡ true)
        × IsBuilt c to_string timestamp clock fuel a config
            (pending % 2 ^ 32)
            features
            location
            metrics
            bid
        × (n ≤ 3)
        × ((k : ℕ) × (n ≡ suc k) × (acked k ≡ true))
  submit_bid-sent n bid e =
      let (t, judged, w) = sent-steps n bid e in
      let (b, attempts) = written built n bid w in
      let (le, last) = write_attempts-bounds acked max_attempts 0 n attempts in
      (
        t,
        build_signed_bid-IsBuilt c to_string timestamp clock fuel a config (pending % 2 ^ 32)
            features location metrics bid b,
        omega (arith, le),
        last,
      )

  -- Under a verified announcement that asks for the work budget, a bid is sent only if the node has
  -- rates, the announcement has work and a deadline, and the queue with this work is not past the
  -- limit for that deadline.
  pub submit_bid-within_budget :
      (m : TaskAnnouncementMessage) (key : Text) (n : ℕ) (bid : Bid)
      → m.announcement ≡ a
      → verify_announcement_message c m key ≡ ok tt
      → bit_and a.required_features feature_work_budget ≢ 0
      → outcome ≡ sent n bid
      → (rates : TnRates) × (work : Work) × (d : ℕ) × (config.tn_rates ≡ some rates)
        × (a.work ≡ some work)
        × (a.deadline_secs ≡ some d)
        × (fl.flt
              (limit_secs fl (bid_policy config rates) d)
              (total_secs fl (bid_policy config rates) work now l)
            ≡ false)
  submit_bid-within_budget m key n bid same trusted asks e =
      let (t, judged, w) = sent-steps n bid e in
      let (rates, er) = asks_for_work a config gates asks t in
      elim ((verify_announcement_message_iff c key m).0 trusted) [
        | inl (no_work, no_bit, v) ↦ absurd (
            asks (
              ap (λ (x : TaskAnnouncement). bit_and x.required_features feature_work_budget)
                (sym same)
              ∙ no_bit))
        | inr (work, d, s, ew, ed, es, v) ↦
            let fw = ap (λ (x : TaskAnnouncement). x.work) (sym same) ∙ ew in
            let fd = ap (λ (x : TaskAnnouncement). x.deadline_secs) (sym same) ∙ ed in
            (
              rates,
              work,
              d,
              er,
              fw,
              fd,
              judge_work-fits fl a config now l work rates d fw er fd judged,
            )
      ]
