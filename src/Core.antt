-- ===== src/Core.antt =====
-- src/infra/core_client.rs: the health gate in front of wqc-core. What core answers is an argument;
-- what `Instant::now()` reads, in seconds, is another, with a reading for each place that asks. The
-- atomic counter and the mutex are fields: each method runs on its own.
pub mod Gate
pub mod Wait
use wqc_node.Base.{
  ℕ, zero, suc, ◌+◌, Bool, true, false, ◌&&◌, ◌||◌, not, Option, none, some, Result, ok, err, ltb,
  leb, min, if◌then◌else◌,
}
use wqc_node.Base.Text.{Text, text}

-- The fields that change, and the two limits.
pub record Health : Type 0 where
  pub fail_threshold : ℕ
  pub backoff : ℕ
  pub consecutive_failures : ℕ
  pub unhealthy_until : Option ℕ

abbrev pub default_fail_threshold : ℕ
default_fail_threshold = 3

abbrev pub default_backoff_secs : ℕ
default_backoff_secs = 30

-- The health part of `WqcCoreClient::new`; the arguments are what the environment sets.
unfoldable pub new_health : Option ℕ → Option ℕ → Health
new_health threshold backoff_secs = record {
  fail_threshold = elim threshold [ none ↦ default_fail_threshold | some n ↦ n ];
  backoff = elim backoff_secs [ none ↦ default_backoff_secs | some n ↦ n ];
  consecutive_failures = 0;
  unhealthy_until = none;
}

unfoldable pub is_in_backoff : ℕ → Health → Bool
is_in_backoff now h = elim h.unhealthy_until [ none ↦ false | some until ↦ ltb now until ]

unfoldable pub mark_healthy : Health → Health
mark_healthy h = record h { consecutive_failures = 0; unhealthy_until = none }

unfoldable pub record_unreachable : ℕ → Health → Health
record_unreachable now h =
    if leb h.fail_threshold (h.consecutive_failures + 1)
    then record h { unhealthy_until = some (now + h.backoff); consecutive_failures = 0 }
    else record h { consecutive_failures = h.consecutive_failures + 1 }

pub data CoreError : Type 0 where
  backoff : CoreError
  health_check_failed : CoreError
  send_failed : CoreError
  bad_body : CoreError
  -- The status code and the text of the body.
  status : ℕ → Text → CoreError

-- How `send()` fails; `timed_out` and `body_or_decode` are not reasons to call core unreachable.
pub record SendError : Type 0 where
  pub timed_out : Bool
  pub body_or_decode : Bool
  pub connect_or_request : Bool

unfoldable pub is_unreachable : SendError → Bool
is_unreachable e = if e.timed_out || e.body_or_decode then false else e.connect_or_request

-- What one POST meets: a failure to send, a body that does or does not parse, another status.
pub data Reply {ℓ} (A : Type ℓ) : Type ℓ where
  no_reply : SendError → Reply A
  reply_ok : Option A → Reply A
  reply_status : ℕ → Text → Reply A

-- What the clock reads in one call: at the gate, where a probe has failed, and where a send has.
pub record Readings : Type 0 where
  pub at_gate : ℕ
  pub after_probe : ℕ
  pub after_send : ℕ

-- `probe` tells whether `GET /health` succeeds.
unfoldable pub ensure_ready : Readings → Bool → Health → Result (Unit {0}) CoreError × Health
unfolding is_in_backoff mark_healthy record_unreachable
ensure_ready times probe h =
    if is_in_backoff times.at_gate h
    then (err backoff, h)
    else if probe
    then (ok tt, mark_healthy h)
    else (err health_check_failed, record_unreachable times.after_probe h)

-- `if is_unreachable(&e) { self.record_unreachable(); }`
abbrev pub note_send_error : ℕ → SendError → Health → Health
note_send_error now e h = if is_unreachable e then record_unreachable now h else h

module _ {ℓ} {A : Type ℓ} where
  -- `dispatch_task` after `ensure_ready`: healthy only once the body parses.
  abbrev pub after_compute : ℕ → Reply A → Health → Result A CoreError × Health
  after_compute now (no_reply e) h = (err send_failed, note_send_error now e h)
  after_compute now (reply_ok none) h = (err bad_body, h)
  after_compute now (reply_ok (some a)) h = (ok a, mark_healthy h)
  after_compute now (reply_status s t) h = (err (status s t), h)

  -- `post_leaf_pcs` after `ensure_ready`: healthy before the body is read.
  abbrev pub after_leaf_pcs : ℕ → Reply A → Health → Result A CoreError × Health
  after_leaf_pcs now (no_reply e) h = (err send_failed, note_send_error now e h)
  after_leaf_pcs now (reply_ok none) h = (err bad_body, mark_healthy h)
  after_leaf_pcs now (reply_ok (some a)) h = (ok a, mark_healthy h)
  after_leaf_pcs now (reply_status s t) h = (err (status s t), h)

  abbrev pub when_ready :
      (Health → Result A CoreError × Health)
      → Result (Unit {0}) CoreError × Health
      → Result A CoreError × Health
  when_ready k (ok u, h) = k h
  when_ready k (err e, h) = (err e, h)

  unfoldable pub dispatch_task : Readings → Bool → Reply A → Health → Result A CoreError × Health
  unfolding ensure_ready is_unreachable
  dispatch_task times probe reply h =
      when_ready (after_compute times.after_send reply) (ensure_ready times probe h)

  unfoldable pub post_leaf_pcs : Readings → Bool → Reply A → Health → Result A CoreError × Health
  unfolding ensure_ready is_unreachable
  post_leaf_pcs times probe reply h =
      when_ready (after_leaf_pcs times.after_send reply) (ensure_ready times probe h)

-- `wait_until_up`, with the rounds left as fuel: what `GET /health` gives in round `i`, and what
-- the clock reads after it. None where the fuel runs out.
unfoldable pub wait_rounds : (ℕ → Bool) → (ℕ → ℕ) → ℕ → ℕ → ℕ → Option Bool
wait_rounds probes clock deadline zero i = none
wait_rounds probes clock deadline (suc fuel) i =
    let rest = wait_rounds probes clock deadline fuel (i + 1) in
    if probes i then some true else if leb deadline (clock i) then some false else rest

-- A round takes a second at least, so that many rounds reach the deadline.
unfoldable pub wait_until_up : (ℕ → Bool) → (ℕ → ℕ) → ℕ → ℕ → Option Bool
unfolding wait_rounds
wait_until_up probes clock start limit = wait_rounds probes clock (start + limit) (suc limit) 0
