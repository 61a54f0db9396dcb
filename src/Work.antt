-- ===== src/Work.antt =====
-- src/domain/work.rs: the work budget. An `Instant` is its distance from a fixed one and a
-- `Duration` its length, in nanoseconds. The maps are association lists; `HashMap` has no order, and
-- here the sums run in the order of the list.
pub mod Ledger
pub mod Lapse
pub mod Timeout
use wqc_node.Base.{
  ℕ, ◌+◌, ◌-◌, ◌*◌, ◌^◌, min, Bool, true, false, ◌&&◌, List, [], ◌∷◌, Option, none, some, Result,
  ok, err, ltb, leb, if◌then◌else◌, map,
}
use wqc_node.Base.Float.{F64, Float}
use wqc_node.Base.Map.{Map, lookup, insert, remove, update, retain, values}
use wqc_node.Base.Text.{Text}
use wqc_node.Models.{Budget}

abbrev pub nanos_per_sec : ℕ
nanos_per_sec = 1000000000

-- `Duration::from_secs`
abbrev pub from_secs : ℕ → ℕ
from_secs n = n * nanos_per_sec

abbrev pub announced_ttl : ℕ
announced_ttl = from_secs (6 * 60 * 60)

abbrev pub reservation_ttl : ℕ
reservation_ttl = from_secs 15

-- src/domain/p2p.rs
pub record Work : Type 0 where
  pub traffic_bytes : ℕ
  pub flops : ℕ

pub record TnRates : Type 0 where
  pub seconds_per_byte : F64
  pub seconds_per_flop : F64

-- The ends of the two ranges of a measured rate: `SECONDS_PER_BYTE` and `SECONDS_PER_FLOP`.
pub record RateBounds : Type 0 where
  pub byte_lo : F64
  pub byte_hi : F64
  pub flop_lo : F64
  pub flop_hi : F64

pub record BudgetPolicy : Type 0 where
  pub rates : TnRates
  pub overhead_secs : F64
  pub margin : F64
  pub own_timeout_secs : ℕ
  pub unknown_secs : F64

pub record Held : Type 0 where
  pub expected_secs : Option F64
  pub started : Option ℕ

pub record WorkLedger : Type 0 where
  pub announced : Map (Budget × ℕ)
  pub reserved : Map (F64 × ℕ)
  pub held : Map Held

abbrev pub default_ledger : WorkLedger
default_ledger = record { announced = []; reserved = []; held = [] }

-- What is left of the orchestrator's deadline: `checked_sub`, and none where it is zero.
abbrev pub deadline_left : ℕ → Budget → ℕ → Option ℕ
deadline_left own b waited =
    if ltb waited (from_secs b.deadline_secs)
    then some (min own (from_secs b.deadline_secs - waited))
    else none

unfoldable pub compute_timeout : ℕ → Option Budget → ℕ → Option ℕ
compute_timeout own_secs none waited = some (from_secs own_secs)
compute_timeout own_secs (some b) waited = deadline_left (from_secs own_secs) b waited

-- The methods that change the maps and use no float.
unfoldable pub budget : Text → WorkLedger → Option Budget
unfolding lookup
budget parent_task_id l = elim (lookup parent_task_id l.announced) [
  | none ↦ none
  | some (b, at) ↦ some b
]

abbrev pub end_reservation : Option Text → Map (F64 × ℕ) → Map (F64 × ℕ)
end_reservation none reserved = reserved
end_reservation (some parent) reserved = remove parent reserved

abbrev pub expected_of : Option Budget → Option F64
expected_of none = none
expected_of (some b) = some b.expected_secs

unfoldable pub hold : Text → Option Text → Option Budget → WorkLedger → WorkLedger
hold sub_task_id parent_task_id budget l = record l {
  reserved = end_reservation parent_task_id l.reserved;
  held = insert sub_task_id (record { expected_secs = expected_of budget; started = none }) l.held;
}

unfoldable pub start : Text → ℕ → WorkLedger → WorkLedger
start sub_task_id now l = record l {
  held = update sub_task_id (λ h. record h { started = some now }) l.held;
}

unfoldable pub release : Text → WorkLedger → WorkLedger
release sub_task_id l = record l { held = remove sub_task_id l.held }

-- `now < until`
abbrev pub is_live : ℕ → F64 × ℕ → Bool
is_live now (expected, until) = ltb now until

module _ (fl : Float) where
  abbrev within : F64 → F64 → F64 → Bool
  within x lo hi = fl.is_finite x && fl.fle lo x && fl.fle x hi

  unfoldable pub from_sysinfo : RateBounds → Option F64 → Option F64 → Option TnRates
  from_sysinfo bounds (some b) (some f) =
      if within b bounds.byte_lo bounds.byte_hi && within f bounds.flop_lo bounds.flop_hi
      then some (record { seconds_per_byte = b; seconds_per_flop = f })
      else none
  from_sysinfo bounds none per_flop = none
  from_sysinfo bounds (some b) none = none

  unfoldable pub seconds : TnRates → Work → F64
  seconds rates work =
      fl.add (fl.mul (fl.of_u64 work.traffic_bytes) rates.seconds_per_byte)
        (fl.mul (fl.of_u64 work.flops) rates.seconds_per_flop)

  -- What a held sub-task counts for.
  abbrev pub held_secs_of : ℕ → F64 → Option F64 → Option ℕ → F64
  held_secs_of now unknown_secs none started = unknown_secs
  held_secs_of now unknown_secs (some expected) none = expected
  held_secs_of now unknown_secs (some expected) (some at) =
      let left = fl.sub expected (fl.as_secs_f64 (now - at)) in
      if fl.flt (fl.of_u64 0) left then left else expected

  abbrev pub held_secs : ℕ → F64 → Held → F64
  held_secs now unknown_secs h = held_secs_of now unknown_secs h.expected_secs h.started

  -- `Iterator::sum`
  abbrev pub sum_from : F64 → List F64 → F64
  sum_from acc [] = acc
  sum_from acc (x ∷ xs) = sum_from (fl.add acc x) xs

  abbrev pub sum : List F64 → F64
  sum xs = sum_from fl.sum_start xs

  unfoldable pub queued_secs : ℕ → F64 → WorkLedger → F64
  queued_secs now unknown_secs l =
      fl.add (sum (map (held_secs now unknown_secs) (values l.held)))
        (sum (map (λ (expected, until). expected) (values (retain (is_live now) l.reserved))))

  abbrev pub own_secs : BudgetPolicy → Work → F64
  own_secs policy work = fl.add (seconds policy.rates work) policy.overhead_secs

  abbrev pub limit_secs : BudgetPolicy → ℕ → F64
  limit_secs policy deadline_secs =
      fl.mul policy.margin (fl.of_u64 (min policy.own_timeout_secs deadline_secs))

  -- `self.reserved.retain(|_, (_, until)| now < *until)`
  abbrev pub expire_reserved : ℕ → WorkLedger → WorkLedger
  expire_reserved now l = record l { reserved = retain (is_live now) l.reserved }

  -- The rest of `decide` once the total fits.
  abbrev pub admit : Text → Budget → ℕ → WorkLedger → WorkLedger
  admit task_id b now l = record l {
    announced =
        insert task_id (b, now) (retain (λ (b, at). ltb (now - at) announced_ttl) l.announced);
    reserved = insert task_id (b.expected_secs, now + reservation_ttl) l.reserved;
  }

  abbrev pub total_secs : BudgetPolicy → Work → ℕ → WorkLedger → F64
  total_secs policy work now l =
      fl.add (queued_secs now policy.unknown_secs (expire_reserved now l)) (own_secs policy work)

  unfoldable pub decide :
      Text → Work → ℕ → BudgetPolicy → ℕ → WorkLedger → Result Budget F64 × WorkLedger
  decide task_id work deadline_secs policy now l =
      if fl.flt (limit_secs policy deadline_secs) (total_secs policy work now l)
      then (err (total_secs policy work now l), expire_reserved now l)
      else let b : Budget = record {
        deadline_secs = deadline_secs;
        expected_secs = own_secs policy work;
      } in
        (ok b, admit task_id b now (expire_reserved now l))
