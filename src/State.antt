-- ===== src/State.antt =====
-- src/application/state.rs: what the handlers share. The HTTP client and the P2P control are not
-- state of the model. A bounded channel whose sender waits for room is the list of what it holds.
use wqc_node.Base.{ℕ, ◌+◌, ◌-◌, ◌%◌, ◌^◌, Bool, List, [], ◌∷◌, ◌++◌, Result, ok, err, if◌then◌else◌}
use wqc_node.Base.Map.{Map}
use wqc_node.Base.Text.{Text}
use wqc_node.Config.{NodeConfig}
use wqc_node.Core.{Health}
use wqc_node.Models.{ComputeTask}
use wqc_node.Pcs.{PcsOpenCall}
use wqc_node.Storage.{Storage}
use wqc_node.Work.{WorkLedger}

-- `receiving`: the worker's end of the channel is there. `in_flight` is the static set of
-- src/application/pcs_outbox.rs.
pub record AppState : Type 0 where
  pub config : NodeConfig
  pub supported_gates : List Text
  pub queue : List ComputeTask
  pub receiving : Bool
  pub pending_tasks : ℕ
  pub core : Health
  pub storage : Storage
  pub open_call_cache : Map PcsOpenCall
  pub work : WorkLedger
  pub in_flight : List Text

-- `TaskIngress::enqueue`
unfoldable pub enqueue : ComputeTask → AppState → Result (Unit {0}) (Unit {0}) × AppState
enqueue task st =
    if st.receiving then (ok tt, record st { queue = st.queue ++ (task ∷ []) }) else (err tt, st)

-- `fetch_add(1)` and `fetch_sub(1)` of an `AtomicUsize`, which wrap.
abbrev pub fetch_add : AppState → AppState
fetch_add st = record st { pending_tasks = (st.pending_tasks + 1) % 2 ^ 64 }

abbrev pub fetch_sub : AppState → AppState
fetch_sub st = record st { pending_tasks = (st.pending_tasks + (2 ^ 64 - 1)) % 2 ^ 64 }
