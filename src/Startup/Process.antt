-- ===== src/Startup/Process.antt =====
-- src/main.rs: the state that the process starts with, and the pending sub-tasks of the database put
-- back into the queue before the worker runs.
pub mod Reload
use wqc_node.Base.{
  ℕ, ◌^◌, ◌-◌, true, List, [], ◌∷◌, ◌++◌, Option, none, some, Result, ok, err, ◌>>=◌, ltb, length,
  if◌then◌else◌,
}
use wqc_node.Base.Decimal.{parse_unsigned}
use wqc_node.Base.Float.{Float}
use wqc_node.Base.Int.{ℤ}
use wqc_node.Base.Text.{Text, text}
use wqc_node.Config.{NodeConfig}
use wqc_node.Config.Environment.{EnvError, Readers, from_env, apply_core_sysinfo, map_err}
use wqc_node.Core.{Health, new_health}
use wqc_node.Models.{ComputeTask, CoreSystemInfo}
use wqc_node.Operator.{Primitives}
use wqc_node.Startup.Bootstrap.{
  BootstrapResponse, BootstrapError, Libp2p, resolve_bootstrap, apply_orchestrator_bootstrap,
}
use wqc_node.Startup.Location.{Providers, resolve_node_location}
use wqc_node.Startup.Status.{sync_core_capabilities}
use wqc_node.State.{AppState}
use wqc_node.Storage.{Storage, StorageError}
use wqc_node.Storage.Tasks.{get_pending_tasks}
use wqc_node.Work.{RateBounds, default_ledger, hold}

-- What the process meets: the host, core, the endpoints, the clocks and the database.
pub record World : Type 0 where
  pub total_memory : ℕ
  pub env : Text → Option Text
  pub gates : Option (List Text)
  pub sysinfo : Option CoreSystemInfo
  pub open_storage : Text → Result Storage StorageError
  pub get : Text → Option BootstrapResponse
  pub providers : Providers
  pub now : ℤ
  pub later : ℤ

pub data StartError : Type 0 where
  bad_config : EnvError → StartError
  bad_storage : StorageError → StartError
  bad_bootstrap : BootstrapError → StartError

abbrev pub channel_capacity : ℕ
channel_capacity = 100

unfoldable pub hold_task : ComputeTask → AppState → AppState
unfolding hold
hold_task task st = record st {
  work = hold task.request.task_id task.request.parent_task_id task.budget st.work;
}

-- `tx.send(task).await` while nothing takes from the channel: none where it waits for ever.
unfoldable pub send : ComputeTask → AppState → Option AppState
send task st =
    if ltb (length st.queue) channel_capacity
    then some (record st { queue = st.queue ++ task ∷ [] })
    else none

-- The loop over the pending sub-tasks.
unfoldable pub reload : List ComputeTask → AppState → Option AppState
unfolding send hold_task
reload [] st = some st
reload (task ∷ tasks) st = elim (send task (hold_task task st)) [
  | none ↦ none
  | some st1 ↦ reload tasks st1
]

abbrev pub initial_state : NodeConfig → List Text → Health → Storage → ℕ → AppState
initial_state config supported_gates core db pending_count = record {
  config = config;
  supported_gates = supported_gates;
  queue = [];
  receiving = true;
  pending_tasks = pending_count;
  core = core;
  storage = db;
  open_call_cache = [];
  work = default_ledger;
  in_flight = [];
}

-- `.ok().and_then(|v| v.parse().ok())`
abbrev pub parsed : ℕ → Option Text → Option ℕ
parsed bound none = none
parsed bound (some v) = parse_unsigned bound v

-- The health gate of `WqcCoreClient::new`.
unfoldable pub health_from : (Text → Option Text) → Health
unfolding new_health parse_unsigned
health_from env =
    new_health (parsed (2 ^ 32 - 1) (env (text "WQC_CORE_HEALTH_FAIL_THRESHOLD")))
      (parsed (2 ^ 64 - 1) (env (text "WQC_CORE_HEALTH_BACKOFF_SECS")))

abbrev pub with_sysinfo : Float → RateBounds → Option CoreSystemInfo → NodeConfig → NodeConfig
with_sysinfo fl bounds none config = config
with_sysinfo fl bounds (some info) config = apply_core_sysinfo fl bounds info config

-- The state before the loop, with the sub-tasks that it puts back.
unfoldable pub prepare :
    Readers
    → Float
    → Primitives
    → RateBounds
    → Libp2p
    → World
    → Result (List ComputeTask × AppState) StartError
unfolding from_env sync_core_capabilities apply_core_sysinfo resolve_bootstrap
    apply_orchestrator_bootstrap resolve_node_location get_pending_tasks health_from
prepare rd fl p bounds lib w = do
  config0 ← map_err bad_config (from_env rd fl p w.total_memory w.env)
  db0 ← map_err bad_storage (w.open_storage config0.database_url)
  found ← map_err bad_bootstrap (resolve_bootstrap lib w.get config0.bootstrap_urls)
  config1 ←
      map_err bad_bootstrap
        (apply_orchestrator_bootstrap found (with_sysinfo fl bounds w.sysinfo config0))
  let (node_geo, db1) = resolve_node_location w.providers w.now w.later db0 in
      let (pending, db2) = get_pending_tasks db1 in
      do
        tasks ← map_err bad_storage pending
        ok (
          tasks,
          initial_state config1 (sync_core_capabilities w.gates) (health_from w.env) db2
              (length tasks),
        )

-- What comes of it: an error, a start that never ends, or the state that the worker starts from.
pub data Start : Type 0 where
  failed : StartError → Start
  blocked : Start
  running : AppState → Start

abbrev pub reloaded : Result (List ComputeTask × AppState) StartError → Start
reloaded (err e) = failed e
reloaded (ok (tasks, st)) = elim (reload tasks st) [ none ↦ blocked | some st1 ↦ running st1 ]

unfoldable pub main : Readers → Float → Primitives → RateBounds → Libp2p → World → Start
unfolding prepare reload
main rd fl p bounds lib w = reloaded (prepare rd fl p bounds lib w)
