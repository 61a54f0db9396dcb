-- ===== src/Storage.antt =====
-- src/infra/storage.rs: the four SQLite tables. The statements on a table stand in the module named
-- for it; a statement that SQLite fails, as the list `faults` says, changes nothing. `now` is what
-- `unix_now()` reads. Tasks and jobs are kept as values: their JSON is serde's, taken to read back
-- what it wrote.
pub mod Rows
pub mod Tasks
pub mod Results
pub mod Jobs
pub mod Geo
pub mod Unique
pub mod Outbox
pub mod Steps
pub mod Prune
pub mod Refines
use wqc_node.Base.{ℕ, Bool, true, false, List, [], ◌∷◌, Option, none, Result, ok, err}
use wqc_node.Base.Bytes.{Bytes}
use wqc_node.Base.Float.{F64}
use wqc_node.Base.Int.{ℤ}
use wqc_node.Base.Text.{Text}
use wqc_node.Jobs.{PendingPcsJob}
use wqc_node.Models.{ComputeTask}
use Rows.{Key, Table, empty}

pub record TaskCols : Type 0 where
  pub payload : ComputeTask
  pub status : Text

pub record ResultCols : Type 0 where
  pub wire_body : Bytes
  pub attempts : ℕ

pub record PcsCols : Type 0 where
  pub job : PendingPcsJob
  pub attempts : ℕ

-- src/domain/geo.rs: GeoInfo.
pub record GeoInfo : Type 0 where
  pub latitude : F64
  pub longitude : F64
  pub country : Text
  pub city : Text

pub record GeoRow : Type 0 where
  pub geo : GeoInfo
  pub updated_at : ℤ

-- `faults`: whether SQLite fails each statement to come; past its end none fails.
pub record Storage : Type 0 where
  pub tasks : Table TaskCols
  pub pending_results : Table ResultCols
  pub pending_pcs : Table PcsCols
  pub geo_cache : Option GeoRow
  pub faults : List Bool

pub data StorageError : Type 0 where
  -- The message holds `UNIQUE constraint failed`.
  unique_violation : StorageError
  -- Any other error of SQLite.
  sql_error : StorageError

-- A database with no rows.
abbrev pub new_storage : List Bool → Storage
new_storage faults = record {
  tasks = empty;
  pending_results = empty;
  pending_pcs = empty;
  geo_cache = none;
  faults = faults;
}

module _ {ℓ} {A : Type ℓ} where
  abbrev pub run_statement :
      List Bool
      → (Storage → Result A StorageError × Storage)
      → Storage
      → Result A StorageError × Storage
  run_statement [] op st = op st
  run_statement (true ∷ faults) op st = (err sql_error, record st { faults = faults })
  run_statement (false ∷ faults) op st = op (record st { faults = faults })

  abbrev pub statement :
      (Storage → Result A StorageError × Storage) → Storage → Result A StorageError × Storage
  statement op st = run_statement st.faults op st

abbrev pub Done : Type 0
Done = Result (Unit {0}) StorageError × Storage

abbrev pub key : Text → Text → Key
key orchestrator_pubkey task_id = record {
  orchestrator_pubkey = orchestrator_pubkey;
  task_id = task_id;
}

abbrev pub key_of : ComputeTask → Key
key_of task = key task.orchestrator_pubkey task.request.task_id
