-- ===== src/Jobs.antt =====
-- The jobs of src/domain/pcs.rs that src/infra/storage.rs keeps.
use wqc_node.Base.{ℕ, Bool, true, false, Option, none, some}
use wqc_node.Base.Text.{Text}
use wqc_node.Models.{Proof}

pub record OpenCallPcsSource : Type 0 where
  pub leaf_proof_hash : Text
  pub cas_presigned_url : Text
  pub leaf_proof_bytes : ℕ
  pub slice_id : Text

pub record PendingPcsJob : Type 0 where
  pub sub_task_id : Text
  pub proof : Proof
  pub requested : Bool
  pub leaf_pcs_b64 : Option Text
  pub leaf_pcs_bytes : Option ℕ
  pub open_call : Option OpenCallPcsSource

-- `PendingPcsJob::is_open_call`.
unfoldable pub is_open_call_job : PendingPcsJob → Bool
is_open_call_job job = elim job.open_call [ none ↦ false | some o ↦ true ]
