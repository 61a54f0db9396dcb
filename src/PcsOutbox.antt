-- ===== src/PcsOutbox.antt =====
-- src/application/pcs_outbox.rs with src/transport/p2p/pcs_delivery.rs: when a leaf PCS is built,
-- delivered, refused and dropped. A stored job is the record, not its JSON. What core, the blob store
-- and the orchestrator answer is a record of the world; the text of an error is a parameter.
pub mod Run
pub mod Requests
pub mod Claim
pub mod Deliver
pub mod Retain
use wqc_node.Base.{
  ℕ, zero, suc, ◌+◌, Bool, true, false, not, ◌&&◌, ◌||◌, List, [], ◌∷◌, ◌++◌, Option, none, some,
  Result, ok, err, filter, any, is_empty, ltb, ◌==◌, if◌then◌else◌,
}
use wqc_node.Base.Bytes.{Bytes}
use wqc_node.Base.Int.{ℤ, ◌-ℤ◌, leb_ℤ}
use wqc_node.Base.Text.{Text, text, text_eq, contains, has_substring, trim}
use wqc_node.Cas.{CasError, CasReply, fetch_and_verify}
use wqc_node.Core.{CoreError, Reply, Readings, is_in_backoff, post_leaf_pcs}
use wqc_node.Crypto.{Crypto}
use wqc_node.Jobs.{PendingPcsJob, OpenCallPcsSource, is_open_call_job}
use wqc_node.Models.{ComputeTask, Proof, PublicInputs}
use wqc_node.Pcs.{PcsRequest, PcsOpenCall, is_open_call, cached_open_call, clear_cached_open_call}
use wqc_node.State.{AppState}
use wqc_node.Storage.{Storage, StorageError, PcsCols}
use wqc_node.Storage.Jobs.{
  upsert_pending_pcs, get_pending_pcs, delete_pending_pcs, list_pending_pcs,
  delete_pending_pcs_by_id, increment_pending_pcs_attempts,
}
use wqc_node.Storage.Rows.{Row}

-- src/infra/core_client.rs
pub record LeafPcsResponse : Type 0 where
  pub leaf_pcs_b64 : Text
  pub bytes : ℕ

-- src/domain/pcs.rs
pub record PcsMessage : Type 0 where
  pub sub_task_id : Text
  pub node_id : Text
  pub leaf_pcs_b64 : Text
  pub refused : Bool
  pub refuse_reason : Option Text

pub data PcsError : Type 0 where
  core : CoreError → PcsError
  cas : CasError → PcsError
  storage : StorageError → PcsError
  not_sent : PcsError

pub data DeliverOutcome : Type 0 where
  delivered skipped_in_flight skipped_core_down refused_permanent : DeliverOutcome

-- What one run meets. `now` is read by the outbox, `readings` by the call of core. `sends` is whether a message is sent and acknowledged.
pub record World : Type 0 where
  pub now : ℕ
  pub readings : Readings
  pub unix_now : ℤ
  pub probe : Bool
  pub leaf_pcs : Proof → Reply LeafPcsResponse
  pub blob : CasReply
  pub sends : PcsMessage → Bool

abbrev pub Outcome : Type 0
Outcome = Result DeliverOutcome PcsError × AppState

abbrev pub retained_proof_lookup_attempts : ℕ
retained_proof_lookup_attempts = 10

unfoldable pub placeholder_proof : Text → Text → Text → Proof
placeholder_proof sub_task_id node_id slice_id = record {
  public_inputs = record {
    circuit_id = [];
    sub_task_id = sub_task_id;
    node_id = node_id;
    slice_id = slice_id;
    output_result_hash = [];
    measurement_spec_hash = [];
    security_level = [];
  };
  stark_proof_b64 = [];
}

-- `claim_inflight` and `release_inflight`
unfoldable pub claim_inflight : Text → List Text → Bool × List Text
unfolding contains
claim_inflight id set = if contains set id then (false, set) else (true, id ∷ set)

unfoldable pub release_inflight : Text → List Text → List Text
release_inflight id set = filter (λ x. not (text_eq x id)) set

unfoldable pub build_pcs_wire_body : Text → Text → Text → PcsMessage
build_pcs_wire_body sub_task_id node_id leaf_pcs_b64 = record {
  sub_task_id = sub_task_id;
  node_id = node_id;
  leaf_pcs_b64 = leaf_pcs_b64;
  refused = false;
  refuse_reason = none;
}

unfoldable pub build_pcs_refusal_wire_body : Text → Text → Text → PcsMessage
build_pcs_refusal_wire_body sub_task_id node_id reason = record {
  sub_task_id = sub_task_id;
  node_id = node_id;
  leaf_pcs_b64 = [];
  refused = true;
  refuse_reason = some reason;
}

-- `str::lines`; the carriage return before a line feed is left for `trim`.
abbrev pub lines_from : Text → Text → List Text
lines_from line [] = if is_empty line then [] else line ∷ []
lines_from line (c ∷ s) =
    let next = lines_from [] s in
    let on = lines_from (line ++ (c ∷ [])) s in if c == 10 then line ∷ next else on

abbrev pub find : (Text → Bool) → List Text → Option Text
find p [] = none
find p (x ∷ xs) = let rest = find p xs in if p x then some x else rest

abbrev pub reason_of : Option Text → Text
reason_of none = text "PCS memory: refused"
reason_of (some line) = if is_empty (trim line) then text "PCS memory: refused" else trim line

module _ (show : PcsError → Text) where
  unfoldable pub is_core_down_error : PcsError → Bool
  is_core_down_error e =
      has_substring (text "unhealthy (backoff)") (show e)
      || has_substring (text "health check failed") (show e)
      || has_substring (text "Failed to send leaf_pcs request to wqc-core") (show e)

  unfoldable pub is_pcs_memory_refuse : PcsError → Bool
  is_pcs_memory_refuse e =
      has_substring (text "PCS memory:") (show e) && has_substring (text "policy=refuse") (show e)

  unfoldable pub is_cas_hash_mismatch : PcsError → Bool
  is_cas_hash_mismatch e = has_substring (text "CAS leaf proof hash mismatch") (show e)

  unfoldable pub pcs_refuse_reason : PcsError → Text
  pcs_refuse_reason e = reason_of (
      find
        (λ l.
          has_substring (text "PCS memory:") l
          || has_substring (text "CAS leaf proof hash mismatch") l)
        (lines_from [] (show e)))
