-- ===== src/Pcs.antt =====
-- src/domain/pcs.rs: the messages of a leaf PCS and their signed bytes, and which open calls the
-- node bids on (src/application/pcs_open_call.rs). The jobs stand in Jobs. The clock is an argument.
pub mod Sorting
pub mod Payload
pub mod OpenCall
use wqc_node.Base.{
  ℕ, ◌%◌, ◌^◌, Bool, true, false, not, ◌&&◌, ◌||◌, List, [], ◌∷◌, ◌++◌, Option, none, some, Result,
  length, concat, map, any, is_empty, if◌then◌else◌, ltb, ◌==◌,
}
use wqc_node.Base.Bytes.{Bytes, to_be_bytes, as_bytes}
use wqc_node.Base.Int.{ℤ, pos, ltb_ℤ, leb_ℤ, i64_bits}
use wqc_node.Base.Map.{Map, lookup, insert, remove}
use wqc_node.Base.Text.{Text, text, text_eq, trim, to_ascii_lowercase}
use wqc_node.Config.{NodeConfig}
use wqc_node.Crypto.{Crypto}
use wqc_node.P2p.{SignatureError, verify_orchestrator_signature}

pub data PcsMemoryPolicy : Type 0 where
  refuse spill : PcsMemoryPolicy

abbrev pub policy_of : Option Text → PcsMemoryPolicy
policy_of none = refuse
policy_of (some raw) =
    if text_eq (to_ascii_lowercase (trim raw)) (text "spill") then spill else refuse

unfoldable pub from_env_str : Option Text → PcsMemoryPolicy
from_env_str raw = policy_of raw

unfoldable pub as_str : PcsMemoryPolicy → Text
as_str refuse = text "refuse"
as_str spill = text "spill"

unfoldable pub is_spill : PcsMemoryPolicy → Bool
is_spill refuse = false
is_spill spill = true

pub record PcsRequest : Type 0 where
  pub sub_task_id : Text
  pub parent_task_id : Text
  pub slice_id : Text
  pub node_id : Text
  pub issued_at_unix : ℤ
  pub request_kind : Text
  pub leaf_proof_hash : Text

unfoldable pub is_open_call : PcsRequest → Bool
is_open_call request = text_eq request.request_kind (text "open_call")

pub record PcsOpenCall : Type 0 where
  pub parent_task_id : Text
  pub sub_task_id : Text
  pub slice_id : Text
  pub leaf_proof_hash : Text
  pub leaf_proof_bytes : ℕ
  pub cas_presigned_url : Text
  pub r_pcs_planck : Text
  pub deadline_unix : ℤ
  pub issued_at_unix : ℤ
  pub refused_builders : List Text

unfoldable pub is_expired_at : ℤ → PcsOpenCall → Bool
is_expired_at now_unix call = ltb_ℤ (pos 0) call.deadline_unix && leb_ℤ call.deadline_unix now_unix

unfoldable pub refuses_builder : Text → PcsOpenCall → Bool
refuses_builder node_id call = any (λ id. text_eq id node_id) call.refused_builders

pub record PcsBid : Type 0 where
  pub sub_task_id : Text
  pub node_id : Text
  pub leaf_proof_hash : Text
  pub pcs_memory_policy : Text
  pub issued_at_unix : ℤ

unfoldable pub is_spill_policy : PcsBid → Bool
is_spill_policy bid = text_eq bid.pcs_memory_policy (text "spill")

unfoldable pub serialize_pcs_request_payload : PcsRequest → Bytes
unfolding as_bytes to_be_bytes
serialize_pcs_request_payload request = concat (
    as_bytes request.sub_task_id
    ∷ as_bytes request.parent_task_id
    ∷ as_bytes request.slice_id
    ∷ as_bytes request.node_id
    ∷ to_be_bytes 8 (i64_bits request.issued_at_unix)
    ∷ as_bytes request.request_kind
    ∷ as_bytes request.leaf_proof_hash
    ∷ [])

-- `str`'s order: that of the bytes, which for UTF-8 is that of the code points.
unfoldable pub text_le : Text → Text → Bool
text_le [] s = true
text_le (x ∷ xs) [] = false
text_le (x ∷ xs) (y ∷ ys) = ltb x y || (x == y && text_le xs ys)

unfoldable pub insert_text : Text → List Text → List Text
unfolding text_le
insert_text t [] = t ∷ []
insert_text t (u ∷ us) = let rest = insert_text t us in if text_le t u then t ∷ u ∷ us else u ∷ rest

-- `sort`, on strings.
unfoldable pub sort : List Text → List Text
unfolding insert_text
sort [] = []
sort (t ∷ ts) = insert_text t (sort ts)

-- `len as u32`, in bytes.
abbrev pub len_bytes : ℕ → Bytes
len_bytes n = to_be_bytes 4 (n % 2 ^ 32)

-- The loop over the refused builders.
unfoldable pub refused_bytes : List Text → Bytes
unfolding as_bytes to_be_bytes
refused_bytes [] = []
refused_bytes (id ∷ ids) = len_bytes (length (as_bytes id)) ++ (as_bytes id ++ refused_bytes ids)

unfoldable pub serialize_pcs_open_call_payload : PcsOpenCall → Bytes
unfolding as_bytes to_be_bytes sort refused_bytes
serialize_pcs_open_call_payload call =
    let refused = sort call.refused_builders in
    concat (
      as_bytes call.parent_task_id
      ∷ as_bytes call.sub_task_id
      ∷ as_bytes call.slice_id
      ∷ as_bytes call.leaf_proof_hash
      ∷ to_be_bytes 8 call.leaf_proof_bytes
      ∷ as_bytes call.cas_presigned_url
      ∷ as_bytes call.r_pcs_planck
      ∷ to_be_bytes 8 (i64_bits call.deadline_unix)
      ∷ to_be_bytes 8 (i64_bits call.issued_at_unix)
      ∷ len_bytes (length refused)
      ∷ refused_bytes refused
      ∷ [])

unfoldable pub serialize_pcs_bid_payload : PcsBid → Bytes
unfolding as_bytes to_be_bytes
serialize_pcs_bid_payload bid = concat (
    as_bytes bid.sub_task_id
    ∷ as_bytes bid.node_id
    ∷ as_bytes bid.leaf_proof_hash
    ∷ as_bytes bid.pcs_memory_policy
    ∷ to_be_bytes 8 (i64_bits bid.issued_at_unix)
    ∷ [])

pub record PcsBidMessage : Type 0 where
  pub bid : PcsBid
  pub signature : Text

module _ (crypto : Crypto) where
  unfoldable pub verify_pcs_request_signature :
      PcsRequest → Text → Text → Result (Unit {0}) SignatureError
  unfolding serialize_pcs_request_payload verify_orchestrator_signature
  verify_pcs_request_signature request signature_b64 key =
      verify_orchestrator_signature crypto (serialize_pcs_request_payload request) signature_b64 key
        (text "pcs request")

  unfoldable pub verify_pcs_open_call_signature :
      PcsOpenCall → Text → Text → Result (Unit {0}) SignatureError
  unfolding serialize_pcs_open_call_payload verify_orchestrator_signature
  verify_pcs_open_call_signature call signature_b64 key =
      verify_orchestrator_signature crypto (serialize_pcs_open_call_payload call) signature_b64 key
        (text "pcs open call")

  unfoldable pub build_signed_pcs_bid : ℤ → PcsOpenCall → Text → Bytes → PcsBidMessage
  unfolding serialize_pcs_bid_payload
  build_signed_pcs_bid now call node_id signing_key =
      let bid : PcsBid = record {
        sub_task_id = call.sub_task_id;
        node_id = node_id;
        leaf_proof_hash = call.leaf_proof_hash;
        pcs_memory_policy = text "spill";
        issued_at_unix = now;
      } in
      record {
        bid = bid;
        signature = crypto.encode (crypto.sign signing_key (serialize_pcs_bid_payload bid));
      }

-- src/application/pcs_open_call.rs
unfoldable pub should_bid_open_call_at : NodeConfig → PcsMemoryPolicy → PcsOpenCall → ℤ → Bool
unfolding is_spill is_expired_at refuses_builder
should_bid_open_call_at config core_policy call now_unix =
    if not (is_spill core_policy)
    then false
    else if is_expired_at now_unix call
    then false
    else if refuses_builder config.peer_id call
    then false
    else if is_empty call.leaf_proof_hash || is_empty call.sub_task_id
    then false
    else true

unfoldable pub skip_bid_reason : NodeConfig → PcsMemoryPolicy → PcsOpenCall → ℤ → Text
unfolding is_spill is_expired_at refuses_builder
skip_bid_reason config core_policy call now_unix =
    if not (is_spill core_policy)
    then text "policy=refuse"
    else if is_expired_at now_unix call
    then text "expired"
    else if refuses_builder config.peer_id call
    then text "already_refused"
    else if is_empty call.leaf_proof_hash || is_empty call.sub_task_id
    then text "incomplete_open_call"
    else text "unknown"

-- `open_call_cache`, by sub-task.
unfoldable pub cache_open_call : PcsOpenCall → Map PcsOpenCall → Map PcsOpenCall
unfolding insert
cache_open_call call cache = insert call.sub_task_id call cache

abbrev pub with_hash : Text → Option PcsOpenCall → Option PcsOpenCall
with_hash leaf_proof_hash none = none
with_hash leaf_proof_hash (some call) =
    if not (is_empty leaf_proof_hash) && not (text_eq call.leaf_proof_hash leaf_proof_hash)
    then none
    else some call

unfoldable pub cached_open_call : Text → Text → Map PcsOpenCall → Option PcsOpenCall
unfolding lookup
cached_open_call sub_task_id leaf_proof_hash cache =
    with_hash leaf_proof_hash (lookup sub_task_id cache)

unfoldable pub clear_cached_open_call : Text → Map PcsOpenCall → Map PcsOpenCall
unfolding remove
clear_cached_open_call sub_task_id cache = remove sub_task_id cache
