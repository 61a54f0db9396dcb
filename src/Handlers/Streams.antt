-- ===== src/Handlers/Streams.antt =====
-- dispatch_handler.rs, announce_handler.rs, pcs_request_handler.rs, pcs_open_handler.rs and
-- pcs_bid_client.rs of src/transport/p2p.
use wqc_node.Base.{ℕ, Bool, not, ◌&&◌, Option, none, some, Result, ok, err, is_empty, if◌then◌else◌}
use wqc_node.Accept.{AcceptTaskError, accept_compute_task}
use wqc_node.Base.Bytes.{Bytes}
use wqc_node.Base.Float.{Float}
use wqc_node.Base.Int.{ℤ}
use wqc_node.Base.Text.{Text, text_eq}
use wqc_node.Bid.Client.{max_attempts, write_attempts}
use wqc_node.Config.{NodeConfig}
use wqc_node.Crypto.{Crypto}
use wqc_node.Dispatch.GoJson.{FloatText}
use wqc_node.Dispatch.Payload.{
  SubTask, DispatchError, verify_dispatch_signature, into_compute_request,
}
use wqc_node.Jobs.{PendingPcsJob}
use wqc_node.Json.{Value}
use wqc_node.Models.{ComputeRequest, ContractionTreeWire}
use wqc_node.P2p.{
  TaskAnnouncement, TaskAnnouncementMessage, AnnouncementError, SignatureError,
  parse_signed_announcement,
}
use wqc_node.Pcs.{
  PcsMemoryPolicy, PcsRequest, PcsOpenCall, PcsBidMessage, is_spill, is_spill_policy,
  cache_open_call, should_bid_open_call_at, verify_pcs_open_call_signature,
  verify_pcs_request_signature, build_signed_pcs_bid,
}
use wqc_node.PcsOutbox.Requests.{handle_pcs_request}
use wqc_node.State.{AppState}
use wqc_node.Storage.{Storage}
use wqc_node.Validation.{Gate}
use wqc_node.Work.{budget}

pub record TaskDispatchMessage : Type 0 where
  pub sub_task : SubTask
  pub signature : Text

pub record PcsRequestMessage : Type 0 where
  pub request : PcsRequest
  pub signature : Text

pub record PcsOpenCallMessage : Type 0 where
  pub open_call : PcsOpenCall
  pub signature : Text

pub data HandlerError : Type 0 where
  unauthorized_peer invalid_json no_orchestrator_key other_node bid_not_spill : HandlerError
  dispatch_rejected : DispatchError → HandlerError
  announcement_rejected : AnnouncementError → HandlerError
  pcs_rejected : SignatureError → HandlerError
  not_accepted : AcceptTaskError → HandlerError

abbrev pub Handled : Type 0
Handled = Result (Unit {0}) HandlerError × AppState

-- The loop over the incoming streams drops a stream of another peer.
unfoldable pub from_orchestrator {ℓ} : {A : Type ℓ} → Text → Text → A → A → A
unfolding text_eq
from_orchestrator orchestrator_peer_id peer_id refused handled =
    if not (text_eq peer_id orchestrator_peer_id) then refused else handled

abbrev pub answer : Result (Unit {0}) AcceptTaskError → Result (Unit {0}) HandlerError
answer (ok u) = ok tt
answer (err e) = err (not_accepted e)

-- What a dispatch meets: JSON's writer and reader, the clocks and the other handlers.
pub record Intake : Type 0 where
  pub to_vec : ComputeRequest → Option Bytes
  pub tree_to_vec : ContractionTreeWire → Option Bytes
  pub from_value : Value → Option Gate
  pub fuel : ℕ
  pub now_ms : ℕ
  pub now : ℤ
  pub meanwhile : Storage → Storage

module _ (fl : Float) (ft : FloatText) (crypto : Crypto) where
  abbrev pub accept_verified : Intake → SubTask → Text → AppState → Handled
  accept_verified w t key st =
      let (accepted, st') =
        accept_compute_task w.to_vec w.from_value w.fuel (into_compute_request t st.config.peer_id)
          key (budget t.parent_task_id st.work) w.now_ms w.now w.meanwhile st in
      (answer accepted, st')

  abbrev pub if_signed :
      Intake → SubTask → Text → Result (Unit {0}) DispatchError → AppState → Handled
  if_signed w t key (err e) st = (err (dispatch_rejected e), st)
  if_signed w t key (ok u) st = accept_verified w t key st

  abbrev pub under_key : Intake → TaskDispatchMessage → Option Text → AppState → Handled
  under_key w m none st = (err no_orchestrator_key, st)
  under_key w m (some key) st =
      if_signed w m.sub_task key
        (verify_dispatch_signature fl ft w.tree_to_vec crypto m.sub_task m.signature key) st

  unfoldable pub handle_dispatch_stream : Intake → Option TaskDispatchMessage → AppState → Handled
  unfolding verify_dispatch_signature into_compute_request budget accept_compute_task
  handle_dispatch_stream w none st = (err invalid_json, st)
  handle_dispatch_stream w (some m) st = under_key w m st.config.orchestrator_public_key st

  unfoldable pub on_dispatch_stream :
      Intake → Text → Text → Option TaskDispatchMessage → AppState → Handled
  unfolding from_orchestrator handle_dispatch_stream
  on_dispatch_stream w orchestrator_peer_id peer_id m st =
      from_orchestrator orchestrator_peer_id peer_id (err unauthorized_peer, st)
        (handle_dispatch_stream w m st)

module _ (crypto : Crypto) where
  -- The announcement that is bid on.
  unfoldable pub handle_announce_stream :
      Option TaskAnnouncementMessage → NodeConfig → Result TaskAnnouncement HandlerError
  unfolding parse_signed_announcement
  handle_announce_stream m config = elim config.orchestrator_public_key [
    | none ↦ err no_orchestrator_key
    | some key ↦ elim (parse_signed_announcement crypto m key) [
      | err e ↦ err (announcement_rejected e)
      | ok a ↦ ok a
    ]
  ]

  -- The same on the gossip topic, where any peer may speak (src/transport/p2p/host.rs): none where
  -- the message is dropped.
  unfoldable pub on_gossip_message :
      Option TaskAnnouncementMessage → NodeConfig → Option TaskAnnouncement
  unfolding parse_signed_announcement
  on_gossip_message m config = elim config.orchestrator_public_key [
    | none ↦ none
    | some key ↦ elim (parse_signed_announcement crypto m key) [ err e ↦ none | ok a ↦ some a ]
  ]

  -- The error, or the job that is built, and the database.
  unfoldable pub handle_pcs_request_stream :
      Option PcsRequestMessage
      → ℤ
      → (ℕ → Storage → Storage)
      → AppState
      → Result (Option PendingPcsJob) HandlerError × Storage
  unfolding verify_pcs_request_signature handle_pcs_request text_eq
  handle_pcs_request_stream none now meanwhile st = (err invalid_json, st.storage)
  handle_pcs_request_stream (some m) now meanwhile st = elim st.config.orchestrator_public_key [
    | none ↦ (err no_orchestrator_key, st.storage)
    | some key ↦ elim (verify_pcs_request_signature crypto m.request m.signature key) [
      | err e ↦ (err (pcs_rejected e), st.storage)
      | ok u ↦
          if not (is_empty m.request.node_id) && not (text_eq m.request.node_id st.config.peer_id)
          then (err other_node, st.storage)
          else let (built, db) = handle_pcs_request key m.request now meanwhile st in (ok built, db)
    ]
  ]

  -- The bid and the attempts that it took, or none where all failed.
  unfoldable pub submit_pcs_open_call_bid :
      (ℕ → Bool) → NodeConfig → PcsOpenCall → ℤ → Result (Option (ℕ × PcsBidMessage)) HandlerError
  unfolding build_signed_pcs_bid is_spill_policy write_attempts
  submit_pcs_open_call_bid written config call now =
      let message = build_signed_pcs_bid crypto now call config.peer_id config.signing_key in
      if not (is_spill_policy message.bid)
      then err bid_not_spill
      else elim (write_attempts written max_attempts 0) [
        | none ↦ ok none
        | some n ↦ ok (some (n, message))
      ]

  -- Cached for any core that spills; then the bid, or none where the node does not bid. The clock is
  -- read once for the decision and `later` for the bid.
  abbrev pub on_open_call :
      PcsMemoryPolicy
      → (ℕ → Bool)
      → ℤ
      → ℤ
      → PcsOpenCall
      → AppState
      → Result (Option (Option (ℕ × PcsBidMessage))) HandlerError × AppState
  on_open_call policy written now later call st =
      let st1 =
        if is_spill policy
        then record st { open_call_cache = cache_open_call call st.open_call_cache }
        else st in
      if not (should_bid_open_call_at st.config policy call now)
      then (ok none, st1)
      else elim (submit_pcs_open_call_bid written st.config call later) [
        | err e ↦ (err e, st1)
        | ok sent ↦ (ok (some sent), st1)
      ]

  unfoldable pub handle_pcs_open_stream :
      PcsMemoryPolicy
      → (ℕ → Bool)
      → ℤ
      → ℤ
      → Option PcsOpenCallMessage
      → AppState
      → Result (Option (Option (ℕ × PcsBidMessage))) HandlerError × AppState
  unfolding verify_pcs_open_call_signature cache_open_call should_bid_open_call_at
      submit_pcs_open_call_bid is_spill
  handle_pcs_open_stream policy written now later none st = (err invalid_json, st)
  handle_pcs_open_stream policy written now later (some m) st =
      elim st.config.orchestrator_public_key [
        | none ↦ (err no_orchestrator_key, st)
        | some key ↦ elim (verify_pcs_open_call_signature crypto m.open_call m.signature key) [
          | err e ↦ (err (pcs_rejected e), st)
          | ok u ↦ on_open_call policy written now later m.open_call st
        ]
      ]
