-- ===== src/Handlers/Verified.antt =====
-- What a message can do that the orchestrator did not sign (src/transport/p2p).
use wqc_node.Base.{
  ◌+◌, ◌%◌, ◌^◌, ◌<◌, ◌≡◌, ◌≢◌, refl, ap, [], ◌∷◌, ◌++◌, Option, none, some, Result, ok, err, arith,
  Bool-cases, >>=-ok, inl, inr, ◌⊎◌,
}
use wqc_node.Accept.{task_of}
use wqc_node.Accept.Cases.{accept_compute_task-IsCounted}
use wqc_node.Base.Bytes.{Bytes}
use wqc_node.Base.Float.{Float}
use wqc_node.Base.Text.{Text, text, text_eq, text_eq_iff}
use wqc_node.Crypto.{Crypto}
use wqc_node.Dispatch.GoJson.{FloatText}
use wqc_node.Dispatch.Payload.{
  SubTask, DispatchError, bad_signature, serialize_dispatch_payload, verify_dispatch_signature,
  into_compute_request,
}
use wqc_node.Handlers.Streams.{
  TaskDispatchMessage, Intake, Handled, on_dispatch_stream, handle_dispatch_stream,
  from_orchestrator, answer, if_signed, under_key,
}
use wqc_node.Models.{ComputeTask}
use wqc_node.P2p.{SignatureError, verify_orchestrator_signature}
use wqc_node.State.{AppState}
use wqc_node.Work.{budget}

module _ (fl : Float) (ft : FloatText) (crypto : Crypto) (w : Intake) where
  -- The task that a sub-task becomes.
  abbrev pub dispatched : SubTask → Text → AppState → ComputeTask
  dispatched t key st =
      task_of (into_compute_request t st.config.peer_id) key (budget t.parent_task_id st.work)
        w.now_ms st

  -- The key and the payload under which a message was accepted.
  abbrev pub IsSigned : TaskDispatchMessage → AppState → Text → Type 0
  IsSigned m st key =
      (payload : Bytes) × (st.config.orchestrator_public_key ≡ some key)
      × (serialize_dispatch_payload fl ft w.tree_to_vec m.sub_task ≡ ok payload)
      × (verify_orchestrator_signature crypto payload m.signature key (text "dispatch") ≡ ok tt)

  verify-ok :
      (t : SubTask) (signature key : Text)
      → verify_dispatch_signature fl ft w.tree_to_vec crypto t signature key ≡ ok tt
      → (payload : Bytes) × (serialize_dispatch_payload fl ft w.tree_to_vec t ≡ ok payload)
        × (verify_orchestrator_signature crypto payload signature key (text "dispatch") ≡ ok tt)
  unfolding verify_dispatch_signature
  verify-ok t signature key e =
      let (payload, ep, e1) = >>=-ok (serialize_dispatch_payload fl ft w.tree_to_vec t) _ tt e in
      (
        payload,
        ep,
        signed (verify_orchestrator_signature crypto payload signature key (text "dispatch")) e1,
      )
    where
      signed :
          (r : Result (Unit {0}) SignatureError)
          → (elim r [ ok u ↦ ok u | err x ↦ err (bad_signature x) ]) ≡ ok tt
          → r ≡ ok tt
      signed (ok u) e = refl
      signed (err x) e = ground (arith, e)

  -- What became of a message: the queue is the same, or it was signed and is enqueued.
  abbrev IsEnqueued : Option TaskDispatchMessage → AppState → Handled → Type 0
  IsEnqueued message st (r, st') =
      (st'.queue ≡ st.queue)
      ⊎ ((m : TaskDispatchMessage) × (key : Text) × (message ≡ some m)
          × IsSigned m st key
          × (r ≡ ok tt)
          × (st'.queue ≡ st.queue ++ (dispatched m.sub_task key st ∷ []))
          × (st'.pending_tasks ≡ (st.pending_tasks + 1) % 2 ^ 64))

  if_signed-IsEnqueued :
      (m : TaskDispatchMessage) (key : Text) (st : AppState)
      → st.pending_tasks < 2 ^ 64
      → st.config.orchestrator_public_key ≡ some key
      → (r : Result (Unit {0}) DispatchError)
      → verify_dispatch_signature fl ft w.tree_to_vec crypto m.sub_task m.signature key ≡ r
      → IsEnqueued (some m) st (if_signed fl ft crypto w m.sub_task key r st)
  if_signed-IsEnqueued m key st h ek (err e) ev = inl refl
  if_signed-IsEnqueued m key st h ek (ok u) ev =
      let t = m.sub_task in
      let (payload, ep, es) = verify-ok t m.signature key ev in
      elim (accept_compute_task-IsCounted w.to_vec w.from_value w.fuel
        (into_compute_request t st.config.peer_id) key (budget t.parent_task_id st.work) w.now_ms
        w.now w.meanwhile st h) [
          | inl (q, c) ↦ inl q
          | inr (a, q, c) ↦ inr (m, key, refl, (payload, ek, ep, es), ap answer a, q, c)
        ]

  handle_dispatch_stream-IsEnqueued :
      (message : Option TaskDispatchMessage) (st : AppState)
      → st.pending_tasks < 2 ^ 64
      → IsEnqueued message st (handle_dispatch_stream fl ft crypto w message st)
  unfolding handle_dispatch_stream
  handle_dispatch_stream-IsEnqueued none st h = inl refl
  handle_dispatch_stream-IsEnqueued (some m) st h = keyed st.config.orchestrator_public_key refl
    where
      keyed :
          (k : Option Text)
          → st.config.orchestrator_public_key ≡ k
          → IsEnqueued (some m) st (under_key fl ft crypto w m k st)
      keyed none e = inl refl
      keyed (some key) e = if_signed-IsEnqueued m key st h e _ refl

  -- A stream that changes the queue came from the orchestrator, with a message whose payload its
  -- key has signed; then the sub-task stands at the end of the queue, for this node and with the
  -- budget that was announced for its parent, and the counter is one higher.
  pub on_dispatch_stream-IsSigned :
      (orchestrator_peer_id peer_id : Text) (message : Option TaskDispatchMessage) (st : AppState)
      → st.pending_tasks < 2 ^ 64
      → (on_dispatch_stream fl ft crypto w orchestrator_peer_id peer_id message st).1.queue
        ≢ st.queue
      → let (r, st') = on_dispatch_stream fl ft crypto w orchestrator_peer_id peer_id message st in
        (m : TaskDispatchMessage) × (key : Text) × (peer_id ≡ orchestrator_peer_id)
        × (message ≡ some m)
        × IsSigned m st key
        × (r ≡ ok tt)
        × (st'.queue ≡ st.queue ++ (dispatched m.sub_task key st ∷ []))
        × (st'.pending_tasks ≡ (st.pending_tasks + 1) % 2 ^ 64)
  unfolding on_dispatch_stream from_orchestrator
  on_dispatch_stream-IsSigned orchestrator_peer_id peer_id message st h changed =
      elim (Bool-cases (text_eq peer_id orchestrator_peer_id)) [
        | inr other ↦ absurd (changed (rw other refl))
        | inl same ↦
            let peer = (text_eq_iff peer_id orchestrator_peer_id).0 same in
            elim (handle_dispatch_stream-IsEnqueued message st h) [
              | inl q ↦ absurd (changed (rw same q))
              | inr (m, key, em, es, er, eq, ec) ↦ rw same (m, key, peer, em, es, er, eq, ec)
            ]
      ]
