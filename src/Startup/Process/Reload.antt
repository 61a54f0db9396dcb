-- ===== src/Startup/Process/Reload.antt =====
-- Which start-ups end, and what the worker then does with the recovered sub-tasks (src/main.rs with
-- src/application/worker.rs).
use wqc_node.Base.{
  ℕ, ◌+◌, ◌<◌, ◌≤◌, ◌≡◌, refl, sym, ap, subst, ◌∙◌, true, List, [], ◌∷◌, ◌++◌, append-nil,
  append_assoc, Option, none, some, ok, ltb, arith, length, length-append, Bool-cases, inl, inr,
  >>=-ok, ok-injective,
}
use wqc_node.Base.Bytes.{Bytes}
use wqc_node.Base.Float.{Float}
use wqc_node.Models.{ComputeTask}
use wqc_node.Base.Text.{Text}
use wqc_node.Config.Environment.{Readers, from_env, map_err}
use wqc_node.Operator.{Primitives}
use wqc_node.Startup.Bootstrap.{Libp2p, resolve_bootstrap, apply_orchestrator_bootstrap}
use wqc_node.Startup.Location.{resolve_node_location}
use wqc_node.Storage.Tasks.{get_pending_tasks}
use wqc_node.Work.{RateBounds}
use wqc_node.ResultOutbox.{Wire}
use wqc_node.Startup.Process.{
  send, reload, hold_task, channel_capacity, prepare, main, World, running, blocked, reloaded,
  bad_config, bad_storage, bad_bootstrap, with_sysinfo,
}
use wqc_node.State.{AppState}
use wqc_node.Worker.{Turn, WorkError, work_through}
use wqc_node.Worker.Finished.{work_through-counted}

-- The loop fills the channel: with room for all it ends with them queued in their order.
reload-fits :
    (tasks : List ComputeTask) (st : AppState)
    → length st.queue + length tasks ≤ channel_capacity
    → (st' : AppState) × (reload tasks st ≡ some st')
      × (st'.queue ≡ st.queue ++ tasks)
      × (st'.pending_tasks ≡ st.pending_tasks)
unfolding reload send hold_task
reload-fits [] st room = (st, refl, sym (append-nil st.queue), refl)
reload-fits (task ∷ tasks) st room =
    let free : ltb (length st.queue) channel_capacity ≡ true = ground (arith, room) in
    let held = record (hold_task task st) { queue = st.queue ++ task ∷ [] } in
    let (st', done, queued, same) =
      reload-fits tasks held (omega (arith, room, length-append st.queue (task ∷ []))) in
    rw (reload, free) (st', done, queued ∙ append_assoc st.queue (task ∷ []) tasks, same)

-- Without, it waits: nothing takes from the channel yet.
reload-blocks :
    (tasks : List ComputeTask) (st : AppState)
    → length st.queue ≤ channel_capacity
    → channel_capacity < length st.queue + length tasks
    → reload tasks st ≡ none
unfolding reload send hold_task
reload-blocks [] st le over = absurd (omega (arith, le, over))
reload-blocks (task ∷ tasks) st le over =
    elim (Bool-cases (ltb (length st.queue) channel_capacity)) [
      | inl free ↦
          let grown = length-append st.queue (task ∷ []) in
          let rest =
            reload-blocks tasks (record (hold_task task st) { queue = st.queue ++ task ∷ [] })
              (ground (arith, free, grown)) (omega (arith, over, grown)) in
          rw (reload, free) rest
      | inr full ↦ rw (reload, full) refl
    ]

module _ (rd : Readers) (fl : Float) (p : Primitives) (bounds : RateBounds) (lib : Libp2p) where
  abbrev Counted : List ComputeTask × AppState → Type 0
  Counted (tasks, st) = (st.queue ≡ []) × (st.pending_tasks ≡ length tasks)

  prepare-Counted :
      (w : World) (tasks : List ComputeTask) (st : AppState)
      → prepare rd fl p bounds lib w ≡ ok (tasks, st)
      → Counted (tasks, st)
  unfolding prepare
  prepare-Counted w tasks st h =
      let (config0, _, h1) =
        >>=-ok (map_err bad_config (from_env rd fl p w.total_memory w.env)) _ (tasks, st) h in
      let (db0, _, h2) =
        >>=-ok (map_err bad_storage (w.open_storage config0.database_url)) _ (tasks, st) h1 in
      let (found, _, h3) =
        >>=-ok (map_err bad_bootstrap (resolve_bootstrap lib w.get config0.bootstrap_urls)) _
          (tasks, st) h2 in
      let (config1, _, h4) =
        >>=-ok
          (map_err bad_bootstrap
            (apply_orchestrator_bootstrap found (with_sysinfo fl bounds w.sysinfo config0)))
          _ (tasks, st) h3 in
      let db1 = (resolve_node_location w.providers w.now w.later db0).1 in
      let (rows, _, h5) = >>=-ok (map_err bad_storage (get_pending_tasks db1).0) _ (tasks, st) h4 in
      subst Counted (ok-injective (ok _) _ (tasks, st) refl h5) (refl, refl)

  -- A start that comes as far as the recovered sub-tasks: with at most 100 of them it ends, and the
  -- worker then works all of them off and leaves the counter at zero, whatever it meets. With more
  -- than 100 it waits for ever, since the channel is full before the worker takes from it.
  pub main_recovers :
      (w : World) (tasks : List ComputeTask) (st : AppState) (to_json : Wire → Option Bytes)
      (failure_reason : WorkError → Text) (turns : ℕ → Turn)
      → prepare rd fl p bounds lib w ≡ ok (tasks, st)
      → (length tasks ≤ channel_capacity
          → (st1 : AppState) × (main rd fl p bounds lib w ≡ running st1)
            × (st1.queue ≡ tasks)
            × let st2 = work_through to_json failure_reason turns 0 st1.queue st1 in
              (st2.pending_tasks ≡ 0) × (st2.queue ≡ []))
        × (channel_capacity < length tasks → main rd fl p bounds lib w ≡ blocked)
  unfolding main
  main_recovers w tasks st to_json failure_reason turns h =
      let (none_yet, counted) = prepare-Counted w tasks st h in
      let start = ap length none_yet in
      (
        λ le.
            let (st1, done, queued, same) = reload-fits tasks st (omega (arith, start, le)) in
            let all : st1.queue ≡ tasks = queued ∙ ap (λ q. q ++ tasks) none_yet in
            let worked =
              work_through-counted to_json failure_reason turns 0 st1.queue st1
                (same ∙ counted ∙ ap length (sym all)) (omega (arith, ap length all, le)) refl in
            (st1, rw (h, reloaded, done) refl, all, worked),
        λ over.
            let blocks =
              reload-blocks tasks st (omega (arith, start)) (omega (arith, start, over)) in
            rw (h, reloaded, blocks) refl,
      )
