-- ===== src/Pcs/OpenCall.antt =====
-- Which open calls the node bids on, and the cache of announcements
-- (src/domain/pcs.rs, src/application/pcs_open_call.rs).
use wqc_node.Base.{
  ◌≡◌, ◌≢◌, ◌↔◌, ◌⊎◌, refl, true, false, List, [], ◌∷◌, none, some, arith, any, All, is_empty,
}
use wqc_node.Base.Int.{ℤ, pos, ◌<ℤ◌, ◌≤ℤ◌}
use wqc_node.Base.Map.{Map, insert, lookup-insert, lookup-remove}
use wqc_node.Base.Text.{Text, text, text_eq, text_eq_iff, text_eq_refl}
use wqc_node.Config.{NodeConfig}
use wqc_node.Pcs.{
  PcsOpenCall, PcsMemoryPolicy, spill, refuse, is_spill, is_expired_at, refuses_builder,
  should_bid_open_call_at, skip_bid_reason, cache_open_call, cached_open_call,
  clear_cached_open_call,
}

refuses_builder-All :
    (node : Text) (ids : List Text)
    → (any (λ id. text_eq id node) ids ≡ false) ↔ All (λ id. id ≢ node) ids
refuses_builder-All node [] = (λ _. tt, λ _. refl)
refuses_builder-All node (i ∷ ids) =
    ground (arith, text_eq_iff i node, refuses_builder-All node ids)

is_empty_iff : (t : Text) → (is_empty t ≡ false) ↔ (t ≢ [])
is_empty_iff [] = ground arith
is_empty_iff (x ∷ t) = ground arith

-- The node bids exactly on an open call that is complete, still open and not refused by it, and only
-- with a core that spills. A call with no deadline (zero or less) stays open.
pub should_bid_open_call_iff :
    (config : NodeConfig) (policy : PcsMemoryPolicy) (call : PcsOpenCall) (now : ℤ)
    → (should_bid_open_call_at config policy call now ≡ true) ↔ (
        (policy ≡ spill)
        × ((call.deadline_unix ≤ℤ pos 0) ⊎ (now <ℤ call.deadline_unix))
        × All (λ id. id ≢ config.peer_id) call.refused_builders
        × (call.leaf_proof_hash ≢ [])
        × (call.sub_task_id ≢ []))
unfolding should_bid_open_call_at is_spill is_expired_at refuses_builder
should_bid_open_call_iff config refuse call now = ground arith
should_bid_open_call_iff config spill call now = ground (
  arith,
  refuses_builder-All config.peer_id call.refused_builders,
  is_empty_iff call.leaf_proof_hash,
  is_empty_iff call.sub_task_id,
)

-- The reason for skipping is `unknown` exactly for a call that would be bid on.
pub skip_bid_reason_iff :
    (config : NodeConfig) (policy : PcsMemoryPolicy) (call : PcsOpenCall) (now : ℤ)
    → (skip_bid_reason config policy call now ≡ text "unknown")
      ↔ (should_bid_open_call_at config policy call now ≡ true)
unfolding should_bid_open_call_at skip_bid_reason is_spill
skip_bid_reason_iff config refuse call now = ground arith
skip_bid_reason_iff config spill call now = ground arith

-- A cached call is found by its sub-task, under its own hash or no hash, until another call of the
-- sub-task replaces it or it is cleared; the calls of other sub-tasks stay.
pub cached-cache :
    (call : PcsOpenCall) (other hash : Text) (cache : Map PcsOpenCall)
    → call.sub_task_id ≢ other
    → (cached_open_call call.sub_task_id call.leaf_proof_hash (cache_open_call call cache)
        ≡ some call)
      × (cached_open_call call.sub_task_id [] (cache_open_call call cache) ≡ some call)
      × (cached_open_call call.sub_task_id hash
            (clear_cached_open_call call.sub_task_id (cache_open_call call cache))
          ≡ none)
      × (cached_open_call other hash (cache_open_call call cache)
          ≡ cached_open_call other hash cache)
      × (cached_open_call other hash (clear_cached_open_call call.sub_task_id cache)
          ≡ cached_open_call other hash cache)
unfolding cache_open_call cached_open_call clear_cached_open_call
cached-cache call other hash cache ne =
    let s = call.sub_task_id in
    let found = lookup-insert s s call cache in
    let same = text_eq_refl s in
    (
      ground (arith, found, same, text_eq_refl call.leaf_proof_hash),
      ground (arith, found, same),
      ground (arith, lookup-remove s s (insert s call cache), same),
      ground (arith, lookup-insert other s call cache, text_eq_iff s other),
      ground (arith, lookup-remove other s cache, text_eq_iff s other),
    )
