-- ===== src/Host.antt =====
-- src/transport/p2p/host.rs: the link to the orchestrator and the gossip subscription. The swarm of
-- libp2p is the list of its connections, by peer; what it answers to `subscribe` is a part of the
-- event. Delays are seconds.
pub mod Linked
use wqc_node.Base.{
  ℕ, ◌≡◌, ◌≢◌, ◌+◌, ◌-◌, ◌*◌, ◌^◌, Bool, true, false, not, List, [], ◌∷◌, Option, none, some, min,
  if◌then◌else◌,
}
use wqc_node.Base.Text.{Text, text_eq, contains}
use wqc_node.Config.{NodeConfig}
use wqc_node.Startup.Bootstrap.{Libp2p, Protocol}

abbrev pub bootstrap_redial_initial : ℕ
bootstrap_redial_initial = 1

abbrev pub bootstrap_redial_max : ℕ
bootstrap_redial_max = 60

-- The shift is at most 16, so that it is never out of range.
unfoldable pub bootstrap_redial_delay : ℕ → ℕ
bootstrap_redial_delay attempt =
    min (bootstrap_redial_initial * 2 ^ min attempt 16) bootstrap_redial_max

abbrev pub push_parsed : Option (List Protocol) → List (List Protocol) → List (List Protocol)
push_parsed none addrs = addrs
push_parsed (some addr) addrs = addr ∷ addrs

unfoldable pub parse_bootstrap_addrs : Libp2p → List Text → List (List Protocol)
parse_bootstrap_addrs lib [] = []
parse_bootstrap_addrs lib (peer ∷ peers) =
    push_parsed (lib.parse_multiaddr peer) (parse_bootstrap_addrs lib peers)

-- The variables of `run`, the swarm, whether its topic is subscribed to, and two gauges.
pub record HostState : Type 0 where
  pub connections : List Text
  pub subscribed : Bool
  pub redial_attempt : ℕ
  pub redial_sleep : Option ℕ
  pub orch_gossip_live : Bool
  pub connected_peers : ℕ
  pub orchestrator_connected : Bool

-- What `subscribe` answers.
pub data Subscribed : Type 0 where
  newly already failed : Subscribed

pub data Event : Type 0 where
  established : Text → Subscribed → Event
  closed : Text → Event
  outgoing_error : Option Text → Event
  redial_due : Event
  other_event : Event

-- `swarm.connected_peers().count()`
abbrev pub count_peers : List Text → ℕ
count_peers [] = 0
count_peers (p ∷ ps) = if contains ps p then count_peers ps else 1 + count_peers ps

unfoldable pub remove_one : Text → List Text → List Text
remove_one peer [] = []
remove_one peer (p ∷ ps) = let rest = remove_one peer ps in if text_eq p peer then ps else p ∷ rest

unfoldable pub schedule_bootstrap_redial : HostState → HostState
unfolding bootstrap_redial_delay
schedule_bootstrap_redial st = record st {
  redial_sleep = some (bootstrap_redial_delay st.redial_attempt);
}

abbrev pub subscribe : Subscribed → HostState → HostState
subscribe newly st = record st { subscribed = true; orch_gossip_live = true }
subscribe already st = st
subscribe failed st = st

-- Unsubscribes first, once for each time that the link comes up.
unfoldable pub ensure_orchestrator_gossip_subscription : Subscribed → HostState → HostState
ensure_orchestrator_gossip_subscription answer st =
    if st.orch_gossip_live then st else subscribe answer (record st { subscribed = false })

unfoldable pub unsubscribe_orchestrator_announcements : HostState → HostState
unsubscribe_orchestrator_announcements st = record st { subscribed = false }

module _ (orchestrator_peer_id : Text) where
  abbrev pub is_connected : HostState → Bool
  is_connected st = contains st.connections orchestrator_peer_id

  abbrev pub schedule_if_down : HostState → HostState
  schedule_if_down st = if is_connected st then st else schedule_bootstrap_redial st

  abbrev pub on_established : Subscribed → Bool → HostState → HostState
  on_established answer false st = st
  on_established answer true st =
      ensure_orchestrator_gossip_subscription answer
        (record st { redial_attempt = 0; redial_sleep = none; orchestrator_connected = true })

  abbrev pub after_close : Bool → HostState → HostState
  after_close true st = st
  after_close false st = record (unsubscribe_orchestrator_announcements st) {
    orch_gossip_live = false;
  }

  abbrev pub on_closed : Bool → HostState → HostState
  on_closed false st = st
  on_closed true st =
      schedule_bootstrap_redial
        (after_close (is_connected st) (record st { orchestrator_connected = is_connected st }))

  -- The swarm's own list of connections is up to date when the event comes.
  abbrev pub with_connections : List Text → HostState → HostState
  with_connections connections st = record st {
    connections = connections;
    connected_peers = count_peers connections;
  }

  abbrev pub on_outgoing_error : Bool → HostState → HostState
  on_outgoing_error false st = st
  on_outgoing_error true st = schedule_bootstrap_redial st

  -- `handle_swarm_event`, and the branch of the loop for the timer.
  unfoldable pub handle_event : Event → HostState → HostState
  unfolding schedule_bootstrap_redial ensure_orchestrator_gossip_subscription
      unsubscribe_orchestrator_announcements remove_one contains text_eq
  handle_event (established peer answer) st =
      on_established answer (text_eq peer orchestrator_peer_id)
        (with_connections (peer ∷ st.connections) st)
  handle_event (closed peer) st =
      on_closed (text_eq peer orchestrator_peer_id)
        (with_connections (remove_one peer st.connections) st)
  handle_event (outgoing_error none) st = st
  handle_event (outgoing_error (some peer)) st =
      on_outgoing_error (text_eq peer orchestrator_peer_id) st
  handle_event redial_due st =
      schedule_if_down (record st {
        redial_attempt = min (st.redial_attempt + 1) (2 ^ 32 - 1);
        redial_sleep = none;
      })
  handle_event other_event st = st

  -- The state before the loop of `run`: the swarm was just built.
  unfoldable pub start_host : HostState
  unfolding schedule_bootstrap_redial contains
  start_host = schedule_if_down (record {
    connections = [];
    subscribed = false;
    redial_attempt = 0;
    redial_sleep = none;
    orch_gossip_live = false;
    connected_peers = 0;
    orchestrator_connected = false;
  })

  -- What the loop can reach: the timer fires only while it is set.
  pub data Reachable : HostState → Type 0 where
    begins : Reachable start_host
    moves :
        (e : Event) {st : HostState}
        → (e ≢ redial_due)
        → Reachable st
        → Reachable (handle_event e st)
    wakes :
        (delay : ℕ) {st : HostState}
        → st.redial_sleep ≡ some delay
        → Reachable st
        → Reachable (handle_event redial_due st)
