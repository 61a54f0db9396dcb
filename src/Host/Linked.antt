-- ===== src/Host/Linked.antt =====
-- The link to the orchestrator over every run of the loop of src/transport/p2p/host.rs.
use native.Mathlib.Nat.{pow-suc}
use wqc_node.Base.{
  ℕ, zero, suc, ◌+◌, ◌-◌, ◌*◌, ◌^◌, ◌≤◌, ◌≡◌, refl, ap, sym, subst, true, false, ◌||◌, List, [],
  ◌∷◌, none, some, min, arith, Bool-cases, inl, inr, ◌⊎◌,
}
use wqc_node.Memory.Width.{pow-ge}
use wqc_node.Base.Text.{Text, text_eq, text_eq_iff, contains}
use wqc_node.Host.{
  HostState, Event, Subscribed, newly, already, failed, established, closed, outgoing_error,
  redial_due, other_event, bootstrap_redial_delay, count_peers, remove_one, handle_event,
  start_host, is_connected, Reachable, begins, moves, wakes, schedule_bootstrap_redial,
  ensure_orchestrator_gossip_subscription, unsubscribe_orchestrator_announcements, with_connections,
  on_established, on_closed,
}

delay_bounds : (n : ℕ) → (1 ≤ bootstrap_redial_delay n) × (bootstrap_redial_delay n ≤ 60)
unfolding bootstrap_redial_delay
delay_bounds n = (at_least (min n 16), omega arith)
  where
    at_least : (k : ℕ) → 1 ≤ min (1 * 2 ^ k) 60
    at_least zero = omega arith
    at_least (suc k) = omega (arith, at_least k, pow-suc 2 k)

module _ (orch : Text) where
  contains-other :
      (peer : Text) (cs : List Text)
      → text_eq peer orch ≡ false
      → contains (remove_one peer cs) orch ≡ contains cs orch
  unfolding contains remove_one
  contains-other peer [] h = refl
  contains-other peer (c ∷ cs) h = elim (Bool-cases (text_eq c peer)) [
    | inl t ↦
        let other : text_eq c orch ≡ false = ground (arith, text_eq_iff c peer, t, h) in
        rw t (rw other refl)
    | inr f ↦ rw f (ap (λ b. text_eq c orch || b) (contains-other peer cs h))
  ]

  -- The link is up or a redial is set, within a minute; announcements are subscribed to only while it
  -- is up, and certainly so once the flag says so; the gauges are what they count.
  abbrev pub IsLinked : HostState → Type 0
  IsLinked st =
      ((is_connected orch st ≡ true)
        ⊎ ((delay : ℕ) × (st.redial_sleep ≡ some delay) × (1 ≤ delay) × (delay ≤ 60)))
      × (st.orch_gossip_live ≡ true → st.subscribed ≡ true)
      × (st.subscribed ≡ true → is_connected orch st ≡ true)
      × (st.orchestrator_connected ≡ is_connected orch st)
      × (st.connected_peers ≡ count_peers st.connections)

  -- A change of connections to other peers.
  IsLinked-same :
      (cs : List Text) (st : HostState)
      → contains cs orch ≡ contains st.connections orch
      → IsLinked st
      → IsLinked (with_connections orch cs st)
  IsLinked-same cs st same (up, live, subs, gauge, count) = rw same (up, live, subs, gauge, refl)

  IsLinked-up :
      (answer : Subscribed) (st : HostState)
      → is_connected orch st ≡ true
      → (st.orch_gossip_live ≡ true → st.subscribed ≡ true)
      → st.connected_peers ≡ count_peers st.connections
      → IsLinked (on_established orch answer true st)
  unfolding ensure_orchestrator_gossip_subscription
  IsLinked-up newly st conn live count = elim (Bool-cases st.orch_gossip_live) [
    | inl l ↦ rw l (inl conn, λ _. live l, λ _. conn, sym conn, count)
    | inr f ↦ rw f (inl conn, λ _. refl, λ _. conn, sym conn, count)
  ]
  IsLinked-up already st conn live count = elim (Bool-cases st.orch_gossip_live) [
    | inl l ↦ rw l (inl conn, λ _. live l, λ _. conn, sym conn, count)
    | inr f ↦ rw f (inl conn, λ e. ground (arith, e), λ e. ground (arith, e), sym conn, count)
  ]
  IsLinked-up failed st conn live count = elim (Bool-cases st.orch_gossip_live) [
    | inl l ↦ rw l (inl conn, λ _. live l, λ _. conn, sym conn, count)
    | inr f ↦ rw f (inl conn, λ e. ground (arith, e), λ e. ground (arith, e), sym conn, count)
  ]

  IsLinked-down :
      (st : HostState)
      → (st.orch_gossip_live ≡ true → st.subscribed ≡ true)
      → st.connected_peers ≡ count_peers st.connections
      → IsLinked (on_closed orch true st)
  unfolding schedule_bootstrap_redial unsubscribe_orchestrator_announcements
  IsLinked-down st live count =
      let delay = bootstrap_redial_delay st.redial_attempt in
      let soon = delay_bounds st.redial_attempt in
      elim (Bool-cases (is_connected orch st)) [
        | inl up ↦ rw up (inl up, live, λ _. up, sym up, count)
        | inr down ↦ rw down (
          inr (delay, refl, soon.0, soon.1),
          λ e. ground (arith, e),
          λ e. ground (arith, e),
          sym down,
          count,
        )
      ]

  timer-IsLinked : (st : HostState) → IsLinked st → IsLinked (handle_event orch redial_due st)
  unfolding handle_event schedule_bootstrap_redial
  timer-IsLinked st (up, live, subs, gauge, count) =
      let attempt = min (st.redial_attempt + 1) (2 ^ 32 - 1) in
      let soon = delay_bounds attempt in
      elim (Bool-cases (is_connected orch st)) [
        | inl conn ↦ rw conn (inl conn, live, subs, gauge, count)
        | inr down ↦
            rw down
              (inr (bootstrap_redial_delay attempt, refl, soon.0, soon.1), live, subs, gauge, count)
      ]

  error-IsLinked : (st : HostState) → IsLinked st → IsLinked (schedule_bootstrap_redial st)
  unfolding schedule_bootstrap_redial
  error-IsLinked st (up, live, subs, gauge, count) =
      let soon = delay_bounds st.redial_attempt in
      (
        inr (bootstrap_redial_delay st.redial_attempt, refl, soon.0, soon.1),
        live,
        subs,
        gauge,
        count,
      )

  event-IsLinked : (e : Event) (st : HostState) → IsLinked st → IsLinked (handle_event orch e st)
  unfolding handle_event contains
  event-IsLinked (established peer answer) st h =
      let (up, live, subs, gauge, count) = h in
      elim (Bool-cases (text_eq peer orch)) [
        | inl t ↦
            let found : contains (peer ∷ st.connections) orch ≡ true = rw t refl in
            rw t (
              IsLinked-up answer (with_connections orch (peer ∷ st.connections) st) found live refl)
        | inr f ↦
            let same : contains (peer ∷ st.connections) orch ≡ contains st.connections orch =
              rw f refl in
            rw f (IsLinked-same (peer ∷ st.connections) st same h)
      ]
  event-IsLinked (closed peer) st h =
      let (up, live, subs, gauge, count) = h in
      let cs = remove_one peer st.connections in
      elim (Bool-cases (text_eq peer orch)) [
        | inl t ↦ rw t (IsLinked-down (with_connections orch cs st) live refl)
        | inr f ↦ rw f (IsLinked-same cs st (contains-other peer st.connections f) h)
      ]
  event-IsLinked (outgoing_error none) st h = h
  event-IsLinked (outgoing_error (some peer)) st h = elim (Bool-cases (text_eq peer orch)) [
    | inl t ↦ rw t (error-IsLinked st h)
    | inr f ↦ rw f h
  ]
  event-IsLinked redial_due st h = timer-IsLinked st h
  event-IsLinked other_event st h = h

  start-IsLinked : IsLinked (start_host orch)
  unfolding start_host schedule_bootstrap_redial contains
  start-IsLinked =
      let soon = delay_bounds 0 in
      (
        inr (bootstrap_redial_delay 0, refl, soon.0, soon.1),
        λ e. ground (arith, e),
        λ e. ground (arith, e),
        refl,
        refl,
      )

  -- In every state that the loop reaches, whatever the order of the events: the link to the
  -- orchestrator is up, or a redial is due within one to sixty seconds. The topic is subscribed to
  -- only while the link is up, and whenever the flag says that it is. The gauges agree with the
  -- connections.
  pub Reachable-IsLinked : {st : HostState} → Reachable orch st → IsLinked st
  Reachable-IsLinked begins = start-IsLinked
  Reachable-IsLinked (moves e {st} not_timer before) =
      event-IsLinked e st (Reachable-IsLinked before)
  Reachable-IsLinked (wakes delay {st} set before) = timer-IsLinked st (Reachable-IsLinked before)

-- The delay doubles from a second to 32 and is a minute from the sixth attempt on; it never shrinks.
pub bootstrap_redial_delay_lem :
    (n m : ℕ)
    → (1 ≤ bootstrap_redial_delay n)
      × (bootstrap_redial_delay n ≤ 60)
      × (n ≤ 5 → bootstrap_redial_delay n ≡ 2 ^ n)
      × (6 ≤ n → bootstrap_redial_delay n ≡ 60)
      × (n ≤ m → bootstrap_redial_delay n ≤ bootstrap_redial_delay m)
unfolding bootstrap_redial_delay
bootstrap_redial_delay_lem n m = (
  (delay_bounds n).0,
  (delay_bounds n).1,
  λ small.
      let same : min n 16 ≡ n = omega (arith, small) in rw same (omega (arith, pow_le n 5 small)),
  λ large. omega (arith, pow_le 6 (min n 16) (omega (arith, large))),
  λ le. omega (arith, pow_le (min n 16) (min m 16) (omega (arith, le))),
)
  where
    pow_le : (a b : ℕ) → a ≤ b → 2 ^ a ≤ 2 ^ b
    pow_le a b le =
        let sum : a + (b - a) ≡ b = omega (arith, le) in
        subst (λ n. 2 ^ a ≤ 2 ^ n) sum (pow-ge (b - a) a)
