-- ===== src/Core/Gate.antt =====
-- When the health gate of src/infra/core_client.rs opens, holds and closes.
use wqc_node.Base.{
  ℕ, zero, suc, ◌+◌, ◌≤◌, ◌<◌, ◌≡◌, refl, Bool, true, false, List, [], ◌∷◌, Option, none, some, err,
  arith,
}
use wqc_node.Core.{
  Health, Reply, Readings, new_health, is_in_backoff, ensure_ready, dispatch_task, post_leaf_pcs,
  backoff,
}

-- No time, or one that is not past a bound.
abbrev pub Within : ℕ → Option ℕ → Type 0
Within bound none = Unit {0}
Within bound (some until) = until ≤ bound

Within-later : (m n : ℕ) (o : Option ℕ) → m ≤ n → Within m o → Within n o
Within-later m n none le w = tt
Within-later m n (some until) le w = omega (arith, le, w)

-- Short of the threshold, and with a gate that has been opened for `backoff` seconds at most.
pub record IsWell (now : ℕ) (h : Health) : Type 0 where
  pub below : h.consecutive_failures < h.fail_threshold
  pub bounded : Within (now + h.backoff) h.unhealthy_until

-- One call of core.
pub data CoreCall : Type 0 where
  compute : Bool → Reply (Unit {0}) → CoreCall
  leaf : Bool → Reply (Unit {0}) → CoreCall

-- A call with the seconds before it, those that its probe takes and those that its send takes.
pub record Timed : Type 0 where
  pub idle : ℕ
  pub probing : ℕ
  pub sending : ℕ
  pub call : CoreCall

-- What the clock reads in a call that starts at some time.
abbrev pub readings : ℕ → Timed → Readings
readings now t = record {
  at_gate = now;
  after_probe = now + t.probing;
  after_send = now + t.probing + t.sending;
}

abbrev pub make : Readings → CoreCall → Health → Health
make times (compute p r) h = (dispatch_task times p r h).1
make times (leaf p r) h = (post_leaf_pcs times p r h).1

-- The calls, one after the other.
pub run : ℕ → Health → List Timed → ℕ × Health
run now h [] = (now, h)
run now h (t ∷ cs) =
    let times = readings (now + t.idle) t in run times.after_send (make times t.call h) cs

later-IsWell : (now dt : ℕ) (h : Health) → IsWell now h → IsWell (now + dt) h
later-IsWell now dt h w = record {
  below = w.below;
  bounded =
      Within-later (now + h.backoff) (now + dt + h.backoff) h.unhealthy_until (omega arith)
        w.bounded;
}

-- A call whose readings do not go back.
abbrev Goes : Readings → Type 0
Goes times = (times.at_gate ≤ times.after_probe) × (times.after_probe ≤ times.after_send)

dispatch_task-IsWell :
    (times : Readings) (p : Bool) (r : Reply (Unit {0})) (h : Health)
    → Goes times
    → IsWell times.at_gate h
    → 0 < h.fail_threshold
    → let h' = (dispatch_task times p r h).1 in
      IsWell times.after_send h' × (h'.backoff ≡ h.backoff) × (h'.fail_threshold ≡ h.fail_threshold)
unfolding dispatch_task
dispatch_task-IsWell times p r h (a, b) w k =
    let later =
      Within-later (times.at_gate + h.backoff) (times.after_send + h.backoff) h.unhealthy_until
        (omega (arith, a, b)) w.bounded in
    (record { below = ground arith; bounded = ground (arith, later) }, ground arith, ground arith)

post_leaf_pcs-IsWell :
    (times : Readings) (p : Bool) (r : Reply (Unit {0})) (h : Health)
    → Goes times
    → IsWell times.at_gate h
    → 0 < h.fail_threshold
    → let h' = (post_leaf_pcs times p r h).1 in
      IsWell times.after_send h' × (h'.backoff ≡ h.backoff) × (h'.fail_threshold ≡ h.fail_threshold)
unfolding post_leaf_pcs
post_leaf_pcs-IsWell times p r h (a, b) w k =
    let later =
      Within-later (times.at_gate + h.backoff) (times.after_send + h.backoff) h.unhealthy_until
        (omega (arith, a, b)) w.bounded in
    (record { below = ground arith; bounded = ground (arith, later) }, ground arith, ground arith)

make-IsWell :
    (times : Readings) (c : CoreCall) (h : Health)
    → Goes times
    → IsWell times.at_gate h
    → 0 < h.fail_threshold
    → let h' = make times c h in
      IsWell times.after_send h' × (h'.backoff ≡ h.backoff) × (h'.fail_threshold ≡ h.fail_threshold)
make-IsWell times (compute p r) h g w k = dispatch_task-IsWell times p r h g w k
make-IsWell times (leaf p r) h g w k = post_leaf_pcs-IsWell times p r h g w k

run-IsWell :
    (now : ℕ) (h : Health) (cs : List Timed)
    → IsWell now h
    → 0 < h.fail_threshold
    → IsWell (run now h cs).0 (run now h cs).1
unfolding run
run-IsWell now h [] w k = w
run-IsWell now h (t ∷ cs) w k =
    let times = readings (now + t.idle) t in
    let kept =
      make-IsWell times t.call h (omega arith, omega arith) (later-IsWell now t.idle h w) k in
    run-IsWell times.after_send (make times t.call h) cs kept.0 (omega (arith, kept.2, k))

-- After any calls of core, with any answers and any time before a call, for its probe and for its
-- send, the count of failures of a client whose threshold is positive is below the threshold, and
-- the gate is not shut for longer than one backoff from the last reading.
pub run_new-IsWell :
    (now threshold backoff_secs : ℕ) (cs : List Timed)
    → 0 < threshold
    → IsWell
        (run now (new_health (some threshold) (some backoff_secs)) cs).0
        (run now (new_health (some threshold) (some backoff_secs)) cs).1
unfolding new_health
run_new-IsWell now threshold backoff_secs cs k =
    run-IsWell now (new_health (some threshold) (some backoff_secs)) cs
      (record { below = k; bounded = tt }) k

-- While the gate is shut a call is not made: the answer does not matter, the client stays as it
-- is, and the error is the one for backoff. It is shut exactly before the time that was set.
pub shut_skips :
    (times : Readings) (until : ℕ) (probe : Bool) (reply : Reply (Unit {0})) (h : Health)
    → h.unhealthy_until ≡ some until
    → times.at_gate < until
    → (is_in_backoff times.at_gate h ≡ true)
      × (is_in_backoff until h ≡ false)
      × (dispatch_task times probe reply h ≡ (err backoff, h))
      × (post_leaf_pcs times probe reply h ≡ (err backoff, h))
unfolding dispatch_task post_leaf_pcs is_in_backoff
shut_skips times until probe reply h e k = (ground arith, ground arith, ground arith, ground arith)

-- `n` failing health probes at one time.
abbrev pub at : ℕ → Readings
at now = record { at_gate = now; after_probe = now; after_send = now }

pub probes : ℕ → ℕ → Health → Health
probes zero now h = h
probes (suc n) now h = probes n now (ensure_ready (at now) false h).1

probes_below :
    (n now : ℕ) (h : Health)
    → h.unhealthy_until ≡ none
    → n + h.consecutive_failures < h.fail_threshold
    → (probes n now h).unhealthy_until ≡ none
unfolding probes ensure_ready
probes_below zero now h e k = e
probes_below (suc n) now h e k =
    probes_below n now (ensure_ready (at now) false h).1 (ground arith) (ground arith)

probes_at :
    (n now : ℕ) (h : Health)
    → h.unhealthy_until ≡ none
    → suc n + h.consecutive_failures ≡ h.fail_threshold
    → (probes (suc n) now h).unhealthy_until ≡ some (now + h.backoff)
unfolding probes ensure_ready
probes_at zero now h e k = ground arith
probes_at (suc n) now h e k = ground (arith, probes_at n now (ensure_ready (at now) false h).1)

-- A new client with a positive threshold stays open through fewer failing probes than the
-- threshold, and the probe that reaches the threshold shuts it for one backoff.
pub opens_at_threshold :
    (threshold backoff_secs now n : ℕ)
    → n < threshold
    → ((probes n now (new_health (some threshold) (some backoff_secs))).unhealthy_until ≡ none)
      × ((probes threshold now (new_health (some threshold) (some backoff_secs))).unhealthy_until
          ≡ some (now + backoff_secs))
unfolding new_health
opens_at_threshold zero b now n k = absurd (omega arith)
opens_at_threshold (suc t) b now n k = (
  probes_below n now (new_health (some (suc t)) (some b)) refl (omega arith),
  probes_at t now (new_health (some (suc t)) (some b)) refl (omega arith),
)
