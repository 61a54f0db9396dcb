-- ===== src/Work/Lapse.antt =====
-- A bid that is never dispatched stops counting (src/domain/work.rs).
use wqc_node.Base.{ℕ, ◌+◌, ◌≤◌, ◌≡◌, refl, Bool, List, [], ◌∷◌, Option, none, some, arith, All}
use wqc_node.Base.Float.{F64, Float}
use wqc_node.Base.Map.{Map, remove, insert, retain}
use wqc_node.Base.Text.{Text}
use wqc_node.Models.{Budget}
use wqc_node.Work.{
  WorkLedger, Work, BudgetPolicy, decide, hold, start, release, default_ledger, reservation_ttl,
  is_live, end_reservation, queued_secs,
}

abbrev Entry : Type 0
Entry = Text × (F64 × ℕ)

-- Every reservation ends at most one reservation time from now.
abbrev Timely : ℕ → Map (F64 × ℕ) → Type 0
Timely now m = All (λ (e : Entry). e.1.1 ≤ now + reservation_ttl) m

Timely-later : (now dt : ℕ) (m : Map (F64 × ℕ)) → Timely now m → Timely (now + dt) m
Timely-later now dt [] h = tt
Timely-later now dt ((j, v) ∷ m) h = (omega (arith, h.0), Timely-later now dt m h.1)

Timely-remove : (now : ℕ) (k : Text) (m : Map (F64 × ℕ)) → Timely now m → Timely now (remove k m)
unfolding remove
Timely-remove now k [] h = tt
Timely-remove now k ((j, v) ∷ m) h = ground (arith, Timely-remove now k m h.1)

Timely-retain :
    (now : ℕ) (p : F64 × ℕ → Bool) (m : Map (F64 × ℕ)) → Timely now m → Timely now (retain p m)
unfolding retain
Timely-retain now p [] h = tt
Timely-retain now p ((j, v) ∷ m) h = ground (arith, Timely-retain now p m h.1)

Timely-end :
    (now : ℕ) (o : Option Text) (m : Map (F64 × ℕ))
    → Timely now m
    → Timely now (end_reservation o m)
Timely-end now none m h = h
Timely-end now (some k) m h = Timely-remove now k m h

-- What happens to the ledger.
pub data Event : Type 0 where
  decides : Text → Work → ℕ → BudgetPolicy → Event
  holds : Text → Option Text → Option Budget → Event
  starts releases : Text → Event

module _ (fl : Float) where
  unfoldable pub event : ℕ → Event → WorkLedger → WorkLedger
  event now (decides t w d p) l = (decide fl t w d p now l).1
  event now (holds s parent b) l = hold s parent b l
  event now (starts s) l = start s now l
  event now (releases s) l = release s l

  -- The events, each some nanoseconds after the one before.
  unfoldable pub events : ℕ → List (ℕ × Event) → WorkLedger → ℕ × WorkLedger
  events now [] l = (now, l)
  events now ((dt, e) ∷ es) l = events (now + dt) es (event (now + dt) e l)

  event-Timely :
      (now : ℕ) (e : Event) (l : WorkLedger)
      → Timely now l.reserved
      → Timely now (event now e l).reserved
  unfolding event decide hold start release insert
  event-Timely now (decides t w d p) l h =
      let live = Timely-retain now (is_live now) l.reserved h in
      ground (arith, live, Timely-remove now t (retain (is_live now) l.reserved) live)
  event-Timely now (holds s parent b) l h = Timely-end now parent l.reserved h
  event-Timely now (starts s) l h = h
  event-Timely now (releases s) l h = h

  events-Timely :
      (now : ℕ) (es : List (ℕ × Event)) (l : WorkLedger)
      → Timely now l.reserved
      → Timely (events now es l).0 (events now es l).1.reserved
  unfolding events
  events-Timely now [] l h = h
  events-Timely now ((dt, e) ∷ es) l h =
      events-Timely (now + dt) es (event (now + dt) e l)
        (event-Timely (now + dt) e l (Timely-later now dt l.reserved h))

all_lapsed :
    (now later : ℕ) (m : Map (F64 × ℕ))
    → now + reservation_ttl ≤ later
    → Timely now m
    → retain (is_live later) m ≡ []
unfolding retain
all_lapsed now later [] k h = refl
all_lapsed now later ((j, v) ∷ m) k h = ground (arith, all_lapsed now later m k h.1)

-- After any events from an empty ledger, no reservation counts once 15 seconds have passed since the
-- last of them: the queue is then that of the held sub-tasks alone.
pub reservations_lapse :
    (fl : Float) (now : ℕ) (es : List (ℕ × Event)) (later : ℕ) (unknown_secs : F64)
    → (events fl now es default_ledger).0 + reservation_ttl ≤ later
    → queued_secs fl later unknown_secs (events fl now es default_ledger).1
      ≡ queued_secs fl later unknown_secs
          (record (events fl now es default_ledger).1 { reserved = [] })
unfolding queued_secs retain
reservations_lapse fl now es later unknown_secs k =
    let run = events fl now es default_ledger in
    rw (
      all_lapsed run.0 later run.1.reserved k (events-Timely fl now es default_ledger tt),
      queued_secs,
    )
