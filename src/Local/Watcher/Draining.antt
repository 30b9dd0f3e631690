-- ===== src/Local/Watcher/Draining.antt =====
-- `proccessChanges` empties both queues and returns what they lead to.
use mathlib.Core.List.{append-nil, append_assoc}
use sync_harbor.Base.{ℕ, ◌≡◌, refl, sym, ap, ◌∙◌, List, [], ◌∷◌, ◌++◌, All, All-append}
use sync_harbor.Utils.Dto.{FileEvent}
use sync_harbor.Database.Connection.{Codes, Failure, Result, ok, err}
use sync_harbor.Changes.Change.{Change}
use sync_harbor.Local.State.{FileSystem, LocalStorage, Step}
use sync_harbor.Local.Handlers.{handle_event}
use sync_harbor.Local.Handlers.Reports.{IsReport, handle_event-Adds}
use sync_harbor.Local.Watcher.{handle_events, take_changes, process_changes}

-- The changes are the old ones with dispatchable ones behind them.
abbrev pub Extends : List Change → List Change → Type 0
Extends old changes = (new : List Change) × All IsReport new × (changes ≡ old ++ new)

Extends-trans : (xs ys zs : List Change) → Extends xs ys → Extends ys zs → Extends xs zs
Extends-trans xs ys zs (new, h, e) (more, k, f) = (
  new ++ more,
  All-append IsReport new more h k,
  f ∙ ap (λ l. l ++ more) e ∙ append_assoc xs new more,
)

-- After the loop over the events: no event is left if it returns.
abbrev Drained : {D A : Type 0} → LocalStorage D → Result A × LocalStorage D → Type 0
Drained s (ok a, s') =
    Extends s.changes_queue.items s'.changes_queue.items × (s'.events_buff.items ≡ [])
Drained s (err e, s') = Extends s.changes_queue.items s'.changes_queue.items

-- After `proccessChanges`.
abbrev pub IsProcessed :
    {D : Type 0} → LocalStorage D → Result (List Change) × LocalStorage D → Type 0
IsProcessed s (ok out, s') =
    Extends s.changes_queue.items out × (s'.changes_queue.items ≡ []) × (s'.events_buff.items ≡ [])
IsProcessed s (err e, s') = Extends s.changes_queue.items s'.changes_queue.items

module _ {D : Type 0} where
  Drained-trans :
      (a b : LocalStorage D) (r : Result (Unit {0}) × LocalStorage D)
      → Extends a.changes_queue.items b.changes_queue.items
      → Drained b r
      → Drained a r
  Drained-trans a b (ok u, s) h k = (Extends-trans _ _ _ h k.0, k.1)
  Drained-trans a b (err e, s) h k = Extends-trans _ _ _ h k

  Drained-then :
      (s : LocalStorage D) (evts : List FileEvent) (r : Result (Unit {0}) × LocalStorage D)
      (rest : Step D)
      → Extends s.changes_queue.items r.1.changes_queue.items
      → r.1.events_buff.items ≡ evts
      → ((s' : LocalStorage D) → s'.events_buff.items ≡ evts → Drained s' (rest s'))
      → Drained s (elim r.0 as (λ _. Result (Unit {0}) × LocalStorage D) [
        | ok a ↦ rest r.1
        | err e ↦ (err e, r.1)
      ])
  Drained-then s evts (ok a, s') rest h e k = Drained-trans s s' (rest s') h (k s' e)
  Drained-then s evts (err e, s') rest h _ k = h

  IsProcessed-then :
      (s : LocalStorage D) (r : Result (Unit {0}) × LocalStorage D)
      → Drained s r
      → IsProcessed s (elim r.0 as (λ _. Result (List Change) × LocalStorage D) [
        | ok a ↦ (
          ok r.1.changes_queue.items,
          record r.1 { changes_queue = record r.1.changes_queue { items = [] } },
        )
        | err e ↦ (err e, r.1)
      ])
  IsProcessed-then s (ok a, s') (grown, empty) = (grown, refl, empty)
  IsProcessed-then s (err e, s') grown = grown

module _ (fs : FileSystem) (c : Codes) (clouds : List ℕ) where
  handle_events-Drained :
      (evts : List FileEvent) (s : LocalStorage fs.Disk)
      → s.events_buff.items ≡ evts
      → Drained s (handle_events fs c clouds evts s)
  unfolding handle_events
  handle_events-Drained [] s e = (([], tt, sym (append-nil s.changes_queue.items)), e)
  handle_events-Drained (evt ∷ evts) s e =
      let popped = record s { events_buff = record s.events_buff { items = evts } } in
      let adds = handle_event-Adds fs c clouds evt popped in
      Drained-then s evts (handle_event fs c clouds evt popped) (handle_events fs c clouds evts)
        (adds.new, adds.reports, adds.grown) (ap (λ q. q.items) adds.events_stay)
        (handle_events-Drained evts)

  -- The events behind the one that is handled.
  abbrev pub waiting : List FileEvent → LocalStorage fs.Disk → LocalStorage fs.Disk
  waiting evts s = record s { events_buff = record s.events_buff { items = evts } }

  -- The events are handled one after the other, each in the state that the one before left, until all
  -- are or one throws.
  pub data Handles
      : List FileEvent
        → LocalStorage fs.Disk
        → Result (Unit {0}) × LocalStorage fs.Disk
        → Type 0 where
    all_done : (s : LocalStorage fs.Disk) → Handles [] s (ok tt, s)
    goes_on :
        {evt : FileEvent} {evts : List FileEvent} {s s' : LocalStorage fs.Disk}
        {r : Result (Unit {0}) × LocalStorage fs.Disk}
        → handle_event fs c clouds evt (waiting evts s) ≡ (ok tt, s')
        → Handles evts s' r
        → Handles (evt ∷ evts) s r
    stops :
        {evt : FileEvent} {evts : List FileEvent} {s s' : LocalStorage fs.Disk} {e : Failure}
        → handle_event fs c clouds evt (waiting evts s) ≡ (err e, s')
        → Handles (evt ∷ evts) s (err e, s')

  handled-Handles :
      (evt : FileEvent) (evts : List FileEvent) (s : LocalStorage fs.Disk)
      (r : Result (Unit {0}) × LocalStorage fs.Disk)
      → handle_event fs c clouds evt (waiting evts s) ≡ r
      → Handles evts r.1 (handle_events fs c clouds evts r.1)
      → Handles (evt ∷ evts) s (elim r.0 as (λ _. Result (Unit {0}) × LocalStorage fs.Disk) [
        | ok a ↦ handle_events fs c clouds evts r.1
        | err e ↦ (err e, r.1)
      ])
  handled-Handles evt evts s (ok u, s') e h = goes_on e h
  handled-Handles evt evts s (err f, s') e h = stops e

  handle_events-Handles :
      (evts : List FileEvent) (s : LocalStorage fs.Disk)
      → Handles evts s (handle_events fs c clouds evts s)
  unfolding handle_events
  handle_events-Handles [] s = all_done s
  handle_events-Handles (evt ∷ evts) s =
      handled-Handles evt evts s (handle_event fs c clouds evt (waiting evts s)) refl
        (handle_events-Handles evts (handle_event fs c clouds evt (waiting evts s)).1)

  -- Whatever SQLite and the file system answer: if `proccessChanges` returns, no event and no change
  -- waits any more, and it returns the changes that waited, followed by dispatchable ones. If it
  -- throws, the changes that waited still do. And the events that waited are handled in their order, each
  -- once and in the state that the one before left, until all are or one throws; what that comes to is
  -- what `proccessChanges` comes to.
  pub process_changes-IsProcessed :
      (s : LocalStorage fs.Disk)
      → IsProcessed s (process_changes fs c clouds s)
        × (r : Result (Unit {0}) × LocalStorage fs.Disk) × Handles s.events_buff.items s r
        × (process_changes fs c clouds s
            ≡ elim r.0 as (λ _. Result (List Change) × LocalStorage fs.Disk) [
              | ok u ↦ take_changes fs c clouds r.1
              | err e ↦ (err e, r.1)
            ])
  unfolding process_changes take_changes
  process_changes-IsProcessed s = (
    IsProcessed-then s (handle_events fs c clouds s.events_buff.items s)
        (handle_events-Drained s.events_buff.items s refl),
    handle_events fs c clouds s.events_buff.items s,
    handle_events-Handles s.events_buff.items s,
    refl,
  )
