-- ===== src/Script/Schedule.antt =====
-- What startScript (src/EventsScript.h) schedules.
use modem_tester.Common.{
  ℕ, suc, ◌+◌, ◌<◌, ◌≡◌, refl, ◌==◌, if◌then◌else◌, Bool, ◌&&◌, List, [], ◌∷◌, ◌++◌, append_snoc,
  some, arith, length,
}
use modem_tester.Events.{Event, EventId, event_id}
use modem_tester.SortedMap.{insert, last, Above, Below}
use modem_tester.SortedMap.Laws.{insert_at_end, Below-mono, Below-append, last-le, last-total}
use modem_tester.Script.{
  Handler, restart, handle, EventsScript, dispatch_event_from_id, schedule, start_script,
}

-- Every event struct is dispatched for its own id.
pub script-dispatches : (e : Event) → dispatch_event_from_id (event_id e) ≡ some e
unfolding dispatch_event_from_id
script-dispatches e = ground arith

-- The schedule that is meant: every event at its time after the start, but for the last one of a
-- cyclic script, which restarts it.
unfoldable pub plan : ℕ → Bool → List (ℕ × EventId) → List (ℕ × Handler)
plan begin cyclic [] = []
plan begin cyclic ((after, id) ∷ []) = (begin + after, (if cyclic then restart else handle id)) ∷ []
plan begin cyclic ((after, id) ∷ e ∷ entries) =
    (begin + after, handle id) ∷ plan begin cyclic (e ∷ entries)

schedule-cons :
    (begin : ℕ) (cyclic : Bool) (date k : ℕ) (i : EventId) (entries : List (ℕ × EventId))
    (timers : List (ℕ × Handler))
    → schedule begin cyclic date ((k, i) ∷ entries) timers
      ≡ schedule begin cyclic date entries
          (insert (begin + k) (if cyclic && begin + k == date then restart else handle i) timers)
unfolding schedule
schedule-cons begin cyclic date k i entries timers = refl

plan-cons :
    (begin : ℕ) (cyclic : Bool) (k : ℕ) (i : EventId) (d : ℕ × EventId)
    (entries : List (ℕ × EventId))
    → plan begin cyclic ((k, i) ∷ d ∷ entries)
      ≡ (begin + k, handle i) ∷ plan begin cyclic (d ∷ entries)
unfolding plan
plan-cons begin cyclic k i (l, j) entries = refl

not_last :
    (begin k after : ℕ) (cyclic : Bool) (x y : Handler)
    → k < after
    → (if cyclic && begin + k == begin + after then x else y) ≡ y
not_last begin k after cyclic x y h = ground arith

one_left :
    (begin : ℕ) (cyclic : Bool) (k after : ℕ) (i id : EventId) (timers : List (ℕ × Handler))
    → k ≡ after
    → i ≡ id
    → Below (begin + k) timers
    → schedule begin cyclic (begin + after) ((k, i) ∷ []) timers
      ≡ timers ++ plan begin cyclic ((k, i) ∷ [])
unfolding schedule plan
one_left begin cyclic k after i id timers same _ below =
    rw (insert_at_end (begin + k) _ timers below) (ground arith)

schedule-plan :
    (begin : ℕ) (cyclic : Bool) (entries : List (ℕ × EventId)) (timers : List (ℕ × Handler))
    (lo after : ℕ) (id : EventId)
    → Above lo entries
    → Below (begin + lo) timers
    → last entries ≡ some (after, id)
    → schedule begin cyclic (begin + after) entries timers ≡ timers ++ plan begin cyclic entries
unfolding last
schedule-plan begin cyclic [] timers lo after id a b e = cc
schedule-plan begin cyclic ((k, i) ∷ []) timers lo after id a b e =
    let same : k ≡ after = ground arith in
    let below : Below (begin + k) timers =
      Below-mono (begin + lo) (begin + k) timers (omega arith) b in
    one_left begin cyclic k after i id timers same (ground arith) below
schedule-plan begin cyclic ((k, i) ∷ d ∷ entries) timers lo after id a b e =
    let early : k < after = last-le (suc k) (d ∷ entries) after id a.1 e in
    let below : Below (begin + k) timers =
      Below-mono (begin + lo) (begin + k) timers (omega arith) b in
    rw (
      schedule-cons begin cyclic (begin + after) k i (d ∷ entries) timers,
      not_last begin k after cyclic restart (handle i) early,
      insert_at_end (begin + k) (handle i) timers below,
      schedule-plan begin cyclic (d ∷ entries) (timers ++ (begin + k, handle i) ∷ []) (suc k) after
          id a.1
          (Below-append (begin + suc k) timers ((begin + k, handle i) ∷ [])
            (Below-mono (begin + k) (begin + suc k) timers (omega arith) below) (omega arith, tt))
          e,
      plan-cons begin cyclic k i d entries,
      append_snoc timers (begin + k, handle i) (plan begin cyclic (d ∷ entries)),
    )

-- Starting a script whose times rise strictly, and which is not empty, cancels every old timer and
-- makes one timer for each event at its time after the start, in that order, bound to the event; the
-- last one of a cyclic script is bound to the restart.
pub script-start_script :
    (begin : ℕ) (s : EventsScript) (e : ℕ × EventId) (rest : List (ℕ × EventId))
    → s.entries ≡ e ∷ rest
    → Above 0 s.entries
    → start_script begin s
      ≡ some (record s {
        timers = plan begin s.cyclic s.entries;
        canceled = s.canceled + length s.timers;
      })
unfolding start_script
script-start_script begin s e rest q a =
    let ((after, id), l) = last-total e rest in
    let l' : last s.entries ≡ some (after, id) = rw q l in
    rw (l', start_script, schedule-plan begin s.cyclic s.entries [] 0 after id a tt l')
