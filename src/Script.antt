-- ===== src/Script.antt =====
-- src/EventsScript.h: a script of events, each at a time after the start, and the timers that
-- startScript makes of it.
pub mod Schedule
use modem_tester.Common.{
  ℕ, ◌+◌, ◌==◌, if◌then◌else◌, Bool, true, false, ◌&&◌, List, [], ◌∷◌, Option, none, some, length,
}
use modem_tester.Events.{
  Event, EventId, timeout_id, availability_mode_command_id, throughput_mode_command_id,
  end_mode_command_id, remote_ack_id, master_ack_id, end_test_id, availability_mode_command,
  throughput_mode_command, end_mode_command, remote_ack, master_ack, timeout, end_test,
}
use modem_tester.SortedMap.{insert, last}

-- dispatchEventFromId: the event that is dispatched in a thread, if any
unfoldable pub dispatch_event_from_id : EventId → Option Event
dispatch_event_from_id timeout_id = some timeout
dispatch_event_from_id availability_mode_command_id = some availability_mode_command
dispatch_event_from_id throughput_mode_command_id = some throughput_mode_command
dispatch_event_from_id end_mode_command_id = some end_mode_command
dispatch_event_from_id remote_ack_id = some remote_ack
dispatch_event_from_id master_ack_id = some master_ack
dispatch_event_from_id end_test_id = some end_test
dispatch_event_from_id _ = none

-- What a timer's wait is bound to: restartScript, or handleTimer of an event.
pub data Handler : Type 0 where
  restart : Handler
  handle : EventId → Handler

pub record EventsScript : Type 0 where
  -- the map that the class derives from: times after the start
  pub entries : List (ℕ × EventId)
  pub cyclic : Bool
  -- _timers: the date of each timer, and what it is bound to
  pub timers : List (ℕ × Handler)
  -- how many timers were canceled and deleted, and the events dispatched, newest first
  pub canceled : ℕ
  pub dispatched : List Event

-- stopScript: every timer is canceled and deleted
unfoldable pub stop_script : EventsScript → EventsScript
stop_script s = record s { timers = []; canceled = s.canceled + length s.timers }

-- the loop of startScript
unfoldable pub schedule :
    ℕ → Bool → ℕ → List (ℕ × EventId) → List (ℕ × Handler) → List (ℕ × Handler)
unfolding insert
schedule begin cyclic last_date [] timers = timers
schedule begin cyclic last_date ((after, id) ∷ entries) timers =
    let date = begin + after in
    schedule begin cyclic last_date entries
      (insert date (if cyclic && date == last_date then restart else handle id) timers)

-- startScript at the time `begin`; none where it reads through prev (end ()) of an empty script
unfoldable pub start_script : ℕ → EventsScript → Option EventsScript
unfolding stop_script schedule last
start_script begin s = elim (last s.entries) [
  | none ↦ none
  | some (after, id) ↦
      some
        (record (stop_script s) { timers = schedule begin s.cyclic (begin + after) s.entries [] })
]

-- handleTimer and restartScript, with the value of the error code
unfoldable pub handle_timer : ℕ → EventId → EventsScript → EventsScript
unfolding dispatch_event_from_id
handle_timer ec id s =
    if ec == 0
    then (elim (dispatch_event_from_id id) [
      | none ↦ s
      | some e ↦ record s { dispatched = e ∷ s.dispatched }
    ])
    else s

unfoldable pub restart_script : ℕ → ℕ → EventsScript → Option EventsScript
unfolding start_script
restart_script now ec s = if ec == 0 then start_script now s else some s
