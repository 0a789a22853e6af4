-- ===== src/Master.antt =====
-- src/master/MasterFSM.h and src/master/MasterFSM.cpp: the states of the master, what each does on
-- entry and on each event.
pub mod Invariant
pub mod Protocol
pub mod Pinger
pub mod Throughput
pub mod Controller
use Prim.Native.String.{String}
use modem_tester.Common.{ℕ, true, if◌then◌else◌, List}
use modem_tester.Events.{
  Event, availability_mode_command, throughput_mode_command, end_mode_command, remote_ack, timeout,
  end_test, availability_mode_command_id, throughput_mode_command_id, end_mode_command_id,
  master_ack_id, to_byte,
}
use modem_tester.Fsm.World.{World, wrong_event, emit, update, Result, ok, fault, ◌>>=◌, initial}
use modem_tester.Fsm.Library.{Fsm, TinyFsm}
use modem_tester.Fsm.Base
use modem_tester.Fsm.Base.{
  send_byte, start_timer, timer_entry, timer_exit, activity_entry, activity_exit, react_end_test,
  set_io_stream,
}
use modem_tester.Fsm.Run
use modem_tester.Fsm.Run.{Input}

-- MasterStateId_t, one for each state class
pub data MasterState : Type 0 where
  idle sent_available_mode_command sent_throughput_mode_command : MasterState
  availability_mode throughput_mode wait_ack_after_end_mode : MasterState

abbrev pub value : MasterState → ℕ
value idle = 0
value sent_available_mode_command = 1
value sent_throughput_mode_command = 2
value availability_mode = 3
value throughput_mode = 4
value wait_ack_after_end_mode = 5

-- operator<<
unfoldable pub state_name : MasterState → String
state_name idle = "Idle"
state_name sent_available_mode_command = "SentAvailableModeCommand"
state_name sent_throughput_mode_command = "SentThroughputModeCommand"
state_name availability_mode = "AvailabilityMode"
state_name throughput_mode = "ThroughputMode"
state_name wait_ack_after_end_mode = "WaitAckAfterEndMode"

abbrev pub Machine : Type 0
Machine = Fsm MasterState

sent_available_mode_command_entry : World → Result World
unfolding send_byte start_timer timer_entry
sent_available_mode_command_entry w = send_byte (to_byte availability_mode_command_id) w >>= λ a.
    start_timer 1 a.timeout a >>= timer_entry 1

sent_throughput_mode_command_entry : World → Result World
unfolding send_byte start_timer timer_entry
sent_throughput_mode_command_entry w = start_timer 2 w.timeout w >>= λ a.
    send_byte (to_byte throughput_mode_command_id) a >>= timer_entry 2

-- `if (_factory == nullptr) _factory = new …`
make_factory : ℕ → World → World
make_factory k w = if w.factory k then w else record w { factory = update w.factory k true }

availability_mode_entry : World → Result World
unfolding send_byte make_factory activity_entry
availability_mode_entry w = send_byte (to_byte master_ack_id) w >>= λ a.
    if a.io_stream then activity_entry 3 (make_factory 3 a) else fault

throughput_mode_entry : World → Result World
unfolding send_byte make_factory activity_entry
throughput_mode_entry w = send_byte (to_byte master_ack_id) w >>= λ a.
    if a.io_stream then activity_entry 4 (make_factory 4 a) else fault

wait_ack_after_end_mode_entry : World → Result World
unfolding send_byte timer_entry
wait_ack_after_end_mode_entry w = send_byte (to_byte end_mode_command_id) w >>= timer_entry 5

-- The virtual calls `current_state_ptr->entry ()` and `current_state_ptr->exit ()`.
unfoldable pub entry : MasterState → World → Result World
unfolding sent_available_mode_command_entry sent_throughput_mode_command_entry
    availability_mode_entry throughput_mode_entry wait_ack_after_end_mode_entry Base.entry
entry idle w = Base.entry 0 w
entry sent_available_mode_command w = sent_available_mode_command_entry w
entry sent_throughput_mode_command w = sent_throughput_mode_command_entry w
entry availability_mode w = availability_mode_entry w
entry throughput_mode w = throughput_mode_entry w
entry wait_ack_after_end_mode w = wait_ack_after_end_mode_entry w

unfoldable pub exit : MasterState → World → Result World
unfolding timer_exit activity_exit Base.exit
exit idle w = Base.exit 0 w
exit sent_available_mode_command w = timer_exit 1 w
exit sent_throughput_mode_command w = timer_exit 2 w
exit availability_mode w = activity_exit 3 w
exit throughput_mode w = activity_exit 4 w
exit wait_ack_after_end_mode w = timer_exit 5 w

-- MasterErrorHandler: the event is logged
wrong_event_handler : Event → Machine → Result Machine
wrong_event_handler e m = ok (record m { world = emit (wrong_event e) m.world })

-- The `react` of each state; `transit` is tinyfsm's call.
module _ (transit : MasterState → Machine → Result Machine) where
  idle_react : Event → Machine → Result Machine
  unfolding send_byte
  idle_react availability_mode_command m = transit sent_available_mode_command m
  idle_react throughput_mode_command m = transit sent_throughput_mode_command m
  idle_react remote_ack m =
      send_byte (to_byte master_ack_id) m.world >>= λ w. transit idle (record m { world = w })
  idle_react _ m = ok m

  sent_available_mode_command_react : Event → Machine → Result Machine
  unfolding wrong_event_handler
  sent_available_mode_command_react timeout m = transit sent_available_mode_command m
  sent_available_mode_command_react remote_ack m = transit availability_mode m
  sent_available_mode_command_react e m = wrong_event_handler e m

  sent_throughput_mode_command_react : Event → Machine → Result Machine
  unfolding wrong_event_handler
  sent_throughput_mode_command_react timeout m = transit sent_throughput_mode_command m
  sent_throughput_mode_command_react remote_ack m = transit throughput_mode m
  sent_throughput_mode_command_react e m = wrong_event_handler e m

  availability_mode_react : Event → Machine → Result Machine
  unfolding wrong_event_handler
  availability_mode_react end_mode_command m = transit wait_ack_after_end_mode m
  availability_mode_react remote_ack m = transit availability_mode m
  availability_mode_react e m = wrong_event_handler e m

  throughput_mode_react : Event → Machine → Result Machine
  unfolding wrong_event_handler
  throughput_mode_react end_mode_command m = transit wait_ack_after_end_mode m
  throughput_mode_react remote_ack m = transit throughput_mode m
  throughput_mode_react e m = wrong_event_handler e m

  wait_ack_after_end_mode_react : Event → Machine → Result Machine
  unfolding send_byte wrong_event_handler
  wait_ack_after_end_mode_react remote_ack m =
      send_byte (to_byte master_ack_id) m.world >>= λ w. transit idle (record m { world = w })
  wait_ack_after_end_mode_react timeout m = transit wait_ack_after_end_mode m
  wait_ack_after_end_mode_react e m = wrong_event_handler e m

  -- The call `current_state_ptr->react (event)`: EndTest has an overload of its own in BaseFSM, and
  -- every other event goes to the state's `react (EventWithId const &)`.
  unfoldable pub react_event : MasterState → Event → Machine → Result Machine
  unfolding idle_react sent_available_mode_command_react sent_throughput_mode_command_react
      availability_mode_react throughput_mode_react wait_ack_after_end_mode_react
  react_event idle e m = idle_react e m
  react_event sent_available_mode_command e m = sent_available_mode_command_react e m
  react_event sent_throughput_mode_command e m = sent_throughput_mode_command_react e m
  react_event availability_mode e m = availability_mode_react e m
  react_event throughput_mode e m = throughput_mode_react e m
  react_event wait_ack_after_end_mode e m = wait_ack_after_end_mode_react e m

  unfoldable pub react : MasterState → Event → Machine → Result Machine
  unfolding react_event react_end_test
  react q end_test m = react_end_test m
  react q e m = react_event q e m

-- The master over the library: FSM_INITIAL_STATE (MasterFSM, Idle), dispatch and start.
module _ (lib : TinyFsm MasterState) where
  unfoldable pub dispatch : Event → Machine → Result Machine
  unfolding react entry exit
  dispatch e m = lib.dispatch (react (lib.transit exit entry)) e m

  unfoldable pub start : World → Result Machine
  unfolding entry
  start w = lib.start entry idle w

  unfoldable pub run : List Input → Result Machine
  unfolding start dispatch Run.run set_io_stream
  run is = start (set_io_stream initial) >>= Run.run dispatch is
