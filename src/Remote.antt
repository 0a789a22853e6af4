-- ===== src/Remote.antt =====
-- src/remote/RemoteFSM.h and src/remote/RemoteFSM.cpp: the states of the remote, what each does on
-- entry and on each event.
pub mod Invariant
pub mod Protocol
pub mod Silence
pub mod Pinger
pub mod Throughput
use Prim.Native.String.{String}
use modem_tester.Common.{ℕ, true, if◌then◌else◌, List}
use modem_tester.Events.{
  Event, availability_mode_command, throughput_mode_command, end_mode_command, master_ack, timeout,
  end_test, remote_ack_id, to_byte,
}
use modem_tester.Fsm.World.{World, wrong_event, emit, update, Result, ok, fault, ◌>>=◌, initial}
use modem_tester.Fsm.Library.{Fsm, TinyFsm}
use modem_tester.Fsm.Base
use modem_tester.Fsm.Base.{
  send_byte, timer_entry, timer_exit, activity_entry, activity_exit, react_end_test, set_io_stream,
}
use modem_tester.Fsm.Run
use modem_tester.Fsm.Run.{Input}

-- RemoteStateId_t, one for each state class
pub data RemoteState : Type 0 where
  remote_idle availability_command_received throughput_command_received : RemoteState
  remote_availability_mode remote_throughput_mode end_mode_received : RemoteState

abbrev pub value : RemoteState → ℕ
value remote_idle = 0
value availability_command_received = 1
value throughput_command_received = 2
value remote_availability_mode = 3
value remote_throughput_mode = 4
value end_mode_received = 5

-- operator<<
unfoldable pub state_name : RemoteState → String
state_name remote_idle = "RemoteIdle"
state_name availability_command_received = "AvailabilityCommandReceived"
state_name throughput_command_received = "ThroughputCommandReceived"
state_name remote_availability_mode = "RemoteAvailabilityMode"
state_name remote_throughput_mode = "RemoteThroughputMode"
state_name end_mode_received = "EndModeReceived"

abbrev pub Machine : Type 0
Machine = Fsm RemoteState

availability_command_received_entry : World → Result World
unfolding send_byte timer_entry
availability_command_received_entry w = send_byte (to_byte remote_ack_id) w >>= timer_entry 1

throughput_command_received_entry : World → Result World
unfolding send_byte timer_entry
throughput_command_received_entry w = send_byte (to_byte remote_ack_id) w >>= timer_entry 2

-- A factory is made on every entry.
remote_availability_mode_entry : World → Result World
unfolding activity_entry
remote_availability_mode_entry w =
    if w.io_stream then activity_entry 3 (record w { factory = update w.factory 3 true }) else fault

remote_throughput_mode_entry : World → Result World
unfolding activity_entry
remote_throughput_mode_entry w =
    if w.io_stream then activity_entry 4 (record w { factory = update w.factory 4 true }) else fault

end_mode_received_entry : World → Result World
unfolding send_byte timer_entry
end_mode_received_entry w = send_byte (to_byte remote_ack_id) w >>= timer_entry 5

-- The virtual calls `current_state_ptr->entry ()` and `current_state_ptr->exit ()`.
unfoldable pub entry : RemoteState → World → Result World
unfolding availability_command_received_entry throughput_command_received_entry
    remote_availability_mode_entry remote_throughput_mode_entry end_mode_received_entry Base.entry
entry remote_idle w = Base.entry 0 w
entry availability_command_received w = availability_command_received_entry w
entry throughput_command_received w = throughput_command_received_entry w
entry remote_availability_mode w = remote_availability_mode_entry w
entry remote_throughput_mode w = remote_throughput_mode_entry w
entry end_mode_received w = end_mode_received_entry w

unfoldable pub exit : RemoteState → World → Result World
unfolding timer_exit activity_exit Base.exit
exit remote_idle w = Base.exit 0 w
exit availability_command_received w = timer_exit 1 w
exit throughput_command_received w = timer_exit 2 w
exit remote_availability_mode w = activity_exit 3 w
exit remote_throughput_mode w = activity_exit 4 w
exit end_mode_received w = timer_exit 5 w

-- RemoteErrorHandler: the event is logged
wrong_event_handler : Event → Machine → Result Machine
wrong_event_handler e m = ok (record m { world = emit (wrong_event e) m.world })

-- The `react` of each state; `transit` is tinyfsm's call.
module _ (transit : RemoteState → Machine → Result Machine) where
  remote_idle_react : Event → Machine → Result Machine
  remote_idle_react availability_mode_command m = transit availability_command_received m
  remote_idle_react throughput_mode_command m = transit throughput_command_received m
  remote_idle_react _ m = ok m

  availability_command_received_react : Event → Machine → Result Machine
  unfolding wrong_event_handler
  availability_command_received_react master_ack m = transit remote_availability_mode m
  availability_command_received_react timeout m = transit availability_command_received m
  availability_command_received_react e m = wrong_event_handler e m

  throughput_command_received_react : Event → Machine → Result Machine
  throughput_command_received_react master_ack m = transit remote_throughput_mode m
  throughput_command_received_react timeout m = transit throughput_command_received m
  throughput_command_received_react _ m = ok m

  remote_availability_mode_react : Event → Machine → Result Machine
  unfolding wrong_event_handler
  remote_availability_mode_react end_mode_command m = transit end_mode_received m
  remote_availability_mode_react master_ack m = transit remote_availability_mode m
  remote_availability_mode_react e m = wrong_event_handler e m

  remote_throughput_mode_react : Event → Machine → Result Machine
  unfolding wrong_event_handler
  remote_throughput_mode_react end_mode_command m = transit end_mode_received m
  remote_throughput_mode_react master_ack m = transit remote_throughput_mode m
  remote_throughput_mode_react e m = wrong_event_handler e m

  end_mode_received_react : Event → Machine → Result Machine
  unfolding wrong_event_handler
  end_mode_received_react end_mode_command m = transit end_mode_received m
  end_mode_received_react timeout m = transit end_mode_received m
  end_mode_received_react master_ack m = transit remote_idle m
  end_mode_received_react e m = wrong_event_handler e m

  -- The call `current_state_ptr->react (event)`: EndTest has an overload of its own in BaseFSM, and
  -- every other event goes to the state's `react (EventWithId const &)`.
  unfoldable pub react_event : RemoteState → Event → Machine → Result Machine
  unfolding remote_idle_react availability_command_received_react throughput_command_received_react
      remote_availability_mode_react remote_throughput_mode_react end_mode_received_react
  react_event remote_idle e m = remote_idle_react e m
  react_event availability_command_received e m = availability_command_received_react e m
  react_event throughput_command_received e m = throughput_command_received_react e m
  react_event remote_availability_mode e m = remote_availability_mode_react e m
  react_event remote_throughput_mode e m = remote_throughput_mode_react e m
  react_event end_mode_received e m = end_mode_received_react e m

  unfoldable pub react : RemoteState → Event → Machine → Result Machine
  unfolding react_event react_end_test
  react q end_test m = react_end_test m
  react q e m = react_event q e m

-- The remote over the library: FSM_INITIAL_STATE (RemoteFSM, RemoteIdle), dispatch and start.
module _ (lib : TinyFsm RemoteState) where
  unfoldable pub dispatch : Event → Machine → Result Machine
  unfolding react entry exit
  dispatch e m = lib.dispatch (react (lib.transit exit entry)) e m

  unfoldable pub start : World → Result Machine
  unfolding entry
  start w = lib.start entry remote_idle w

  unfoldable pub run : List Input → Result Machine
  unfolding start dispatch Run.run set_io_stream
  run is = start (set_io_stream initial) >>= Run.run dispatch is
