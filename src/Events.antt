-- ===== src/Events.antt =====
-- src/Events.h and src/Events.cpp: the event identifiers, the event structs, their names, and the
-- switch of BaseFSM::HandleReadEvt (src/BaseFSM.h) that turns a received byte into an event.
pub mod Codes
use Prim.Native.String.{String}
use modem_tester.Common.{ℕ, ◌==◌, if◌then◌else◌, Option, none, some}

-- e_EventId
pub data EventId : Type 0 where
  timeout_id begin_standard_codes end_standard_codes : EventId
  availability_mode_command_id throughput_mode_command_id end_mode_command_id : EventId
  remote_ack_id master_ack_id end_test_id : EventId

-- An enumerator where the code uses it as a uint8_t: `Timeout_id`, -1, wraps to 255.
abbrev pub to_byte : EventId → ℕ
to_byte timeout_id = 255
to_byte begin_standard_codes = 0
to_byte end_standard_codes = 240
to_byte availability_mode_command_id = 241
to_byte throughput_mode_command_id = 242
to_byte end_mode_command_id = 243
to_byte remote_ack_id = 244
to_byte master_ack_id = 245
to_byte end_test_id = 246

-- The structs derived from EventWithId.
pub data Event : Type 0 where
  availability_mode_command throughput_mode_command end_mode_command : Event
  remote_ack master_ack timeout end_test : Event

abbrev pub event_id : Event → EventId
event_id availability_mode_command = availability_mode_command_id
event_id throughput_mode_command = throughput_mode_command_id
event_id end_mode_command = end_mode_command_id
event_id remote_ack = remote_ack_id
event_id master_ack = master_ack_id
event_id timeout = timeout_id
event_id end_test = end_test_id

-- The `switch (_recvBuf[i])` of HandleReadEvt: `none` is its default case.
unfoldable pub decode : ℕ → Option Event
decode b =
    if b == to_byte availability_mode_command_id
    then some availability_mode_command
    else if b == to_byte throughput_mode_command_id
    then some throughput_mode_command
    else if b == to_byte end_mode_command_id
    then some end_mode_command
    else if b == to_byte remote_ack_id
    then some remote_ack
    else if b == to_byte master_ack_id
    then some master_ack
    else if b == to_byte end_test_id
    then some end_test
    else none

-- operator<< on an EventId_t; `none` is its default case, "Not an event".
unfoldable pub event_name : EventId → Option String
event_name remote_ack_id = some "RemoteAck"
event_name timeout_id = some "Timeout"
event_name end_test_id = some "EndTest"
event_name availability_mode_command_id = some "AvailabilityModeCommand"
event_name throughput_mode_command_id = some "ThroughputModeCommand"
event_name master_ack_id = some "MasterAck"
event_name end_mode_command_id = some "EndModeCommand"
event_name _ = none
