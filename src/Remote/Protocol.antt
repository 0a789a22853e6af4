-- ===== src/Remote/Protocol.antt =====
-- The protocol of the remote as a table, and that the code follows it (src/remote/RemoteFSM.cpp).
use modem_tester.Common.{
  ℕ, ◌≡◌, ◌≢◌, refl, Bool, true, false, if◌then◌else◌, List, [], ◌∷◌, ◌++◌, arith,
}
use modem_tester.Events.{
  Event, availability_mode_command, throughput_mode_command, end_mode_command, master_ack, timeout,
  end_test,
}
use modem_tester.Fsm.World.{World, write, emit, quit, written, Returns}
use modem_tester.Fsm.Library.{TinyFsm}
use modem_tester.Remote.{
  RemoteState, Machine, value, remote_idle, availability_command_received,
  throughput_command_received, remote_availability_mode, remote_throughput_mode, end_mode_received,
  dispatch, exit, entry, react,
}
use modem_tester.Remote.Invariant.{Sound, SoundAt, go, is_timed, dispatch-plain}

-- The state that an event leads to; the same state both where the event re-enters it and where it
-- is ignored.
abbrev pub next : RemoteState → Event → RemoteState
next remote_idle availability_mode_command = availability_command_received
next remote_idle throughput_mode_command = throughput_command_received
next availability_command_received master_ack = remote_availability_mode
next throughput_command_received master_ack = remote_throughput_mode
next remote_availability_mode end_mode_command = end_mode_received
next remote_throughput_mode end_mode_command = end_mode_received
next end_mode_received master_ack = remote_idle
next q _ = q

-- Whether the event leaves the state and enters one, be it the same.
abbrev pub moves : RemoteState → Event → Bool
moves remote_idle availability_mode_command = true
moves remote_idle throughput_mode_command = true
moves availability_command_received master_ack = true
moves availability_command_received timeout = true
moves throughput_command_received master_ack = true
moves throughput_command_received timeout = true
moves remote_availability_mode end_mode_command = true
moves remote_availability_mode master_ack = true
moves remote_throughput_mode end_mode_command = true
moves remote_throughput_mode master_ack = true
moves end_mode_received end_mode_command = true
moves end_mode_received timeout = true
moves end_mode_received master_ack = true
moves _ _ = false

-- A command is answered with RemoteAck, 244, and so is a timeout, until the master acknowledges.
abbrev pub answer : RemoteState → Event → List ℕ
answer remote_idle availability_mode_command = 244 ∷ []
answer remote_idle throughput_mode_command = 244 ∷ []
answer availability_command_received timeout = 244 ∷ []
answer throughput_command_received timeout = 244 ∷ []
answer remote_availability_mode end_mode_command = 244 ∷ []
answer remote_throughput_mode end_mode_command = 244 ∷ []
answer end_mode_received end_mode_command = 244 ∷ []
answer end_mode_received timeout = 244 ∷ []
answer _ _ = []

pub record Follows (q : RemoteState) (e : Event) (w : World) (m : Machine) : Type 0 where
  pub moved : m.current ≡ next q e
  pub answered : written m.world.trace ≡ answer q e ++ written w.trace
  pub listening : m.world.reads ≡ (if moves q e then value (next q e) ∷ [] else w.reads)
  pub armed :
      m.world.timer (value (next q e))
      ≡ (if moves q e then is_timed (next q e) else w.timer (value q))

react-Follows :
    (q : RemoteState) (e : Event) (w : World)
    → SoundAt q w
    → e ≢ end_test
    → Returns (Follows q e w) (react go q e (record { current = q; world = w }))
unfolding react entry exit written
react-Follows q end_test w s h = absurd (h refl)
react-Follows remote_idle timeout w s h = ground arith
react-Follows q e w s h = ground (
  arith,
  s.stream,
  s.timers (value q),
  s.timers (value (next q e)),
  s.runnables (value q),
  s.runnables (value (next q e)),
)

module _ (lib : TinyFsm RemoteState) where
  -- In a sound machine every event but EndTest is handled to the end, as the table says: the state
  -- that follows and the bytes that are sent are the table's, and where the table moves, one read
  -- is pending for the new state and its timer runs exactly if it is a timed state; where the table
  -- does not move, the pending reads and the timer stay.
  pub remote-dispatch-Follows :
      (e : Event) (m : Machine)
      → Sound m
      → e ≢ end_test
      → Returns (Follows m.current e m.world) (dispatch lib e m)
  remote-dispatch-Follows e m s h =
      rw (dispatch-plain lib e m) (react-Follows m.current e m.world s h)

  -- In any state, if the stream is set, EndTest is sent on and the process ends with success.
  pub remote-dispatch-end_test :
      (m : Machine)
      → m.world.io_stream ≡ true
      → dispatch lib end_test m ≡ quit 0 (emit (write (246 ∷ [])) m.world)
  unfolding react
  remote-dispatch-end_test m h = rw (dispatch-plain lib end_test m) (ground arith)
