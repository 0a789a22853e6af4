-- ===== src/Master/Protocol.antt =====
-- The protocol of the master as a table, and that the code follows it (src/master/MasterFSM.cpp).
use modem_tester.Common.{
  ℕ, ◌≡◌, ◌≢◌, refl, Bool, true, false, if◌then◌else◌, List, [], ◌∷◌, ◌++◌, arith,
}
use modem_tester.Events.{
  Event, availability_mode_command, throughput_mode_command, end_mode_command, remote_ack, timeout,
  end_test,
}
use modem_tester.Fsm.World.{World, write, emit, quit, written, Returns}
use modem_tester.Fsm.Library.{TinyFsm}
use modem_tester.Master.{
  MasterState, Machine, value, idle, sent_available_mode_command, sent_throughput_mode_command,
  availability_mode, throughput_mode, wait_ack_after_end_mode, dispatch, exit, entry, react,
}
use modem_tester.Master.Invariant.{Sound, SoundAt, go, is_timed, dispatch-plain}

-- The state that an event leads to; the same state both where the event re-enters it and where it
-- is ignored.
abbrev pub next : MasterState → Event → MasterState
next idle availability_mode_command = sent_available_mode_command
next idle throughput_mode_command = sent_throughput_mode_command
next sent_available_mode_command remote_ack = availability_mode
next sent_throughput_mode_command remote_ack = throughput_mode
next availability_mode end_mode_command = wait_ack_after_end_mode
next throughput_mode end_mode_command = wait_ack_after_end_mode
next wait_ack_after_end_mode remote_ack = idle
next q _ = q

-- Whether the event leaves the state and enters one, be it the same.
abbrev pub moves : MasterState → Event → Bool
moves idle availability_mode_command = true
moves idle throughput_mode_command = true
moves idle remote_ack = true
moves sent_available_mode_command remote_ack = true
moves sent_available_mode_command timeout = true
moves sent_throughput_mode_command remote_ack = true
moves sent_throughput_mode_command timeout = true
moves availability_mode end_mode_command = true
moves availability_mode remote_ack = true
moves throughput_mode end_mode_command = true
moves throughput_mode remote_ack = true
moves wait_ack_after_end_mode remote_ack = true
moves wait_ack_after_end_mode timeout = true
moves _ _ = false

-- The bytes that the master answers with: 241 and 242 ask for a mode, 243 ends one, 245 is MasterAck.
abbrev pub answer : MasterState → Event → List ℕ
answer idle availability_mode_command = 241 ∷ []
answer idle throughput_mode_command = 242 ∷ []
answer sent_available_mode_command timeout = 241 ∷ []
answer sent_throughput_mode_command timeout = 242 ∷ []
answer availability_mode end_mode_command = 243 ∷ []
answer throughput_mode end_mode_command = 243 ∷ []
answer wait_ack_after_end_mode timeout = 243 ∷ []
answer idle remote_ack = 245 ∷ []
answer sent_available_mode_command remote_ack = 245 ∷ []
answer sent_throughput_mode_command remote_ack = 245 ∷ []
answer availability_mode remote_ack = 245 ∷ []
answer throughput_mode remote_ack = 245 ∷ []
answer wait_ack_after_end_mode remote_ack = 245 ∷ []
answer _ _ = []

pub record Follows (q : MasterState) (e : Event) (w : World) (m : Machine) : Type 0 where
  pub moved : m.current ≡ next q e
  pub answered : written m.world.trace ≡ answer q e ++ written w.trace
  pub listening : m.world.reads ≡ (if moves q e then value (next q e) ∷ [] else w.reads)
  pub armed :
      m.world.timer (value (next q e))
      ≡ (if moves q e then is_timed (next q e) else w.timer (value q))

react-Follows :
    (q : MasterState) (e : Event) (w : World)
    → SoundAt q w
    → e ≢ end_test
    → Returns (Follows q e w) (react go q e (record { current = q; world = w }))
unfolding react entry exit written
react-Follows q end_test w s h = absurd (h refl)
react-Follows idle timeout w s h = ground arith
react-Follows q e w s h = ground (
  arith,
  s.stream,
  s.timers (value q),
  s.timers (value (next q e)),
  s.runnables (value q),
  s.runnables (value (next q e)),
)

module _ (lib : TinyFsm MasterState) where
  -- In a sound machine every event but EndTest is handled to the end, as the table says: the state
  -- that follows and the bytes that are sent are the table's, and where the table moves, one read
  -- is pending for the new state and its timer runs exactly if it is a timed state; where the table
  -- does not move, the pending reads and the timer stay.
  pub master-dispatch-Follows :
      (e : Event) (m : Machine)
      → Sound m
      → e ≢ end_test
      → Returns (Follows m.current e m.world) (dispatch lib e m)
  master-dispatch-Follows e m s h =
      rw (dispatch-plain lib e m) (react-Follows m.current e m.world s h)

  -- In any state, if the stream is set, EndTest is sent on and the process ends with success.
  pub master-dispatch-end_test :
      (m : Machine)
      → m.world.io_stream ≡ true
      → dispatch lib end_test m ≡ quit 0 (emit (write (246 ∷ [])) m.world)
  unfolding react
  master-dispatch-end_test m h = rw (dispatch-plain lib end_test m) (ground arith)
