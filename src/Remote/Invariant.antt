-- ===== src/Remote/Invariant.antt =====
-- What holds of the pointers of the remote's state objects (src/remote/RemoteFSM.cpp over
-- src/BaseFSM.h) between two inputs.
use modem_tester.Common.{ℕ, ◌≡◌, refl, Bool, true, false, if◌then◌else◌, List, arith}
use modem_tester.Events.{
  Event, availability_mode_command, throughput_mode_command, end_mode_command, master_ack, timeout,
  end_test,
}
use modem_tester.Fsm.World.{World, update, Holds, initial, Result, ok, fault, >>=-Holds, ◌>>=◌}
use modem_tester.Fsm.Library.{TinyFsm, plain, transit-eq, dispatch-eq, start-eq}
use modem_tester.Fsm.Run.{Input, run-Holds}
use modem_tester.Fsm.Base.{set_io_stream, activity_entry, send_byte, timer_entry}
use modem_tester.Fsm.Sound.{
  IsSound, IsOpening, IsLeft, when, IsLeft-IsOpening, send_byte-IsOpening, send_byte-IsSound,
  entry-IsSound, timer_entry-IsSound, activity_entry-IsSound, exit-IsLeft, timer_exit-IsLeft,
  activity_exit-IsLeft, drop_read-IsSound, drop_timer-IsSound, trace-IsSound, with_factory-IsLeft,
}
use modem_tester.Remote.{
  RemoteState, Machine, value, remote_idle, availability_command_received,
  throughput_command_received, remote_availability_mode, remote_throughput_mode, end_mode_received,
  entry, exit, react, dispatch, start, run,
}

-- The states of class TimerBasedState, and those of class ActivityState.
abbrev pub is_timed : RemoteState → Bool
is_timed availability_command_received = true
is_timed throughput_command_received = true
is_timed end_mode_received = true
is_timed _ = false

abbrev pub is_active : RemoteState → Bool
is_active remote_availability_mode = true
is_active remote_throughput_mode = true
is_active _ = false

abbrev pub SoundAt : RemoteState → World → Type 0
SoundAt q = IsSound (value q) (is_timed q) (is_active q)

abbrev pub Sound : Machine → Type 0
Sound m = SoundAt m.current m.world

state_exit-IsLeft : (q : RemoteState) (w : World) → SoundAt q w → Holds IsLeft (exit q w)
unfolding exit
state_exit-IsLeft remote_idle w s = exit-IsLeft 0 w s
state_exit-IsLeft remote_availability_mode w s = activity_exit-IsLeft 3 w s
state_exit-IsLeft remote_throughput_mode w s = activity_exit-IsLeft 4 w s
state_exit-IsLeft availability_command_received w s = timer_exit-IsLeft 1 w s
state_exit-IsLeft throughput_command_received w s = timer_exit-IsLeft 2 w s
state_exit-IsLeft end_mode_received w s = timer_exit-IsLeft 5 w s

mode_entry-IsSound :
    (k : ℕ) (w : World)
    → IsLeft w
    → Holds (IsSound k false true) (
        if w.io_stream
        then activity_entry k (record w { factory = update w.factory k true })
        else fault)
mode_entry-IsSound k w l = when _ _ _ _ l.stream (
    activity_entry-IsSound k _ (with_factory-IsLeft k (update w.factory k true) w l) (ground arith))

acked_entry-IsSound :
    (k b : ℕ) (w : World)
    → IsLeft w
    → Holds (IsSound k true false) (send_byte b w >>= timer_entry k)
acked_entry-IsSound k b w l =
    >>=-Holds (IsOpening k) (IsSound k true false) _ _
      (send_byte-IsOpening k b w (IsLeft-IsOpening k w l)) (timer_entry-IsSound k)

state_entry-SoundAt : (q : RemoteState) (w : World) → IsLeft w → Holds (SoundAt q) (entry q w)
unfolding entry
state_entry-SoundAt remote_idle w l = entry-IsSound 0 w l
state_entry-SoundAt availability_command_received w l = acked_entry-IsSound 1 _ w l
state_entry-SoundAt throughput_command_received w l = acked_entry-IsSound 2 _ w l
state_entry-SoundAt remote_availability_mode w l = mode_entry-IsSound 3 w l
state_entry-SoundAt remote_throughput_mode w l = mode_entry-IsSound 4 w l
state_entry-SoundAt end_mode_received w l = acked_entry-IsSound 5 _ w l

abbrev pub go : RemoteState → Machine → Result Machine
go = plain.transit exit entry

pub transit-Sound : (q : RemoteState) (m : Machine) → Sound m → Holds Sound (go q m)
transit-Sound q m s =
    >>=-Holds IsLeft Sound (exit m.current m.world) _ (state_exit-IsLeft m.current m.world s)
      λ w l. >>=-Holds (SoundAt q) Sound (entry q w) _ (state_entry-SoundAt q w l) λ v t. t

react-Sound :
    (q : RemoteState) (e : Event) (w : World)
    → SoundAt q w
    → Holds Sound (react go q e (record { current = q; world = w }))
unfolding react
react-Sound q end_test w s = >>=-Holds (SoundAt q) Sound _ _ (send_byte-IsSound s _) λ v t. tt
react-Sound remote_idle availability_mode_command w s = transit-Sound _ _ s
react-Sound remote_idle throughput_mode_command w s = transit-Sound _ _ s
react-Sound remote_idle e w s = s
react-Sound availability_command_received master_ack w s = transit-Sound _ _ s
react-Sound availability_command_received timeout w s = transit-Sound _ _ s
react-Sound availability_command_received e w s = trace-IsSound s _
react-Sound throughput_command_received master_ack w s = transit-Sound _ _ s
react-Sound throughput_command_received timeout w s = transit-Sound _ _ s
react-Sound throughput_command_received e w s = s
react-Sound remote_availability_mode end_mode_command w s = transit-Sound _ _ s
react-Sound remote_availability_mode master_ack w s = transit-Sound _ _ s
react-Sound remote_availability_mode e w s = trace-IsSound s _
react-Sound remote_throughput_mode end_mode_command w s = transit-Sound _ _ s
react-Sound remote_throughput_mode master_ack w s = transit-Sound _ _ s
react-Sound remote_throughput_mode e w s = trace-IsSound s _
react-Sound end_mode_received end_mode_command w s = transit-Sound _ _ s
react-Sound end_mode_received timeout w s = transit-Sound _ _ s
react-Sound end_mode_received master_ack w s = transit-Sound _ _ s
react-Sound end_mode_received e w s = trace-IsSound s _

module _ (lib : TinyFsm RemoteState) where
  -- Every instance of the library dispatches as the plain one does.
  pub dispatch-plain : (e : Event) (m : Machine) → dispatch lib e m ≡ react go m.current e m
  unfolding dispatch
  dispatch-plain e m = rw (transit-eq lib, dispatch-eq lib)

  -- Dispatching any event in a sound machine does not fault, and leaves it sound if the process
  -- goes on.
  pub dispatch-Sound : (e : Event) (m : Machine) → Sound m → Holds Sound (dispatch lib e m)
  dispatch-Sound e m s = rw (dispatch-plain e m) (react-Sound m.current e m.world s)

  pub start-Sound : Holds Sound (start lib (set_io_stream initial))
  unfolding start set_io_stream
  start-Sound = rw (start-eq lib) (
      >>=-Holds (SoundAt remote_idle) Sound (entry remote_idle (set_io_stream initial))
        (λ v. ok (record { current = remote_idle; world = v }))
        (state_entry-SoundAt remote_idle (set_io_stream initial)
          (record { stream = refl; timers = λ j. refl; runnables = λ j. refl; reads = refl }))
        λ v t. t)

  -- From the start, whatever events are dispatched, reads complete and timers expire or are
  -- canceled, in any order and with any bytes and error codes, the remote never fails an assert nor
  -- follows a null pointer, and unless the process has ended: only the current state has a timer,
  -- and only a TimerBasedState; exactly the current ActivityState has a running activity; and at
  -- most one read is pending, the current state's.
  pub remote-run-Sound : (is : List Input) → Holds Sound (run lib is)
  unfolding run
  remote-run-Sound is = >>=-Holds Sound Sound (start lib _) _ start-Sound (
      run-Holds (dispatch lib) Sound dispatch-Sound (λ k rest m e s. drop_read-IsSound s k rest e)
        (λ k m s. drop_timer-IsSound s k) is)
