-- ===== src/Master/Invariant.antt =====
-- What holds of the pointers of the master's state objects (src/master/MasterFSM.cpp over
-- src/BaseFSM.h) between two inputs.
use modem_tester.Common.{
  ℕ, ◌≡◌, refl, Bool, true, false, if◌then◌else◌, inl, inr, List, arith, Bool-cases,
}
use modem_tester.Events.{
  Event, availability_mode_command, throughput_mode_command, end_mode_command, remote_ack, timeout,
  end_test, master_ack_id, to_byte,
}
use modem_tester.Fsm.World.{World, Holds, initial, Result, ok, fault, >>=-Holds, ◌>>=◌}
use modem_tester.Fsm.Library.{TinyFsm, plain, transit-eq, dispatch-eq, start-eq}
use modem_tester.Fsm.Run.{Input, run-Holds}
use modem_tester.Fsm.Base.{set_io_stream, send_byte, activity_entry}
use modem_tester.Fsm.Sound.{
  IsSound, IsOpening, IsLeft, when, IsLeft-IsOpening, send_byte-IsOpening, send_byte-IsSound,
  start_timer-IsOpening, entry-IsSound, timer_entry-IsSound, activity_entry-IsSound, exit-IsLeft,
  timer_exit-IsLeft, activity_exit-IsLeft, drop_read-IsSound, drop_timer-IsSound, trace-IsSound,
  send_byte-IsLeft, with_factory-IsLeft,
}
use modem_tester.Master.{
  MasterState, Machine, value, idle, sent_available_mode_command, sent_throughput_mode_command,
  availability_mode, throughput_mode, wait_ack_after_end_mode, make_factory, entry, exit, react,
  dispatch, start, run,
}

-- The states of class TimerBasedState, and those of class ActivityState.
abbrev pub is_timed : MasterState → Bool
is_timed idle = false
is_timed availability_mode = false
is_timed throughput_mode = false
is_timed _ = true

abbrev pub is_active : MasterState → Bool
is_active availability_mode = true
is_active throughput_mode = true
is_active _ = false

abbrev pub SoundAt : MasterState → World → Type 0
SoundAt q = IsSound (value q) (is_timed q) (is_active q)

abbrev pub Sound : Machine → Type 0
Sound m = SoundAt m.current m.world

state_exit-IsLeft : (q : MasterState) (w : World) → SoundAt q w → Holds IsLeft (exit q w)
unfolding exit
state_exit-IsLeft idle w s = exit-IsLeft 0 w s
state_exit-IsLeft availability_mode w s = activity_exit-IsLeft 3 w s
state_exit-IsLeft throughput_mode w s = activity_exit-IsLeft 4 w s
state_exit-IsLeft sent_available_mode_command w s = timer_exit-IsLeft 1 w s
state_exit-IsLeft sent_throughput_mode_command w s = timer_exit-IsLeft 2 w s
state_exit-IsLeft wait_ack_after_end_mode w s = timer_exit-IsLeft 5 w s

make_factory-IsLeft :
    (k : ℕ) (w : World)
    → IsLeft w
    → IsLeft (make_factory k w) × ((make_factory k w).factory k ≡ true)
unfolding make_factory
make_factory-IsLeft k w l = elim (Bool-cases (w.factory k)) [
  | inl e ↦ rw e (l, e)
  | inr e ↦ rw e (with_factory-IsLeft k _ w l, ground arith)
]

mode_entry-IsSound :
    (k : ℕ) (w : World)
    → IsLeft w
    → Holds
        (IsSound k false true)
        (if w.io_stream then activity_entry k (make_factory k w) else fault)
mode_entry-IsSound k w l =
    let (left, made) = make_factory-IsLeft k w l in
    when _ _ _ _ l.stream (activity_entry-IsSound k _ left made)

state_entry-SoundAt : (q : MasterState) (w : World) → IsLeft w → Holds (SoundAt q) (entry q w)
unfolding entry
state_entry-SoundAt idle w l = entry-IsSound 0 w l
state_entry-SoundAt sent_available_mode_command w l =
    >>=-Holds (IsOpening 1) (IsSound 1 true false) _ _
      (send_byte-IsOpening 1 _ w (IsLeft-IsOpening 1 w l))
      λ a o.
        >>=-Holds (IsOpening 1) (IsSound 1 true false) _ _ (start_timer-IsOpening 1 _ a o)
          (timer_entry-IsSound 1)
state_entry-SoundAt sent_throughput_mode_command w l =
    >>=-Holds (IsOpening 2) (IsSound 2 true false) _ _
      (start_timer-IsOpening 2 _ w (IsLeft-IsOpening 2 w l))
      λ a o.
        >>=-Holds (IsOpening 2) (IsSound 2 true false) _ _ (send_byte-IsOpening 2 _ a o)
          (timer_entry-IsSound 2)
state_entry-SoundAt availability_mode w l =
    >>=-Holds IsLeft (IsSound 3 false true) _ _ (send_byte-IsLeft 3 _ w l) (mode_entry-IsSound 3)
state_entry-SoundAt throughput_mode w l =
    >>=-Holds IsLeft (IsSound 4 false true) _ _ (send_byte-IsLeft 4 _ w l) (mode_entry-IsSound 4)
state_entry-SoundAt wait_ack_after_end_mode w l =
    >>=-Holds (IsOpening 5) (IsSound 5 true false) _ _
      (send_byte-IsOpening 5 _ w (IsLeft-IsOpening 5 w l)) (timer_entry-IsSound 5)

abbrev pub go : MasterState → Machine → Result Machine
go = plain.transit exit entry

transit-Sound : (q : MasterState) (m : Machine) → Sound m → Holds Sound (go q m)
transit-Sound q m s =
    >>=-Holds IsLeft Sound (exit m.current m.world) _ (state_exit-IsLeft m.current m.world s)
      λ w l. >>=-Holds (SoundAt q) Sound (entry q w) _ (state_entry-SoundAt q w l) λ v t. t

acked-Sound :
    (q : MasterState) (w : World)
    → SoundAt q w
    → Holds Sound
        (send_byte (to_byte master_ack_id) w >>= λ v. go idle (record { current = q; world = v }))
acked-Sound q w s =
    >>=-Holds (SoundAt q) Sound _ _ (send_byte-IsSound s _)
      λ v t. transit-Sound idle (record { current = q; world = v }) t

react-Sound :
    (q : MasterState) (e : Event) (w : World)
    → SoundAt q w
    → Holds Sound (react go q e (record { current = q; world = w }))
unfolding react
react-Sound q end_test w s = >>=-Holds (SoundAt q) Sound _ _ (send_byte-IsSound s _) λ v t. tt
react-Sound idle availability_mode_command w s = transit-Sound _ _ s
react-Sound idle throughput_mode_command w s = transit-Sound _ _ s
react-Sound idle remote_ack w s = acked-Sound idle w s
react-Sound idle e w s = s
react-Sound sent_available_mode_command timeout w s = transit-Sound _ _ s
react-Sound sent_available_mode_command remote_ack w s = transit-Sound _ _ s
react-Sound sent_available_mode_command e w s = trace-IsSound s _
react-Sound sent_throughput_mode_command timeout w s = transit-Sound _ _ s
react-Sound sent_throughput_mode_command remote_ack w s = transit-Sound _ _ s
react-Sound sent_throughput_mode_command e w s = trace-IsSound s _
react-Sound availability_mode end_mode_command w s = transit-Sound _ _ s
react-Sound availability_mode remote_ack w s = transit-Sound _ _ s
react-Sound availability_mode e w s = trace-IsSound s _
react-Sound throughput_mode end_mode_command w s = transit-Sound _ _ s
react-Sound throughput_mode remote_ack w s = transit-Sound _ _ s
react-Sound throughput_mode e w s = trace-IsSound s _
react-Sound wait_ack_after_end_mode remote_ack w s = acked-Sound wait_ack_after_end_mode w s
react-Sound wait_ack_after_end_mode timeout w s = transit-Sound _ _ s
react-Sound wait_ack_after_end_mode e w s = trace-IsSound s _

module _ (lib : TinyFsm MasterState) where
  -- Every instance of the library dispatches as the plain one does.
  pub dispatch-plain : (e : Event) (m : Machine) → dispatch lib e m ≡ react go m.current e m
  unfolding dispatch
  dispatch-plain e m = rw (transit-eq lib, dispatch-eq lib)

  -- Dispatching any event in a sound machine does not fault, and leaves it sound if the process
  -- goes on.
  pub dispatch-Sound : (e : Event) (m : Machine) → Sound m → Holds Sound (dispatch lib e m)
  dispatch-Sound e m s = rw (dispatch-plain e m) (react-Sound m.current e m.world s)

  start-Sound : Holds Sound (start lib (set_io_stream initial))
  unfolding start set_io_stream
  start-Sound = rw (start-eq lib) (
      >>=-Holds (SoundAt idle) Sound (entry idle (set_io_stream initial))
        (λ v. ok (record { current = idle; world = v }))
        (state_entry-SoundAt idle (set_io_stream initial)
          (record { stream = refl; timers = λ j. refl; runnables = λ j. refl; reads = refl }))
        λ v t. t)

  -- From the start, whatever events are dispatched, reads complete and timers expire or are
  -- canceled, in any order and with any bytes and error codes, the master never fails an assert nor
  -- follows a null pointer, and unless the process has ended: only the current state has a timer,
  -- and only a TimerBasedState; exactly the current ActivityState has a running activity; and at
  -- most one read is pending, the current state's.
  pub master-run-Sound : (is : List Input) → Holds Sound (run lib is)
  unfolding run
  master-run-Sound is = >>=-Holds Sound Sound (start lib _) _ start-Sound (
      run-Holds (dispatch lib) Sound dispatch-Sound (λ k rest m e s. drop_read-IsSound s k rest e)
        (λ k m s. drop_timer-IsSound s k) is)
