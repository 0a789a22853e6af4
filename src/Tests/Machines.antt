-- ===== src/Tests/Machines.antt =====
-- The state machines of src/master/MasterFSM.cpp and src/remote/RemoteFSM.cpp, over the plain
-- instance of the library, at concrete inputs.
use modem_tester.Common.{ℕ, ◌≡◌, ◌≢◌, refl, true, false, List, [], ◌∷◌, inr, arith, ◌==◌}
use modem_tester.Events.{availability_mode_command, remote_ack, end_test}
use modem_tester.Fsm.World.{initial, ok, update, Holds, Returns}
use modem_tester.Fsm.Library.{plain}
use modem_tester.Fsm.Run.{Input, post, read_done, timer_done}
use modem_tester.Fsm.Run
use modem_tester.Master as Master
use modem_tester.Master.Invariant as MasterInvariant
use modem_tester.Master.Invariant.{master-run-Sound}
use modem_tester.Master.Protocol as MasterProtocol
use modem_tester.Master.Protocol.{master-dispatch-Follows, master-dispatch-end_test}
use modem_tester.Remote as Remote
use modem_tester.Remote.Invariant as RemoteInvariant
use modem_tester.Remote.Invariant.{remote-run-Sound}
use modem_tester.Remote.Protocol as RemoteProtocol
use modem_tester.Remote.Protocol.{remote-dispatch-Follows, remote-dispatch-end_test}
use modem_tester.Remote.Silence.{repeated_end_mode_loses_timer, reentered}

-- A command of a script, an answer of the remote, and the completion of the canceled wait.
abbrev master_inputs : List Input
master_inputs = post availability_mode_command ∷ read_done 0 (244 ∷ []) ∷ timer_done 1 125 ∷ []

abbrev remote_inputs : List Input
remote_inputs = read_done 0 (241 ∷ []) ∷ timer_done 1 0 ∷ read_done 0 (245 ∷ []) ∷ []

-- The master that waits for RemoteAck.
abbrev waiting_master : Master.Machine
waiting_master = record {
  current = Master.sent_available_mode_command;
  world = record initial { io_stream = true; timer = update (λ k. false) 1 true; reads = 1 ∷ [] };
}

waiting_master-Sound : MasterInvariant.Sound waiting_master
waiting_master-Sound = record {
  stream = refl;
  timers = λ j h. ground arith;
  runnables = λ j. ground arith;
  factories = λ j h. cc;
  reads = inr refl;
}

-- The remote that waits for a command, and the remote that waits for MasterAck at the end of a mode.
abbrev idle_remote : Remote.Machine
idle_remote = record {
  current = Remote.remote_idle;
  world = record initial { io_stream = true; reads = 0 ∷ [] };
}

idle_remote-Sound : RemoteInvariant.Sound idle_remote
idle_remote-Sound = record {
  stream = refl;
  timers = λ j h. cc;
  runnables = λ j. ground arith;
  factories = λ j h. cc;
  reads = inr refl;
}

abbrev ending_remote : Remote.Machine
ending_remote = record {
  current = Remote.end_mode_received;
  world = record initial { io_stream = true; timer = update (λ k. false) 5 true; reads = 5 ∷ [] };
}

ending_remote-Sound : RemoteInvariant.Sound ending_remote
ending_remote-Sound = record {
  stream = refl;
  timers = λ j h. ground arith;
  runnables = λ j. ground arith;
  factories = λ j h. cc;
  reads = inr refl;
}

remote_ack-goes_on : remote_ack ≢ end_test
remote_ack-goes_on h = cc

command-goes_on : availability_mode_command ≢ end_test
command-goes_on h = cc

apart : (a b : ℕ) → (a == b) ≡ false → a ≢ b
apart a b h e = ground arith

master-run-Sound_example : Holds MasterInvariant.Sound (Master.run plain master_inputs)
master-run-Sound_example = master-run-Sound plain master_inputs

master-dispatch-Follows_example :
    Returns
      (MasterProtocol.Follows Master.sent_available_mode_command remote_ack waiting_master.world)
      (Master.dispatch plain remote_ack waiting_master)
master-dispatch-Follows_example =
    master-dispatch-Follows plain remote_ack waiting_master waiting_master-Sound remote_ack-goes_on

remote-run-Sound_example : Holds RemoteInvariant.Sound (Remote.run plain remote_inputs)
remote-run-Sound_example = remote-run-Sound plain remote_inputs

remote-dispatch-Follows_example :
    Returns
      (RemoteProtocol.Follows Remote.remote_idle availability_mode_command idle_remote.world)
      (Remote.dispatch plain availability_mode_command idle_remote)
remote-dispatch-Follows_example =
    remote-dispatch-Follows plain availability_mode_command idle_remote idle_remote-Sound
      command-goes_on

repeated_end_mode_loses_timer_example :
    (Run.run (Remote.dispatch plain) (read_done 0 (243 ∷ []) ∷ []) ending_remote
      ≡ ok (reentered ending_remote))
    × ((reentered ending_remote).world.timer 5 ≡ true)
    × (n : Remote.Machine) × (Run.run
          (Remote.dispatch plain)
          (timer_done 5 125 ∷ [])
          (reentered ending_remote)
        ≡ ok n)
    × (n.current ≡ Remote.end_mode_received)
    × ((k : ℕ) → n.world.timer k ≡ false)
    × (n.world.trace ≡ (reentered ending_remote).world.trace)
repeated_end_mode_loses_timer_example =
    repeated_end_mode_loses_timer plain 125 ending_remote ending_remote-Sound refl refl refl
      (apart 125 0 refl)
