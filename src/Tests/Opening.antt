-- ===== src/Tests/Opening.antt =====
-- The two machines together (src/master/MasterFSM.cpp, src/remote/RemoteFSM.cpp), and the entry of a
-- mode (src/BaseFSM.h), at concrete inputs.
use modem_tester.Fsm.Run
use modem_tester.Fsm.Run.{read_done}
use modem_tester.Remote.Pinger.{serve}
use modem_tester.Common.{◌≡◌, refl, true, false, List, [], ◌∷◌, inl, inr, arith}
use modem_tester.Fsm.World.{initial, update, ok}
use modem_tester.Fsm.Library.{plain}
use modem_tester.Master as M
use modem_tester.Master.Invariant as MI
use modem_tester.Remote as R
use modem_tester.Remote.Invariant as RI
use modem_tester.Entry.{opening, Turn, activity_turn, machine_turn}
use modem_tester.Entry
use modem_tester.Entry.Race.{Outcome, entry-race, entry-loses_ping}
use modem_tester.Handshake.Loss.{
  Trouble, master_timeout, remote_timeout, request_arrives, Survives, handshake-Survives,
}
use modem_tester.Handshake.{availability, throughput, Opens, Ends, handshake-Opens, handshake-Ends}

-- Both machines idle, and both in the throughput mode.
abbrev idle_master : M.Machine
idle_master = record {
  current = M.idle;
  world = record initial { io_stream = true; reads = 0 ∷ [] };
}

idle_master-Sound : MI.Sound idle_master
idle_master-Sound = record {
  stream = refl;
  timers = λ j h. cc;
  runnables = λ j. ground arith;
  factories = λ j h. cc;
  reads = inr refl;
}

abbrev idle_remote : R.Machine
idle_remote = record {
  current = R.remote_idle;
  world = record initial { io_stream = true; reads = 0 ∷ [] };
}

idle_remote-Sound : RI.Sound idle_remote
idle_remote-Sound = record {
  stream = refl;
  timers = λ j h. cc;
  runnables = λ j. ground arith;
  factories = λ j h. cc;
  reads = inr refl;
}

abbrev testing_master : M.Machine
testing_master = record {
  current = M.throughput_mode;
  world = record initial {
    io_stream = true;
    runnable = update (λ k. false) 4 true;
    factory = update (λ k. false) 4 true;
  };
}

testing_master-Sound : MI.Sound testing_master
testing_master-Sound = record {
  stream = refl;
  timers = λ j h. cc;
  runnables = λ j. ground arith;
  factories = λ j h. ground arith;
  reads = inl refl;
}

abbrev testing_remote : R.Machine
testing_remote = record {
  current = R.remote_throughput_mode;
  world = record initial {
    io_stream = true;
    runnable = update (λ k. false) 4 true;
    factory = update (λ k. false) 4 true;
  };
}

testing_remote-Sound : RI.Sound testing_remote
testing_remote-Sound = record {
  stream = refl;
  timers = λ j h. cc;
  runnables = λ j. ground arith;
  factories = λ j h. ground arith;
  reads = inl refl;
}

handshake-Opens_example : Opens plain plain availability idle_master idle_remote
handshake-Opens_example =
    handshake-Opens plain plain availability idle_master idle_remote idle_master-Sound
      idle_remote-Sound refl refl refl

handshake-Ends_example : Ends plain plain throughput testing_master testing_remote
handshake-Ends_example =
    handshake-Ends plain plain throughput testing_master testing_remote testing_master-Sound
      testing_remote-Sound refl refl

-- The first request is lost, the second is heard, and the third comes while the remote waits.
abbrev troubles : List Trouble
troubles =
    master_timeout ∷ request_arrives ∷ remote_timeout ∷ master_timeout ∷ request_arrives
    ∷ remote_timeout ∷ []

handshake-Survives_example : Survives plain plain availability troubles idle_master idle_remote
handshake-Survives_example =
    handshake-Survives plain plain availability troubles idle_master idle_remote idle_master-Sound
      idle_remote-Sound refl refl refl

-- The thread of the activity is started first.
abbrev cancel_then_read : List Turn
cancel_then_read = machine_turn ∷ activity_turn ∷ []

entry-race_example : Outcome activity_turn (Entry.run (activity_turn ∷ cancel_then_read) opening)
unfolding Entry.run
entry-race_example = entry-race activity_turn cancel_then_read (refl, refl)

abbrev in_availability_mode : R.Machine
in_availability_mode = record {
  current = R.remote_availability_mode;
  world = record initial {
    io_stream = true;
    runnable = update (λ k. false) 3 true;
    factory = update (λ k. false) 3 true;
    reads = 3 ∷ [];
  };
}

entry-loses_ping_example :
    (Run.input (R.dispatch plain) (read_done 0 (7 ∷ [])) in_availability_mode
      ≡ ok (record in_availability_mode {
        world = record in_availability_mode.world { reads = [] };
      }))
    × (serve (7 ∷ []) ≡ 7 ∷ [])
entry-loses_ping_example = entry-loses_ping plain 7 in_availability_mode refl (omega arith)
