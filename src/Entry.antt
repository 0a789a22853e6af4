-- ===== src/Entry.antt =====
-- The entry of a mode: ActivityState::entry of src/BaseFSM.h starts the thread of the activity and then
-- starts a read for the machine, while the thread, in operator() of each activity (such as
-- src/remote/RemotePinger.cpp), cancels the reads of the same stream and starts its own.
pub mod Race
use modem_tester.Common.{List, [], ◌∷◌}

-- The handlers that a byte may be given to.
pub data Reader : Type 0 where
  machine activity : Reader

pub data Call : Type 0 where
  cancel : Call
  async_read_some : Reader → Call

-- `_ioStream->cancel (); … _ioStream->async_read_some (…)` of the activity's thread
abbrev pub activity_calls : List Call
activity_calls = cancel ∷ async_read_some activity ∷ []

-- what ActivityState::entry calls on the stream after `_runnable->start ()`
abbrev pub machine_calls : List Call
machine_calls = async_read_some machine ∷ []

-- The calls that each thread has still to make, and the reads that are pending, newest first.
pub record Opening : Type 0 where
  pub activity_left : List Call
  pub machine_left : List Call
  pub pending : List Reader

-- After the exit of the state before, no read is pending.
abbrev pub opening : Opening
opening = record { activity_left = activity_calls; machine_left = machine_calls; pending = [] }

unfoldable pub perform : Call → List Reader → List Reader
perform cancel pending = []
perform (async_read_some r) pending = r ∷ pending

pub data Turn : Type 0 where
  activity_turn machine_turn : Turn

-- The next call of a thread, if it has one left.
abbrev activity_step : List Call → Opening → Opening
activity_step [] s = s
activity_step (c ∷ cs) s = record s { activity_left = cs; pending = perform c s.pending }

abbrev machine_step : List Call → Opening → Opening
machine_step [] s = s
machine_step (c ∷ cs) s = record s { machine_left = cs; pending = perform c s.pending }

unfoldable pub turn : Turn → Opening → Opening
unfolding perform
turn activity_turn s = activity_step s.activity_left s
turn machine_turn s = machine_step s.machine_left s

unfoldable pub run : List Turn → Opening → Opening
unfolding turn
run [] s = s
run (t ∷ ts) s = run ts (turn t s)
