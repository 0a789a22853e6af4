-- ===== src/Master/Controller.antt =====
-- src/master/MasterController.h and src/master/MasterController.cpp: the controller that looks at
-- the master's state whenever its timer expires and dispatches events through the pool.
pub mod Cycle
pub mod Drives
use modem_tester.Common.{
  ℕ, if◌then◌else◌, Bool, true, false, not, List, [], ◌∷◌, Option, none, some,
}
use modem_tester.Events.{
  Event, availability_mode_command, throughput_mode_command, end_mode_command, end_test,
}
use modem_tester.Master.{MasterState, idle, availability_mode}

pub record Controller : Type 0 where
  pub remote_reachable : Bool
  -- _tryingAvalability
  pub trying_availability : Bool
  -- the seconds that _timer was last set to; none before the first time
  pub timer : Option ℕ
  -- the events handed to the pool, newest first
  pub dispatched : List Event

-- the constructor
unfoldable pub create : Controller
create = record {
  remote_reachable = false;
  trying_availability = false;
  timer = none;
  dispatched = [];
}

unfoldable pub start : Controller → Controller
start c = record c { timer = some 1 }

unfoldable pub stop : Controller → Controller
stop c = record c { dispatched = end_test ∷ c.dispatched }

-- setRemoteReachability
unfoldable pub set_remote_reachability : Bool → Controller → Controller
set_remote_reachability b c = record c { remote_reachable = b }

post : Event → Controller → Controller
post e c = record c { dispatched = e ∷ c.dispatched }

-- the case Idle_id, which first sets _remoteReachable to false
try_availability : Controller → Controller
unfolding post
try_availability c =
    if not c.trying_availability
    then post availability_mode_command (record c { trying_availability = true })
    else c

in_idle : Controller → Controller
unfolding try_availability post
in_idle c =
    let c' = record c { remote_reachable = false } in
    if not c'.remote_reachable
    then record (try_availability c') { timer = some 1 }
    else record (post throughput_mode_command c') { timer = some 1; remote_reachable = false }

-- the case AvailabilityMode_id
in_availability_mode : Controller → Controller
unfolding post
in_availability_mode c =
    if c.trying_availability
    then record c { trying_availability = false; timer = some 60 }
    else record (post end_mode_command c) { timer = some 1 }

-- periodicAction in a state of the master; the error code is not looked at
unfoldable pub periodic_action : MasterState → Controller → Controller
unfolding in_idle in_availability_mode
periodic_action idle c = in_idle c
periodic_action availability_mode c = in_availability_mode c
periodic_action _ c = record c { timer = some 1 }

pub data Call : Type 0 where
  expires : MasterState → Call
  reachability : Bool → Call

unfoldable pub run : List Call → Controller → Controller
unfolding periodic_action set_remote_reachability
run [] c = c
run (expires q ∷ calls) c = run calls (periodic_action q c)
run (reachability b ∷ calls) c = run calls (set_remote_reachability b c)
