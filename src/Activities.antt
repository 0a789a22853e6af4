-- ===== src/Activities.antt =====
-- Which activity runs in a state of either machine: the factories that the states of
-- src/master/MasterFSM.h and src/remote/RemoteFSM.h name, and getRunnable of src/BaseFSM.h.
use modem_tester.Common.{if◌then◌else◌, Option, none, some}
use modem_tester.Master as M
use modem_tester.Remote as R

-- The classes of the activities.
pub data Activity : Type 0 where
  master_pinger master_throughput remote_pinger remote_throughput : Activity

-- What the factory makes that is the second argument of ActivityState, in the classes of the states;
-- none for a state that is no ActivityState
unfoldable pub master_factory : M.MasterState → Option Activity
master_factory M.availability_mode = some master_pinger
master_factory M.throughput_mode = some master_throughput
master_factory _ = none

unfoldable pub remote_factory : R.RemoteState → Option Activity
remote_factory R.remote_availability_mode = some remote_pinger
remote_factory R.remote_throughput_mode = some remote_throughput
remote_factory _ = none

-- getRunnable of the current state: what `entry` made and started, and `exit` has not deleted
unfoldable pub master_runs : M.Machine → Option Activity
unfolding master_factory
master_runs m = if m.world.runnable (M.value m.current) then master_factory m.current else none

unfoldable pub remote_runs : R.Machine → Option Activity
unfolding remote_factory
remote_runs r = if r.world.runnable (R.value r.current) then remote_factory r.current else none
