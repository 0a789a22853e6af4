-- ===== src/Series.antt =====
-- Tests one after another: the two machines open a mode (src/master/MasterFSM.cpp,
-- src/remote/RemoteFSM.cpp), their activities test the line (src/master/MasterPinger.cpp,
-- src/master/MasterThroughput.cpp and their ends in src/remote), and the mode ends.
use modem_tester.Common.{ℕ, ◌<◌, ◌≡◌, refl, List, [], ◌∷◌, Option, some, arith, length, All}
use modem_tester.Events.{end_mode_command}
use modem_tester.SortedMap.{last, Above}
use modem_tester.Wire.{Host, u32_mod}
use modem_tester.Activities.{
  Activity, master_pinger, master_throughput, remote_pinger, remote_throughput, master_runs,
  remote_runs,
}
use modem_tester.Fsm.Library.{TinyFsm}
use modem_tester.Master as M
use modem_tester.Master.Invariant as MI
use modem_tester.Master.Pinger.{Doubles, u64_mod, create}
use modem_tester.Remote as R
use modem_tester.Remote.Invariant as RI
use modem_tester.Remote.Pinger as RP
use modem_tester.Remote.Throughput as RT
use modem_tester.Remote.Throughput.Results.{sizes}
use modem_tester.Handshake.{
  Mode, master_mode, remote_mode, availability, throughput, Opens, Ends, handshake-Opens,
  handshake-Ends,
}
use modem_tester.Ping.{IsQuiet, session, ping-session}
use modem_tester.Session.{contents, buffers, Reports, throughput-session}

-- One test: pings with the times at which they are sent and come back; or buffers that the remote
-- reads in chunks, the last at the time t and of n bytes, before it reads the request.
pub data Visit : Type 0 where
  pings : List (ℕ × ℕ) → Visit
  transfer : (chunks : List (ℕ × List ℕ)) (t n later : ℕ) → Visit

abbrev pub mode_of : Visit → Mode
mode_of (pings times) = availability
mode_of (transfer chunks t n later) = throughput

-- The activities of a mode.
abbrev tester : Mode → Option Activity
tester availability = some master_pinger
tester throughput = some master_throughput

abbrev server : Mode → Option Activity
server availability = some remote_pinger
server throughput = some remote_throughput

-- A sound machine that is in a mode runs its activity.
master-runs :
    (mode : Mode) (m : M.Machine)
    → m.current ≡ master_mode mode
    → MI.Sound m
    → master_runs m ≡ tester mode
unfolding master_runs
master-runs availability m c s = ground (arith, c, s.runnables 3)
master-runs throughput m c s = ground (arith, c, s.runnables 4)

remote-runs :
    (mode : Mode) (r : R.Machine)
    → r.current ≡ remote_mode mode
    → RI.Sound r
    → remote_runs r ≡ server mode
unfolding remote_runs
remote-runs availability r c s = ground (arith, c, s.runnables 3)
remote-runs throughput r c s = ground (arith, c, s.runnables 4)

-- Both machines are sound and idle, and the remote reads.
pub record Rests (m : M.Machine) (r : R.Machine) : Type 0 where
  pub master_sound : MI.Sound m
  pub remote_sound : RI.Sound r
  pub master_idle : m.current ≡ M.idle
  pub remote_idle : r.current ≡ R.remote_idle
  pub reads : r.world.reads ≡ 0 ∷ []

module _ {D : Type 0} (fl : Doubles D) (master remote : Host) (microseconds : ℕ → ℕ → ℕ) where
  -- Fewer than 2^64 pings; or the buffers of a test at times that rise.
  abbrev pub Possible : Visit → Type 0
  Possible (pings times) = length times < u64_mod
  Possible (transfer chunks t n later) =
      (contents chunks ≡ buffers 10)
      × Above 0 (sizes chunks)
      × (last (sizes chunks) ≡ some (t, n))
      × (microseconds t (RT.first_time (sizes chunks) t) < u32_mod)

  -- What a test comes to between the activities that run at the master and at the remote. Between
  -- the two pingers all pings come back, and the remote's then dispatches EndModeCommand when it reads
  -- that byte; between the two of the throughput test the report is of all bytes but those of the
  -- last read. Between any others there is no such test.
  abbrev pub Tested : Visit → Option Activity → Option Activity → Type 0
  Tested (pings times) (some master_pinger) (some remote_pinger) =
      IsQuiet fl (length times) (session fl times (create fl))
      × ((RP.handle_receive 0 (243 ∷ [])).ends ≡ RP.dispatch end_mode_command)
  Tested (transfer chunks t n later) (some master_throughput) (some remote_throughput) =
      Reports master remote microseconds chunks later n
        (microseconds t (RT.first_time (sizes chunks) t))
  Tested v a b = ⊥

  visit-Tested : (v : Visit) → Possible v → Tested v (tester (mode_of v)) (server (mode_of v))
  unfolding RP.handle_receive
  visit-Tested (pings times) p = (ping-session fl times p, refl)
  visit-Tested (transfer chunks t n later) (c, a, l, lt) =
      throughput-session master remote microseconds chunks t n later c a l lt

  module _ (lm : TinyFsm M.MasterState) (lr : TinyFsm R.RemoteState) where
    -- Each test opens its mode, tests the line and ends its mode, from where the one before ended.
    abbrev pub Serves : List Visit → M.Machine → R.Machine → Type 0
    Serves [] m r = Rests m r
    Serves (v ∷ vs) m r =
        (opened : Opens lm lr (mode_of v) m r) × Tested v (master_runs opened.2)
          (remote_runs opened.3)
        × (ended : Ends lm lr (mode_of v) opened.2 opened.3) × Serves vs ended.2 ended.3

    -- From rest, any series of possible tests is served: each command opens its mode, the activities
    -- that then run at both ends are those of the test, which gives the right result between them, and
    -- the mode ends with both machines at rest again, ready for the next.
    -- Each test has the line to itself: its bytes are read by the activities, and those of the
    -- machines by the machines.
    pub series-Serves :
        (vs : List Visit) (m : M.Machine) (r : R.Machine)
        → All Possible vs
        → Rests m r
        → Serves vs m r
    series-Serves [] m r p s = s
    series-Serves (v ∷ vs) m r p s =
        let opened =
          handshake-Opens lm lr (mode_of v) m r s.master_sound s.remote_sound s.master_idle
            s.remote_idle s.reads in
        let ended =
          handshake-Ends lm lr (mode_of v) opened.2 opened.3 opened.14 opened.15 opened.12
            opened.13 in
        let rests : Rests ended.2 ended.3 = record {
          master_sound = ended.14;
          remote_sound = ended.15;
          master_idle = ended.12;
          remote_idle = ended.13;
          reads = ended.17;
        } in
        let tested : Tested v (master_runs opened.2) (remote_runs opened.3) =
          rw
            (
              master-runs (mode_of v) opened.2 opened.12 opened.14,
              remote-runs (mode_of v) opened.3 opened.13 opened.15,
            )
            (visit-Tested v p.0) in
        (opened, tested, ended, series-Serves vs ended.2 ended.3 p.1 rests)
