-- ===== src/Tests/Series.antt =====
-- A series of tests (src/master, src/remote) at concrete inputs.
use modem_tester.Common.{some, ◌*◌, ℕ, ◌+◌, ◌-◌, refl, true, List, [], ◌∷◌, inl, inr, arith, All}
use modem_tester.SortedMap.{last}
use modem_tester.Wire.Hosts.{network, intel}
use modem_tester.Fsm.World.{initial}
use modem_tester.Fsm.Library.{plain}
use modem_tester.Master as M
use modem_tester.Master.Pinger.{Doubles}
use modem_tester.Master.Throughput.{send_buf}
use modem_tester.Remote as R
use modem_tester.Session.{contents, buffers}
use modem_tester.Series.{Visit, pings, transfer, Possible, Rests, Serves, series-Serves}

abbrev clock : Doubles ℕ
clock = record {
  zero = 0;
  plus = λ a b. a + b;
  elapsed = λ later earlier. later - earlier;
  over = λ total count. total;
  micros = λ d. some (1_000_000 * d);
}

abbrev waited : ℕ → ℕ → ℕ
waited later earlier = later - earlier

abbrev resting_master : M.Machine
resting_master = record { current = M.idle; world = record initial { io_stream = true } }

abbrev resting_remote : R.Machine
resting_remote = record {
  current = R.remote_idle;
  world = record initial { io_stream = true; reads = 0 ∷ [] };
}

at_rest : Rests resting_master resting_remote
at_rest = record {
  master_sound = record {
    stream = refl;
    timers = λ j h. cc;
    runnables = λ j. ground arith;
    factories = λ j h. cc;
    reads = inl refl;
  };
  remote_sound = record {
    stream = refl;
    timers = λ j h. cc;
    runnables = λ j. ground arith;
    factories = λ j h. cc;
    reads = inr refl;
  };
  master_idle = refl;
  remote_idle = refl;
  reads = refl;
}

-- Two pings, a transfer read in two parts, and one more ping.
abbrev visits : List Visit
visits =
    pings ((10, 12) ∷ (20, 25) ∷ [])
    ∷ transfer ((5, buffers 4) ∷ (9, buffers 6) ∷ []) 9 1440 12
    ∷ pings ((40, 41) ∷ [])
    ∷ []

visits-Possible : All (Possible clock intel network waited) visits
unfolding contents buffers last send_buf
visits-Possible =
    ((omega arith), ((refl, (ground arith), refl, (omega arith)), ((omega arith), tt)))

series-Serves_example :
    Serves clock intel network waited plain plain visits resting_master resting_remote
series-Serves_example =
    series-Serves clock intel network waited plain plain visits resting_master resting_remote
      visits-Possible at_rest
