-- ===== src/Tests/Processes.antt =====
-- The processes of src/main.cpp at concrete inputs.
use mathlib.Core.List.Perm
use modem_tester.Common.{
  ℕ, ◌≡◌, ◌≢◌, refl, true, false, List, [], ◌∷◌, map, some, ◌<◌, ◌↔◌, inl, inr, arith, ◌==◌,
}
use modem_tester.Events.{decode}
use modem_tester.Fsm.World.{initial}
use modem_tester.Fsm.Library.{plain}
use modem_tester.Fsm.Run.{Input, read_done, timer_done}
use modem_tester.Remote as R
use modem_tester.Remote.Invariant as RI
use modem_tester.Main.{
  exits, io_run, main_remote, Work, timer_wait, other, IoService, run_boost_main_loop,
}
use modem_tester.Reports.{as_signed, negsuc, throughput_reporting_function}
use modem_tester.Reports.Exact.{exact, throughput_report-exact}
use modem_tester.Main.Status.{Succeeds, main_remote-Succeeds}
use modem_tester.Main.Noise.{remote-main-exits}
use modem_tester.Main.Join.{HasTimer, main-never_joins}

abbrev waiting_remote : R.Machine
waiting_remote = record {
  current = R.remote_idle;
  world = record initial { io_stream = true; reads = 0 ∷ [] };
}

waiting_remote-Sound : RI.Sound waiting_remote
waiting_remote-Sound = record {
  stream = refl;
  timers = λ j h. cc;
  runnables = λ j. ground arith;
  factories = λ j h. cc;
  reads = inr refl;
}

differs : (a b : ℕ) → (a == b) ≡ false → a ≢ b
differs a b h e = ground arith

remote-main-exits_example :
    io_run plain (read_done 0 (0 ∷ []) ∷ read_done 0 (241 ∷ []) ∷ []) waiting_remote ≡ exits 0
remote-main-exits_example =
    remote-main-exits plain 0 (read_done 0 (241 ∷ []) ∷ []) waiting_remote waiting_remote-Sound refl
      refl (differs 0 241 refl) (differs 0 242 refl) (differs 0 246 refl)

-- The mode is opened, the canceled read and wait complete, and the remote is told to end.
abbrev served : List Input
served =
    read_done 0 (241 ∷ [])
    ∷ read_done 125 []
    ∷ timer_done 1 125
    ∷ read_done 0 (245 ∷ [])
    ∷ read_done 0 (246 ∷ [])
    ∷ []

main_remote-Succeeds_example : Succeeds (main_remote plain served)
main_remote-Succeeds_example =
    main_remote-Succeeds plain served (inl refl, (inr refl, (tt, (inl refl, (inl refl, tt)))))

-- A remote that has just started, and the first byte of an availability test.
fresh_remote : main_remote plain (read_done 0 (0 ∷ []) ∷ []) ≡ exits 0
unfolding main_remote decode
fresh_remote = refl

-- EndTest, after the remote has been asked for the availability mode.
ended_remote :
    main_remote plain (read_done 0 (241 ∷ []) ∷ timer_done 1 0 ∷ read_done 0 (246 ∷ []) ∷ [])
    ≡ exits 0
unfolding main_remote decode
ended_remote = refl

-- A service that completes the operations in the order of the list.
in_order : IoService
in_order = record {
  completes = λ i w work. (w, work);
  completes_lem = λ i w work. Perm.refl (w ∷ work);
}

-- Every operation is started again by its handler.
abbrev reads_on : ℕ → List ℕ
reads_on n = n ∷ []

main-never_joins_example :
    (left : List Work) × (run_boost_main_loop in_order reads_on 1
        (([], 0, 0) ∷ (5 ∷ [], 2, 125) ∷ ([], 1, 0) ∷ [])
        (timer_wait ∷ map other (1 ∷ []))
      ≡ some left)
    × HasTimer left
main-never_joins_example =
    main-never_joins in_order reads_on (([], 0, 0) ∷ (5 ∷ [], 2, 125) ∷ ([], 1, 0) ∷ []) (1 ∷ [])

-- A test of 40 minutes: its microseconds do not fit, and the message has another number.
throughput_report-exact_example :
    (throughput_reporting_function {D = ℕ} true 2_000_000 2_400_000_000 []
      ≡ exact 2_000_000 2_400_000_000 ∷ [])
    ↔ ((2_000_000 < 2_147_483_648) × (2_400_000_000 < 2_147_483_648))
throughput_report-exact_example = throughput_report-exact true 2_000_000 2_400_000_000 []

negative_microseconds : as_signed 32 2_400_000_000 ≡ negsuc 1_894_967_295
unfolding as_signed
negative_microseconds = refl
