-- ===== src/Tests/Line.antt =====
-- The throughput test, its results on the line and the remote's activities (src/master/
-- MasterThroughput.cpp, src/remote) at concrete inputs.
use modem_tester.Common.{
  ℕ, ◌-◌, ◌≡◌, ◌≢◌, ◌↔◌, refl, true, false, List, [], ◌∷◌, ◌++◌, arith, some, none, All, replicate,
}
use modem_tester.SortedMap.{last}
use modem_tester.Wire.{encode, decode, u32}
use modem_tester.Wire.Hosts.{network, intel, swap}
use modem_tester.Wire.Results.{wire-decode-encode}
use modem_tester.TimerPtr.{live, wild}
use modem_tester.Master.Throughput as Tests
use modem_tester.Master.Throughput.{
  Tester, Move, goes_on, reads, times_out, stops, polling, results,
}
use modem_tester.Master.Throughput.Results.{IsComplete, IsSent, master-throughput-honest}
use modem_tester.Master.Throughput.{sending, commands, report_falls_due, timing, send_buf}
use modem_tester.Master.Throughput.Early.{master-throughput-early_results}
use modem_tester.Master.Throughput.Blocked.{Ensures, IsHung, master-throughput-report_hangs}
use modem_tester.Remote.Throughput as Counts
use modem_tester.Remote.Throughput.{Throughput, Then, rearm}
use modem_tester.Remote.Throughput.Sizes.{sum_but_last}
use modem_tester.Session.{contents, buffers, Reports, throughput-session}
use modem_tester.Remote.Throughput.Results.{
  sizes, remote-throughput-reports, remote-throughput-early_request, remote-throughput-never_faults,
}

wire-decode-encode_example : decode intel (encode network 2_400 1_000_000) ≡ some (2_400, 1_000_000)
wire-decode-encode_example =
    wire-decode-encode network intel 2_400 1_000_000 (omega arith) (omega arith)

-- The whole test: 16 statements, the request and its timer, a timeout, the results, and the end.
abbrev whole_test : List Move
whole_test =
    replicate 17 goes_on
    ++ times_out 0
      ∷ reads 0 (0 ∷ 0 ∷ 9 ∷ 96 ∷ 0 ∷ 15 ∷ 66 ∷ 64 ∷ [])
      ∷ goes_on
      ∷ goes_on
      ∷ goes_on
      ∷ goes_on
      ∷ []

-- While it waits for results.
abbrev waiting : Tester
waiting = record {
  activity = record { timer = live; period = 0; reported = 0 };
  got_results = false;
  results_ready = false;
  total_received = none;
  total_usec = none;
  results_timer = live;
  io_blocked = false;
  stop_requested = false;
  phase = polling;
  reading = results;
  output = [];
  reports = [];
  dispatched = [];
}

unfoldable tested : Tester
unfolding Tests.run Tests.create
tested = elim (Tests.run intel whole_test (Tests.create 0)) [ none ↦ waiting | some s ↦ s ]

runs : Tests.run intel whole_test (Tests.create 0) ≡ some tested
unfolding tested decode
runs = refl

reported :
    tested.reports ≡ record { valid = true; received = some 2_400; usec = some 1_000_000 } ∷ []
unfolding tested decode swap
reported = refl

master-throughput-honest_example : All IsComplete tested.reports × All IsSent tested.output
master-throughput-honest_example = master-throughput-honest intel 0 whole_test tested runs

-- While it sends, with a reporting timer.
abbrev reporting_test : Tester
reporting_test = record waiting { phase = sending 3; reading = commands; results_timer = wild }

master-throughput-report_hangs_example : Ensures (IsHung [] []) (
    Tests.run intel
      (report_falls_due ∷ reads 0 (0 ∷ 0 ∷ 9 ∷ 96 ∷ 0 ∷ 15 ∷ 66 ∷ 64 ∷ []) ∷ goes_on ∷ [])
      reporting_test)
master-throughput-report_hangs_example =
    master-throughput-report_hangs intel
      (reads 0 (0 ∷ 0 ∷ 9 ∷ 96 ∷ 0 ∷ 15 ∷ 66 ∷ 64 ∷ []) ∷ goes_on ∷ []) reporting_test refl refl
      refl

-- Before the timer for the results is made: the request is written and the read is pending.
abbrev asked : Tester
asked = record (Tests.create 0) {
  phase = timing;
  reading = results;
  output = (240 ∷ []) ∷ replicate 10 send_buf;
}

asked-reached : Tests.run intel (replicate 16 goes_on) (Tests.create 0) ≡ some asked
unfolding Tests.run Tests.create
asked-reached = refl

master-throughput-early_results_example :
    (Tests.move intel (reads 0 (1 ∷ [])) asked ≡ none) ↔ (◌≡◌ {A = ℕ} 0 0)
unfolding Tests.create
master-throughput-early_results_example =
    master-throughput-early_results intel 0 (replicate 16 goes_on) asked 0 (1 ∷ []) asked-reached
      refl refl refl

-- Three reads, at the times 5, 6 and 9, in microseconds.
abbrev data_reads : List (ℕ × List ℕ)
data_reads = (5, 1 ∷ 2 ∷ []) ∷ (6, 3 ∷ []) ∷ (9, 4 ∷ 5 ∷ []) ∷ []

abbrev elapsed : ℕ → ℕ → ℕ
elapsed later earlier = later - earlier

remote-throughput-reports_example :
    (s : Throughput) × (buffer : List ℕ) × (Counts.serve intel elapsed
        (data_reads ++ (12, 240 ∷ []) ∷ [])
        Counts.create
      ≡ some (s, rearm))
    × (s.output ≡ buffer ∷ [])
    × (decode network buffer ≡ some (u32 (sum_but_last (sizes data_reads)), 4))
unfolding last
remote-throughput-reports_example =
    remote-throughput-reports intel elapsed network data_reads 9 2 12 (ground arith) (ground arith)
      refl (omega arith)

three_bytes : sum_but_last (sizes data_reads) ≡ 3
unfolding sum_but_last
three_bytes = refl

remote-throughput-early_request_example :
    Counts.handle_receive intel elapsed 5 0 ((1 ∷ 2 ∷ []) ++ 240 ∷ []) Counts.create ≡ none
unfolding Counts.create
remote-throughput-early_request_example =
    remote-throughput-early_request intel elapsed 5 (1 ∷ 2 ∷ []) [] Counts.create (ground arith)
      refl

abbrev one_read : Throughput
one_read = record { recved_bytes = (5, 2) ∷ []; stop_requested = false; output = [] }

one_read-nonempty : one_read.recved_bytes ≢ []
one_read-nonempty h = cc

remote-throughput-never_faults_example :
    (r : Throughput × Then) × (Counts.handle_receive intel elapsed 8 0 (240 ∷ 241 ∷ []) one_read
      ≡ some r)
remote-throughput-never_faults_example =
    remote-throughput-never_faults intel elapsed 8 0 (240 ∷ 241 ∷ []) one_read one_read-nonempty

-- The ten buffers of a test, read in two parts.
abbrev session_reads : List (ℕ × List ℕ)
session_reads = (5, buffers 4) ∷ (9, buffers 6) ∷ []

throughput-session_example : Reports intel network elapsed session_reads 12 1440 4
unfolding last buffers contents Tests.send_buf
throughput-session_example =
    throughput-session intel network elapsed session_reads 9 1440 12 refl (ground arith) refl
      (omega arith)
